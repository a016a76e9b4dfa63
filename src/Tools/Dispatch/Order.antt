-- ===== src/Tools/Dispatch/Order.antt =====
-- `apps/api/tools/dispatch.py`: what goes back to the model for a function call, and in which
-- order.
use revenue_recovery_voice_a.Base.{
  ℕ, Bool, true, false, List, [], ◌∷◌, ◌++◌, Option, none, some, Text, Json, obj, Fields, ok, ◌≡◌,
  refl, sym, ap, ◌∙◌, arith, Bool-cases, Option-cases, inl, inr, if◌then◌else◌,
}
use revenue_recovery_voice_a.Domain.State.{ToolStatus}
use revenue_recovery_voice_a.Tools.Registry.{
  ToolSpec, ToolRegistry, Invocation, get, masks_latency, has_filler, run_tool, attempt,
}
use revenue_recovery_voice_a.Tools.Registry.Attempts.{run_tool_attempts}
use revenue_recovery_voice_a.Tools.Dispatch.{
  FunctionCall, Message, say_out_of_band, function_output, create_response, on_invocation,
  return_to_model, with_filler, dispatch_known, dispatch_with_masking,
}

module _ {S : Type 0} (millis : S → S → ℕ) where
  -- The line that is spoken first for the tool that the registry has, if any.
  abbrev pub filler_line : Option (ToolSpec S) → List Message
  filler_line none = []
  filler_line (some spec) = elim spec.filler_phrase [
    | none ↦ []
    | some line ↦ if masks_latency spec then say_out_of_band line ∷ [] else []
  ]

  abbrev pub is_masked : Option (ToolSpec S) → Bool
  is_masked none = false
  is_masked (some spec) = masks_latency spec

  masks_latency-has_filler :
      (spec : ToolSpec S) → masks_latency spec ≡ true → has_filler spec.filler_phrase ≡ true
  unfolding masks_latency
  masks_latency-has_filler spec h = ground arith

  filler_line_plain :
      (spec : ToolSpec S) → masks_latency spec ≡ false → filler_line (some spec) ≡ []
  filler_line_plain spec plain = elim (Option-cases spec.filler_phrase) [
    | inl silent ↦ rw silent refl
    | inr (line, spoken) ↦ rw spoken (rw plain refl)
  ]

  filler_line_masked :
      (o : Option (ToolSpec S)) {spec : ToolSpec S} {line : Text}
      → o ≡ some spec
      → masks_latency spec ≡ true
      → spec.filler_phrase ≡ some line
      → filler_line o ≡ say_out_of_band line ∷ []
  filler_line_masked o found masked spoken = rw found (rw spoken (rw masked refl))

  spoken_first :
      (observed : Bool) (call : FunctionCall) (registry : ToolRegistry S) (context : Fields)
      (world : S) {spec : ToolSpec S} {line : Text}
      → get call.name registry ≡ some spec
      → masks_latency spec ≡ true
      → spec.filler_phrase ≡ some line
      → dispatch_with_masking millis observed call registry context world
        ≡ dispatch_known millis observed call spec context true (say_out_of_band line ∷ []) world
  unfolding dispatch_with_masking dispatch_known run_tool attempt
  spoken_first observed call registry context world found masked spoken =
      rw (found, dispatch_with_masking)
        (rw (masked, dispatch_with_masking) (rw (spoken, dispatch_with_masking) refl))

  -- What the model gets after the handler: the output, and the request to go on; then the callback.
  abbrev pub answer_of : Bool → FunctionCall → Invocation → List Message
  answer_of observed call inv =
      function_output call.call_id inv.result
      ∷ create_response
      ∷ (if observed then on_invocation inv ∷ [] else [])

  -- Where the answer's result comes from: the run of the registered tool, or a denial that runs nothing.
  abbrev pub IsResultOf : Option (ToolSpec S) → Fields → Json → S → Invocation → S → Type 0
  IsResultOf none context arguments world inv world' =
      (inv.result.status ≡ ToolStatus.denied) × (world' ≡ world)
  IsResultOf (some spec) context arguments world inv world' =
      (ran : Invocation) × (run_tool spec millis context arguments world ≡ ok (ran, world'))
      × (inv.result ≡ ran.result)

  known :
      (observed : Bool) (call : FunctionCall) (spec : ToolSpec S) (context arguments : Fields)
      (played : Bool) (sent : List Message) (world : S)
      → call.arguments ≡ obj arguments
      → (inv : Invocation) × (world' : S) × (dispatch_known millis observed call spec context played
            sent world
          ≡ (ok (inv, world'), sent ++ answer_of observed call inv))
        × (inv.filler_played ≡ played)
        × IsResultOf (some spec) context call.arguments world inv world'
  unfolding dispatch_known return_to_model
  known observed call spec context arguments played sent world dict =
      let (inv, world', returned, counted, left) =
        run_tool_attempts spec millis context arguments world in
      (
        with_filler played inv,
        world',
        rw (dict, dispatch_known) (rw (returned, dispatch_known) refl),
        refl,
        (inv, rw dict returned, refl),
      )

  -- A call with a dict of arguments gets exactly one answer, whatever tool it names and whatever the
  -- handler does: the filler line first if the registered tool masks its latency and only then, and
  -- after it the function output with the call's id, the request for a response and the callback.
  -- `filler_played` records whether the line was spoken. The result is that of the run of the registered
  -- tool; for a tool that the registry does not have it is a denial, and nothing is run.
  pub dispatch-answers :
      (observed : Bool) (call : FunctionCall) (registry : ToolRegistry S)
      (context arguments : Fields) (world : S)
      → call.arguments ≡ obj arguments
      → (inv : Invocation) × (world' : S) × (dispatch_with_masking millis observed call registry
            context world
          ≡ (ok (inv, world'), filler_line (get call.name registry) ++ answer_of observed call inv))
        × (inv.filler_played ≡ is_masked (get call.name registry))
        × IsResultOf (get call.name registry) context call.arguments world inv world'
  unfolding dispatch_with_masking return_to_model
  dispatch-answers observed call registry context arguments world dict =
      elim (Option-cases (get call.name registry)) [
        | inl unknown ↦ rw (unknown, dispatch_with_masking) (_, world, refl, refl, (refl, refl))
        | inr (spec, found) ↦ elim (Bool-cases (masks_latency spec)) [
          | inr plain ↦
              let (inv, world', answer, played, made) =
                known observed call spec context arguments false [] world dict in
              (
                inv,
                world',
                rw (found, dispatch_with_masking)
                    (rw (plain, dispatch_with_masking)
                      (answer
                        ∙ ap
                            (λ (ms : List Message).
                              (ok (inv, world'), ms ++ answer_of observed call inv))
                            (sym (filler_line_plain spec plain)))),
                rw found (rw plain played),
                rw found made,
              )
          | inl masked ↦ elim (Option-cases spec.filler_phrase) [
            | inl silent ↦ ground (arith, masks_latency-has_filler spec masked, silent)
            | inr (line, spoken) ↦
                let (inv, world', answer, played, made) =
                  known observed call spec context arguments true (say_out_of_band line ∷ []) world
                    dict in
                (
                  inv,
                  world',
                  spoken_first observed call registry context world {spec = spec} {line = line}
                        found masked spoken
                      ∙ answer
                      ∙ ap
                          (λ (ms : List Message).
                            (ok (inv, world'), ms ++ answer_of observed call inv))
                          (sym (
                            filler_line_masked (get call.name registry) {spec = spec} {line = line}
                              found masked spoken)),
                  rw found (rw masked played),
                  rw found made,
                )
          ]
        ]
      ]
