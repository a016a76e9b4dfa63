-- ===== src/Media/Bridge/Turns/Once.antt =====
-- `apps/api/media/bridge.py`: the check of the escalation, its announcements and its recursion.
use revenue_recovery_voice_a.Base.{
  ℕ, zero, suc, ◌≤◌, Bool, true, false, [], ◌∷◌, ◌++◌, FloatOps, ◌≡◌, refl, arith, Bool-cases,
  Option-cases, Result-cases, inl, inr, Result, ok, err, ◌∙◌, sym,
}
use revenue_recovery_voice_a.Domain.Escalation.{EscalationDecision, should_escalate}
use revenue_recovery_voice_a.Media.Bridge.{
  escalation, emitted, escalated, Bridge, Handler, resume, ◌>>◌, skip, modify, send, when, emit,
}
use revenue_recovery_voice_a.Media.Bridge.Turns.{
  Setup, on_state, after_dispatch, dispatch, transfer, announce, escalate, check_escalation,
}
use revenue_recovery_voice_a.Tools.Registry.{get}
use revenue_recovery_voice_a.Tools.Dispatch.{FunctionCall, dispatch_with_masking}
use revenue_recovery_voice_a.Media.Bridge.Turns.Counts.{
  as_event, as_hook, total, total-append, IsQuiet, KeepsP, resume-keeps,
}
use revenue_recovery_voice_a.Media.Bridge.Turns.Quiet.{
  when-Keeps, preempt-Keeps, transfer-Keeps, note_invocation-Keeps,
}

-- The escalations that a state allows.
abbrev pub bound : Bool → ℕ
bound true = 1
bound false = 0

module _ {F S : Type 0} where
  -- The event and the call of the hook are sent at most once each, and not before the state says
  -- that the call is escalated.
  abbrev pub IsOnce : Bridge F S → Type 0
  IsOnce b =
      (total as_event b.sent ≤ bound b.state.escalated)
      × (total as_hook b.sent ≤ bound b.state.escalated)

  abbrev HasEscalated : Bridge F S → Type 0
  HasEscalated b = b.state.escalated ≡ true

  pub IsOnce-IsQuiet : IsQuiet {F = F} {S = S} IsOnce
  IsOnce-IsQuiet = record {
    frame = λ b b' sends says o. rw (sends, says) o;
    sends = λ b out e h o.
        omega (arith, total-append as_event b.sent out, total-append as_hook b.sent out);
  }

  escalated-IsQuiet : IsQuiet {F = F} {S = S} HasEscalated
  escalated-IsQuiet = record { frame = λ b b' sends says o. says ∙ o; sends = λ b out e h o. o }

module _ (fl : FloatOps) {S : Type 0} (setup : Setup fl S) where
  open fl use {F}
  open setup use {hooks, config, registry, context, latency_ms, redact_pan}

  announce-IsOnce :
      (decision : EscalationDecision) (b : Bridge F S)
      → b.state.escalated ≡ false
      → IsOnce b
      → IsOnce (announce fl setup decision b).1
  unfolding announce on_state modify ◌>>◌ emit when send skip
  announce-IsOnce decision b calm o =
      let told = b.sent ++ (emitted (escalation decision) ∷ []) in
      let one = total-append as_event b.sent (emitted (escalation decision) ∷ []) in
      let none_yet = total-append as_hook b.sent (emitted (escalation decision) ∷ []) in
      elim (Bool-cases hooks.on_event) [
        | inl tells ↦ elim (Bool-cases hooks.on_escalation) [
          | inl calls ↦ rw tells (
              rw calls (
                ground (
                  arith,
                  one,
                  none_yet,
                  total-append as_event told (escalated decision ∷ []),
                  total-append as_hook told (escalated decision ∷ []),
                )))
          | inr silent ↦ rw tells (rw silent (ground (arith, one, none_yet)))
        ]
        | inr quiet ↦ elim (Bool-cases hooks.on_escalation) [
          | inl calls ↦ rw quiet (
              rw calls (
                ground (
                  arith,
                  total-append as_event b.sent (escalated decision ∷ []),
                  total-append as_hook b.sent (escalated decision ∷ []),
                )))
          | inr silent ↦ rw quiet (rw silent (ground arith))
        ]
      ]

  escalate-IsOnce :
      (check : Handler F S) (decision : EscalationDecision) (b : Bridge F S)
      → KeepsP IsOnce check
      → b.state.escalated ≡ false
      → IsOnce b
      → IsOnce (escalate fl setup check decision b).1
  unfolding escalate ◌>>◌
  escalate-IsOnce check decision b k calm o =
      resume-keeps _ _
        (resume-keeps (announce fl setup decision b) _ (announce-IsOnce decision b calm o) (
          when-Keeps fl setup IsOnce IsOnce-IsQuiet _
            (preempt-Keeps fl setup IsOnce IsOnce-IsQuiet)))
        (transfer-Keeps fl setup IsOnce IsOnce-IsQuiet check decision k)

  pub check_escalation-IsOnce : (depth : ℕ) → KeepsP IsOnce (check_escalation fl setup depth)
  unfolding check_escalation skip
  check_escalation-IsOnce zero = record { keeps = λ b o. o }
  check_escalation-IsOnce (suc depth) = record {
    keeps = λ b o. elim (Bool-cases b.state.escalated) [
      | inl already ↦ rw (already, check_escalation) o
      | inr calm ↦ elim (Option-cases (should_escalate b.state config.escalation)) [
        | inl well ↦ rw (calm, check_escalation) (rw (well, check_escalation) o)
        | inr (decision, due) ↦
            rw (calm, check_escalation)
              (rw (due, check_escalation)
                (escalate-IsOnce (check_escalation fl setup depth) decision b
                  (check_escalation-IsOnce depth) calm o))
      ]
    ];
  }

  resume-same :
      (h h' : Handler F S)
      → ((b : Bridge F S) → HasEscalated b → h b ≡ h' b)
      → (r : Result (Unit {0}) × Bridge F S) → HasEscalated r.1
      → resume r h ≡ resume r h'
  resume-same h h' same (ok done, b) e = same b e
  resume-same h h' same (err x, b) e = refl

  -- Two checks that agree on a call that is escalated.
  module _ (c c' : Handler F S) (same : (b : Bridge F S) → HasEscalated b → c b ≡ c' b) where
    dispatch-same :
        (call : FunctionCall) (b : Bridge F S)
        → HasEscalated b
        → dispatch fl setup c call b ≡ dispatch fl setup c' call b
    unfolding dispatch after_dispatch ◌>>◌
    dispatch-same call b h =
        let d =
          dispatch_with_masking latency_ms hooks.on_invocation call registry context b.world in
        elim (Result-cases d.0) [
          | inr (e, bad) ↦ rw (bad, dispatch) refl
          | inl ((inv, world), good) ↦
              rw (good, dispatch)
                (resume-same c c' same _
                  ((note_invocation-Keeps fl setup HasEscalated escalated-IsQuiet inv).keeps _ h))
        ]

    transfer-same :
        (decision : EscalationDecision) (b : Bridge F S)
        → HasEscalated b
        → transfer fl setup c decision b ≡ transfer fl setup c' decision b
    unfolding transfer
    transfer-same decision b h = elim (Option-cases (get "transfer_to_human" registry)) [
      | inl absent ↦ rw (absent, transfer) refl
      | inr (spec, present) ↦ rw (present, transfer) (dispatch-same _ b h)
    ]

    escalate-same :
        (decision : EscalationDecision) (b : Bridge F S)
        → HasEscalated (announce fl setup decision b).1
        → escalate fl setup c decision b ≡ escalate fl setup c' decision b
    unfolding escalate ◌>>◌
    escalate-same decision b h =
        resume-same (transfer fl setup c decision) (transfer fl setup c' decision)
          (transfer-same decision) _
          (resume-keeps (announce fl setup decision b) _ h (
            when-Keeps fl setup HasEscalated escalated-IsQuiet _
              (preempt-Keeps fl setup HasEscalated escalated-IsQuiet)))

  -- The check of a call that is escalated.
  check_escalation-settled :
      (depth : ℕ) (b : Bridge F S) → HasEscalated b → check_escalation fl setup depth b ≡ (ok tt, b)
  unfolding check_escalation skip
  check_escalation-settled zero b h = refl
  check_escalation-settled (suc depth) b h = ground arith

  announce-HasEscalated :
      (decision : EscalationDecision) (b : Bridge F S)
      → HasEscalated (announce fl setup decision b).1
  unfolding announce on_state modify ◌>>◌ emit when send skip
  announce-HasEscalated decision b = elim (Bool-cases hooks.on_event) [
    | inl tells ↦ elim (Bool-cases hooks.on_escalation) [
      | inl calls ↦ rw tells (rw calls refl)
      | inr silent ↦ rw tells (rw silent refl)
    ]
    | inr quiet ↦ elim (Bool-cases hooks.on_escalation) [
      | inl calls ↦ rw quiet (rw calls refl)
      | inr silent ↦ rw quiet (rw silent refl)
    ]
  ]

  -- The checks of an escalation, which dispatch a transfer that checks again, come to an end: however
  -- deep they are allowed to call one another, the outcome is that of one check, whose own
  -- dispatch finds the call escalated.
  pub check_escalation-ends :
      (depth : ℕ) (b : Bridge F S)
      → check_escalation fl setup (suc depth) b ≡ check_escalation fl setup 1 b
  unfolding check_escalation
  check_escalation-ends depth b = elim (Bool-cases b.state.escalated) [
    | inl already ↦ rw (already, check_escalation) refl
    | inr calm ↦ elim (Option-cases (should_escalate b.state config.escalation)) [
      | inl well ↦ rw (calm, check_escalation) (rw (well, check_escalation) refl)
      | inr (decision, due) ↦
          rw (calm, check_escalation)
            (rw (due, check_escalation)
              (escalate-same (check_escalation fl setup depth) (check_escalation fl setup 0)
                (λ b' h.
                  check_escalation-settled depth b' h ∙ sym (check_escalation-settled 0 b' h))
                decision b (announce-HasEscalated decision b)))
    ]
  ]
