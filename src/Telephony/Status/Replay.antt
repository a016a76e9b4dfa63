-- ===== src/Telephony/Status/Replay.antt =====
-- `apps/api/telephony/status_webhook.py`: a status callback that Twilio delivers again.
use Prim.Native.String.{◌++◌}
use Prim.Native.String.append
use revenue_recovery_voice_a.Base.{
  Bool, true, false, not, ◌&&◌, some, String, Text, FloatOps, is_some, ◌≡◌, refl, arith,
  if◌then◌else◌, Bool-cases, Option-cases, inl, inr, ap, ◌∙◌,
}
use revenue_recovery_voice_a.Resilience.{Exchange, Outside}
use revenue_recovery_voice_a.Store.{Store, Call, get_call_by_sid, finish_call}
use revenue_recovery_voice_a.Store.Rows.{UniqueIds, find_sid-update_calls}
use revenue_recovery_voice_a.Telephony.Sms.{Settings, is_blank, send_sms}
use revenue_recovery_voice_a.Telephony.Sms.Frame.{send_sms-calls, send_twice}
use revenue_recovery_voice_a.Telephony.Status.{
  str_in, terminal_statuses, is_missed, finalise, call_status, missed_call_body,
}

-- After `finalise`, the call is found by its SID with an outcome.
record Finalised (sid : String) (call : Call) (store : Store) : Type 0 where
  after : Call
  found : get_call_by_sid sid store ≡ some after
  closed : is_some after.outcome ≡ true
  from : after.from_e164 ≡ call.from_e164
  client : after.client_id ≡ call.client_id

finalised :
    (sid status : String) (call : Call) (store : Store)
    → UniqueIds store.calls
    → get_call_by_sid sid store ≡ some call
    → Finalised sid call (finalise call status store)
unfolding finalise finish_call get_call_by_sid
finalised sid status call store unique found = elim (Option-cases call.outcome) [
  | inl open_call ↦
      rw (open_call, finalise)
        (record {
          after = _;
          found = find_sid-update_calls sid _ store.calls {call = call} (λ c. refl) unique found;
          closed = refl;
          from = refl;
          client = refl;
        })
  | inr (outcome, closed) ↦
      rw (closed, finalise)
        (record {
          after = call;
          found = found;
          closed = ap is_some closed;
          from = refl;
          client = refl;
        })
]

finalise_closed :
    (call : Call) (status : String) (store : Store)
    → is_some call.outcome ≡ true
    → finalise call status store ≡ store
unfolding finalise
finalise_closed call status store h = rw h refl

module _ (fl : FloatOps) {S : Type 0} (io : Outside fl.F S)
    (post : String → Text → S → Exchange × S) (settings : Settings) where
  named_key : (sid : String) → is_blank ("missed_call:" ++ sid) ≡ false
  named_key sid = ap is_blank (λ i. append.cons "m" "issed_call:" sid i)

  get_call_by_sid-calls :
      (sid : String) (s t : Store)
      → s.calls ≡ t.calls
      → get_call_by_sid sid s ≡ get_call_by_sid sid t
  unfolding get_call_by_sid
  get_call_by_sid-calls sid s t h = rw h refl

  -- Handling a terminal callback of a known call.
  handled :
      (sid status : String) (store : Store) (world : S) {call : Call}
      → str_in status terminal_statuses ≡ true
      → get_call_by_sid sid store ≡ some call
      → (call_status fl io post settings true sid status (store, world)).1 ≡ (
          if is_missed status && not (is_blank call.from_e164)
          then (send_sms fl io post settings call.from_e164 missed_call_body
              (some call.client_id)
              (some ("missed_call:" ++ sid))
              (finalise call status store, world)).1
          else (finalise call status store, world))
  unfolding call_status
  handled sid status store world {call} terminal found =
      elim (Bool-cases (is_missed status && not (is_blank call.from_e164))) [
        | inl text ↦ rw terminal (rw found (rw text refl))
        | inr quiet ↦ rw terminal (rw found (rw quiet refl))
      ]

  forbidden :
      (sid status : String) (store : Store) (world : S)
      → (call_status fl io post settings false sid status (store, world)).1 ≡ (store, world)
  unfolding call_status
  forbidden sid status store world = refl

  -- A callback that is an intermediate ping, or names a call that is not known.
  ignored :
      (sid status : String) (store : Store) (world : S)
      → (str_in status terminal_statuses && is_some (get_call_by_sid sid store)) ≡ false
      → (call_status fl io post settings true sid status (store, world)).1 ≡ (store, world)
  unfolding call_status
  ignored sid status store world h = elim (Bool-cases (str_in status terminal_statuses)) [
    | inr ping ↦ rw ping refl
    | inl terminal ↦ elim (Option-cases (get_call_by_sid sid store)) [
      | inl unknown ↦ rw terminal (rw unknown refl)
      | inr (call, found) ↦ ground (arith, h, terminal, found)
    ]
  ]

  -- A status callback that Twilio delivers again changes nothing and texts nobody: after one delivery,
  -- whatever came of it, the next delivery of the same callback leaves the store and the outside as
  -- they are. The ids of the calls are a primary key, and the call's client id is not empty.
  pub call_status_replay :
      (valid : Bool) (sid status : String) (store : Store) (world : S)
      → UniqueIds store.calls
      → ((call : Call) → get_call_by_sid sid store ≡ some call → is_blank call.client_id ≡ false)
      → let once = (call_status fl io post settings valid sid status (store, world)).1 in
        (call_status fl io post settings valid sid status once).1 ≡ once
  call_status_replay false sid status store world unique named =
      let once = forbidden sid status store world in rw once once
  call_status_replay true sid status store world unique named =
      elim (Bool-cases (str_in status terminal_statuses)) [
        | inr ping ↦ let once = ignored sid status store world (ground arith) in rw once once
        | inl terminal ↦ elim (Option-cases (get_call_by_sid sid store)) [
          | inl unknown ↦ let once = ignored sid status store world (ground arith) in rw once once
          | inr (call, found) ↦
              let f = finalised sid status call store unique found in
              elim (Bool-cases (is_missed status && not (is_blank call.from_e164))) [
                | inr quiet ↦
                    let store' = finalise call status store in
                    let once : (call_status fl io post settings true sid status (store, world)).1
                        ≡ (store', world) =
                      rw quiet at (handled sid status store world {call = call} terminal found) in
                    let again : (call_status fl io post settings true sid status (store', world)).1
                        ≡ (store', world) =
                      rw (finalise_closed f.after status store' f.closed) at (
                        rw quiet at (
                          rw f.from at
                            (handled sid status store' world {call = f.after} terminal f.found))) in
                    rw once again
                | inl text ↦
                    let store' = finalise call status store in
                    let key = "missed_call:" ++ sid in
                    let sent =
                      send_sms fl io post settings call.from_e164 missed_call_body
                        (some call.client_id) (some key) (store', world) in
                    let once : (call_status fl io post settings true sid status (store, world)).1
                        ≡ sent.1 =
                      rw text at (handled sid status store world {call = call} terminal found) in
                    let still : get_call_by_sid sid sent.1.0 ≡ some f.after =
                      get_call_by_sid-calls sid sent.1.0 store' (
                        send_sms-calls fl io post settings call.from_e164 missed_call_body
                          (some call.client_id) (some key) store' world)
                      ∙ f.found in
                    let again : (call_status fl io post settings true sid status sent.1).1
                        ≡ (send_sms fl io post settings call.from_e164 missed_call_body
                            (some call.client_id) (some key) sent.1).1 =
                      rw (finalise_closed f.after status sent.1.0 f.closed) at (
                        rw f.client at (
                          rw text at (
                            rw f.from at (
                              handled sid status sent.1.0 sent.1.1 {call = f.after} terminal
                                still)))) in
                    rw once (
                      again
                      ∙ ap (λ r. r.1)
                          (send_twice fl io post settings call.from_e164 call.client_id key
                            missed_call_body store' world (named call found) (named_key sid)))
              ]
        ]
      ]
