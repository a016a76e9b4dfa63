-- ===== src/Media/Bridge/Turns/Counts.antt =====
-- `apps/api/media/bridge.py`: the escalations among what the bridge has sent, and the properties
-- that only they can change.
use revenue_recovery_voice_a.Base.{
  ℕ, ◌+◌, List, [], ◌∷◌, ◌++◌, ◌≡◌, refl, arith, map, Result, ok, err,
}
use revenue_recovery_voice_a.Media.Bridge.{
  escalation, Output, to_dispatch, emitted, escalated, Bridge, Handler, resume,
}
use revenue_recovery_voice_a.Tools.Dispatch.{Message}

-- An escalation that is sent, as the event and as the call of the hook.
abbrev pub as_event : Output → ℕ
as_event (emitted (escalation d)) = 1
as_event _ = 0

abbrev pub as_hook : Output → ℕ
as_hook (escalated d) = 1
as_hook _ = 0

abbrev pub total : (Output → ℕ) → List Output → ℕ
total weight [] = 0
total weight (out ∷ rest) = weight out + total weight rest

pub total-append :
    (weight : Output → ℕ) (xs ys : List Output)
    → total weight (xs ++ ys) ≡ total weight xs + total weight ys
total-append weight [] ys = omega arith
total-append weight (x ∷ xs) ys = omega (arith, total-append weight xs ys)

-- A dispatch sends no escalation.
pub total-dispatch :
    (messages : List Message)
    → (total as_event (map to_dispatch messages) ≡ 0)
      × (total as_hook (map to_dispatch messages) ≡ 0)
total-dispatch [] = (refl, refl)
total-dispatch (m ∷ ms) = omega (arith, total-dispatch ms)

-- What only the escalations among the outputs and the flag `escalated` can change.
pub record IsQuiet {F S : Type 0} (P : Bridge F S → Type 0) : Type 0 where
  pub frame :
      (b b' : Bridge F S) → b'.sent ≡ b.sent → b'.state.escalated ≡ b.state.escalated → P b → P b'
  pub sends :
      (b : Bridge F S) (out : List Output)
      → total as_event out ≡ 0
      → total as_hook out ≡ 0
      → P b
      → P (record b { sent = b.sent ++ out })

-- A handler that keeps a property.
pub record KeepsP {F S : Type 0} (P : Bridge F S → Type 0) (h : Handler F S) : Type 0 where
  pub keeps : (b : Bridge F S) → P b → P (h b).1

pub resume-keeps :
    {F S : Type 0} {P : Bridge F S → Type 0} (r : Result (Unit {0}) × Bridge F S)
    (later : Handler F S)
    → P r.1
    → KeepsP P later
    → P (resume r later).1
resume-keeps (ok done, b) later h k = k.keeps b h
resume-keeps (err e, b) later h k = h
