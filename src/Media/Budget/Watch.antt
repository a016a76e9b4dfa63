-- ===== src/Media/Budget/Watch.antt =====
-- `apps/api/media/bridge.py` and `media/budget_guard.py`: the budget loop over a whole call.
use revenue_recovery_voice_a.Base.{
  ◌≡◌, ◌≢◌, ap, refl, ◌⊎◌, Bool, true, false, List, [], ◌∷◌, none, some, any, pos, FloatOps, arith,
  Bool-cases, Option-cases, inl, inr,
}
use revenue_recovery_voice_a.Media.Budget.{
  Binding, BudgetGuard, BudgetStatus, BudgetAction, end_call, send_wrap_up, should_end, is_expired,
  check, needs_wrap_up_now, mark_wrap_up_sent, watch_tick, watch,
}
use revenue_recovery_voice_a.Media.Budget.Phases.{IsBudget, check_expired}

-- At most one action, and it ends the call.
abbrev EndsOnly : List BudgetAction → Type 0
EndsOnly [] = Unit
EndsOnly (end_call b ∷ []) = Unit
EndsOnly (end_call b ∷ a ∷ as') = ⊥
EndsOnly (send_wrap_up b ∷ as') = ⊥

-- At most one wrap-up, before at most one end of the call, and nothing behind that.
abbrev pub WrapsThenEnds : List BudgetAction → Type 0
WrapsThenEnds [] = Unit
WrapsThenEnds (send_wrap_up b ∷ as') = EndsOnly as'
WrapsThenEnds (end_call b ∷ as') = EndsOnly (end_call b ∷ as')

abbrev pub ends : List BudgetAction → Bool
ends [] = false
ends (end_call b ∷ as') = true
ends (send_wrap_up b ∷ as') = ends as'

EndsOnly-WrapsThenEnds : (as' : List BudgetAction) → EndsOnly as' → WrapsThenEnds as'
EndsOnly-WrapsThenEnds [] h = tt
EndsOnly-WrapsThenEnds (end_call b ∷ []) h = tt
EndsOnly-WrapsThenEnds (end_call b ∷ a ∷ as') h = h
EndsOnly-WrapsThenEnds (send_wrap_up b ∷ as') h = absurd h

module _ (fl : FloatOps) where
  open fl use {F, of_int, le}

  -- A reading of the clock at or past `max_call_seconds`.
  abbrev past_limit : BudgetGuard F → F × F → Bool
  past_limit g (now, later) = le (of_int (pos g.budget.max_call_seconds)) now

  -- The three things that a round can do to the rest of the loop.
  data Round (now later : F) (ts : List (F × F)) (g : BudgetGuard F)
      : List BudgetAction → Type 0 where
    over : (b : Binding) → Round now later ts g (end_call b ∷ [])
    wrapping :
        (b : Binding)
        → should_end (check fl g now) ≡ false
        → g.wrapped_up ≡ false
        → Round now later ts g (send_wrap_up b ∷ watch fl ts (mark_wrap_up_sent fl g))
    idle : should_end (check fl g now) ≡ false → Round now later ts g (watch fl ts g)

  needs-unsent :
      (g : BudgetGuard F) (e : F) → needs_wrap_up_now fl g e ≢ none → g.wrapped_up ≡ false
  unfolding needs_wrap_up_now
  needs-unsent g e h = ground arith

  module _ (now later : F) (g : BudgetGuard F) where
    tick_over :
        should_end (check fl g now) ≡ true
        → watch_tick fl now later g ≡ (g, end_call (check fl g now).binding ∷ [], true)
    unfolding watch_tick
    tick_over e = ground arith

    tick_wrapping :
        should_end (check fl g now) ≡ false
        → {s : BudgetStatus F} → needs_wrap_up_now fl g later ≡ some s
        → watch_tick fl now later g
          ≡ (mark_wrap_up_sent fl g, send_wrap_up (check fl g now).binding ∷ [], false)
    unfolding watch_tick
    tick_wrapping e n = ground arith

    tick_idle :
        should_end (check fl g now) ≡ false
        → needs_wrap_up_now fl g later ≡ none
        → watch_tick fl now later g ≡ (g, [], false)
    unfolding watch_tick
    tick_idle e n = ground arith

  round :
      (now later : F) (ts : List (F × F)) (g : BudgetGuard F)
      → Round now later ts g (watch fl ((now, later) ∷ ts) g)
  unfolding watch
  round now later ts g = elim (Bool-cases (should_end (check fl g now))) [
    | inl e ↦ rw (tick_over now later g e, watch) (rw (tick_over now later g e) (over _))
    | inr e ↦ elim (Option-cases (needs_wrap_up_now fl g later)) [
      | inl n ↦ rw (tick_idle now later g e n, watch) (rw (tick_idle now later g e n) (idle e))
      | inr (s, n) ↦
          rw (tick_wrapping now later g e n, watch)
            (rw (tick_wrapping now later g e n) (wrapping _ e (needs-unsent g later (λ z. cc))))
    ]
  ]

  EndsOnly-Round :
      (now later : F) (ts : List (F × F)) (g : BudgetGuard F) {r : List BudgetAction}
      → Round now later ts g r
      → g.wrapped_up ≡ true
      → EndsOnly (watch fl ts g)
      → EndsOnly r
  EndsOnly-Round now later ts g (over b) h rest = tt
  EndsOnly-Round now later ts g (wrapping b e n) h rest = absurd (cc)
  EndsOnly-Round now later ts g (idle e) h rest = rest

  watch-EndsOnly :
      (ts : List (F × F)) (g : BudgetGuard F) → g.wrapped_up ≡ true → EndsOnly (watch fl ts g)
  unfolding watch
  watch-EndsOnly [] g h = tt
  watch-EndsOnly ((now, later) ∷ ts) g h =
      EndsOnly-Round now later ts g (round now later ts g) h (watch-EndsOnly ts g h)

  WrapsThenEnds-Round :
      (now later : F) (ts : List (F × F)) (g : BudgetGuard F) {r : List BudgetAction}
      → Round now later ts g r
      → EndsOnly (watch fl ts (mark_wrap_up_sent fl g))
      → WrapsThenEnds (watch fl ts g)
      → WrapsThenEnds r
  WrapsThenEnds-Round now later ts g (over b) sent rest = tt
  WrapsThenEnds-Round now later ts g (wrapping b e n) sent rest = sent
  WrapsThenEnds-Round now later ts g (idle e) sent rest = rest

  -- Whatever the clock readings are, the loop tells the model to wrap up at most once, ends the call at
  -- most once, and does nothing after that.
  pub watch-WrapsThenEnds : (ts : List (F × F)) (g : BudgetGuard F) → WrapsThenEnds (watch fl ts g)
  unfolding watch mark_wrap_up_sent
  watch-WrapsThenEnds [] g = tt
  watch-WrapsThenEnds ((now, later) ∷ ts) g =
      WrapsThenEnds-Round now later ts g (round now later ts g)
        (watch-EndsOnly ts (mark_wrap_up_sent fl g) refl) (watch-WrapsThenEnds ts g)

  ends-Round :
      (now later : F) (ts : List (F × F)) (g : BudgetGuard F) {r : List BudgetAction}
      → Round now later ts g r
      → (should_end (check fl g now) ≡ true)
        ⊎ ((ends (watch fl ts (mark_wrap_up_sent fl g)) ≡ true) × (ends (watch fl ts g) ≡ true))
      → ends r ≡ true
  ends-Round now later ts g (over b) h = refl
  ends-Round now later ts g (wrapping b e n) (inl h) = cc
  ends-Round now later ts g (wrapping b e n) (inr h) = h.0
  ends-Round now later ts g (idle e) (inl h) = cc
  ends-Round now later ts g (idle e) (inr h) = h.1

  expired-should_end :
      (g : BudgetGuard F) (now later : F)
      → IsBudget fl g.budget
      → past_limit g (now, later) ≡ true
      → should_end (check fl g now) ≡ true
  unfolding should_end
  expired-should_end g now later b h = ap is_expired (check_expired fl g now b h)

  -- Within the bounds of the schema, the loop ends the call no later than at the first round whose
  -- clock reading has reached `max_call_seconds`, whether the wrap-up was sent or not.
  pub watch-ends :
      (ts : List (F × F)) (g : BudgetGuard F)
      → IsBudget fl g.budget
      → any (past_limit g) ts ≡ true
      → ends (watch fl ts g) ≡ true
  unfolding mark_wrap_up_sent
  watch-ends [] g b h = cc
  watch-ends ((now, later) ∷ ts) g b h =
      ends-Round now later ts g (round now later ts g)
        (elim (Bool-cases (past_limit g (now, later))) [
          | inl here ↦ inl (expired-should_end g now later b here)
          | inr not_yet ↦
              let rest : any (past_limit g) ts ≡ true = ground arith in
              inr (watch-ends ts (mark_wrap_up_sent fl g) b rest, watch-ends ts g b rest)
        ])
