-- ===== src/Domain/Hours/First.antt =====
-- `next_open` finds the first open moment: the loop of `hours.py` against a description of what
-- "first" means that does not mention the loop.
use mathlib.Core.Path.{subst, ap, ◌∙◌}
use native.Mathlib.Decide.{ℕ_discrete}
use revenue_recovery_voice_a.Base.{
  ℕ, zero, suc, ◌+◌, ◌≤◌, ◌<◌, ◌≡◌, refl, true, false, Option, none, some, Option-cases, inl, inr,
  ok, arith, String, ℤ,
}
use revenue_recovery_voice_a.Config.{HoursConfig, ClientConfig}
use revenue_recovery_voice_a.Domain.Hours.{
  LocalTime, OpenWindow, aware, contains, in_window, window_for, at_or_after, opening, visit_day,
  next_open_from, next_open, weekday,
}

-- The business is open at the wall-clock time `t`: its day's entry parses and contains it.
abbrev OpenAt : HoursConfig → LocalTime → Type 0
OpenAt hours t = (w : OpenWindow) × (window_for hours t ≡ ok (some w)) × (contains w t.time ≡ true)

-- Every entry parses, into a window that is not empty.
abbrev NonemptyWindow : Option OpenWindow → Type 0
NonemptyWindow none = Unit
NonemptyWindow (some w) = w.start < w.end_time

pub record WindowsParse (hours : HoursConfig) : Type 0 where
  pub window : LocalTime → Option OpenWindow
  pub parses : (t : LocalTime) → window_for hours t ≡ ok (window t)
  pub nonempty : (t : LocalTime) → NonemptyWindow (window t)

-- `t` is not before `local`, and lies on a day before `day`.
abbrev Between : LocalTime → ℕ → LocalTime → Type 0
Between local day t = (at_or_after t local ≡ true) × (t.day < day)

-- An answer is the first opening from `local` on; without one, nothing opens on the next `days` days.
abbrev pub IsFirst : HoursConfig → LocalTime → ℕ → Option LocalTime → Type 0
IsFirst hours local days none =
    (t : LocalTime) → Between local (local.day + days) t → ¬ OpenAt hours t
IsFirst hours local days (some r) =
    OpenAt hours r
    × (at_or_after r local ≡ true)
    × (r.day < local.day + days)
    × ((t : LocalTime) → at_or_after t local ≡ true → at_or_after t r ≡ false → ¬ OpenAt hours t)

-- A day that the loop passes over is closed from `local` on.
visit_day-none :
    (local t : LocalTime) (k : ℕ) (w : Option OpenWindow)
    → visit_day local k w ≡ none
    → at_or_after t local ≡ true
    → t.day ≡ local.day + k
    → in_window w t.time ≡ false
unfolding visit_day in_window contains at_or_after opening
visit_day-none local t k none e after d = refl
visit_day-none local t k (some w) e after d = ground arith

-- What the loop returns on a day is open, not before `local`, and the first such time of the day.
visit_day-some :
    (local : LocalTime) (k : ℕ) (w : Option OpenWindow) {r : LocalTime}
    → NonemptyWindow w
    → visit_day local k w ≡ some r
    → (in_window w r.time ≡ true) × (at_or_after r local ≡ true) × (r.day ≡ local.day + k)
unfolding visit_day in_window contains at_or_after opening
visit_day-some local k none full e = cc
visit_day-some local k (some w) full e = (ground arith, ground arith, ground arith)

visit_day-first :
    (local t : LocalTime) (k : ℕ) (w : Option OpenWindow) {r : LocalTime}
    → visit_day local k w ≡ some r
    → at_or_after t local ≡ true
    → t.day ≡ local.day + k
    → at_or_after t r ≡ false
    → in_window w t.time ≡ false
unfolding visit_day in_window contains at_or_after opening
visit_day-first local t k none e after d before = cc
visit_day-first local t k (some w) e after d before = ground arith

day_before : (t r : LocalTime) → at_or_after t r ≡ false → t.day ≤ r.day
unfolding at_or_after
day_before t r h = ground arith

in_window-some :
    (w : Option OpenWindow) (t : ℕ)
    → in_window w t ≡ true
    → (v : OpenWindow) × (w ≡ some v) × (contains v t ≡ true)
unfolding in_window
in_window-some none t h = cc
in_window-some (some v) t h = (v, refl, h)

module _ (hours : HoursConfig) (local : LocalTime) (p : WindowsParse hours) where
  -- The window depends on the day alone.
  window_day :
      (t : LocalTime) → window_for hours t ≡ window_for hours (record local { day = t.day })
  unfolding window_for weekday
  window_day t = refl

  OpenAt-window :
      (t : LocalTime) (w : Option OpenWindow)
      → window_for hours (record local { day = t.day }) ≡ ok w
      → OpenAt hours t
      → in_window w t.time ≡ true
  unfolding in_window
  OpenAt-window t w e (v, parsed, inside) = ground (arith, window_day t)

  not-OpenAt :
      (t : LocalTime) (w : Option OpenWindow)
      → window_for hours (record local { day = t.day }) ≡ ok w
      → in_window w t.time ≡ false
      → ¬ OpenAt hours t
  not-OpenAt t w e shut o = ground (arith, OpenAt-window t w e o)

  abbrev visited : ℕ → Option OpenWindow
  visited k = p.window (record local { day = local.day + k })

  -- One more day without an opening.
  pass_day :
      (k : ℕ)
      → ((t : LocalTime) → Between local (local.day + k) t → ¬ OpenAt hours t)
      → visit_day local k (visited k) ≡ none
      → (t : LocalTime) → Between local (local.day + (k + 1)) t
      → ¬ OpenAt hours t
  pass_day k earlier passed t (after, before) o = elim (ℕ_discrete t.day (local.day + k)) [
    | yes today ↦
        not-OpenAt t (visited k) (rw today (p.parses (record local { day = local.day + k })))
          (visit_day-none local t k (visited k) passed after today) o
    | no other ↦ earlier t (after, omega arith) o
  ]

  hit_day :
      (k days : ℕ) {r : LocalTime}
      → ((t : LocalTime) → Between local (local.day + k) t → ¬ OpenAt hours t)
      → visit_day local k (visited k) ≡ some r
      → k < days
      → IsFirst hours local days (some r)
  hit_day k days {r} earlier hit more =
      let (inside, after, today) =
        visit_day-some local k (visited k) (p.nonempty (record local { day = local.day + k }))
          hit in
      let (v, is_v, open_v) = in_window-some (visited k) r.time inside in
      (
        (
          v,
          window_day r ∙ rw today (p.parses (record local { day = local.day + k }) ∙ ap ok is_v),
          open_v,
        ),
        after,
        omega arith,
        λ t t_after t_before o. elim (ℕ_discrete t.day (local.day + k)) [
          | yes same ↦
              not-OpenAt t (visited k) (rw same (p.parses (record local { day = local.day + k })))
                (visit_day-first local t k (visited k) hit t_after same t_before) o
          | no other ↦ earlier t (t_after, omega (arith, day_before t r t_before)) o
        ],
      )

  -- The loop from the day `k` days on, when no day before that is open from `local` on.
  IsFirst-from :
      (rounds k : ℕ)
      → ((t : LocalTime) → Between local (local.day + k) t → ¬ OpenAt hours t)
      → (o : Option LocalTime) × (next_open_from hours local rounds k ≡ ok o)
        × IsFirst hours local (k + rounds) o
  unfolding next_open_from
  IsFirst-from zero k earlier = (none, refl, λ t b. earlier t (b.0, omega arith))
  IsFirst-from (suc rounds) k earlier =
      let e = p.parses (record local { day = local.day + k }) in
      elim (Option-cases (visit_day local k (visited k))) [
        | inl passed ↦
            let (o, found, first) = IsFirst-from rounds (k + 1) (pass_day k earlier passed) in
            (
              o,
              rw (e, next_open_from) (rw passed found),
              subst (λ (n : ℕ). IsFirst hours local n o) (omega arith) first,
            )
        | inr (r, hit) ↦ (
          some r,
          rw (e, next_open_from) (rw hit),
          hit_day k (k + suc rounds) earlier hit (omega arith),
        )
      ]

nothing_before : (local t : LocalTime) → Between local (local.day + 0) t → ⊥
unfolding at_or_after
nothing_before local t b = ground arith

-- On a configuration whose entries parse into windows that are not empty, `next_open` raises no
-- exception. What it returns is the first moment from `now` on at which the business is open, and
-- when it returns nothing the business does not open on the day of `now` nor on the
-- `horizon_days` days after it.
pub next_open-IsFirst :
    (zone : String → ℤ → LocalTime) {F : Type 0} (cfg : ClientConfig F) (now : ℤ) (horizon_days : ℕ)
    → WindowsParse cfg.hours
    → let local = zone cfg.timezone now in
      (o : Option LocalTime) × (next_open zone cfg (aware now) horizon_days ≡ ok o)
      × IsFirst cfg.hours local (horizon_days + 1) o
unfolding next_open
next_open-IsFirst zone cfg now horizon_days p =
    let local = zone cfg.timezone now in
    let (o, found, first) =
      IsFirst-from cfg.hours local p (horizon_days + 1) 0
        (λ t b. absurd (nothing_before local t b)) in
    (o, found, subst (λ (n : ℕ). IsFirst cfg.hours local n o) (omega arith) first)
