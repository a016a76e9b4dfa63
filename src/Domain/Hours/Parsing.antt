-- ===== src/Domain/Hours/Parsing.antt =====
-- What the validator of `schema.py` promises to `_parse_range`.
use revenue_recovery_voice_a.Base.{
  ℕ, ◌<◌, ◌≡◌, refl, ap, ◌∙◌, true, false, [], ◌∷◌, Option, none, some, Text, codes, text_eq,
  length, Option-cases, Bool-cases, text_eq_sound, ◌≤◌, inl, inr, ◌-◌, ◌*◌, ◌+◌, ok, err,
  value_error, arith, is_digit, is_decimal, All,
}
use revenue_recovery_voice_a.Config.Valid.{
  is_hour, match_clock, match_dash, at_end, matches_time_range, valid_range,
}
use revenue_recovery_voice_a.Domain.Hours.{
  OpenWindow, cut_dash, split_range, two_digits, from_isoformat, parse_range, minute_us, day_us,
}

-- The five characters that `match_clock` consumes are a clock time.
abbrev IsClock : ℕ → ℕ → ℕ → ℕ → ℕ → Type 0
IsClock a b c d e =
    (is_hour a b ≡ true) × (c ≡ b':') × (is_digit d ≡ true) × (d < b'6') × (is_decimal e ≡ true)

-- Every character is one of ASCII.
abbrev pub IsAscii : Text → Type 0
IsAscii = All (λ c. c < 128)

-- A text that begins with the clock time, with the rest that follows it.
record ClockThen (v r : Text) : Type 0 where
  a : ℕ
  b : ℕ
  c : ℕ
  d : ℕ
  e : ℕ
  shape : v ≡ a ∷ b ∷ c ∷ d ∷ e ∷ r
  clock : IsClock a b c d e

match_clock-inv : (v : Text) {r : Text} → match_clock v ≡ some r → ClockThen v r
unfolding match_clock is_digit is_hour is_decimal
match_clock-inv [] h = cc
match_clock-inv (a ∷ []) h = cc
match_clock-inv (a ∷ b ∷ []) h = cc
match_clock-inv (a ∷ b ∷ c ∷ []) h = cc
match_clock-inv (a ∷ b ∷ c ∷ d ∷ []) h = cc
match_clock-inv (a ∷ b ∷ c ∷ d ∷ e ∷ s) h = record {
  a = a;
  b = b;
  c = c;
  d = d;
  e = e;
  shape = ground arith;
  clock = ground arith;
}

match_dash-inv : (v : Text) {r : Text} → match_dash v ≡ some r → v ≡ b'-' ∷ r
unfolding match_dash
match_dash-inv [] h = cc
match_dash-inv (c ∷ s) h = ground arith

abbrev clock_time : ℕ → ℕ → ℕ → ℕ → ℕ
clock_time a b d e =
    (((a - b'0') * 10 + (b - b'0')) * 60 + ((d - b'0') * 10 + (e - b'0'))) * minute_us

IsClock-from_isoformat :
    (a b c d e : ℕ)
    → IsClock a b c d e
    → b < 128
    → e < 128
    → (from_isoformat (a ∷ b ∷ c ∷ d ∷ e ∷ []) ≡ ok (clock_time a b d e))
      × (clock_time a b d e < day_us)
unfolding from_isoformat two_digits is_hour is_digit is_decimal
IsClock-from_isoformat a b c d e h ascii_b ascii_e = (ground arith, ground arith)

-- Nothing in a clock time is a dash, so the cut falls behind it.
IsClock-cut_dash :
    (a b c d e : ℕ) (s : Text)
    → IsClock a b c d e
    → cut_dash (a ∷ b ∷ c ∷ d ∷ e ∷ s) ≡ (a ∷ b ∷ c ∷ d ∷ e ∷ (cut_dash s).0, (cut_dash s).1)
unfolding cut_dash is_hour is_digit is_decimal
IsClock-cut_dash a b c d e s h = ground arith

record RangeParts (v : Text) : Type 0 where
  rest : Text
  tail : Text
  first : ClockThen v (b'-' ∷ rest)
  second : ClockThen rest tail
  ended : at_end tail ≡ true

matches_time_range-inv : (v : Text) → matches_time_range v ≡ true → RangeParts v
unfolding matches_time_range
matches_time_range-inv v h = elim (Option-cases (match_clock v)) [
  | inl none₁ ↦ absurd (ground arith)
  | inr (r, e₁) ↦ elim (Option-cases (match_dash r)) [
    | inl none₂ ↦ absurd (ground arith)
    | inr (t, e₂) ↦ elim (Option-cases (match_clock t)) [
      | inl none₃ ↦ absurd (ground arith)
      | inr (u, e₃) ↦ record {
        rest = t;
        tail = u;
        first = match_clock-inv v (ground (arith, match_dash-inv r e₂));
        second = match_clock-inv t e₃;
        ended = ground arith;
      }
    ]
  ]
]

ClockThen-IsAscii :
    (v r : Text) (p : ClockThen v r) → IsAscii v → (p.b < 128) × (p.e < 128) × IsAscii r
ClockThen-IsAscii v r p h = let all = (rw p.shape at h) in (all.1.0, all.1.1.1.1.0, all.1.1.1.1.1)

abbrev clock_text : {v r : Text} → ClockThen v r → Text
clock_text p = p.a ∷ p.b ∷ p.c ∷ p.d ∷ p.e ∷ []

cut_dash-ClockThen :
    (v r : Text) (p : ClockThen v r)
    → cut_dash v ≡ (p.a ∷ p.b ∷ p.c ∷ p.d ∷ p.e ∷ (cut_dash r).0, (cut_dash r).1)
cut_dash-ClockThen v r p = ap cut_dash p.shape ∙ IsClock-cut_dash p.a p.b p.c p.d p.e r p.clock

at_end-cut_dash : (t : Text) → at_end t ≡ true → cut_dash t ≡ (t, none)
unfolding at_end cut_dash
at_end-cut_dash [] h = refl
at_end-cut_dash (c ∷ []) h = ground arith
at_end-cut_dash (c ∷ d ∷ t) h = cc

-- What the unpacking of a validated range yields: the clock times, the second with its tail.
split_range-RangeParts :
    (v : Text) (p : RangeParts v)
    → split_range v
      ≡ ok (
        clock_text p.first,
        p.second.a ∷ p.second.b ∷ p.second.c ∷ p.second.d ∷ p.second.e ∷ p.tail,
      )
unfolding split_range
split_range-RangeParts v p =
    let cut = cut_dash-ClockThen v (b'-' ∷ p.rest) p.first in
    let cut' =
      cut_dash-ClockThen p.rest p.tail p.second
      ∙ ap
          (λ (c : Text × Option Text).
            (p.second.a ∷ p.second.b ∷ p.second.c ∷ p.second.d ∷ p.second.e ∷ c.0, c.1))
          (at_end-cut_dash p.tail p.ended) in
    rw (cut, cut', split_range) (rw (cut, cut'))

-- With nothing behind it a validated range parses into a window inside the day.
parse_range-RangeParts :
    (v : Text)
    → text_eq v (codes "closed") ≡ false
    → IsAscii v
    → (p : RangeParts v) → p.tail ≡ []
    → (w : OpenWindow) × (parse_range v ≡ ok (some w)) × (w.start < day_us) × (w.end_time < day_us)
unfolding parse_range
parse_range-RangeParts v open_day ascii p done =
    let f = p.first in
    let g = p.second in
    let (f_b, f_e, ascii_rest) = ClockThen-IsAscii v (b'-' ∷ p.rest) f ascii in
    let (g_b, g_e, ascii_tail) = ClockThen-IsAscii p.rest p.tail g ascii_rest.1 in
    let (start, early) = IsClock-from_isoformat f.a f.b f.c f.d f.e f.clock f_b f_e in
    let (stop, late) = IsClock-from_isoformat g.a g.b g.c g.d g.e g.clock g_b g_e in
    (
      record { start = clock_time f.a f.b f.d f.e; end_time = clock_time g.a g.b g.d g.e },
      rw (open_day, split_range-RangeParts v p, done, start, stop) refl,
      early,
      late,
    )

length-RangeParts : (v : Text) (p : RangeParts v) → length v ≡ length p.tail + 11
length-RangeParts v p = omega (arith, ap length p.first.shape, ap length p.second.shape)

nil_of_length : (t : Text) → length t ≤ 0 → t ≡ []
nil_of_length [] h = refl
nil_of_length (c ∷ t) h = absurd (omega arith)

newline_of_at_end : (t : Text) → at_end t ≡ true → 0 < length t → t ≡ 10 ∷ []
unfolding at_end
newline_of_at_end [] h more = absurd (omega arith)
newline_of_at_end (c ∷ []) h more = ground arith
newline_of_at_end (c ∷ d ∷ t) h more = cc

-- With a line feed behind it the second clock time is no time.
newline_tail :
    (v : Text)
    → text_eq v (codes "closed") ≡ false
    → IsAscii v
    → (p : RangeParts v) → 0 < length p.tail
    → (length v ≡ 12) × (parse_range v ≡ err value_error)
unfolding parse_range
newline_tail v open_day ascii p more =
    let f = p.first in
    let feed = newline_of_at_end p.tail p.ended more in
    let (f_b, f_e, ascii_rest) = ClockThen-IsAscii v (b'-' ∷ p.rest) f ascii in
    let (start, early) = IsClock-from_isoformat f.a f.b f.c f.d f.e f.clock f_b f_e in
    (
      omega (arith, length-RangeParts v p, ap length feed),
      rw (open_day, split_range-RangeParts v p, feed, start) (unfold from_isoformat in refl),
    )

abbrev pub WithinDay : Option OpenWindow → Type 0
WithinDay none = Unit
WithinDay (some w) = (w.start < day_us) × (w.end_time < day_us)

-- An entry of ASCII characters that the validator of `RegularHours` accepts, of at most eleven, parses
-- without an exception: into no window or into one with both ends inside the day.
pub valid_range-parse_range :
    (v : Text)
    → valid_range v ≡ ok v
    → IsAscii v
    → length v ≤ 11
    → (o : Option OpenWindow) × (parse_range v ≡ ok o) × WithinDay o
unfolding valid_range parse_range
valid_range-parse_range v h ascii short = elim (Bool-cases (text_eq v (codes "closed"))) [
  | inl e ↦ (none, rw e, tt)
  | inr e ↦
      let p = matches_time_range-inv v (ground arith) in
      let (w, parsed, early, late) =
        parse_range-RangeParts v e ascii p
          (nil_of_length p.tail (omega (arith, length-RangeParts v p))) in
      (some w, parsed, (early, late))
]

-- The validator also accepts a range of eleven characters with a line feed behind it, the only
-- longer entry of ASCII, and every such entry makes `_parse_range` raise `ValueError`.
valid_range_newline :
    (v : Text)
    → valid_range v ≡ ok v
    → IsAscii v
    → 11 < length v
    → (length v ≡ 12) × (parse_range v ≡ err value_error)
unfolding valid_range parse_range
valid_range_newline v h ascii long = elim (Bool-cases (text_eq v (codes "closed"))) [
  | inl e ↦ absurd (omega (arith, ap length (text_eq_sound v (codes "closed") e)))
  | inr e ↦
      let p = matches_time_range-inv v (ground arith) in
      newline_tail v e ascii p (omega (arith, length-RangeParts v p))
]
