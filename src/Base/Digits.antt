-- ===== src/Base/Digits.antt =====
-- The digits of Python's text: `0` to `9`, what `\d` matches in a pattern, and `str.isdigit`, after the
-- Unicode 14.0.0 database.
use Prim.Native.Nat.{ℕ, ◌+◌}
use mathlib.Core.Bool.{Bool, ◌&&◌, ◌||◌}
use mathlib.Core.List.{List, [], ◌∷◌}
use revenue_recovery_voice_a.Base.Tests.{leb, ltb}
use revenue_recovery_voice_a.Base.Lists.{any}

unfoldable pub is_digit : ℕ → Bool
is_digit c = leb b'0' c && leb c b'9'

-- The zeros of the other scripts; each is followed by its digits from one to nine.
abbrev zeros : List ℕ
zeros =
    1632 ∷ 1776 ∷ 1984 ∷ 2406 ∷ 2534 ∷ 2662 ∷ 2790 ∷ 2918 ∷ 3046 ∷ 3174 ∷ 3302 ∷ 3430 ∷ 3558 ∷ 3664
    ∷ 3792 ∷ 3872 ∷ 4160 ∷ 4240 ∷ 6112 ∷ 6160 ∷ 6470 ∷ 6608 ∷ 6784 ∷ 6800 ∷ 6992 ∷ 7088 ∷ 7232
    ∷ 7248 ∷ 42528 ∷ 43216 ∷ 43264 ∷ 43472 ∷ 43504 ∷ 43600 ∷ 44016 ∷ 65296 ∷ 66720 ∷ 68912 ∷ 69734
    ∷ 69872 ∷ 69942 ∷ 70096 ∷ 70384 ∷ 70736 ∷ 70864 ∷ 71248 ∷ 71360 ∷ 71472 ∷ 71904 ∷ 72016 ∷ 72784
    ∷ 73040 ∷ 73120 ∷ 92768 ∷ 92864 ∷ 93008 ∷ 120782 ∷ 120792 ∷ 120802 ∷ 120812 ∷ 120822 ∷ 123200
    ∷ 123632 ∷ 125264 ∷ 130032 ∷ []

-- A decimal digit of another script
unfoldable pub is_other_decimal : ℕ → Bool
is_other_decimal c = any (λ z. leb z c && ltb c (z + 10)) zeros

-- A character that `\d` matches
unfoldable pub is_decimal : ℕ → Bool
unfolding is_digit
is_decimal c = is_digit c || leb 128 c && is_other_decimal c

-- Superscripts and the like, which are digits and not decimal.
abbrev marks : List (ℕ × ℕ)
marks =
    (178, 179)
    ∷ (185, 185)
    ∷ (4969, 4977)
    ∷ (6618, 6618)
    ∷ (8304, 8304)
    ∷ (8308, 8313)
    ∷ (8320, 8329)
    ∷ (9312, 9320)
    ∷ (9332, 9340)
    ∷ (9352, 9360)
    ∷ (9450, 9450)
    ∷ (9461, 9469)
    ∷ (9471, 9471)
    ∷ (10102, 10110)
    ∷ (10112, 10120)
    ∷ (10122, 10130)
    ∷ (68160, 68163)
    ∷ (69216, 69224)
    ∷ (69714, 69722)
    ∷ (127232, 127242)
    ∷ []

unfoldable pub is_mark : ℕ → Bool
is_mark c = any (λ (m : ℕ × ℕ). leb m.0 c && leb c m.1) marks

-- `str.isdigit` of one character
unfoldable pub isdigit : ℕ → Bool
unfolding is_decimal is_mark
isdigit c = is_decimal c || is_mark c
