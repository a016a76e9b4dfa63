-- ===== src/Base/Texts.antt =====
-- Python's text as a list of code points. Letter case and white space are those of ASCII; other
-- code points are neither changed nor stripped.
use Prim.Native.Nat.{ℕ, zero, suc, ◌+◌, ◌/◌, ◌%◌}
use Prim.Native.Char.{code}
use Prim.Native.String.{String}
use mathlib.Core.Path.{◌≡◌, refl}
use mathlib.Core.Bool.{Bool, true, false, ◌&&◌, ◌||◌}
use mathlib.Core.List.{List, [], ◌∷◌, ◌++◌, map, reverse}
use native.Mathlib.Omega.{arith}
use revenue_recovery_voice_a.Base.Tests.{leb, ltb, ◌==◌, if◌then◌else◌}
use revenue_recovery_voice_a.Base.Lists.{any}

abbrev pub Text : Type 0
Text = List ℕ

-- The code points of a literal.
abbrev pub codes : String → Text
codes String.[] = []
codes (String.◌∷◌ c s) = code c ∷ codes s

unfoldable pub lower_code : ℕ → ℕ
lower_code c = if leb b'A' c && leb c b'Z' then c + 32 else c

-- `s.lower()`
unfoldable pub lower : Text → Text
unfolding lower_code
lower = map lower_code

-- `a == b`
unfoldable pub text_eq : Text → Text → Bool
text_eq [] [] = true
text_eq [] (y ∷ ys) = false
text_eq (x ∷ xs) [] = false
text_eq (x ∷ xs) (y ∷ ys) = x == y && text_eq xs ys

-- `s.startswith(p)`, the prefix first
unfoldable pub starts_with : Text → Text → Bool
starts_with [] s = true
starts_with (x ∷ p) [] = false
starts_with (x ∷ p) (y ∷ s) = x == y && starts_with p s

-- `p in s`
unfoldable pub is_infix : Text → Text → Bool
unfolding starts_with
is_infix p [] = starts_with p []
is_infix p (y ∷ s) = starts_with p (y ∷ s) || is_infix p s

-- The ASCII characters that `str.strip` removes.
unfoldable pub is_space : ℕ → Bool
is_space c = leb 9 c && leb c 13 || leb 28 c && leb c 32

unfoldable pub drop_while : (ℕ → Bool) → Text → Text
drop_while p [] = []
drop_while p (c ∷ s) = let rest = drop_while p s in elim (p c) [ true ↦ rest | false ↦ c ∷ s ]

-- `s.strip(…)` of the characters that satisfy `p`
unfoldable pub strip_of : (ℕ → Bool) → Text → Text
unfolding drop_while
strip_of p s = reverse (drop_while p (reverse (drop_while p s)))

-- `s.strip()`
unfoldable pub strip : Text → Text
unfolding strip_of is_space
strip = strip_of is_space

-- The decimal digits of `n` before `acc`; a number has fewer digits than itself plus one.
unfoldable pub digits_from : ℕ → ℕ → Text → Text
digits_from zero n acc = acc
digits_from (suc f) n acc =
    let d = (n % 10 + b'0') ∷ acc in
    let rest = digits_from f (n / 10) d in if ltb n 10 then d else rest

-- `str(n)`
unfoldable pub decimal : ℕ → Text
unfolding digits_from
decimal n = digits_from (suc n) n []

-- `x in xs`
unfoldable pub text_in : Text → List Text → Bool
unfolding text_eq
text_in x xs = any (text_eq x) xs

pub text_eq_sound : (s t : Text) → text_eq s t ≡ true → s ≡ t
unfolding text_eq
text_eq_sound [] [] h = refl
text_eq_sound [] (y ∷ t) h = cc
text_eq_sound (x ∷ s) [] h = cc
text_eq_sound (x ∷ s) (y ∷ t) h = ground (arith, text_eq_sound s t)

pub text_eq_refl : (s : Text) → text_eq s s ≡ true
unfolding text_eq
text_eq_refl [] = refl
text_eq_refl (x ∷ s) = ground (arith, text_eq_refl s)

pub starts_with-append : (p s : Text) → starts_with p (p ++ s) ≡ true
unfolding starts_with
starts_with-append [] s = refl
starts_with-append (x ∷ p) s = ground (arith, starts_with-append p s)

pub is_infix-append : (a p b : Text) → is_infix p (a ++ (p ++ b)) ≡ true
unfolding is_infix starts_with
is_infix-append [] [] [] = refl
is_infix-append [] [] (y ∷ b) = refl
is_infix-append [] (x ∷ p) b = ground (arith, starts_with-append p b)
is_infix-append (y ∷ a) p b = ground (arith, is_infix-append a p b)
