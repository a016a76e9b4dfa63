-- ===== src/Base/Strings.antt =====
-- `String`s that are put together: keys and names with numbers in them.
use Prim.Native.Nat.{ℕ}
use Prim.Native.String.{String}
use mathlib.Core.List.{[], ◌∷◌}
use revenue_recovery_voice_a.Base.Tests.{◌==◌, if◌then◌else◌}
use revenue_recovery_voice_a.Base.Int.{ℤ, pos, negsuc}
use revenue_recovery_voice_a.Base.Texts.{Text, decimal}

-- `s + t`
infixr 60 ◌<>◌
unfoldable pub ◌<>◌ : String → String → String
String.[] <> t = t
(String.◌∷◌ c s) <> t = String.◌∷◌ c (s <> t)

-- A decimal digit
unfoldable pub digit : ℕ → String
digit c =
    if c == b'0'
    then "0"
    else if c == b'1'
    then "1"
    else if c == b'2'
    then "2"
    else if c == b'3'
    then "3"
    else if c == b'4'
    then "4"
    else if c == b'5'
    then "5"
    else if c == b'6'
    then "6"
    else if c == b'7'
    then "7"
    else if c == b'8'
    then "8"
    else "9"

unfoldable pub digits : Text → String
unfolding digit ◌<>◌
digits [] = ""
digits (c ∷ s) = digit c <> digits s

-- `str` of an integer
unfoldable pub str_int : ℤ → String
unfolding digits ◌<>◌
str_int (pos n) = digits (decimal n)
str_int (negsuc n) = "-" <> digits (decimal (ℕ.suc n))
