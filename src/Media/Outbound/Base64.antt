-- ===== src/Media/Outbound/Base64.antt =====
-- `_b64_decoded_size` against the encoding itself: `base64.b64encode` by RFC 4648.
use revenue_recovery_voice_a.Base.{
  ℕ, suc, ◌+◌, ◌-◌, ◌*◌, ◌/◌, ◌%◌, ◌≤◌, false, List, [], ◌∷◌, Text, ◌≡◌, refl, arith, length, ltb,
  ◌==◌, pos, ◌-ℤ◌, is_empty, if◌then◌else◌, ap, ◌∙◌,
}
use revenue_recovery_voice_a.Media.Outbound.{b64_decoded_size, padding, last_two}

-- The character of a six-bit value.
abbrev pub letter : ℕ → ℕ
letter n =
    if ltb n 26
    then n + 65
    else if ltb n 52
    then n + 71
    else if ltb n 62
    then n - 4
    else if n == 62
    then b'+'
    else b'/'

-- `b64encode`, three bytes at a time
unfoldable encode : List ℕ → Text
encode [] = []
encode (x ∷ []) = letter (x / 4) ∷ letter (x % 4 * 16) ∷ b'=' ∷ b'=' ∷ []
encode (x ∷ y ∷ []) =
    letter (x / 4) ∷ letter (x % 4 * 16 + y / 16) ∷ letter (y % 16 * 4) ∷ b'=' ∷ []
encode (x ∷ y ∷ z ∷ rest) =
    letter (x / 4)
    ∷ letter (x % 4 * 16 + y / 16)
    ∷ letter (y % 16 * 4 + z / 64)
    ∷ letter (z % 64)
    ∷ encode rest

letter-ne : (n : ℕ) → (letter n == b'=') ≡ false
letter-ne n = ground arith

last_two-step : (a b c d : ℕ) (t : Text) → 2 ≤ length t → last_two (a ∷ b ∷ c ∷ d ∷ t) ≡ last_two t
last_two-step a b c d t h =
    let shift : suc (suc (suc (suc (length t)))) - 2 ≡ suc (suc (suc (suc (length t - 2)))) =
      omega arith in
    rw shift refl

length-encode : (x : ℕ) (bytes : List ℕ) → 4 ≤ length (encode (x ∷ bytes))
unfolding encode
length-encode x [] = omega arith
length-encode x (y ∷ []) = omega arith
length-encode x (y ∷ z ∷ rest) = omega arith

-- The padding makes up for the bytes that the last group lacks.
encode_groups :
    (bytes : List ℕ)
    → length (encode bytes) / 4 * 3 ≡ length bytes + padding (last_two (encode bytes))
unfolding encode padding
encode_groups [] = refl
encode_groups (x ∷ []) = ground (arith, letter-ne (x % 4 * 16))
encode_groups (x ∷ y ∷ []) = ground (arith, letter-ne (y % 16 * 4))
encode_groups (x ∷ y ∷ z ∷ []) = ground (arith, letter-ne (y % 16 * 4 + z / 64), letter-ne (z % 64))
encode_groups (x ∷ y ∷ z ∷ w ∷ rest) = omega (
  arith,
  encode_groups (w ∷ rest),
  ap padding (
      last_two-step (letter (x / 4)) (letter (x % 4 * 16 + y / 16)) (letter (y % 16 * 4 + z / 64))
        (letter (z % 64)) (encode (w ∷ rest)) (omega (arith, length-encode w rest))),
)

nonempty :
    (bytes : List ℕ)
    → (if is_empty (encode bytes) then pos 0 else pos (length bytes)) ≡ pos (length bytes)
unfolding encode
nonempty [] = refl
nonempty (x ∷ []) = refl
nonempty (x ∷ y ∷ []) = refl
nonempty (x ∷ y ∷ z ∷ rest) = refl

size_from_groups :
    (t : Text) (n : ℕ)
    → length t / 4 * 3 ≡ n + padding (last_two t)
    → b64_decoded_size t ≡ (if is_empty t then pos 0 else pos n)
unfolding b64_decoded_size ◌-ℤ◌
size_from_groups [] n h = refl
size_from_groups (c ∷ t) n h = ground arith

-- The size that is computed without decoding is the number of bytes that were encoded.
b64_decoded_size-encode : (bytes : List ℕ) → b64_decoded_size (encode bytes) ≡ pos (length bytes)
b64_decoded_size-encode bytes =
    size_from_groups (encode bytes) (length bytes) (encode_groups bytes) ∙ nonempty bytes
