-- ===== src/Telephony/Xml/Data.antt =====
-- Character data in the documents of `apps/api/telephony/twiml.py`, as an XML reader reads it: characters
-- that XML 1.0 forbids, line ends and references.
use revenue_recovery_voice_a.Base.{
  ℕ, Bool, true, false, not, leb, ◌&&◌, ◌||◌, [], ◌∷◌, ◌++◌, Option, none, some, Text, any, ◌==◌,
  ◌≡◌, refl, ap, ◌∙◌, arith, if◌then◌else◌,
}
use revenue_recovery_voice_a.Telephony.Xml.{replace_char, escape, escape_quotes}
use revenue_recovery_voice_a.Telephony.Xml.Read.{
  has, resolve, has_markup, quoted, escape_quotes-cons, resolve-escape_quotes,
  has_markup-escape_quotes,
}

-- A character that XML 1.0 allows in a document.
abbrev is_xml_char : ℕ → Bool
is_xml_char c =
    (c == 9)
    || ((c == 10)
        || ((c == 13)
            || (leb 32 c && leb c 55295
                || (leb 57344 c && leb c 65533 || leb 65536 c && leb c 1114111))))

-- A character that a reader allows and that is no line end of another system.
abbrev pub is_kept : ℕ → Bool
is_kept c = is_xml_char c && not (c == 13)

abbrev pub all_kept : Text → Bool
all_kept s = not (any (λ c. not (is_kept c)) s)

-- A carriage return, with a line feed behind it or not, is read as one line feed.
abbrev line_ends : Text → Text
line_ends [] = []
line_ends (c ∷ []) = if c == 13 then 10 ∷ [] else c ∷ []
line_ends (c ∷ (d ∷ s)) =
    let rest = line_ends (d ∷ s) in
    let after = line_ends s in
    if c == 13 then (if d == 10 then 10 ∷ after else 10 ∷ rest) else c ∷ rest

-- Character data up to the next tag, as an XML reader reads it. A character that XML forbids makes the
-- document ill-formed.
abbrev pub read : Text → Option Text
read s =
    if any (λ c. not (is_xml_char c)) s
    then none
    else if has b'<' s
    then none
    else some (resolve (line_ends s))

kept_head : (c : ℕ) (s : Text) → all_kept (c ∷ s) ≡ true → ((c == 13) ≡ false) × (all_kept s ≡ true)
kept_head c s h = (ground (arith, h), ground (arith, h))

line_ends-kept : (s : Text) → all_kept s ≡ true → line_ends s ≡ s
line_ends-kept [] h = refl
line_ends-kept (c ∷ []) h = rw ((kept_head c [] h).0, line_ends) refl
line_ends-kept (c ∷ (d ∷ s)) h =
    let (plain, rest) = kept_head c (d ∷ s) h in
    rw (plain, line_ends) (ap (λ l. c ∷ l) (line_ends-kept (d ∷ s) rest))

all_kept-quoted :
    (c : ℕ) (s : Text) → is_kept c ≡ true → all_kept s ≡ true → all_kept (quoted c ++ s) ≡ true
all_kept-quoted c s k h = ground (arith, k, h)

all_kept-escape_quotes : (s : Text) → all_kept s ≡ true → all_kept (escape_quotes s) ≡ true
unfolding escape_quotes escape replace_char
all_kept-escape_quotes [] h = refl
all_kept-escape_quotes (c ∷ s) h =
    ap all_kept (escape_quotes-cons c s)
    ∙ all_kept-quoted c (escape_quotes s) (ground (arith, h))
        (all_kept-escape_quotes s (ground (arith, h)))

all_kept-allowed : (s : Text) → all_kept s ≡ true → any (λ c. not (is_xml_char c)) s ≡ false
all_kept-allowed [] h = refl
all_kept-allowed (c ∷ s) h = ground (arith, all_kept-allowed s)

has_markup-tag : (s : Text) → has_markup s ≡ false → has b'<' s ≡ false
has_markup-tag [] h = refl
has_markup-tag (c ∷ s) h = ground (arith, has_markup-tag s)

-- An XML reader gets the text that was escaped.
pub read-escape_quotes : (s : Text) → all_kept s ≡ true → read (escape_quotes s) ≡ some s
read-escape_quotes s h =
    let kept = all_kept-escape_quotes s h in
    rw (all_kept-allowed (escape_quotes s) kept) (
      rw (has_markup-tag (escape_quotes s) (has_markup-escape_quotes s))
        (ap some (ap resolve (line_ends-kept (escape_quotes s) kept) ∙ resolve-escape_quotes s)))
