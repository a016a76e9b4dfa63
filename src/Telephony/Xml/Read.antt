-- ===== src/Telephony/Xml/Read.antt =====
-- What an XML reader makes of the texts that `apps/api/telephony/twiml.py` escapes.
use revenue_recovery_voice_a.Base.{
  ℕ, Bool, false, ◌||◌, [], ◌∷◌, ◌++◌, Option, none, some, Text, codes, any, text_eq, ◌==◌, ◌≡◌,
  refl, ap, ◌∙◌, inl, inr, Bool-cases, arith, if◌then◌else◌,
}
use revenue_recovery_voice_a.Telephony.Xml.{
  replace_char, escape, escape_quotes, escape_attribute, quoteattr,
}

-- Whether a text has a character.
abbrev pub has : ℕ → Text → Bool
has q = any (λ c. c == q)

-- The character that a reference stands for.
abbrev entity : Text → Text
entity name =
    if text_eq name (codes "amp")
    then b'&' ∷ []
    else if text_eq name (codes "lt")
    then b'<' ∷ []
    else if text_eq name (codes "gt")
    then b'>' ∷ []
    else if text_eq name (codes "quot")
    then b'"' ∷ []
    else if text_eq name (codes "#9")
    then 9 ∷ []
    else if text_eq name (codes "#10")
    then 10 ∷ []
    else if text_eq name (codes "#13")
    then 13 ∷ []
    else []

-- The references of a text replaced; `open` is the name of the reference begun.
abbrev read_from : Option Text → Text → Text
read_from none [] = []
read_from (some name) [] = b'&' ∷ name
read_from none (c ∷ s) =
    let begun = read_from (some []) s in
    let kept = read_from none s in if c == b'&' then begun else c ∷ kept
read_from (some name) (c ∷ s) =
    let ended = read_from none s in
    let longer = read_from (some (name ++ (c ∷ []))) s in
    if c == b';' then entity name ++ ended else longer

-- A text with its references replaced, as a reader does in character data and in attribute values.
abbrev pub resolve : Text → Text
resolve = read_from none

-- No character that opens a tag, closes one or ends an attribute in double quotes.
abbrev pub has_markup : Text → Bool
has_markup = any (λ c. (c == b'<') || ((c == b'>') || (c == b'"')))

-- `escape_quotes`, character by character
abbrev pub quoted : ℕ → Text
quoted c =
    if c == b'&'
    then codes "&amp;"
    else if c == b'>'
    then codes "&gt;"
    else if c == b'<'
    then codes "&lt;"
    else if c == b'"'
    then codes "&quot;"
    else c ∷ []

pub escape_quotes-cons : (c : ℕ) (s : Text) → escape_quotes (c ∷ s) ≡ quoted c ++ escape_quotes s
unfolding escape_quotes escape replace_char
escape_quotes-cons c s = ground arith

resolve-quoted : (c : ℕ) (s : Text) → resolve (quoted c ++ s) ≡ c ∷ resolve s
unfolding text_eq
resolve-quoted c s = ground arith

has_markup-quoted : (c : ℕ) (s : Text) → has_markup s ≡ false → has_markup (quoted c ++ s) ≡ false
has_markup-quoted c s h = ground (arith, h)

pub resolve-escape_quotes : (s : Text) → resolve (escape_quotes s) ≡ s
unfolding escape_quotes escape replace_char
resolve-escape_quotes [] = refl
resolve-escape_quotes (c ∷ s) =
    ap resolve (escape_quotes-cons c s)
    ∙ (resolve-quoted c (escape_quotes s) ∙ ap (λ l. c ∷ l) (resolve-escape_quotes s))

pub has_markup-escape_quotes : (s : Text) → has_markup (escape_quotes s) ≡ false
unfolding escape_quotes escape replace_char
has_markup-escape_quotes [] = refl
has_markup-escape_quotes (c ∷ s) =
    ap has_markup (escape_quotes-cons c s)
    ∙ has_markup-quoted c (escape_quotes s) (has_markup-escape_quotes s)

-- `escape_attribute`, character by character, and with the double quotes replaced too
abbrev attributed : ℕ → Text
attributed c =
    if c == b'&'
    then codes "&amp;"
    else if c == b'>'
    then codes "&gt;"
    else if c == b'<'
    then codes "&lt;"
    else if c == 10
    then codes "&#10;"
    else if c == 13
    then codes "&#13;"
    else if c == 9
    then codes "&#9;"
    else c ∷ []

abbrev unquoted : ℕ → Text
unquoted c = if c == b'"' then codes "&quot;" else attributed c

abbrev without_quotes : Text → Text
without_quotes s = replace_char b'"' (codes "&quot;") (escape_attribute s)

escape_attribute-cons :
    (c : ℕ) (s : Text) → escape_attribute (c ∷ s) ≡ attributed c ++ escape_attribute s
unfolding escape_attribute escape replace_char
escape_attribute-cons c s = ground arith

without_quotes-cons : (c : ℕ) (s : Text) → without_quotes (c ∷ s) ≡ unquoted c ++ without_quotes s
unfolding escape_attribute escape replace_char
without_quotes-cons c s = ground arith

resolve-attributed : (c : ℕ) (s : Text) → resolve (attributed c ++ s) ≡ c ∷ resolve s
unfolding text_eq
resolve-attributed c s = ground arith

resolve-unquoted : (c : ℕ) (s : Text) → resolve (unquoted c ++ s) ≡ c ∷ resolve s
unfolding text_eq
resolve-unquoted c s = ground (arith, resolve-attributed c s)

resolve-escape_attribute : (s : Text) → resolve (escape_attribute s) ≡ s
unfolding escape_attribute escape replace_char
resolve-escape_attribute [] = refl
resolve-escape_attribute (c ∷ s) =
    ap resolve (escape_attribute-cons c s)
    ∙ (resolve-attributed c (escape_attribute s) ∙ ap (λ l. c ∷ l) (resolve-escape_attribute s))

resolve-without_quotes : (s : Text) → resolve (without_quotes s) ≡ s
unfolding escape_attribute escape replace_char
resolve-without_quotes [] = refl
resolve-without_quotes (c ∷ s) =
    ap resolve (without_quotes-cons c s)
    ∙ (resolve-unquoted c (without_quotes s) ∙ ap (λ l. c ∷ l) (resolve-without_quotes s))

has-replace_char : (s : Text) → has b'"' (replace_char b'"' (codes "&quot;") s) ≡ false
unfolding replace_char
has-replace_char [] = refl
has-replace_char (c ∷ s) = ground (arith, has-replace_char s)

-- An attribute value in quotes: the quotes do not occur within it, and it is `s` with its references
-- replaced.
pub record IsQuoted (s value : Text) : Type 0 where
  pub quote : ℕ
  pub body : Text
  pub same : value ≡ quote ∷ (body ++ (quote ∷ []))
  pub closed : has quote body ≡ false
  pub reads : resolve body ≡ s

pub quoteattr-IsQuoted : (s : Text) → IsQuoted s (quoteattr s)
unfolding quoteattr
quoteattr-IsQuoted s = elim (Bool-cases (has b'"' (escape_attribute s))) [
  | inr plain ↦ record {
    quote = b'"';
    body = escape_attribute s;
    same = rw plain refl;
    closed = plain;
    reads = resolve-escape_attribute s;
  }
  | inl double ↦ elim (Bool-cases (has b'\'' (escape_attribute s))) [
    | inl both ↦ record {
      quote = b'"';
      body = without_quotes s;
      same = rw double (rw both refl);
      closed = has-replace_char (escape_attribute s);
      reads = resolve-without_quotes s;
    }
    | inr one ↦ record {
      quote = b'\'';
      body = escape_attribute s;
      same = rw double (rw one refl);
      closed = one;
      reads = resolve-escape_attribute s;
    }
  ]
]

has_markup-quote : (s : Text) → has_markup s ≡ false → has b'"' s ≡ false
has_markup-quote [] h = refl
has_markup-quote (c ∷ s) h = ground (arith, has_markup-quote s)

-- `escape_quotes` between double quotes.
pub escape_quotes-IsQuoted : (s : Text) → IsQuoted s (b'"' ∷ (escape_quotes s ++ (b'"' ∷ [])))
escape_quotes-IsQuoted s = record {
  quote = b'"';
  body = escape_quotes s;
  same = refl;
  closed = has_markup-quote (escape_quotes s) (has_markup-escape_quotes s);
  reads = resolve-escape_quotes s;
}

-- `escape`, character by character
abbrev bare : ℕ → Text
bare c =
    if c == b'&'
    then codes "&amp;"
    else if c == b'>'
    then codes "&gt;"
    else if c == b'<'
    then codes "&lt;"
    else c ∷ []

escape-cons : (c : ℕ) (s : Text) → escape (c ∷ s) ≡ bare c ++ escape s
unfolding escape replace_char
escape-cons c s = ground arith

resolve-bare : (c : ℕ) (s : Text) → resolve (bare c ++ s) ≡ c ∷ resolve s
unfolding text_eq
resolve-bare c s = ground arith

has-bare : (c : ℕ) (s : Text) → has b'<' s ≡ false → has b'<' (bare c ++ s) ≡ false
has-bare c s h = ground (arith, h)

-- The text of an element, escaped: no tag begins within it, and it is `s` with its references replaced.
pub record IsEscaped (s body : Text) : Type 0 where
  pub closed : has b'<' body ≡ false
  pub reads : resolve body ≡ s

pub escape-IsEscaped : (s : Text) → IsEscaped s (escape s)
unfolding escape replace_char
escape-IsEscaped [] = record { closed = refl; reads = refl }
escape-IsEscaped (c ∷ s) =
    let rest = escape-IsEscaped s in
    record {
      closed = ap (has b'<') (escape-cons c s) ∙ has-bare c (escape s) rest.closed;
      reads =
          ap resolve (escape-cons c s) ∙ (resolve-bare c (escape s) ∙ ap (λ l. c ∷ l) rest.reads);
    }
