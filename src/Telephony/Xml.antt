-- ===== src/Telephony/Xml.antt =====
-- `escape` and `quoteattr` of Python's `xml.sax.saxutils`, as `apps/api/telephony/twiml.py` and
-- `apps/api/tools/transfer.py` use them.
pub mod Read
pub mod Data
use revenue_recovery_voice_a.Base.{
  ℕ, Bool, true, false, List, [], ◌∷◌, ◌++◌, Text, codes, any, ◌==◌, if◌then◌else◌,
}

-- `s.replace(c, new)` of one character
unfoldable pub replace_char : ℕ → Text → Text → Text
replace_char c new [] = []
replace_char c new (x ∷ s) =
    let rest = replace_char c new s in if x == c then new ++ rest else x ∷ rest

-- `escape(s)`
unfoldable pub escape : Text → Text
unfolding replace_char
escape s =
    replace_char b'<' (codes "&lt;")
      (replace_char b'>' (codes "&gt;") (replace_char b'&' (codes "&amp;") s))

-- `escape(s, {'"': "&quot;"})`
unfoldable pub escape_quotes : Text → Text
unfolding escape replace_char
escape_quotes s = replace_char b'"' (codes "&quot;") (escape s)

-- The `escape` of `quoteattr`, which also writes line ends and tabs as references.
unfoldable pub escape_attribute : Text → Text
unfolding escape replace_char
escape_attribute s =
    replace_char 9 (codes "&#9;")
      (replace_char 13 (codes "&#13;") (replace_char 10 (codes "&#10;") (escape s)))

-- `quoteattr(s)`
unfoldable pub quoteattr : Text → Text
unfolding escape_attribute replace_char
quoteattr s =
    let body = escape_attribute s in
    if any (λ c. c == b'"') body
    then (if any (λ c. c == b'\'') body
        then b'"' ∷ (replace_char b'"' (codes "&quot;") body ++ (b'"' ∷ []))
        else b'\'' ∷ (body ++ (b'\'' ∷ [])))
    else b'"' ∷ (body ++ (b'"' ∷ []))
