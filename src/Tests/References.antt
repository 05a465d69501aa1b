-- ===== src/Tests/References.antt =====
-- Runs of the character references.
use blackfriday_2_rust.Base.{zero, ◌≤◌, Bytes, ◌≡◌, refl, some, [], ◌∷◌, codes}
use blackfriday_2_rust.Unescape.{unescape_string}
use blackfriday_2_rust.Util.{is_alnum}
use blackfriday_2_rust.Esc.{escape_all_html}
use blackfriday_2_rust.Unescape.{numeric_char}
use blackfriday_2_rust.Unescape.Numeric.{IsScalar, numeric_char-IsScalar}
use blackfriday_2_rust.Unescape.Ends.{unescaped, unescape_string-unescaped}
use blackfriday_2_rust.Unescape.Inverse.{unescape_string-escape_all_html}
use blackfriday_2_rust.HtmlEntities.{entity, entity2}

references :
    (unescape_string (codes "a&amp;b") ≡ some (codes "a&b"))
    × (unescape_string (codes "&#38;&#x26;") ≡ some (codes "&&"))
    × (unescape_string (codes "&notit;") ≡ some (0xc2 ∷ 0xac ∷ codes "it;"))
    × (unescape_string (codes "&#99999999999;") ≡ some (0xef ∷ 0xbf ∷ 0xbd ∷ []))
    × (unescape_string (codes "&#128;") ≡ some (0xe2 ∷ 0x82 ∷ 0xac ∷ []))
    × (unescape_string (codes "no reference") ≡ some (codes "no reference"))
unfolding unescape_string entity entity2
references = (refl, refl, refl, refl, refl, refl)

-- One decimal digit with no `;` is left alone, and no digit at all is U+FFFD if the form is
-- hexadecimal.
references_short :
    (unescape_string (codes "&#1x") ≡ some (codes "&#1x"))
    × (unescape_string (codes "&#x;") ≡ some (0xef ∷ 0xbf ∷ 0xbd ∷ []))
unfolding unescape_string
references_short = (refl, refl)

abbrev quoted : Bytes
quoted = codes "a<b & \"c\""

abbrev quoted_escaped : Bytes
quoted_escaped = codes "a&lt;b &amp; &quot;c&quot;"

quoted-escape_all_html : escape_all_html [] quoted ≡ some quoted_escaped
unfolding escape_all_html is_alnum
quoted-escape_all_html = refl

unescape_string-escape_all_html_example : unescape_string quoted_escaped ≡ some quoted
unescape_string-escape_all_html_example =
    unescape_string-escape_all_html quoted quoted_escaped quoted-escape_all_html

unescape_string-unescaped_example :
    unescape_string (codes "x &amp y") ≡ some (unescaped zero (codes "x &amp y"))
unescape_string-unescaped_example = unescape_string-unescaped (codes "x &amp y")

numeric_char-IsScalar_example : IsScalar (numeric_char 0xd800) × (1 ≤ numeric_char 0xd800)
numeric_char-IsScalar_example = numeric_char-IsScalar 0xd800
