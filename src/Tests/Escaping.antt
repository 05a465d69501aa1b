-- ===== src/Tests/Escaping.antt =====
-- Runs of the byte helpers and the escapers, as the source's own tests have them.
use blackfriday_2_rust.Base.{◌≡◌, refl, true, false, some, [], ◌++◌, Bytes, codes}
use blackfriday_2_rust.Util.{is_alnum, is_indented, slugify}
use blackfriday_2_rust.Util.Words.{words}
use blackfriday_2_rust.Util.Slug.{IsTrimmed, slugify-IsTrimmed}
use blackfriday_2_rust.Entities.{is_entity}
use blackfriday_2_rust.Entities.Shape.{is_key, is_entity-is_key}
use blackfriday_2_rust.Esc.{escape_entities, escape_html, escape_all_html}
use blackfriday_2_rust.Esc.Refine.{escaped, escape_entities-escaped}
use blackfriday_2_rust.Esc.Safe.{IsSafe, escape-IsSafe, escape_all_html-injective}
use blackfriday_2_rust.Esc.Again.{escape_html_idem}

slugs :
    (slugify (codes "Hello, world!") ≡ some (codes "Hello-world"))
    × (slugify (codes "!!!") ≡ some (codes "-"))
    × (slugify [] ≡ some [])
unfolding slugify is_alnum
slugs = (refl, refl, refl)

indents :
    (is_indented (codes "\tx") 4 ≡ 1)
    × (is_indented (codes "    x") 4 ≡ 4)
    × (is_indented (codes "  x") 4 ≡ 0)
unfolding is_indented
indents = (refl, refl, refl)

escapes :
    (escape_html [] (codes "AT&T and AT&amp;T") ≡ some (codes "AT&amp;T and AT&amp;T"))
    × (escape_html [] (codes "&&amp;<") ≡ some (codes "&amp;&amp;&lt;"))
    × (escape_html [] (codes "&notarealentity;") ≡ some (codes "&amp;notarealentity;"))
    × (escape_html [] (codes "&#38;") ≡ some (codes "&amp;#38;"))
    × (escape_all_html [] (codes "AT&amp;T") ≡ some (codes "AT&amp;amp;T"))
unfolding escape_html escape_all_html is_entity is_alnum
escapes = (refl, refl, refl, refl, refl)

slugify-IsTrimmed_example :
    (t : Bytes) × (slugify (codes "a - b!") ≡ some t)
    × IsTrimmed t
    × (words t ≡ words (codes "a - b!"))
slugify-IsTrimmed_example = slugify-IsTrimmed (codes "a - b!")

amp_found : is_entity (codes "&amp;") ≡ true
unfolding is_entity
amp_found = refl

is_entity-is_key_example : is_key (codes "&amp;") ≡ true
is_entity-is_key_example = is_entity-is_key (codes "&amp;") amp_found

escape_entities-escaped_example :
    escape_entities (codes "x") (codes "a<&lt;&b") false
    ≡ some (codes "x" ++ escaped false 0 (codes "a<&lt;&b"))
escape_entities-escaped_example = escape_entities-escaped (codes "x") (codes "a<&lt;&b") false

both_forms :
    (escape_html [] (codes "<&lt;\"") ≡ some (codes "&lt;&lt;&quot;"))
    × (escape_all_html [] (codes "<&lt;\"") ≡ some (codes "&lt;&amp;lt;&quot;"))
unfolding escape_html escape_all_html is_entity is_alnum
both_forms = (refl, refl)

escape-IsSafe_example : IsSafe (codes "&lt;&lt;&quot;") × IsSafe (codes "&lt;&amp;lt;&quot;")
escape-IsSafe_example =
    escape-IsSafe (codes "<&lt;\"") (codes "&lt;&lt;&quot;") (codes "&lt;&amp;lt;&quot;")
      both_forms.0 both_forms.1

escape_all_html-injective_example : codes "a&amp;" ≡ codes "a&amp;"
escape_all_html-injective_example = escape_all_html-injective (codes "a&amp;") (codes "a&amp;") refl

escape_html_idem_example : escape_html [] (codes "&lt;&lt;&quot;") ≡ some (codes "&lt;&lt;&quot;")
escape_html_idem_example = escape_html_idem (codes "<&lt;\"") (codes "&lt;&lt;&quot;") both_forms.0
