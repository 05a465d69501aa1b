-- ===== src/Tests/Inlines.antt =====
-- Runs of the inline matchers, and their theorem at a concrete input.
use blackfriday_2_rust.Base.{ℕ, some, ◌⊎◌, is_at, ◌≡◌, refl, true, codes, Bytes, arith, count_while}
use blackfriday_2_rust.Util.{is_alnum, is_space}
use blackfriday_2_rust.Inline.{
  not_autolink, normal_autolink, email_autolink, strip_mailto, has_prefix_case_insensitive,
  tag_length,
}
use blackfriday_2_rust.Inline.Emphasis.{unescape_text, helper_find_emph_char}
use blackfriday_2_rust.Inline.Emphasis.Found.{helper_find_emph_char-IsFound}
use blackfriday_2_rust.Inline.Tag.{IsEnd, tag_length-IsEnd}

tags :
    (tag_length (codes "<a b>c") ≡ (not_autolink, 5))
    × (tag_length (codes "<http://x>") ≡ (normal_autolink, 10))
    × (tag_length (codes "<me@x.org>") ≡ (email_autolink, 10))
    × (tag_length (codes "<no closing") ≡ (not_autolink, 3))
    × (strip_mailto (codes "mailto:me") ≡ codes "me")
    × (has_prefix_case_insensitive (codes "HTTP://x") (codes "http://") ≡ true)
unfolding tag_length strip_mailto has_prefix_case_insensitive is_alnum is_space count_while
tags = (refl, refl, refl, refl, refl, refl)

abbrev link_text : Bytes
link_text = codes "<http://x> y"

link_text-length : (tag_length link_text).1 ≡ 10
unfolding tag_length is_alnum is_space count_while
link_text-length = refl

tag_length-IsEnd_example : IsEnd link_text (tag_length link_text).1
tag_length-IsEnd_example =
    tag_length-IsEnd link_text (λ e. absurd (omega (arith, e, link_text-length)))

-- A code span is passed over, an escaped byte does not count, and a backslash in front of a byte is
-- dropped.
emphases :
    (helper_find_emph_char (codes "a*b") b'*' ≡ some 1)
    × (helper_find_emph_char (codes "a`*`b*") b'*' ≡ some 5)
    × (helper_find_emph_char (codes "a`*b") b'*' ≡ some 2)
    × (helper_find_emph_char (codes "[*](x)*") b'*' ≡ some 1)
    × (unescape_text (codes "a\\*b\\") ≡ codes "a*b")
unfolding helper_find_emph_char unescape_text
emphases = (refl, refl, refl, refl, refl)

helper_find_emph_char-IsFound_example :
    (r : ℕ) × (helper_find_emph_char (codes "a`*`b*") b'*' ≡ some r)
    × ((r ≡ 0) ⊎ (is_at (codes "a`*`b*") r b'*' ≡ true))
helper_find_emph_char-IsFound_example = helper_find_emph_char-IsFound (codes "a`*`b*") b'*'
