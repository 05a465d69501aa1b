-- ===== src/Tests/Lines.antt =====
-- Runs of the block scanners, and their theorems at concrete inputs.
use blackfriday_2_rust.Base.{
  ◌≡◌, ◌≤◌, refl, true, false, some, none, ◌==◌, codes, length, drop, if◌then◌else◌, count_while,
}
use blackfriday_2_rust.Flags.{ordered}
use blackfriday_2_rust.Block.{
  is_empty, is_hrule, is_underlined_heading, leading_spaces, uli_prefix, oli_prefix, dli_prefix,
  list_type_changed, quote_prefix, code_prefix, terminate_blockquote, html_find_end,
  char_entity_len,
}
use blackfriday_2_rust.Block.Prefixes.{prefix_count, prefixes-length, prefixes_exclusive}
use blackfriday_2_rust.Block.Blank.{blank_line, is_empty-line}
use blackfriday_2_rust.Block.Rule.{is_rule, is_hrule-rule}

rules :
    (is_hrule (codes " * * *\nx") ≡ some true)
    × (is_hrule (codes "--\n---") ≡ some false)
    × (is_hrule (codes "  ") ≡ none)
    × (is_hrule (codes "    ---") ≡ some false)
    × (is_underlined_heading (codes "=== \n") ≡ some 1)
    × (is_underlined_heading (codes "--- x\n") ≡ some 0)
unfolding is_hrule is_underlined_heading
rules = (refl, refl, refl, refl, refl, refl)

prefixes :
    (uli_prefix (codes "  - x") ≡ 4)
    × (oli_prefix (codes "12. x") ≡ 4)
    × (oli_prefix (codes "1) x") ≡ 0)
    × (dli_prefix (codes ":  x") ≡ 2)
    × (quote_prefix (codes " >  x") ≡ 3)
    × (code_prefix (codes "     x") ≡ 4)
    × (list_type_changed (codes "1. x") 0 ≡ true)
    × (list_type_changed (codes "1. x") ordered ≡ false)
unfolding uli_prefix oli_prefix dli_prefix quote_prefix code_prefix list_type_changed count_while
prefixes = (refl, refl, refl, refl, refl, refl, refl, refl)

ends :
    (html_find_end (codes "div") (codes "</div>\n\nx") false ≡ 8)
    × (html_find_end (codes "div") (codes "</div>\nx") false ≡ 0)
    × (html_find_end (codes "div") (codes "</div>\nx") true ≡ 7)
    × (terminate_blockquote (codes "\nx") 0 1 ≡ some true)
    × (terminate_blockquote (codes "\n> x") 0 1 ≡ some false)
    × (char_entity_len (codes "a&#x26;b") 1 ≡ some 6)
unfolding html_find_end terminate_blockquote char_entity_len
ends = (refl, refl, refl, refl, refl, refl)

prefixes-length_example :
    (uli_prefix (codes "- x") ≤ length (codes "- x"))
    × (oli_prefix (codes "- x") ≤ length (codes "- x"))
    × (dli_prefix (codes "- x") ≤ length (codes "- x"))
    × (quote_prefix (codes "- x") ≤ length (codes "- x"))
    × (code_prefix (codes "- x") ≤ length (codes "- x"))
prefixes-length_example = prefixes-length (codes "- x")

prefixes_exclusive_example : prefix_count (codes "1. - x") ≤ 1
prefixes_exclusive_example = prefixes_exclusive (codes "1. - x")

is_empty-line_example : is_empty (codes " \t\nx") ≡ blank_line (codes " \t\nx")
is_empty-line_example = is_empty-line (codes " \t\nx")

is_hrule-rule_example : is_hrule (codes " - - -\n") ≡ (
    if leading_spaces (codes " - - -\n") == length (codes " - - -\n")
    then none
    else some (is_rule (drop (leading_spaces (codes " - - -\n")) (codes " - - -\n"))))
is_hrule-rule_example = is_hrule-rule (codes " - - -\n")
