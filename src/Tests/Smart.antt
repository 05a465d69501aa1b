-- ===== src/Tests/Smart.antt =====
-- Runs of the smart punctuation, and its theorems at concrete inputs.
use blackfriday_2_rust.Base.{
  zero, suc, ◌≡◌, ◌≢◌, ◌≤◌, refl, false, some, [], ◌∷◌, ◌++◌, Bytes, codes, length, all,
  count_while,
}
use blackfriday_2_rust.Util.{is_punct, is_space}
use blackfriday_2_rust.Flags.{intersects, smartypants_fractions, smartypants_dashes}
use blackfriday_2_rust.Smartypants.Quote.{opens, class, rule, opens-rule}
use blackfriday_2_rust.Smartypants.Handlers.{Quotes}
use blackfriday_2_rust.Smartypants.{backtick, left_angle, new, dispatch, process}
use blackfriday_2_rust.Smartypants.Used.{dispatch-used}
use blackfriday_2_rust.Smartypants.Process.{processed, process-processed}
use blackfriday_2_rust.Smartypants.Text.{is_plain, is_inside, reached, process-plain, process-tag}

abbrev closed : Quotes
closed = record { in_single_quote = false; in_double_quote = false }

abbrev half_tag : Bytes
half_tag = codes "it's \"<b"

runs_of_process :
    (process (new smartypants_fractions) [] (codes "1/2 and 21/22")
      ≡ some (
        codes "<sup>1</sup>&frasl;<sub>2</sub> and <sup>21</sup>&frasl;<sub>22</sub>",
        new smartypants_fractions,
      ))
    × (process (new smartypants_dashes) [] (codes "a -- b")
        ≡ some (codes "a &mdash; b", new smartypants_dashes))
    × (process (new 0) [] (codes "a -- b...") ≡ some (codes "a -- b&hellip;", new 0))
    × (process (new 0) [] (codes "\"quoted\"") ≡ some (codes "&ldquo;quoted&rdquo;", new 0))
    × (process (new 0) [] (codes "<a b") ≡ some (codes "<a b", new 0))
unfolding process new intersects is_punct is_space count_while
runs_of_process = (refl, refl, refl, refl, refl)

process-processed_example : process (new 0) [] half_tag ≡ (
    let p = processed (new 0).callbacks zero 0 half_tag (new 0).quotes in
    some ([] ++ p.0, record (new 0) { quotes = p.1 }))
process-processed_example = process-processed (new 0) [] half_tag

process-plain_example :
    process (new 0) (codes "<p>") (codes "plain 0 text!")
    ≡ some (codes "<p>" ++ codes "plain 0 text!", new 0)
unfolding all is_plain
process-plain_example = process-plain 0 (codes "<p>") (codes "plain 0 text!") refl

-- A quote opens in front of the tag, and the one in the tag does not close it.
abbrev quote_tag : Bytes
quote_tag = b'<' ∷ (codes "a t=\"'\"" ++ b'>' ∷ codes "x\"")

abbrev quote_front : Bytes
quote_front = codes "say \""

process-tag_example : process (record (new 0) { quotes = closed }) [] (quote_front ++ quote_tag) ≡ (
    let r = reached (new 0).callbacks zero 0 quote_front quote_tag closed in
    let p = processed (new 0).callbacks zero b'>' (codes "x\"") r.quotes in
    some (
      [] ++ (r.written ++ (b'<' ∷ (codes "a t=\"'\"" ++ b'>' ∷ p.0))),
      record (new 0) { quotes = p.1 },
    ))
unfolding all is_inside reached new intersects dispatch
process-tag_example =
    process-tag 0 closed [] quote_front (codes "a t=\"'\"") (codes "x\"") refl refl

opens-rule_example : opens b' ' b'q' false ≡ rule (class b' ') (class b'q') false
opens-rule_example = opens-rule b' ' b'q' false

dispatch-used_example :
    ((dispatch backtick closed 0 (codes "``x")).used ≤ suc (length (codes "`x")))
    × (backtick ≢ left_angle
        → (dispatch backtick closed 0 (codes "``x")).used ≤ length (codes "`x"))
dispatch-used_example = dispatch-used backtick closed 0 b'`' (codes "`x")
