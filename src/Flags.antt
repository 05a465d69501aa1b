-- ===== src/Flags.antt =====
-- src/flags.rs: sets of options over an `i32`, here its bit pattern, and the options that the other
-- modules test.
use Prim.Native.Nat.{bit_and, bit_or, bit_xor}
use blackfriday_2_rust.Base.{ℕ, ◌-◌, ◌^◌, Bool, not, ◌==◌}

abbrev pub FlagSet : Type 0
FlagSet = ℕ

unfoldable pub contains : FlagSet → FlagSet → Bool
contains self other = bit_and self other == other

unfoldable pub intersects : FlagSet → FlagSet → Bool
intersects self other = not (bit_and self other == 0)

unfoldable pub without : FlagSet → FlagSet → FlagSet
without self other = bit_and self (bit_xor other (2 ^ 32 - 1))

abbrev pub union : FlagSet → FlagSet → FlagSet
union self rhs = bit_or self rhs

-- `HtmlFlags`.
abbrev pub skip_html : FlagSet
skip_html = 2 ^ 1

abbrev pub skip_images : FlagSet
skip_images = 2 ^ 2

abbrev pub skip_links : FlagSet
skip_links = 2 ^ 3

abbrev pub safelink : FlagSet
safelink = 2 ^ 4

abbrev pub nofollow_links : FlagSet
nofollow_links = 2 ^ 5

abbrev pub noreferrer_links : FlagSet
noreferrer_links = 2 ^ 6

abbrev pub noopener_links : FlagSet
noopener_links = 2 ^ 7

abbrev pub href_target_blank : FlagSet
href_target_blank = 2 ^ 8

abbrev pub complete_page : FlagSet
complete_page = 2 ^ 9

abbrev pub use_xhtml : FlagSet
use_xhtml = 2 ^ 10

abbrev pub footnote_return_links : FlagSet
footnote_return_links = 2 ^ 11

abbrev pub smartypants : FlagSet
smartypants = 2 ^ 12

abbrev pub smartypants_fractions : FlagSet
smartypants_fractions = 2 ^ 13

abbrev pub smartypants_dashes : FlagSet
smartypants_dashes = 2 ^ 14

abbrev pub smartypants_latex_dashes : FlagSet
smartypants_latex_dashes = 2 ^ 15

abbrev pub smartypants_angled_quotes : FlagSet
smartypants_angled_quotes = 2 ^ 16

abbrev pub smartypants_quotes_nbsp : FlagSet
smartypants_quotes_nbsp = 2 ^ 17

abbrev pub toc : FlagSet
toc = 2 ^ 18

-- `Extensions`.
abbrev pub footnotes : FlagSet
footnotes = 2 ^ 10

-- `ListType`.
abbrev pub ordered : FlagSet
ordered = 1

abbrev pub definition : FlagSet
definition = 2

abbrev pub term : FlagSet
term = 4

-- `CellAlignFlags`.
abbrev pub left : FlagSet
left = 1

abbrev pub right : FlagSet
right = 2

abbrev pub center : FlagSet
center = 3
