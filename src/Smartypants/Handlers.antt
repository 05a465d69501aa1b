-- ===== src/Smartypants/Handlers.antt =====
-- src/smartypants.rs: the handlers. Each is given the byte before and the text from its own byte on,
-- and returns what it writes, how many bytes it takes beyond its own, and the open quotes after it.
use blackfriday_2_rust.Base.{
  ℕ, ◌+◌, ◌-◌, Bool, false, not, ◌&&◌, ◌||◌, [], ◌++◌, ◌==◌, ltb, leb, if◌then◌else◌, Bytes, codes,
  length, get_or, is_at, take, drop, starts_with, skip_while, min,
}
use blackfriday_2_rust.Util.{is_ascii_digit}
use blackfriday_2_rust.Smartypants.Quote.{word_boundary, tolower, smart_quote_helper}

-- The two flags of the renderer that handlers change.
pub record Quotes : Type 0 where
  pub in_single_quote : Bool
  pub in_double_quote : Bool

pub record Handled : Type 0 where
  pub written : Bytes
  pub used : ℕ
  pub quotes : Quotes

abbrev pub wrote : Quotes → Bytes → ℕ → Handled
wrote q bs n = record { written = bs; used = n; quotes = q }

-- `out.push(text[0]); 0`, on a text that is not empty.
abbrev pub itself : Quotes → Bytes → Handled
itself q s = wrote q (take 1 s) 0

abbrev pub double_quoted : Quotes → Bytes × Bool → ℕ → Handled
double_quoted q r n = wrote (record q { in_double_quote = r.1 }) r.0 n

abbrev pub single_quoted : Quotes → Bytes × Bool → ℕ → Handled
single_quoted q r n = wrote (record q { in_single_quote = r.1 }) r.0 n

-- `text[i]` where the code has tested that it is there; 0 past the end, as `next_char` is.
abbrev pub byte : Bytes → ℕ → ℕ
byte s i = get_or s i 0

-- `text.len() < n || word_boundary(text[n - 1])`: nothing, or no letter or digit, at `n - 1`.
abbrev pub ends_at : Bytes → ℕ → Bool
ends_at s i = ltb (length s) (i + 1) || word_boundary (byte s i)

unfoldable pub smart_single_quote : Quotes → ℕ → Bytes → Handled
unfolding smart_quote_helper word_boundary tolower
smart_single_quote q previous_char s =
    let t1 = tolower (byte s 1) in
    let t2 = tolower (byte s 2) in
    if leb 2 (length s) && t1 == b'\''
    then double_quoted q (smart_quote_helper previous_char (byte s 2) b'd' q.in_double_quote false)
        1
    else if leb 2 (length s)
        && (t1 == b's' || t1 == b't' || t1 == b'm' || t1 == b'd')
        && ends_at s 2
    then wrote q (codes "&rsquo;") 0
    else if leb 3 (length s)
        && ((t1 == b'r' && t2 == b'e') || (t1 == b'l' && t2 == b'l') || (t1 == b'v' && t2 == b'e'))
        && ends_at s 3
    then wrote q (codes "&rsquo;") 0
    else single_quoted q (smart_quote_helper previous_char (byte s 1) b's' q.in_single_quote false)
        0

unfoldable pub smart_parens : Quotes → Bytes → Handled
unfolding tolower
smart_parens q s =
    let t1 = tolower (byte s 1) in
    let t2 = tolower (byte s 2) in
    if leb 3 (length s) && t1 == b'c' && t2 == b')'
    then wrote q (codes "&copy;") 2
    else if leb 3 (length s) && t1 == b'r' && t2 == b')'
    then wrote q (codes "&reg;") 2
    else if leb 4 (length s) && t1 == b't' && t2 == b'm' && byte s 3 == b')'
    then wrote q (codes "&trade;") 3
    else itself q s

unfoldable pub smart_dash : Quotes → ℕ → Bytes → Handled
unfolding word_boundary
smart_dash q previous_char s =
    if leb 2 (length s) && byte s 1 == b'-'
    then wrote q (codes "&mdash;") 1
    else if leb 2 (length s) && word_boundary previous_char && word_boundary (byte s 1)
    then wrote q (codes "&ndash;") 0
    else itself q s

unfoldable pub smart_dash_latex : Quotes → Bytes → Handled
smart_dash_latex q s =
    if leb 3 (length s) && byte s 1 == b'-' && byte s 2 == b'-'
    then wrote q (codes "&mdash;") 2
    else if leb 2 (length s) && byte s 1 == b'-'
    then wrote q (codes "&ndash;") 1
    else itself q s

unfoldable pub smart_amp_variant : Quotes → ℕ → Bytes → ℕ → Bool → Handled
unfolding smart_quote_helper starts_with
smart_amp_variant q previous_char s quote add_nbsp =
    if starts_with s (codes "&quot;")
    then double_quoted q
        (smart_quote_helper previous_char (byte s 6) quote q.in_double_quote add_nbsp) 5
    else if starts_with s (codes "&#0;")
    then wrote q [] 3
    else wrote q (codes "&") 0

unfoldable pub smart_period : Quotes → Bytes → Handled
smart_period q s =
    if leb 3 (length s) && byte s 1 == b'.' && byte s 2 == b'.'
    then wrote q (codes "&hellip;") 2
    else if leb 5 (length s)
        && byte s 1 == b' '
        && byte s 2 == b'.'
        && byte s 3 == b' '
        && byte s 4 == b'.'
    then wrote q (codes "&hellip;") 4
    else itself q s

unfoldable pub smart_backtick : Quotes → ℕ → Bytes → Handled
unfolding smart_quote_helper
smart_backtick q previous_char s =
    if leb 2 (length s) && byte s 1 == b'`'
    then double_quoted q (smart_quote_helper previous_char (byte s 2) b'd' q.in_double_quote false)
        1
    else itself q s

-- U+2044 FRACTION SLASH at this index, with a byte behind it.
abbrev pub fraction_slash : Bytes → ℕ → Bool
fraction_slash s i =
    ltb (i + 3) (length s) && is_at s i 0xe2 && is_at s (i + 1) 0x81 && is_at s (i + 2) 0x84

-- From the denominator on: its digits, and what may follow them.
unfoldable pub smart_denominator : Quotes → Bytes → (num_end den_start : ℕ) → Handled
unfolding word_boundary skip_while
smart_denominator q s num_end den_start =
    let den_end = skip_while is_ascii_digit s den_start in
    if den_end == den_start
    then itself q s
    else if length s == den_end || (word_boundary (byte s den_end) && not (is_at s den_end b'/'))
    then wrote q
        (codes "<sup>"
          ++ (take num_end s
              ++ (codes "</sup>&frasl;<sub>"
                  ++ (take (den_end - den_start) (drop den_start s) ++ codes "</sub>"))))
        (den_end - 1)
    else itself q s

unfoldable pub smart_number_generic : Quotes → ℕ → Bytes → Handled
unfolding smart_denominator word_boundary skip_while
smart_number_generic q previous_char s =
    if word_boundary previous_char && not (previous_char == b'/') && leb 3 (length s)
    then (let num_end = skip_while is_ascii_digit s 0 in
        if num_end == 0
        then itself q s
        else if fraction_slash s num_end
        then smart_denominator q s num_end (num_end + 3)
        else if ltb (length s) (num_end + 2) || not (is_at s num_end b'/')
        then itself q s
        else smart_denominator q s num_end (num_end + 1))
    else itself q s

-- `word_boundary(text[3]) && text[3] != b'/'`, or nothing there.
abbrev pub ends_fraction : Bytes → Bool
ends_fraction s = ltb (length s) 4 || (word_boundary (byte s 3) && not (byte s 3 == b'/'))

unfoldable pub smart_number : Quotes → ℕ → Bytes → Handled
unfolding word_boundary tolower
smart_number q previous_char s =
    let th = leb 5 (length s) && tolower (byte s 3) == b't' && tolower (byte s 4) == b'h' in
    let ths =
      leb 6 (length s)
      && tolower (byte s 3) == b't'
      && tolower (byte s 4) == b'h'
      && tolower (byte s 5) == b's' in
    let near = word_boundary previous_char && not (previous_char == b'/') && leb 3 (length s) in
    if near && byte s 0 == b'1' && byte s 1 == b'/' && byte s 2 == b'2' && ends_fraction s
    then wrote q (codes "&frac12;") 2
    else if near
        && byte s 0 == b'1'
        && byte s 1 == b'/'
        && byte s 2 == b'4'
        && (ends_fraction s || th)
    then wrote q (codes "&frac14;") 2
    else if near
        && byte s 0 == b'3'
        && byte s 1 == b'/'
        && byte s 2 == b'4'
        && (ends_fraction s || ths)
    then wrote q (codes "&frac34;") 2
    else itself q s

unfoldable pub smart_double_quote_variant : Quotes → ℕ → Bytes → ℕ → Handled
unfolding smart_quote_helper
smart_double_quote_variant q previous_char s quote =
    double_quoted q (smart_quote_helper previous_char (byte s 1) quote q.in_double_quote false) 0

unfoldable pub smart_left_angle : Quotes → Bytes → Handled
unfolding skip_while
smart_left_angle q s =
    let i = skip_while (λ b. not (b == b'>')) s 0 in wrote q (take (min (length s) (i + 1)) s) i
