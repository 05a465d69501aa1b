-- ===== src/Util.antt =====
-- src/util.rs: the byte classes, the indent test and the slug of a fragment.
pub mod Classes
pub mod Slug
pub mod Words
use blackfriday_2_rust.Base.{
  ℕ, zero, suc, ◌+◌, ◌-◌, Bool, true, false, ◌&&◌, ◌||◌, Option, some, List, [], ◌∷◌, ◌++◌, ◌==◌,
  ltb, within, if◌then◌else◌, Bytes, codes, length, is_at, slice, take,
}

-- `matches!` over a set of byte literals.
unfoldable pub one_of : Bytes → ℕ → Bool
one_of [] c = false
one_of (x ∷ xs) c = c == x || one_of xs c

unfoldable pub is_punct : ℕ → Bool
unfolding one_of
is_punct c = one_of (codes "!\"#$%&'()*+,-./:;<=>?@[\\]^_`{|}~") c

abbrev pub is_horizontal_space : ℕ → Bool
is_horizontal_space c = c == b' ' || c == b'\t'

abbrev pub is_vertical_space : ℕ → Bool
is_vertical_space c = c == b'\n' || c == b'\r' || c == 0x0c || c == 0x0b

unfoldable pub is_space : ℕ → Bool
is_space c = is_horizontal_space c || is_vertical_space c

abbrev pub is_ascii_digit : ℕ → Bool
is_ascii_digit c = within b'0' b'9' c

abbrev pub is_letter : ℕ → Bool
is_letter c = within b'a' b'z' c || within b'A' b'Z' c

unfoldable pub is_alnum : ℕ → Bool
is_alnum c = is_ascii_digit c || is_letter c

-- `for &b in &data[..indent_size]`: whether all of these bytes are spaces.
all_spaces : Bytes → Bool
all_spaces [] = true
all_spaces (b ∷ bs) = b == b' ' && all_spaces bs

unfoldable pub is_indented : Bytes → ℕ → ℕ
unfolding all_spaces
is_indented [] indent_size = 0
is_indented (b ∷ bs) indent_size =
    if b == b'\t'
    then 1
    else if ltb (length (b ∷ bs)) indent_size
    then 0
    else if all_spaces (take indent_size (b ∷ bs))
    then indent_size
    else 0

-- The first loop of `slugify`: what it pushes, in order. `sym` is set behind a pushed dash.
unfoldable pub slug_bytes : Bytes → Bool → Bytes
slug_bytes [] sym = []
slug_bytes (ch ∷ input) sym =
    if is_alnum ch
    then ch ∷ slug_bytes input false
    else if sym
    then slug_bytes input true
    else b'-' ∷ slug_bytes input true

-- `for (i, &ch) in out.iter().enumerate()`: where `a` is left.
unfoldable pub slug_first : Bytes → ℕ → ℕ → ℕ
slug_first [] i a = a
slug_first (ch ∷ out) i a = if ch == b'-' then slug_first out (i + 1) i else i

-- `while b > 0`: where `b` is left.
unfoldable pub slug_last : Bytes → ℕ → ℕ
slug_last out zero = 0
slug_last out (suc b) = if is_at out (suc b) b'-' then slug_last out b else suc b

-- `none` is the panic of `out[a..=b]`.
unfoldable pub slugify : Bytes → Option Bytes
unfolding slug_bytes slug_first slug_last slice
slugify [] = some []
slugify (c ∷ cs) =
    let out = slug_bytes (c ∷ cs) false in
    let a = slug_first out 0 0 in let b = slug_last out (length out - 1) in slice out a (b + 1)
