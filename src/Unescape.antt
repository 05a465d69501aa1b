-- ===== src/Unescape.antt =====
-- src/unescape.rs: character references, read as Go's `html.UnescapeString` reads them.
pub mod Numeric
pub mod Ends
pub mod Inverse
use blackfriday_2_rust.Base.{
  ℕ, zero, suc, ◌+◌, ◌-◌, ◌*◌, ◌/◌, ◌%◌, ◌^◌, min, Bool, true, false, not, ◌&&◌, ◌||◌, Option, none,
  some, List, [], ◌∷◌, ◌++◌, ◌==◌, ltb, leb, if◌then◌else◌, Bytes, length, get_or, is_at, take,
  drop, within, count_while, ◌>>=◌,
}
use blackfriday_2_rust.Util.{is_ascii_digit, is_letter}
use blackfriday_2_rust.HtmlEntities.{entity, entity2, longest_entity_without_semicolon}

-- `REPLACEMENT_TABLE`.
abbrev pub replacement_table : List ℕ
replacement_table =
    0x20ac ∷ 0x81 ∷ 0x201a ∷ 0x192 ∷ 0x201e ∷ 0x2026 ∷ 0x2020 ∷ 0x2021 ∷ 0x2c6 ∷ 0x2030 ∷ 0x160
    ∷ 0x2039 ∷ 0x152 ∷ 0x8d ∷ 0x17d ∷ 0x8f ∷ 0x90 ∷ 0x2018 ∷ 0x2019 ∷ 0x201c ∷ 0x201d ∷ 0x2022
    ∷ 0x2013 ∷ 0x2014 ∷ 0x2dc ∷ 0x2122 ∷ 0x161 ∷ 0x203a ∷ 0x153 ∷ 0x9d ∷ 0x17e ∷ 0x178 ∷ []

-- `push_char`: the bytes of a code point in UTF-8.
unfoldable pub push_char : ℕ → Bytes
push_char c =
    if ltb c 0x80
    then c ∷ []
    else if ltb c 0x800
    then (0xc0 + c / 64) ∷ (0x80 + c % 64) ∷ []
    else if ltb c 0x10000
    then (0xe0 + c / 4096) ∷ (0x80 + c / 64 % 64) ∷ (0x80 + c % 64) ∷ []
    else (0xf0 + c / 262144) ∷ (0x80 + c / 4096 % 64) ∷ (0x80 + c / 64 % 64) ∷ (0x80 + c % 64) ∷ []

abbrev pub is_surrogate : ℕ → Bool
is_surrogate x = within 0xd800 0xdfff x

-- `char::from_u32`.
abbrev pub from_u32 : ℕ → Option ℕ
from_u32 x = if leb x 0x10ffff && not (is_surrogate x) then some x else none

-- The value of a digit, if the byte is one: of sixteen or of ten.
unfoldable pub digit_value : Bool → ℕ → Option ℕ
digit_value hex c =
    if is_ascii_digit c
    then some (c - b'0')
    else if hex && within b'a' b'f' c
    then some (c - b'a' + 10)
    else if hex && within b'A' b'F' c
    then some (c - b'A' + 10)
    else none

-- The loop over the digits at index `i`. The `i32` is its bit pattern, so that `wrapping_mul` and
-- `wrapping_add` are sums and products modulo 2 ^ 32.
unfoldable pub digits_loop : Bool → Bytes → (i x : ℕ) → ℕ × ℕ
unfolding digit_value
digits_loop hex [] i x = (i, x)
digits_loop hex (c ∷ cs) i x = elim (digit_value hex c) [
  | none ↦ (if c == b';' then i + 1 else i, x)
  | some d ↦ digits_loop hex cs (i + 1) ((x * (if hex then 16 else 10) + d) % 2 ^ 32)
]

-- The code point that the number stands for; above 0x10FFFF as a signed number, or negative, it is
-- U+FFFD.
unfoldable pub numeric_char : ℕ → ℕ
numeric_char x =
    if within 0x80 0x9f x
    then get_or replacement_table (x - 0x80) 0
    else if x == 0 || is_surrogate x || (ltb x (2 ^ 31) && ltb 0x10ffff x)
    then 0xfffd
    else elim (from_u32 x) [ none ↦ 0xfffd | some c ↦ c ]

-- A reference that starts with `&#`: what is written, and how many bytes of `s` it takes.
unfoldable pub unescape_numeric : Bytes → Bytes × ℕ
unfolding digits_loop numeric_char push_char
unescape_numeric s =
    let hex = is_at s 2 b'x' || is_at s 2 b'X' in
    let start = if hex then 3 else 2 in
    let r = digits_loop hex (drop start s) start 0 in
    if leb (length s) 3 || leb r.0 3 then (take 1 s, 1) else (push_char (numeric_char r.1), r.0)

abbrev pub is_name_byte : ℕ → Bool
is_name_byte b = is_letter b || is_ascii_digit b

-- Where the name that starts at index 1 ends: behind its letters and digits, and a `;` if there.
unfoldable pub name_end : Bytes → ℕ
unfolding count_while
name_end s = let n = 1 + count_while is_name_byte (drop 1 s) in if is_at s n b';' then n + 1 else n

-- The longest-match fallback, `while j > 1`.
unfoldable pub longest_prefix : ℕ → Bytes → Option (ℕ × ℕ)
longest_prefix zero name = none
longest_prefix (suc zero) name = none
longest_prefix (suc (suc j)) name = elim (entity (take (suc (suc j)) name)) [
  | some x ↦ some (x, suc (suc j))
  | none ↦ longest_prefix (suc j) name
]

unfoldable pub unescape_named : Bytes → Bytes × ℕ
unfolding name_end longest_prefix push_char
unescape_named s =
    let i = name_end s in
    let entity_name = take (i - 1) (drop 1 s) in
    if i == 1 then (take 1 s, 1) else elim (entity entity_name) [
      | some x ↦ (push_char x, i)
      | none ↦ elim (entity2 entity_name) [
        | some (a, b) ↦ (push_char a ++ push_char b, i)
        | none ↦
            let max_len = min (length entity_name - 1) longest_entity_without_semicolon in
            elim (longest_prefix max_len entity_name) [
              | some (x, j) ↦ (push_char x, j + 1)
              | none ↦ (take i s, i)
            ]
      ]
    ]

-- On `s_full[src..]`, which starts with `&`: what is written, and how many bytes are taken. The source
-- returns `src` and this number.
unfoldable pub unescape_entity : Bytes → Bytes × ℕ
unfolding unescape_numeric unescape_named
unescape_entity s =
    if leb (length s) 1
    then (take 1 s, 1)
    else if is_at s 1 b'#'
    then unescape_numeric s
    else unescape_named s

abbrev pub is_plain : ℕ → Bool
is_plain b = not (b == b'&')

-- The loop of `unescape_string` on fuel, where `s` is `s[src..]`.
unfoldable pub unescape_loop : ℕ → Bytes → Bytes → Option Bytes
unfolding unescape_entity count_while
unescape_loop zero s out = none
unescape_loop (suc fuel) s out = elim (length s == 0) [
  | true ↦ some out
  | false ↦
      let i = count_while is_plain s in
      elim (i == length s) [
        | true ↦ some (out ++ s)
        | false ↦
            let r = unescape_entity (drop i s) in
            unescape_loop fuel (drop (i + r.1) s) (out ++ (take i s ++ r.0))
      ]
]

unfoldable pub unescape_string : Bytes → Option Bytes
unfolding unescape_loop
unescape_string s =
    let first = count_while is_plain s in
    if first == length s
    then some s
    else (let r = unescape_entity (drop first s) in
        unescape_loop (length s + 1) (drop (first + r.1) s) (take first s ++ r.0))
