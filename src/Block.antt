-- ===== src/Block.antt =====
-- src/block.rs: the scanners that tell from the first bytes of a text which block it starts.
pub mod Counts
pub mod Prefixes
pub mod Blank
pub mod Rule
pub mod Entity
use blackfriday_2_rust.Base.{
  ℕ, zero, suc, ◌+◌, ◌-◌, Bool, true, false, not, ◌&&◌, ◌||◌, Option, none, some, List, [], ◌∷◌,
  ◌++◌, ◌==◌, ltb, leb, if◌then◌else◌, Bytes, codes, length, get_or, is_at, drop, starts_with,
  within, skip_while, count_while, ◌>>=◌,
}
use blackfriday_2_rust.Util.{is_ascii_digit}
use blackfriday_2_rust.Flags.{FlagSet, intersects, ordered, definition}

unfoldable pub skip_char : Bytes → ℕ → ℕ → ℕ
unfolding skip_while count_while
skip_char text start ch = skip_while (λ b. b == ch) text start

unfoldable pub skip_until_char : Bytes → ℕ → ℕ → ℕ
unfolding skip_while count_while
skip_until_char text start ch = skip_while (λ b. not (b == ch)) text start

-- The backslashes that end just before `i`; the loop's count starts at `n`.
unfoldable pub backslashes_before : Bytes → ℕ → ℕ → ℕ
backslashes_before text zero n = n
backslashes_before text (suc i) n =
    let rest = backslashes_before text i (n + 1) in if is_at text i b'\\' then rest else n

unfoldable pub is_odd : ℕ → Bool
is_odd zero = false
is_odd (suc n) = not (is_odd n)

-- `text[i - backslashes - 1]` is in range where `i` is at most the length.
unfoldable pub is_backslash_escaped : Bytes → ℕ → Bool
unfolding backslashes_before is_odd
is_backslash_escaped text i = is_odd (backslashes_before text i 0)

-- The loop of `is_empty` at index `i`, where these bytes are left.
unfoldable pub is_empty_loop : Bytes → ℕ → ℕ
is_empty_loop [] i = i
is_empty_loop (c ∷ cs) i =
    let rest = is_empty_loop cs (i + 1) in
    if c == b'\n' then i + 1 else if not (c == b' ') && not (c == b'\t') then 0 else rest

unfoldable pub is_empty : Bytes → ℕ
unfolding is_empty_loop
is_empty [] = 0
is_empty (c ∷ cs) = is_empty_loop (c ∷ cs) 0

-- `while i < k && data[i] == b' '` without a test of the length: what is left of `text` at `i`, and
-- `none` where it is indexed behind its end.
unfoldable pub hrule_start : ℕ → Bytes → Option Bytes
hrule_start zero text = some text
hrule_start (suc k) [] = none
hrule_start (suc k) (c ∷ cs) = elim (c == b' ') [ true ↦ hrule_start k cs | false ↦ some (c ∷ cs) ]

unfoldable pub hrule_line : ℕ → Bytes → ℕ → Bool
hrule_line c [] n = leb 3 n
hrule_line c (b ∷ bs) n =
    let rest = hrule_line c bs (if b == c then n + 1 else n) in
    if b == b'\n' then leb 3 n else if b == c || b == b' ' then rest else false

-- `none` is the panic of `text[i]`.
unfoldable pub hrule_from : Bytes → Option Bool
unfolding hrule_line
hrule_from [] = none
hrule_from (c ∷ cs) =
    if not (c == b'*') && not (c == b'-') && not (c == b'_')
    then some false
    else some (hrule_line c (c ∷ cs) 0)

unfoldable pub is_hrule : Bytes → Option Bool
unfolding hrule_start hrule_from
is_hrule text = hrule_start 3 text >>= hrule_from

-- One arm of `is_underlined_heading`, with the marker and its level.
abbrev underlined : Bytes → ℕ → ℕ → ℕ
underlined text ch level =
    let i = skip_char text (skip_char text 1 ch) b' ' in if is_at text i b'\n' then level else 0

unfoldable pub is_underlined_heading : Bytes → Option ℕ
unfolding skip_char
is_underlined_heading [] = none
is_underlined_heading (c ∷ cs) = some (
    if c == b'='
    then underlined (c ∷ cs) b'=' 1
    else if c == b'-'
    then underlined (c ∷ cs) b'-' 2
    else 0)

-- `while j < data.len() && j - start < k && p(data[j])`, from `start` on.
unfoldable pub count_upto : ℕ → (ℕ → Bool) → Bytes → ℕ
count_upto zero p bs = 0
count_upto (suc k) p [] = 0
count_upto (suc k) p (b ∷ bs) = if p b then suc (count_upto k p bs) else 0

abbrev pub is_blank_after : Bytes → ℕ → Bool
is_blank_after text i = is_at text (i + 1) b' ' || is_at text (i + 1) b'\t'

unfoldable pub leading_spaces : Bytes → ℕ
unfolding count_upto
leading_spaces text = count_upto 3 (λ b. b == b' ') text

unfoldable pub uli_prefix : Bytes → ℕ
unfolding leading_spaces
uli_prefix text =
    let i = leading_spaces text in
    if leb (length text) (i + 1)
    then 0
    else if not (is_at text i b'*' || is_at text i b'+' || is_at text i b'-')
        || not (is_blank_after text i)
    then 0
    else i + 2

unfoldable pub oli_prefix : Bytes → ℕ
unfolding leading_spaces skip_while
oli_prefix text =
    let start = leading_spaces text in
    let i = skip_while is_ascii_digit text start in
    if start == i || leb (length text) (i + 1)
    then 0
    else if not (is_at text i b'.') || not (is_blank_after text i)
    then 0
    else i + 2

unfoldable pub dli_prefix : Bytes → ℕ
unfolding skip_while
dli_prefix text =
    if ltb (length text) 2
    then 0
    else if not (is_at text 0 b':') || not (is_blank_after text 0)
    then 0
    else skip_while (λ b. b == b' ') text 0 + 2

unfoldable pub list_type_changed : Bytes → FlagSet → Bool
unfolding dli_prefix oli_prefix uli_prefix intersects
list_type_changed text flags =
    (ltb 0 (dli_prefix text) && not (intersects flags definition))
    || (ltb 0 (oli_prefix text) && not (intersects flags ordered))
    || (ltb 0 (uli_prefix text) && (intersects flags ordered || intersects flags definition))

unfoldable pub quote_prefix : Bytes → ℕ
unfolding leading_spaces
quote_prefix text =
    let i = leading_spaces text in
    if is_at text i b'>' then (if is_at text (i + 1) b' ' then i + 2 else i + 1) else 0

unfoldable pub code_prefix : Bytes → ℕ
unfolding starts_with
code_prefix text =
    if is_at text 0 b'\t' then 1 else if starts_with text (codes "    ") then 4 else 0

-- `&data[i..]`, with its panic.
abbrev pub tail_at : Bytes → ℕ → Option Bytes
tail_at text i = if leb i (length text) then some (drop i text) else none

unfoldable pub terminate_blockquote : Bytes → ℕ → ℕ → Option Bool
unfolding is_empty quote_prefix
terminate_blockquote text beg end = tail_at text beg >>= λ line.
    (if is_empty line == 0
      then some false
      else if leb (length text) end
      then some true
      else some (quote_prefix (drop end text) == 0 && is_empty (drop end text) == 0))

-- The index behind the blank line at `i`, or 0 if there is none.
abbrev pub skip_blank : Bytes → ℕ → ℕ
skip_blank text i = let skip = is_empty (drop i text) in if skip == 0 then 0 else i + skip

unfoldable pub html_find_end : (tag text : Bytes) → Bool → ℕ
unfolding is_empty starts_with
html_find_end tag text lax =
    let closetag = codes "</" ++ (tag ++ codes ">") in
    if starts_with tag (codes "hr") && length tag == 2
    then 2
    else if not (starts_with text closetag)
    then 0
    else (let i = skip_blank text (length closetag) in
        if i == 0
        then 0
        else if leb (length text) i
        then i
        else if lax
        then i
        else skip_blank text i)

abbrev pub is_ascii_hexdigit : ℕ → Bool
is_ascii_hexdigit b = is_ascii_digit b || within b'a' b'f' b || within b'A' b'F' b

abbrev pub is_ascii_alphabetic : ℕ → Bool
is_ascii_alphabetic b = within b'a' b'z' b || within b'A' b'Z' b

abbrev pub is_ascii_alphanumeric : ℕ → Bool
is_ascii_alphanumeric b = is_ascii_alphabetic b || is_ascii_digit b

-- The body of a reference that starts at `j`, no longer than `k`, then a `;`.
unfoldable pub reference_end : Bytes → ℕ → ℕ → ℕ → (ℕ → Bool) → Option ℕ
unfolding count_upto
reference_end text i j k p =
    let count = count_upto k p (drop j text) in
    if count == 0
    then none
    else if is_at text (j + count) b';'
    then some (j + count + 1 - i)
    else none

unfoldable pub char_entity_len : Bytes → ℕ → Option ℕ
unfolding reference_end
char_entity_len text i =
    if not (is_at text i b'&')
    then none
    else if is_at text (i + 1) b'#'
    then (if is_at text (i + 2) b'x' || is_at text (i + 2) b'X'
        then reference_end text i (i + 3) 8 is_ascii_hexdigit
        else reference_end text i (i + 2) 8 is_ascii_digit)
    else if is_ascii_alphabetic (get_or text (i + 1) 0)
    then reference_end text i (i + 2) 31 is_ascii_alphanumeric
    else none
