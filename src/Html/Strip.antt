-- ===== src/Html/Strip.antt =====
-- src/html.rs: the matchers of an HTML tag at the start of a text, which `out` strips.
pub mod Ends
pub mod Fuel
use blackfriday_2_rust.Base.{
  ℕ, zero, suc, ◌+◌, ◌-◌, Bool, true, false, not, ◌&&◌, ◌||◌, Option, none, some, List, [], ◌∷◌,
  ◌==◌, ltb, if◌then◌else◌, Bytes, codes, length, get_or, is_at, drop, starts_with, skip_while,
  count_while, ◌>>=◌,
}
use blackfriday_2_rust.Util.{is_ascii_digit, is_letter}

abbrev pub is_ascii_alphanumeric : ℕ → Bool
is_ascii_alphanumeric b = is_letter b || is_ascii_digit b

abbrev pub is_name_byte : ℕ → Bool
is_name_byte b = is_ascii_alphanumeric b || b == b'-'

unfoldable pub tag_name_len : Bytes → ℕ → Option ℕ
unfolding skip_while count_while
tag_name_len text i =
    if is_letter (get_or text i 0) then some (skip_while is_name_byte text (i + 1) - i) else none

abbrev pub is_re_space : ℕ → Bool
is_re_space b = b == b'\t' || b == b'\n' || b == 0x0b || b == 0x0c || b == b'\r' || b == b' '

unfoldable pub re_space : Bytes → ℕ → ℕ
unfolding skip_while count_while
re_space text i = skip_while is_re_space text i

abbrev pub is_unquoted : ℕ → Bool
is_unquoted b =
    not (b == b'"' || b == b'\'' || b == b'=' || b == b'<' || b == b'>' || b == b'`') && ltb 0x20 b

-- A value between two of these quotes, the first of which is at `i`.
unfoldable pub quoted_len : ℕ → Bytes → ℕ → Option ℕ
unfolding skip_while count_while
quoted_len quote text i =
    let j = skip_while (λ b. not (b == quote)) text (i + 1) in
    if ltb j (length text) then some (j + 1 - i) else none

unfoldable pub attribute_value_len : Bytes → ℕ → Option ℕ
unfolding skip_while count_while quoted_len
attribute_value_len text i =
    let j = skip_while is_unquoted text i in
    if not (ltb i (length text))
    then none
    else if ltb i j
    then some (j - i)
    else if is_at text i b'\''
    then quoted_len b'\'' text i
    else if is_at text i b'"'
    then quoted_len b'"' text i
    else none

abbrev pub is_attribute_start : ℕ → Bool
is_attribute_start b = is_letter b || b == b'_' || b == b':'

abbrev pub is_attribute_byte : ℕ → Bool
is_attribute_byte b = is_ascii_alphanumeric b || b == b':' || b == b'.' || b == b'_' || b == b'-'

unfoldable pub attribute_len : Bytes → ℕ → Option ℕ
unfolding re_space attribute_value_len skip_while
attribute_len text i =
    let after_space = re_space text i in
    let before_eq = skip_while is_attribute_byte text (after_space + 1) in
    let k = re_space text before_eq in
    let v = re_space text (k + 1) in
    if after_space == i
    then none
    else if not (is_attribute_start (get_or text after_space 0))
    then none
    else if is_at text k b'='
    then elim (attribute_value_len text v) [
      | some vlen ↦ some (v + vlen - i)
      | none ↦ some (before_eq - i)
    ]
    else some (before_eq - i)

-- `while let Some(n) = attribute_len(data, i)` on fuel.
unfoldable pub attributes_end : ℕ → Bytes → ℕ → ℕ
attributes_end zero text i = i
attributes_end (suc fuel) text i = elim (attribute_len text i) [
  | none ↦ i
  | some n ↦ attributes_end fuel text (i + n)
]

-- `(i < data.len() && data[i] == b'>').then_some(i + 1)`.
abbrev pub close_at : Bytes → ℕ → Option ℕ
close_at text i = if is_at text i b'>' then some (i + 1) else none

unfoldable pub open_tag_len : Bytes → Option ℕ
unfolding tag_name_len attributes_end attribute_len re_space
open_tag_len text =
    if not (is_at text 0 b'<')
    then none
    else (tag_name_len text 1 >>= λ n.
        (let i = re_space text (attributes_end (length text) text (1 + n)) in
          close_at text (if is_at text i b'/' then i + 1 else i)))

unfoldable pub close_tag_len : Bytes → Option ℕ
unfolding tag_name_len re_space starts_with
close_tag_len text =
    if not (starts_with text (codes "</"))
    then none
    else (tag_name_len text 2 >>= λ n. close_at text (re_space text (2 + n)))

-- The loop of `html_comment_len` at index `i`, on fuel.
unfoldable pub comment_loop : ℕ → Bytes → ℕ → Option ℕ
unfolding starts_with
comment_loop zero text i = none
comment_loop (suc fuel) text i = elim (starts_with (drop i text) (codes "-->")) [
  | true ↦ some (i + 3)
  | false ↦
      let j = if is_at text i b'-' then i + 1 else i in
      elim (not (ltb j (length text)) || is_at text j b'-') [
        | true ↦ none
        | false ↦ comment_loop fuel text (j + 1)
      ]
]

unfoldable pub html_comment_len : Bytes → Option ℕ
unfolding comment_loop starts_with
html_comment_len text =
    let i = if is_at text 4 b'-' then 5 else 4 in
    if starts_with text (codes "<!---->")
    then some 7
    else if not (starts_with text (codes "<!--"))
    then none
    else if not (ltb i (length text)) || is_at text i b'>' || is_at text i b'-'
    then none
    else comment_loop (length text + 1) text (i + 1)

-- The loop of `processing_instruction_len` at index `i`, where these bytes are left.
unfoldable pub instruction_loop : Bytes → ℕ → Option ℕ
instruction_loop [] i = none
instruction_loop (c ∷ []) i = none
instruction_loop (c ∷ d ∷ cs) i =
    let rest = instruction_loop (d ∷ cs) (i + 1) in
    if c == b'\n' then none else if c == b'?' && d == b'>' then some (i + 2) else rest

unfoldable pub processing_instruction_len : Bytes → Option ℕ
unfolding instruction_loop starts_with
processing_instruction_len text =
    if not (starts_with text (codes "<?")) then none else instruction_loop (drop 2 text) 2

unfoldable pub declaration_len : Bytes → Option ℕ
unfolding re_space starts_with skip_while count_while
declaration_len text =
    let i = skip_while is_letter text 2 in
    let after = re_space text i in
    let close = skip_while (λ b. not (b == b'>')) text after in
    if not (starts_with text (codes "<!"))
    then none
    else if i == 2
    then none
    else if after == i
    then none
    else if ltb close (length text)
    then some (close + 1)
    else none

-- The loop of `cdata_len` at index `i`.
unfoldable pub cdata_loop : Bytes → ℕ → Option ℕ
cdata_loop [] i = none
cdata_loop (a ∷ []) i = none
cdata_loop (a ∷ b ∷ []) i = none
cdata_loop (a ∷ b ∷ c ∷ cs) i =
    let rest = cdata_loop (b ∷ c ∷ cs) (i + 1) in
    if a == b']' && b == b']' && c == b'>' then some (i + 3) else rest

unfoldable pub cdata_len : Bytes → Option ℕ
unfolding cdata_loop starts_with
cdata_len text =
    if not (starts_with text (codes "<![CDATA[")) then none else cdata_loop (drop 9 text) 9

-- `a.or_else(|| b)`.
infixl 6 ◌or_else◌
abbrev pub ◌or_else◌ {ℓ} : {A : Type ℓ} → Option A → Option A → Option A
none or_else b = b
some a or_else b = some a

unfoldable pub html_tag_prefix_len : Bytes → Option ℕ
unfolding open_tag_len close_tag_len html_comment_len processing_instruction_len declaration_len
    cdata_len
html_tag_prefix_len text =
    open_tag_len text
    or_else close_tag_len text
    or_else html_comment_len text
    or_else processing_instruction_len text
    or_else declaration_len text
    or_else cdata_len text
