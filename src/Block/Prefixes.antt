-- ===== src/Block/Prefixes.antt =====
-- src/block.rs: the prefixes of list items, quotes and code.
use blackfriday_2_rust.Base.{
  at-length, ℕ, zero, suc, ◌+◌, ◌≤◌, ◌<◌, ◌≡◌, ◌≢◌, ◌⊎◌, true, ◌||◌, [], ◌∷◌, ◌==◌, arith,
  if◌then◌else◌, Bytes, length, is_at, get_or, drop, ltb, starts_with, starts_with-length,
  count_while-le, length-drop, codes, skip_while, count_while,
}
use blackfriday_2_rust.Util.{is_ascii_digit}
use blackfriday_2_rust.Block.{
  count_upto, leading_spaces, uli_prefix, oli_prefix, dli_prefix, quote_prefix, code_prefix,
}

uli-length : (text : Bytes) → uli_prefix text ≤ length text
unfolding uli_prefix
uli-length text = ground arith

oli-length : (text : Bytes) → oli_prefix text ≤ length text
unfolding oli_prefix
oli-length text = ground arith

dli-cases :
    (text : Bytes)
    → (dli_prefix text ≡ 0)
      ⊎ ((dli_prefix text ≡ 2) × (is_at text 0 b':' ≡ true) × (2 ≤ length text))
unfolding dli_prefix skip_while count_while
dli-cases [] = ground arith
dli-cases (c ∷ cs) = ground arith

quote-length : (text : Bytes) → quote_prefix text ≤ length text
unfolding quote_prefix
quote-length text =
    let i = leading_spaces text in
    ground (arith, at-length text i b'>', at-length text (i + 1) b' ')

code-length : (text : Bytes) → code_prefix text ≤ length text
unfolding code_prefix
code-length text = ground (arith, at-length text 0 b'\t', starts_with-length text (codes "    "))

-- No prefix is longer than the text.
pub prefixes-length :
    (text : Bytes)
    → (uli_prefix text ≤ length text)
      × (oli_prefix text ≤ length text)
      × (dli_prefix text ≤ length text)
      × (quote_prefix text ≤ length text)
      × (code_prefix text ≤ length text)
prefixes-length text = (
  uli-length text,
  oli-length text,
  ground (arith, dli-cases text),
  quote-length text,
  code-length text,
)

-- The first byte behind at most three spaces.
abbrev marker : Bytes → ℕ
marker text = get_or text (leading_spaces text) 0

at-get_or : (text : Bytes) (i c : ℕ) → is_at text i c ≡ true → get_or text i 0 ≡ c
at-get_or [] i c h = cc
at-get_or (b ∷ bs) zero c h = ground arith
at-get_or (b ∷ bs) (suc i) c h = at-get_or bs i c h

uli-marker :
    (text : Bytes)
    → 0 < uli_prefix text
    → (marker text == b'*' || marker text == b'+' || marker text == b'-') ≡ true
unfolding uli_prefix
uli-marker text h =
    let i = leading_spaces text in
    ground (arith, at-get_or text i b'*', at-get_or text i b'+', at-get_or text i b'-')

quote-marker : (text : Bytes) → 0 < quote_prefix text → marker text ≡ b'>'
unfolding quote_prefix
quote-marker text h = ground (arith, at-get_or text (leading_spaces text) b'>')

digit_here :
    (text : Bytes) (i : ℕ)
    → i ≢ skip_while is_ascii_digit text i
    → is_ascii_digit (get_or text i 0) ≡ true
unfolding skip_while count_while
digit_here [] i h =
    absurd (h (omega (arith, count_while-le is_ascii_digit (drop i []), length-drop {A = ℕ} i [])))
digit_here (b ∷ bs) zero h = ground arith
digit_here (b ∷ bs) (suc i) h = digit_here bs i (λ e. h (omega arith))

oli-marker : (text : Bytes) → 0 < oli_prefix text → is_ascii_digit (marker text) ≡ true
unfolding oli_prefix
oli-marker text h = ground (arith, digit_here text (leading_spaces text))

dli-marker : (text : Bytes) → 0 < dli_prefix text → marker text ≡ b':'
unfolding leading_spaces count_upto
dli-marker [] h = ground (arith, dli-cases [])
dli-marker (c ∷ cs) h = ground (arith, dli-cases (c ∷ cs))

code-marker :
    (text : Bytes) → 0 < code_prefix text → (marker text == b'\t' || marker text == b' ') ≡ true
unfolding leading_spaces count_upto code_prefix starts_with
code-marker [] h = ground arith
code-marker (a ∷ []) h = ground arith
code-marker (a ∷ b ∷ []) h = ground arith
code-marker (a ∷ b ∷ c ∷ []) h = ground arith
code-marker (a ∷ b ∷ c ∷ d ∷ text) h = ground arith

abbrev bit : ℕ → ℕ
bit n = if ltb 0 n then 1 else 0

unfoldable pub prefix_count : Bytes → ℕ
prefix_count text =
    bit (uli_prefix text)
    + bit (oli_prefix text)
    + bit (dli_prefix text)
    + bit (quote_prefix text)
    + bit (code_prefix text)

-- At most one of the five prefixes is there, so the order in which they are tried does not matter.
pub prefixes_exclusive : (text : Bytes) → prefix_count text ≤ 1
unfolding prefix_count
prefixes_exclusive text =
    ground (
      arith,
      uli-marker text,
      oli-marker text,
      dli-marker text,
      quote-marker text,
      code-marker text,
    )
