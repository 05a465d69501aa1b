-- ===== src/Html/Strip/Fuel.antt =====
-- src/html.rs: the loops of the tag matchers that run on fuel have enough of it.
use blackfriday_2_rust.Base.{
  ℕ, zero, suc, ◌+◌, ◌≤◌, ◌<◌, ◌≡◌, inl, inr, true, not, Option-cases, none, some, [], ◌∷◌, ◌==◌,
  arith, Bytes, length, get_or, skip_while, skip_while-le, skip_while-ge,
}
use blackfriday_2_rust.Html.Strip.{
  re_space, is_re_space, is_unquoted, is_attribute_start, is_attribute_byte, quoted_len,
  attribute_value_len, attribute_len, attributes_end,
}

quoted_len-range :
    (quote : ℕ) (text : Bytes) (i n : ℕ)
    → quoted_len quote text i ≡ some n
    → (1 ≤ n) × (i + n ≤ length text)
unfolding quoted_len
quoted_len-range quote text i n h =
    ground (arith, skip_while-ge (λ (b : ℕ). not (b == quote)) text (i + 1))

attribute_value_len-range :
    (text : Bytes) (i n : ℕ) → attribute_value_len text i ≡ some n → (1 ≤ n) × (i + n ≤ length text)
unfolding attribute_value_len
attribute_value_len-range text i n h = ground (
  arith,
  skip_while-le is_unquoted text i,
  quoted_len-range b'\'' text i n,
  quoted_len-range b'"' text i n,
)

start_within :
    (text : Bytes) (i : ℕ) → is_attribute_start (get_or text i 0) ≡ true → i < length text
start_within [] i h = ground arith
start_within (c ∷ cs) zero h = omega arith
start_within (c ∷ cs) (suc i) h = omega (arith, start_within cs i h)

attribute_len-range :
    (text : Bytes) (i n : ℕ) → attribute_len text i ≡ some n → (1 ≤ n) × (i + n ≤ length text)
unfolding attribute_len re_space
attribute_len-range text i n h =
    let after_space = re_space text i in
    let before_eq = skip_while is_attribute_byte text (after_space + 1) in
    let k = re_space text before_eq in
    let v = re_space text (k + 1) in
    let forward = skip_while-ge is_re_space text i in
    let past_name = skip_while-ge is_attribute_byte text (after_space + 1) in
    let past_space = skip_while-ge is_re_space text before_eq in
    let past_eq = skip_while-ge is_re_space text (k + 1) in
    let started = start_within text after_space in
    let within_text = skip_while-le is_attribute_byte text (after_space + 1) in
    elim (Option-cases (attribute_value_len text v)) [
      | inl e ↦ ground arith
      | inr (vlen, e) ↦ let value = attribute_value_len-range text v vlen e in ground arith
    ]

-- The loop over the attributes never comes to the end of its fuel, if that is more than the bytes that
-- are left: it ends where no further attribute stands.
attributes_end-stop :
    (fuel : ℕ) (text : Bytes) (i : ℕ)
    → i ≤ length text
    → length text < i + fuel
    → attribute_len text (attributes_end fuel text i) ≡ none
unfolding attributes_end
attributes_end-stop zero text i le lt = absurd (omega arith)
attributes_end-stop (suc fuel) text i le lt = elim (Option-cases (attribute_len text i)) [
  | inl e ↦ rw (e, attributes_end) e
  | inr (n, e) ↦
      let range = attribute_len-range text i n e in
      rw (e, attributes_end) (attributes_end-stop fuel text (i + n) range.1 (omega (arith, range)))
]
