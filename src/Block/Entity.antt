-- ===== src/Block/Entity.antt =====
-- src/block.rs: `char_entity_len`, and where an HTML block or a quote ends.
use blackfriday_2_rust.Base.{
  at-length, ℕ, ◌+◌, ◌-◌, ◌≤◌, ◌≡◌, ◌≢◌, ◌⊎◌, inl, inr, ap, Bool, true, not, ◌||◌, Option, none,
  some, ◌++◌, arith, if◌then◌else◌, Bytes, length, is_at, get_or, drop, length-drop,
  starts_with-length, codes,
}
use blackfriday_2_rust.Util.{is_ascii_digit}
use blackfriday_2_rust.Block.{
  count_upto, char_entity_len, reference_end, skip_blank, is_ascii_hexdigit, is_ascii_alphabetic,
  is_ascii_alphanumeric, html_find_end,
}
use blackfriday_2_rust.Block.Counts.{count_upto-le}
use blackfriday_2_rust.Block.Blank.{is_empty-length}

reference-range :
    (text : Bytes) (i j k : ℕ) (p : ℕ → Bool) (n : ℕ)
    → reference_end text i j k p ≡ some n
    → i ≤ j
    → (i + n ≤ length text)
      × (is_at text (i + n - 1) b';' ≡ true)
      × (j + 2 ≤ i + n)
      × (i + n ≤ j + k + 1)
unfolding reference_end
reference-range text i j k p n h le =
    let count = count_upto k p (drop j text) in
    let m : (is_at text (j + count) b';' ≡ true) × (count ≢ 0) × (n ≡ j + count + 1 - i) =
      ground arith in
    let here : j + count ≡ i + n - 1 = omega (arith, m.2) in
    ground (
      arith,
      m,
      at-length text (j + count) b';',
      (count_upto-le p k (drop j text)).0,
      ap (λ (x : ℕ). is_at text x b';') here,
    )

chosen :
    (a b c d : Bool) (x y z : Option ℕ) (n : ℕ)
    → (if not a then none else if b then (if c then x else y) else if d then z else none) ≡ some n
    → (a ≡ true) × ((x ≡ some n) ⊎ ((y ≡ some n) ⊎ (z ≡ some n)))
chosen a b c d x y z n h = ground arith

which_reference :
    (text : Bytes) (i n : ℕ)
    → char_entity_len text i ≡ some n
    → (is_at text i b'&' ≡ true)
      × ((reference_end text i (i + 3) 8 is_ascii_hexdigit ≡ some n)
          ⊎ ((reference_end text i (i + 2) 8 is_ascii_digit ≡ some n)
              ⊎ (reference_end text i (i + 2) 31 is_ascii_alphanumeric ≡ some n)))
unfolding char_entity_len
which_reference text i n h =
    chosen (is_at text i b'&') (is_at text (i + 1) b'#')
      (is_at text (i + 2) b'x' || is_at text (i + 2) b'X')
      (is_ascii_alphabetic (get_or text (i + 1) 0))
      (reference_end text i (i + 3) 8 is_ascii_hexdigit)
      (reference_end text i (i + 2) 8 is_ascii_digit)
      (reference_end text i (i + 2) 31 is_ascii_alphanumeric) n h

abbrev Ranged : Bytes → ℕ → ℕ → Type 0
Ranged text i n = (is_at text (i + n - 1) b';' ≡ true) × (i + n ≤ length text) × (4 ≤ n) × (n ≤ 34)

reference-Ranged :
    (text : Bytes) (i j k : ℕ) (p : ℕ → Bool) (n : ℕ)
    → i + 2 ≤ j
    → j + k ≤ i + 33
    → reference_end text i j k p ≡ some n
    → Ranged text i n
reference-Ranged text i j k p n lo hi h =
    let (a, b, c, d) = reference-range text i j k p n h (omega arith) in
    (b, a, omega arith, omega arith)

-- A reference that is found lies within the text, from a `&` to a `;`, and has between four and
-- thirty-four bytes.
pub char_entity_len-range :
    (text : Bytes) (i n : ℕ)
    → char_entity_len text i ≡ some n
    → (is_at text i b'&' ≡ true)
      × ((is_at text (i + n - 1) b';' ≡ true) × (i + n ≤ length text) × (4 ≤ n) × (n ≤ 34))
char_entity_len-range text i n h =
    let (start, which) = which_reference text i n h in
    (
      start,
      elim which [
        | inl hex ↦
            reference-Ranged text i (i + 3) 8 is_ascii_hexdigit n (omega arith) (omega arith) hex
        | inr (inl dec) ↦
            reference-Ranged text i (i + 2) 8 is_ascii_digit n (omega arith) (omega arith) dec
        | inr (inr name) ↦
            reference-Ranged text i (i + 2) 31 is_ascii_alphanumeric n (omega arith) (omega arith)
              name
      ],
    )

skip_blank-length : (text : Bytes) (i : ℕ) → i ≤ length text → skip_blank text i ≤ length text
skip_blank-length text i h = ground (arith, is_empty-length (drop i text), length-drop i text)

-- The end that is found lies within the text, but for the two bytes that `hr` is given.
pub html_find_end-length :
    (tag text : Bytes) (lax : Bool) → 2 ≤ length text → html_find_end tag text lax ≤ length text
unfolding html_find_end
html_find_end-length tag text lax h =
    let closetag = codes "</" ++ (tag ++ codes ">") in
    let i = skip_blank text (length closetag) in
    ground (
      arith,
      starts_with-length text closetag,
      skip_blank-length text (length closetag),
      skip_blank-length text i,
    )
