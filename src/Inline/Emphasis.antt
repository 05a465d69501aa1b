-- ===== src/Inline/Emphasis.antt =====
-- src/inline.rs: `unescape_text`, and the search for the end of an emphasis.
pub mod Found
use blackfriday_2_rust.Base.{
  ℕ, zero, suc, ◌+◌, ◌-◌, Bool, true, false, not, ◌&&◌, ◌||◌, Option, none, some, [], ◌∷◌, ◌++◌,
  ◌==◌, ltb, if◌then◌else◌, Bytes, length, get_or, is_at, drop, skip_while, count_while,
}

-- What is pushed, a byte at a time; a backslash that ends the text is dropped.
unfoldable pub unescape_text : Bytes → Bytes
unescape_text [] = []
unescape_text (b ∷ []) = if b == b'\\' then [] else b ∷ []
unescape_text (b ∷ c ∷ src) =
    let escaped = unescape_text src in
    let rest = unescape_text (c ∷ src) in if b == b'\\' then c ∷ escaped else b ∷ rest

-- `tmp_i` behind `while data[i] != stop`: the first `c` from index `i` on, in front of `stop`, or 0.
unfoldable pub first_before : (c stop : ℕ) → Bytes → (i : ℕ) → ℕ
first_before c stop [] i = 0
first_before c stop (b ∷ bs) i =
    let rest = first_before c stop bs (i + 1) in if b == stop then 0 else if b == c then i else rest

abbrev pub is_mark : ℕ → ℕ → Bool
is_mark c b = b == c || b == b'`' || b == b'['

abbrev pub is_gap : ℕ → Bool
is_gap b = b == b' ' || b == b'\n'

-- The loop at index `i`, on fuel, of which `none` is the end.
unfoldable pub emph_loop : ℕ → Bytes → (c i : ℕ) → Option ℕ
unfolding first_before skip_while count_while
emph_loop zero text c start = none
emph_loop (suc fuel) text c start =
    let i = skip_while (λ b. not (is_mark c b)) text start in
    elim (ltb i (length text)) [
      | false ↦ some 0
      | true ↦ elim (not (i == 0) && is_at text (i - 1) b'\\') [
        | true ↦ emph_loop fuel text c (i + 1)
        | false ↦ elim (is_at text i c) [
          | true ↦ some i
          | false ↦ elim (is_at text i b'`') [
            | true ↦
                let close = skip_while (λ b. not (b == b'`')) text (i + 1) in
                elim (ltb close (length text)) [
                  | false ↦ some (first_before c b'`' (drop (i + 1) text) (i + 1))
                  | true ↦ emph_loop fuel text c (close + 1)
                ]
            | false ↦
                let tmp = first_before c b']' (drop (i + 1) text) (i + 1) in
                let close = skip_while (λ b. not (b == b']')) text (i + 1) in
                let j = skip_while is_gap text (close + 1) in
                elim (ltb j (length text)) [
                  | false ↦ some tmp
                  | true ↦ elim (is_at text j b'[' || is_at text j b'(') [
                    | false ↦ elim (ltb 0 tmp) [ true ↦ some tmp | false ↦ emph_loop fuel text c j ]
                    | true ↦
                        let cc = get_or text j 0 in
                        let k = skip_while (λ b. not (b == cc)) text (j + 1) in
                        elim (tmp == 0 && ltb 0 (first_before c cc (drop (j + 1) text) (j + 1))) [
                          | true ↦ some (first_before c cc (drop (j + 1) text) (j + 1))
                          | false ↦ elim (ltb k (length text)) [
                            | false ↦ some tmp
                            | true ↦ emph_loop fuel text c (k + 1)
                          ]
                        ]
                  ]
                ]
          ]
        ]
      ]
    ]

unfoldable pub helper_find_emph_char : Bytes → (c : ℕ) → Option ℕ
unfolding emph_loop
helper_find_emph_char text c = emph_loop (length text + 1) text c 0
