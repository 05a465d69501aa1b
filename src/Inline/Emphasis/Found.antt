-- ===== src/Inline/Emphasis/Found.antt =====
-- src/inline.rs, `helper_find_emph_char`: the loop ends, and what it finds.
use blackfriday_2_rust.Base.{
  ℕ, zero, suc, ◌+◌, ◌-◌, ◌≤◌, ◌<◌, ◌≡◌, refl, ◌∙◌, true, not, ◌&&◌, ◌||◌, some, inl, inr, ◌⊎◌, [],
  ◌∷◌, arith, ◌==◌, ltb, Bool-cases, Bytes, length, get_or, get_elem?-drop, is_at, drop, skip_while,
  skip_while-ge,
}
use blackfriday_2_rust.Inline.Emphasis.{
  first_before, is_mark, is_gap, emph_loop, helper_find_emph_char,
}

-- Nothing, or an index where the byte stands.
abbrev pub IsFound : Bytes → ℕ → ℕ → Type 0
IsFound text c r = (r ≡ 0) ⊎ (is_at text r c ≡ true)

first_before-at :
    (c stop : ℕ) (bs : Bytes) (i : ℕ)
    → (first_before c stop bs i ≡ 0)
      ⊎ ((k : ℕ) × (first_before c stop bs i ≡ i + k) × (is_at bs k c ≡ true))
unfolding first_before
first_before-at c stop [] i = inl refl
first_before-at c stop (b ∷ bs) i = elim (Bool-cases (b == stop)) [
  | inl e ↦ inl (rw e refl)
  | inr n ↦ elim (Bool-cases (b == c)) [
    | inl e ↦ inr (zero, rw (n, e) (omega arith), e)
    | inr m ↦ elim (first_before-at c stop bs (i + 1)) [
      | inl z ↦ inl (rw (n, m) z)
      | inr (k, e, at) ↦ inr (suc k, rw (n, m) (e ∙ omega arith), at)
    ]
  ]
]

first_before-IsFound :
    (c stop : ℕ) (text : Bytes) (i : ℕ) → IsFound text c (first_before c stop (drop i text) i)
first_before-IsFound c stop text i = elim (first_before-at c stop (drop i text) i) [
  | inl z ↦ inl z
  | inr (k, e, at) ↦ inr (rw e (rw (← get_elem?-drop i text k, is_at) at))
]

-- With more fuel than there are bytes left, the loop gives a result, and the byte stands there.
emph_loop-IsFound :
    (fuel : ℕ) (text : Bytes) (c start : ℕ)
    → start ≤ length text
    → length text < start + fuel
    → (r : ℕ) × (emph_loop fuel text c start ≡ some r) × IsFound text c r
unfolding emph_loop
emph_loop-IsFound zero text c start le h = absurd (omega arith)
emph_loop-IsFound (suc fuel) text c start le h =
    let i = skip_while (λ b. not (is_mark c b)) text start in
    let i_ge = skip_while-ge (λ b. not (is_mark c b)) text start in
    let quoted = skip_while (λ b. not (b == b'`')) text (i + 1) in
    let quoted_ge = skip_while-ge (λ b. not (b == b'`')) text (i + 1) in
    let tmp = first_before c b']' (drop (i + 1) text) (i + 1) in
    let close = skip_while (λ b. not (b == b']')) text (i + 1) in
    let close_ge = skip_while-ge (λ b. not (b == b']')) text (i + 1) in
    let j = skip_while is_gap text (close + 1) in
    let j_ge = skip_while-ge is_gap text (close + 1) in
    let cc = get_or text j 0 in
    let k = skip_while (λ b. not (b == cc)) text (j + 1) in
    let k_ge = skip_while-ge (λ b. not (b == cc)) text (j + 1) in
    let inner = first_before c cc (drop (j + 1) text) (j + 1) in
    elim (Bool-cases (ltb i (length text))) [
      | inr e₁ ↦ (0, rw (e₁, emph_loop) refl, inl refl)
      | inl e₁ ↦ elim (Bool-cases (not (i == 0) && is_at text (i - 1) b'\\')) [
        | inl e₂ ↦
            let (r, f, found) =
              emph_loop-IsFound fuel text c (i + 1) (ground arith) (omega arith) in
            (r, rw (e₁, e₂, emph_loop) f, found)
        | inr e₂ ↦ elim (Bool-cases (is_at text i c)) [
          | inl e₃ ↦ (i, rw (e₁, e₂, e₃, emph_loop) refl, inr e₃)
          | inr e₃ ↦ elim (Bool-cases (is_at text i b'`')) [
            | inl e₄ ↦ elim (Bool-cases (ltb quoted (length text))) [
              | inr e₅ ↦ (
                _,
                rw (e₁, e₂, e₃, e₄, e₅, emph_loop) refl,
                first_before-IsFound c b'`' text (i + 1),
              )
              | inl e₅ ↦
                  let (r, f, found) =
                    emph_loop-IsFound fuel text c (quoted + 1) (ground arith) (omega arith) in
                  (r, rw (e₁, e₂, e₃, e₄, e₅, emph_loop) f, found)
            ]
            | inr e₄ ↦ elim (Bool-cases (ltb j (length text))) [
              | inr e₅ ↦ (
                _,
                rw (e₁, e₂, e₃, e₄, e₅, emph_loop) refl,
                first_before-IsFound c b']' text (i + 1),
              )
              | inl e₅ ↦ elim (Bool-cases (is_at text j b'[' || is_at text j b'(')) [
                | inr e₆ ↦ elim (Bool-cases (ltb 0 tmp)) [
                  | inl e₇ ↦ (
                    _,
                    rw (e₁, e₂, e₃, e₄, e₅, e₆, e₇, emph_loop) refl,
                    first_before-IsFound c b']' text (i + 1),
                  )
                  | inr e₇ ↦
                      let (r, f, found) =
                        emph_loop-IsFound fuel text c j (ground arith) (omega arith) in
                      (r, rw (e₁, e₂, e₃, e₄, e₅, e₆, e₇, emph_loop) f, found)
                ]
                | inl e₆ ↦ elim (Bool-cases (tmp == 0 && ltb 0 inner)) [
                  | inl e₇ ↦ (
                    _,
                    rw (e₁, e₂, e₃, e₄, e₅, e₆, e₇, emph_loop) refl,
                    first_before-IsFound c cc text (j + 1),
                  )
                  | inr e₇ ↦ elim (Bool-cases (ltb k (length text))) [
                    | inr e₈ ↦ (
                      _,
                      rw (e₁, e₂, e₃, e₄, e₅, e₆, e₇, e₈, emph_loop) refl,
                      first_before-IsFound c b']' text (i + 1),
                    )
                    | inl e₈ ↦
                        let (r, f, found) =
                          emph_loop-IsFound fuel text c (k + 1) (ground arith) (omega arith) in
                        (r, rw (e₁, e₂, e₃, e₄, e₅, e₆, e₇, e₈, emph_loop) f, found)
                  ]
                ]
              ]
            ]
          ]
        ]
      ]
    ]

-- On any text the search ends: it gives 0, or the index of a byte that is the one looked for.
pub helper_find_emph_char-IsFound :
    (text : Bytes) (c : ℕ)
    → (r : ℕ) × (helper_find_emph_char text c ≡ some r) × ((r ≡ 0) ⊎ (is_at text r c ≡ true))
unfolding helper_find_emph_char
helper_find_emph_char-IsFound text c =
    emph_loop-IsFound (length text + 1) text c 0 (omega arith) (omega arith)
