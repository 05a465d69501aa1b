-- ===== src/Inline/Tag.antt =====
-- src/inline.rs: what the ends that `tag_length` and `is_mailto_auto_link` find have in common.
use mathlib.Core.Path.{subst}
use blackfriday_2_rust.Base.{
  at-length, ℕ, suc, ◌+◌, ◌-◌, ◌≤◌, ◌<◌, ◌≡◌, ◌≢◌, ◌⊎◌, inl, inr, refl, sym, ap, ◌∙◌, Bool, true,
  false, not, ◌&&◌, ◌||◌, Bool-cases, [], ◌∷◌, ◌==◌, arith, if◌then◌else◌, Bytes, length, is_at,
  get_or, get_elem?-get_or, drop, get_elem?-drop, ltb, leb, skip_while, skip_while-le,
  skip_while-stop, skip_while-run,
}
use blackfriday_2_rust.Util.{is_alnum}
use blackfriday_2_rust.Inline.{
  mailto_loop, is_mailto_auto_link, is_scheme_byte, find_end, link_loop, link_end, tag_from,
  tag_length,
}

-- Where an end is found, it is right behind a `>` of the text.
abbrev EndsAt : Bytes → ℕ → ℕ → Type 0
EndsAt text i n = (k : ℕ) × (n ≡ i + suc k) × (is_at text k b'>' ≡ true)

mailto_loop-end :
    (text : Bytes) (i nb : ℕ) → mailto_loop text i nb ≢ 0 → EndsAt text i (mailto_loop text i nb)
unfolding mailto_loop
mailto_loop-end [] i nb ne = absurd (omega arith)
mailto_loop-end (c ∷ cs) i nb ne =
    let nb' = if c == b'@' then nb + 1 else nb in
    elim (Bool-cases (is_alnum c || c == b'@' || c == b'-' || c == b'.' || c == b'_')) [
      | inl on ↦
          let same : mailto_loop (c ∷ cs) i nb ≡ mailto_loop cs (i + 1) nb' =
            rw (on, mailto_loop) refl in
          let (k, e, h) = mailto_loop-end cs (i + 1) nb' (λ z. ne (same ∙ z)) in
          (suc k, omega arith, h)
      | inr off ↦ (0, ground arith, ground arith)
    ]

-- The end of an address is right behind a `>` of the text.
mailto-end :
    (text : Bytes) → is_mailto_auto_link text ≢ 0 → EndsAt text 0 (is_mailto_auto_link text)
unfolding is_mailto_auto_link
mailto-end text ne = mailto_loop-end text 0 0 ne

-- The end that a search gives: behind a `>`, or the place where the search began in a text with no
-- `>` from there on.
abbrev pub IsEnd : Bytes → ℕ → Type 0
IsEnd text n =
    (n ≤ length text)
    × ((is_at text (n - 1) b'>' ≡ true) ⊎ ((j : ℕ) → n ≤ j → is_at text j b'>' ≡ false))

abbrev inside : ℕ → Bool
inside b = not (b == b'>')

angle_found :
    (text : Bytes) (i : ℕ)
    → skip_while inside text i < length text
    → is_at text (skip_while inside text i) b'>' ≡ true
angle_found text i lt =
    let k = skip_while inside text i in
    let here = get_elem?-get_or text k 0 lt in
    ground (arith, here, skip_while-stop inside text i (get_or text k 0) here)

angle_missing :
    (text : Bytes) (i j : ℕ)
    → length text ≤ skip_while inside text i
    → i ≤ j
    → is_at text j b'>' ≡ false
angle_missing text i j le ge = elim (Bool-cases (is_at text j b'>')) [
  | inr off ↦ off
  | inl on ↦
      let lt = at-length text j b'>' on in
      let here = get_elem?-get_or text j 0 lt in
      ground (arith, here, skip_while-run inside text i j (get_or text j 0) ge (omega arith) here)
]

find_end-IsEnd : (text : Bytes) (i : ℕ) → i ≤ length text → IsEnd text (find_end text i)
unfolding find_end
find_end-IsEnd text i le = elim (Bool-cases (ltb (skip_while inside text i) (length text))) [
  | inl found ↦
      let e : find_end text i - 1 ≡ skip_while inside text i = ground arith in
      (ground arith, inl (ap (λ (x : ℕ). is_at text x b'>') e ∙ angle_found text i (ground arith)))
  | inr missing ↦
      let e : find_end text i ≡ i = ground arith in
      (omega (arith, e), inr (λ j ge. angle_missing text i j (ground arith) (omega (arith, e))))
]

angle-IsEnd : (text : Bytes) (i : ℕ) → is_at text i b'>' ≡ true → IsEnd text (i + 1)
angle-IsEnd text i h =
    let e : i ≡ i + 1 - 1 = omega arith in
    (omega (arith, at-length text i b'>' h), inl (subst (λ (x : ℕ). is_at text x b'>' ≡ true) e h))

link_end-IsEnd : (text : Bytes) (j : ℕ) → (link_end text j).1 ≢ 0 → IsEnd text (link_end text j).1
unfolding link_end
link_end-IsEnd text j ne =
    let i = link_loop false (drop j text) j in
    elim (Bool-cases (leb (length text) i)) [
      | inl over ↦ let e : (link_end text j).1 ≡ 0 = ground arith in absurd (ne e)
      | inr before ↦ elim (Bool-cases (ltb j i && is_at text i b'>')) [
        | inl closed ↦
            let e : i + 1 ≡ (link_end text j).1 = ground arith in
            subst (IsEnd text) e (angle-IsEnd text i (ground arith))
        | inr other ↦
            let e : find_end text i ≡ (link_end text j).1 = ground arith in
            subst (IsEnd text) e (find_end-IsEnd text i (ground arith))
      ]
    ]

mail-IsEnd :
    (text : Bytes) (i : ℕ)
    → is_mailto_auto_link (drop i text) ≢ 0
    → IsEnd text (i + is_mailto_auto_link (drop i text))
mail-IsEnd text i ne =
    let (k, e, h) = mailto-end (drop i text) ne in
    let same : (i + k) + 1 ≡ i + is_mailto_auto_link (drop i text) = omega arith in
    subst (IsEnd text) same (angle-IsEnd text (i + k) (ground (arith, get_elem?-drop i text k)))

tag_from-IsEnd :
    (text : Bytes) (i : ℕ)
    → i ≤ length text
    → (tag_from text i).1 ≢ 0
    → IsEnd text (tag_from text i).1
unfolding tag_from
tag_from-IsEnd text i le ne =
    let mail = is_mailto_auto_link (drop i text) in
    elim (Bool-cases (ltb 1 i && is_at text i b'@' && not (mail == 0))) [
      | inl address ↦
          let e : i + mail ≡ (tag_from text i).1 = ground arith in
          subst (IsEnd text) e (mail-IsEnd text i (ground arith))
      | inr no_address ↦ elim (Bool-cases (ltb 2 i && is_at text i b':')) [
        | inr plain ↦
            let e : find_end text i ≡ (tag_from text i).1 = ground arith in
            subst (IsEnd text) e (find_end-IsEnd text i le)
        | inl scheme ↦ elim (Bool-cases (leb (length text) (i + 1))) [
          | inl last ↦
              let e : find_end text (i + 1) ≡ (tag_from text i).1 = ground arith in
              subst (IsEnd text) e
                (find_end-IsEnd text (i + 1) (ground (arith, at-length text i b':')))
          | inr more ↦
              let e : (link_end text (i + 1)).1 ≡ (tag_from text i).1 = ground arith in
              subst (IsEnd text) e (link_end-IsEnd text (i + 1) (λ z. ne (sym e ∙ z)))
        ]
      ]
    ]

-- A length that is not 0 lies within the text, and ends either right behind a `>` or, as in a tag
-- that is not closed, at a place behind which the text has no `>`.
pub tag_length-IsEnd : (text : Bytes) → (tag_length text).1 ≢ 0 → IsEnd text (tag_length text).1
unfolding tag_length
tag_length-IsEnd text ne =
    let start = if is_at text 1 b'/' then 2 else 1 in
    let i = skip_while is_scheme_byte text start in
    elim (Bool-cases (ltb (length text) 3)) [
      | inl short ↦ let e : (tag_length text).1 ≡ 0 = ground arith in absurd (ne e)
      | inr long ↦
          let le : i ≤ length text = skip_while-le is_scheme_byte text start (ground arith) in
          let e : (tag_from text i).1 ≡ (tag_length text).1 = ground arith in
          subst (IsEnd text) e (tag_from-IsEnd text i le (λ z. ne (sym e ∙ z)))
    ]
