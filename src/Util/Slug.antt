-- ===== src/Util/Slug.antt =====
-- src/util.rs, `slugify`: it never panics, and what its result looks like.
use blackfriday_2_rust.Base.{
  ℕ, zero, suc, ◌+◌, ◌-◌, ◌≤◌, ◌<◌, ◌≡◌, ◌≢◌, refl, sym, ap, ◌∙◌, Bool, true, false, ◌⊎◌, inl, inr,
  some, [], ◌∷◌, arith, ◌==◌, Bool-cases, Bytes, length, get_elem?-take, length-take, length-drop,
  get_elem?, get_elem?-drop, is_at, take, drop, slice,
}
use mathlib.Core.Path.{subst}
use blackfriday_2_rust.Util.Words.{words, words-slug_bytes, words-dash, runs-take}
use blackfriday_2_rust.Util.{is_alnum, slug_bytes, slug_first, slug_last, slugify}

-- Letters, digits and single dashes; `sym` says that a dash stands in front.
abbrev pub IsSlug : Bool → Bytes → Type 0
IsSlug after_dash [] = Unit
IsSlug after_dash (c ∷ cs) =
    ((is_alnum c ≡ true) ⊎ ((c ≡ b'-') × (after_dash ≡ false))) × IsSlug (c == b'-') cs

IsSlug-false : (b : Bool) (cs : Bytes) → IsSlug b cs → IsSlug false cs
IsSlug-false b [] h = tt
IsSlug-false b (c ∷ cs) (inl a, t) = (inl a, t)
IsSlug-false b (c ∷ cs) (inr (d, s), t) = (inr (d, refl), t)

slug_bytes-IsSlug : (input : Bytes) (b : Bool) → IsSlug b (slug_bytes input b)
unfolding slug_bytes
slug_bytes-IsSlug [] b = tt
slug_bytes-IsSlug (c ∷ cs) b = elim (Bool-cases (is_alnum c)) [
  | inl a ↦
      let e : (c == b'-') ≡ false = unfold is_alnum in ground arith in
      rw (a, slug_bytes) (inl a, rw e (slug_bytes-IsSlug cs false))
  | inr a ↦ elim b as (λ s. IsSlug s (slug_bytes (c ∷ cs) s)) [
    | true ↦ rw (a, slug_bytes) (slug_bytes-IsSlug cs true)
    | false ↦ rw (a, slug_bytes) (inr (refl, refl), slug_bytes-IsSlug cs true)
  ]
]

slug_bytes-ne_nil : (c : ℕ) (cs : Bytes) → 0 < length (slug_bytes (c ∷ cs) false)
unfolding slug_bytes
slug_bytes-ne_nil c cs = ground arith

IsSlug-take : (n : ℕ) (b : Bool) (cs : Bytes) → IsSlug b cs → IsSlug b (take n cs)
IsSlug-take zero b cs h = tt
IsSlug-take (suc n) b [] h = tt
IsSlug-take (suc n) b (c ∷ cs) h = (h.0, IsSlug-take n (c == b'-') cs h.1)

-- The downward loop stays at or above every byte that is no dash, and stops at such a byte or at 0.
slug_last-le : (out : Bytes) (b : ℕ) → slug_last out b ≤ b
unfolding slug_last
slug_last-le out zero = omega arith
slug_last-le out (suc b) = ground (arith, slug_last-le out b)

slug_last-ge : (out : Bytes) (b j : ℕ) → j ≤ b → is_at out j b'-' ≡ false → j ≤ slug_last out b
unfolding slug_last
slug_last-ge out zero j l h = omega arith
slug_last-ge out (suc b) j l h = elim (Bool-cases (is_at out (suc b) b'-')) [
  | inl d ↦
      let ne : j ≢ suc b = λ e. cc (ap (λ (k : ℕ). is_at out k b'-') e) in
      rw (d, slug_last) (slug_last-ge out b j (omega (arith, ne)) h)
  | inr d ↦ rw (d, slug_last) l
]

slug_last-stop :
    (out : Bytes) (b : ℕ) → (slug_last out b ≡ 0) ⊎ (is_at out (slug_last out b) b'-' ≡ false)
unfolding slug_last
slug_last-stop out zero = inl refl
slug_last-stop out (suc b) = elim (Bool-cases (is_at out (suc b) b'-')) [
  | inl d ↦ rw (d, slug_last) (slug_last-stop out b)
  | inr d ↦ rw (d, slug_last) (inr d)
]

-- The trimmed result: a single dash, or text with no dash at either end and no two in a row.
abbrev pub IsTrimmed : Bytes → Type 0
IsTrimmed t = (t ≡ b'-' ∷ []) ⊎ (IsSlug true t × (is_at t (length t - 1) b'-' ≡ false))

abbrev slug_end : Bytes → ℕ
slug_end out = slug_last out (length out - 1)

module _ (out : Bytes) (a : ℕ) (inside : a < length out) (no_dash : is_at out a b'-' ≡ false) where
  slug_end_bounds : (a ≤ slug_end out) × (slug_end out < length out)
  slug_end_bounds = (
    slug_last-ge out (length out - 1) a (omega arith) no_dash,
    omega (arith, slug_last-le out (length out - 1)),
  )

  slug_end_no_dash : is_at out (slug_end out) b'-' ≡ false
  slug_end_no_dash = elim (slug_last-stop out (length out - 1)) [
    | inl z ↦
        let e : a ≡ slug_last out (length out - 1) = omega (arith, slug_end_bounds.0) in
        subst (λ k. is_at out k b'-' ≡ false) e no_dash
    | inr n ↦ n
  ]

  slug_end_rest :
      (j : ℕ)
      → slug_end out + 1 - a ≤ j
      → j < length (drop a out)
      → is_at (drop a out) j b'-' ≡ true
  slug_end_rest j l m = elim (Bool-cases (is_at out (a + j) b'-')) [
    | inl d ↦ rw (get_elem?-drop a out j, is_at) d
    | inr n ↦ absurd (
        omega (
          arith,
          length-drop a out,
          slug_last-ge out (length out - 1) (a + j) (omega (arith, length-drop a out)) n,
        ))
  ]

  slug_slice :
      IsSlug true (drop a out)
      → (t : Bytes) × (slice out a (slug_end out + 1) ≡ some t)
        × IsTrimmed t
        × (words t ≡ words (drop a out))
  unfolding slice
  slug_slice h =
      let (lo, hi) = slug_end_bounds in
      let n : ℕ = slug_end out + 1 - a in
      let t : Bytes = take n (drop a out) in
      let len : length t ≡ n = omega (arith, length-take n (drop a out), length-drop a out) in
      let last : get_elem? t (length t - 1) ≡ get_elem? out (slug_end out) =
        ap (get_elem? t) (omega arith)
        ∙ get_elem?-take n (drop a out) (slug_end out - a) (omega arith)
        ∙ get_elem?-drop a out (slug_end out - a)
        ∙ ap (get_elem? out) (omega arith) in
      (
        t,
        ground arith,
        inr (IsSlug-take n true (drop a out) h, rw (last, is_at) (slug_end_no_dash)),
        runs-take n (drop a out) [] slug_end_rest,
      )

alnum-no_dash : (x : ℕ) → is_alnum x ≡ true → (x == b'-') ≡ false
unfolding is_alnum
alnum-no_dash x h = ground arith

slug_first-alnum :
    (x : ℕ) (out : Bytes) (i a : ℕ) → is_alnum x ≡ true → slug_first (x ∷ out) i a ≡ i
unfolding slug_first
slug_first-alnum x out i a h = ground (arith, alnum-no_dash x h)

slug_first-dash :
    (x y : ℕ) (out : Bytes) → x ≡ b'-' → is_alnum y ≡ true → slug_first (x ∷ (y ∷ out)) 0 0 ≡ 1
unfolding slug_first
slug_first-dash x y out d h = ground (arith, alnum-no_dash y h)

slug_single :
    (x : ℕ)
    → x ≡ b'-'
    → (t : Bytes) × (slice (x ∷ []) (slug_first (x ∷ []) 0 0) (slug_end (x ∷ []) + 1) ≡ some t)
      × IsTrimmed t
      × (words t ≡ words (x ∷ []))
unfolding slug_first slug_last slice
slug_single x d = rw d (b'-' ∷ [], refl, inl refl, refl)

slug_trim :
    (out : Bytes)
    → 0 < length out
    → IsSlug false out
    → (t : Bytes) × (slice out (slug_first out 0 0) (slug_last out (length out - 1) + 1) ≡ some t)
      × IsTrimmed t
      × (words t ≡ words out)
slug_trim [] l h = absurd (omega arith)
slug_trim (x ∷ out) l (inl a, h) =
    rw (slug_first-alnum x out 0 0 a) (slug_slice (x ∷ out) 0 l (alnum-no_dash x a) (inl a, h))
slug_trim (x ∷ []) l (inr (d, s), h) = slug_single x d
slug_trim (x ∷ (y ∷ out)) l (inr (d, s), (inr e, h)) = cc (e.1, ap (λ (k : ℕ). k == b'-') d)
slug_trim (x ∷ (y ∷ out)) l (inr (d, s), (inl a, h)) =
    let (t, e, trimmed, kept) =
      slug_slice (x ∷ (y ∷ out)) 1 (omega arith) (alnum-no_dash y a) (inl a, h) in
    (
      t,
      rw (slug_first-dash x y out d a) e,
      trimmed,
      kept ∙ sym (words-dash x (y ∷ out) (ground arith)),
    )

-- A slug is never a panic. Its runs of letters and digits are those of the input, in order; beside
-- them it holds dashes only, no two in a row, and none at an end unless it is a single dash.
pub slugify-IsTrimmed :
    (input : Bytes) → (t : Bytes) × (slugify input ≡ some t) × IsTrimmed t × (words t ≡ words input)
unfolding slugify
slugify-IsTrimmed [] = ([], refl, inr (tt, refl), refl)
slugify-IsTrimmed (c ∷ cs) =
    let (t, e, trimmed, kept) =
      slug_trim (slug_bytes (c ∷ cs) false) (slug_bytes-ne_nil c cs)
        (slug_bytes-IsSlug (c ∷ cs) false) in
    (t, e, trimmed, kept ∙ words-slug_bytes (c ∷ cs))
