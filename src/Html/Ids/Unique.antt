-- ===== src/Html/Ids/Unique.antt =====
-- src/html.rs, `ensure_unique_heading_id`: it ends, and no two ids of a document are the same.
use blackfriday_2_rust.Base.{
  ℕ, zero, suc, ◌+◌, ◌≤◌, ◌≡◌, ◌≢◌, inl, inr, refl, sym, ap, ◌∙◌, true, false, Bool-cases, Option,
  Option-cases, none, some, List, [], ◌∷◌, ◌++◌, arith, length-append, if◌then◌else◌, Bytes, codes,
  length, equal, equal→eq, decimal, ◌>>=◌,
}
use blackfriday_2_rust.Html.Ids.{
  HeadingIds, count_of, put_count, or_insert_zero, candidate, unique_loop, longest_key,
  ensure_unique_heading_id,
}

equal_refl : (xs : Bytes) → equal xs xs ≡ true
unfolding equal
equal_refl [] = refl
equal_refl (x ∷ xs) = ground (arith, equal_refl xs)

equal-ne : (xs ys : Bytes) → xs ≢ ys → equal xs ys ≡ false
equal-ne xs ys ne = elim (Bool-cases (equal xs ys)) [
  | inl e ↦ absurd (ne (equal→eq xs ys e))
  | inr e ↦ e
]

not_equal : (xs ys : Bytes) → equal xs ys ≡ false → xs ≢ ys
not_equal xs ys e p = cc (sym (equal_refl xs) ∙ ap (equal xs) p ∙ e)

count_of-put_count :
    (id j : Bytes) (n : ℕ) (m : HeadingIds)
    → count_of (put_count id n m) j ≡ (if equal id j then some n else count_of m j)
unfolding count_of put_count
count_of-put_count id j n [] = refl
count_of-put_count id j n ((k, v) ∷ m) = elim (Bool-cases (equal k id)) [
  | inl e ↦ let same : k ≡ id = equal→eq k id e in rw e (rw same (ground arith))
  | inr e ↦ elim (Bool-cases (equal k j)) [
    | inr f ↦ rw (e, f) (count_of-put_count id j n m)
    | inl f ↦
        let off = equal-ne id j (λ p. not_equal k id e (equal→eq k j f ∙ sym p)) in
        rw (e, f, off) refl
  ]
]

length-longest_key :
    (m : HeadingIds) (id : Bytes) → count_of m id ≢ none → length id ≤ longest_key m
unfolding count_of longest_key
length-longest_key [] id h = absurd (h refl)
length-longest_key ((k, n) ∷ m) id h = elim (Bool-cases (equal k id)) [
  | inl e ↦ omega (arith, ap (length {A = ℕ}) (equal→eq k id e))
  | inr e ↦ omega (arith, length-longest_key m id (rw e at h))
]

candidate-ne : (id : Bytes) (n : ℕ) → candidate id n ≢ id
candidate-ne id n e =
    omega (arith, ap (length {A = ℕ}) e, length-append id (b'-' ∷ decimal (n + 1)))

-- What the loop has found: an id that is in neither map, where the second has the keys of the first.
abbrev Found : HeadingIds → HeadingIds → Bytes → Type 0
Found m m' id' =
    (count_of m id' ≡ none)
    × (count_of m' id' ≡ none)
    × ((k : Bytes) → count_of m k ≢ none → count_of m' k ≢ none)

put_keeps :
    (id k : Bytes) (n : ℕ) (m : HeadingIds)
    → count_of m k ≢ none
    → count_of (put_count id n m) k ≢ none
put_keeps id k n m h e = elim (Bool-cases (equal id k)) [
  | inl f ↦ cc (sym e ∙ count_of-put_count id k n m, f)
  | inr f ↦
      let same : count_of (put_count id n m) k ≡ count_of m k =
        count_of-put_count id k n m ∙ rw f refl in
      h (sym same ∙ e)
]

loop_new :
    (fuel : ℕ) (m : HeadingIds) (id : Bytes)
    → count_of m id ≡ none
    → unique_loop (suc fuel) m id ≡ some (m, id)
unfolding unique_loop
loop_new fuel m id e = rw (e, unique_loop) refl

loop_candidate :
    (fuel : ℕ) (m : HeadingIds) (id : Bytes) (count : ℕ)
    → count_of m id ≡ some count
    → count_of m (candidate id count) ≡ none
    → unique_loop (suc fuel) m id
      ≡ unique_loop fuel (put_count id (count + 1) m) (candidate id count)
unfolding unique_loop
loop_candidate fuel m id count e f = rw (e, unique_loop) (rw f refl)

loop_longer :
    (fuel : ℕ) (m : HeadingIds) (id : Bytes) (count other : ℕ)
    → count_of m id ≡ some count
    → count_of m (candidate id count) ≡ some other
    → unique_loop (suc fuel) m id ≡ unique_loop fuel m (id ++ codes "-1")
unfolding unique_loop
loop_longer fuel m id count other e f = rw (e, unique_loop) (rw f refl)

unique_loop-Found :
    (fuel : ℕ) (m : HeadingIds) (id : Bytes)
    → 2 ≤ fuel
    → longest_key m + 3 ≤ fuel + length id
    → (m' : HeadingIds) × (id' : Bytes) × (unique_loop fuel m id ≡ some (m', id')) × Found m m' id'
unique_loop-Found zero m id two h = absurd (omega arith)
unique_loop-Found (suc zero) m id two h = absurd (omega arith)
unique_loop-Found (suc (suc fuel)) m id two h = elim (Option-cases (count_of m id)) [
  | inl e ↦ (m, id, loop_new (suc fuel) m id e, (e, e, λ k p. p))
  | inr (count, e) ↦
      let short = length-longest_key m id (λ n. cc (sym n ∙ e)) in
      elim (Option-cases (count_of m (candidate id count))) [
        | inl f ↦
            let m' = put_count id (count + 1) m in
            let c = candidate id count in
            let fresh : count_of m' c ≡ none =
              count_of-put_count id c (count + 1) m
              ∙ rw (equal-ne id c (λ p. candidate-ne id count (sym p))) f in
            (
              m',
              c,
              loop_candidate (suc fuel) m id count e f ∙ loop_new fuel m' c fresh,
              (f, fresh, λ k p. put_keeps id k (count + 1) m p),
            )
        | inr (other, f) ↦
            let (m', id', found, rest) =
              unique_loop-Found (suc fuel) m (id ++ codes "-1") (omega arith)
                (omega (arith, length-append id (codes "-1"))) in
            (m', id', loop_longer (suc fuel) m id count other e f ∙ found, rest)
      ]
]

-- The loop ends, with an id that the map did not have, has from then on, and loses no other.
pub ensure_unique-new :
    (m : HeadingIds) (id : Bytes)
    → (m' : HeadingIds) × (id' : Bytes) × (ensure_unique_heading_id m id ≡ some (m', id'))
      × (count_of m id' ≡ none)
      × (count_of m' id' ≡ some 0)
      × ((k : Bytes) → count_of m k ≢ none → count_of m' k ≢ none)
unfolding ensure_unique_heading_id or_insert_zero
ensure_unique-new m id =
    let (m₁, id', e, (new, new₁, keeps)) =
      unique_loop-Found (longest_key m + 3) m id (omega arith) (omega arith) in
    let last : or_insert_zero id' m₁ ≡ put_count id' 0 m₁ = rw (new₁, or_insert_zero) refl in
    (
      put_count id' 0 m₁,
      id',
      rw (e, ◌>>=◌) (ap (λ (x : HeadingIds). some (x, id')) last),
      new,
      count_of-put_count id' id' 0 m₁ ∙ rw (equal_refl id') refl,
      λ k p. put_keeps id' k 0 m₁ (keeps k p),
    )

-- The ids of a document's headings, in order.
unfoldable pub ensure_all : HeadingIds → List Bytes → Option (List Bytes)
unfolding ensure_unique_heading_id
ensure_all m [] = some []
ensure_all m (id ∷ ids) =
    ensure_unique_heading_id m id >>= λ (m', id'). (ensure_all m' ids >>= λ rest. some (id' ∷ rest))

abbrev AllNew : HeadingIds → List Bytes → Type 0
AllNew m [] = Unit
AllNew m (x ∷ xs) = (count_of m x ≡ none) × AllNew m xs

abbrev NoneIs : Bytes → List Bytes → Type 0
NoneIs y [] = Unit
NoneIs y (x ∷ xs) = (y ≢ x) × NoneIs y xs

abbrev pub Distinct : List Bytes → Type 0
Distinct [] = Unit
Distinct (x ∷ xs) = NoneIs x xs × Distinct xs

AllNew-NoneIs :
    (m : HeadingIds) (y : Bytes) (xs : List Bytes) → count_of m y ≢ none → AllNew m xs → NoneIs y xs
AllNew-NoneIs m y [] h new = tt
AllNew-NoneIs m y (x ∷ xs) h new =
    (λ e. h (ap (count_of m) e ∙ new.0), AllNew-NoneIs m y xs h new.1)

AllNew-keeps :
    (m m' : HeadingIds) (xs : List Bytes)
    → ((k : Bytes) → count_of m k ≢ none → count_of m' k ≢ none)
    → AllNew m' xs
    → AllNew m xs
AllNew-keeps m m' [] keeps new = tt
AllNew-keeps m m' (x ∷ xs) keeps new = elim (Option-cases (count_of m x)) [
  | inl e ↦ (e, AllNew-keeps m m' xs keeps new.1)
  | inr (n, e) ↦ absurd (keeps x (λ z. cc (sym z ∙ e)) new.0)
]

ensure_all-AllNew :
    (m : HeadingIds) (ids : List Bytes)
    → (outs : List Bytes) × (ensure_all m ids ≡ some outs)
      × (length outs ≡ length ids)
      × AllNew m outs
      × Distinct outs
unfolding ensure_all
ensure_all-AllNew m [] = ([], refl, refl, tt, tt)
ensure_all-AllNew m (id ∷ ids) =
    let (m', id', e, new, held, keeps) = ensure_unique-new m id in
    let (outs, f, size, all_new, distinct) = ensure_all-AllNew m' ids in
    (
      id' ∷ outs,
      rw (e, ◌>>=◌) (rw (f, ◌>>=◌) refl),
      ap suc size,
      (new, AllNew-keeps m m' outs keeps all_new),
      (AllNew-NoneIs m' id' outs (λ z. cc (sym z ∙ held)) all_new, distinct),
    )

-- Every heading that asks for an id gets one, and no two of a document are the same, whatever ids are
-- asked for and whatever the map holds at the start.
pub ensure_all-Distinct :
    (m : HeadingIds) (ids : List Bytes)
    → (outs : List Bytes) × (ensure_all m ids ≡ some outs)
      × (length outs ≡ length ids)
      × Distinct outs
ensure_all-Distinct m ids =
    let (outs, e, size, new, distinct) = ensure_all-AllNew m ids in (outs, e, size, distinct)
