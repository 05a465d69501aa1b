-- ===== src/Node/Children.antt =====
-- src/node.rs: the children of a node as a list, and what `unlink` and `append_child` make of it.
use blackfriday_2_rust.Base.{
  ◌<◌, ◌≡◌, refl, sym, ◌≢◌, inl, inr, Bool, false, ◌||◌, Option, none, some, arith, ◌==◌, List, [],
  ◌∷◌, ◌++◌, if◌then◌else◌, length, Bool-cases,
}
use mathlib.Core.Path.{subst}
use blackfriday_2_rust.Node.{NodeId, Arena}
use blackfriday_2_rust.Node.Links.{at, is, IsLinked}
use blackfriday_2_rust.Node.Unlink.{Unlinked}
use blackfriday_2_rust.Node.Kept.{IsDetached}
use blackfriday_2_rust.Node.Append.{Appended}

abbrev pub has : NodeId → List NodeId → Bool
has c [] = false
has c (x ∷ xs) = c == x || has c xs

abbrev pub erase : NodeId → List NodeId → List NodeId
erase c [] = []
erase c (x ∷ xs) = if c == x then erase c xs else x ∷ erase c xs

-- From `cur` the `next` links run through these distinct nodes, which link back and have parent `q`.
abbrev pub Siblings : Arena → NodeId → (prev cur : Option NodeId) → List NodeId → Type 0
Siblings a q prev cur [] = cur ≡ none
Siblings a q prev cur (x ∷ xs) =
    (cur ≡ some x)
    × (x < length a)
    × (has x xs ≡ false)
    × ((at a x).prev ≡ prev)
    × ((at a x).parent ≡ some q)
    × Siblings a q (some x) (at a x).next xs

-- The children of `q`, in order.
abbrev pub Children : Arena → NodeId → List NodeId → Type 0
Children a q xs = Siblings a q none (at a q).first_child xs

erase_absent : (c : NodeId) (xs : List NodeId) → has c xs ≡ false → erase c xs ≡ xs
erase_absent c [] h = refl
erase_absent c (x ∷ xs) h = ground (arith, erase_absent c xs)

has-erase : (c x : NodeId) (xs : List NodeId) → has x xs ≡ false → has x (erase c xs) ≡ false
has-erase c x [] h = refl
has-erase c x (y ∷ xs) h = ground (arith, has-erase c x xs)

module _ {a a' : Arena} (id : NodeId) (ok : IsLinked a) (u : Unlinked a id a') (q : NodeId) where
  open ok use {next_ok, prev_ok, first_ok, last_ok, parent_ok, root_ok, ends_ok}
  open u use {same_length, parent_is, next_is, prev_is, first_is, last_is}

  Siblings-behind :
      (prev cur : Option NodeId) (xs : List NodeId)
      → has id xs ≡ false
      → Siblings a q prev cur xs
      → Siblings a' q (if is prev id then (at a id).prev else prev) cur xs
  Siblings-behind prev cur [] h s = s
  Siblings-behind prev cur (x ∷ []) h s = ground (
    arith,
    same_length,
    prev_is x,
    parent_is x,
    next_is x,
    next_ok id x,
    prev_ok id x,
    prev_ok x id,
  )
  Siblings-behind prev cur (x ∷ (y ∷ xs)) h s =
      let rest = Siblings-behind (some x) (at a x).next (y ∷ xs) (ground arith) s.5 in
      ground (
        arith,
        same_length,
        prev_is x,
        parent_is x,
        next_is x,
        next_ok id x,
        prev_ok id x,
        prev_ok x id,
        rest,
      )

  Siblings-erase :
      (prev cur : Option NodeId) (xs : List NodeId)
      → is prev id ≡ false
      → Siblings a q prev cur xs
      → Siblings a' q prev (if is cur id then (at a id).next else cur) (erase id xs)
  Siblings-erase prev cur [] h s = rw s refl
  Siblings-erase prev cur (x ∷ xs) h s = elim (Bool-cases (id == x)) [
    | inl e ↦
        let same : id ≡ x = ground arith in
        let s' : Siblings a q (some id) (at a id).next xs =
          subst (λ k. Siblings a q (some k) (at a k).next xs) (sym same) s.5 in
        let absent : has id xs ≡ false = ground arith in
        let behind = Siblings-behind (some id) (at a id).next xs absent s' in
        let cur_is : (if is cur id then (at a id).next else cur) ≡ (at a id).next = ground arith in
        let prev_eq : (if is (some id) id then (at a id).prev else some id) ≡ prev = ground arith in
        rw (e, erase)
          (rw (erase_absent id xs absent) (
            subst (λ c. Siblings a' q prev c xs) (sym cur_is)
              (subst (λ p. Siblings a' q p (at a id).next xs) prev_eq behind)))
    | inr e ↦
        let rest = Siblings-erase (some x) (at a x).next xs (ground arith) s.5 in
        let next_eq : (if is (at a x).next id then (at a id).next else (at a x).next)
            ≡ (at a' x).next =
          ground (arith, next_is x, next_ok x id, prev_ok id x) in
        rw (e, erase)
          (
            ground arith,
            omega (arith, s.1, same_length),
            has-erase id x xs s.2,
            ground (arith, prev_is x, next_ok id x),
            ground (arith, parent_is x),
            subst (λ c. Siblings a' q (some x) c (erase id xs)) next_eq rest,
          )
  ]

  pub Children-erase : (xs : List NodeId) → Children a q xs → Children a' q (erase id xs)
  Children-erase xs s =
      let first_eq : (if is (at a q).first_child id then (at a id).next else (at a q).first_child)
          ≡ (at a' q).first_child =
        ground (arith, first_is q, first_ok q id, parent_ok id q) in
      subst (λ c. Siblings a' q none c (erase id xs)) first_eq
        (Siblings-erase none (at a q).first_child xs refl s)

module _ {a a' : Arena} (parent child : NodeId) (ok : IsLinked a) (free : IsDetached a child)
    (apart : child ≢ parent) (c_in : child < length a) (u : Appended a parent child a')
    (q : NodeId) where
  open ok use {next_ok, prev_ok, first_ok, last_ok, parent_ok, root_ok, ends_ok}
  open u use {same_length, parent_is, next_is, prev_is, first_is, last_is}

  Siblings-elsewhere :
      (prev cur : Option NodeId) (xs : List NodeId)
      → q ≢ parent
      → Siblings a q prev cur xs
      → Siblings a' q prev cur xs
  Siblings-elsewhere prev cur [] ne s = s
  Siblings-elsewhere prev cur (x ∷ xs) ne s =
      let next_eq : (at a x).next ≡ (at a' x).next = ground (arith, next_is x, last_ok parent x) in
      (
        s.0,
        omega (arith, s.1, same_length),
        s.2,
        ground (arith, prev_is x, free.0),
        ground (arith, parent_is x, free.0),
        subst (λ c. Siblings a' q (some x) c xs) next_eq
            (Siblings-elsewhere (some x) (at a x).next xs ne s.5),
      )

  pub Children-elsewhere : (xs : List NodeId) → q ≢ parent → Children a q xs → Children a' q xs
  Children-elsewhere xs ne s =
      let first_eq : (at a q).first_child ≡ (at a' q).first_child = ground (arith, first_is q) in
      subst (λ c. Siblings a' q none c xs) first_eq
        (Siblings-elsewhere none (at a q).first_child xs ne s)

-- The last node of a run of siblings, or what stands before the run.
abbrev pub last_of : Option NodeId → List NodeId → Option NodeId
last_of prev [] = prev
last_of prev (x ∷ xs) = last_of (some x) xs

abbrev begin_with : NodeId → Option NodeId → List NodeId → Option NodeId
begin_with child cur [] = some child
begin_with child cur (x ∷ xs) = cur

has-append :
    (x c : NodeId) (xs : List NodeId) → has x xs ≡ false → x ≢ c → has x (xs ++ c ∷ []) ≡ false
has-append x c [] h ne = ground arith
has-append x c (y ∷ xs) h ne = ground (arith, has-append x c xs)

-- The last of the children is the one that the parent records.
Siblings-last :
    {a : Arena} {q : NodeId} (prev cur : Option NodeId) (x : NodeId) (xs : List NodeId)
    → IsLinked a
    → Siblings a q prev cur (x ∷ xs)
    → (at a q).last_child ≡ last_of prev (x ∷ xs)
Siblings-last {q} prev cur x [] ok s = (ok.parent_ok x q s.4).2 s.5
Siblings-last {a} prev cur x (y ∷ xs) ok s = Siblings-last (some x) (at a x).next y xs ok s.5

pub Children-last :
    {a : Arena} (q : NodeId) (xs : List NodeId)
    → IsLinked a
    → Children a q xs
    → (at a q).last_child ≡ last_of none xs
Children-last q [] ok s = (ok.ends_ok q).0 s
Children-last {a} q (x ∷ xs) ok s = Siblings-last none (at a q).first_child x xs ok s

module _ {a a' : Arena} (parent child : NodeId) (ok : IsLinked a) (free : IsDetached a child)
    (c_in : child < length a) (u : Appended a parent child a') where
  open ok use {next_ok, prev_ok, first_ok, last_ok, parent_ok, root_ok, ends_ok}
  open u use {same_length, parent_is, next_is, prev_is, first_is, last_is}

  Siblings-append :
      (prev cur : Option NodeId) (xs : List NodeId)
      → (at a parent).last_child ≡ last_of prev xs
      → Siblings a parent prev cur xs
      → Siblings a' parent prev (begin_with child cur xs) (xs ++ child ∷ [])
  Siblings-append prev cur [] l s = (
    refl,
    omega (arith, same_length),
    refl,
    ground (arith, prev_is child, free.1),
    ground (arith, parent_is child),
    ground (arith, next_is child, free.0, free.2, last_ok parent child),
  )
  Siblings-append prev cur (x ∷ xs) l s =
      let ne : x ≢ child = ground (arith, free.0) in
      (
        s.0,
        omega (arith, s.1, same_length),
        has-append x child xs s.2 ne,
        ground (arith, prev_is x),
        ground (arith, parent_is x),
        subst (λ c. Siblings a' parent (some x) c (xs ++ child ∷ [])) (next_eq xs l s.5)
            (Siblings-append (some x) (at a x).next xs l s.5),
      )
    where
      next_eq :
          (xs : List NodeId)
          → (at a parent).last_child ≡ last_of (some x) xs
          → Siblings a parent (some x) (at a x).next xs
          → begin_with child (at a x).next xs ≡ (at a' x).next
      next_eq [] l s = ground (arith, next_is x)
      next_eq (y ∷ ys) l s = ground (arith, next_is x, last_ok parent x)

  pub Children-append :
      (xs : List NodeId) → Children a parent xs → Children a' parent (xs ++ child ∷ [])
  Children-append xs s =
      subst (λ c. Siblings a' parent none c (xs ++ child ∷ []))
        (first_eq xs s (Children-last parent xs ok s))
        (Siblings-append none (at a parent).first_child xs (Children-last parent xs ok s) s)
    where
      first_eq :
          (xs : List NodeId)
          → Children a parent xs
          → (at a parent).last_child ≡ last_of none xs
          → begin_with child (at a parent).first_child xs ≡ (at a' parent).first_child
      first_eq [] s l = ground (arith, first_is parent)
      first_eq (y ∷ ys) s l = ground (arith, first_is parent, (ends_ok parent).1)
