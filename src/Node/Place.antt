-- ===== src/Node/Place.antt =====
-- src/node.rs, `Arena::insert_before`: the children of every node after it, as lists.
use mathlib.Core.Path.{subst}
use blackfriday_2_rust.Base.{
  ◌<◌, ◌≡◌, refl, ◌≢◌, inl, inr, false, Option, none, some, arith, ◌==◌, List, [], ◌∷◌,
  if◌then◌else◌, length, Bool-cases, ◌>>=◌,
}
use blackfriday_2_rust.Node.{NodeId, Arena, insert_before}
use blackfriday_2_rust.Node.Links.{at, is, IsLinked}
use blackfriday_2_rust.Node.Unlink.{Within-parent, Within-prev}
use blackfriday_2_rust.Node.Kept.{IsDetached, unlink-IsLinked}
use blackfriday_2_rust.Node.Insert.{Inserted, insert, insert-Inserted}
use blackfriday_2_rust.Node.Children.{has, erase, Siblings, Children, Children-erase}

-- The list with the sibling put before the node, where the list has it.
abbrev pub place : (node sibling : NodeId) → List NodeId → List NodeId
place node sibling [] = []
place node sibling (x ∷ xs) = if node == x then sibling ∷ x ∷ xs else x ∷ place node sibling xs

has-place :
    (node sibling x : NodeId) (xs : List NodeId)
    → has x xs ≡ false
    → x ≢ sibling
    → has x (place node sibling xs) ≡ false
has-place node sibling x [] h ne = refl
has-place node sibling x (y ∷ xs) h ne = ground (arith, has-place node sibling x xs)

-- A run of siblings starts with no node that it does not hold.
starts_elsewhere :
    (a : Arena) (q n : NodeId) (prev cur : Option NodeId) (xs : List NodeId)
    → Siblings a q prev cur xs
    → has n xs ≡ false
    → is cur n ≡ false
starts_elsewhere a q n prev cur [] s h = rw s refl
starts_elsewhere a q n prev cur (x ∷ xs) s h = ground arith

module _ {a a' : Arena} {node sibling : NodeId} (ok : IsLinked a) (free : IsDetached a sibling)
    (apart : sibling ≢ node) (n_in : node < length a) (s_in : sibling < length a)
    (u : Inserted a node sibling a') (q : NodeId) where
  open ok use {next_ok, prev_ok, first_ok, last_ok, parent_ok, root_ok, ends_ok}
  open u use {same_length, parent_is, next_is, prev_is, first_is, last_is}

  -- A node without a parent is no sibling.
  has-free :
      (prev cur : Option NodeId) (xs : List NodeId)
      → Siblings a q prev cur xs
      → has sibling xs ≡ false
  has-free prev cur [] s = refl
  has-free prev cur (x ∷ xs) s = ground (arith, free.0, has-free (some x) (at a x).next xs s.5)

  Siblings-without :
      (prev cur : Option NodeId) (xs : List NodeId)
      → has node xs ≡ false
      → Siblings a q prev cur xs
      → Siblings a' q prev cur xs
  Siblings-without prev cur [] h s = s
  Siblings-without prev cur (x ∷ xs) h s =
      let off = starts_elsewhere a q node (some x) (at a x).next xs s.5 (ground arith) in
      let next_eq : (at a x).next ≡ (at a' x).next =
        ground (arith, next_is x, prev_ok node x, free.0, off) in
      (
        s.0,
        omega (arith, s.1, same_length),
        s.2,
        ground (arith, prev_is x, free.0),
        ground (arith, parent_is x, free.0),
        subst (λ c. Siblings a' q (some x) c xs) next_eq
            (Siblings-without (some x) (at a x).next xs (ground arith) s.5),
      )

  Siblings-place :
      (prev cur : Option NodeId) (xs : List NodeId)
      → Siblings a q prev cur xs
      → Siblings a' q prev (if is cur node then some sibling else cur) (place node sibling xs)
  Siblings-place prev cur [] s = rw s refl
  Siblings-place prev cur (x ∷ xs) s = elim (Bool-cases (node == x)) [
    | inl e ↦
        let same : node ≡ x = ground arith in
        let off = starts_elsewhere a q x (some x) (at a x).next xs s.5 s.2 in
        let next_eq : (at a x).next ≡ (at a' x).next =
          ground (arith, next_is x, prev_ok node x, free.0, off) in
        let unknown = has-free prev cur (x ∷ xs) s in
        rw (e, place)
          (
            ground arith,
            omega (arith, same_length),
            unknown,
            ground (arith, prev_is sibling),
            ground (arith, parent_is sibling),
            (
              ground (arith, next_is sibling),
              omega (arith, s.1, same_length),
              s.2,
              ground (arith, prev_is x),
              ground (arith, parent_is x),
              subst (λ c. Siblings a' q (some x) c xs) next_eq
                  (Siblings-without (some x) (at a x).next xs (ground arith) s.5),
            ),
          )
    | inr e ↦
        let next_eq : (if is (at a x).next node then some sibling else (at a x).next)
            ≡ (at a' x).next =
          ground (arith, next_is x, next_ok x node, prev_ok node x, free.0) in
        rw (e, place)
          (
            ground arith,
            omega (arith, s.1, same_length),
            has-place node sibling x xs s.2 (ground (arith, free.0)),
            ground (arith, prev_is x, free.0),
            ground (arith, parent_is x, free.0),
            subst (λ c. Siblings a' q (some x) c (place node sibling xs)) next_eq
                (Siblings-place (some x) (at a x).next xs s.5),
          )
  ]

  pub Children-place : (xs : List NodeId) → Children a q xs → Children a' q (place node sibling xs)
  Children-place xs s =
      let first_eq : (if is (at a q).first_child node then some sibling else (at a q).first_child)
          ≡ (at a' q).first_child =
        ground (arith, first_is q, first_ok q node, parent_ok node q) in
      subst (λ c. Siblings a' q none c (place node sibling xs)) first_eq
        (Siblings-place none (at a q).first_child xs s)

-- Where all links agree, inserting a node before another takes it out of the list of children that
-- held it, puts it just before the other node in the list that holds that one, and changes nothing
-- else in any node's list of children.
pub insert_before-Children :
    (a : Arena) (node sibling : NodeId)
    → IsLinked a
    → sibling ≢ node
    → node < length a
    → sibling < length a
    → (a' : Arena) × (insert_before node sibling a ≡ some a')
      × ((r : NodeId) (xs : List NodeId)
          → Children a r xs
          → Children a' r (place node sibling (erase sibling xs)))
unfolding insert_before insert
insert_before-Children a node sibling ok apart n_in s_in =
    let (a₁, e₁, ok₁, free, u₁) = unlink-IsLinked a sibling ok s_in in
    let n_in₁ : node < length a₁ = omega (arith, u₁.same_length) in
    let s_in₁ : sibling < length a₁ = omega (arith, u₁.same_length) in
    let (a₂, e₂, u₂) =
      insert-Inserted a₁ node sibling n_in₁ s_in₁ (Within-prev ok₁ node) (Within-parent ok₁ node) in
    (
      a₂,
      rw (e₁, ◌>>=◌) e₂,
      λ r xs s.
          Children-place ok₁ free apart n_in₁ s_in₁ u₂ r (erase sibling xs)
            (Children-erase sibling ok u₁ r xs s),
    )
