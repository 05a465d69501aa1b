-- ===== src/Node/Order.antt =====
-- src/node.rs: `unlink`, `append_child` and `children` against lists of children.
use mathlib.Core.Path.{subst}
use blackfriday_2_rust.Base.{
  ℕ, zero, suc, ◌<◌, ◌≡◌, refl, sym, ◌≢◌, inl, inr, Option, none, some, arith, ◌==◌, List, [], ◌∷◌,
  ◌++◌, if◌then◌else◌, length, Bool-cases, ◌>>=◌,
}
use blackfriday_2_rust.Node.{NodeId, Arena, unlink, append_child, siblings, children}
use blackfriday_2_rust.Node.Links.{at, get-at, IsLinked}
use blackfriday_2_rust.Node.Unlink.{Within-last, unlink-Unlinked}
use blackfriday_2_rust.Node.Kept.{unlink-IsLinked}
use blackfriday_2_rust.Node.Append.{attach, attach-Appended}
use blackfriday_2_rust.Node.Children.{
  erase, Siblings, Children, Children-erase, Children-elsewhere, Children-append,
}

-- Where all links agree, unlinking a node of the arena takes it out of the list of children that holds it, and leaves the order of the
-- others, and every other node's children, as they are.
pub unlink-Children :
    (a : Arena) (id : NodeId)
    → IsLinked a
    → id < length a
    → (a' : Arena) × (unlink id a ≡ some a')
      × ((q : NodeId) (xs : List NodeId) → Children a q xs → Children a' q (erase id xs))
unlink-Children a id ok inside =
    let (a', e, u) = unlink-Unlinked ok id inside in
    (a', e, λ q xs s. Children-erase id ok u q xs s)

-- What `append_child` makes of the children of `q`.
abbrev pub moved : (parent child q : NodeId) → List NodeId → List NodeId
moved parent child q xs = if parent == q then erase child xs ++ child ∷ [] else erase child xs

-- Where all links agree, appending a node of the arena to another takes it out of the list that held
-- it, puts it behind the children of the parent, and changes nothing else in any node's list of children.
pub append_child-Children :
    (a : Arena) (parent child : NodeId)
    → IsLinked a
    → child ≢ parent
    → parent < length a
    → child < length a
    → (a' : Arena) × (append_child parent child a ≡ some a')
      × ((q : NodeId) (xs : List NodeId)
          → Children a q xs
          → Children a' q (moved parent child q xs))
unfolding append_child attach
append_child-Children a parent child ok apart p_in c_in =
    let (a₁, e₁, ok₁, free, u₁) = unlink-IsLinked a child ok c_in in
    let p_in₁ : parent < length a₁ = omega (arith, u₁.same_length) in
    let c_in₁ : child < length a₁ = omega (arith, u₁.same_length) in
    let (a₂, e₂, u₂) = attach-Appended a₁ parent child p_in₁ c_in₁ (Within-last ok₁ parent) in
    (
      a₂,
      rw (e₁, ◌>>=◌) e₂,
      λ q xs s. elim (Bool-cases (parent == q)) [
        | inl same ↦
            let e : parent ≡ q = ground arith in
            rw (same, moved)
              (subst (λ k. Children a₂ k (erase child xs ++ child ∷ [])) e
                (Children-append parent child ok₁ free c_in₁ u₂ (erase child xs) (
                  subst (λ k. Children a₁ k (erase child xs)) (sym e)
                    (Children-erase child ok u₁ q xs s))))
        | inr other ↦
            let ne : q ≢ parent = ground arith in
            rw (other, moved)
              (Children-elsewhere parent child ok₁ free apart c_in₁ u₂ q (erase child xs) ne
                (Children-erase child ok u₁ q xs s))
      ],
    )

siblings-Siblings :
    (a : Arena) (q : NodeId) (fuel : ℕ) (prev cur : Option NodeId) (xs : List NodeId)
    → length xs < fuel
    → Siblings a q prev cur xs
    → siblings fuel cur a ≡ some xs
unfolding siblings
siblings-Siblings a q zero prev cur xs h s = absurd (omega arith)
siblings-Siblings a q (suc fuel) prev cur [] h s = rw s
siblings-Siblings a q (suc fuel) prev cur (x ∷ xs) h s = rw (s.0) (
    rw (get-at a x s.1)
      (rw (siblings-Siblings a q fuel (some x) (at a x).next xs (omega arith) s.5) refl))

-- The iterator yields exactly the children, in order, and ends.
pub children-Children :
    (a : Arena) (q : NodeId) (xs : List NodeId) (fuel : ℕ)
    → q < length a
    → length xs < fuel
    → Children a q xs
    → children fuel q a ≡ some xs
unfolding children
children-Children a q xs fuel inside h s =
    rw (get-at a q inside) (siblings-Siblings a q fuel none (at a q).first_child xs h s)
