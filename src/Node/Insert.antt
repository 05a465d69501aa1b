-- ===== src/Node/Insert.antt =====
-- src/node.rs, `Arena::insert_before`: every link after it.
use blackfriday_2_rust.Base.{
  ◌<◌, ◌≡◌, refl, ◌∙◌, Option, none, some, arith, ◌==◌, if◌then◌else◌, length, get_elem?, ◌>>=◌,
}
use blackfriday_2_rust.Node.{
  NodeId, Node, Arena, set_parent, set_first_child, set_prev, set_next, modify, modify_some,
  insert_first,
}
use blackfriday_2_rust.Node.Links.{
  at, is, Within, put, length-put, at-put, get-at, modify-put, modify_some-put,
}
use blackfriday_2_rust.Node.Unlink.{Within-length}

-- The part of `insert_before` behind its call of `unlink`.
unfoldable pub insert : (node sibling : NodeId) → Arena → Option Arena
unfolding modify
insert node sibling arena = do
  n ← get_elem? arena node
  arena ← modify sibling (set_prev n.prev) arena
  arena ← modify_some n.prev (set_next (some sibling)) arena
  arena ← modify sibling (set_next (some node)) arena
  arena ← modify node (set_prev (some sibling)) arena
  m ← get_elem? arena node
  arena ← modify sibling (set_parent m.parent) arena
  insert_first sibling n.prev m.parent arena

-- The links after a detached sibling is inserted, where `a` is the arena before.
pub record Inserted (a : Arena) (node sibling : NodeId) (a' : Arena) : Type 0 where
  pub same_length : length a' ≡ length a
  pub parent_is :
      (j : NodeId)
      → (at a' j).parent ≡ (if sibling == j then (at a node).parent else (at a j).parent)
  pub next_is :
      (j : NodeId)
      → (at a' j).next ≡ (
          if sibling == j
          then some node
          else if is (at a node).prev j
          then some sibling
          else (at a j).next)
  pub prev_is :
      (j : NodeId)
      → (at a' j).prev ≡ (
          if node == j
          then some sibling
          else if sibling == j
          then (at a node).prev
          else (at a j).prev)
  pub first_is :
      (j : NodeId)
      → (at a' j).first_child ≡ (elim (at a node).prev [
        | none ↦ if is (at a node).parent j then some sibling else (at a j).first_child
        | some l ↦ (at a j).first_child
      ])
  pub last_is : (j : NodeId) → (at a' j).last_child ≡ (at a j).last_child

module _ (a : Arena) (node sibling : NodeId) (n_in : node < length a)
    (s_in : sibling < length a) where
  -- The four assignments before the parent is read, and then the rest.
  abbrev near : Option NodeId → Arena
  near p = put (some node) (set_prev (some sibling)) (
      put (some sibling) (set_next (some node))
        (put p (set_next (some sibling)) (put (some sibling) (set_prev p) a)))

  abbrev far : (p P : Option NodeId) → Arena
  far none P =
      put P (set_first_child (some sibling)) (put (some sibling) (set_parent P) (near none))
  far (some l) P = put (some sibling) (set_parent P) (near (some l))

  length-near : (p : Option NodeId) → length (near p) ≡ length a
  length-near p =
      let b₁ = put (some sibling) (set_prev p) a in
      let b₂ = put p (set_next (some sibling)) b₁ in
      let b₃ = put (some sibling) (set_next (some node)) b₂ in
      length-put (some node) (set_prev (some sibling)) b₃
      ∙ length-put (some sibling) (set_next (some node)) b₂
      ∙ length-put p (set_next (some sibling)) b₁
      ∙ length-put (some sibling) (set_prev p) a

  record NearAt (p : Option NodeId) (j : NodeId) (m : Node) : Type 0 where
    parent_is : m.parent ≡ (at a j).parent
    next_is :
        m.next
        ≡ (if sibling == j then some node else if is p j then some sibling else (at a j).next)
    prev_is :
        m.prev ≡ (if node == j then some sibling else if sibling == j then p else (at a j).prev)
    first_is : m.first_child ≡ (at a j).first_child
    last_is : m.last_child ≡ (at a j).last_child

  near-NearAt : (p : Option NodeId) (j : NodeId) → Within p a → NearAt p j (at (near p) j)
  near-NearAt p j w =
      let b₁ = put (some sibling) (set_prev p) a in
      let e₁ : length b₁ ≡ length a = length-put (some sibling) (set_prev p) a in
      let b₂ = put p (set_next (some sibling)) b₁ in
      let e₂ : length b₂ ≡ length a = length-put p (set_next (some sibling)) b₁ ∙ e₁ in
      let b₃ = put (some sibling) (set_next (some node)) b₂ in
      let e₃ : length b₃ ≡ length a = length-put (some sibling) (set_next (some node)) b₂ ∙ e₂ in
      let at₁ = at-put (some sibling) (set_prev p) a j s_in in
      let at₂ = at-put p (set_next (some sibling)) b₁ j (Within-length p a b₁ e₁ w) in
      let at₃ = at-put (some sibling) (set_next (some node)) b₂ j (omega arith) in
      let at₄ = at-put (some node) (set_prev (some sibling)) b₃ j (omega arith) in
      ground (arith, at₁, at₂, at₃, at₄)

  length-far : (p P : Option NodeId) → length (far p P) ≡ length a
  length-far none P =
      length-put P (set_first_child (some sibling)) (put (some sibling) (set_parent P) (near none))
      ∙ length-put (some sibling) (set_parent P) (near none)
      ∙ length-near none
  length-far (some l) P =
      length-put (some sibling) (set_parent P) (near (some l)) ∙ length-near (some l)

  record FarAt (p P : Option NodeId) (j : NodeId) (m : Node) : Type 0 where
    parent_is : m.parent ≡ (if sibling == j then P else (at a j).parent)
    next_is :
        m.next
        ≡ (if sibling == j then some node else if is p j then some sibling else (at a j).next)
    prev_is :
        m.prev ≡ (if node == j then some sibling else if sibling == j then p else (at a j).prev)
    first_is : m.first_child ≡ (elim p [
      | none ↦ if is P j then some sibling else (at a j).first_child
      | some l ↦ (at a j).first_child
    ])
    last_is : m.last_child ≡ (at a j).last_child

  far-FarAt :
      (p P : Option NodeId) (j : NodeId) → Within p a → Within P a → FarAt p P j (at (far p P) j)
  far-FarAt none P j w v =
      let b = put (some sibling) (set_parent P) (near none) in
      let e : length b ≡ length a =
        length-put (some sibling) (set_parent P) (near none) ∙ length-near none in
      let n = near-NearAt none j w in
      let at₁ =
        at-put (some sibling) (set_parent P) (near none) j (omega (arith, length-near none)) in
      let at₂ = at-put P (set_first_child (some sibling)) b j (Within-length P a b e v) in
      ground (arith, n.parent_is, n.next_is, n.prev_is, n.first_is, n.last_is, at₁, at₂)
  far-FarAt (some l) P j w v =
      let n = near-NearAt (some l) j w in
      let at₁ =
        at-put (some sibling) (set_parent P) (near (some l)) j
          (omega (arith, length-near (some l))) in
      ground (arith, n.parent_is, n.next_is, n.prev_is, n.first_is, n.last_is, at₁)

  first-far :
      (p P : Option NodeId)
      → Within P a
      → insert_first sibling p P (put (some sibling) (set_parent P) (near p)) ≡ some (far p P)
  first-far none P v =
      let b = put (some sibling) (set_parent P) (near none) in
      modify_some-put P (set_first_child (some sibling)) b (
        Within-length P a b
          (length-put (some sibling) (set_parent P) (near none) ∙ length-near none) v)
  first-far (some l) P v = refl

  insert-far :
      (p P : Option NodeId)
      → (at a node).prev ≡ p
      → (at a node).parent ≡ P
      → Within p a
      → Within P a
      → insert node sibling a ≡ some (far p P)
  unfolding insert
  insert-far p P e f w v =
      let b₁ = put (some sibling) (set_prev p) a in
      let e₁ : length b₁ ≡ length a = length-put (some sibling) (set_prev p) a in
      let b₂ = put p (set_next (some sibling)) b₁ in
      let e₂ : length b₂ ≡ length a = length-put p (set_next (some sibling)) b₁ ∙ e₁ in
      let b₃ = put (some sibling) (set_next (some node)) b₂ in
      let e₃ : length b₃ ≡ length a = length-put (some sibling) (set_next (some node)) b₂ ∙ e₂ in
      let same : (at (near p) node).parent ≡ P = (near-NearAt p node w).parent_is ∙ f in
      rw (get-at a node n_in) (
        rw e (
          rw (modify-put sibling (set_prev p) a s_in) (
            rw (modify_some-put p (set_next (some sibling)) b₁ (Within-length p a b₁ e₁ w)) (
              rw (modify-put sibling (set_next (some node)) b₂ (omega arith)) (
                rw (modify-put node (set_prev (some sibling)) b₃ (omega arith)) (
                  rw (get-at (near p) node (omega (arith, length-near p))) (
                    rw same (
                      rw (modify-put sibling (set_parent P) (near p) (omega (arith, length-near p)))
                        (first-far p P v)))))))))

pub insert-Inserted :
    (a : Arena) (node sibling : NodeId)
    → node < length a
    → sibling < length a
    → Within (at a node).prev a
    → Within (at a node).parent a
    → (a' : Arena) × (insert node sibling a ≡ some a') × Inserted a node sibling a'
insert-Inserted a node sibling n_in s_in w v =
    let p = (at a node).prev in
    let P = (at a node).parent in
    let each = λ (j : NodeId). far-FarAt a node sibling n_in s_in p P j w v in
    (
      far a node sibling n_in s_in p P,
      insert-far a node sibling n_in s_in p P refl refl w v,
      record {
        same_length = length-far a node sibling n_in s_in p P;
        parent_is = λ j. (each j).parent_is;
        next_is = λ j. (each j).next_is;
        prev_is = λ j. (each j).prev_is;
        first_is = λ j. (each j).first_is;
        last_is = λ j. (each j).last_is;
      },
    )
