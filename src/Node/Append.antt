-- ===== src/Node/Append.antt =====
-- src/node.rs, `Arena::append_child`: every link after it, and that the links still agree.
use blackfriday_2_rust.Base.{
  ◌<◌, ◌≡◌, ◌∙◌, Option, none, some, arith, ◌==◌, if◌then◌else◌, length, get_elem?, ◌>>=◌,
}
use blackfriday_2_rust.Node.{
  NodeId, Node, Arena, set_parent, set_first_child, set_last_child, set_prev, set_next, modify,
  append_last,
}
use blackfriday_2_rust.Node.Links.{at, is, Within, put, length-put, at-put, get-at, modify-put}
use blackfriday_2_rust.Node.Unlink.{Within-length}

abbrev with_last : (parent child : NodeId) → Option NodeId → Arena → Arena
with_last parent child (some last) a =
    put (some parent) (set_last_child (some child))
      (put (some child) (set_prev (some last)) (put (some last) (set_next (some child)) a))
with_last parent child none a =
    put (some parent) (set_last_child (some child))
      (put (some parent) (set_first_child (some child)) a)

abbrev appended : (parent child : NodeId) → Option NodeId → Arena → Arena
appended parent child last a =
    with_last parent child last (put (some child) (set_parent (some parent)) a)

module _ (a : Arena) (parent child : NodeId) (p_in : parent < length a)
    (c_in : child < length a) where
  length-with_last :
      (last : Option NodeId) (b : Arena) → length (with_last parent child last b) ≡ length b
  length-with_last none b =
      length-put (some parent) (set_last_child (some child))
        (put (some parent) (set_first_child (some child)) b)
      ∙ length-put (some parent) (set_first_child (some child)) b
  length-with_last (some l) b =
      length-put (some parent) (set_last_child (some child))
        (put (some child) (set_prev (some l)) (put (some l) (set_next (some child)) b))
      ∙ length-put (some child) (set_prev (some l)) (put (some l) (set_next (some child)) b)
      ∙ length-put (some l) (set_next (some child)) b

  at-child :
      (j : NodeId)
      → at (put (some child) (set_parent (some parent)) a) j
        ≡ (if child == j then set_parent (some parent) (at a j) else at a j)
  at-child j = at-put (some child) (set_parent (some parent)) a j c_in

  append_last-with_last :
      (last : Option NodeId) (b : Arena)
      → length b ≡ length a
      → Within last b
      → append_last parent child last b ≡ some (with_last parent child last b)
  append_last-with_last none b e w =
      rw (modify-put parent (set_first_child (some child)) b (omega arith)) (
        modify-put parent (set_last_child (some child))
          (put (some parent) (set_first_child (some child)) b)
          (omega (arith, length-put (some parent) (set_first_child (some child)) b)))
  append_last-with_last (some l) b e w =
      let b₁ = put (some l) (set_next (some child)) b in
      let e₁ : length b₁ ≡ length a = length-put (some l) (set_next (some child)) b ∙ e in
      let b₂ = put (some child) (set_prev (some l)) b₁ in
      let e₂ : length b₂ ≡ length a = length-put (some child) (set_prev (some l)) b₁ ∙ e₁ in
      rw (modify-put l (set_next (some child)) b w) (
        rw (modify-put child (set_prev (some l)) b₁ (omega arith))
          (modify-put parent (set_last_child (some child)) b₂ (omega arith)))

  -- The links of the node at `j` after the operation, where `last` was the parent's last child.
  record AppendedAt (last : Option NodeId) (j : NodeId) (m : Node) : Type 0 where
    parent_is : m.parent ≡ (if child == j then some parent else (at a j).parent)
    next_is : m.next ≡ (if is last j then some child else (at a j).next)
    prev_is : m.prev ≡ (elim last [
      | none ↦ (at a j).prev
      | some l ↦ if child == j then some l else (at a j).prev
    ])
    first_is : m.first_child ≡ (elim last [
      | none ↦ if parent == j then some child else (at a j).first_child
      | some l ↦ (at a j).first_child
    ])
    last_is : m.last_child ≡ (if parent == j then some child else (at a j).last_child)
    kind_is : m.node_type ≡ (at a j).node_type

  appended-AppendedAt :
      (last : Option NodeId) (j : NodeId)
      → Within last a
      → AppendedAt last j (at (appended parent child last a) j)
  appended-AppendedAt none j w =
      let b = put (some child) (set_parent (some parent)) a in
      let e : length b ≡ length a = length-put (some child) (set_parent (some parent)) a in
      let b₁ = put (some parent) (set_first_child (some child)) b in
      let e₁ : length b₁ ≡ length a =
        length-put (some parent) (set_first_child (some child)) b ∙ e in
      let at₁ = at-put (some parent) (set_first_child (some child)) b j (omega arith) in
      let at₂ = at-put (some parent) (set_last_child (some child)) b₁ j (omega arith) in
      ground (arith, at-child j, at₁, at₂)
  appended-AppendedAt (some l) j w =
      let b = put (some child) (set_parent (some parent)) a in
      let e : length b ≡ length a = length-put (some child) (set_parent (some parent)) a in
      let b₁ = put (some l) (set_next (some child)) b in
      let e₁ : length b₁ ≡ length a = length-put (some l) (set_next (some child)) b ∙ e in
      let b₂ = put (some child) (set_prev (some l)) b₁ in
      let e₂ : length b₂ ≡ length a = length-put (some child) (set_prev (some l)) b₁ ∙ e₁ in
      let at₁ = at-put (some l) (set_next (some child)) b j (omega arith) in
      let at₂ = at-put (some child) (set_prev (some l)) b₁ j (omega arith) in
      let at₃ = at-put (some parent) (set_last_child (some child)) b₂ j (omega arith) in
      ground (arith, at-child j, at₁, at₂, at₃)

-- The links after a detached child is appended, where `a` is the arena before.
pub record Appended (a : Arena) (parent child : NodeId) (a' : Arena) : Type 0 where
  pub same_length : length a' ≡ length a
  pub parent_is :
      (j : NodeId) → (at a' j).parent ≡ (if child == j then some parent else (at a j).parent)
  pub next_is :
      (j : NodeId)
      → (at a' j).next ≡ (if is (at a parent).last_child j then some child else (at a j).next)
  pub prev_is :
      (j : NodeId)
      → (at a' j).prev ≡ (elim (at a parent).last_child [
        | none ↦ (at a j).prev
        | some l ↦ if child == j then some l else (at a j).prev
      ])
  pub first_is :
      (j : NodeId)
      → (at a' j).first_child ≡ (elim (at a parent).last_child [
        | none ↦ if parent == j then some child else (at a j).first_child
        | some l ↦ (at a j).first_child
      ])
  pub last_is :
      (j : NodeId)
      → (at a' j).last_child ≡ (if parent == j then some child else (at a j).last_child)
  pub kind_is : (j : NodeId) → (at a' j).node_type ≡ (at a j).node_type

-- The part of `append_child` behind its call of `unlink`.
unfoldable pub attach : (parent child : NodeId) → Arena → Option Arena
attach parent child arena = do
  arena ← modify child (set_parent (some parent)) arena
  p ← get_elem? arena parent
  append_last parent child p.last_child arena

pub attach-Appended :
    (a : Arena) (parent child : NodeId)
    → parent < length a
    → child < length a
    → Within (at a parent).last_child a
    → (a' : Arena) × (attach parent child a ≡ some a') × Appended a parent child a'
unfolding attach
attach-Appended a parent child p_in c_in w =
    let b = put (some child) (set_parent (some parent)) a in
    let e : length b ≡ length a = length-put (some child) (set_parent (some parent)) a in
    let L = (at a parent).last_child in
    let same : (at b parent).last_child ≡ L =
      ground (arith, at-child a parent child p_in c_in parent) in
    let each = λ (j : NodeId). appended-AppendedAt a parent child p_in c_in L j w in
    (
      appended parent child L a,
      rw (modify-put child (set_parent (some parent)) a c_in) (
          rw (get-at b parent (omega arith)) (
            rw same
              (append_last-with_last a parent child p_in c_in L b e (Within-length L a b e w)))),
      record {
        same_length = length-with_last a parent child p_in c_in L b ∙ e;
        parent_is = λ j. (each j).parent_is;
        next_is = λ j. (each j).next_is;
        prev_is = λ j. (each j).prev_is;
        first_is = λ j. (each j).first_is;
        last_is = λ j. (each j).last_is;
        kind_is = λ j. (each j).kind_is;
      },
    )
