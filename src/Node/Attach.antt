-- ===== src/Node/Attach.antt =====
-- src/node.rs, `Arena::append_child`: the links agree after it, and where the child stands.
use blackfriday_2_rust.Base.{
  ◌<◌, ◌≡◌, ◌↔◌, ◌≢◌, ◌∙◌, Option, none, some, arith, length, if◌then◌else◌, ◌>>=◌,
}
use blackfriday_2_rust.Node.{NodeId, Arena, append_child}
use blackfriday_2_rust.Node.Links.{at, is, IsLinked}
use blackfriday_2_rust.Node.Unlink.{Unlinked, Within-last}
use blackfriday_2_rust.Node.Kept.{IsDetached, unlink-IsLinked}
use blackfriday_2_rust.Node.Append.{Appended, attach, attach-Appended}

module _ {a a' : Arena} {parent child : NodeId} (ok : IsLinked a) (free : IsDetached a child)
    (apart : child ≢ parent) (p_in : parent < length a) (c_in : child < length a)
    (u : Appended a parent child a') where
  open ok use {next_ok, prev_ok, first_ok, last_ok, parent_ok, root_ok, ends_ok}
  open u use {same_length, parent_is, next_is, prev_is, first_is, last_is}

  appended-next_ok :
      (i j : NodeId)
      → (at a' i).next ≡ some j
      → (j < length a') × ((at a' j).prev ≡ some i) × ((at a' j).parent ≡ (at a' i).parent)
  appended-next_ok i j h = ground (
    arith,
    same_length,
    next_is i,
    prev_is j,
    parent_is i,
    parent_is j,
    next_ok i j,
    last_ok parent i,
    last_ok parent j,
    free.0,
    free.1,
    free.2,
  )

  appended-prev_ok :
      (i j : NodeId) → (at a' i).prev ≡ some j → (j < length a') × ((at a' j).next ≡ some i)
  appended-prev_ok i j h = ground (
    arith,
    same_length,
    next_is j,
    prev_is i,
    prev_ok i j,
    last_ok parent j,
    free.0,
    free.1,
    free.2,
  )

  appended-first_ok :
      (i j : NodeId)
      → (at a' i).first_child ≡ some j
      → (j < length a') × ((at a' j).parent ≡ some i) × ((at a' j).prev ≡ none)
  appended-first_ok i j h = ground (
    arith,
    same_length,
    first_is i,
    parent_is j,
    prev_is j,
    first_ok i j,
    last_ok parent j,
    free.0,
    free.1,
    free.2,
  )

  appended-last_ok :
      (i j : NodeId)
      → (at a' i).last_child ≡ some j
      → (j < length a') × ((at a' j).parent ≡ some i) × ((at a' j).next ≡ none)
  appended-last_ok i j h = ground (
    arith,
    same_length,
    last_is i,
    parent_is j,
    next_is j,
    last_ok i j,
    last_ok parent j,
    free.0,
    free.1,
    free.2,
  )

  appended-root_ok :
      (i : NodeId) → (at a' i).parent ≡ none → ((at a' i).prev ≡ none) × ((at a' i).next ≡ none)
  appended-root_ok i h =
      ground (arith, parent_is i, next_is i, prev_is i, root_ok i, last_ok parent i)

  appended-parent_ok :
      (i j : NodeId)
      → (at a' i).parent ≡ some j
      → (j < length a')
        × ((at a' i).prev ≡ none → (at a' j).first_child ≡ some i)
        × ((at a' i).next ≡ none → (at a' j).last_child ≡ some i)
  appended-parent_ok i j h = (
    ground (arith, same_length, parent_is i, parent_ok i j),
    λ h'. ground (
      arith,
      parent_is i,
      prev_is i,
      first_is j,
      parent_ok i j,
      last_ok parent i,
      free.0,
      (ends_ok parent).0,
      (ends_ok parent).1,
      first_ok parent i,
    ),
    λ h'.
        ground (
          arith,
          parent_is i,
          next_is i,
          last_is j,
          parent_ok i j,
          last_ok parent i,
          free.0,
          free.2,
        ),
  )

  appended-ends_ok : (i : NodeId) → ((at a' i).first_child ≡ none) ↔ ((at a' i).last_child ≡ none)
  appended-ends_ok i = (
    λ h. ground (
      arith,
      first_is i,
      last_is i,
      (ends_ok i).0,
      (ends_ok i).1,
      (ends_ok parent).0,
      (ends_ok parent).1,
    ),
    λ h. ground (arith, first_is i, last_is i, (ends_ok i).0, (ends_ok i).1),
  )

  pub appended-IsLinked : IsLinked a'
  appended-IsLinked = record {
    next_ok = appended-next_ok;
    prev_ok = appended-prev_ok;
    first_ok = appended-first_ok;
    last_ok = appended-last_ok;
    parent_ok = appended-parent_ok;
    root_ok = appended-root_ok;
    ends_ok = appended-ends_ok;
  }

-- What the parent's last child is once the child is detached.
abbrev pub last_besides : Arena → (parent child : NodeId) → Option NodeId
last_besides a parent child =
    if is (at a parent).last_child child then (at a child).prev else (at a parent).last_child

Unlinked-last_besides :
    {a a₁ : Arena} (parent child : NodeId)
    → IsLinked a
    → Unlinked a child a₁
    → (at a₁ parent).last_child ≡ last_besides a parent child
Unlinked-last_besides parent child ok u =
    ground (arith, u.last_is parent, ok.last_ok parent child, ok.parent_ok child parent)

Appended-follows :
    {a a' : Arena} (parent child : NodeId)
    → IsDetached a child
    → Appended a parent child a'
    → (at a' child).prev ≡ (at a parent).last_child
Appended-follows parent child free u = ground (arith, u.prev_is child, free.1)

-- Where all links agree, appending one node of the arena to another is no panic, the links agree
-- again, and the child has the parent, comes last and follows the child that was last before, or the
-- one before itself if it was the last itself. Every other node keeps its parent, and every node its
-- kind.
pub append_child-IsLinked :
    (a : Arena) (parent child : NodeId)
    → IsLinked a
    → child ≢ parent
    → parent < length a
    → child < length a
    → (a' : Arena) × (append_child parent child a ≡ some a')
      × IsLinked a'
      × ((at a' child).parent ≡ some parent)
      × ((at a' parent).last_child ≡ some child)
      × ((at a' child).next ≡ none)
      × ((at a' child).prev ≡ last_besides a parent child)
      × ((j : NodeId) → child ≢ j → (at a' j).parent ≡ (at a j).parent)
      × ((j : NodeId) → (at a' j).node_type ≡ (at a j).node_type)
      × (length a' ≡ length a)
unfolding append_child attach
append_child-IsLinked a parent child ok apart p_in c_in =
    let (a₁, e₁, ok₁, free, u₁) = unlink-IsLinked a child ok c_in in
    let p_in₁ : parent < length a₁ = omega (arith, u₁.same_length) in
    let c_in₁ : child < length a₁ = omega (arith, u₁.same_length) in
    let (a₂, e₂, u₂) = attach-Appended a₁ parent child p_in₁ c_in₁ (Within-last ok₁ parent) in
    let ok₂ = appended-IsLinked ok₁ free apart p_in₁ c_in₁ u₂ in
    let last : (at a₂ parent).last_child ≡ some child = ground (arith, u₂.last_is parent) in
    (
      a₂,
      rw (e₁, ◌>>=◌) e₂,
      ok₂,
      ground (arith, u₂.parent_is child),
      last,
      (ok₂.last_ok parent child last).2,
      Appended-follows parent child free u₂ ∙ Unlinked-last_besides parent child ok u₁,
      λ j other. ground (arith, u₂.parent_is j, u₁.parent_is j, other),
      λ j. u₂.kind_is j ∙ u₁.kind_is j,
      u₂.same_length ∙ u₁.same_length,
    )
