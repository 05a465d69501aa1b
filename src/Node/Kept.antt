-- ===== src/Node/Kept.antt =====
-- src/node.rs, `Arena::unlink`: the links agree after it.
use blackfriday_2_rust.Base.{◌<◌, ◌≡◌, ◌↔◌, none, some, arith, length}
use blackfriday_2_rust.Node.{NodeId, Arena, unlink}
use blackfriday_2_rust.Node.Links.{at, IsLinked}
use blackfriday_2_rust.Node.Unlink.{Unlinked, unlink-Unlinked}

module _ {a a' : Arena} {id : NodeId} (ok : IsLinked a) (u : Unlinked a id a') where
  open ok use {next_ok, prev_ok, first_ok, last_ok, parent_ok, root_ok, ends_ok}
  open u use {same_length, parent_is, next_is, prev_is, first_is, last_is}

  unlinked-next_ok :
      (i j : NodeId)
      → (at a' i).next ≡ some j
      → (j < length a') × ((at a' j).prev ≡ some i) × ((at a' j).parent ≡ (at a' i).parent)
  unlinked-next_ok i j h = ground (
    arith,
    same_length,
    next_is i,
    prev_is j,
    parent_is i,
    parent_is j,
    next_ok i j,
    next_ok id j,
    prev_ok id i,
    next_ok i id,
  )

  unlinked-prev_ok :
      (i j : NodeId) → (at a' i).prev ≡ some j → (j < length a') × ((at a' j).next ≡ some i)
  unlinked-prev_ok i j h = ground (
    arith,
    same_length,
    next_is j,
    prev_is i,
    prev_ok i j,
    prev_ok id j,
    next_ok id i,
    prev_ok i id,
    next_ok j id,
  )

  unlinked-first_ok :
      (i j : NodeId)
      → (at a' i).first_child ≡ some j
      → (j < length a') × ((at a' j).parent ≡ some i) × ((at a' j).prev ≡ none)
  unlinked-first_ok i j h = ground (
    arith,
    same_length,
    first_is i,
    parent_is j,
    prev_is j,
    first_ok i j,
    next_ok id j,
    next_ok id id,
    parent_ok id i,
    next_ok id id,
  )

  unlinked-last_ok :
      (i j : NodeId)
      → (at a' i).last_child ≡ some j
      → (j < length a') × ((at a' j).parent ≡ some i) × ((at a' j).next ≡ none)
  unlinked-last_ok i j h = ground (
    arith,
    same_length,
    last_is i,
    parent_is j,
    next_is j,
    last_ok i j,
    prev_ok id j,
    prev_ok id id,
    parent_ok id i,
    next_ok j id,
  )

  unlinked-root_ok :
      (i : NodeId) → (at a' i).parent ≡ none → ((at a' i).prev ≡ none) × ((at a' i).next ≡ none)
  unlinked-root_ok i h = ground (
    arith,
    parent_is i,
    next_is i,
    prev_is i,
    root_ok i,
    root_ok id,
    prev_ok id i,
    next_ok id i,
    next_ok i id,
  )

  unlinked-parent_ok :
      (i j : NodeId)
      → (at a' i).parent ≡ some j
      → (j < length a')
        × ((at a' i).prev ≡ none → (at a' j).first_child ≡ some i)
        × ((at a' i).next ≡ none → (at a' j).last_child ≡ some i)
  unlinked-parent_ok i j h = (
    ground (arith, same_length, parent_is i, parent_ok i j),
    λ h'. ground (
      arith,
      parent_is i,
      prev_is i,
      first_is j,
      parent_ok i j,
      parent_ok id j,
      prev_ok i id,
      next_ok id i,
      prev_ok id i,
      next_ok i id,
      first_ok j id,
    ),
    λ h'. ground (
      arith,
      parent_is i,
      next_is i,
      last_is j,
      parent_ok i j,
      parent_ok id j,
      prev_ok i id,
      next_ok id i,
      prev_ok id i,
      next_ok i id,
      last_ok j id,
    ),
  )

  unlinked-ends_ok : (i : NodeId) → ((at a' i).first_child ≡ none) ↔ ((at a' i).last_child ≡ none)
  unlinked-ends_ok i = (
    λ h. ground (arith, first_is i, last_is i, (ends_ok i).0, (ends_ok i).1, parent_ok id i),
    λ h. ground (arith, first_is i, last_is i, (ends_ok i).0, (ends_ok i).1, parent_ok id i),
  )

  pub Unlinked-IsLinked : IsLinked a'
  Unlinked-IsLinked = record {
    next_ok = unlinked-next_ok;
    prev_ok = unlinked-prev_ok;
    first_ok = unlinked-first_ok;
    last_ok = unlinked-last_ok;
    parent_ok = unlinked-parent_ok;
    root_ok = unlinked-root_ok;
    ends_ok = unlinked-ends_ok;
  }

-- A node with no parent and no siblings.
abbrev pub IsDetached : Arena → NodeId → Type 0
IsDetached a id = ((at a id).parent ≡ none) × ((at a id).prev ≡ none) × ((at a id).next ≡ none)

Unlinked-IsDetached : {a a' : Arena} (id : NodeId) → Unlinked a id a' → IsDetached a' id
Unlinked-IsDetached id u =
    (ground (arith, u.parent_is id), ground (arith, u.prev_is id), ground (arith, u.next_is id))

-- Where all links agree, unlinking a node of the arena is no panic: all links agree again, the node
-- has neither parent nor siblings, and of the other links only those that met it are changed.
pub unlink-IsLinked :
    (a : Arena) (id : NodeId)
    → IsLinked a
    → id < length a
    → (a' : Arena) × (unlink id a ≡ some a') × IsLinked a' × IsDetached a' id × Unlinked a id a'
unlink-IsLinked a id ok inside =
    let (a', e, u) = unlink-Unlinked ok id inside in
    (a', e, Unlinked-IsLinked ok u, Unlinked-IsDetached id u, u)
