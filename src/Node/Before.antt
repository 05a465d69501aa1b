-- ===== src/Node/Before.antt =====
-- src/node.rs, `Arena::insert_before`: the links agree after it.
use blackfriday_2_rust.Base.{◌<◌, ◌≡◌, ◌↔◌, ◌≢◌, none, some, arith, length, ◌>>=◌}
use blackfriday_2_rust.Node.{NodeId, Arena, insert_before}
use blackfriday_2_rust.Node.Links.{at, IsLinked}
use blackfriday_2_rust.Node.Unlink.{Within-parent, Within-prev}
use blackfriday_2_rust.Node.Kept.{IsDetached, unlink-IsLinked}
use blackfriday_2_rust.Node.Insert.{Inserted, insert, insert-Inserted}

module _ {a a' : Arena} {node sibling q : NodeId} (ok : IsLinked a) (free : IsDetached a sibling)
    (apart : sibling ≢ node) (n_in : node < length a) (s_in : sibling < length a)
    (under : (at a node).parent ≡ some q) (u : Inserted a node sibling a') where
  open ok use {next_ok, prev_ok, first_ok, last_ok, parent_ok, root_ok, ends_ok}
  open u use {same_length, parent_is, next_is, prev_is, first_is, last_is}

  inserted-next_ok :
      (i j : NodeId)
      → (at a' i).next ≡ some j
      → (j < length a') × ((at a' j).prev ≡ some i) × ((at a' j).parent ≡ (at a' i).parent)
  inserted-next_ok i j h = ground (
    arith,
    same_length,
    next_is i,
    prev_is j,
    parent_is i,
    parent_is j,
    next_ok i j,
    prev_ok node i,
    next_ok i node,
    prev_ok node j,
    free.0,
    free.1,
    free.2,
  )

  inserted-prev_ok :
      (i j : NodeId) → (at a' i).prev ≡ some j → (j < length a') × ((at a' j).next ≡ some i)
  inserted-prev_ok i j h = ground (
    arith,
    same_length,
    next_is j,
    prev_is i,
    prev_ok i j,
    prev_ok node j,
    next_ok j node,
    prev_ok i sibling,
    next_ok sibling i,
    free.0,
    free.1,
    free.2,
  )

  inserted-first_ok :
      (i j : NodeId)
      → (at a' i).first_child ≡ some j
      → (j < length a') × ((at a' j).parent ≡ some i) × ((at a' j).prev ≡ none)
  inserted-first_ok i j h = ground (
    arith,
    same_length,
    first_is i,
    parent_is j,
    prev_is j,
    first_ok i j,
    parent_ok node i,
    parent_ok node q,
    free.0,
    free.1,
    free.2,
  )

  inserted-last_ok :
      (i j : NodeId)
      → (at a' i).last_child ≡ some j
      → (j < length a') × ((at a' j).parent ≡ some i) × ((at a' j).next ≡ none)
  inserted-last_ok i j h = ground (
    arith,
    same_length,
    last_is i,
    parent_is j,
    next_is j,
    last_ok i j,
    prev_ok node j,
    free.0,
    free.1,
    free.2,
  )

  inserted-root_ok :
      (i : NodeId) → (at a' i).parent ≡ none → ((at a' i).prev ≡ none) × ((at a' i).next ≡ none)
  inserted-root_ok i h =
      ground (arith, parent_is i, next_is i, prev_is i, root_ok i, prev_ok node i, next_ok i node)

  inserted-parent_ok :
      (i j : NodeId)
      → (at a' i).parent ≡ some j
      → (j < length a')
        × ((at a' i).prev ≡ none → (at a' j).first_child ≡ some i)
        × ((at a' i).next ≡ none → (at a' j).last_child ≡ some i)
  inserted-parent_ok i j h = (
    ground (arith, same_length, parent_is i, parent_ok i j, parent_ok node j),
    λ h'. ground (
      arith,
      parent_is i,
      prev_is i,
      first_is j,
      parent_ok i j,
      parent_ok node j,
      first_ok j i,
      first_ok j node,
      free.0,
      free.1,
    ),
    λ h'. ground (
      arith,
      parent_is i,
      next_is i,
      last_is j,
      parent_ok i j,
      parent_ok node j,
      prev_ok node i,
      free.0,
      free.2,
    ),
  )

  inserted-ends_ok : (i : NodeId) → ((at a' i).first_child ≡ none) ↔ ((at a' i).last_child ≡ none)
  inserted-ends_ok i = (
    λ h. ground (arith, first_is i, last_is i, (ends_ok i).0, (ends_ok i).1, parent_ok node i),
    λ h. ground (arith, first_is i, last_is i, (ends_ok i).0, (ends_ok i).1, parent_ok node i),
  )

  pub inserted-IsLinked : IsLinked a'
  inserted-IsLinked = record {
    next_ok = inserted-next_ok;
    prev_ok = inserted-prev_ok;
    first_ok = inserted-first_ok;
    last_ok = inserted-last_ok;
    parent_ok = inserted-parent_ok;
    root_ok = inserted-root_ok;
    ends_ok = inserted-ends_ok;
  }

-- Where all links agree, inserting one node of the arena before another that has a parent is no
-- panic, the links agree again, and the inserted node is the other's previous sibling under the same
-- parent.
pub insert_before-IsLinked :
    (a : Arena) (node sibling q : NodeId)
    → IsLinked a
    → sibling ≢ node
    → node < length a
    → sibling < length a
    → (at a node).parent ≡ some q
    → (a' : Arena) × (insert_before node sibling a ≡ some a')
      × IsLinked a'
      × ((at a' node).prev ≡ some sibling)
      × ((at a' sibling).next ≡ some node)
      × ((at a' sibling).parent ≡ some q)
unfolding insert_before insert
insert_before-IsLinked a node sibling q ok apart n_in s_in under =
    let (a₁, e₁, ok₁, free, u₁) = unlink-IsLinked a sibling ok s_in in
    let n_in₁ : node < length a₁ = omega (arith, u₁.same_length) in
    let s_in₁ : sibling < length a₁ = omega (arith, u₁.same_length) in
    let under₁ : (at a₁ node).parent ≡ some q = ground (arith, u₁.parent_is node) in
    let (a₂, e₂, u₂) =
      insert-Inserted a₁ node sibling n_in₁ s_in₁ (Within-prev ok₁ node) (Within-parent ok₁ node) in
    (
      a₂,
      rw (e₁, ◌>>=◌) e₂,
      inserted-IsLinked ok₁ free apart n_in₁ s_in₁ under₁ u₂,
      ground (arith, u₂.prev_is node),
      ground (arith, u₂.next_is sibling),
      ground (arith, u₂.parent_is sibling),
    )
