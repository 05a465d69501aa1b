-- ===== src/Node/Fresh.antt =====
-- src/node.rs: the empty arena and `Arena::new_node`.
use blackfriday_2_rust.Base.{
  ◌+◌, ◌<◌, ◌≡◌, refl, arith, ◌==◌, [], ◌∷◌, if◌then◌else◌, length, length-append,
  get_or-append_one,
}
use blackfriday_2_rust.NodeType.{NodeType, document}
use blackfriday_2_rust.Node.{NodeId, new, Arena, new_node}
use blackfriday_2_rust.Node.Links.{at, IsLinked}
use blackfriday_2_rust.Node.Kept.{IsDetached}

pub empty-IsLinked : IsLinked []
unfolding at new
empty-IsLinked = record {
  next_ok = λ i j h. cc;
  prev_ok = λ i j h. cc;
  first_ok = λ i j h. cc;
  last_ok = λ i j h. cc;
  parent_ok = λ i j h. cc;
  root_ok = λ i h. (refl, refl);
  ends_ok = λ i. (λ h. refl, λ h. refl);
}

pub at-new_node :
    (a : Arena) (t : NodeType) (j : NodeId)
    → at (new_node a t).0 j ≡ (if j == length a then new t else at a j)
unfolding at new_node
at-new_node a t j = get_or-append_one a (new t) (new document) j

-- A new node gets the id behind the last one and is detached; the nodes that were there are as they
-- were, so an id given out earlier stays valid, and links that agreed still agree.
pub new_node-IsLinked :
    (a : Arena) (t : NodeType)
    → IsLinked a
    → IsLinked (new_node a t).0
      × ((new_node a t).1 ≡ length a)
      × (length (new_node a t).0 ≡ length a + 1)
      × IsDetached (new_node a t).0 (length a)
      × ((j : NodeId) → j < length a → at (new_node a t).0 j ≡ at a j)
unfolding new
new_node-IsLinked a t ok = (
  record {
    next_ok = λ i j h. ground (arith, len, at-new_node a t i, at-new_node a t j, next_ok i j);
    prev_ok = λ i j h. ground (arith, len, at-new_node a t i, at-new_node a t j, prev_ok i j);
    first_ok = λ i j h. ground (arith, len, at-new_node a t i, at-new_node a t j, first_ok i j);
    last_ok = λ i j h. ground (arith, len, at-new_node a t i, at-new_node a t j, last_ok i j);
    parent_ok = λ i j h. ground (arith, len, at-new_node a t i, at-new_node a t j, parent_ok i j);
    root_ok = λ i h. ground (arith, at-new_node a t i, root_ok i);
    ends_ok = λ i. (
      λ h. ground (arith, at-new_node a t i, (ends_ok i).0),
      λ h. ground (arith, at-new_node a t i, (ends_ok i).1),
    );
  },
  unfold new_node in refl,
  len,
  ground (arith, at-new_node a t (length a)),
  λ j h. ground (arith, at-new_node a t j),
)
  where
    open ok use {next_ok, prev_ok, first_ok, last_ok, parent_ok, root_ok, ends_ok}

    len : length (new_node a t).0 ≡ length a + 1
    len = unfold new_node in omega (arith, length-append a (new t ∷ []))
