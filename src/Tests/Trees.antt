-- ===== src/Tests/Trees.antt =====
-- Runs of the arena and the walker.
use blackfriday_2_rust.Base.{
  zero, suc, ◌≡◌, ◌≢◌, ◌<◌, ◌+◌, refl, sym, some-eq-some, Bool, true, false, Option, none, some,
  List, [], ◌∷◌, arith, length, ◌>>=◌,
}
use blackfriday_2_rust.NodeType.{document, paragraph, text, is_container}
use mathlib.Core.Path.{subst}
use blackfriday_2_rust.Node.{
  NodeId, Node, Arena, new, new_node, unlink, append_child, insert_before, children,
}
use blackfriday_2_rust.Node.Links.{at, IsLinked}
use blackfriday_2_rust.Node.Kept.{IsDetached, unlink-IsLinked}
use blackfriday_2_rust.Node.Unlink.{Unlinked}
use blackfriday_2_rust.Node.Attach.{last_besides, append_child-IsLinked}
use blackfriday_2_rust.Node.Place.{place, insert_before-Children}
use blackfriday_2_rust.Node.Before.{insert_before-IsLinked}
use blackfriday_2_rust.Node.Fresh.{empty-IsLinked, new_node-IsLinked}
use blackfriday_2_rust.Node.Children.{Children, erase}
use blackfriday_2_rust.Node.Order.{unlink-Children, moved, append_child-Children, children-Children}
use blackfriday_2_rust.Node.Walker.{WalkStatus, go_to_next, skip_children, Visit, start, walk}
use blackfriday_2_rust.Node.Walker.Tour.{nil, cons, branch, tour, IsTree}
use blackfriday_2_rust.Node.Walker.Visits.{walk-tour}

-- A document, two paragraphs and a text, none of them attached.
abbrev fresh : Arena
fresh = new document ∷ new paragraph ∷ new paragraph ∷ new text ∷ []

fresh-IsLinked : IsLinked fresh
unfolding new_node
fresh-IsLinked =
    (new_node-IsLinked (new document ∷ new paragraph ∷ new paragraph ∷ []) text
      (new_node-IsLinked (new document ∷ new paragraph ∷ []) paragraph
        (new_node-IsLinked (new document ∷ []) paragraph
          (new_node-IsLinked [] document empty-IsLinked).0).0).0).0

-- The paragraphs under the document, and the text under the first.
built : Option Arena
built = append_child 0 1 fresh >>= append_child 1 3 >>= append_child 0 2

-- What a walk visits, and the children that the iterator finds.
visits : (NodeId → Bool → WalkStatus) → Option (List Visit)
visits visitor = built >>= λ a. walk 20 visitor a (start 0)

skip_first : NodeId → Bool → WalkStatus
skip_first (suc zero) true = skip_children
skip_first i b = go_to_next

runs_of_built :
    (visits (λ i b. go_to_next)
      ≡ some (
          (0, true)
          ∷ (1, true)
          ∷ (3, true)
          ∷ (1, false)
          ∷ (2, true)
          ∷ (2, false)
          ∷ (0, false)
          ∷ []))
    × (visits skip_first ≡ some ((0, true) ∷ (1, true) ∷ (2, true) ∷ (2, false) ∷ (0, false) ∷ []))
    × ((built >>= children 20 0) ≡ some (1 ∷ 2 ∷ []))
    × ((built >>= unlink 1 >>= children 20 0) ≡ some (2 ∷ []))
unfolding visits built append_child unlink walk children is_container new skip_first
runs_of_built = (refl, refl, refl, refl)

new_node-IsLinked_example :
    IsLinked (new_node [] document).0
    × ((new_node [] document).1 ≡ length {A = Node} [])
    × (length (new_node [] document).0 ≡ length {A = Node} [] + 1)
    × IsDetached (new_node [] document).0 (length {A = Node} [])
    × ((j : NodeId) → j < length {A = Node} [] → at (new_node [] document).0 j ≡ at [] j)
new_node-IsLinked_example = new_node-IsLinked [] document empty-IsLinked

-- The arena with one paragraph under the document.
abbrev one_child : Arena
one_child =
    (record (new document) { first_child = some 1; last_child = some 1 })
    ∷ (record (new paragraph) { parent = some 0 })
    ∷ new paragraph
    ∷ new text
    ∷ []

one_child-IsLinked : IsLinked one_child
unfolding append_child at new
one_child-IsLinked =
    let r =
      append_child-IsLinked fresh 0 1 fresh-IsLinked (omega arith) (omega arith) (omega arith) in
    subst IsLinked (some-eq-some (sym r.1)) r.2

one_child-Children : Children one_child 0 (1 ∷ [])
unfolding at new
one_child-Children = (refl, omega arith, refl, refl, refl, refl)

append_child-IsLinked_example :
    (a' : Arena) × (append_child 0 2 one_child ≡ some a')
    × IsLinked a'
    × ((at a' 2).parent ≡ some 0)
    × ((at a' 0).last_child ≡ some 2)
    × ((at a' 2).next ≡ none)
    × ((at a' 2).prev ≡ last_besides one_child 0 2)
    × ((j : NodeId) → 2 ≢ j → (at a' j).parent ≡ (at one_child j).parent)
    × ((j : NodeId) → (at a' j).node_type ≡ (at one_child j).node_type)
    × (length a' ≡ 4)
append_child-IsLinked_example =
    append_child-IsLinked one_child 0 2 one_child-IsLinked (omega arith) (omega arith) (omega arith)

follows_last : last_besides one_child 0 2 ≡ some 1
unfolding at
follows_last = refl

unlink-IsLinked_example :
    (a' : Arena) × (unlink 1 one_child ≡ some a')
    × IsLinked a'
    × IsDetached a' 1
    × Unlinked one_child 1 a'
unlink-IsLinked_example = unlink-IsLinked one_child 1 one_child-IsLinked (omega arith)

unlink-Children_example :
    (a' : Arena) × (unlink 1 one_child ≡ some a')
    × ((q : NodeId) (xs : List NodeId) → Children one_child q xs → Children a' q (erase 1 xs))
unlink-Children_example = unlink-Children one_child 1 one_child-IsLinked (omega arith)

append_child-Children_example :
    (a' : Arena) × (append_child 0 2 one_child ≡ some a')
    × ((q : NodeId) (xs : List NodeId) → Children one_child q xs → Children a' q (moved 0 2 q xs))
append_child-Children_example =
    append_child-Children one_child 0 2 one_child-IsLinked (omega arith) (omega arith) (omega arith)

children-Children_example : children 2 0 one_child ≡ some (1 ∷ [])
children-Children_example =
    children-Children one_child 0 (1 ∷ []) 2 (omega arith) (omega arith) one_child-Children

one_child-IsTree : IsTree one_child 0 (branch 0 (cons (branch 1 nil) nil))
unfolding at new is_container
one_child-IsTree = (omega arith, λ c. (refl, omega arith, refl, (omega arith, λ d. refl), refl))

walk-tour_example :
    walk 9 (λ i b. go_to_next) one_child (start 0)
    ≡ some (tour (λ i b. go_to_next) one_child (branch 0 (cons (branch 1 nil) nil))).0
walk-tour_example =
    walk-tour (λ i b. go_to_next) one_child 0 (cons (branch 1 nil) nil) 9 one_child-IsTree
      (unfold tour is_container at new in omega arith)

insert_before-IsLinked_example :
    (a' : Arena) × (insert_before 1 2 one_child ≡ some a')
    × IsLinked a'
    × ((at a' 1).prev ≡ some 2)
    × ((at a' 2).next ≡ some 1)
    × ((at a' 2).parent ≡ some 0)
unfolding at new
insert_before-IsLinked_example =
    insert_before-IsLinked one_child 1 2 0 one_child-IsLinked (omega arith) (omega arith)
      (omega arith) refl

insert_before-Children_example :
    (a' : Arena) × (insert_before 1 2 one_child ≡ some a')
    × ((r : NodeId) (xs : List NodeId)
        → Children one_child r xs
        → Children a' r (place 1 2 (erase 2 xs)))
insert_before-Children_example =
    insert_before-Children one_child 1 2 one_child-IsLinked (omega arith) (omega arith)
      (omega arith)
