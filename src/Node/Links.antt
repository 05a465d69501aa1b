-- ===== src/Node/Links.antt =====
-- src/node.rs: reading an arena node by node, one assignment at a time, and what it means that the
-- links of an arena agree with one another.
use blackfriday_2_rust.Base.{
  ℕ, ◌<◌, ◌≡◌, refl, ap, ◌∙◌, ◌↔◌, Bool, false, Option, none, some, arith, ◌==◌, inl, inr,
  Bool-cases, if◌then◌else◌, length, length-set, get_elem?, get_elem?-get_or, set, get_or,
  get_or-set, ◌>>=◌,
}
use blackfriday_2_rust.NodeType.{document}
use blackfriday_2_rust.Node.{NodeId, Node, new, Arena, modify, modify_some}

-- The node at an index; past the end, one with no links.
unfoldable pub at : Arena → NodeId → Node
unfolding new
at a i = get_or a i (new document)

-- Whether an optional link is this id.
abbrev pub is : Option NodeId → NodeId → Bool
is none j = false
is (some i) j = i == j

abbrev pub Within : Option NodeId → Arena → Type 0
Within none a = Unit
Within (some i) a = i < length a

-- An assignment to a node that is there, if there is one to assign to.
unfoldable pub put : Option NodeId → (Node → Node) → Arena → Arena
unfolding at
put none f a = a
put (some i) f a = set a i (f (at a i))

pub length-put : (o : Option NodeId) (f : Node → Node) (a : Arena) → length (put o f a) ≡ length a
unfolding put
length-put none f a = refl
length-put (some i) f a = length-set a i (f (at a i))

pub at-put :
    (o : Option NodeId) (f : Node → Node) (a : Arena) (j : NodeId)
    → Within o a
    → at (put o f a) j ≡ (if is o j then f (at a j) else at a j)
unfolding put at
at-put none f a j w = refl
at-put (some i) f a j w = elim (Bool-cases (i == j)) [
  | inl e ↦
      let same : i ≡ j = ground arith in
      get_or-set a i j (f (get_or a i (new document))) (new document) w
      ∙ rw e (ap (λ (k : ℕ). f (get_or a k (new document))) same)
  | inr e ↦ get_or-set a i j (f (get_or a i (new document))) (new document) w ∙ rw e
]

pub get-at : (a : Arena) (i : NodeId) → i < length a → get_elem? a i ≡ some (at a i)
unfolding at
get-at a i h = get_elem?-get_or a i (new document) h

pub modify-put :
    (i : NodeId) (f : Node → Node) (a : Arena)
    → i < length a
    → modify i f a ≡ some (put (some i) f a)
unfolding modify put
modify-put i f a h = rw (get-at a i h, ◌>>=◌)

pub modify_some-put :
    (o : Option NodeId) (f : Node → Node) (a : Arena)
    → Within o a
    → modify_some o f a ≡ some (put o f a)
unfolding put
modify_some-put none f a h = refl
modify_some-put (some i) f a h = modify-put i f a h

pub Within-put :
    (o p : Option NodeId) (f : Node → Node) (a : Arena) → Within p a → Within p (put o f a)
Within-put o none f a h = tt
Within-put o (some i) f a h = rw (length-put o f a) h

-- The links of the arena agree. Each field speaks of one link of one node.
pub record IsLinked (a : Arena) : Type 0 where
  pub next_ok :
      (i j : NodeId)
      → (at a i).next ≡ some j
      → (j < length a) × ((at a j).prev ≡ some i) × ((at a j).parent ≡ (at a i).parent)
  pub prev_ok : (i j : NodeId) → (at a i).prev ≡ some j → (j < length a) × ((at a j).next ≡ some i)
  pub first_ok :
      (i j : NodeId)
      → (at a i).first_child ≡ some j
      → (j < length a) × ((at a j).parent ≡ some i) × ((at a j).prev ≡ none)
  pub last_ok :
      (i j : NodeId)
      → (at a i).last_child ≡ some j
      → (j < length a) × ((at a j).parent ≡ some i) × ((at a j).next ≡ none)
  pub parent_ok :
      (i j : NodeId)
      → (at a i).parent ≡ some j
      → (j < length a)
        × ((at a i).prev ≡ none → (at a j).first_child ≡ some i)
        × ((at a i).next ≡ none → (at a j).last_child ≡ some i)
  pub root_ok :
      (i : NodeId) → (at a i).parent ≡ none → ((at a i).prev ≡ none) × ((at a i).next ≡ none)
  pub ends_ok : (i : NodeId) → ((at a i).first_child ≡ none) ↔ ((at a i).last_child ≡ none)
