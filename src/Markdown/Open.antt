-- ===== src/Markdown/Open.antt =====
-- src/markdown.rs, `finalize` and the loop of `add_existing_child`: which blocks it closes.
use blackfriday_2_rust.Base.{
  ℕ, zero, suc, ◌<◌, ◌≡◌, refl, sym, ap, ◌∙◌, Bool, true, false, some, inl, inr, List, [], ◌∷◌,
  arith, ◌==◌, Bool-cases, bind-at, if-true, if-false, if◌then◌else◌, length,
}
use mathlib.Core.Path.{subst}
use blackfriday_2_rust.NodeType.{NodeType, can_contain}
use blackfriday_2_rust.Node.{NodeId, Node, Arena}
use blackfriday_2_rust.Node.Links.{at, get-at, put, modify-put, length-put, at-put, IsLinked}
use blackfriday_2_rust.Markdown.{Markdown, set_open, or_tip, finalize, close_until}

-- The way up from the insertion point: `bs` are the blocks that cannot hold a node of the kind, and
-- `q`, above the last of them, is the first that can.
abbrev pub Climb : Arena → NodeType → NodeId → List NodeId → NodeId → Type 0
Climb a t tip [] q = (tip ≡ q) × (tip < length a) × (can_contain (at a tip).node_type t ≡ true)
Climb a t tip (b ∷ bs) q =
    (tip ≡ b)
    × (tip < length a)
    × (can_contain (at a tip).node_type t ≡ false)
    × ((above : NodeId) × ((at a tip).parent ≡ some above) × Climb a t above bs q)

-- Nodes that are there are there again, of the same kind and under the same parent.
abbrev pub Keeps : Arena → Arena → Type 0
Keeps a a' =
    (j : NodeId)
    → j < length a
    → (j < length a')
      × ((at a' j).node_type ≡ (at a j).node_type)
      × ((at a' j).parent ≡ (at a j).parent)

pub Climb-Keeps :
    (a a' : Arena) (t : NodeType) (tip : NodeId) (bs : List NodeId) (q : NodeId)
    → Keeps a a'
    → Climb a t tip bs q
    → Climb a' t tip bs q
Climb-Keeps a a' t tip [] q k (e, lt, c) =
    (e, (k tip lt).0, ap (λ u. can_contain u t) (k tip lt).1 ∙ c)
Climb-Keeps a a' t tip (b ∷ bs) q k (e, lt, c, (above, p, up)) = (
  e,
  (k tip lt).0,
  ap (λ u. can_contain u t) (k tip lt).1 ∙ c,
  (above, (k tip lt).2 ∙ p, Climb-Keeps a a' t above bs q k up),
)

-- The arenas differ at most in which nodes are open.
abbrev pub SameLinks : Arena → Arena → Type 0
SameLinks a a' =
    (length a' ≡ length a) × ((j : NodeId) → at a' j ≡ set_open (at a' j).is_open (at a j))

SameLinks-Keeps : (a a' : Arena) → SameLinks a a' → Keeps a a'
SameLinks-Keeps a a' (size, same) j lt =
    (omega (arith, size), ap (λ n. n.node_type) (same j), ap (λ n. n.parent) (same j))

pub SameLinks-IsLinked : (a a' : Arena) → SameLinks a a' → IsLinked a → IsLinked a'
SameLinks-IsLinked a a' (size, same) ok = record {
  next_ok = λ i j h. ground (arith, size, same i, same j, ok.next_ok i j);
  prev_ok = λ i j h. ground (arith, size, same i, same j, ok.prev_ok i j);
  first_ok = λ i j h. ground (arith, size, same i, same j, ok.first_ok i j);
  last_ok = λ i j h. ground (arith, size, same i, same j, ok.last_ok i j);
  parent_ok = λ i j h. ground (arith, size, same i, same j, ok.parent_ok i j);
  root_ok = λ i h. ground (arith, same i, ok.root_ok i);
  ends_ok = λ i. (
    λ h. ground (arith, same i, (ok.ends_ok i).0),
    λ h. ground (arith, same i, (ok.ends_ok i).1),
  );
}

opened_as : (n m : Node) (o : Bool) → n ≡ set_open o m → n ≡ set_open n.is_open m
opened_as n m o e = e ∙ ap (λ b. set_open b m) (sym (ap (λ n. n.is_open) e))

-- `finalize` closes the block, and nothing else changes in the tree.
pub finalize-SameLinks :
    (p : Markdown) (b : NodeId)
    → b < length p.arena
    → (p' : Markdown) × (finalize b p ≡ some p')
      × SameLinks p.arena p'.arena
      × ((at p'.arena b).is_open ≡ false)
      × ((j : NodeId) → (at p.arena j).is_open ≡ false → (at p'.arena j).is_open ≡ false)
      × (p'.tip ≡ or_tip (at p.arena b).parent p.tip)
      × (p'.all_closed ≡ p.all_closed)
unfolding finalize
finalize-SameLinks p b lt =
    let a' = put (some b) (set_open false) p.arena in
    let there : (j : NodeId)
        → at a' j ≡ (if b == j then set_open false (at p.arena j) else at p.arena j) =
      λ j. at-put (some b) (set_open false) p.arena j lt in
    let same : (j : NodeId) → at a' j ≡ set_open (at a' j).is_open (at p.arena j) = λ j.
      elim (Bool-cases (b == j)) [
        | inl e ↦ opened_as (at a' j) (at p.arena j) false (there j ∙ if-true _ e)
        | inr e ↦ opened_as (at a' j) (at p.arena j) (at p.arena j).is_open (there j ∙ if-false _ e)
      ] in
    (
      record p { arena = a'; tip = or_tip (at p.arena b).parent p.tip },
      bind-at _ (get-at p.arena b lt) ∙ bind-at _ (modify-put b (set_open false) p.arena lt),
      (length-put (some b) (set_open false) p.arena, same),
      ground (arith, there b),
      λ j h. ground (arith, there j),
      refl,
      refl,
    )

pub SameLinks-trans : (a b c : Arena) → SameLinks a b → SameLinks b c → SameLinks a c
SameLinks-trans a b c (l, f) (m, g) =
    (m ∙ l, λ j. g j ∙ ap (λ n. set_open (at c j).is_open n) (f j))

-- Every block of the way is closed.
abbrev pub AllClosed : Arena → List NodeId → Type 0
AllClosed a [] = Unit
AllClosed a (b ∷ bs) = ((at a b).is_open ≡ false) × AllClosed a bs

-- The loop ends at the first block that can hold the node, which becomes the insertion point: the blocks
-- below it are closed, and the links are as they were, as is what `all_closed` says.
pub close_until-Climb :
    (t : NodeType) (bs : List NodeId) (q : NodeId) (fuel : ℕ) (p : Markdown)
    → Climb p.arena t p.tip bs q
    → length bs < fuel
    → (p' : Markdown) × (close_until fuel t p ≡ some p')
      × SameLinks p.arena p'.arena
      × (p'.tip ≡ q)
      × AllClosed p'.arena bs
      × ((j : NodeId) → (at p.arena j).is_open ≡ false → (at p'.arena j).is_open ≡ false)
      × (p'.all_closed ≡ p.all_closed)
unfolding close_until
close_until-Climb t bs q zero p c lt = absurd (omega arith)
close_until-Climb t [] q (suc fuel) p (e, there, can) lt = (
  p,
  bind-at _ (get-at p.arena p.tip there) ∙ rw can refl,
  (refl, λ j. refl),
  e,
  tt,
  λ j h. h,
  refl,
)
close_until-Climb t (b ∷ bs) q (suc fuel) p (e, there, can, (above, up, c)) lt =
    let (p₁, f, same, closed, kept, tip, all) = finalize-SameLinks p p.tip there in
    let at_above : p₁.tip ≡ above = tip ∙ ap (λ o. or_tip o p.tip) up in
    let c₁ = Climb-Keeps p.arena p₁.arena t above bs q (SameLinks-Keeps p.arena p₁.arena same) c in
    let (p', g, same', tip', closed', kept', all') =
      close_until-Climb t bs q fuel p₁
        (subst (λ (x : NodeId). Climb p₁.arena t x bs q) (sym at_above) c₁) (omega arith) in
    (
      p',
      bind-at _ (get-at p.arena p.tip there) ∙ rw can (bind-at (close_until fuel t) f ∙ g),
      SameLinks-trans p.arena p₁.arena p'.arena same same',
      tip',
      (subst (λ (x : NodeId). (at p'.arena x).is_open ≡ false) e (kept' p.tip closed), closed'),
      λ j h. kept' j (kept j h),
      all' ∙ all,
    )
