-- ===== src/Markdown/Reach.antt =====
-- src/markdown.rs: the states that the operations on blocks can reach from `Markdown::new`.
use blackfriday_2_rust.Base.{
  ℕ, zero, suc, ◌+◌, ◌<◌, ◌≡◌, refl, sym, ap, ◌∙◌, ◌⊎◌, inl, inr, true, Option, none, some, List,
  [], ◌∷◌, arith, Bool-cases, Option-cases, some-eq-some, bind-at, if-true, length, ◌>>=◌,
}
use mathlib.Core.Path.{subst}
use blackfriday_2_rust.NodeType.{NodeType, document, can_contain}
use blackfriday_2_rust.Node.{NodeId, new_node}
use blackfriday_2_rust.Node.Links.{at, IsLinked}
use blackfriday_2_rust.Node.Fresh.{empty-IsLinked, new_node-IsLinked}
use blackfriday_2_rust.Markdown.{
  Options, Markdown, new, or_tip, finalize, add_child, close_unmatched_blocks,
}
use blackfriday_2_rust.Markdown.Open.{Climb, SameLinks-IsLinked, finalize-SameLinks}
use blackfriday_2_rust.Markdown.Child.{Climb-top, Grown, add_child-Grown}

-- What the parser calls on its blocks, with one unit of fuel more than there are nodes.
pub data Op : Type 0 where
  adds : NodeType → Op
  finalizes : NodeId → Op
  closes : Op

unfoldable pub run : Op → Markdown → Option Markdown
unfolding add_child finalize close_unmatched_blocks
run (adds t) p = add_child (length p.arena + 1) t p >>= λ r. some r.0
run (finalizes b) p = finalize b p
run closes p = close_unmatched_blocks (length p.arena + 1) p

-- A block is finalized where it is there, and one is added that a document, or the insertion point
-- itself, can hold: an item, which a document cannot, only right under a list.
abbrev pub Allowed : Op → Markdown → Type 0
Allowed (adds t) p =
    (can_contain document t ≡ true) ⊎ (can_contain (at p.arena p.tip).node_type t ≡ true)
Allowed (finalizes b) p = b < length p.arena
Allowed closes p = Unit

pub data Reach (options : Options) : Markdown → Type 0 where
  here : Reach options (new options)
  next :
      {p p' : Markdown} (op : Op)
      → Reach options p
      → Allowed op p
      → run op p ≡ some p'
      → Reach options p'

-- All links agree, the insertion point is there, every parent is older than its children, only a document
-- has no parent, and no block is held to be unmatched.
pub record IsSound (p : Markdown) : Type 0 where
  pub linked : IsLinked p.arena
  pub tip_in : p.tip < length p.arena
  pub older : (i j : NodeId) → i < length p.arena → (at p.arena i).parent ≡ some j → j < i
  pub top :
      (i : NodeId)
      → i < length p.arena
      → (at p.arena i).parent ≡ none
      → (at p.arena i).node_type ≡ document
  pub closed : p.all_closed ≡ true

new-IsSound : (options : Options) → IsSound (new options)
unfolding new new_node at
new-IsSound options = record {
  linked = (new_node-IsLinked [] document empty-IsLinked).0;
  tip_in = omega arith;
  older = λ i j lt h. ground arith;
  top = λ i lt h. ground arith;
  closed = refl;
}

-- On the way up some block can hold what a document can, and the way has fewer blocks than there are ids
-- up to where it starts.
way_up :
    (p : Markdown) (t : NodeType) (n tip : ℕ)
    → IsSound p
    → can_contain document t ≡ true
    → tip < n
    → tip < length p.arena
    → (bs : List NodeId) × (q : NodeId) × Climb p.arena t tip bs q × (length bs < n)
way_up p t zero tip sound can lt there = absurd (omega arith)
way_up p t (suc n) tip sound can lt there =
    elim (Bool-cases (can_contain (at p.arena tip).node_type t)) [
      | inl e ↦ ([], tip, (refl, there, e), omega arith)
      | inr e ↦ elim (Option-cases (at p.arena tip).parent) [
        | inl root ↦ cc (ap (λ k. can_contain k t) (sound.top tip there root))
        | inr (above, up) ↦
            let below = sound.older tip above there up in
            let (bs, q, climb, few) = way_up p t n above sound can (omega arith) (omega arith) in
            (tip ∷ bs, q, (refl, there, e, (above, up, climb)), omega arith)
      ]
    ]

way_to :
    (p : Markdown) (t : NodeType)
    → IsSound p
    → Allowed (adds t) p
    → (bs : List NodeId) × (q : NodeId) × Climb p.arena t p.tip bs q
      × (length bs < length p.arena + 1)
way_to p t sound (inl can) =
    let (bs, q, climb, few) =
      way_up p t (length p.arena) p.tip sound can sound.tip_in sound.tip_in in
    (bs, q, climb, omega arith)
way_to p t sound (inr can) = ([], p.tip, (refl, sound.tip_in, can), omega arith)

module _ (p p' : Markdown) (t : NodeType) (q : NodeId) (sound : IsSound p)
    (grown : Grown p.arena t p'.arena) (q_in : q < length p.arena)
    (up : (at p'.arena (length p.arena)).parent ≡ some q) where
  grown-older : (i j : NodeId) → i < length p'.arena → (at p'.arena i).parent ≡ some j → j < i
  grown-older i j lt h = ground (arith, grown.0, grown.2 i, sound.older i j, up, q_in)

  grown-top :
      (i : NodeId)
      → i < length p'.arena
      → (at p'.arena i).parent ≡ none
      → (at p'.arena i).node_type ≡ document
  grown-top i lt h = ground (arith, grown.0, grown.2 i, grown.3 i, sound.top i, up)

or_tip-in :
    (o : Option NodeId) (tip n : ℕ)
    → tip < n
    → ((j : NodeId) → o ≡ some j → j < n)
    → or_tip o tip < n
or_tip-in none tip n lt h = lt
or_tip-in (some j) tip n lt h = h j refl

run-IsSound :
    (op : Op) (p : Markdown)
    → IsSound p
    → Allowed op p
    → (p' : Markdown) × (run op p ≡ some p') × IsSound p'
unfolding run
run-IsSound (adds t) p sound allowed =
    let (bs, q, climb, few) = way_to p t sound allowed in
    let (p', e, linked, tip, up, last, grown, all) =
      add_child-Grown p t bs q (length p.arena + 1) sound.linked climb few in
    let q_in = Climb-top p.arena t p.tip bs q climb in
    (
      p',
      bind-at _ e,
      record {
        linked = linked;
        tip_in = omega (arith, tip, grown.0);
        older = grown-older p p' t q sound grown q_in up;
        top = grown-top p p' t q sound grown q_in up;
        closed = all ∙ sound.closed;
      },
    )
run-IsSound (finalizes b) p sound there =
    let (p', e, (size, same), now, kept, tip, all) = finalize-SameLinks p b there in
    let above : (j : NodeId) → (at p.arena b).parent ≡ some j → j < length p.arena =
      λ j h. omega (arith, there, sound.older b j there h) in
    let tip_in = or_tip-in (at p.arena b).parent p.tip (length p.arena) sound.tip_in above in
    (
      p',
      e,
      record {
        linked = SameLinks-IsLinked p.arena p'.arena (size, same) sound.linked;
        tip_in = omega (arith, tip, size, tip_in);
        older = λ i j lt h. ground (arith, size, same i, sound.older i j);
        top = λ i lt h. ground (arith, size, same i, sound.top i);
        closed = all ∙ sound.closed;
      },
    )
run-IsSound closes p sound allowed =
    (p, unfold close_unmatched_blocks in if-true _ sound.closed, sound)

Reach-IsSound : {options : Options} {p : Markdown} → Reach options p → IsSound p
Reach-IsSound here = new-IsSound _
Reach-IsSound (next {p} {p'} op r allowed e) =
    let (p₁, f, sound) = run-IsSound op p (Reach-IsSound r) allowed in
    subst IsSound (some-eq-some (sym f ∙ e)) sound

-- In every state that the operations on blocks can reach from a new parser, with one unit of fuel more
-- than there are nodes, each of them ends, is no panic and leaves a state with the invariant: a new
-- block of a kind that a document or the insertion point can hold, a block of the arena finalized, and
-- the unmatched blocks closed. The invariant: all links agree, the insertion point is in the arena, a
-- parent is older than its children, only a document has no parent, and `all_closed` is true, so that
-- `close_unmatched_blocks` changes nothing, whatever its fuel.
pub Reach-run :
    (options : Options) (p : Markdown) (op : Op) (fuel : ℕ)
    → Reach options p
    → Allowed op p
    → (p' : Markdown) × (run op p ≡ some p')
      × IsSound p'
      × (close_unmatched_blocks fuel p' ≡ some p')
unfolding close_unmatched_blocks
Reach-run options p op fuel reached allowed =
    let (p', e, sound) = run-IsSound op p (Reach-IsSound reached) allowed in
    (p', e, sound, if-true _ sound.closed)
