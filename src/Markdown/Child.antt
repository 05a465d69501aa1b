-- ===== src/Markdown/Child.antt =====
-- src/markdown.rs, `add_child`: where a new block goes.
use blackfriday_2_rust.Base.{
  ℕ, ◌+◌, ◌<◌, ◌≡◌, refl, ap, ◌∙◌, some, List, [], ◌∷◌, arith, bind-at, length,
}
use mathlib.Core.Path.{subst}
use blackfriday_2_rust.NodeType.{NodeType}
use blackfriday_2_rust.Node.{NodeId, Arena, new, new_node}
use blackfriday_2_rust.Node.Links.{at, get-at, IsLinked}
use blackfriday_2_rust.Node.Fresh.{at-new_node, new_node-IsLinked}
use blackfriday_2_rust.Node.Attach.{append_child-IsLinked}
use blackfriday_2_rust.Markdown.{Markdown, set_open, close_until, add_existing_child, add_child}
use blackfriday_2_rust.Markdown.Open.{Climb, Climb-Keeps, SameLinks-IsLinked, close_until-Climb}

-- The first node on the way is there, and so is the last.
pub Climb-top :
    (a : Arena) (t : NodeType) (tip : NodeId) (bs : List NodeId) (q : NodeId)
    → Climb a t tip bs q
    → q < length a
Climb-top a t tip [] q (e, lt, c) = subst (λ (x : NodeId). x < length a) e lt
Climb-top a t tip (b ∷ bs) q (e, lt, c, (above, p, up)) = Climb-top a t above bs q up

new_kind : (a : Arena) (t : NodeType) → (at (new_node a t).0 (length a)).node_type ≡ t
unfolding new
new_kind a t = ground (arith, at-new_node a t (length a))

-- What a new node of the kind leaves in the arena: the nodes that were there keep parent and kind.
abbrev pub Grown : Arena → NodeType → Arena → Type 0
Grown a t a' =
    (length a' ≡ length a + 1)
    × ((at a' (length a)).node_type ≡ t)
    × ((j : NodeId) → j < length a → (at a' j).parent ≡ (at a j).parent)
    × ((j : NodeId) → j < length a → (at a' j).node_type ≡ (at a j).node_type)

-- The same as below, with what stays as it was.
pub add_child-Grown :
    (p : Markdown) (t : NodeType) (bs : List NodeId) (q : NodeId) (fuel : ℕ)
    → IsLinked p.arena
    → Climb p.arena t p.tip bs q
    → length bs < fuel
    → (p' : Markdown) × (add_child fuel t p ≡ some (p', length p.arena))
      × IsLinked p'.arena
      × (p'.tip ≡ length p.arena)
      × ((at p'.arena (length p.arena)).parent ≡ some q)
      × ((at p'.arena q).last_child ≡ some (length p.arena))
      × Grown p.arena t p'.arena
      × (p'.all_closed ≡ p.all_closed)
unfolding add_child add_existing_child new_node
add_child-Grown p t bs q fuel linked climb enough =
    let a = (new_node p.arena t).0 in
    let (linked_a, id, size, free, same) = new_node-IsLinked p.arena t linked in
    let q_in : q < length p.arena = Climb-top p.arena t p.tip bs q climb in
    let p₀ : Markdown = record p { arena = a } in
    let climb_a : Climb a t p.tip bs q =
      Climb-Keeps p.arena a t p.tip bs q
        (λ j lt.
          (omega (arith, size), ap (λ n. n.node_type) (same j lt), ap (λ n. n.parent) (same j lt)))
        climb in
    let kind : (at a (length p.arena)).node_type ≡ t = new_kind p.arena t in
    let (p₁, e, links, tip, closed, kept, all) = close_until-Climb t bs q fuel p₀ climb_a enough in
    let linked₁ = SameLinks-IsLinked a p₁.arena links linked_a in
    let (a', f, linked', parent, last, next, prev, others, kinds, appended_size) =
      append_child-IsLinked p₁.arena p₁.tip (length p.arena) linked₁
        (λ h. absurd (omega (arith, h, tip, q_in))) (omega (arith, tip, links.0, size, q_in))
        (omega (arith, links.0, size)) in
    let closed_at : close_until fuel (at a (length p.arena)).node_type p₀ ≡ some p₁ =
      ap (λ k. close_until fuel k p₀) kind ∙ e in
    let added : add_existing_child fuel (length p.arena) p₀
        ≡ some (record p₁ { arena = a'; tip = length p.arena }) =
      bind-at _ (get-at a (length p.arena) (omega (arith, size)))
      ∙ bind-at _ closed_at
      ∙ bind-at _ f in
    (
      record p₁ { arena = a'; tip = length p.arena },
      bind-at (λ p'. some (p', length p.arena)) added,
      linked',
      refl,
      parent ∙ ap some tip,
      subst (λ (x : NodeId). (at a' x).last_child ≡ some (length p.arena)) tip last,
      (
        appended_size ∙ links.0 ∙ size,
        kinds (length p.arena) ∙ ap (λ n. n.node_type) (links.1 (length p.arena)) ∙ kind,
        λ j lt.
            others j (λ e. absurd (omega (arith, e, lt)))
            ∙ ap (λ n. n.parent) (links.1 j ∙ ap (set_open (at p₁.arena j).is_open) (same j lt)),
        λ j lt.
            kinds j
            ∙ ap (λ n. n.node_type) (links.1 j ∙ ap (set_open (at p₁.arena j).is_open) (same j lt)),
      ),
      all,
    )

-- In a tree whose links agree, with some block on the way up that can hold a node of the kind, and with
-- more fuel than there are blocks below it, `add_child` ends and is no panic: the new node is the last
-- child of that block and the new insertion point, and the links agree again.
pub add_child-Climb :
    (p : Markdown) (t : NodeType) (bs : List NodeId) (q : NodeId) (fuel : ℕ)
    → IsLinked p.arena
    → Climb p.arena t p.tip bs q
    → length bs < fuel
    → (p' : Markdown) × (add_child fuel t p ≡ some (p', length p.arena))
      × IsLinked p'.arena
      × (p'.tip ≡ length p.arena)
      × ((at p'.arena (length p.arena)).parent ≡ some q)
      × ((at p'.arena q).last_child ≡ some (length p.arena))
add_child-Climb p t bs q fuel linked climb enough =
    let (p', e, linked', tip, parent, last, grown, all) =
      add_child-Grown p t bs q fuel linked climb enough in
    (p', e, linked', tip, parent, last)
