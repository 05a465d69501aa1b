-- ===== src/Html/Render/Total.antt =====
-- src/html.rs, `render_node`: every node is written, behind what stands there.
use blackfriday_2_rust.Base.{
  ◌≡◌, ◌≢◌, refl, ◌∙◌, Bool, ◌&&◌, Option, none, some, [], inl, inr, Bool-cases, ◌<◌, length,
  if◌then◌else◌, bind-at, codes, ℤ, ◌+ℤ◌,
}
use blackfriday_2_rust.Flags.{FlagSet, intersects, skip_images}
use blackfriday_2_rust.NodeType.{NodeType}
use blackfriday_2_rust.Node.{NodeId, Node, Arena}
use blackfriday_2_rust.Node.Links.{at, get-at, IsLinked, Within}
use blackfriday_2_rust.Node.Walker.{WalkStatus, go_to_next, skip_children}
use blackfriday_2_rust.Html.{Sink, cr}
use blackfriday_2_rust.Html.Grows.{GrowsTo, Grows, Grows-refl, cr-Grows, Yields}
use blackfriday_2_rust.Html.Nodes.{is_type}
use blackfriday_2_rust.Html.Render.{go_on, render_type, render_node}
use blackfriday_2_rust.Html.Render.Inlines.{
  render_hardbreak, render_pair, render_html_span, render_image,
}
use blackfriday_2_rust.Html.Render.Blocks.{
  render_framed, render_html_block, render_horizontal_rule, render_table_cell, render_table_body,
}
use blackfriday_2_rust.Html.Render.Writes.{
  render_hardbreak-Grows, render_html_span-Grows, render_pair-Grows, render_text-Yields,
  render_code-Yields, render_link-Yields, image_depth, image-Yields,
}
use blackfriday_2_rust.Html.Render.BlockWrites.{
  IsNear, render_paragraph-Yields, render_framed-Grows, render_html_block-Grows,
  render_horizontal_rule-Grows, render_heading-Yields, render_list-Yields, render_item-Yields,
  render_code_block-Yields, render_table_cell-Grows, render_table_body-Grows,
}

-- What a node adds to `disable_tags`, and what the walk does behind it.
abbrev pub depth : Sink → NodeType → Bool → ℤ
depth s NodeType.image entering =
    if intersects s.renderer.params.flags skip_images
    then s.renderer.disable_tags
    else s.renderer.disable_tags +ℤ image_depth entering
depth s _ entering = s.renderer.disable_tags

unfoldable pub status : FlagSet → NodeType → WalkStatus
unfolding is_type
status flags t =
    if is_type t NodeType.image && intersects flags skip_images then skip_children else go_to_next

abbrev Renders : ℤ → WalkStatus → Sink → Option (WalkStatus × Sink) → Type 0
Renders d w s r = (s' : Sink) × (r ≡ some (w, s')) × GrowsTo d s s'

abbrev IsLinkable : NodeType → Node → Type 0
IsLinkable NodeType.link n = n.link.destination ≢ []
IsLinkable _ n = Unit

-- A link has a destination.
abbrev pub HasDestination : Node → Type 0
HasDestination n = IsLinkable n.node_type n

Within-linked :
    (arena : Arena) (o : Option NodeId)
    → ((j : NodeId) → o ≡ some j → j < length arena)
    → Within o arena
Within-linked arena none h = tt
Within-linked arena (some j) h = h j refl

IsLinked-IsNear : (arena : Arena) (i : NodeId) → IsLinked arena → IsNear arena (at arena i)
IsLinked-IsNear arena i linked = (
  Within-linked arena (at arena i).parent (λ j e. (linked.parent_ok i j e).0),
  Within-linked arena (at arena i).prev (λ j e. (linked.prev_ok i j e).0),
  λ p e. Within-linked arena (at arena p).parent (λ j f. (linked.parent_ok p j f).0),
)

Renders-go_on :
    (s : Sink) (r : Option Sink)
    → Yields s r
    → Renders s.renderer.disable_tags go_to_next s (go_on r)
Renders-go_on s r (t, e, g) = (t, bind-at _ e, g)

Renders-some :
    (s t : Sink) → Grows s t → Renders s.renderer.disable_tags go_to_next s (some (go_to_next, t))
Renders-some s t g = (t, refl, g)

render_image-Renders :
    (n : Node) (entering : Bool) (s : Sink)
    → Renders
        (depth s NodeType.image entering)
        (status s.renderer.params.flags NodeType.image)
        s
        (render_image n entering s)
unfolding render_image status is_type
render_image-Renders n entering s =
    elim (Bool-cases (intersects s.renderer.params.flags skip_images)) [
      | inl skip ↦ rw skip (s, refl, Grows-refl s)
      | inr keep ↦ let (t, e, g) = image-Yields n entering s in rw keep (t, bind-at _ e, g)
    ]

render_type-Renders :
    (arena : Arena) (n : Node) (t : NodeType) (entering : Bool) (s : Sink)
    → IsNear arena n
    → IsLinkable t n
    → Renders
        (depth s t entering)
        (status s.renderer.params.flags t)
        s
        (render_type arena n t entering s)
unfolding render_type status is_type
render_type-Renders arena n NodeType.text entering s near ok =
    Renders-go_on s _ (render_text-Yields arena n s near.0)
render_type-Renders arena n NodeType.softbreak entering s near ok =
    Renders-some s (cr s) (cr-Grows s)
render_type-Renders arena n NodeType.hardbreak entering s near ok =
    Renders-some s (render_hardbreak s) (render_hardbreak-Grows s)
render_type-Renders arena n NodeType.emph entering s near ok =
    Renders-some s (render_pair (codes "<em>") (codes "</em>") entering s)
      (render_pair-Grows (codes "<em>") (codes "</em>") entering s)
render_type-Renders arena n NodeType.strong entering s near ok =
    Renders-some s (render_pair (codes "<strong>") (codes "</strong>") entering s)
      (render_pair-Grows (codes "<strong>") (codes "</strong>") entering s)
render_type-Renders arena n NodeType.del entering s near ok =
    Renders-some s (render_pair (codes "<del>") (codes "</del>") entering s)
      (render_pair-Grows (codes "<del>") (codes "</del>") entering s)
render_type-Renders arena n NodeType.html_span entering s near ok =
    Renders-some s (render_html_span n s) (render_html_span-Grows n s)
render_type-Renders arena n NodeType.link entering s near ok =
    Renders-go_on s _ (render_link-Yields n entering s ok)
render_type-Renders arena n NodeType.code entering s near ok =
    Renders-go_on s _ (render_code-Yields n s)
render_type-Renders arena n NodeType.document entering s near ok = Renders-some s s (Grows-refl s)
render_type-Renders arena n NodeType.paragraph entering s near ok =
    Renders-go_on s _ (render_paragraph-Yields arena n entering s near)
render_type-Renders arena n NodeType.block_quote entering s near ok =
    Renders-some s (render_framed (codes "<blockquote>") (codes "</blockquote>") entering s)
      (render_framed-Grows (codes "<blockquote>") (codes "</blockquote>") entering s)
render_type-Renders arena n NodeType.html_block entering s near ok =
    Renders-some s (render_html_block n s) (render_html_block-Grows n s)
render_type-Renders arena n NodeType.heading entering s near ok =
    Renders-go_on s _ (render_heading-Yields arena n entering s near)
render_type-Renders arena n NodeType.horizontal_rule entering s near ok =
    Renders-some s (render_horizontal_rule s) (render_horizontal_rule-Grows s)
render_type-Renders arena n NodeType.list entering s near ok =
    Renders-go_on s _ (render_list-Yields arena n entering s near)
render_type-Renders arena n NodeType.item entering s near ok =
    Renders-go_on s _ (render_item-Yields arena n entering s near)
render_type-Renders arena n NodeType.code_block entering s near ok =
    Renders-go_on s _ (render_code_block-Yields arena n s near)
render_type-Renders arena n NodeType.table entering s near ok =
    Renders-some s (render_framed (codes "<table>") (codes "</table>") entering s)
      (render_framed-Grows (codes "<table>") (codes "</table>") entering s)
render_type-Renders arena n NodeType.table_cell entering s near ok =
    Renders-some s (render_table_cell n entering s) (render_table_cell-Grows n entering s)
render_type-Renders arena n NodeType.table_head entering s near ok =
    Renders-some s (render_framed (codes "<thead>") (codes "</thead>") entering s)
      (render_framed-Grows (codes "<thead>") (codes "</thead>") entering s)
render_type-Renders arena n NodeType.table_body entering s near ok =
    Renders-some s (render_table_body n entering s) (render_table_body-Grows n entering s)
render_type-Renders arena n NodeType.table_row entering s near ok =
    Renders-some s (render_framed (codes "<tr>") (codes "</tr>") entering s)
      (render_framed-Grows (codes "<tr>") (codes "</tr>") entering s)
render_type-Renders arena n NodeType.image entering s near ok = render_image-Renders n entering s

-- In an arena whose links agree, at a node that is there and, if it is a link, has a destination,
-- `render_node` gives a result: no index, slice or lookup of it or of what it calls fails. What is
-- written stands behind what was there, the parameters stay, only an image changes `disable_tags`, by
-- one up when it is entered and by one down when it is left, and the walk goes on to the next node,
-- past the children only of an image that is skipped.
pub render_node-Renders :
    (arena : Arena) (id : NodeId) (entering : Bool) (s : Sink)
    → IsLinked arena
    → id < length arena
    → HasDestination (at arena id)
    → (s' : Sink) × (render_node arena id entering s
        ≡ some (status s.renderer.params.flags (at arena id).node_type, s'))
      × GrowsTo (depth s (at arena id).node_type entering) s s'
unfolding render_node
render_node-Renders arena id entering s linked there ok =
    let (s', e, g) =
      render_type-Renders arena (at arena id) (at arena id).node_type entering s
        (IsLinked-IsNear arena id linked) ok in
    (s', bind-at _ (get-at arena id there) ∙ e, g)
