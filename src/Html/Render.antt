-- ===== src/Html/Render.antt =====
-- src/html.rs, `render_node`: a function per kind of node. `none` is a panic: a link between nodes
-- that is out of range, or an index or slice of a callee.
pub mod Inlines
pub mod Blocks
pub mod Writes
pub mod BlockWrites
pub mod Total
pub mod Panic
use blackfriday_2_rust.Base.{Bool, true, false, Option, none, some, codes, ◌>>=◌}
use blackfriday_2_rust.NodeType.{NodeType}
use blackfriday_2_rust.NodeType
use blackfriday_2_rust.Node.{NodeId, Node, Arena, get}
use blackfriday_2_rust.Node.Walker.{WalkStatus, go_to_next}
use blackfriday_2_rust.Html.{Sink, cr}
use blackfriday_2_rust.Html.Render.Inlines.{
  render_text, render_hardbreak, render_pair, render_html_span, render_link, render_image,
  render_code,
}
use blackfriday_2_rust.Html.Render.Blocks.{
  render_paragraph, render_block_quote, render_html_block, render_heading, render_horizontal_rule,
  render_list, render_item, render_code_block, render_framed, render_table_cell, render_table_body,
}

-- Every kind but an image goes on to the next node.
abbrev pub go_on : Option Sink → Option (WalkStatus × Sink)
go_on r = r >>= λ s. some (go_to_next, s)

-- The `match` on the kind of the node.
unfoldable pub render_type : Arena → Node → NodeType → Bool → Sink → Option (WalkStatus × Sink)
unfolding render_text render_hardbreak render_pair render_html_span render_link render_image
    render_code render_paragraph render_framed render_html_block render_heading
    render_horizontal_rule render_list render_item render_code_block render_table_cell
    render_table_body cr
render_type arena n NodeType.text entering s = go_on (render_text arena n s)
render_type arena n NodeType.softbreak entering s = some (go_to_next, cr s)
render_type arena n NodeType.hardbreak entering s = some (go_to_next, render_hardbreak s)
render_type arena n NodeType.emph entering s =
    some (go_to_next, render_pair (codes "<em>") (codes "</em>") entering s)
render_type arena n NodeType.strong entering s =
    some (go_to_next, render_pair (codes "<strong>") (codes "</strong>") entering s)
render_type arena n NodeType.del entering s =
    some (go_to_next, render_pair (codes "<del>") (codes "</del>") entering s)
render_type arena n NodeType.html_span entering s = some (go_to_next, render_html_span n s)
render_type arena n NodeType.link entering s = go_on (render_link n entering s)
render_type arena n NodeType.image entering s = render_image n entering s
render_type arena n NodeType.code entering s = go_on (render_code n s)
render_type arena n NodeType.document entering s = some (go_to_next, s)
render_type arena n NodeType.paragraph entering s = go_on (render_paragraph arena n entering s)
render_type arena n NodeType.block_quote entering s =
    some (go_to_next, render_block_quote entering s)
render_type arena n NodeType.html_block entering s = some (go_to_next, render_html_block n s)
render_type arena n NodeType.heading entering s = go_on (render_heading arena n entering s)
render_type arena n NodeType.horizontal_rule entering s =
    some (go_to_next, render_horizontal_rule s)
render_type arena n NodeType.list entering s = go_on (render_list arena n entering s)
render_type arena n NodeType.item entering s = go_on (render_item arena n entering s)
render_type arena n NodeType.code_block entering s = go_on (render_code_block arena n s)
render_type arena n NodeType.table entering s =
    some (go_to_next, render_framed (codes "<table>") (codes "</table>") entering s)
render_type arena n NodeType.table_cell entering s =
    some (go_to_next, render_table_cell n entering s)
render_type arena n NodeType.table_head entering s =
    some (go_to_next, render_framed (codes "<thead>") (codes "</thead>") entering s)
render_type arena n NodeType.table_body entering s =
    some (go_to_next, render_table_body n entering s)
render_type arena n NodeType.table_row entering s =
    some (go_to_next, render_framed (codes "<tr>") (codes "</tr>") entering s)

unfoldable pub render_node : Arena → NodeId → Bool → Sink → Option (WalkStatus × Sink)
unfolding render_type
render_node arena id entering s = get arena id >>= λ n. render_type arena n n.node_type entering s
