-- ===== src/Html/Render/Blocks.antt =====
-- src/html.rs, `render_node`: the block nodes.
use blackfriday_2_rust.Base.{
  Bool, false, not, ◌&&◌, ◌||◌, Option, none, some, List, [], ◌∷◌, ◌++◌, ◌==◌, if◌then◌else◌, Bytes,
  codes, length, pos, ◌+ℤ◌, ◌>>=◌,
}
use blackfriday_2_rust.Flags.{
  FlagSet, intersects, use_xhtml, skip_html, footnote_return_links, ordered, definition, term,
}
use blackfriday_2_rust.NodeType.{NodeType}
use blackfriday_2_rust.Node.{Node, Arena}
use blackfriday_2_rust.Util.{slugify}
use blackfriday_2_rust.Esc.{escape_all_html}
use blackfriday_2_rust.Html.{Sink, tag, out, cr}
use blackfriday_2_rust.Html.Ids.{ensure_unique_heading_id}
use blackfriday_2_rust.Html.Nodes.{
  is_type, is_none, is_some_and, or_false, append_language_attr, footnote_item,
  footnote_return_link, item_open_cr, skip_paragraph_tags, cell_alignment, heading_tags_from_level,
}
use blackfriday_2_rust.Html.Render.Inlines.{escaped}

-- `if c { self.cr(out) }`.
unfoldable pub cr_if : Bool → Sink → Sink
unfolding cr
cr_if c s = if c then cr s else s

unfoldable pub out_hr_tag : Sink → Sink
unfolding out intersects
out_hr_tag s =
    if intersects s.renderer.params.flags use_xhtml
    then out (codes "<hr />") s
    else out (codes "<hr>") s

-- The kinds of node a paragraph is set apart from.
unfoldable pub sets_apart : NodeType → Bool
unfolding is_type
sets_apart t =
    is_type t NodeType.html_block
    || is_type t NodeType.list
    || is_type t NodeType.paragraph
    || is_type t NodeType.heading
    || is_type t NodeType.code_block
    || is_type t NodeType.block_quote
    || is_type t NodeType.horizontal_rule

-- The parent is a node of that kind.
abbrev pub in_a : NodeType → Arena → Node → Option Bool
in_a t arena n = is_some_and arena n.parent (λ p. is_type p.node_type t)

-- The parent is a list item, and `n` its last child.
abbrev pub ends_item : Arena → Node → Option Bool
ends_item arena n = in_a NodeType.item arena n >>= λ b. some (b && is_none n.next)

unfoldable pub open_paragraph : Arena → Node → Sink → Option Sink
unfolding sets_apart is_type cr_if out
open_paragraph arena n s = do
  apart ← is_some_and arena n.prev (λ p. sets_apart p.node_type)
  quoted ← in_a NodeType.block_quote arena n
  some (out (codes "<p>") (cr_if (quoted && is_none n.prev) (cr_if apart s)))

unfoldable pub render_paragraph : Arena → Node → Bool → Sink → Option Sink
unfolding skip_paragraph_tags open_paragraph is_type cr_if out
render_paragraph arena n entering s = do
  skip ← skip_paragraph_tags arena n
  if skip
      then some s
      else if entering
      then open_paragraph arena n s
      else (ends_item arena n >>= λ ends. some (cr_if (not ends) (out (codes "</p>") s)))

-- A line break and a tag when the node is entered; a tag and a line break when it is left.
unfoldable pub render_framed : Bytes → Bytes → Bool → Sink → Sink
unfolding out cr
render_framed opening closing entering s =
    if entering then out opening (cr s) else cr (out closing s)

abbrev pub render_block_quote : Bool → Sink → Sink
render_block_quote = render_framed (codes "<blockquote>") (codes "</blockquote>")

unfoldable pub render_html_block : Node → Sink → Sink
unfolding out cr intersects
render_html_block n s =
    if intersects s.renderer.params.flags skip_html then s else cr (out n.literal (cr s))

-- `ensure_unique_heading_id` on the renderer, and the attribute that holds the id.
unfoldable pub heading_attrs : Node → Sink → Option (List Bytes × Sink)
unfolding ensure_unique_heading_id
heading_attrs n s =
    let titled = if n.heading.is_titleblock then codes "class=\"title\"" ∷ [] else [] in
    if length n.heading.heading_id == 0
    then some (titled, s)
    else (ensure_unique_heading_id s.renderer.heading_ids n.heading.heading_id >>= λ p. some (
      titled
          ++ (codes "id=\""
              ++ (s.renderer.params.heading_id_prefix
                  ++ (p.1 ++ (s.renderer.params.heading_id_suffix ++ codes "\""))))
            ∷ [],
      record s { renderer = record s.renderer { heading_ids = p.0 } },
    ))

unfoldable pub render_heading : Arena → Node → Bool → Sink → Option Sink
unfolding heading_attrs heading_tags_from_level is_type cr_if out tag cr ◌+ℤ◌
render_heading arena n entering s =
    let tags =
      heading_tags_from_level (s.renderer.params.heading_level_offset +ℤ pos n.heading.level) in
    if entering
    then (heading_attrs n s >>= λ p. some (tag tags.0 p.0 (cr p.1)))
    else (ends_item arena n >>= λ ends. some (cr_if (not ends) (out tags.1 s)))

unfoldable pub render_horizontal_rule : Sink → Sink
unfolding out_hr_tag cr
render_horizontal_rule s = cr (out_hr_tag (cr s))

-- The tags of a list: the first without its `>`, as `tag` takes it.
unfoldable pub list_tags : FlagSet → Bytes × Bytes
unfolding intersects
list_tags flags =
    if intersects flags definition
    then (codes "<dl", codes "</dl>")
    else if intersects flags ordered
    then (codes "<ol", codes "</ol>")
    else (codes "<ul", codes "</ul>")

-- The parent is an item of a tight list.
unfoldable pub in_tight_item : Arena → Node → Option Bool
unfolding is_type
in_tight_item arena n = or_false arena n.parent (λ p.
    if is_type p.node_type NodeType.item
    then is_some_and arena p.parent (λ gp. gp.list.tight)
    else some false)

unfoldable pub open_list : Arena → Node → Sink → Option Sink
unfolding in_tight_item list_tags out_hr_tag out tag cr cr_if
open_list arena n s =
    let s' =
      if n.list.is_footnotes_list
      then cr (out_hr_tag (out (codes "\n<div class=\"footnotes\">\n\n") s))
      else s in
    in_tight_item arena n >>= λ tight.
    some (cr (tag (list_tags n.list.list_flags).0 [] (cr_if tight (cr s'))))

unfoldable pub close_list : Arena → Node → Sink → Option Sink
unfolding is_type list_tags cr_if out
close_list arena n s = do
  in_item ← in_a NodeType.item arena n
  in_block ←
      is_some_and arena n.parent
        (λ p. is_type p.node_type NodeType.document || is_type p.node_type NodeType.block_quote)
  (let s' =
        cr_if in_block
          (cr_if (in_item && not (is_none n.next)) (out (list_tags n.list.list_flags).1 s)) in
      some (if n.list.is_footnotes_list then out (codes "\n</div>\n") s' else s'))

unfoldable pub render_list : Arena → Node → Bool → Sink → Option Sink
unfolding open_list close_list
render_list arena n entering s = if entering then open_list arena n s else close_list arena n s

unfoldable pub item_tags : FlagSet → Bytes × Bytes
unfolding intersects
item_tags flags =
    if intersects flags term
    then (codes "<dt>", codes "</dt>")
    else if intersects flags definition
    then (codes "<dd>", codes "</dd>")
    else (codes "<li>", codes "</li>")

-- The tag of an item: that of a footnote, or the list's own.
unfoldable pub out_item_tag : Bytes → Bytes → Option Bytes → Sink → Option Sink
unfolding footnote_item slugify out
out_item_tag prefix tag none s = some (out tag s)
out_item_tag prefix tag (some ref_link) s =
    slugify ref_link >>= λ slug. some (out (footnote_item prefix slug) s)

unfoldable pub open_item : Arena → Node → Sink → Option Sink
unfolding item_open_cr item_tags out_item_tag cr_if
open_item arena n s = item_open_cr arena n >>= λ open_cr.
    out_item_tag s.renderer.params.footnote_anchor_prefix (item_tags n.list.list_flags).0
      n.list.ref_link (cr_if open_cr s)

-- The return link of a footnote.
unfoldable pub out_return_link : Option Bytes → Sink → Option Sink
unfolding footnote_return_link slugify intersects out
out_return_link none s = some s
out_return_link (some ref_link) s =
    if intersects s.renderer.params.flags footnote_return_links
    then (slugify ref_link >>= λ slug. some (
        out
          (footnote_return_link s.renderer.params.footnote_anchor_prefix
            s.renderer.params.footnote_return_link_contents slug)
          s))
    else some s

unfoldable pub render_item : Arena → Node → Bool → Sink → Option Sink
unfolding open_item out_return_link item_tags out cr
render_item arena n entering s =
    if entering
    then open_item arena n s
    else (out_return_link n.list.ref_link s >>= λ s'.
        some (cr (out (item_tags n.list.list_flags).1 s')))

unfoldable pub render_code_block : Arena → Node → Sink → Option Sink
unfolding append_language_attr escaped escape_all_html is_type cr_if cr out tag
render_code_block arena n s = do
  s ←
      escaped escape_all_html n.literal (
        tag (codes "<code") (append_language_attr [] n.code_block.info)
          (out (codes "<pre>") (cr s)))
  in_item ← in_a NodeType.item arena n
  some (cr_if (not in_item) (out (codes "</pre>") (out (codes "</code>") s)))

unfoldable pub render_table_cell : Node → Bool → Sink → Sink
unfolding cell_alignment cr_if cr out tag
render_table_cell n entering s =
    let align = cell_alignment n.table_cell.align in
    if entering
    then tag (if n.table_cell.is_header then codes "<th" else codes "<td")
        (if length align == 0 then [] else (codes "align=\"" ++ (align ++ codes "\"")) ∷ [])
        (cr_if (is_none n.prev) s)
    else cr (out (if n.table_cell.is_header then codes "</th>" else codes "</td>") s)

unfoldable pub render_table_body : Node → Bool → Sink → Sink
unfolding cr_if cr out
render_table_body n entering s =
    if entering
    then cr_if (is_none n.first_child) (out (codes "<tbody>") (cr s))
    else cr (out (codes "</tbody>") s)
