-- ===== src/Html/Render/BlockWrites.antt =====
-- src/html.rs, `render_node`: the block nodes are written without a panic, behind what stands there.
use blackfriday_2_rust.Base.{
  ◌≡◌, refl, ◌∙◌, Bool, true, false, not, ◌&&◌, ◌||◌, Option, none, some, List, [], ◌∷◌, ◌++◌, inl,
  inr, Bool-cases, ◌==◌, if◌then◌else◌, if-true, if-false, bind-at, Bytes, codes, length, pos, ◌+ℤ◌,
}
use blackfriday_2_rust.NodeType.{NodeType}
use blackfriday_2_rust.Node.{NodeId, Node, Arena}
use blackfriday_2_rust.Node.Links.{at, get-at, Within}
use blackfriday_2_rust.Esc.{escape_all_html}
use blackfriday_2_rust.Util.Slug.{slugify-IsTrimmed}
use blackfriday_2_rust.Html.{Sink, tag, out, cr}
use blackfriday_2_rust.Html.Grows.{
  Grows, Grows-refl, Grows-then, out-Grows, tag-Grows, cr-Grows, if-Grows, Yields, Yields-some,
  Yields-bind, Yields-after,
}
use blackfriday_2_rust.Html.Ids.Unique.{ensure_unique-new}
use blackfriday_2_rust.Html.Nodes.{
  is_type, is_none, or_false, cell_alignment, append_language_attr, footnote_item,
  footnote_return_link, item_open_cr, skip_paragraph_tags, heading_tags_from_level,
}
use blackfriday_2_rust.Html.Render.Writes.{
  escape_all_html-Appends, escaped-Yields, is_some_and-some, Yields-ask, Yields-if,
}
use blackfriday_2_rust.Html.Render.Blocks.{
  cr_if, out_hr_tag, sets_apart, ends_item, open_paragraph, render_paragraph, render_framed,
  render_html_block, heading_attrs, render_heading, render_horizontal_rule, list_tags,
  in_tight_item, open_list, close_list, render_list, item_tags, out_item_tag, open_item,
  out_return_link, render_item, render_code_block, render_table_cell, render_table_body,
}

pub cr_if-Grows : (c : Bool) (s : Sink) → Grows s (cr_if c s)
unfolding cr_if
cr_if-Grows c s = if-Grows c s (cr s) s (cr-Grows s) (Grows-refl s)

-- One more piece of output, behind what has grown already.
pub then_out : (text : Bytes) (s t : Sink) → Grows s t → Grows s (out text t)
then_out text s t g = Grows-then s t (out text t) g (out-Grows text t)

pub then_cr : (s t : Sink) → Grows s t → Grows s (cr t)
then_cr s t g = Grows-then s t (cr t) g (cr-Grows t)

pub then_cr_if : (c : Bool) (s t : Sink) → Grows s t → Grows s (cr_if c t)
then_cr_if c s t g = Grows-then s t (cr_if c t) g (cr_if-Grows c t)

pub then_tag :
    (name : Bytes) (attrs : List Bytes) (s t : Sink) → Grows s t → Grows s (tag name attrs t)
then_tag name attrs s t g = Grows-then s t (tag name attrs t) g (tag-Grows name attrs t)

pub out_hr_tag-Grows : (s : Sink) → Grows s (out_hr_tag s)
unfolding out_hr_tag
out_hr_tag-Grows s =
    if-Grows _ s (out (codes "<hr />") s) (out (codes "<hr>") s) (out-Grows (codes "<hr />") s)
      (out-Grows (codes "<hr>") s)

-- The nodes that the renderer asks of a node's neighbours are there.
abbrev pub IsNear : Arena → Node → Type 0
IsNear arena n =
    Within n.parent arena
    × Within n.prev arena
    × ((p : NodeId) → n.parent ≡ some p → Within (at arena p).parent arena)

ends_item-some :
    (arena : Arena) (n : Node) → IsNear arena n → (b : Bool) × (ends_item arena n ≡ some b)
ends_item-some arena n near =
    let (b, e) = is_some_and-some arena n.parent (λ p. is_type p.node_type NodeType.item) near.0 in
    (b && is_none n.next, bind-at _ e)

open_paragraph-Yields :
    (arena : Arena) (n : Node) (s : Sink) → IsNear arena n → Yields s (open_paragraph arena n s)
unfolding open_paragraph
open_paragraph-Yields arena n s near =
    let (a, e) = is_some_and-some arena n.prev (λ p. sets_apart p.node_type) near.1 in
    let (q, f) =
      is_some_and-some arena n.parent (λ p. is_type p.node_type NodeType.block_quote) near.0 in
    let t = cr_if (q && is_none n.prev) (cr_if a s) in
    (
      out (codes "<p>") t,
      bind-at _ e ∙ bind-at _ f,
      then_out (codes "<p>") s t (then_cr_if (q && is_none n.prev) s (cr_if a s) (cr_if-Grows a s)),
    )

-- A question to the parent that it may pass to its own.
or_false-some :
    (arena : Arena) (o : Option NodeId) (f : Node → Option Bool)
    → Within o arena
    → ((p : NodeId) → o ≡ some p → (b : Bool) × (f (at arena p) ≡ some b))
    → (b : Bool) × (or_false arena o f ≡ some b)
or_false-some arena none f w h = (false, refl)
or_false-some arena (some p) f w h = let (b, e) = h p refl in (b, bind-at f (get-at arena p w) ∙ e)

skip_paragraph_tags-some :
    (arena : Arena) (n : Node)
    → IsNear arena n
    → (b : Bool) × (skip_paragraph_tags arena n ≡ some b)
unfolding skip_paragraph_tags
skip_paragraph_tags-some arena n near =
    or_false-some arena n.parent _ near.0 (λ p e. is_some_and-some arena _ _ (near.2 p e))

pub render_paragraph-Yields :
    (arena : Arena) (n : Node) (entering : Bool) (s : Sink)
    → IsNear arena n
    → Yields s (render_paragraph arena n entering s)
unfolding render_paragraph
render_paragraph-Yields arena n entering s near =
    Yields-ask s (skip_paragraph_tags arena n) _ (skip_paragraph_tags-some arena n near) (λ skip.
      Yields-if skip s _ _ (Yields-some s s (Grows-refl s)) (
        Yields-if entering s _ _ (open_paragraph-Yields arena n s near) (
          Yields-ask s (ends_item arena n) _ (ends_item-some arena n near) (λ ends.
            Yields-some s (cr_if (not ends) (out (codes "</p>") s))
              (then_cr_if (not ends) s (out (codes "</p>") s) (out-Grows (codes "</p>") s))))))

pub render_framed-Grows :
    (opening closing : Bytes) (entering : Bool) (s : Sink)
    → Grows s (render_framed opening closing entering s)
unfolding render_framed
render_framed-Grows opening closing entering s =
    if-Grows entering s (out opening (cr s)) (cr (out closing s))
      (then_out opening s (cr s) (cr-Grows s)) (then_cr s (out closing s) (out-Grows closing s))

pub render_html_block-Grows : (n : Node) (s : Sink) → Grows s (render_html_block n s)
unfolding render_html_block
render_html_block-Grows n s =
    if-Grows _ s s (cr (out n.literal (cr s))) (Grows-refl s)
      (then_cr s (out n.literal (cr s)) (then_out n.literal s (cr s) (cr-Grows s)))

pub render_horizontal_rule-Grows : (s : Sink) → Grows s (render_horizontal_rule s)
unfolding render_horizontal_rule
render_horizontal_rule-Grows s =
    then_cr s (out_hr_tag (cr s))
      (Grows-then s (cr s) (out_hr_tag (cr s)) (cr-Grows s) (out_hr_tag-Grows (cr s)))

heading_attrs-some :
    (n : Node) (s : Sink)
    → (attrs : List Bytes) × (t : Sink) × (heading_attrs n s ≡ some (attrs, t)) × Grows s t
unfolding heading_attrs
heading_attrs-some n s =
    let (m, id, e, new, first, kept) =
      ensure_unique-new s.renderer.heading_ids n.heading.heading_id in
    elim (Bool-cases (length n.heading.heading_id == 0)) [
      | inl empty ↦ (_, s, if-true _ empty, Grows-refl s)
      | inr full ↦ (
        _,
        record s { renderer = record s.renderer { heading_ids = m } },
        if-false _ full ∙ bind-at _ e,
        ((Grows-refl s).0, refl, refl),
      )
    ]

pub render_heading-Yields :
    (arena : Arena) (n : Node) (entering : Bool) (s : Sink)
    → IsNear arena n
    → Yields s (render_heading arena n entering s)
unfolding render_heading
render_heading-Yields arena n entering s near =
    let tags =
      heading_tags_from_level (s.renderer.params.heading_level_offset +ℤ pos n.heading.level) in
    let (attrs, t, e, g) = heading_attrs-some n s in
    Yields-if entering s _ _
      (tag tags.0 attrs (cr t), bind-at _ e, then_tag tags.0 attrs s (cr t) (then_cr s t g))
      (Yields-ask s (ends_item arena n) _ (ends_item-some arena n near) (λ ends.
        Yields-some s (cr_if (not ends) (out tags.1 s))
          (then_cr_if (not ends) s (out tags.1 s) (out-Grows tags.1 s))))

if-some :
    (c : Bool) (o : Option Bool)
    → ((b : Bool) × (o ≡ some b))
    → (b : Bool) × ((if c then o else some false) ≡ some b)
if-some true o h = h
if-some false o h = (false, refl)

in_tight_item-some :
    (arena : Arena) (n : Node) → IsNear arena n → (b : Bool) × (in_tight_item arena n ≡ some b)
unfolding in_tight_item
in_tight_item-some arena n near =
    or_false-some arena n.parent _ near.0
      (λ p e. if-some _ _ (is_some_and-some arena _ _ (near.2 p e)))

open_list-Yields :
    (arena : Arena) (n : Node) (s : Sink) → IsNear arena n → Yields s (open_list arena n s)
unfolding open_list
open_list-Yields arena n s near =
    let (b, e) = in_tight_item-some arena n near in
    let div = codes "\n<div class=\"footnotes\">\n\n" in
    let rule = out_hr_tag (out div s) in
    let s' = if n.list.is_footnotes_list then cr rule else s in
    let g =
      if-Grows n.list.is_footnotes_list s (cr rule) s
        (then_cr s rule
          (Grows-then s (out div s) rule (out-Grows div s) (out_hr_tag-Grows (out div s))))
        (Grows-refl s) in
    let t = cr_if b (cr s') in
    let opening = (list_tags n.list.list_flags).0 in
    (
      cr (tag opening [] t),
      bind-at _ e,
      then_cr s (tag opening [] t)
          (then_tag opening [] s t (then_cr_if b s (cr s') (then_cr s s' g))),
    )

close_list-Yields :
    (arena : Arena) (n : Node) (s : Sink) → IsNear arena n → Yields s (close_list arena n s)
unfolding close_list
close_list-Yields arena n s near =
    let (b, e) = is_some_and-some arena n.parent (λ p. is_type p.node_type NodeType.item) near.0 in
    let (c, f) =
      is_some_and-some arena n.parent
        (λ p. is_type p.node_type NodeType.document || is_type p.node_type NodeType.block_quote)
        near.0 in
    let tag = (list_tags n.list.list_flags).1 in
    let s₁ = cr_if (b && not (is_none n.next)) (out tag s) in
    let g =
      then_cr_if c s s₁ (then_cr_if (b && not (is_none n.next)) s (out tag s) (out-Grows tag s)) in
    (
      _,
      bind-at _ e ∙ bind-at _ f,
      if-Grows n.list.is_footnotes_list s _ (cr_if c s₁)
          (then_out (codes "\n</div>\n") s (cr_if c s₁) g) g,
    )

pub render_list-Yields :
    (arena : Arena) (n : Node) (entering : Bool) (s : Sink)
    → IsNear arena n
    → Yields s (render_list arena n entering s)
unfolding render_list
render_list-Yields arena n entering s near =
    Yields-if entering s _ _ (open_list-Yields arena n s near) (close_list-Yields arena n s near)

item_open_cr-some :
    (arena : Arena) (n : Node) → IsNear arena n → (b : Bool) × (item_open_cr arena n ≡ some b)
unfolding item_open_cr
item_open_cr-some arena n near = elim (Bool-cases (is_none n.prev)) [
  | inl first ↦ (false, if-true _ first)
  | inr behind ↦ let (b, e) = is_some_and-some arena n.parent _ near.0 in (b, if-false _ behind ∙ e)
]

out_item_tag-Yields :
    (prefix tag : Bytes) (o : Option Bytes) (s : Sink) → Yields s (out_item_tag prefix tag o s)
unfolding out_item_tag
out_item_tag-Yields prefix tag none s = Yields-some s (out tag s) (out-Grows tag s)
out_item_tag-Yields prefix tag (some ref_link) s =
    let (slug, e, trimmed, kept) = slugify-IsTrimmed ref_link in
    (out (footnote_item prefix slug) s, bind-at _ e, out-Grows (footnote_item prefix slug) s)

out_return_link-Yields : (o : Option Bytes) (s : Sink) → Yields s (out_return_link o s)
unfolding out_return_link
out_return_link-Yields none s = Yields-some s s (Grows-refl s)
out_return_link-Yields (some ref_link) s =
    let (slug, e, trimmed, kept) = slugify-IsTrimmed ref_link in
    let link =
      footnote_return_link s.renderer.params.footnote_anchor_prefix
        s.renderer.params.footnote_return_link_contents slug in
    Yields-if _ s _ (some s) (out link s, bind-at _ e, out-Grows link s)
      (Yields-some s s (Grows-refl s))

pub render_item-Yields :
    (arena : Arena) (n : Node) (entering : Bool) (s : Sink)
    → IsNear arena n
    → Yields s (render_item arena n entering s)
unfolding render_item open_item
render_item-Yields arena n entering s near =
    let closing = (item_tags n.list.list_flags).1 in
    Yields-if entering s _ _
      (Yields-ask s (item_open_cr arena n) _ (item_open_cr-some arena n near) (λ open_cr.
        Yields-after s (cr_if open_cr s) _ (cr_if-Grows open_cr s) (
          out_item_tag-Yields _ (item_tags n.list.list_flags).0 n.list.ref_link (cr_if open_cr s))))
      (Yields-bind s _ _ (out_return_link-Yields n.list.ref_link s) (λ t g.
        Yields-some t (cr (out closing t)) (then_cr t (out closing t) (out-Grows closing t))))

pub render_code_block-Yields :
    (arena : Arena) (n : Node) (s : Sink) → IsNear arena n → Yields s (render_code_block arena n s)
unfolding render_code_block
render_code_block-Yields arena n s near =
    let attrs = append_language_attr [] n.code_block.info in
    let s₁ = out (codes "<pre>") (cr s) in
    let s₂ = tag (codes "<code") attrs s₁ in
    Yields-after s s₂ _
      (then_tag (codes "<code") attrs s s₁ (then_out (codes "<pre>") s (cr s) (cr-Grows s)))
      (Yields-bind s₂ _ _ (escaped-Yields escape_all_html n.literal s₂ escape_all_html-Appends)
        (λ t g. Yields-ask t _ _ (is_some_and-some arena n.parent _ near.0) (λ in_item.
          let t' = out (codes "</pre>") (out (codes "</code>") t) in
          Yields-some t (cr_if (not in_item) t') (
            then_cr_if (not in_item) t t' (
              then_out (codes "</pre>") t (out (codes "</code>") t)
                (out-Grows (codes "</code>") t))))))

pub render_table_cell-Grows :
    (n : Node) (entering : Bool) (s : Sink) → Grows s (render_table_cell n entering s)
unfolding render_table_cell
render_table_cell-Grows n entering s =
    let align = cell_alignment n.table_cell.align in
    let attrs =
      if length align == 0 then [] else (codes "align=\"" ++ (align ++ codes "\"")) ∷ [] in
    let opening = if n.table_cell.is_header then codes "<th" else codes "<td" in
    let closing = if n.table_cell.is_header then codes "</th>" else codes "</td>" in
    if-Grows entering s _ _
      (then_tag opening attrs s (cr_if (is_none n.prev) s) (cr_if-Grows (is_none n.prev) s))
      (then_cr s (out closing s) (out-Grows closing s))

pub render_table_body-Grows :
    (n : Node) (entering : Bool) (s : Sink) → Grows s (render_table_body n entering s)
unfolding render_table_body
render_table_body-Grows n entering s =
    if-Grows entering s _ _
      (then_cr_if (is_none n.first_child) s (out (codes "<tbody>") (cr s))
        (then_out (codes "<tbody>") s (cr s) (cr-Grows s)))
      (then_cr s (out (codes "</tbody>") s) (out-Grows (codes "</tbody>") s))
