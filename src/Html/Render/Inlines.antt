-- ===== src/Html/Render/Inlines.antt =====
-- src/html.rs, `render_node`: the inline nodes.
use blackfriday_2_rust.Base.{
  Bool, Option, none, some, List, [], ◌∷◌, ◌++◌, ◌==◌, if◌then◌else◌, Bytes, codes, length, ℤ, pos,
  negsuc, eqb_ℤ, ◌+ℤ◌, ◌>>=◌,
}
use blackfriday_2_rust.Flags.{intersects, smartypants, use_xhtml, skip_html, skip_images}
use blackfriday_2_rust.NodeType.{NodeType}
use blackfriday_2_rust.Node.{Node, Arena}
use blackfriday_2_rust.Node.Walker.{WalkStatus, go_to_next, skip_children}
use blackfriday_2_rust.Esc.{escape_html, escape_all_html}
use blackfriday_2_rust.Esc.Link.{esc_link}
use blackfriday_2_rust.Smartypants.{process}
use blackfriday_2_rust.Html.{Sink, add_abs_prefix, tag, out, cr}
use blackfriday_2_rust.Html.Links.{need_skip_link, append_link_attrs}
use blackfriday_2_rust.Html.Nodes.{is_type, is_some_and, footnote_ref}

-- `escape(out, text)`, straight to the output: `last_output_len` stays.
unfoldable pub escaped : (Bytes → Bytes → Option Bytes) → Bytes → Sink → Option Sink
escaped escape text s = escape s.written text >>= λ w. some (record s { written = w })

-- `self.sr.process(out, text)`.
unfoldable pub smartened : Bytes → Sink → Option Sink
unfolding process
smartened text s = process s.renderer.sr s.written text >>= λ p.
    some (record { renderer = record s.renderer { sr = p.1 }; written = p.0 })

unfoldable pub render_text : Arena → Node → Sink → Option Sink
unfolding escaped smartened is_type intersects escape_html esc_link
render_text arena n s =
    if intersects s.renderer.params.flags smartypants
    then (escape_html [] n.literal >>= λ tmp. smartened tmp s)
    else (is_some_and arena n.parent (λ p. is_type p.node_type NodeType.link) >>= λ in_link.
        if in_link then escaped esc_link n.literal s else escaped escape_html n.literal s)

unfoldable pub render_hardbreak : Sink → Sink
unfolding out cr intersects
render_hardbreak s =
    cr (
      out (if intersects s.renderer.params.flags use_xhtml then codes "<br />" else codes "<br>") s)

-- A tag when the node is entered, another when it is left.
unfoldable pub render_pair : Bytes → Bytes → Bool → Sink → Sink
unfolding out
render_pair opening closing entering s = out (if entering then opening else closing) s

unfoldable pub render_html_span : Node → Sink → Sink
unfolding out intersects
render_html_span n s = if intersects s.renderer.params.flags skip_html then s else out n.literal s

-- `format!`-like quoting of an attribute's value that an escape writes.
abbrev pub attribute : (Bytes → Bytes → Option Bytes) → Bytes → Bytes → Option Bytes
attribute escape opening value = escape opening value >>= λ buf. some (buf ++ codes "\"")

-- The title's attribute, when there is a title that is not empty.
unfoldable pub push_title : Option Bytes → List Bytes → Option (List Bytes)
unfolding escape_html
push_title none attrs = some attrs
push_title (some title) attrs =
    if length title == 0
    then some attrs
    else (attribute escape_html (codes "title=\"") title >>= λ buf. some (attrs ++ buf ∷ []))

-- The tag of a link, or the anchor of a footnote, which names the destination without the prefix.
unfoldable pub out_link : Node → (dest href : Bytes) → Sink → Option Sink
unfolding footnote_ref append_link_attrs push_title out tag
out_link n dest href s =
    if n.link.note_id == 0
    then (append_link_attrs (href ∷ []) s.renderer.params.flags dest >>= λ attrs.
        push_title n.link.title attrs >>= λ attrs'. some (tag (codes "<a") attrs' s))
    else (footnote_ref s.renderer.params.footnote_anchor_prefix n.link.destination n.link.note_id
        >>= λ r. some (out r s))

-- A link that is linked, when it is entered.
unfoldable pub open_link : Node → Sink → Option Sink
unfolding add_abs_prefix esc_link out_link
open_link n s = add_abs_prefix s.renderer.params n.link.destination >>= λ dest.
    attribute esc_link (codes "href=\"") dest >>= λ href. out_link n dest href s

unfoldable pub render_link : Node → Bool → Sink → Option Sink
unfolding need_skip_link open_link out
render_link n entering s =
    if need_skip_link s.renderer.params.flags n.link.destination
    then some (out (if entering then codes "<tt>" else codes "</tt>") s)
    else if entering
    then open_link n s
    else if n.link.note_id == 0
    then some (out (codes "</a>") s)
    else some s

-- `disable_tags += d`.
abbrev pub disable_more : ℤ → Sink → Sink
disable_more d s = record s {
  renderer = record s.renderer { disable_tags = s.renderer.disable_tags +ℤ d };
}

-- What an image writes while tags are on, when it is entered.
unfoldable pub out_source : Bytes → Sink → Option Sink
unfolding escaped esc_link out
out_source dest s =
    if eqb_ℤ s.renderer.disable_tags (pos 0)
    then (escaped esc_link dest (out (codes "<img src=\"") s) >>= λ s'.
        some (out (codes "\" alt=\"") s'))
    else some s

unfoldable pub open_image : Node → Sink → Option Sink
unfolding add_abs_prefix out_source ◌+ℤ◌
open_image n s = add_abs_prefix s.renderer.params n.link.destination >>= λ dest.
    out_source dest s >>= λ s'. some (disable_more (pos 1) s')

unfoldable pub close_title : Option Bytes → Sink → Option Sink
unfolding escaped escape_html out
close_title none s = some s
close_title (some title) s = escaped escape_html title (out (codes "\" title=\"") s)

-- What it writes when it is left, while tags are on.
unfoldable pub out_alt_end : Option Bytes → Sink → Option Sink
unfolding close_title out
out_alt_end title s =
    if eqb_ℤ s.renderer.disable_tags (pos 0)
    then (close_title title s >>= λ s'. some (out (codes "\" />") s'))
    else some s

unfoldable pub close_image : Node → Sink → Option Sink
unfolding out_alt_end ◌+ℤ◌
close_image n s = out_alt_end n.link.title (disable_more (negsuc 0) s)

unfoldable pub render_image : Node → Bool → Sink → Option (WalkStatus × Sink)
unfolding open_image close_image intersects
render_image n entering s =
    if intersects s.renderer.params.flags skip_images
    then some (skip_children, s)
    else ((if entering then open_image n s else close_image n s) >>= λ s'. some (go_to_next, s'))

unfoldable pub render_code : Node → Sink → Option Sink
unfolding escaped escape_all_html out
render_code n s = escaped escape_all_html n.literal (out (codes "<code>") s) >>= λ s'.
    some (out (codes "</code>") s')
