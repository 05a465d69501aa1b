-- ===== src/Html/Render/Writes.antt =====
-- src/html.rs, `render_node`: the inline nodes are written without a panic, behind what stands there.
use blackfriday_2_rust.Base.{
  ◌≡◌, ◌≢◌, refl, ap, ◌∙◌, Bool, true, false, Option, none, some, List, [], ◌∷◌, ◌++◌, arith, inl,
  inr, Bool-cases, ◌==◌, if◌then◌else◌, if-true, if-false, bind-at, Bytes, codes, length, ℕ, zero,
  ℤ, pos, negsuc, eqb_ℤ, ◌+ℤ◌, ◌>>=◌,
}
use blackfriday_2_rust.Flags.{FlagSet, intersects, smartypants, use_xhtml}
use blackfriday_2_rust.NodeType.{NodeType}
use blackfriday_2_rust.Node.{NodeId, Node, Arena}
use blackfriday_2_rust.Node.Links.{at, get-at, Within}
use blackfriday_2_rust.Esc.{escape_html, escape_all_html}
use blackfriday_2_rust.Esc.Refine.{escape_entities-escaped}
use blackfriday_2_rust.Esc.Link.{esc_link}
use blackfriday_2_rust.Unescape.Ends.{unescaped, unescape_string-unescaped}
use blackfriday_2_rust.Smartypants.Process.{process-processed}
use blackfriday_2_rust.Util.Slug.{slugify-IsTrimmed}
use blackfriday_2_rust.Html.{HtmlRendererParameters, Sink, add_abs_prefix, tag, out, cr}
use blackfriday_2_rust.Html.Grows.{
  YieldsTo, Grows, Grows-refl, Grows-then, out-Grows, tag-Grows, cr-Grows, if-Grows, Yields,
  Yields-some, Yields-bind, Yields-after,
}
use blackfriday_2_rust.Html.Links.{is_relative_link, append_link_attrs}
use blackfriday_2_rust.Html.Nodes.{is_type, is_some_and, footnote_ref}
use blackfriday_2_rust.Html.Render.Inlines.{
  escaped, smartened, render_text, render_hardbreak, render_pair, render_html_span, push_title,
  attribute, out_link, open_link, render_link, out_source, open_image, close_title, out_alt_end,
  close_image, disable_more, render_code,
}

-- An escape that always gives a result, behind what stands there.
abbrev pub Appends : (Bytes → Bytes → Option Bytes) → Type 0
Appends escape = (w text : Bytes) → (t : Bytes) × (escape w text ≡ some (w ++ t))

pub escape_html-Appends : Appends escape_html
unfolding escape_html
escape_html-Appends w text = (_, escape_entities-escaped w text false)

pub escape_all_html-Appends : Appends escape_all_html
unfolding escape_all_html
escape_all_html-Appends w text = (_, escape_entities-escaped w text true)

pub esc_link-Appends : Appends esc_link
unfolding esc_link
esc_link-Appends w text = (
  _,
  bind-at (escape_html w) (unescape_string-unescaped text)
      ∙ (escape_html-Appends w (unescaped zero text)).1,
)

pub escaped-Yields :
    (escape : Bytes → Bytes → Option Bytes) (text : Bytes) (s : Sink)
    → Appends escape
    → Yields s (escaped escape text s)
unfolding escaped
escaped-Yields escape text s appends =
    let (t, e) = appends s.written text in
    (record s { written = s.written ++ t }, bind-at _ e, ((t, refl), refl, refl))

pub smartened-Yields : (text : Bytes) (s : Sink) → Yields s (smartened text s)
unfolding smartened
smartened-Yields text s =
    (_, bind-at _ (process-processed s.renderer.sr s.written text), ((_, refl), refl, refl))

-- The neighbour that a link names is there.
pub is_some_and-some :
    (arena : Arena) (o : Option NodeId) (f : Node → Bool)
    → Within o arena
    → (b : Bool) × (is_some_and arena o f ≡ some b)
is_some_and-some arena none f w = (false, refl)
is_some_and-some arena (some i) f w = (f (at arena i), bind-at _ (get-at arena i w))

-- `if` on the answer of a neighbour.
pub Yields-ask :
    (s : Sink) (ask : Option Bool) (f : Bool → Option Sink)
    → ((b : Bool) × (ask ≡ some b))
    → ((b : Bool) → Yields s (f b))
    → Yields s (ask >>= f)
Yields-ask s ask f (b, e) h = let (t, e', g) = h b in (t, bind-at f e ∙ e', g)

pub Yields-if :
    (c : Bool) (s : Sink) (a b : Option Sink)
    → Yields s a
    → Yields s b
    → Yields s (if c then a else b)
Yields-if true s a b g h = g
Yields-if false s a b g h = h

pub render_text-Yields :
    (arena : Arena) (n : Node) (s : Sink) → Within n.parent arena → Yields s (render_text arena n s)
unfolding render_text
render_text-Yields arena n s w =
    Yields-if (intersects s.renderer.params.flags smartypants) s
      (escape_html [] n.literal >>= λ tmp. smartened tmp s) _
      (let (t, e) = escape_html-Appends [] n.literal in
        let (s', e', g) = smartened-Yields t s in (s', bind-at _ e ∙ e', g))
      (Yields-ask s _ _ (is_some_and-some arena n.parent (λ p. is_type p.node_type NodeType.link) w)
        (λ b.
          Yields-if b s _ _ (escaped-Yields esc_link n.literal s esc_link-Appends)
            (escaped-Yields escape_html n.literal s escape_html-Appends)))

pub render_code-Yields : (n : Node) (s : Sink) → Yields s (render_code n s)
unfolding render_code
render_code-Yields n s = Yields-after s (out (codes "<code>") s) _ (out-Grows (codes "<code>") s) (
    Yields-bind (out (codes "<code>") s) _ _
      (escaped-Yields escape_all_html n.literal (out (codes "<code>") s) escape_all_html-Appends)
      (λ t g. Yields-some t (out (codes "</code>") t) (out-Grows (codes "</code>") t)))

behind-ne_nil : (xs ys : Bytes) (c : ℕ) (cs : Bytes) → xs ++ (ys ++ c ∷ cs) ≢ []
behind-ne_nil [] [] c cs e = cc
behind-ne_nil [] (y ∷ ys) c cs e = cc
behind-ne_nil (x ∷ xs) ys c cs e = cc

prefixed-some :
    (a b : Bool) (prefix slash : Bytes) (c : ℕ) (cs : Bytes)
    → (d : Bytes) × ((if a
          then some (c ∷ cs)
          else some (if b then prefix ++ (slash ++ c ∷ cs) else c ∷ cs))
        ≡ some d)
      × (d ≢ [])
prefixed-some true b prefix slash c cs = (c ∷ cs, refl, λ e. cc)
prefixed-some false true prefix slash c cs = (_, refl, behind-ne_nil prefix slash c cs)
prefixed-some false false prefix slash c cs = (c ∷ cs, refl, λ e. cc)

pub add_abs_prefix-some :
    (params : HtmlRendererParameters) (text : Bytes)
    → (d : Bytes) × (add_abs_prefix params text ≡ some d) × (text ≢ [] → d ≢ [])
unfolding add_abs_prefix is_relative_link
add_abs_prefix-some params [] = ([], ground arith, λ h. h)
add_abs_prefix-some params (c ∷ cs) =
    let (d, e, full) = prefixed-some _ _ params.absolute_prefix _ c cs in (d, e, λ h. full)

append_link_attrs-some :
    (attrs : List Bytes) (flags : FlagSet) (link : Bytes)
    → link ≢ []
    → (r : List Bytes) × (append_link_attrs attrs flags link ≡ some r)
unfolding append_link_attrs is_relative_link
append_link_attrs-some attrs flags [] h = absurd (h refl)
append_link_attrs-some attrs flags (c ∷ cs) h = (_, refl)

pub attribute-some :
    (escape : Bytes → Bytes → Option Bytes) (opening value : Bytes)
    → Appends escape
    → (r : Bytes) × (attribute escape opening value ≡ some r)
attribute-some escape opening value appends = (_, bind-at _ (appends opening value).1)

push_title-some :
    (title : Option Bytes) (attrs : List Bytes)
    → (r : List Bytes) × (push_title title attrs ≡ some r)
unfolding push_title
push_title-some none attrs = (attrs, refl)
push_title-some (some title) attrs = elim (Bool-cases (length title == 0)) [
  | inl e ↦ (attrs, if-true _ e)
  | inr e ↦ (
    _,
    if-false _ e
        ∙ bind-at _ (attribute-some escape_html (codes "title=\"") title escape_html-Appends).1,
  )
]

pub footnote_ref-some :
    (prefix destination : Bytes) (note_id : ℕ)
    → (r : Bytes) × (footnote_ref prefix destination note_id ≡ some r)
unfolding footnote_ref
footnote_ref-some prefix destination note_id = (_, bind-at _ (slugify-IsTrimmed destination).1)

out_link-Yields :
    (n : Node) (dest href : Bytes) (s : Sink) → dest ≢ [] → Yields s (out_link n dest href s)
unfolding out_link
out_link-Yields n dest href s full =
    let (attrs, a) = append_link_attrs-some (href ∷ []) s.renderer.params.flags dest full in
    let (attrs', t) = push_title-some n.link.title attrs in
    let (r, f) =
      footnote_ref-some s.renderer.params.footnote_anchor_prefix n.link.destination
        n.link.note_id in
    Yields-if (n.link.note_id == 0) s _ _
      (tag (codes "<a") attrs' s, bind-at _ a ∙ bind-at _ t, tag-Grows (codes "<a") attrs' s)
      (out r s, bind-at _ f, out-Grows r s)

open_link-Yields : (n : Node) (s : Sink) → n.link.destination ≢ [] → Yields s (open_link n s)
unfolding open_link
open_link-Yields n s full =
    let (dest, d, some_dest) = add_abs_prefix-some s.renderer.params n.link.destination in
    let (href, h) = attribute-some esc_link (codes "href=\"") dest esc_link-Appends in
    let (t, e, g) = out_link-Yields n dest href s (some_dest full) in
    (t, bind-at _ d ∙ bind-at _ h ∙ e, g)

-- A link is written without a panic if its destination is not empty.
pub render_link-Yields :
    (n : Node) (entering : Bool) (s : Sink)
    → n.link.destination ≢ []
    → Yields s (render_link n entering s)
unfolding render_link
render_link-Yields n entering s full =
    let closed = out (if entering then codes "<tt>" else codes "</tt>") s in
    Yields-if _ s (some closed) _
      (Yields-some s closed (out-Grows (if entering then codes "<tt>" else codes "</tt>") s))
      (Yields-if entering s _ _ (open_link-Yields n s full) (
        Yields-if _ s (some (out (codes "</a>") s)) _
          (Yields-some s (out (codes "</a>") s) (out-Grows (codes "</a>") s))
          (Yields-some s s (Grows-refl s))))

-- What an image adds to `disable_tags`.
abbrev pub image_depth : Bool → ℤ
image_depth entering = if entering then pos 1 else negsuc 0

out_source-Yields : (dest : Bytes) (s : Sink) → Yields s (out_source dest s)
unfolding out_source
out_source-Yields dest s =
    let s' = out (codes "<img src=\"") s in
    Yields-if (eqb_ℤ s.renderer.disable_tags (pos 0)) s _ (some s)
      (Yields-after s s' _ (out-Grows (codes "<img src=\"") s) (
        Yields-bind s' _ _ (escaped-Yields esc_link dest s' esc_link-Appends)
          (λ t g. Yields-some t (out (codes "\" alt=\"") t) (out-Grows (codes "\" alt=\"") t))))
      (Yields-some s s (Grows-refl s))

open_image-Yields :
    (n : Node) (s : Sink) → YieldsTo (s.renderer.disable_tags +ℤ pos 1) s (open_image n s)
unfolding open_image
open_image-Yields n s =
    let (dest, d, full) = add_abs_prefix-some s.renderer.params n.link.destination in
    let (t, e, g) = out_source-Yields dest s in
    (disable_more (pos 1) t, bind-at _ d ∙ bind-at _ e, (g.0, g.1, ap (λ d. d +ℤ pos 1) g.2))

close_title-Yields : (title : Option Bytes) (s : Sink) → Yields s (close_title title s)
unfolding close_title
close_title-Yields none s = Yields-some s s (Grows-refl s)
close_title-Yields (some title) s =
    Yields-after s (out (codes "\" title=\"") s) _ (out-Grows (codes "\" title=\"") s)
      (escaped-Yields escape_html title (out (codes "\" title=\"") s) escape_html-Appends)

out_alt_end-Yields : (title : Option Bytes) (s : Sink) → Yields s (out_alt_end title s)
unfolding out_alt_end
out_alt_end-Yields title s =
    Yields-if (eqb_ℤ s.renderer.disable_tags (pos 0)) s _ (some s)
      (Yields-bind s _ _ (close_title-Yields title s)
        (λ t g. Yields-some t (out (codes "\" />") t) (out-Grows (codes "\" />") t)))
      (Yields-some s s (Grows-refl s))

close_image-Yields :
    (n : Node) (s : Sink) → YieldsTo (s.renderer.disable_tags +ℤ negsuc 0) s (close_image n s)
unfolding close_image
close_image-Yields n s = out_alt_end-Yields n.link.title (disable_more (negsuc 0) s)

-- An image changes `disable_tags` by one, up and then down.
pub image-Yields :
    (n : Node) (entering : Bool) (s : Sink)
    → YieldsTo
        (s.renderer.disable_tags +ℤ image_depth entering)
        s
        (if entering then open_image n s else close_image n s)
image-Yields n true s = open_image-Yields n s
image-Yields n false s = close_image-Yields n s

pub render_hardbreak-Grows : (s : Sink) → Grows s (render_hardbreak s)
unfolding render_hardbreak
render_hardbreak-Grows s =
    let text =
      if intersects s.renderer.params.flags use_xhtml then codes "<br />" else codes "<br>" in
    Grows-then s (out text s) (cr (out text s)) (out-Grows text s) (cr-Grows (out text s))

pub render_pair-Grows :
    (opening closing : Bytes) (entering : Bool) (s : Sink)
    → Grows s (render_pair opening closing entering s)
unfolding render_pair
render_pair-Grows opening closing entering s = out-Grows (if entering then opening else closing) s

pub render_html_span-Grows : (n : Node) (s : Sink) → Grows s (render_html_span n s)
unfolding render_html_span
render_html_span-Grows n s = if-Grows _ s s (out n.literal s) (Grows-refl s) (out-Grows n.literal s)
