-- ===== src/Html/Render/Panic.antt =====
-- src/html.rs, `render_node`: the one panic that a link can meet.
use blackfriday_2_rust.Base.{
  ◌≡◌, ◌≢◌, ◌↔◌, ◌⊎◌, refl, sym, ◌∙◌, Bool, true, false, Option, none, some, [], ◌∷◌, arith, inl,
  inr, bind-at, if-true, if-false, ◌==◌, if◌then◌else◌, Bytes, codes,
}
use blackfriday_2_rust.Node.{Node}
use blackfriday_2_rust.Esc.Link.{esc_link}
use blackfriday_2_rust.Html.{Sink, out, add_abs_prefix}
use blackfriday_2_rust.Html.Links.{need_skip_link, append_link_attrs, is_relative_link}
use blackfriday_2_rust.Html.Render.Inlines.{out_link, open_link, render_link}
use blackfriday_2_rust.Html.Render.Writes.{
  esc_link-Appends, attribute-some, footnote_ref-some, render_link-Yields,
}

abbrev pub Panics : Node → Bool → Sink → Type 0
Panics n entering s =
    (need_skip_link s.renderer.params.flags n.link.destination ≡ false)
    × (entering ≡ true)
    × (n.link.note_id == 0 ≡ true)
    × (n.link.destination ≡ [])

Bytes-cases : (d : Bytes) → (d ≡ []) ⊎ (d ≢ [])
Bytes-cases [] = inl refl
Bytes-cases (c ∷ cs) = inr (λ e. cc)

add_abs_prefix-nil :
    (n : Node) (s : Sink)
    → n.link.destination ≡ []
    → add_abs_prefix s.renderer.params n.link.destination ≡ some []
unfolding add_abs_prefix
add_abs_prefix-nil n s e = rw e (ground arith)

out_link-nil :
    (n : Node) (href : Bytes) (s : Sink) → n.link.note_id == 0 ≡ true → out_link n [] href s ≡ none
unfolding out_link append_link_attrs is_relative_link
out_link-nil n href s zero_id = rw zero_id refl

out_link-note :
    (n : Node) (href : Bytes) (s : Sink) → n.link.note_id == 0 ≡ false → out_link n [] href s ≢ none
unfolding out_link
out_link-note n href s noted e =
    let (r, f) =
      footnote_ref-some s.renderer.params.footnote_anchor_prefix n.link.destination
        n.link.note_id in
    let done : out_link n [] href s ≡ some (out r s) = if-false _ noted ∙ bind-at _ f in
    cc (done, e)

-- At an empty destination all is left to `out_link`.
open_link-out_link :
    (n : Node) (s : Sink)
    → n.link.destination ≡ []
    → (href : Bytes) × (open_link n s ≡ out_link n [] href s)
unfolding open_link
open_link-out_link n s empty =
    let (href, h) = attribute-some esc_link (codes "href=\"") [] esc_link-Appends in
    (href, bind-at _ (add_abs_prefix-nil n s empty) ∙ bind-at (λ href. out_link n [] href s) h)

panics_if :
    (skip entering zero_id : Bool) (n : Node) (a b c : Sink) (r : Option Sink)
    → (zero_id ≡ false → r ≢ none)
    → n.link.destination ≡ []
    → (if skip then some a else if entering then r else if zero_id then some b else some c) ≡ none
    → (skip ≡ false) × (entering ≡ true) × (zero_id ≡ true) × (n.link.destination ≡ [])
panics_if true entering zero_id n a b c r h empty e = cc
panics_if false true true n a b c r h empty e = (refl, refl, refl, empty)
panics_if false true false n a b c r h empty e = absurd (h refl e)
panics_if false false true n a b c r h empty e = cc
panics_if false false false n a b c r h empty e = cc

render_link-Panics :
    (n : Node) (entering : Bool) (s : Sink) → render_link n entering s ≡ none → Panics n entering s
unfolding render_link
render_link-Panics n entering s e = elim (Bytes-cases n.link.destination) [
  | inr full ↦ let (t, f, g) = render_link-Yields n entering s full in absurd (cc (f, e))
  | inl empty ↦
      let (href, o) = open_link-out_link n s empty in
      panics_if (need_skip_link s.renderer.params.flags n.link.destination) entering
        (n.link.note_id == 0) n _ _ _ (open_link n s)
        (λ noted f. out_link-note n href s noted (sym o ∙ f)) empty e
]

-- Rendering a link panics just when it is entered, is linked and not a footnote's, and its destination
-- is empty.
pub render_link-none :
    (n : Node) (entering : Bool) (s : Sink)
    → (render_link n entering s ≡ none) ↔ (
        (need_skip_link s.renderer.params.flags n.link.destination ≡ false)
        × (entering ≡ true)
        × (n.link.note_id == 0 ≡ true)
        × (n.link.destination ≡ []))
unfolding render_link
render_link-none n entering s = (
  render_link-Panics n entering s,
  λ (linked, enters, id, empty).
      if-false _ linked
      ∙ if-true _ enters
      ∙ (let (href, o) = open_link-out_link n s empty in o ∙ out_link-nil n href s id),
)
