-- ===== src/Html.antt =====
-- src/html.rs: the renderer's parameters and state, and its three ways to write.
pub mod Strip
pub mod Links
pub mod Ids
pub mod Nodes
pub mod Render
pub mod Document
pub mod Grows
pub mod Walked
pub mod Page
pub mod TagName
use blackfriday_2_rust.Base.{
  ℕ, zero, suc, ◌+◌, Bool, true, false, not, ◌&&◌, ◌||◌, Option, none, some, List, [], ◌∷◌, ◌++◌,
  ◌==◌, ltb, leb, if◌then◌else◌, Bytes, codes, length, get_or, drop, starts_with, ℤ, pos, ltb_ℤ,
  ◌>>=◌,
}
use blackfriday_2_rust.Flags.{FlagSet, intersects, use_xhtml}
use blackfriday_2_rust.Smartypants.{SpRenderer}
use blackfriday_2_rust.Smartypants
use blackfriday_2_rust.Html.Strip.{html_tag_prefix_len}
use blackfriday_2_rust.Html.Links.{is_relative_link, join}
use blackfriday_2_rust.Html.Ids.{HeadingIds}

-- A `String` is its bytes in UTF-8.
pub record HtmlRendererParameters : Type 0 where
  pub absolute_prefix : Bytes
  pub footnote_anchor_prefix : Bytes
  pub footnote_return_link_contents : Bytes
  pub heading_id_prefix : Bytes
  pub heading_id_suffix : Bytes
  pub heading_level_offset : ℤ
  pub title : Bytes
  pub css : Bytes
  pub icon : Bytes
  pub flags : FlagSet

pub record HtmlRenderer : Type 0 where
  pub params : HtmlRendererParameters
  pub close_tag : Bytes
  pub heading_ids : HeadingIds
  pub last_output_len : ℕ
  pub disable_tags : ℤ
  pub sr : SpRenderer

-- `HtmlRenderer::new`.
unfoldable pub new : HtmlRendererParameters → HtmlRenderer
unfolding intersects Smartypants.new
new params = record {
  params =
      if length params.footnote_return_link_contents == 0
      then record params {
        footnote_return_link_contents =
            codes "<span aria-label='Return'>"
            ++ (0xe2 ∷ 0x86 ∷ 0xa9 ∷ 0xef ∷ 0xb8 ∷ 0x8e ∷ codes "</span>");
      }
      else params;
  close_tag = if intersects params.flags use_xhtml then codes " />" else codes ">";
  heading_ids = [];
  last_output_len = 0;
  disable_tags = pos 0;
  sr = Smartypants.new params.flags;
}

unfoldable pub add_abs_prefix : HtmlRendererParameters → Bytes → Option Bytes
unfolding is_relative_link
add_abs_prefix params text =
    if length params.absolute_prefix == 0 || length text == 0
    then some text
    else (is_relative_link text >>= λ relative.
        (let slash = if get_or text 0 0 == b'/' then [] else codes "/" in
          some (
            if relative && not (get_or text 0 0 == b'.')
            then params.absolute_prefix ++ (slash ++ text)
            else text)))

-- The renderer, and what is written to `out` so far.
pub record Sink : Type 0 where
  pub renderer : HtmlRenderer
  pub written : Bytes

-- `out.extend_from_slice(text)`.
abbrev pub write : Bytes → Sink → Sink
write text s = record s { written = s.written ++ text }

abbrev pub note_len : ℕ → Sink → Sink
note_len n s = record s { renderer = record s.renderer { last_output_len = n } }

-- `HtmlRenderer::tag`.
unfoldable pub tag : Bytes → List Bytes → Sink → Sink
unfolding join
tag name attrs s =
    let text = if length attrs == 0 then [] else b' ' ∷ join (codes " ") attrs in
    note_len 1 (write (name ++ (text ++ codes ">")) s)

-- What `out` lets through while tags are disabled.
unfoldable pub stripped : Bytes → Bytes
unfolding html_tag_prefix_len
stripped text = elim (html_tag_prefix_len text) [ none ↦ text | some n ↦ drop n text ]

-- `HtmlRenderer::out`.
unfoldable pub out : Bytes → Sink → Sink
unfolding stripped
out text s =
    note_len (length text)
      (write (if ltb_ℤ (pos 0) s.renderer.disable_tags then stripped text else text) s)

-- `HtmlRenderer::cr`.
unfoldable pub cr : Sink → Sink
unfolding out
cr s = if ltb 0 s.renderer.last_output_len then out (codes "\n") s else s
