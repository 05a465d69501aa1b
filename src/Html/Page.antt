-- ===== src/Html/Page.antt =====
-- src/html.rs and src/markdown.rs: the page that the renderer writes, from header to footer.
use blackfriday_2_rust.Base.{
  ℕ, ◌<◌, ◌≡◌, ap, ◌∙◌, true, false, some, [], ◌++◌, bind-at, if-false, ◌==◌, length, Bytes, codes,
}
use blackfriday_2_rust.Flags.{intersects, toc}
use blackfriday_2_rust.Node.{NodeId, Arena}
use blackfriday_2_rust.Node.Links.{at, IsLinked}
use blackfriday_2_rust.Node.Walker.Tour.{branch, Forest, tour, IsTree}
use blackfriday_2_rust.Node.Walker.Visits.{walk-tour}
use blackfriday_2_rust.Esc.{escape_html}
use blackfriday_2_rust.Html.{Sink, HtmlRenderer, write}
use blackfriday_2_rust.Html.Grows.{
  Grows-refl, Grows-then, write-Grows, Yields, Yields-some, Yields-bind, Yields-after,
}
use blackfriday_2_rust.Html.Render.Writes.{
  escape_html-Appends, escaped-Yields, smartened-Yields, Yields-if,
}
use blackfriday_2_rust.Html.Render.Total.{HasDestination}
use blackfriday_2_rust.Html.Walked.{answer, render_visits, render_walk-visits, Extends}
use blackfriday_2_rust.Html.Document.{
  page_start, write_link, write_title, write_meta, write_document_header, render_header,
  render_footer, render,
}

write_link-Yields :
    (opening href ending : Bytes) (s : Sink) → Yields s (write_link opening href ending s)
unfolding write_link
write_link-Yields opening href ending s =
    Yields-if (length href == 0) s (some s) _ (Yields-some s s (Grows-refl s)) (
      Yields-after s (write opening s) _ (write-Grows opening s) (
        Yields-bind (write opening s) _ _
          (escaped-Yields escape_html href (write opening s) escape_html-Appends)
          (λ t g.
            Yields-some t (write (codes "\"" ++ (ending ++ codes ">\n")) t) (write-Grows _ t))))

write_title-Yields : (title : Bytes) (s : Sink) → Yields s (write_title title s)
unfolding write_title
write_title-Yields title s =
    Yields-if _ s _ _ (smartened-Yields title s)
      (escaped-Yields escape_html title s escape_html-Appends)

write_meta-Yields : (ending : Bytes) (s : Sink) → Yields s (write_meta ending s)
unfolding write_meta
write_meta-Yields ending s =
    let middle =
      codes "</title>\n"
      ++ (codes "  <meta name=\"GENERATOR\" content=\"Blackfriday Markdown Processor v"
          ++ (codes "2.0"
              ++ (codes "\""
                  ++ (ending
                      ++ (codes ">\n"
                          ++ (codes "  <meta charset=\"utf-8\"" ++ (ending ++ codes ">\n"))))))) in
    Yields-after s (write middle s) _ (write-Grows middle s) (
      Yields-bind (write middle s) _ _
        (write_link-Yields _ s.renderer.params.css ending (write middle s))
        (λ t g. Yields-bind t _ _ (write_link-Yields _ t.renderer.params.icon ending t) (λ u h.
          Yields-some u (write (codes "</head>\n" ++ codes "<body>\n\n") u) (write-Grows _ u))))

pub write_document_header-Yields : (s : Sink) → Yields s (write_document_header s)
unfolding write_document_header
write_document_header-Yields s =
    let top = (page_start s.renderer.params.flags).0 in
    let head = codes "<head>\n" ++ codes "  <title>" in
    let start = write head (write top s) in
    Yields-if _ s (some s) _ (Yields-some s s (Grows-refl s)) (
      Yields-after s start _
        (Grows-then s (write top s) start (write-Grows top s) (write-Grows head (write top s)))
        (Yields-bind start _ _ (write_title-Yields s.renderer.params.title start)
          (λ t g. write_meta-Yields _ t)))

-- On a tree whose links agree, with a destination for every link, and with more fuel than the tree has
-- visits, a renderer without a table of contents gives a page: the header, whose writing never fails,
-- then the nodes in the order of the tour, which only adds to it, then the footer.
pub render-visits :
    (arena : Arena) (ast : NodeId) (f : Forest) (fuel : ℕ) (r : HtmlRenderer)
    → IsLinked arena
    → ((i : NodeId) → HasDestination (at arena i))
    → IsTree arena ast (branch ast f)
    → length (tour (answer r.params.flags arena) arena (branch ast f)).0 < fuel
    → intersects r.params.flags toc ≡ false
    → (head : Sink) × (body : Sink) × (write_document_header (record { renderer = r; written = [] })
        ≡ some head)
      × (render_visits arena (tour (answer r.params.flags arena) arena (branch ast f)).0 head
          ≡ some body)
      × Extends head body
      × (render fuel ast arena r ≡ some (render_footer body).written)
unfolding render render_header
render-visits arena ast f fuel r linked dest tree enough no_toc =
    let s : Sink = record { renderer = r; written = [] } in
    let (head, h, grown) = write_document_header-Yields s in
    let (body, walked, visited, more) =
      render_walk-visits arena r.params.flags fuel ast (some ast) true head _ linked dest
        (ap (λ p. p.flags) grown.1)
        (walk-tour (answer r.params.flags arena) arena ast f fuel tree enough) in
    (head, body, h, visited, more, bind-at _ (bind-at _ h ∙ if-false _ no_toc) ∙ bind-at _ walked)
