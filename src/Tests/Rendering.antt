-- ===== src/Tests/Rendering.antt =====
-- Runs of the renderer.
use blackfriday_2_rust.Base.{
  zero, suc, ◌≡◌, refl, true, false, none, some, List, [], ◌∷◌, Bytes, codes, pos, length, ◌<◌, ◌≤◌,
  ◌-◌, ◌⊎◌, ◌==◌, is_at, get_or, ◌↔◌, arith, some-eq-some,
}
use blackfriday_2_rust.Flags.{FlagSet, intersects}
use blackfriday_2_rust.NodeType.{document, heading, paragraph, text, emph, link, is_container}
use blackfriday_2_rust.Node.{NodeId, Node, Arena, new}
use blackfriday_2_rust.Node.Links.{at, IsLinked}
use blackfriday_2_rust.Html.{HtmlRendererParameters, HtmlRenderer}
use blackfriday_2_rust.Html
use blackfriday_2_rust.Html.{Sink}
use blackfriday_2_rust.Html.Grows.{GrowsTo}
use blackfriday_2_rust.Html.Render.{render_node}
use blackfriday_2_rust.Html.Render.Total.{depth, status, HasDestination, render_node-Renders}
use blackfriday_2_rust.Html.Walked.{answer, render_visits, Extends}
use blackfriday_2_rust.Html.Page.{render-visits}
use blackfriday_2_rust.Html.TagName.{is_html_tag, find_html_tag_pos, skip_until_char_ignore_quotes}
use blackfriday_2_rust.Html.Strip.{html_tag_prefix_len}
use blackfriday_2_rust.Html.Strip.Ends.{html_tag_prefix_len-ends}
use blackfriday_2_rust.Html.Links.{is_safe_link, need_skip_link}
use blackfriday_2_rust.Html.Links.Safe.{HasScheme, is_safe_link-scheme}
use blackfriday_2_rust.Html.Ids.Unique.{ensure_all, Distinct, ensure_all-Distinct}
use blackfriday_2_rust.Html.Render.Inlines.{render_link}
use blackfriday_2_rust.Html.Render.Panic.{render_link-none}
use blackfriday_2_rust.Util.{is_space, is_alnum}
use blackfriday_2_rust.Html.Document.{render, write_document_header, render_footer}
use blackfriday_2_rust.Node.Walker.Tour.{nil, cons, branch, Forest, tour, IsTree}

abbrev params : FlagSet → HtmlRendererParameters
params flags = record {
  absolute_prefix = [];
  footnote_anchor_prefix = [];
  footnote_return_link_contents = [];
  heading_id_prefix = [];
  heading_id_suffix = [];
  heading_level_offset = pos 0;
  title = [];
  css = [];
  icon = [];
  flags = flags;
}

-- `# Hi` and `A *<b>*.`.
abbrev page : Arena
page =
    record (new document) { first_child = some 1; last_child = some 3 }
    ∷ record (new heading) {
      parent = some 0;
      next = some 3;
      first_child = some 2;
      last_child = some 2;
      heading = record { level = 1; heading_id = codes "hi"; is_titleblock = false };
    }
    ∷ record (new text) { parent = some 1; literal = codes "Hi" }
    ∷ record (new paragraph) {
      parent = some 0;
      prev = some 1;
      first_child = some 4;
      last_child = some 6;
    }
    ∷ record (new text) { parent = some 3; next = some 5; literal = codes "A " }
    ∷ record (new emph) {
      parent = some 3;
      prev = some 4;
      next = some 6;
      first_child = some 7;
      last_child = some 7;
    }
    ∷ record (new text) { parent = some 3; prev = some 5; literal = codes "." }
    ∷ record (new text) { parent = some 5; literal = codes "<b>" }
    ∷ []

page_rendered :
    render 20 0 page (Html.new (params 0))
    ≡ some (codes "<h1 id=\"hi\">Hi</h1>\n\n<p>A <em>&lt;b&gt;</em>.</p>\n")
unfolding render new Html.new is_container
page_rendered = refl

-- `[x](/a)` in a paragraph.
abbrev pub small : Arena
small =
    record (new document) { first_child = some 1; last_child = some 1 }
    ∷ record (new paragraph) { parent = some 0; first_child = some 2; last_child = some 2 }
    ∷ record (new link) {
      parent = some 1;
      first_child = some 3;
      last_child = some 3;
      link = record { destination = codes "/a"; title = none; note_id = 0; footnote = none };
    }
    ∷ record (new text) { parent = some 2; literal = codes "x" }
    ∷ []

small-next :
    (i j : NodeId)
    → (at small i).next ≡ some j
    → (j < length small)
      × ((at small j).prev ≡ some i)
      × ((at small j).parent ≡ (at small i).parent)
unfolding at new
small-next zero j e = cc
small-next (suc zero) j e = cc
small-next (suc (suc zero)) j e = cc
small-next (suc (suc (suc zero))) j e = cc
small-next (suc (suc (suc (suc i)))) j e = cc

small-prev :
    (i j : NodeId) → (at small i).prev ≡ some j → (j < length small) × ((at small j).next ≡ some i)
unfolding at new
small-prev zero j e = cc
small-prev (suc zero) j e = cc
small-prev (suc (suc zero)) j e = cc
small-prev (suc (suc (suc zero))) j e = cc
small-prev (suc (suc (suc (suc i)))) j e = cc

small-parent :
    (i j : NodeId)
    → (at small i).parent ≡ some j
    → (j < length small)
      × ((at small i).prev ≡ none → (at small j).first_child ≡ some i)
      × ((at small i).next ≡ none → (at small j).last_child ≡ some i)
unfolding at new
small-parent zero j e = cc
small-parent (suc zero) j e = rw (← some-eq-some e) (omega arith, λ h. refl, λ h. refl)
small-parent (suc (suc zero)) j e = rw (← some-eq-some e) (omega arith, λ h. refl, λ h. refl)
small-parent (suc (suc (suc zero))) j e = rw (← some-eq-some e) (omega arith, λ h. refl, λ h. refl)
small-parent (suc (suc (suc (suc i)))) j e = cc

small-first :
    (i j : NodeId)
    → (at small i).first_child ≡ some j
    → (j < length small) × ((at small j).parent ≡ some i) × ((at small j).prev ≡ none)
unfolding at new
small-first zero j e = rw (← some-eq-some e) (omega arith, refl, refl)
small-first (suc zero) j e = rw (← some-eq-some e) (omega arith, refl, refl)
small-first (suc (suc zero)) j e = rw (← some-eq-some e) (omega arith, refl, refl)
small-first (suc (suc (suc zero))) j e = cc
small-first (suc (suc (suc (suc i)))) j e = cc

small-last :
    (i j : NodeId)
    → (at small i).last_child ≡ some j
    → (j < length small) × ((at small j).parent ≡ some i) × ((at small j).next ≡ none)
unfolding at new
small-last zero j e = rw (← some-eq-some e) (omega arith, refl, refl)
small-last (suc zero) j e = rw (← some-eq-some e) (omega arith, refl, refl)
small-last (suc (suc zero)) j e = rw (← some-eq-some e) (omega arith, refl, refl)
small-last (suc (suc (suc zero))) j e = cc
small-last (suc (suc (suc (suc i)))) j e = cc

small-root :
    (i : NodeId)
    → (at small i).parent ≡ none
    → ((at small i).prev ≡ none) × ((at small i).next ≡ none)
unfolding at new
small-root zero e = (refl, refl)
small-root (suc zero) e = (refl, refl)
small-root (suc (suc zero)) e = (refl, refl)
small-root (suc (suc (suc zero))) e = (refl, refl)
small-root (suc (suc (suc (suc i)))) e = (refl, refl)

small-ends : (i : NodeId) → ((at small i).first_child ≡ none) ↔ ((at small i).last_child ≡ none)
unfolding at new
small-ends zero = (λ e. cc, λ e. cc)
small-ends (suc zero) = (λ e. cc, λ e. cc)
small-ends (suc (suc zero)) = (λ e. cc, λ e. cc)
small-ends (suc (suc (suc zero))) = (λ e. refl, λ e. refl)
small-ends (suc (suc (suc (suc i)))) = (λ e. refl, λ e. refl)

pub small-IsLinked : IsLinked small
small-IsLinked = record {
  next_ok = small-next;
  prev_ok = small-prev;
  first_ok = small-first;
  last_ok = small-last;
  parent_ok = small-parent;
  root_ok = small-root;
  ends_ok = small-ends;
}

small-HasDestination : (i : NodeId) → HasDestination (at small i)
unfolding at new
small-HasDestination zero = tt
small-HasDestination (suc zero) = tt
small-HasDestination (suc (suc zero)) = λ e. cc
small-HasDestination (suc (suc (suc zero))) = tt
small-HasDestination (suc (suc (suc (suc i)))) = tt

abbrev small_forest : Forest
small_forest = cons (branch 1 (cons (branch 2 (cons (branch 3 nil) nil)) nil)) nil

small-IsTree : IsTree small 0 (branch 0 small_forest)
unfolding at new is_container
small-IsTree = (
  omega arith,
  λ c. (
    refl,
    omega arith,
    refl,
    (
      omega arith,
      λ c. (
        refl,
        omega arith,
        refl,
        (omega arith, λ c. (refl, omega arith, refl, (omega arith, λ c. cc), refl)),
        refl,
      ),
    ),
    refl,
  ),
)

abbrev plain : HtmlRenderer
plain = Html.new (params 0)

render_node-Renders_example :
    (s' : Sink) × (render_node small 2 true (record { renderer = plain; written = codes "<p>" })
      ≡ some (status plain.params.flags (at small 2).node_type, s'))
    × GrowsTo
        (depth (record { renderer = plain; written = codes "<p>" }) (at small 2).node_type true)
        (record { renderer = plain; written = codes "<p>" })
        s'
render_node-Renders_example =
    render_node-Renders small 2 true (record { renderer = plain; written = codes "<p>" })
      small-IsLinked (omega arith) (small-HasDestination 2)

render-visits_example :
    (head : Sink) × (body : Sink) × (write_document_header
        (record { renderer = plain; written = [] })
      ≡ some head)
    × (render_visits small
          (tour (answer plain.params.flags small) small (branch 0 small_forest)).0
          head
        ≡ some body)
    × Extends head body
    × (render 8 0 small plain ≡ some (render_footer body).written)
render-visits_example =
    render-visits small 0 small_forest 8 plain small-IsLinked small-HasDestination small-IsTree
      (unfold tour is_container at new status Html.new in omega arith)
      (unfold intersects Html.new in refl)

-- The source's own: a `>` in quotes is passed over, and no input matches every name.
tag_names :
    (is_html_tag (codes "<DIV a=\">\">") (codes "div") ≡ true)
    × (find_html_tag_pos (codes "<DIV a=\">\">") (codes "div") ≡ (true, pos 10))
    × (is_html_tag (codes "<p>") (codes "div") ≡ false)
    × (is_html_tag [] (codes "div") ≡ true)
    × (skip_until_char_ignore_quotes (codes "abc") 1 b'>' ≡ 1)
unfolding is_html_tag is_space
tag_names = (refl, refl, refl, refl, refl)

html_tag_prefix_len-ends_example :
    (is_at (codes "<b class='x'>bold") 0 b'<' ≡ true)
    × (is_at (codes "<b class='x'>bold") (13 - 1) b'>' ≡ true)
    × (13 ≤ length (codes "<b class='x'>bold"))
html_tag_prefix_len-ends_example =
    html_tag_prefix_len-ends (codes "<b class='x'>bold") 13 (unfold html_tag_prefix_len in refl)

is_safe_link-scheme_example :
    ((get_or (codes "HTTP://a") 0 0 ≡ b'/') ⊎ (get_or (codes "HTTP://a") 0 0 ≡ b'.'))
    ⊎ (HasScheme (codes "HTTP://a") (codes "http")
        ⊎ (HasScheme (codes "HTTP://a") (codes "https")
            ⊎ (HasScheme (codes "HTTP://a") (codes "ftp")
                ⊎ HasScheme (codes "HTTP://a") (codes "mailto"))))
is_safe_link-scheme_example =
    is_safe_link-scheme (codes "HTTP://a") (unfold is_safe_link is_alnum in refl)

ensure_all-Distinct_example :
    (outs : List Bytes) × (ensure_all [] (codes "foo" ∷ codes "foo" ∷ codes "foo-1" ∷ [])
      ≡ some outs)
    × (length outs ≡ 3)
    × Distinct outs
ensure_all-Distinct_example =
    ensure_all-Distinct [] (codes "foo" ∷ codes "foo" ∷ codes "foo-1" ∷ [])

-- `[x]()`, which the parser does not make.
abbrev empty_link : Node
empty_link = record (new link) {
  link = record { destination = []; title = none; note_id = 0; footnote = none };
}

render_link-none_example :
    (render_link empty_link true (record { renderer = plain; written = [] }) ≡ none) ↔ (
      (need_skip_link plain.params.flags empty_link.link.destination ≡ false)
      × (true ≡ true)
      × (empty_link.link.note_id == 0 ≡ true)
      × (empty_link.link.destination ≡ []))
render_link-none_example =
    render_link-none empty_link true (record { renderer = plain; written = [] })
