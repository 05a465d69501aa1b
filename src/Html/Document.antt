-- ===== src/Html/Document.antt =====
-- src/html.rs and src/markdown.rs: the page around the body, the table of contents, and the walk that
-- renders a tree. The walks are on fuel, since the links of an arena may run in a circle: `none` is a
-- panic or the end of the fuel.
use blackfriday_2_rust.Base.{
  ℕ, zero, suc, ◌+◌, ◌-◌, Bool, true, false, not, ◌&&◌, Option, none, some, [], ◌++◌, ◌==◌, ltb,
  if◌then◌else◌, Bytes, codes, length, decimal, ◌>>=◌,
}
use blackfriday_2_rust.Flags.{FlagSet, intersects, smartypants, complete_page, use_xhtml, toc}
use blackfriday_2_rust.NodeType.{NodeType}
use blackfriday_2_rust.Node.{NodeId, Node, Arena, get, modify}
use blackfriday_2_rust.Node.Walker.{WalkStatus, Walker, go_to_next, start, advance}
use blackfriday_2_rust.Esc.{escape_html}
use blackfriday_2_rust.Html.{Sink, HtmlRenderer, write}
use blackfriday_2_rust.Html.Nodes.{is_type}
use blackfriday_2_rust.Html.Render.{render_node}
use blackfriday_2_rust.Html.Render.Inlines.{escaped, smartened}

-- The first lines of the page, and how an empty element ends in it.
unfoldable pub page_start : FlagSet → Bytes × Bytes
unfolding intersects
page_start flags =
    if intersects flags use_xhtml
    then (
      codes "<!DOCTYPE html PUBLIC \"-//W3C//DTD XHTML 1.0 Transitional//EN\" "
          ++ (codes "\"http://www.w3.org/TR/xhtml1/DTD/xhtml1-transitional.dtd\">\n"
              ++ codes "<html xmlns=\"http://www.w3.org/1999/xhtml\">\n"),
      codes " /",
    )
    else (codes "<!DOCTYPE html>\n" ++ codes "<html>\n", [])

-- `  <link … href="…">`, when there is something to link.
unfoldable pub write_link : Bytes → Bytes → Bytes → Sink → Option Sink
unfolding escaped escape_html
write_link opening href ending s =
    if length href == 0
    then some s
    else (escaped escape_html href (write opening s) >>= λ s'.
        some (write (codes "\"" ++ (ending ++ codes ">\n")) s'))

unfoldable pub write_title : Bytes → Sink → Option Sink
unfolding escaped smartened escape_html intersects
write_title title s =
    if intersects s.renderer.params.flags smartypants
    then smartened title s
    else escaped escape_html title s

abbrev version : Bytes
version = codes "2.0"

-- From the end of the title to the body.
unfoldable pub write_meta : Bytes → Sink → Option Sink
unfolding write_link
write_meta ending s =
    write_link (codes "  <link rel=\"stylesheet\" type=\"text/css\" href=\"") s.renderer.params.css
      ending
      (write
        (codes "</title>\n"
          ++ (codes "  <meta name=\"GENERATOR\" content=\"Blackfriday Markdown Processor v"
              ++ (version
                  ++ (codes "\""
                      ++ (ending
                          ++ (codes ">\n"
                              ++ (codes "  <meta charset=\"utf-8\""
                                  ++ (ending ++ codes ">\n"))))))))
        s)
    >>= λ s'.
        write_link (codes "  <link rel=\"icon\" type=\"image/x-icon\" href=\"")
          s'.renderer.params.icon ending s'
        >>= λ s''. some (write (codes "</head>\n" ++ codes "<body>\n\n") s'')

unfoldable pub write_document_header : Sink → Option Sink
unfolding page_start write_title write_meta intersects
write_document_header s =
    if not (intersects s.renderer.params.flags complete_page)
    then some s
    else (write_title s.renderer.params.title (
          write (codes "<head>\n" ++ codes "  <title>")
            (write (page_start s.renderer.params.flags).0 s))
        >>= write_meta (page_start s.renderer.params.flags).1)

-- The locals of `write_toc`, the arena it rewrites, and the renderer with `buf` as its output.
pub record Toc : Type 0 where
  pub sink : Sink
  pub arena : Arena
  pub in_heading : Bool
  pub toc_level : ℕ
  pub heading_count : ℕ

-- `while toc_level …`: the same bytes, once per level.
unfoldable pub repeated : ℕ → Bytes → Bytes
repeated zero text = []
repeated (suc n) text = text ++ repeated n text

-- What stands in front of a heading of a level, behind one of level `toc_level`.
unfoldable pub toc_step : (level toc_level : ℕ) → Bytes
unfolding repeated
toc_step level toc_level =
    if level == toc_level
    then codes "</li>\n\n<li>"
    else if ltb level toc_level
    then repeated (toc_level - level) (codes "</li>\n</ul>") ++ codes "</li>\n\n<li>"
    else repeated (level - toc_level) (codes "\n<ul>\n<li>")

abbrev pub heading_name : ℕ → Bytes
heading_name count = codes "toc_" ++ decimal count

abbrev pub set_heading_id : Bytes → Node → Node
set_heading_id v n = record n { heading = record n.heading { heading_id = v } }

unfoldable pub enter_heading : NodeId → Node → Toc → Option Toc
unfolding toc_step modify decimal
enter_heading id n t =
    modify id (set_heading_id (heading_name t.heading_count)) t.arena >>= λ arena. some (record {
      sink =
          write
            (toc_step n.heading.level t.toc_level
              ++ (codes "<a href=\"#" ++ (heading_name t.heading_count ++ codes "\">")))
            t.sink;
      arena = arena;
      in_heading = true;
      toc_level = n.heading.level;
      heading_count = t.heading_count + 1;
    })

-- One round of the walk.
unfoldable pub toc_visit : NodeId → Bool → Toc → Option (WalkStatus × Toc)
unfolding enter_heading is_type render_node
toc_visit id entering t = get t.arena id >>= λ n.
    if is_type n.node_type NodeType.heading && not n.heading.is_titleblock
    then if entering
      then (enter_heading id n t >>= λ t'. some (go_to_next, t'))
      else some (go_to_next, record t { sink = write (codes "</a>") t.sink; in_heading = false })
    else if t.in_heading
    then (render_node t.arena id entering t.sink >>= λ p. some (p.0, record t { sink = p.1 }))
    else some (go_to_next, t)

unfoldable pub toc_loop : ℕ → Walker → Toc → Option Toc
unfolding toc_visit advance
toc_loop zero w t = none
toc_loop (suc fuel) w t = elim w.current [
  | none ↦ some t
  | some id ↦
      toc_visit id w.entering t >>= λ p. advance p.1.arena p.0 w >>= λ w'. toc_loop fuel w' p.1
]

-- What `write_toc` does with `buf`, which is the output of `t`.
unfoldable pub close_toc : Bytes → Toc → Sink
unfolding repeated
close_toc before t =
    let buf = t.sink.written ++ repeated t.toc_level (codes "</li>\n</ul>") in
    record {
      renderer = record t.sink.renderer { last_output_len = length buf };
      written =
          if length buf == 0
          then before
          else before ++ (codes "<nav>\n" ++ (buf ++ codes "\n\n</nav>\n"));
    }

unfoldable pub write_toc : ℕ → NodeId → Arena → Sink → Option (Arena × Sink)
unfolding toc_loop close_toc
write_toc fuel ast arena s =
    toc_loop fuel (start ast) (record {
      sink = record s { written = [] };
      arena = arena;
      in_heading = false;
      toc_level = 0;
      heading_count = 0;
    })
    >>= λ t. some (t.arena, close_toc s.written t)

unfoldable pub render_header : ℕ → NodeId → Arena → Sink → Option (Arena × Sink)
unfolding write_document_header write_toc intersects
render_header fuel ast arena s = write_document_header s >>= λ s'.
    if intersects s.renderer.params.flags toc then write_toc fuel ast arena s' else some (arena, s')

unfoldable pub render_footer : Sink → Sink
unfolding intersects
render_footer s =
    if not (intersects s.renderer.params.flags complete_page)
    then s
    else write (codes "\n</body>\n</html>\n") s

-- The walk of `run_with`.
unfoldable pub render_walk : ℕ → Arena → Walker → Sink → Option Sink
unfolding render_node advance
render_walk zero arena w s = none
render_walk (suc fuel) arena w s = elim w.current [
  | none ↦ some s
  | some id ↦ render_node arena id w.entering s >>= λ p.
      advance arena p.0 w >>= λ w'. render_walk fuel arena w' p.1
]

-- `run_with`, from the tree that the parser built on.
unfoldable pub render : ℕ → NodeId → Arena → HtmlRenderer → Option Bytes
unfolding render_header render_walk render_footer
render fuel ast arena r =
    render_header fuel ast arena (record { renderer = r; written = [] }) >>= λ p.
    render_walk fuel p.0 (start ast) p.1 >>= λ s. some (render_footer s).written
