-- ===== src/Tests/Definitions.antt =====
-- Runs of the parser's state and of the reference definitions.
use blackfriday_2_rust.Base.{
  ℕ, ◌≡◌, refl, true, false, Option, none, some, List, [], ◌∷◌, Bytes, codes, ◌^◌, ◌-◌, ◌≤◌, ◌⊎◌,
  inl, is_at, arith, ◌>>=◌,
}
use blackfriday_2_rust.NodeType.{NodeType, document, paragraph, list, item, can_contain}
use blackfriday_2_rust.Node.{NodeId, new, append_child}
use blackfriday_2_rust.Node.Links.{at, IsLinked}
use blackfriday_2_rust.Markdown.{Markdown, Options, InternalReference, add_child}
use blackfriday_2_rust.Markdown
use blackfriday_2_rust.Util.{is_indented}
use blackfriday_2_rust.Block.{is_empty}
use blackfriday_2_rust.Markdown.{close_unmatched_blocks}
use blackfriday_2_rust.Markdown.Open.{Climb}
use blackfriday_2_rust.Markdown.Child.{add_child-Climb}
use blackfriday_2_rust.Markdown.Reach.{adds, run, Reach, here, next, IsSound, Reach-run}
use blackfriday_2_rust.Markdown.Definitions.Total.{is_reference-Reads}
use blackfriday_2_rust.Tests.Rendering.{small, small-IsLinked}
use blackfriday_2_rust.Markdown.References.{scan_link_ref, scan_footnote}
use blackfriday_2_rust.Markdown.Definitions.{is_reference}

abbrev options : Options
options = record { extensions = 2 ^ 10; reference_override = none }

abbrev same : Bytes → Bytes
same s = s

-- A link in angles keeps the closing one, and a title that is not closed is read as one.
link_refs :
    (scan_link_ref (codes "/u 't'\n") 0
      ≡ some
          (record { link_offset = 0; link_end = 2; title_offset = 4; title_end = 5; line_end = 6 }))
    × (scan_link_ref (codes "<u>\n") 0
        ≡ some (record {
          link_offset = 1;
          link_end = 3;
          title_offset = 0;
          title_end = 0;
          line_end = 3;
        }))
    × (scan_link_ref (codes "/u\n'open\n") 0
        ≡ some (record {
          link_offset = 0;
          link_end = 2;
          title_offset = 4;
          title_end = 8;
          line_end = 2;
        }))
    × (scan_link_ref (codes "<") 0 ≡ none)
unfolding scan_link_ref
link_refs = (refl, refl, refl, refl)

footnote_bodies :
    scan_footnote (codes ": one\n    two\n\n    three\nx") 1 4
    ≡ some (record {
      block_start = 2;
      block_end = 25;
      raw = codes "one\ntwo\n\nthree\n";
      has_block = true;
    })
unfolding scan_footnote is_empty is_indented
footnote_bodies = refl

stored : Option (ℕ × Markdown) → Option (ℕ × List (Bytes × ℕ) × List InternalReference)
stored none = none
stored (some (n, p)) = some (n, p.refs, p.heap)

definitions :
    stored (is_reference same (codes "[a]: /u 't'\n") 4 (Markdown.new options))
    ≡ some (
      11,
      (codes "a", 0) ∷ [],
      record {
        link = codes "/u";
        title = codes "t";
        note_id = 0;
        has_block = false;
        footnote = none;
        text = [];
      }
          ∷ [],
    )
unfolding stored is_reference Markdown.new
definitions = refl

add_then : NodeType → Option (Markdown × NodeId) → Option (Markdown × NodeId)
add_then t r = r >>= λ p. add_child 5 t p.0

placed : Option (Markdown × NodeId) → Option (NodeId × Option NodeId)
placed none = none
placed (some (p, id)) = some (id, (at p.arena id).parent)

-- The source's own: a paragraph, a list beside it, and an item in the list.
blocks :
    placed (add_then item (add_then list (add_then paragraph (some (Markdown.new options, 0)))))
    ≡ some (3, some 2)
unfolding placed add_then add_child Markdown.new append_child can_contain at new
blocks = refl

-- The insertion point is the paragraph of `[x](/a)`.
abbrev in_paragraph : Markdown
in_paragraph = record (Markdown.new options) { arena = small; tip = 1 }

in_paragraph-Climb : Climb small list 1 (1 ∷ []) 0
unfolding at can_contain
in_paragraph-Climb = (refl, omega arith, refl, (0, refl, (refl, omega arith, refl)))

add_child-Climb_example :
    (p' : Markdown) × (add_child 2 list in_paragraph ≡ some (p', 4))
    × IsLinked p'.arena
    × (p'.tip ≡ 4)
    × ((at p'.arena 4).parent ≡ some 0)
    × ((at p'.arena 0).last_child ≡ some 4)
add_child-Climb_example =
    add_child-Climb in_paragraph list (1 ∷ []) 0 2 small-IsLinked in_paragraph-Climb (omega arith)

-- The parser behind its first paragraph, which a list closes again.
abbrev behind_paragraph : Markdown
behind_paragraph = record (Markdown.new options) {
  arena =
      (record (new document) { first_child = some 1; last_child = some 1 })
      ∷ (record (new paragraph) { parent = some 0 })
      ∷ [];
  tip = 1;
}

behind_paragraph-Reach : Reach options behind_paragraph
unfolding run add_child Markdown.new append_child can_contain at new
behind_paragraph-Reach = next (adds paragraph) here (inl refl) refl

Reach-run_example :
    (p' : Markdown) × (run (adds list) behind_paragraph ≡ some p')
    × IsSound p'
    × (close_unmatched_blocks 1 p' ≡ some p')
unfolding can_contain
Reach-run_example =
    Reach-run options behind_paragraph (adds list) 1 behind_paragraph-Reach (inl refl)

is_reference-Reads_example :
    ((is_reference same (codes "[a]: /u 't'\n") 4 in_paragraph ≡ none)
      × (is_at (codes "[a]: /u 't'\n") (12 - 1) b'<' ≡ true))
    ⊎ ((n : ℕ) × (p' : Markdown) × (is_reference same (codes "[a]: /u 't'\n") 4 in_paragraph
          ≡ some (n, p'))
        × (n ≤ 12)
        × (n ≡ 0 → p' ≡ in_paragraph))
is_reference-Reads_example = is_reference-Reads same (codes "[a]: /u 't'\n") 4 in_paragraph
