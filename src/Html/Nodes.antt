-- ===== src/Html/Nodes.antt =====
-- src/html.rs: what the renderer asks of a node and its neighbours, and the small pieces of markup it
-- builds. `none` is the panic of a link out of range, or of `slugify`. `String::from_utf8_lossy` of a
-- slug is the slug, which is ASCII.
use blackfriday_2_rust.Base.{
  ℕ, Bool, true, false, not, ◌&&◌, ◌||◌, Option, none, some, List, [], ◌∷◌, ◌++◌, ◌==◌,
  if◌then◌else◌, Bytes, codes, length, decimal, ℤ, pos, leb_ℤ, eqb_ℤ, ◌>>=◌,
}
use blackfriday_2_rust.Flags.{FlagSet, intersects, definition, term, left, right, center}
use blackfriday_2_rust.NodeType.{NodeType, discriminant}
use blackfriday_2_rust.Node.{NodeId, Node, Arena, get}
use blackfriday_2_rust.Util.{slugify}

-- `a == b` on `NodeType`.
unfoldable pub is_type : NodeType → NodeType → Bool
unfolding discriminant
is_type a b = discriminant a == discriminant b

-- `opt.is_none()`.
abbrev pub is_none : {A : Type 0} → Option A → Bool
is_none none = true
is_none (some x) = false

-- `link.is_some_and(|p| arena[p]…)`.
abbrev pub is_some_and : Arena → Option NodeId → (Node → Bool) → Option Bool
is_some_and arena none f = some false
is_some_and arena (some id) f = get arena id >>= λ n. some (f n)

-- `let Some(id) = link else { return false }`, and what is asked of that node.
abbrev pub or_false : Arena → Option NodeId → (Node → Option Bool) → Option Bool
or_false arena none f = some false
or_false arena (some id) f = get arena id >>= f

unfoldable pub is_smartypantable : Arena → NodeId → Option Bool
unfolding is_type
is_smartypantable arena node = do
  n ← get arena node
  outside ← is_some_and arena n.parent (λ p.
      is_type p.node_type NodeType.link
      || is_type p.node_type NodeType.code_block
      || is_type p.node_type NodeType.code)
  some (not outside)

-- The first word of a code fence's info string.
unfoldable pub language : Bytes → Bytes
language [] = []
language (c ∷ info) = if c == b'\t' || c == b' ' then [] else c ∷ language info

unfoldable pub append_language_attr : List Bytes → Bytes → List Bytes
unfolding language
append_language_attr attrs info =
    if length info == 0
    then attrs
    else attrs ++ (codes "class=\"language-" ++ (language info ++ codes "\"")) ∷ []

unfoldable pub footnote_ref : Bytes → Bytes → ℕ → Option Bytes
unfolding slugify decimal
footnote_ref prefix destination note_id = slugify destination >>= λ slug.
    (let url_frag = prefix ++ slug in
      let anchor =
        codes "<a href=\"#fn:"
        ++ (url_frag ++ (codes "\">" ++ (decimal note_id ++ codes "</a>"))) in
      some (
        codes "<sup class=\"footnote-ref\" id=\"fnref:"
        ++ (url_frag ++ (codes "\">" ++ (anchor ++ codes "</sup>")))))

unfoldable pub footnote_item : Bytes → Bytes → Bytes
footnote_item prefix slug = codes "<li id=\"fn:" ++ (prefix ++ (slug ++ codes "\">"))

unfoldable pub footnote_return_link : Bytes → Bytes → Bytes → Bytes
footnote_return_link prefix return_link slug =
    codes " <a class=\"footnote-return\" href=\"#fnref:"
    ++ (prefix ++ (slug ++ (codes "\">" ++ (return_link ++ codes "</a>"))))

unfoldable pub item_open_cr : Arena → Node → Option Bool
unfolding intersects
item_open_cr arena n =
    if is_none n.prev
    then some false
    else is_some_and arena n.parent
        (λ p. not p.list.tight && not (intersects p.list.list_flags definition))

-- The grandparent is a list, and it is tight or the parent is a term.
unfoldable pub skip_paragraph_tags : Arena → Node → Option Bool
unfolding is_type intersects
skip_paragraph_tags arena n = or_false arena n.parent (λ parent.
    is_some_and arena parent.parent (λ grandparent.
      is_type grandparent.node_type NodeType.list
      && (grandparent.list.tight || intersects parent.list.list_flags term)))

unfoldable pub cell_alignment : FlagSet → Bytes
cell_alignment align =
    if align == left
    then codes "left"
    else if align == right
    then codes "right"
    else if align == center
    then codes "center"
    else []

unfoldable pub heading_tags_from_level : ℤ → Bytes × Bytes
heading_tags_from_level level =
    if leb_ℤ level (pos 1)
    then (codes "<h1", codes "</h1>")
    else if eqb_ℤ level (pos 2)
    then (codes "<h2", codes "</h2>")
    else if eqb_ℤ level (pos 3)
    then (codes "<h3", codes "</h3>")
    else if eqb_ℤ level (pos 4)
    then (codes "<h4", codes "</h4>")
    else if eqb_ℤ level (pos 5)
    then (codes "<h5", codes "</h5>")
    else (codes "<h6", codes "</h6>")
