-- ===== src/Markdown/Definitions.antt =====
-- src/markdown.rs: reference definitions, how they are stored and how they are looked up. Lowercasing
-- and the lossy decoding of UTF-8 are the standard library's, and parameters here.
pub mod Total
use blackfriday_2_rust.Base.{
  ℕ, zero, suc, ◌+◌, ◌-◌, Bool, true, false, not, ◌&&◌, ◌||◌, Option, none, some, List, [], ◌∷◌,
  ◌++◌, ◌==◌, ltb, if◌then◌else◌, Bytes, codes, length, get_or, get_elem?, is_at, drop, slice,
  skip_while, count_while, equal, ◌>>=◌,
}
use blackfriday_2_rust.Flags.{intersects, footnotes}
use blackfriday_2_rust.Util.{one_of, is_indented}
use blackfriday_2_rust.Block.{is_empty}
use blackfriday_2_rust.Markdown.{
  Markdown, InternalReference, RefHandle, Reference, RefOverride, not_overridden, to, to_nothing,
}
use blackfriday_2_rust.Markdown.References.{is_blank, is_newline, scan_link_ref, scan_footnote}

-- `refs.get`, on an association list.
unfoldable pub handle_of : List (Bytes × RefHandle) → Bytes → Option RefHandle
unfolding equal
handle_of [] id = none
handle_of ((k, h) ∷ refs) id = if equal k id then some h else handle_of refs id

-- `refs.insert`.
unfoldable pub put_handle : Bytes → RefHandle → List (Bytes × RefHandle) → List (Bytes × RefHandle)
unfolding equal
put_handle id h [] = (id, h) ∷ []
put_handle id h ((k, g) ∷ refs) =
    if equal k id then (k, h) ∷ refs else (k, g) ∷ put_handle id h refs

-- `Rc::new(RefCell::new(r))`.
abbrev pub new_handle : InternalReference → Markdown → Markdown × RefHandle
new_handle r p = (record p { heap = p.heap ++ r ∷ [] }, length p.heap)

abbrev pub override_by : Option (Bytes → RefOverride) → Bytes → RefOverride
override_by none refid = not_overridden
override_by (some over) refid = over refid

unfoldable pub get_ref_handle :
    (to_lowercase : Bytes → Bytes) → Bytes → Markdown → Markdown × Option RefHandle
unfolding handle_of
get_ref_handle to_lowercase refid p = elim (override_by p.reference_override refid) [
  | to_nothing ↦ (p, none)
  | to r ↦
      (let (p', h) =
          new_handle
            (record {
              link = r.link;
              title = r.title;
              note_id = 0;
              has_block = false;
              footnote = none;
              text = r.text;
            })
            p in
        (p', some h))
  | not_overridden ↦ (p, handle_of p.refs (to_lowercase refid))
]

-- A definition is stored under its lowercase id.
abbrev pub store :
    (lowercase_lossy : Bytes → Bytes) → Bytes → InternalReference → Markdown → Markdown
store lowercase_lossy id r p = record p {
  heap = p.heap ++ r ∷ [];
  refs = put_handle (lowercase_lossy id) (length p.heap) p.refs;
}

-- The rest of an id that starts at `id_offset`, up to its bracket.
unfoldable pub id_from : Bytes → (note : Bool) (id_offset : ℕ) → Option (Bool × ℕ × ℕ)
unfolding skip_while count_while
id_from text note id_offset =
    let id_end = skip_while (λ b. not (is_newline b || b == b']')) text id_offset in
    if not (is_at text id_end b']')
    then none
    else if not note && id_offset == id_end
    then none
    else some (note, id_offset, id_end)

-- `while i < 3 && data[i] == b' '`, in a text of more bytes.
unfoldable pub leading : Bytes → ℕ
leading text =
    if not (is_at text 0 b' ')
    then 0
    else if not (is_at text 1 b' ')
    then 1
    else if not (is_at text 2 b' ')
    then 2
    else 3

-- The id of a definition: whether it is a footnote's, and where it starts and ends. `none` if there is
-- none.
unfoldable pub reference_id : Markdown → Bytes → Option (Bool × ℕ × ℕ)
unfolding intersects id_from leading
reference_id p text =
    let i = leading text in
    let note = intersects p.extensions footnotes && is_at text (i + 1) b'^' in
    if ltb (length text) 4
    then none
    else if not (is_at text i b'[')
    then none
    else id_from text note (if note then i + 2 else i + 1)

-- The spacer behind the id: where the link or the footnote starts.
unfoldable pub reference_start : Bytes → (i : ℕ) → Option ℕ
unfolding skip_while count_while
reference_start text i =
    let j = skip_while is_blank text (i + 2) in
    let k =
      if is_newline (get_or text j 0)
      then (if is_at text (j + 1) b'\n' && is_at text j b'\r' then j + 2 else j + 1)
      else j in
    let start = skip_while is_blank text k in
    if not (is_at text (i + 1) b':')
    then none
    else if not (ltb start (length text))
    then none
    else some start

-- What is stored, and how many bytes the definition takes; no bytes is no definition.
unfoldable pub define_reference :
    (lowercase_lossy : Bytes → Bytes)
    → Bytes
    → (note : Bool) (id_offset id_end start tab_size : ℕ) → Markdown
    → Option (ℕ × Markdown)
unfolding scan_footnote scan_link_ref slice put_handle
define_reference lowercase_lossy text true id_offset id_end start tab_size p =
    scan_footnote text start tab_size >>= λ f.
    if f.block_end == 0
    then some (0, p)
    else (slice text id_offset id_end >>= λ id. some (
      f.block_end,
      store lowercase_lossy id
          (record {
            link = id;
            title = f.raw;
            note_id = 1;
            has_block = f.has_block;
            footnote = none;
            text = [];
          })
          p,
    ))
define_reference lowercase_lossy text false id_offset id_end start tab_size p =
    scan_link_ref text start >>= λ l.
    if l.line_end == 0
    then some (0, p)
    else (slice text id_offset id_end >>= λ id. slice text l.link_offset l.link_end >>= λ link.
        slice text l.title_offset l.title_end >>= λ title. some (
          l.line_end,
          store lowercase_lossy id
              (record {
                link = link;
                title = title;
                note_id = 0;
                has_block = false;
                footnote = none;
                text = [];
              })
              p,
        ))

unfoldable pub is_reference :
    (lowercase_lossy : Bytes → Bytes) → Bytes → (tab_size : ℕ) → Markdown → Option (ℕ × Markdown)
unfolding reference_id reference_start define_reference
is_reference lowercase_lossy text tab_size p = elim (reference_id p text) [
  | none ↦ some (0, p)
  | some (note, id_offset, id_end) ↦ elim (reference_start text id_end) [
    | none ↦ some (0, p)
    | some start ↦ define_reference lowercase_lossy text note id_offset id_end start tab_size p
  ]
]
