-- ===== src/Markdown/References.antt =====
-- src/markdown.rs: what follows the id of a definition, a link with its title or a footnote.
pub mod Bounds
pub mod Footnotes
use blackfriday_2_rust.Base.{
  ℕ, zero, suc, ◌+◌, ◌-◌, Bool, true, false, not, ◌&&◌, ◌||◌, Option, none, some, List, [], ◌∷◌,
  ◌++◌, ◌==◌, ltb, if◌then◌else◌, Bytes, codes, length, get_or, get_elem?, is_at, drop, slice,
  skip_while, count_while, equal, ◌>>=◌,
}
use blackfriday_2_rust.Flags.{intersects, footnotes}
use blackfriday_2_rust.Util.{one_of, is_indented}
use blackfriday_2_rust.Block.{is_empty}
use blackfriday_2_rust.Markdown.{
  Markdown, InternalReference, RefHandle, Reference, RefOverride, not_overridden, to, to_nothing,
}

abbrev pub is_blank : ℕ → Bool
is_blank b = b == b' ' || b == b'\t'

abbrev pub is_newline : ℕ → Bool
is_newline b = b == b'\n' || b == b'\r'

-- What `scan_link_ref` returns.
pub record LinkRef : Type 0 where
  pub link_offset : ℕ
  pub link_end : ℕ
  pub title_offset : ℕ
  pub title_end : ℕ
  pub line_end : ℕ

-- `while i > title_offset && …`: where it ends from `title_offset + n` on.
unfoldable pub step_back : Bytes → (title_offset n : ℕ) → ℕ
step_back text title_offset zero = title_offset
step_back text title_offset (suc n) =
    let rest = step_back text title_offset n in
    if is_blank (get_or text (title_offset + suc n) 0) then rest else title_offset + suc n

-- The optional title, from index `i` on.
unfoldable pub scan_title : Bytes → (i link_offset link_end line_end : ℕ) → LinkRef
unfolding step_back skip_while count_while one_of
scan_title text i link_offset link_end line_end =
    let title_offset = i + 1 in
    let e = skip_while (λ b. not (is_newline b)) text title_offset in
    let title_end = if is_at text e b'\n' && is_at text (e + 1) b'\r' then e + 1 else e in
    let back = step_back text title_offset (e - 1 - title_offset) in
    if not (ltb (i + 1) (length text) && one_of (codes "'\"(") (get_or text i 0))
    then record {
      link_offset = link_offset;
      link_end = link_end;
      title_offset = 0;
      title_end = 0;
      line_end = line_end;
    }
    else if ltb title_offset back && one_of (codes "'\")") (get_or text back 0)
    then record {
      link_offset = link_offset;
      link_end = link_end;
      title_offset = title_offset;
      title_end = back;
      line_end = title_end;
    }
    else record {
      link_offset = link_offset;
      link_end = link_end;
      title_offset = title_offset;
      title_end = title_end;
      line_end = line_end;
    }

-- The end of the line and what follows it, from index `i` behind the spacer on.
unfoldable pub scan_line_end : Bytes → (i link_offset link_end : ℕ) → LinkRef
unfolding scan_title skip_while count_while one_of
scan_line_end text i link_offset link_end =
    let at_end = if not (ltb i (length text)) || is_newline (get_or text i 0) then i else 0 in
    let line_end = if is_at text i b'\r' && is_at text (i + 1) b'\n' then at_end + 1 else at_end in
    let next = if ltb 0 line_end then skip_while is_blank text (line_end + 1) else i in
    if ltb i (length text) && not (one_of (codes "\n\r'\"(") (get_or text i 0))
    then record {
      link_offset = link_offset;
      link_end = link_end;
      title_offset = 0;
      title_end = 0;
      line_end = 0;
    }
    else scan_title text next link_offset link_end line_end

-- The link, from `link_offset` on; `none` is the panic of `data[link_offset]`.
unfoldable pub scan_link : Bytes → (link_offset : ℕ) → Option LinkRef
unfolding scan_line_end skip_while count_while
scan_link text link_offset =
    let link_end = skip_while (λ b. not (is_blank b || is_newline b)) text link_offset in
    let i = skip_while is_blank text link_end in
    if not (ltb link_offset (length text))
    then none
    else if is_at text link_offset b'<' && ltb 0 link_end && is_at text (link_end - 1) b'>'
    then some (scan_line_end text i (link_offset + 1) (link_end - 1))
    else some (scan_line_end text i link_offset link_end)

unfoldable pub scan_link_ref : Bytes → (i : ℕ) → Option LinkRef
unfolding scan_link
scan_link_ref text i =
    if not (ltb i (length text))
    then none
    else scan_link text (if is_at text i b'<' then i + 1 else i)

-- What `scan_footnote` returns.
pub record Footnote : Type 0 where
  pub block_start : ℕ
  pub block_end : ℕ
  pub raw : Bytes
  pub has_block : Bool

-- `while i < data.len() && data[i - 1] != b'\n'`: the byte before index `i`, and the bytes left there.
unfoldable pub to_line_end : (previous : ℕ) → Bytes → (i : ℕ) → ℕ
to_line_end previous [] i = i
to_line_end previous (c ∷ cs) i =
    let rest = to_line_end c cs (i + 1) in if previous == b'\n' then i else rest

abbrev pub line_from : Bytes → ℕ → ℕ
line_from text i = to_line_end (get_or text (i - 1) 0) (drop i text) i

-- The loop over the further lines on fuel; `none` is its end, or the panic of a slice.
unfoldable pub footnote_loop :
    ℕ
    → Bytes
    → (indent_size block_end : ℕ) → Bytes
    → (has_block contains_blank_line : Bool) → Option (ℕ × Bytes × Bool)
unfolding to_line_end is_empty is_indented slice
footnote_loop zero text indent_size block_end raw has_block blank = none
footnote_loop (suc fuel) text indent_size block_end raw has_block blank =
    elim (ltb block_end (length text)) [
      | false ↦ some (block_end, raw, has_block)
      | true ↦
          let i = line_from text (block_end + 1) in
          slice text block_end i >>= λ line. elim (ltb 0 (is_empty line)) [
            | true ↦ footnote_loop fuel text indent_size i raw has_block true
            | false ↦ elim (is_indented line indent_size == 0) [
              | true ↦ some (block_end, raw, has_block)
              | false ↦ slice text (block_end + is_indented line indent_size) i >>= λ body.
                  footnote_loop fuel text indent_size i
                    ((if blank then raw ++ codes "\n" else raw) ++ body) true false
            ]
          ]
    ]

unfoldable pub scan_footnote : Bytes → (i indent_size : ℕ) → Option Footnote
unfolding footnote_loop to_line_end skip_while count_while slice
scan_footnote text i indent_size =
    let block_start = skip_while (λ b. b == b' ') text i in
    let first = line_from text block_start in
    if i == 0 || length text == 0
    then some (record { block_start = 0; block_end = 0; raw = []; has_block = false })
    else (slice text block_start first >>= λ raw.
        footnote_loop (length text + 1) text indent_size first raw false false
        >>= λ (block_end, raw, has_block). get_elem? text (block_end - 1) >>= λ last. some (record {
          block_start = block_start;
          block_end = block_end;
          raw = if last == b'\n' then raw else raw ++ codes "\n";
          has_block = has_block;
        }))
