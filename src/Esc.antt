-- ===== src/Esc.antt =====
-- src/esc.rs: the two HTML escapers over one loop, and the test for an entity.
pub mod Entity
pub mod Refine
pub mod Safe
pub mod Link
pub mod Again
use blackfriday_2_rust.Base.{
  ℕ, ◌+◌, Bool, true, false, not, ◌&&◌, Option, none, some, List, [], ◌∷◌, ◌++◌, ◌==◌, ltb, leb,
  if◌then◌else◌, Bytes, codes, length, slice, ◌>>=◌,
}
use blackfriday_2_rust.Util.{is_alnum}
use blackfriday_2_rust.Entities.{is_entity}

unfoldable pub html_escape_seq : ℕ → Option Bytes
html_escape_seq c =
    if c == b'&'
    then some (codes "&amp;")
    else if c == b'<'
    then some (codes "&lt;")
    else if c == b'>'
    then some (codes "&gt;")
    else if c == b'"'
    then some (codes "&quot;")
    else none

-- The loop of `node_is_entity`: `seen` is `s[end..end_entity_pos]`, the list is what follows it.
unfoldable pub scan_entity : Bytes → Bytes → ℕ → Bool × ℕ
scan_entity seen [] pos = (false, pos)
scan_entity seen (c ∷ cs) pos =
    let further = scan_entity (seen ++ c ∷ []) cs (pos + 1) in
    if c == b';' && is_entity (seen ++ c ∷ [])
    then (true, pos)
    else if not (is_alnum c) && not (c == b'&') && not (c == b'#')
    then (false, pos)
    else further

-- Of `s` it reads `s[end..]`, the second argument; `none` is the panic of `s[end]` out of range.
unfoldable pub node_is_entity : ℕ → Bytes → Option (Bool × ℕ)
unfolding scan_entity
node_is_entity end [] = none
node_is_entity end (c ∷ cs) =
    some (if c == b'&' then scan_entity (c ∷ []) cs (end + 1) else (false, end + 1))

-- The loop of `escape_entities` with its variables `start` and `end`, what is left of `s` at `end`,
-- and the output. `none` is a panic: a slice whose start lies behind its end.
unfoldable pub escape_loop : Bool → Bytes → ℕ → ℕ → Bytes → Bytes → Option Bytes
escape_loop all s start end [] out =
    if ltb start (length s) && leb end (length s)
    then (slice s start end >>= λ piece. some (out ++ piece))
    else some out
escape_loop all s start end (c ∷ cs) out = elim (html_escape_seq c) [
  | none ↦ escape_loop all s start (end + 1) cs out
  | some esc_seq ↦ node_is_entity end (c ∷ cs) >>= λ (entity, entity_end).
      elim (entity && not all) [
        | true ↦ slice s start (entity_end + 1) >>= λ piece.
            escape_loop all s (entity_end + 1) (end + 1) cs (out ++ piece)
        | false ↦ slice s start end >>= λ piece.
            escape_loop all s (end + 1) (end + 1) cs (out ++ (piece ++ esc_seq))
      ]
]

unfoldable pub escape_entities : Bytes → Bytes → Bool → Option Bytes
unfolding escape_loop node_is_entity html_escape_seq slice
escape_entities out s escape_valid_entities = escape_loop escape_valid_entities s 0 0 s out

unfoldable pub escape_html : Bytes → Bytes → Option Bytes
unfolding escape_entities
escape_html out s = escape_entities out s false

unfoldable pub escape_all_html : Bytes → Bytes → Option Bytes
unfolding escape_entities
escape_all_html out s = escape_entities out s true
