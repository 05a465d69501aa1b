-- ===== src/Markdown.antt =====
-- src/markdown.rs: the parser's state, and the operations on its insertion point. `none` is a panic or
-- the end of the fuel.
pub mod References
pub mod Definitions
pub mod Open
pub mod Child
pub mod Reach
use blackfriday_2_rust.Base.{
  ℕ, zero, suc, ◌+◌, Bool, true, false, not, ◌&&◌, ◌||◌, Option, none, some, List, [], ◌∷◌, ◌++◌,
  ◌==◌, if◌then◌else◌, Bytes, length, ◌>>=◌,
}
use blackfriday_2_rust.Flags.{FlagSet}
use blackfriday_2_rust.NodeType.{NodeType, document, can_contain}
use blackfriday_2_rust.Node.{NodeId, Node, Arena, new_node, get, modify, append_child}

pub record Reference : Type 0 where
  pub link : Bytes
  pub title : Bytes
  pub text : Bytes

pub data RefOverride : Type 0 where
  not_overridden : RefOverride
  to : Reference → RefOverride
  to_nothing : RefOverride

pub record InternalReference : Type 0 where
  pub link : Bytes
  pub title : Bytes
  pub note_id : ℕ
  pub has_block : Bool
  pub footnote : Option NodeId
  pub text : Bytes

-- `Rc<RefCell<InternalReference>>`: an index into the heap of references.
abbrev pub RefHandle : Type 0
RefHandle = ℕ

pub record Options : Type 0 where
  pub extensions : FlagSet
  pub reference_override : Option (Bytes → RefOverride)

-- `heap` holds what the handles of `refs` and `notes` point at.
pub record Markdown : Type 0 where
  pub arena : Arena
  pub extensions : FlagSet
  pub reference_override : Option (Bytes → RefOverride)
  pub heap : List InternalReference
  pub refs : List (Bytes × RefHandle)
  pub nesting : ℕ
  pub max_nesting : ℕ
  pub inside_link : Bool
  pub notes : List RefHandle
  pub doc : NodeId
  pub tip : NodeId
  pub old_tip : NodeId
  pub last_matched_container : NodeId
  pub all_closed : Bool

-- `Markdown::new`.
unfoldable pub new : Options → Markdown
unfolding new_node
new options =
    let (arena, doc) = new_node [] document in
    record {
      arena = arena;
      extensions = options.extensions;
      reference_override = options.reference_override;
      heap = [];
      refs = [];
      nesting = 0;
      max_nesting = 16;
      inside_link = false;
      notes = [];
      doc = doc;
      tip = doc;
      old_tip = doc;
      last_matched_container = doc;
      all_closed = true;
    }

abbrev pub set_open : Bool → Node → Node
set_open v n = record n { is_open = v }

abbrev pub or_tip : Option NodeId → NodeId → NodeId
or_tip none tip = tip
or_tip (some above) tip = above

unfoldable pub finalize : NodeId → Markdown → Option Markdown
unfolding modify
finalize block p = get p.arena block >>= λ n. modify block (set_open false) p.arena >>= λ arena.
    some (record p { arena = arena; tip = or_tip n.parent p.tip })

-- `while !can_contain(tip, node_type)`, on fuel.
unfoldable pub close_until : ℕ → NodeType → Markdown → Option Markdown
unfolding finalize can_contain
close_until zero t p = none
close_until (suc fuel) t p = get p.arena p.tip >>= λ n. elim (can_contain n.node_type t) [
  | true ↦ some p
  | false ↦ finalize p.tip p >>= close_until fuel t
]

unfoldable pub add_existing_child : ℕ → NodeId → Markdown → Option Markdown
unfolding close_until append_child
add_existing_child fuel node p = get p.arena node >>= λ n. close_until fuel n.node_type p >>= λ p.
    append_child p.tip node p.arena >>= λ arena. some (record p { arena = arena; tip = node })

unfoldable pub add_child : ℕ → NodeType → Markdown → Option (Markdown × NodeId)
unfolding add_existing_child new_node
add_child fuel t p =
    let (arena, node) = new_node p.arena t in
    add_existing_child fuel node (record p { arena = arena }) >>= λ p'. some (p', node)

-- The loop of `close_unmatched_blocks` on fuel.
unfoldable pub close_loop : ℕ → Markdown → Option Markdown
unfolding finalize
close_loop zero p = none
close_loop (suc fuel) p = elim (p.old_tip == p.last_matched_container) [
  | true ↦ some p
  | false ↦ get p.arena p.old_tip >>= λ n. finalize p.old_tip p >>= λ p'. elim n.parent [
    | none ↦ some p'
    | some above ↦ close_loop fuel (record p' { old_tip = above })
  ]
]

unfoldable pub close_unmatched_blocks : ℕ → Markdown → Option Markdown
unfolding close_loop
close_unmatched_blocks fuel p =
    if p.all_closed
    then some p
    else (close_loop fuel p >>= λ p'. some (record p' { all_closed = true }))
