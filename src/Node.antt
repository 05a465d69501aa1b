-- ===== src/Node.antt =====
-- src/node.rs: the nodes, the arena that owns them, and the operations on their links. A `NodeId` is
-- an index into the arena; `none` as a result is the panic of an index out of range.
pub mod Links
pub mod Unlink
pub mod Kept
pub mod Append
pub mod Attach
pub mod Children
pub mod Order
pub mod Insert
pub mod Before
pub mod Place
pub mod Fresh
pub mod Walker
use blackfriday_2_rust.Base.{
  ℕ, zero, suc, ◌+◌, Bool, true, false, Option, none, some, List, [], ◌∷◌, ◌++◌, Bytes, length,
  get_elem?, set, ◌>>=◌,
}
use blackfriday_2_rust.NodeType.{NodeType}

abbrev pub NodeId : Type 0
NodeId = ℕ

pub record ListData : Type 0 where
  pub list_flags : ℕ
  pub tight : Bool
  pub bullet_char : ℕ
  pub delimiter : ℕ
  pub ref_link : Option Bytes
  pub is_footnotes_list : Bool

pub record LinkData : Type 0 where
  pub destination : Bytes
  pub title : Option Bytes
  pub note_id : ℕ
  pub footnote : Option NodeId

pub record CodeBlockData : Type 0 where
  pub is_fenced : Bool
  pub info : Bytes
  pub fence_char : ℕ
  pub fence_length : ℕ
  pub fence_offset : ℕ

pub record TableCellData : Type 0 where
  pub is_header : Bool
  pub align : ℕ

pub record HeadingData : Type 0 where
  pub level : ℕ
  pub heading_id : Bytes
  pub is_titleblock : Bool

pub record Node : Type 0 where
  pub node_type : NodeType
  pub parent : Option NodeId
  pub first_child : Option NodeId
  pub last_child : Option NodeId
  pub prev : Option NodeId
  pub next : Option NodeId
  pub literal : Bytes
  pub heading : HeadingData
  pub list : ListData
  pub code_block : CodeBlockData
  pub link : LinkData
  pub table_cell : TableCellData
  pub content : Bytes
  pub is_open : Bool

-- `Node::new`.
unfoldable pub new : NodeType → Node
new node_type = record {
  node_type = node_type;
  parent = none;
  first_child = none;
  last_child = none;
  prev = none;
  next = none;
  literal = [];
  heading = record { level = 0; heading_id = []; is_titleblock = false };
  list = record {
    list_flags = 0;
    tight = false;
    bullet_char = 0;
    delimiter = 0;
    ref_link = none;
    is_footnotes_list = false;
  };
  code_block = record {
    is_fenced = false;
    info = [];
    fence_char = 0;
    fence_length = 0;
    fence_offset = 0;
  };
  link = record { destination = []; title = none; note_id = 0; footnote = none };
  table_cell = record { is_header = false; align = 0 };
  content = [];
  is_open = true;
}

abbrev pub Arena : Type 0
Arena = List Node

unfoldable pub new_node : Arena → NodeType → Arena × NodeId
unfolding new
new_node arena node_type = (arena ++ new node_type ∷ [], length arena)

abbrev pub get : Arena → NodeId → Option Node
get arena id = get_elem? arena id

-- An assignment through `get_mut(id)`.
unfoldable pub modify : NodeId → (Node → Node) → Arena → Option Arena
modify id f arena = get arena id >>= λ n. some (set arena id (f n))

-- An assignment through an id that may be absent.
abbrev pub modify_some : Option NodeId → (Node → Node) → Arena → Option Arena
modify_some none f arena = some arena
modify_some (some id) f arena = modify id f arena

abbrev pub set_parent : Option NodeId → Node → Node
set_parent v n = record n { parent = v }

abbrev pub set_first_child : Option NodeId → Node → Node
set_first_child v n = record n { first_child = v }

abbrev pub set_last_child : Option NodeId → Node → Node
set_last_child v n = record n { last_child = v }

abbrev pub set_prev : Option NodeId → Node → Node
set_prev v n = record n { prev = v }

abbrev pub set_next : Option NodeId → Node → Node
set_next v n = record n { next = v }

abbrev pub detach : Node → Node
detach n = record n { parent = none; prev = none; next = none }

-- `match prev { Some(p) => p.next = next, None => if let Some(p) = parent { p.first_child = next } }`.
abbrev pub unlink_front : (parent prev next : Option NodeId) → Arena → Option Arena
unlink_front parent (some p) next arena = modify p (set_next next) arena
unlink_front parent none next arena = modify_some parent (set_first_child next) arena

abbrev pub unlink_back : (parent prev next : Option NodeId) → Arena → Option Arena
unlink_back parent prev (some n) arena = modify n (set_prev prev) arena
unlink_back parent prev none arena = modify_some parent (set_last_child prev) arena

unfoldable pub unlink : NodeId → Arena → Option Arena
unfolding modify
unlink id arena = do
  n ← get arena id
  arena ← unlink_front n.parent n.prev n.next arena
  arena ← unlink_back n.parent n.prev n.next arena
  modify id detach arena

-- The `match` on the parent's last child in `append_child`.
abbrev pub append_last : (parent child : NodeId) → Option NodeId → Arena → Option Arena
append_last parent child (some last) arena = do
  arena ← modify last (set_next (some child)) arena
  arena ← modify child (set_prev (some last)) arena
  modify parent (set_last_child (some child)) arena
append_last parent child none arena = do
  arena ← modify parent (set_first_child (some child)) arena
  modify parent (set_last_child (some child)) arena

unfoldable pub append_child : (parent child : NodeId) → Arena → Option Arena
unfolding unlink
append_child parent child arena = do
  arena ← unlink child arena
  arena ← modify child (set_parent (some parent)) arena
  p ← get arena parent
  append_last parent child p.last_child arena

-- The last step of `insert_before`: the parent's first child, if `node` was the first.
abbrev pub insert_first : NodeId → (prev parent : Option NodeId) → Arena → Option Arena
insert_first sibling (some p) parent arena = some arena
insert_first sibling none parent arena = modify_some parent (set_first_child (some sibling)) arena

unfoldable pub insert_before : (node sibling : NodeId) → Arena → Option Arena
unfolding unlink
insert_before node sibling arena = do
  arena ← unlink sibling arena
  n ← get arena node
  arena ← modify sibling (set_prev n.prev) arena
  arena ← modify_some n.prev (set_next (some sibling)) arena
  arena ← modify sibling (set_next (some node)) arena
  arena ← modify node (set_prev (some sibling)) arena
  m ← get arena node
  arena ← modify sibling (set_parent m.parent) arena
  insert_first sibling n.prev m.parent arena

-- `Children`, run to its end: on fuel, since the links of an arena may run in a circle.
unfoldable pub siblings : ℕ → Option NodeId → Arena → Option (List NodeId)
siblings zero cur arena = none
siblings (suc fuel) none arena = some []
siblings (suc fuel) (some id) arena = do
  n ← get arena id
  rest ← siblings fuel n.next arena
  some (id ∷ rest)

unfoldable pub children : ℕ → NodeId → Arena → Option (List NodeId)
unfolding siblings
children fuel id arena = do n ← get arena id; siblings fuel n.first_child arena
