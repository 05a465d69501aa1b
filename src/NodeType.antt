-- ===== src/NodeType.antt =====
-- src/node.rs, `NodeType`: the kinds of nodes and what each may hold.
pub mod Nesting
use Prim.Native.String.{String}
use blackfriday_2_rust.Base.{ℕ, Bool, true, false, not}

pub data NodeType : Type 0 where
  document block_quote list item paragraph heading : NodeType
  horizontal_rule emph strong del link image : NodeType
  text html_block code_block softbreak hardbreak code : NodeType
  html_span table table_cell table_head table_body table_row : NodeType

-- `self as i32`.
unfoldable pub discriminant : NodeType → ℕ
discriminant document = 0
discriminant block_quote = 1
discriminant list = 2
discriminant item = 3
discriminant paragraph = 4
discriminant heading = 5
discriminant horizontal_rule = 6
discriminant emph = 7
discriminant strong = 8
discriminant del = 9
discriminant link = 10
discriminant image = 11
discriminant text = 12
discriminant html_block = 13
discriminant code_block = 14
discriminant softbreak = 15
discriminant hardbreak = 16
discriminant code = 17
discriminant html_span = 18
discriminant table = 19
discriminant table_cell = 20
discriminant table_head = 21
discriminant table_body = 22
discriminant table_row = 23

unfoldable pub name : NodeType → String
name document = "Document"
name block_quote = "BlockQuote"
name list = "List"
name item = "Item"
name paragraph = "Paragraph"
name heading = "Heading"
name horizontal_rule = "HorizontalRule"
name emph = "Emph"
name strong = "Strong"
name del = "Del"
name link = "Link"
name image = "Image"
name text = "Text"
name html_block = "HTMLBlock"
name code_block = "CodeBlock"
name softbreak = "Softbreak"
name hardbreak = "Hardbreak"
name code = "Code"
name html_span = "HTMLSpan"
name table = "Table"
name table_cell = "TableCell"
name table_head = "TableHead"
name table_body = "TableBody"
name table_row = "TableRow"

unfoldable pub is_container : NodeType → Bool
is_container document = true
is_container block_quote = true
is_container list = true
is_container item = true
is_container paragraph = true
is_container heading = true
is_container emph = true
is_container strong = true
is_container del = true
is_container link = true
is_container image = true
is_container table = true
is_container table_cell = true
is_container table_head = true
is_container table_body = true
is_container table_row = true
is_container _ = false

unfoldable pub is_leaf : NodeType → Bool
unfolding is_container
is_leaf t = not (is_container t)

abbrev is_item : NodeType → Bool
is_item item = true
is_item _ = false

abbrev is_table_section : NodeType → Bool
is_table_section table_head = true
is_table_section table_body = true
is_table_section _ = false

abbrev is_row : NodeType → Bool
is_row table_row = true
is_row _ = false

abbrev is_cell : NodeType → Bool
is_cell table_cell = true
is_cell _ = false

unfoldable pub can_contain : NodeType → NodeType → Bool
can_contain list t = is_item t
can_contain document t = not (is_item t)
can_contain block_quote t = not (is_item t)
can_contain item t = not (is_item t)
can_contain table t = is_table_section t
can_contain table_head t = is_row t
can_contain table_body t = is_row t
can_contain table_row t = is_cell t
can_contain _ t = false
