-- ===== src/Lib.antt =====
-- blackfriday, a Markdown processor: a Rust port of the Go library of that name.
--
-- The parser reads bytes block by block (src/block.rs) and inline by inline (src/inline.rs) into a
-- syntax tree held in an arena (src/node.rs). The HTML renderer (src/html.rs) walks that tree and
-- writes its texts through the escapers (src/esc.rs, with the table of src/entities.rs) and, where
-- its flags ask for it, through the smart punctuation (src/smartypants.rs). All of them test bytes
-- with src/util.rs and options with src/flags.rs.
--
-- Which file models what:
-- - `Util`: src/util.rs, every function. A table of 256 classes is a function of the byte; an index
--   behind the end is `none`, or shown not to arise.
-- - `Flags`: src/flags.rs, the operations of `go_flags!` on the bit pattern of the `i32`, and the
--   options that modelled code tests.
-- - Entities, with Entities/Part01 to Part15: src/entities.rs, all entries of `ENTITIES` in its order.
--   `binary_search` is what it answers on a sorted table: whether the key is an entry.
-- - `Esc`: src/esc.rs. `escape_loop` is the loop of `escape_entities` with its variables `start` and
--   `end` and the bytes left at `end`. A slice whose start lies behind its end is `none`, the panic.
--   `scan_entity` is the loop of `node_is_entity`.
-- - NodeType and Node: src/node.rs. A `NodeId` is an index, an arena is the list of its nodes, and
--   an operation takes the arena to a new one; an index out of the arena is `none`, the panic. Links
--   are optional indices, as in the source, so an operation that changes one node is seen through
--   every link to it. Node.Links says when all links agree.
-- - `Node.Walker`: `NodeWalker` and `Arena::walk`, with a visitor that answers from the node and
--   whether it is entered. What a visitor writes or changes besides is left to the renderer.
-- - `Smartypants`: src/smartypants.rs. The table of 256 handlers is a function of the byte, and the two
--   quotes that handlers open and close are the record `Quotes`. A handler returns what it writes,
--   how many bytes it takes, and the quotes after it. `process_loop` is the loop of `process`.
-- - `Block`: the scanners of src/block.rs that tell from the bytes of a line which block it starts or
--   ends. Where the source indexes without a test (`is_hrule`, `is_underlined_heading`) the panic is
--   `none`.
-- - `Inline`: the matchers of src/inline.rs that find the end of a tag or an autolink.
--   Inline.Emphasis is `unescape_text` and `helper_find_emph_char`.
-- - HtmlEntities, with HtmlEntities/Part01 to Part15 and Pairs: src/html_entities.rs, both tables in
--   full. A lookup is what `binary_search_by` finds in a sorted table.
-- - `Unescape`: src/unescape.rs. `unescape_entity` says what is pushed and how far it reads; the 32-bit
--   wrap of the digits is written out. Esc.Link is `esc_link`, which uses it.
-- - `Html`: src/html.rs. The record HtmlRenderer is the renderer; `Sink` is the renderer with the
--   output buffer that its methods append to, and a method takes one sink to the next. Html.Strip
--   holds the matchers of a tag, Html.Links the tests of a destination, Html.Ids the map of heading ids,
--   Html.Nodes what is asked of a node's neighbours, Html.TagName the search for a named tag.
--   Html.Render is `render_node`, with a function per arm in Render/Inlines and Render/Blocks.
--   Html.Document is the page and the table of contents, with the loop of `run_with` of
--   src/markdown.rs that renders a tree. A `String` is its bytes in UTF-8.
-- - `Markdown`: src/markdown.rs. The record Markdown is the parser's state without its table of inline
--   handlers; a handle of a reference is an index into `heap`, so two holders of one see the same.
--   Markdown.References reads what a definition holds, with `scan_link_ref` and `scan_footnote`, and
--   Markdown.Definitions finds its id and stores it.
--   Markdown.Reach has the states that the operations on blocks can reach.
--   `to_lowercase` and `from_utf8_lossy`, which are the standard library's, are parameters.
-- - `Base`: lists, bytes, slices and scanning loops that the other files share. Tests: runs at concrete
--   inputs, some of them from the source's own tests.
--
-- Numbers: a byte is a natural number; `disable_tags` and heading levels after the offset are
-- signed integers without bounds, as no document nests images to those of `i32`, and an offset of
-- the levels near them is left out; heading levels as the parser makes them, footnote ids, lengths
-- and indices are natural numbers, as the parser makes no negative level or id and no text here
-- reaches the bounds of `usize`. A subtraction stands only where the code has made sure that it
-- does not pass zero. Output buffers are what was written so far.
--
-- Fuel: the walker, the child iterator and the loop of `process` run on fuel, one unit a round.
-- `process` is given one unit more than the text has bytes, which is enough because a handler
-- always takes its own byte. The child iterator needs one unit more than there are children, and
-- the walk one more than there are visits, which are at most two for a node.
-- `helper_find_emph_char` has one unit more than the text has bytes, as each round passes one. The
-- loop over the attributes of a tag has the length of the text, `ensure_unique_heading_id` three
-- units more than its longest key has bytes, as each round makes the id longer and none longer
-- than all keys is a key, and the loops that render a tree or a table of contents one unit a
-- visit. `add_existing_child` and `close_unmatched_blocks` need one unit more than the blocks they
-- close, which are fewer than the nodes, as a parent is older than its children, and the loops of
-- `scan_footnote`, of `unescape_string` and of the search for the end of a comment one more than
-- the text has bytes, as each round takes one. All other loops are recursions on the bytes that
-- are left.
--
-- Not modelled: the inline and the block parser beyond these scanners, and `parse`,
-- `parse_refs_to_ast` and the inline handlers' table (src/markdown.rs), which call both parsers;
-- the tables of src/unicode_tables.rs; `Display`, `dump` and capacity hints, which are output and
-- allocation; the C interface (ffi), the command line (src/bin/bf.rs), the harness, the benchmarks
-- and the Go programs (adapter, fuzz, tools), which are glue.
mod Base
pub mod Util
pub mod Entities
pub mod Esc
pub mod NodeType
pub mod Node
pub mod Flags
pub mod Smartypants
pub mod Block
pub mod Inline
pub mod HtmlEntities
pub mod Unescape
pub mod Html
pub mod Markdown
mod Tests
