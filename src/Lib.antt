-- ===== src/Lib.antt =====
-- Verification of Rustmux, a terminal multiplexer written in Rust (paths below are from the
-- repository's root).
--
-- Parts. A window of Rustmux shows panes, which `Layout` (src/layout.rs) places: a binary tree of
-- splits over the cells of a terminal. `Panes` (src/pane_set.rs) keeps one content for each leaf of a
-- layout, and uses the layout by its operations alone; `Windows` (src/window.rs) keeps such sets in
-- order, with one selected and one floating. A client reaches a session over a socket by the
-- messages of `Protocol` (src/session/protocol.rs). `Scrollback` (src/scrollback.rs) holds the rows
-- that left a screen, `Reflow` (src/screen/reflow.rs) lays rows out at another width, `Prompt`
-- (src/prompt.rs) edits a line of the window bar, and `Clipboard` (src/clipboard.rs) watches the bytes
-- that a child writes.
--
-- `Layout` follows src/layout.rs. `Layout/Rect` has the plain types with `split_rects` and
-- `adjust_share`, `Layout/Node` the tree with the methods of `Node`, `Layout/Geometry` the record
-- `Layout` with its constructors and what it shows, `Layout/Operations` the operations that move focus
-- or change the tree. A method that mutates returns the new value beside its result; an `io::Result` is
-- `Result`, with one error for each message; `expect`, `unwrap` and an index out of range are the error
-- `panic`. A `u16` sum or difference wraps as in a release build, a `usize` or `u32` one that cannot
-- wrap is plain, an `i32` sum goes through its 32-bit pattern. A
-- division by zero and an `Ord::clamp` with crossed bounds panic in Rust and are total in these
-- definitions; `Layout/Checked` has `resize_pane` once more with both as the error `panic`, and
-- `Unpanicked` compares the two. The other children hold proofs: `Cut` and `Minimum` the exact
-- arithmetic of a split, `Tiled` the cells and rectangles of a geometry, `Leaves`, `Room`, `Adjusting`
-- and `Shares` what each edit of a tree keeps, `Valid` the invariant, `Closest` and `Searching` an
-- independent account of the directional search, `Focus` and `Moves` the search itself, `Reachable` the
-- sequences of operations.
--
-- `Layout/Saved` follows src/layout/snapshot.rs; its descent takes the number of nodes plus one as fuel,
-- since a child's index is above its parent's and below that number. `Layout/Reading`, `Layout/Writing`
-- and `Layout/Rereading` hold its proofs. All other recursion of `Layout` is
-- structural, on the tree or on a list.
--
-- `Panes`: `Set` has `PaneSet` and the operations that create or close a pane, `Moving` those that
-- resize panes or move one to another set. The contents are of any type, and what creates one is an
-- argument; `try_reserve` is taken to succeed. The binary search of `resize_pane` takes one more than
-- the number of cells as fuel, and each round shrinks its interval. `synchronize_sizes`, which drives
-- PTYs and screens, is not modelled. The other children hold proofs.
--
-- `Windows`: `Store` has the collection with the operations that create or select a window, `Order`
-- those that move, rename or close one, over contents of any type, and `Joining` the operations of
-- windows that hold panes. `expect`, `unwrap` and an index out of range are the error `panic`;
-- `try_reserve` is taken to succeed. `move_active_pane_relative` takes the direction in place of an
-- offset, since its callers pass one or minus one. The other children hold proofs.
--
-- `Protocol`: `Codec` has the frames and the big-endian integers, `Frames` the buffer of
-- `FrameDecoder`, `Messages` both kinds of message with their encoders and decoders. A method returns
-- the new buffer beside its result. A pass over a buffer takes its length plus one as fuel, since a
-- frame has at least five bytes, and `push` the number of its bytes, since each round copies one or
-- more. Whether bytes are UTF-8 is a parameter. The texts of the errors are not modelled. The name
-- check is `SessionName::new` of src/session.rs.
--
-- `Reflow`: `Packing` has `pack`, `Collecting` the loop of `reflow_primary_into` that joins the rows of
-- history and screen into logical lines, the first row that the new screen shows and the cursor on it;
-- an index out of range is `none`. The loop of `pack` is recursion on the cells, with the number of them
-- that a glyph steps over. What a cell has beside its character and width is of any type, and a row is
-- taken as a list of cells with its extent and flag. Filling the grids of the new screen and its history
-- is not modelled. The other children hold proofs.
--
-- `Prompt`: `Editor` has the prompt and the byte machine of `feed`, a function for each of its blocks,
-- with an `Instant` as a number of milliseconds; `Text` has what the code uses of Rust's UTF-8 and `char`,
-- as their documentation defines it. Drawing the prompt is not modelled. The other children hold proofs.
--
-- `Scrollback`: `Rows` has the operations, over cells of any type; the loop of `push` is recursion on
-- the rows, and its `expect` is `none`. `Clipboard`: `Observer` has the state machine, one function for
-- a byte of each kind; the engines of the crate base64 are a parameter.
--
-- Not modelled: what is input and output only (processes, devices, files, sockets), drawing, and the
-- parts of src/ that are not named here.
pub mod Base
pub mod Clipboard
pub mod Layout
pub mod Panes
pub mod Prompt
pub mod Protocol
pub mod Reflow
pub mod Scrollback
pub mod Windows
