-- ===== src/Layout/Checked.antt =====
-- `Layout::resize_pane` of src/layout.rs once more, with the panics that its arithmetic can end in: a
-- division by zero and an `Ord::clamp` with crossed bounds are the error `panic`.
use rustmux.Base.{
  Option, false, if◌then◌else◌, ltb, none, not, some, true, ◌*◌, ◌/◌, ◌==◌, ◌||◌, ℕ, Bool,
}
use rustmux.Base.Result.{fail_if, ◌>>◌, ◌>>=◌, ok, err, Result}
use rustmux.Base.Word.{pos, add_i32, to_u16, clamp_i32, clamp, sub16, add16, ℤ}
use rustmux.Layout.Rect.{
  columns, rows, part, side, split_border_cells, axis_eq, Direction, Parts, Pair, Rect, SplitAxis,
}
use rustmux.Layout.Node.{contains, minimum, split, pane, is_some, PaneId, Node}
use rustmux.Layout.Geometry.{unknown_pane, zero_cells, canvas, panic, Error, Layout}
use rustmux.Layout.Operations.{adjusted, direction_delta, direction_axis}

abbrev pub div_checked : ℕ → ℕ → Result Error ℕ
div_checked a b = if b == 0 then err panic else ok (a / b)

abbrev pub clamp_checked : ℕ → ℕ → ℕ → Result Error ℕ
clamp_checked x lo hi = if ltb hi lo then err panic else ok (clamp x lo hi)

abbrev pub clamp_i32_checked : ℤ → ℕ → ℕ → Result Error ℕ
clamp_i32_checked x lo hi = if ltb hi lo then err panic else ok (clamp_i32 x lo hi)

-- The three rectangles, with that extent of the first.
abbrev pub parts_at : SplitAxis → Rect → ℕ → Parts
parts_at columns rect extent = record {
  a = record rect { columns = extent };
  b = record rect {
    column = add16 rect.column (add16 extent split_border_cells);
    columns = sub16 (sub16 rect.columns split_border_cells) extent;
  };
  separator = record rect { column = add16 rect.column extent; columns = split_border_cells };
}
parts_at rows rect extent = record {
  a = record rect { rows = extent };
  b = record rect {
    row = add16 rect.row (add16 extent split_border_cells);
    rows = sub16 (sub16 rect.rows split_border_cells) extent;
  };
  separator = record rect { row = add16 rect.row extent; rows = split_border_cells };
}

unfoldable pub split_rects_checked : SplitAxis → Pair → Pair → Pair → Rect → Result Error Parts
split_rects_checked axis share m n rect = do
  let available = sub16 (side axis rect) split_border_cells
  quotient ← div_checked (available * share.0) share.1
  extent ← clamp_checked (to_u16 quotient) (part axis m) (sub16 available (part axis n))
  ok (parts_at axis rect extent)

unfoldable pub adjust_share_checked :
    SplitAxis → Pair → Pair → Pair → Rect → ℤ → Result Error (Pair × Bool)
unfolding split_rects_checked
adjust_share_checked axis share m n rect delta = do
  parts ← split_rects_checked axis share m n rect
  let extent = side axis parts.a
  let available = sub16 (side axis rect) split_border_cells
  moved ←
      clamp_i32_checked (add_i32 (pos extent) delta) (part axis m) (sub16 available (part axis n))
  ok (if to_u16 moved == extent then (share, false) else ((to_u16 moved, available), true))

unfoldable pub adjust_here_checked :
    SplitAxis
    → Pair
    → Node
    → Node
    → Rect
    → SplitAxis
    → ℤ
    → Option Bool
    → Result Error (Node × Option Bool)
unfolding adjust_share_checked
adjust_here_checked split_axis share first second rect axis delta result =
    if is_some result || not (axis_eq split_axis axis)
    then ok (split split_axis share first second, result)
    else (adjust_share_checked split_axis share (minimum first) (minimum second) rect delta
        >>= λ out. ok (split split_axis out.0 first second, some out.1))

unfoldable pub adjust_checked :
    Node → PaneId → Rect → SplitAxis → ℤ → Result Error (Node × Option Bool)
unfolding split_rects_checked adjust_here_checked
adjust_checked (pane id) target rect axis delta = ok (pane id, none)
adjust_checked (split split_axis share first second) target rect axis delta =
    split_rects_checked split_axis share (minimum first) (minimum second) rect >>= λ parts.
    if contains first target
    then (adjust_checked first target parts.a axis delta >>= λ out.
        adjust_here_checked split_axis share out.0 second rect axis delta out.1)
    else (adjust_checked second target parts.b axis delta >>= λ out.
        adjust_here_checked split_axis share first out.0 rect axis delta out.1)

unfoldable pub adjust_pane_checked : Layout → PaneId → Direction → ℕ → Result Error (Layout × Bool)
unfolding adjust_checked
adjust_pane_checked l id d cells =
    if l.zoomed
    then ok (l, false)
    else (adjust_checked l.root id (canvas l) (direction_axis d) (direction_delta d cells)
        >>= λ out. ok (adjusted l out.0 out.1))

unfoldable pub resize_pane_checked : Layout → PaneId → Direction → ℕ → Result Error (Layout × Bool)
unfolding adjust_pane_checked
resize_pane_checked l id d cells = do
  fail_if (cells == 0) zero_cells
  fail_if (not (contains l.root id)) unknown_pane
  adjust_pane_checked l id d cells
