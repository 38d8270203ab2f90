-- ===== src/Layout/Rect.antt =====
-- Rectangles, axes and the geometry of one split: the free functions and the plain types of
-- src/layout.rs.
use rustmux.Base.{ℕ, ◌*◌, ◌/◌, Bool, true, false, ◌==◌, if◌then◌else◌}
use rustmux.Base.Word.{add16, sub16, to_u16, ℤ, pos, add_i32, clamp, clamp_i32}

pub data SplitAxis : Type 0 where
  columns rows : SplitAxis

pub data Direction : Type 0 where
  left right up down : Direction

abbrev pub axis_eq : SplitAxis → SplitAxis → Bool
axis_eq columns columns = true
axis_eq rows rows = true
axis_eq columns rows = false
axis_eq rows columns = false

pub record Rect : Type 0 where
  pub row : ℕ
  pub column : ℕ
  pub rows : ℕ
  pub columns : ℕ

-- A pair of `u16` values: a share, or a minimum as rows and columns.
abbrev pub Pair : Type 0
Pair = ℕ × ℕ

abbrev pub split_border_cells : ℕ
split_border_cells = 2

pub record Parts : Type 0 where
  pub a : Rect
  pub b : Rect
  pub separator : Rect

-- The closure `first_extent`.
abbrev first_extent : Pair → ℕ → ℕ
first_extent (num, den) available = to_u16 (available * num / den)

unfoldable pub split_rects : SplitAxis → Pair → Pair → Pair → Rect → Parts
split_rects columns share (ar, ac) (br, bc) rect =
    let available = sub16 rect.columns split_border_cells in
    let width = clamp (first_extent share available) ac (sub16 available bc) in
    record {
      a = record rect { columns = width };
      b = record rect {
        column = add16 rect.column (add16 width split_border_cells);
        columns = sub16 available width;
      };
      separator = record rect { column = add16 rect.column width; columns = split_border_cells };
    }
split_rects rows share (ar, ac) (br, bc) rect =
    let available = sub16 rect.rows split_border_cells in
    let height = clamp (first_extent share available) ar (sub16 available br) in
    record {
      a = record rect { rows = height };
      b = record rect {
        row = add16 rect.row (add16 height split_border_cells);
        rows = sub16 available height;
      };
      separator = record rect { row = add16 rect.row height; rows = split_border_cells };
    }

-- One side of a rectangle, and the matching part of a minimum.
abbrev pub side : SplitAxis → Rect → ℕ
side columns r = r.columns
side rows r = r.rows

abbrev pub part : SplitAxis → Pair → ℕ
part columns m = m.1
part rows m = m.0

-- The new share, and whether the separator moved.
unfoldable pub adjust_share : SplitAxis → Pair → Pair → Pair → Rect → ℤ → Pair × Bool
adjust_share axis share first_minimum second_minimum rect delta =
    let extent = side axis (split_rects axis share first_minimum second_minimum rect).a in
    let available = sub16 (side axis rect) split_border_cells in
    let hi = sub16 available (part axis second_minimum) in
    let next = to_u16 (clamp_i32 (add_i32 (pos extent) delta) (part axis first_minimum) hi) in
    if next == extent then (share, false) else ((next, available), true)
