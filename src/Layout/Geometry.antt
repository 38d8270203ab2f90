-- ===== src/Layout/Geometry.antt =====
-- `struct Layout` of src/layout.rs, its constructors and the geometry that it shows.
use rustmux.Base.{
  ℕ, suc, ◌*◌, ◌/◌, min, max, Bool, true, false, not, ◌&&◌, ◌||◌, Option, none, some, List, [], ◌∷◌,
  ◌==◌, leb, ltb, if◌then◌else◌,
}
use rustmux.Base.Word.{add16, sub16, to_u16}
use rustmux.Base.Result.{Result, ok, err}
use rustmux.Layout.Rect.{Rect}
use rustmux.Layout.Node.{PaneId, Node, pane, Geometry, Hitbox, minimum, place, separator_hitboxes}

abbrev pub max_panes : ℕ
max_panes = 64

pub record Layout : Type 0 where
  pub root : Node
  pub rows : ℕ
  pub columns : ℕ
  pub active : PaneId
  pub next_id : ℕ
  pub count : ℕ
  pub zoomed : Bool
  pub floating : Bool

-- The `io::Error` values of the module, one for each message. `panic` is a failed `expect`,
-- `unwrap` or index.
pub data Error : Type 0 where
  zero_dimensions not_one_pane unknown_pane zoomed_move zoomed_swap zero_cells : Error
  floating_split pane_limit no_space ids_exhausted last_pane too_small panic : Error

unfoldable pub new : ℕ → ℕ → Result Error Layout
new rows columns =
    if rows == 0 || columns == 0
    then err zero_dimensions
    else ok (record {
      root = pane 0;
      rows = rows;
      columns = columns;
      active = 0;
      next_id = 1;
      count = 1;
      zoomed = false;
      floating = false;
    })

unfoldable pub into_floating : Layout → Result Error Layout
into_floating l =
    if not (l.count == 1)
    then err not_one_pane
    else ok (record l { floating = true; zoomed = false })

unfoldable pub toggle_zoom : Layout → Layout × Bool
toggle_zoom l = let zoomed = ltb 1 l.count && not l.zoomed in (record l { zoomed = zoomed }, zoomed)

-- The rectangle of the Whole content area.
abbrev pub canvas : Layout → Rect
canvas l = record { row = 0; column = 0; rows = l.rows; columns = l.columns }

abbrev pub empty_geometry : Geometry
empty_geometry = record { panes = []; separators = [] }

abbrev pub u16_from : Bool → ℕ
u16_from true = 1
u16_from false = 0

unfoldable pub floating_rect : ℕ → ℕ → Rect
floating_rect rows columns =
    let width = min (max (to_u16 (columns * 3 / 4)) 12) columns in
    let height = min (max (to_u16 (rows * 7 / 10)) 5) rows in
    let horizontal = u16_from (ltb width columns) in
    let vertical = u16_from (ltb height rows) in
    record {
      row = add16 (sub16 rows height / 2) vertical;
      column = add16 (sub16 columns width / 2) horizontal;
      rows = sub16 height (2 * vertical);
      columns = sub16 width (2 * horizontal);
    }

unfoldable pub tiled_geometry : Layout → Geometry
tiled_geometry l =
    if l.floating
    then record { panes = (l.active, floating_rect l.rows l.columns) ∷ []; separators = [] }
    else place l.root (canvas l) empty_geometry

unfoldable pub geometry : Layout → Geometry
geometry l =
    if l.zoomed
    then record { panes = (l.active, canvas l) ∷ []; separators = [] }
    else tiled_geometry l

abbrev move_top : Rect → Rect
move_top r = record r { row = add16 r.row 1; rows = sub16 r.rows 1 }

abbrev move_left : Rect → Rect
move_left r = record r { column = add16 r.column 1; columns = sub16 r.columns 1 }

-- The body of the loop of `content_geometry_from`: its four tests in their order.
unfoldable pub inset : ℕ → ℕ → Rect → Rect
inset rows columns r =
    let vertical = leb 3 rows in
    let horizontal = leb 3 columns in
    let r1 : Rect = if vertical && r.row == 0 then move_top r else r in
    let r2 : Rect =
      if vertical && add16 r1.row r1.rows == rows
      then record r1 { rows = sub16 r1.rows 1 }
      else r1 in
    let r3 : Rect = if horizontal && r2.column == 0 then move_left r2 else r2 in
    if horizontal && add16 r3.column r3.columns == columns
    then record r3 { columns = sub16 r3.columns 1 }
    else r3

abbrev pub inset_panes : ℕ → ℕ → List (PaneId × Rect) → List (PaneId × Rect)
inset_panes rows columns [] = []
inset_panes rows columns ((id, r) ∷ panes) =
    (id, inset rows columns r) ∷ inset_panes rows columns panes

unfoldable pub content_geometry_from : Layout → Geometry → Geometry
content_geometry_from l g = record g { panes = inset_panes l.rows l.columns g.panes }

unfoldable pub content_geometry : Layout → Geometry
unfolding content_geometry_from geometry
content_geometry l = content_geometry_from l (geometry l)

unfoldable pub tiled_content_geometry : Layout → Geometry
unfolding content_geometry_from tiled_geometry
tiled_content_geometry l = content_geometry_from l (tiled_geometry l)

unfoldable pub hitboxes : Layout → List Hitbox
hitboxes l = if l.zoomed then [] else separator_hitboxes l.root (canvas l) []

-- Rejected sizes leave the layout as it was: an error carries no new layout.
unfoldable pub resize : Layout → ℕ → ℕ → Result Error Layout
resize l rows columns =
    let (minimum_rows, minimum_columns) = minimum l.root in
    if ltb rows minimum_rows || ltb columns minimum_columns
    then err too_small
    else ok (record l { rows = rows; columns = columns })

-- `panes.iter().find(|(id, _)| *id == target)` and `panes.iter().position(…)`
abbrev pub find_pane : PaneId → List (PaneId × Rect) → Option Rect
find_pane target [] = none
find_pane target ((id, rect) ∷ panes) = if id == target then some rect else find_pane target panes

abbrev pub position : PaneId → List (PaneId × Rect) → Option ℕ
position target [] = none
position target ((id, rect) ∷ panes) =
    if id == target
    then some 0
    else elim (position target panes) [ none ↦ none | some i ↦ some (suc i) ]
