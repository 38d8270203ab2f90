-- ===== src/Layout/Operations.antt =====
-- The operations of `impl Layout` in src/layout.rs that move focus or change the tree. In the
-- source every error return stands before the first write, so a refused operation has no new
-- layout; a failed `expect` is the error `panic`.
use rustmux.Base.{
  ℕ, zero, suc, ◌+◌, ◌-◌, ◌%◌, ◌^◌, min, max, Bool, true, false, not, ◌&&◌, ◌||◌, Option, none,
  some, List, [], ◌∷◌, ◌==◌, leb, ltb, if◌then◌else◌, get_elem?,
}
use rustmux.Base.Word.{ℤ, pos, negsuc}
use rustmux.Base.Result.{Result, ok, err, ◌>>=◌, ◌>>◌, fail_if, ok_or}
use rustmux.Layout.Rect.{
  SplitAxis, columns, rows, axis_eq, Direction, left, right, down, Rect, side, split_border_cells,
}
use rustmux.Layout.Node.{
  PaneId, Node, pane, split, contains, exchange, split_at, remove, parent_axis, adjust,
  adjust_separator,
}
use rustmux.Layout.Geometry.{
  Layout, Error, unknown_pane, zoomed_move, zoomed_swap, zero_cells, floating_split, pane_limit,
  no_space, ids_exhausted, last_pane, panic, max_panes, canvas, tiled_geometry, resize, find_pane,
  position,
}

unfoldable pub select : Layout → PaneId → Result Error Layout
select l id = elim (find_pane id (tiled_geometry l).panes) [
  | none ↦ err unknown_pane
  | some _ ↦ ok (record l { active = id })
]

-- The tuple of `focus_score`; a larger overlap is the better one (`Reverse`).
pub record Score : Type 0 where
  pub gap : ℕ
  pub edge_distance : ℕ
  pub overlap : ℕ
  pub center_distance : ℕ

-- The tuple that `focus_score` reads: along the direction and across it.
pub record Span : Type 0 where
  pub start : ℕ
  pub length : ℕ
  pub cross : ℕ
  pub span : ℕ

abbrev pub is_horizontal : Direction → Bool
is_horizontal left = true
is_horizontal right = true
is_horizontal _ = false

abbrev pub is_forward : Direction → Bool
is_forward right = true
is_forward down = true
is_forward _ = false

abbrev pub span_of : Direction → Rect → Span
span_of d r =
    if is_horizontal d
    then record { start = r.column; length = r.columns; cross = r.row; span = r.rows }
    else record { start = r.row; length = r.rows; cross = r.column; span = r.columns }

abbrev pub checked_sub : ℕ → ℕ → Option ℕ
checked_sub a b = if ltb a b then none else some (a - b)

abbrev pub abs_diff : ℕ → ℕ → ℕ
abs_diff a b = if ltb a b then b - a else a - b

-- The part of `focus_score` behind `let gap = …?`.
unfoldable pub score_across : Span → Span → ℕ → Option Score
score_across s t gap =
    let cross_end = s.cross + s.span in
    let target_end = t.cross + t.span in
    elim (checked_sub (min cross_end target_end) (max s.cross t.cross)) [
      | none ↦ none
      | some overlap ↦
          if overlap == 0
          then none
          else some (record {
            gap = gap;
            edge_distance = abs_diff s.cross t.cross;
            overlap = overlap;
            center_distance = abs_diff (s.cross + cross_end) (t.cross + target_end);
          })
    ]

-- The `u32` sums of two or three `u16` values cannot wrap.
unfoldable pub focus_score : Rect → Rect → Direction → Option Score
unfolding score_across
focus_score source other d =
    let s = span_of d source in
    let t = span_of d other in
    elim (if is_forward d
      then checked_sub t.start (s.start + s.length)
      else checked_sub s.start (t.start + t.length)) [
        | none ↦ none
        | some gap ↦ score_across s t gap
      ]

-- The order of the tuples, `Less` only.
unfoldable pub score_lt : Score → Score → Bool
score_lt x y =
    if not (x.gap == y.gap)
    then ltb x.gap y.gap
    else if not (x.edge_distance == y.edge_distance)
    then ltb x.edge_distance y.edge_distance
    else if not (x.overlap == y.overlap)
    then ltb y.overlap x.overlap
    else ltb x.center_distance y.center_distance

abbrev pub Candidate : Type 0
Candidate = Score × PaneId

-- One step of `min_by_key`: the earlier of two equal scores is kept, which is what the index in
-- the key does.
abbrev pub better : Option Candidate → Candidate → Option Candidate
better none c = some c
better (some (s, i)) (t, j) = if score_lt t s then some (t, j) else some (s, i)

unfoldable pub nearest :
    PaneId → Rect → Direction → Option Candidate → List (PaneId × Rect) → Option Candidate
nearest id source d best [] = best
nearest id source d best ((other, rect) ∷ panes) =
    nearest id source d
      (if other == id
        then best
        else elim (focus_score source rect d) [ none ↦ best | some s ↦ better best (s, other) ])
      panes

abbrev pub candidate_id : Option Candidate → Option PaneId
candidate_id none = none
candidate_id (some (s, id)) = some id

unfoldable pub directional_neighbor : Layout → PaneId → Direction → Result Error (Option PaneId)
directional_neighbor l id d = do
  fail_if (not (contains l.root id)) unknown_pane
  let panes = (tiled_geometry l).panes
  source ← ok_or (find_pane id panes) panic
  ok (candidate_id (nearest id source d none panes))

abbrev pub activate : Layout → Option PaneId → Layout
activate l none = l
activate l (some target) = record l { active = target }

unfoldable pub select_direction_from :
    Layout → PaneId → Direction → Result Error (Layout × Option PaneId)
select_direction_from l origin d = do
  target ← directional_neighbor l origin d
  ok (activate l target, target)

-- `expect("active pane exists")`
abbrev pub expect {ℓ} : {A : Type ℓ} → Result Error A → Result Error A
expect (ok a) = ok a
expect (err e) = err panic

unfoldable pub select_direction : Layout → Direction → Result Error (Layout × Option PaneId)
unfolding select_direction_from
select_direction l d = expect (select_direction_from l l.active d)

unfoldable pub move_target : Layout → PaneId → Direction → Result Error (Option PaneId)
move_target l id d = do
  target ← directional_neighbor l id d
  fail_if l.zoomed zoomed_move
  ok target

abbrev pub exchange_with : Layout → PaneId → Option PaneId → Layout × Bool
exchange_with l id none = (l, false)
exchange_with l id (some target) = (record l { root = exchange l.root id target }, true)

unfoldable pub move_pane : Layout → PaneId → Direction → Result Error (Layout × Bool)
unfolding move_target
move_pane l id d = do target ← move_target l id d; ok (exchange_with l id target)

unfoldable pub move_active : Layout → Direction → Result Error (Layout × Bool)
unfolding move_pane
move_active l d = if l.zoomed then ok (l, false) else expect (move_pane l l.active d)

unfoldable pub swap_panes : Layout → PaneId → PaneId → Result Error (Layout × Bool)
swap_panes l first second = do
  fail_if (not (contains l.root first) || not (contains l.root second)) unknown_pane
  fail_if l.zoomed zoomed_swap
  if first == second
      then ok (l, false)
      else ok (record l { root = exchange l.root first second }, true)

unfoldable pub swap_active : Layout → Bool → Result Error (Layout × Bool)
swap_active l backwards = if l.count == 1 || l.zoomed then ok (l, false) else (do
  let panes = (tiled_geometry l).panes
  index ← ok_or (position l.active panes) panic
  let target = if backwards then (index + l.count - 1) % l.count else (index + 1) % l.count
  found ← ok_or (get_elem? panes target) panic
  ok (record l { root = exchange l.root l.active found.0 }, true))

-- The axis and the sign of a direction, times the cells.
abbrev pub direction_axis : Direction → SplitAxis
direction_axis d = if is_horizontal d then columns else rows

abbrev pub negate : ℕ → ℤ
negate zero = pos zero
negate (suc n) = negsuc n

abbrev pub direction_delta : Direction → ℕ → ℤ
direction_delta d cells = if is_forward d then pos cells else negate cells

abbrev pub adjusted : Layout → Node → Option Bool → Layout × Bool
adjusted l root none = (record l { root = root }, false)
adjusted l root (some moved) = (record l { root = root }, moved)

unfoldable pub adjust_pane : Layout → PaneId → Direction → ℕ → Layout × Bool
adjust_pane l id d cells =
    if l.zoomed
    then (l, false)
    else (let (root, moved) =
          adjust l.root id (canvas l) (direction_axis d) (direction_delta d cells) in
        adjusted l root moved)

unfoldable pub resize_active : Layout → Direction → Layout × Bool
unfolding adjust_pane
resize_active l d = adjust_pane l l.active d 1

unfoldable pub resize_pane : Layout → PaneId → Direction → ℕ → Result Error (Layout × Bool)
unfolding adjust_pane
resize_pane l id d cells = do
  fail_if (cells == 0) zero_cells
  fail_if (not (contains l.root id)) unknown_pane
  ok (adjust_pane l id d cells)

abbrev pub is_zero : ℤ → Bool
is_zero (pos zero) = true
is_zero _ = false

unfoldable pub resize_separator : Layout → ℕ → ℤ → Layout × Bool
resize_separator l index delta =
    if l.zoomed || is_zero delta
    then (l, false)
    else (let (root, moved, _rest) = adjust_separator l.root index (canvas l) delta in
        adjusted l root moved)

unfoldable pub split_active : Layout → SplitAxis → Result Error (Layout × PaneId)
split_active l axis = do
  fail_if l.floating floating_split
  fail_if (l.count == max_panes) pane_limit
  rect ← ok_or (find_pane l.active (tiled_geometry l).panes) panic
  fail_if (ltb (side axis rect) (2 + split_border_cells)) no_space
  fail_if (leb (2 ^ 64) (l.next_id + 1)) ids_exhausted
  ok (
    record l {
      root = (split_at l.root l.active axis l.next_id).0;
      active = l.next_id;
      next_id = l.next_id + 1;
      count = l.count + 1;
      zoomed = false;
    },
    l.next_id,
  )

-- `panes.get(index + 1).unwrap_or(&panes[index.saturating_sub(1)]).0`
abbrev pub successor : List (PaneId × Rect) → ℕ → Option (PaneId × Rect)
successor panes index = elim (get_elem? panes (index + 1)) [
  | none ↦ get_elem? panes (index - 1)
  | some found ↦ some found
]

unfoldable pub close : Layout → PaneId → Result Error (Layout × PaneId)
close l id = do
  let panes = (tiled_geometry l).panes
  index ← ok_or (position id panes) unknown_pane
  fail_if (l.count == 1) last_pane
  next_active ←
      if l.active == id
      then ok_or (elim (successor panes index) [ none ↦ none | some p ↦ some p.0 ]) panic
      else ok l.active
  ok (
    record l {
      root = (remove l.root id).0;
      active = next_active;
      count = l.count - 1;
      zoomed = false;
    },
    next_active,
  )

-- The derived `==` on trees.
unfoldable pub node_eq : Node → Node → Bool
node_eq (pane a) (pane b) = a == b
node_eq (split x (m, n) a b) (split y (p, q) c d) =
    axis_eq x y && m == p && n == q && node_eq a c && node_eq b d
node_eq _ _ = false

abbrev pub axis_or_columns : Option SplitAxis → SplitAxis
axis_or_columns none = columns
axis_or_columns (some axis) = axis

unfoldable pub restore_closed : Layout → Layout → Layout → PaneId → Result Error (Layout × PaneId)
unfolding split_active
restore_closed l before after id =
    if node_eq l.root after.root
    then (do
      restored ← resize before l.rows l.columns
      ok (
        record restored { next_id = max restored.next_id l.next_id; active = id; zoomed = false },
        id,
      ))
    else split_active l (axis_or_columns (parent_axis before.root id))
