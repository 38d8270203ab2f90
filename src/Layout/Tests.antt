-- ===== src/Layout/Tests.antt =====
-- Runs of the layout code on a terminal of 24 rows and 80 columns, and the theorems at concrete
-- layouts.
use rustmux.Base.{
  ◌⊎◌, ◌≢◌, ◌+◌, ◌-◌, ◌≤◌, Bool, Option, if◌then◌else◌, ltb, not, some, true, ◌&&◌, ◌==◌, ◌||◌, [],
  arith, false, refl, ◌∷◌, ◌≡◌,
}
use rustmux.Layout.Rect.{split_rects, SplitAxis, Direction, Rect}
use rustmux.Layout.Node.{adjust, split_at, minimum, place, PaneId}
use rustmux.Layout.Geometry.{
  tiled_content_geometry, inset, too_small, canvas, resize, find_pane, tiled_geometry, new, Layout,
}
use rustmux.Layout.Valid.{Safe, IsValid}
use rustmux.Layout.Operations.{
  swap_panes, exchange_with, activate, restore_closed, resize_pane, select_direction_from,
  move_active, swap_active, close, split_active,
}
use rustmux.Base.Result.{err, ok}
use rustmux.Base.Word.{negsuc, to_u16, sub16, add16}
use rustmux.Layout.Tiling.{coverage}
use rustmux.Layout.Steering.{adjust-Steers, Steered}
use rustmux.Layout.Reachable.{start, Reach-IsValid}
use rustmux.Layout.Tiled.{
  inset-frame, frame, tiled_geometry-swap_panes, swap_geometry, coverage-tiled_geometry,
}
use rustmux.Layout.Splitting.{split_active-Safe}
use rustmux.Layout.Closing.{close_total, next_focus, closed_layout}
use rustmux.Layout.Exchange.{select_direction_from_total, move_active_total, swap_active_total}
use rustmux.Layout.Minimum.{least}
use rustmux.Layout.Restoring.{resize_outcomes, restore_closed-Safe}
use rustmux.Layout.Leaves.{leaves}
use rustmux.Layout.Samples.{single, two, three, single-IsValid, three-IsValid}
use rustmux.Layout.Closest.{IsClosest}
use rustmux.Base.Members.{erase}
use rustmux.Layout.Saved.{out_of_fuel, any_empty, saved, from_saved}
use rustmux.Layout.Rereading.{from_saved-saved}
use rustmux.Layout.Reading.{from_saved_ends, from_saved-IsValid}
use rustmux.Layout.Checked.{resize_pane_checked}
use rustmux.Layout.Unpanicked.{resize_pane_checked-Safe}

new_runs : new 24 80 ≡ ok single
unfolding new
new_runs = refl

split_runs : split_active two SplitAxis.rows ≡ ok (three, 2)
unfolding split_active tiled_geometry place split_rects minimum split_at add16 sub16 to_u16
split_runs = refl

three_panes :
    (tiled_geometry three).panes
    ≡ (0, record { row = 0; column = 0; rows = 24; columns = 39 })
      ∷ (1, record { row = 0; column = 41; rows = 11; columns = 39 })
      ∷ (2, record { row = 13; column = 41; rows = 11; columns = 39 })
      ∷ []
unfolding tiled_geometry place split_rects minimum add16 sub16 to_u16
three_panes = refl

coverage-tiled_geometry_example :
    coverage 12 45 (tiled_geometry three) ≡ (if ltb 12 24 && ltb 45 80 then 1 else 0)
coverage-tiled_geometry_example = coverage-tiled_geometry three 12 45 three-IsValid refl

split_active-Safe_example : Safe (λ out. IsValid out.0) (split_active three SplitAxis.columns)
split_active-Safe_example = split_active-Safe three SplitAxis.columns three-IsValid

close_total_example :
    (next : PaneId) × (close three 2 ≡ ok (closed_layout three 2 next, next))
    × (next_focus three 2 ≡ some next)
    × (leaves (closed_layout three 2 next).root ≡ erase 2 (leaves three.root))
    × IsValid (closed_layout three 2 next)
close_total_example = close_total three 2 three-IsValid refl (omega arith)

adjust-Steers_example :
    Steered SplitAxis.columns
      (negsuc 4)
      2
      three.root
      (canvas three)
      (adjust three.root 2 (canvas three) SplitAxis.columns (negsuc 4))
adjust-Steers_example =
    adjust-Steers three.root 2 (canvas three) SplitAxis.columns (negsuc 4) (omega arith)
      (omega arith) refl

abbrev left_part : Rect
left_part = record { row = 0; column = 0; rows = 24; columns = 39 }

select_direction_from_total_example :
    (source : Rect) × (find_pane 0 (tiled_geometry three).panes ≡ some source)
    × (target : Option PaneId) × (select_direction_from three 0 Direction.right
        ≡ ok (activate three target, target))
    × IsClosest 0 source Direction.right (tiled_geometry three).panes target
    × IsValid (activate three target)
select_direction_from_total_example =
    select_direction_from_total three 0 Direction.right three-IsValid refl

swap_active_total_example :
    (out : Layout × Bool) × (swap_active three true ≡ ok out)
    × IsValid out.0
    × (out.1 ≡ not (three.count == 1 || three.zoomed))
swap_active_total_example = swap_active_total three true three-IsValid

move_active_total_example :
    (out : Layout × Bool) × (move_active three Direction.up ≡ ok out)
    × IsValid out.0
    × ((target : Option PaneId) × (out
          ≡ (if three.zoomed then (three, false) else exchange_with three three.active target)))
move_active_total_example = move_active_total three Direction.up three-IsValid

resize_pane_checked-Safe_example :
    (resize_pane_checked three 1 Direction.down 3 ≡ resize_pane three 1 Direction.down 3)
    × Safe
        (λ out. IsValid out.0 × ((out.1 ≡ true) ⊎ (out.0 ≡ three)))
        (resize_pane_checked three 1 Direction.down 3)
resize_pane_checked-Safe_example =
    resize_pane_checked-Safe three 1 Direction.down 3 three-IsValid (omega arith)

tiled_geometry-swap_panes_example :
    (out : Layout × Bool) × (swap_panes three 0 2 ≡ ok out)
    × (out.0 ≡ record three { root = out.0.root })
    × (tiled_geometry out.0 ≡ swap_geometry 0 2 (tiled_geometry three))
    × (out.1 ≡ true)
tiled_geometry-swap_panes_example = tiled_geometry-swap_panes three 0 2 refl refl refl refl

restore_closed-Safe_example : Safe (λ out. IsValid out.0) (restore_closed single three single 2)
restore_closed-Safe_example =
    restore_closed-Safe single three single 2 single-IsValid three-IsValid refl

Reach-IsValid_example : IsValid single
Reach-IsValid_example = Reach-IsValid (start 24 80 (omega arith) (omega arith) new_runs)

resize_outcomes_example : resize three 5 3 ≡ (
    if ltb 5 (least three.root).0 || ltb 3 (least three.root).1
    then err too_small
    else ok (record three { rows = 5; columns = 3 }))
resize_outcomes_example = resize_outcomes three 5 3 three-IsValid

inset-frame_example :
    let top = frame 24 (left_part.row == 0) in
    let bottom = frame 24 (left_part.row + left_part.rows == 24) in
    let near = frame 80 (left_part.column == 0) in
    let far = frame 80 (left_part.column + left_part.columns == 80) in
    (inset 24 80 left_part ≡ record {
      row = left_part.row + top;
      column = left_part.column + near;
      rows = left_part.rows - top - bottom;
      columns = left_part.columns - near - far;
    })
    × (top + bottom ≤ left_part.rows)
    × (near + far ≤ left_part.columns)
inset-frame_example = inset-frame 24 80 left_part (omega arith) (omega arith) (omega arith)

saved-three : from_saved (saved three) 24 80 ≡ ok three
unfolding from_saved saved tiled_content_geometry tiled_geometry place inset split_rects minimum
    add16 sub16 to_u16
saved-three = refl

wide_three : from_saved (saved three) 30 100 ≡ ok (record three { rows = 30; columns = 100 })
unfolding from_saved saved minimum add16 tiled_content_geometry place inset split_rects sub16 to_u16
wide_three = refl

from_saved-IsValid_example :
    IsValid (record three { rows = 30; columns = 100 })
    × (any_empty (tiled_content_geometry (record three { rows = 30; columns = 100 })).panes ≡ false)
from_saved-IsValid_example =
    from_saved-IsValid (saved three) 30 100 (omega arith) (omega arith) wide_three

from_saved_ends_example : from_saved (saved three) 30 100 ≢ err out_of_fuel
from_saved_ends_example = from_saved_ends (saved three) 30 100

roomy_three :
    any_empty (tiled_content_geometry (record three { rows = 30; columns = 100 })).panes ≡ false
unfolding tiled_content_geometry place inset add16 split_rects sub16 to_u16 minimum
roomy_three = refl

from_saved-saved_example :
    from_saved (saved three) 30 100 ≡ ok (record three { rows = 30; columns = 100; next_id = 3 })
from_saved-saved_example =
    from_saved-saved three 30 100 three-IsValid refl (λ t m. ground arith) (omega arith)
      (omega arith) (omega arith) (omega arith) roomy_three
