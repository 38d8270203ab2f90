-- ===== src/Windows/Joining.antt =====
-- The methods of `Windows<PaneSet<T>>` in src/window.rs, which move a pane between windows.
use rustmux.Base.{
  Bool, List, Option, get_elem?, if◌then◌else◌, length, ltb, none, some, suc, true, zero, ℕ, ◌%◌,
  ◌++◌, ◌+◌, ◌-◌, ◌==◌, ◌∷◌, [], false,
}
use rustmux.Base.Result.{Result, ok, err, ◌>>=◌, ok_or}
use rustmux.Layout.Rect.{SplitAxis}
use rustmux.Layout.Geometry.{tiled_geometry}
use rustmux.Panes.Set.{of_layout, PaneSet, Failure}
use rustmux.Panes.Moving.{transfer_active_to, detach_active}
use rustmux.Windows.Store.{
  checked_next, unknown_window, active_window, index, Windows, Window, WindowId, WindowError,
  select, no_active_window, panic, pane_failure, ids_exhausted,
}
use rustmux.Windows.Order.{close}
use rustmux.Layout.Node.{PaneId}

abbrev pub of_panes : {A : Type 0} → Result Failure A → Result WindowError A
of_panes (ok a) = ok a
of_panes (err e) = err (pane_failure e)

-- `self.entries[i].content = content`
abbrev pub put_content : {C : Type 0} → ℕ → C → List (Window C) → List (Window C)
put_content i c [] = []
put_content zero c (x ∷ xs) = record x { content = c } ∷ xs
put_content (suc i) c (x ∷ xs) = x ∷ put_content i c xs

module _ {T : Type 0} where
  unfoldable pub join_pane_from :
      Windows (PaneSet T)
      → WindowId
      → WindowId
      → SplitAxis
      → Result WindowError (Windows (PaneSet T) × Bool)
  unfolding transfer_active_to select close
  join_pane_from w source target axis = do
    target_index ← ok_or (index target w.entries) unknown_window
    source_index ← ok_or (index source w.entries) unknown_window
    if source_index == target_index then ok (w, false) else (do
      from ← ok_or (get_elem? w.entries source_index) panic
      to ← ok_or (get_elem? w.entries target_index) panic
      moved ← of_panes (transfer_active_to from.content to.content axis)
      let entries = put_content target_index moved.1 (put_content source_index moved.0 w.entries)
      selected ← select (record w { entries = entries }) target
      if length moved.0.entries == 0
          then (close selected from.id >>= λ closed. ok (closed.0, true))
          else ok (selected, true))

  unfoldable pub join_active_pane :
      Windows (PaneSet T) → WindowId → SplitAxis → Result WindowError (Windows (PaneSet T) × Bool)
  unfolding join_pane_from
  join_active_pane w target axis = do
    source ← ok_or (active_window w) no_active_window
    join_pane_from w source.id target axis

  -- `(active + offset).rem_euclid(len)` for an offset of one window to either side.
  abbrev pub relative_index : Windows (PaneSet T) → Bool → ℕ
  relative_index w forward =
      let n = length w.entries in if forward then (w.active + 1) % n else (w.active + n - 1) % n

  -- `content.select(pane)` of the window at `i`; the focus of a failed join is put back the same way.
  abbrev pub select_pane :
      Windows (PaneSet T) → ℕ → PaneId → Result WindowError (Windows (PaneSet T))
  select_pane w i pane = do
    window ← ok_or (get_elem? w.entries i) panic
    l ← of_panes (of_layout (rustmux.Layout.Operations.select window.content.layout pane))
    ok (record w { entries = put_content i (record window.content { layout = l }) w.entries })

  -- The collection that is left beside the result, since a failed join has put the focus back.
  unfoldable pub move_active_pane_relative :
      Windows (PaneSet T)
      → Bool
      → Result WindowError (Windows (PaneSet T) × Result WindowError Bool)
  unfolding join_active_pane rustmux.Layout.Operations.select tiled_geometry
  move_active_pane_relative w forward = if ltb (length w.entries) 2 then ok (w, ok false) else (do
    let i = relative_index w forward
    window ← ok_or (get_elem? w.entries i) panic
    first ← ok_or (get_elem? (tiled_geometry window.content.layout).panes 0) panic
    aimed ← select_pane w i first.0
    elim (join_active_pane aimed window.id SplitAxis.columns) [
      | ok joined ↦ ok (joined.0, ok joined.1)
      | err e ↦ do back ← select_pane aimed i window.content.layout.active; ok (back, err e)
    ])

  -- `self.active_mut().unwrap().content = content`
  abbrev pub put_active : Windows (PaneSet T) → PaneSet T → Windows (PaneSet T)
  put_active w c =
      if w.floating_visible
      then record w {
        floating = elim w.floating [ none ↦ none | some x ↦ some (record x { content = c }) ];
      }
      else record w { entries = put_content w.active c w.entries }

  unfoldable pub break_active_pane :
      Windows (PaneSet T) → Result WindowError (Windows (PaneSet T) × Option WindowId)
  unfolding detach_active
  break_active_pane w = elim (active_window w) [
    | none ↦ ok (w, none)
    | some source ↦ if length source.content.entries == 1 then ok (w, none) else (do
      value ← ok_or w.next_id ids_exhausted
      split ← of_panes (detach_active source.content)
      content ← ok_or split.1 panic
      let kept = put_active w split.0
      ok (
        record kept {
          entries =
              kept.entries ++ record { id = value; name = source.name; content = content } ∷ [];
          next_id = checked_next value;
          last_active = some source.id;
          active = length kept.entries;
        },
        some value,
      ))
  ]
