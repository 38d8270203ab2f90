-- ===== src/Panes/Moving.antt =====
-- The operations of `PaneSet` (src/pane_set.rs) that resize panes or move one to another set.
use rustmux.Base.{
  Bool, Option, false, if◌then◌else◌, length, ltb, none, not, some, suc, true, zero, ℕ, ◌+◌, ◌-◌,
  ◌/◌, ◌==◌, ◌∷◌, [],
}
use rustmux.Base.Result.{Result, ok, err, ◌>>=◌, ◌>>◌}
use rustmux.Layout.Rect.{Direction, SplitAxis}
use rustmux.Layout.Node.{PaneId}
use rustmux.Layout.Geometry.{Layout, Error, panic}
use rustmux.Panes.Set.{
  require_content_cells, of_layout, PaneSet, Failure, refused, close, split_with,
}

abbrev pub is_ok : {A : Type 0} → Result Failure A → Bool
is_ok (ok a) = true
is_ok (err e) = false

-- `probe.resize_pane(id, direction, middle)?` and the test of the probe; the first field is the
-- error that `?` would return.
abbrev pub probe_fits : Layout → PaneId → Direction → ℕ → Result Failure Bool
probe_fits l id d cells = do
  moved ← of_layout (rustmux.Layout.Operations.resize_pane l id d cells)
  ok (is_ok (require_content_cells moved.0))

-- `while low < high { … }`; `none` is a loop of the model that ran out of fuel.
unfoldable pub search_cells : ℕ → Layout → PaneId → Direction → ℕ → ℕ → Result Failure (Option ℕ)
unfolding require_content_cells rustmux.Layout.Operations.resize_pane
search_cells zero l id d low high = ok none
search_cells (suc fuel) l id d low high =
    let middle = low + (high - low + 1) / 2 in
    let rest = probe_fits l id d middle >>= λ fits.
    search_cells fuel l id d (if fits then middle else low) (if fits then high else middle - 1) in
    if ltb low high then rest else ok (some low)

-- What `resize_pane` does with the number of cells that the search found.
abbrev pub settle :
    {T : Type 0} → PaneSet T → PaneId → Direction → Option ℕ → Result Failure (PaneSet T × Bool)
settle set id d none = err (refused panic)
settle set id d (some low) = if low == 0 then ok (set, false) else (do
  moved ← of_layout (rustmux.Layout.Operations.resize_pane set.layout id d low)
  ok (record set { layout = moved.0 }, true))

module _ {T : Type 0} where
  unfoldable pub resize_pane :
      PaneSet T → PaneId → Direction → ℕ → Result Failure (PaneSet T × Bool)
  unfolding search_cells require_content_cells rustmux.Layout.Operations.resize_pane
  resize_pane set id d cells = do
    moved ← of_layout (rustmux.Layout.Operations.resize_pane set.layout id d cells)
    if not moved.1
        then ok (set, false)
        else if is_ok (require_content_cells moved.0)
        then ok (record set { layout = moved.0 }, true)
        else (search_cells (suc cells) set.layout id d 0 cells >>= settle set id d)

  unfoldable pub resize_active : PaneSet T → Direction → PaneSet T × Bool
  unfolding resize_pane
  resize_active set d = elim (resize_pane set set.layout.active d 1) [
    | err e ↦ (set, false)
    | ok moved ↦ moved
  ]

  unfoldable pub resized_layout : PaneSet T → ℕ → ℕ → Result Failure Layout
  unfolding require_content_cells rustmux.Layout.Geometry.resize
  resized_layout set rows columns = do
    candidate ← of_layout (rustmux.Layout.Geometry.resize set.layout rows columns)
    require_content_cells candidate
    ok candidate

  unfoldable pub resize : PaneSet T → ℕ → ℕ → Result Failure (PaneSet T)
  unfolding resized_layout
  resize set rows columns = do l ← resized_layout set rows columns; ok (record set { layout = l })

  unfoldable pub validate_resize : PaneSet T → ℕ → ℕ → Result Failure (Unit {0})
  unfolding resized_layout
  validate_resize set rows columns = resized_layout set rows columns >>= λ l. ok tt

  -- `entries.pop()` on the only entry of a set; the caller drops the emptied set at once.
  abbrev pub pop_only : PaneSet T → Result Failure (T × PaneSet T)
  pop_only set = elim set.entries [
    | [] ↦ err (refused panic)
    | entry ∷ _ ↦ ok (entry.1, record set { entries = [] })
  ]

  abbrev pub turn : PaneSet T × T → T × PaneSet T
  turn (set, content) = (content, set)

  -- The closure that `transfer_active_to` hands to `split_with`.
  unfoldable pub extract_active : PaneSet T → Result Failure (T × PaneSet T)
  unfolding close
  extract_active set =
      if length set.entries == 1
      then pop_only set
      else (close set set.layout.active >>= λ closed. ok (turn closed))

  -- The new source and the new target.
  unfoldable pub transfer_active_to :
      PaneSet T → PaneSet T → SplitAxis → Result Failure (PaneSet T × PaneSet T)
  unfolding split_with extract_active
  transfer_active_to set target axis = do
    out ← split_with target axis (λ id rect. extract_active set)
    ok (out.2, out.0)

  -- The new source and the detached set; `none` for a set of one pane, which stays as it is.
  unfoldable pub detach_active : PaneSet T → Result Failure (PaneSet T × Option (PaneSet T))
  unfolding close rustmux.Layout.Geometry.new
  detach_active set = if length set.entries == 1 then ok (set, none) else (do
    l ← of_layout (rustmux.Layout.Geometry.new set.layout.rows set.layout.columns)
    closed ← close set set.layout.active
    ok (closed.0, some (record { layout = l; entries = (l.active, closed.1) ∷ [] })))
