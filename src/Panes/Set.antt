-- ===== src/Panes/Set.antt =====
-- `PaneSet` of src/pane_set.rs and its operations. The contents are of any type; what creates one
-- is an argument, which may keep a state of its own. `try_reserve` is taken to succeed.
use rustmux.Base.{
  Bool, List, Option, false, get_elem?, if◌then◌else◌, none, some, ℕ, ◌++◌, ◌==◌, ◌||◌, ◌∷◌, [],
}
use rustmux.Base.Result.{Result, ok, err, ◌>>=◌, ◌>>◌, fail_if, ok_or}
use rustmux.Layout.Rect.{Rect, SplitAxis}
use rustmux.Layout.Node.{PaneId}
use rustmux.Layout.Geometry.{
  Layout, Error, panic, tiled_content_geometry, content_geometry, find_pane,
}
use rustmux.Layout.Operations.{restore_closed, split_active}

pub record PaneSet (T : Type 0) : Type 0 where
  pub layout : Layout
  pub entries : List (PaneId × T)

-- An `io::Error`: one of the layout's, one of this module's, or one that comes from outside.
pub data Failure : Type 0 where
  refused : Error → Failure
  no_content_space unknown_content : Failure
  outside : ℕ → Failure

abbrev pub of_layout : {A : Type 0} → Result Error A → Result Failure A
of_layout (ok a) = ok a
of_layout (err e) = err (refused e)

abbrev pub any_empty : List (PaneId × Rect) → Bool
any_empty [] = false
any_empty ((id, rect) ∷ panes) = rect.rows == 0 || rect.columns == 0 || any_empty panes

unfoldable pub require_content_cells : Layout → Result Failure (Unit {0})
require_content_cells l = fail_if (any_empty (tiled_content_geometry l).panes) no_content_space

-- `*geometry.iter_mut().find(|(id, _)| *id == visible.0).unwrap() = visible`
abbrev pub put_rect : PaneId → Rect → List (PaneId × Rect) → Option (List (PaneId × Rect))
put_rect id rect [] = none
put_rect id rect ((other, old) ∷ panes) =
    if other == id
    then some ((id, rect) ∷ panes)
    else elim (put_rect id rect panes) [ none ↦ none | some new ↦ some ((other, old) ∷ new) ]

unfoldable pub shown_rects : Layout → Result Failure (List (PaneId × Rect))
shown_rects l =
    let panes = (tiled_content_geometry l).panes in
    if l.zoomed
    then (do
      visible ← ok_or (get_elem? (content_geometry l).panes 0) (refused panic)
      ok_or (put_rect visible.0 visible.1 panes) (refused panic))
    else ok panes

module _ {T : Type 0} where
  -- The entry of an identity, as `find` on `entries` returns it.
  abbrev pub lookup : PaneId → List (PaneId × T) → Option T
  lookup id [] = none
  lookup id ((pane, content) ∷ entries) = if pane == id then some content else lookup id entries

  -- `entries.remove(index)` at the first entry of an identity.
  abbrev pub without : PaneId → List (PaneId × T) → List (PaneId × T)
  without id [] = []
  without id ((pane, content) ∷ entries) =
      if pane == id then entries else (pane, content) ∷ without id entries

  unfoldable pub new_set : ℕ → ℕ → T → Result Failure (PaneSet T)
  unfolding rustmux.Layout.Geometry.new
  new_set rows columns content = do
    l ← of_layout (rustmux.Layout.Geometry.new rows columns)
    ok (record { layout = l; entries = (l.active, content) ∷ [] })

  abbrev pub get : PaneSet T → PaneId → Option T
  get set id = lookup id set.entries

  unfoldable pub active_content : PaneSet T → Result Failure T
  active_content set = ok_or (get set set.layout.active) (refused panic)

  unfoldable pub close : PaneSet T → PaneId → Result Failure (PaneSet T × T)
  unfolding rustmux.Layout.Operations.close
  close set id = do
    content ← ok_or (lookup id set.entries) unknown_content
    closed ← of_layout (rustmux.Layout.Operations.close set.layout id)
    ok (record { layout = closed.0; entries = without id set.entries }, content)

  module _ {S : Type 0} where
    unfoldable pub create_all :
        (PaneId → Rect → S → Result Failure (T × S))
        → List (PaneId × Rect)
        → S
        → Result Failure (List (PaneId × T) × S)
    create_all create [] s = ok ([], s)
    create_all create ((id, rect) ∷ panes) s = do
      made ← create id rect s
      rest ← create_all create panes made.1
      ok ((id, made.0) ∷ rest.0, rest.1)

    unfoldable pub from_layout_with :
        Layout → (PaneId → Rect → S → Result Failure (T × S)) → S → Result Failure (PaneSet T × S)
    unfolding require_content_cells shown_rects create_all
    from_layout_with l create s = do
      require_content_cells l
      panes ← shown_rects l
      made ← create_all create panes s
      ok (record { layout = l; entries = made.0 }, made.1)

    unfoldable pub split_with :
        PaneSet T
        → SplitAxis
        → (PaneId → Rect → Result Failure (T × S))
        → Result Failure (PaneSet T × PaneId × S)
    unfolding split_active require_content_cells
    split_with set axis create = do
      candidate ← of_layout (split_active set.layout axis)
      require_content_cells candidate.0
      rect ←
          ok_or (find_pane candidate.1 (tiled_content_geometry candidate.0).panes) (refused panic)
      made ← create candidate.1 rect
      ok (
        record { layout = candidate.0; entries = set.entries ++ (candidate.1, made.0) ∷ [] },
        candidate.1,
        made.1,
      )

    unfoldable pub restore_with :
        PaneSet T
        → Layout
        → Layout
        → PaneId
        → (Rect → Result Failure (T × S))
        → Result Failure (PaneSet T × S)
    unfolding restore_closed
    restore_with set before after id create = do
      restored ← of_layout (restore_closed set.layout before after id)
      rect ← ok_or (find_pane restored.1 (tiled_content_geometry restored.0).panes) (refused panic)
      made ← create rect
      ok (
        record { layout = restored.0; entries = set.entries ++ (restored.1, made.0) ∷ [] },
        made.1,
      )
