-- ===== src/Panes/Resizing.antt =====
-- `PaneSet::resize_pane` of src/pane_set.rs: every outcome.
use rustmux.Base.{Bool, true, ℕ, ◌+◌, ◌<◌, ◌≡◌, ◌≤◌, ◌⊎◌, false}
use rustmux.Layout.Rect.{Direction}
use rustmux.Layout.Node.{Node, PaneId}
use rustmux.Layout.Geometry.{Layout}
use rustmux.Layout.Operations.{adjust_pane}
use rustmux.Panes.Set.{PaneSet}
use rustmux.Panes.Searching.{fits_after}

module _ {T : Type 0} (set : PaneSet T) (id : PaneId) (d : Direction) where
  abbrev resized : ℕ → PaneSet T
  resized n = record set { layout = (adjust_pane set.layout id d n).0 }

  -- What `resize_pane` returns when `cells` cells are asked for. Either nothing changes, and the
  -- movement by `cells` moves no separator or the one by a single cell leaves a pane without a
  -- content cell. Or the separator moves by `n` cells, one or more and at most `cells`, which leaves every pane a
  -- content cell, and `n` is `cells` or a movement by `n + 1` does not.
  abbrev pub Resized : ℕ → PaneSet T × Bool → Type 0
  Resized cells out =
      ((out ≡ (set, false))
        × (((adjust_pane set.layout id d cells).1 ≡ false)
            ⊎ (fits_after set.layout id d 1 ≡ false)))
      ⊎ ((n : ℕ) × (out ≡ (resized n, true))
          × (0 < n)
          × (n ≤ cells)
          × (fits_after set.layout id d n ≡ true)
          × ((n ≡ cells) ⊎ (fits_after set.layout id d (n + 1) ≡ false)))
