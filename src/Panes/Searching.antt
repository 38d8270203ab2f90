-- ===== src/Panes/Searching.antt =====
-- `PaneSet::resize_pane` of src/pane_set.rs: the binary search for the largest movement that leaves
-- every pane a content cell.
use mathlib.Core.Path.{subst}
use rustmux.Base.{
  Bool, Bool-cases, arith, inl, inr, ltb, some, suc, true, zero, ℕ, ◌+◌, ◌-◌, ◌/◌, ◌<◌, ◌==◌, ◌≡◌,
  ◌≤◌, ◌⊎◌, false, ◌/◌,
}
use rustmux.Base.Result.{ok}
use rustmux.Layout.Rect.{Direction}
use rustmux.Layout.Node.{PaneId, contains}
use rustmux.Layout.Geometry.{Layout}
use rustmux.Layout.Operations.{adjust_pane}
use rustmux.Panes.Set.{require_content_cells}
use rustmux.Panes.Moving.{search_cells, probe_fits, is_ok}

pub resize_ok :
    (l : Layout) (id : PaneId) (d : Direction) (cells : ℕ)
    → contains l.root id ≡ true
    → 0 < cells
    → rustmux.Layout.Operations.resize_pane l id d cells ≡ ok (adjust_pane l id d cells)
unfolding rustmux.Layout.Operations.resize_pane
resize_ok l id d cells known some_cells =
    let positive : (cells == 0) ≡ false = ground arith in rw (positive, known)

-- Whether every pane has a content cell after the movement.
abbrev pub fits_after : Layout → PaneId → Direction → ℕ → Bool
fits_after l id d cells = is_ok (require_content_cells (adjust_pane l id d cells).0)

pub probe_ok :
    (l : Layout) (id : PaneId) (d : Direction) (cells : ℕ)
    → contains l.root id ≡ true
    → 0 < cells
    → probe_fits l id d cells ≡ ok (fits_after l id d cells)
probe_ok l id d cells known some_cells = rw (resize_ok l id d cells known some_cells)

-- A number of at most `cells` that fits, or 0, and whose successor does not fit unless it is `cells`.
abbrev pub Peak : Layout → PaneId → Direction → ℕ → ℕ → Type 0
Peak l id d cells n =
    ((n ≡ 0) ⊎ (fits_after l id d n ≡ true)) × ((n ≡ cells) ⊎ (fits_after l id d (n + 1) ≡ false))

module _ (l : Layout) (id : PaneId) (d : Direction) (known : contains l.root id ≡ true)
    (cells : ℕ) where
  -- The search ends at such a number.
  pub search_cells-Peak :
      (fuel low high : ℕ)
      → high - low < fuel
      → low ≤ high
      → high ≤ cells
      → (low ≡ 0) ⊎ (fits_after l id d low ≡ true)
      → (high ≡ cells) ⊎ (fits_after l id d (high + 1) ≡ false)
      → (n : ℕ) × (search_cells fuel l id d low high ≡ ok (some n))
        × (n ≤ cells)
        × Peak l id d cells n
  unfolding search_cells
  search_cells-Peak zero low high f o b p q = absurd (omega arith)
  search_cells-Peak (suc fuel) low high f o b p q = elim (Bool-cases (ltb low high)) [
    | inr ended ↦
        let same : high ≡ low = ground arith in
        (
          low,
          rw ended,
          omega arith,
          (p, subst (λ h. (h ≡ cells) ⊎ (fits_after l id d (h + 1) ≡ false)) same q),
        )
    | inl going ↦
        let middle = low + (high - low + 1) / 2 in
        let probe = probe_ok l id d middle known (ground arith) in
        elim (Bool-cases (fits_after l id d middle)) [
          | inl good ↦
              let (n, e, b', peak) =
                search_cells-Peak fuel middle high (ground arith) (ground arith) b (inr good) q in
              (n, rw (going, probe, good) e, b', peak)
          | inr bad ↦
              let back : middle - 1 + 1 ≡ middle = ground arith in
              let (n, e, b', peak) =
                search_cells-Peak fuel low (middle - 1) (ground arith) (ground arith) (ground arith)
                  p (inr (rw back bad)) in
              (n, rw (going, probe, bad) e, b', peak)
        ]
  ]
