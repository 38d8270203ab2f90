-- ===== src/Layout/Tiling.antt =====
-- The panes and separators that `Node::place` lays out tile their rectangle.
use rustmux.Base.{[], arith, if◌then◌else◌, leb, ltb, ◌&&◌, ◌++◌, ◌+◌, ◌∷◌, ◌≡◌, ◌≤◌, ℕ, List}
use rustmux.Layout.Rect.{SplitAxis, columns, rows, Rect, side}
use rustmux.Layout.Node.{PaneId, Node, pane, split, Geometry, place}
use rustmux.Layout.Cut.{cut}
use rustmux.Layout.Minimum.{place-split, add_separator, Fits, Fits-Splits, first_cells}

-- How often a rectangle covers the cell at row `i` and column `j`.
abbrev pub covers : ℕ → ℕ → Rect → ℕ
covers i j r =
    if leb r.row i && ltb i (r.row + r.rows) && leb r.column j && ltb j (r.column + r.columns)
    then 1
    else 0

abbrev pub pane_covers : ℕ → ℕ → List (PaneId × Rect) → ℕ
pane_covers i j [] = 0
pane_covers i j ((id, r) ∷ panes) = covers i j r + pane_covers i j panes

abbrev pub rect_covers : ℕ → ℕ → List Rect → ℕ
rect_covers i j [] = 0
rect_covers i j (r ∷ rs) = covers i j r + rect_covers i j rs

-- How many panes and separators hold a cell.
abbrev pub coverage : ℕ → ℕ → Geometry → ℕ
coverage i j g = pane_covers i j g.panes + rect_covers i j g.separators

pane_covers-append :
    (i j : ℕ) (xs ys : List (PaneId × Rect))
    → pane_covers i j (xs ++ ys) ≡ pane_covers i j xs + pane_covers i j ys
pane_covers-append i j [] ys = omega arith
pane_covers-append i j ((id, r) ∷ xs) ys = omega (arith, pane_covers-append i j xs ys)

rect_covers-append :
    (i j : ℕ) (xs ys : List Rect)
    → rect_covers i j (xs ++ ys) ≡ rect_covers i j xs + rect_covers i j ys
rect_covers-append i j [] ys = omega arith
rect_covers-append i j (r ∷ xs) ys = omega (arith, rect_covers-append i j xs ys)

covers-cut :
    (i j : ℕ) (axis : SplitAxis) (r : Rect) (k : ℕ)
    → k + 2 ≤ side axis r
    → covers i j r
      ≡ covers i j (cut axis r k).separator
        + (covers i j (cut axis r k).a + covers i j (cut axis r k).b)
covers-cut i j columns r k h = ground arith
covers-cut i j rows r k h = ground arith

-- A cell of the rectangle gets exactly one cover, any other cell none, on top of what was there.
pub coverage-place :
    (i j : ℕ) (n : Node) (r : Rect) (g : Geometry)
    → Fits n r
    → coverage i j (place n r g) ≡ coverage i j g + covers i j r
unfolding place
coverage-place i j (pane id) r g h = omega (arith, pane_covers-append i j g.panes ((id, r) ∷ []))
coverage-place i j (split axis share f s) r g h =
    let q = Fits-Splits axis share f s r h in
    let k = first_cells axis share f s r in
    let c = cut axis r k in
    let g' = add_separator g c.separator in
    rw (place-split axis share f s r g h) (
      omega (
        arith,
        coverage-place i j f c.a g' q.first_fits,
        coverage-place i j s c.b (place f c.a g') q.second_fits,
        covers-cut i j axis r k q.first_bound,
        rect_covers-append i j g.separators (c.separator ∷ []),
      ))
