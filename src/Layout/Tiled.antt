-- ===== src/Layout/Tiled.antt =====
-- The geometry of a whole layout: the tiling of the content area, the effect of an exchange on it,
-- the rectangles inside the frame and the hit boxes of the separators.
use rustmux.Base.{
  ap₂, ==→≡, Bool-cases, ap, inl, inr, not, true, Bool, [], arith, false, if◌then◌else◌, leb, ltb,
  refl, sym, ◌&&◌, ◌++◌, ◌+◌, ◌-◌, ◌<◌, ◌==◌, ◌∙◌, ◌∷◌, ◌≡◌, ◌≤◌, ℕ, List,
}
use rustmux.Layout.Rect.{Parts, split_rects, Rect}
use rustmux.Layout.Node.{contains, place, minimum, Geometry, PaneId, Node, pane, split, exchange}
use rustmux.Layout.Geometry.{Layout, canvas, tiled_geometry, empty_geometry, inset}
use rustmux.Layout.Tiling.{coverage, coverage-place}
use rustmux.Layout.Valid.{IsValid}
use rustmux.Base.Members.{member, transpose}
use rustmux.Base.Word.{sub16, add16}
use rustmux.Layout.Operations.{swap_panes}
use rustmux.Layout.Leaves.{contains-member, leaves}
use rustmux.Base.Result.{ok}

-- In a valid layout that does not float, every cell of the content area lies in exactly one pane or
-- separator, and no pane or separator reaches outside.
pub coverage-tiled_geometry :
    (l : Layout) (i j : ℕ)
    → IsValid l
    → l.floating ≡ false
    → coverage i j (tiled_geometry l) ≡ (if ltb i l.rows && ltb j l.columns then 1 else 0)
unfolding tiled_geometry
coverage-tiled_geometry l i j v tiled =
    rw tiled (coverage-place i j l.root (canvas l) empty_geometry v.fits ∙ ground arith)

abbrev pub swap_ids : PaneId → PaneId → List (PaneId × Rect) → List (PaneId × Rect)
swap_ids a b [] = []
swap_ids a b ((id, r) ∷ panes) = (transpose a b id, r) ∷ swap_ids a b panes

-- The same rectangles and separators with two identities in each other's place.
abbrev pub swap_geometry : PaneId → PaneId → Geometry → Geometry
swap_geometry a b g = record g { panes = swap_ids a b g.panes }

swap_ids-append :
    (a b : PaneId) (xs ys : List (PaneId × Rect))
    → swap_ids a b (xs ++ ys) ≡ swap_ids a b xs ++ swap_ids a b ys
swap_ids-append a b [] ys = refl
swap_ids-append a b ((id, r) ∷ xs) ys = rw (swap_ids-append a b xs ys)

swap_ids_same : (a b : PaneId) (xs : List (PaneId × Rect)) → a ≡ b → swap_ids a b xs ≡ xs
swap_ids_same a b [] e = refl
swap_ids_same a b ((id, r) ∷ xs) e =
    let kept : transpose a b id ≡ id = ground (arith, e) in rw (kept, swap_ids_same a b xs e) refl

minimum-exchange : (n : Node) (a b : PaneId) → minimum (exchange n a b) ≡ minimum n
unfolding exchange minimum
minimum-exchange (pane id) a b = ground arith
minimum-exchange (split axis share f s) a b =
    rw (minimum-exchange f a b, minimum-exchange s a b) refl

exchange_pane : (id a b : PaneId) → exchange (pane id) a b ≡ pane (transpose a b id)
unfolding exchange
exchange_pane id a b = ground arith

-- Placing an exchanged tree exchanges the identities that placing the tree lists.
place-exchange :
    (n : Node) (r : Rect) (a b : PaneId) (g : Geometry)
    → place (exchange n a b) r (swap_geometry a b g) ≡ swap_geometry a b (place n r g)
unfolding exchange place
place-exchange (pane id) r a b g =
    ap (λ n. place n r (swap_geometry a b g)) (exchange_pane id a b)
    ∙ ap (λ panes. record g { panes = panes }) (sym (swap_ids-append a b g.panes ((id, r) ∷ [])))
place-exchange (split axis share f s) r a b g =
    let p = split_rects axis share (minimum f) (minimum s) r in
    let g' = record g { separators = g.separators ++ p.separator ∷ [] } in
    ap₂ (λ m n. laid (split_rects axis share m n r)) (minimum-exchange f a b)
      (minimum-exchange s a b)
    ∙ ap (place (exchange s a b) p.b) (place-exchange f p.a a b g')
    ∙ place-exchange s p.b a b (place f p.a g')
  where
    -- The exchanged children in the parts of the rectangle.
    laid : Parts → Geometry
    laid p = place (exchange s a b) p.b (
        place (exchange f a b) p.a
          (swap_geometry a b (record g { separators = g.separators ++ p.separator ∷ [] })))

-- Two known panes of a layout that neither floats nor is zoomed change places: each gets the other's
-- rectangle, every other rectangle and all separators stay, and only the tree of the layout changes.
-- The outcome says whether the panes were different ones.
pub tiled_geometry-swap_panes :
    (l : Layout) (a b : PaneId)
    → l.floating ≡ false
    → l.zoomed ≡ false
    → member a (leaves l.root) ≡ true
    → member b (leaves l.root) ≡ true
    → (out : Layout × Bool) × (swap_panes l a b ≡ ok out)
      × (out.0 ≡ record l { root = out.0.root })
      × (tiled_geometry out.0 ≡ swap_geometry a b (tiled_geometry l))
      × (out.1 ≡ not (a == b))
unfolding swap_panes tiled_geometry
tiled_geometry-swap_panes l a b tiled unzoomed one two = elim (Bool-cases (a == b)) [
  | inl same ↦ (
    (l, false),
    rw (known a one, known b two, unzoomed, same) refl,
    refl,
    ap (λ panes. record (tiled_geometry l) { panes = panes })
        (sym (swap_ids_same a b (tiled_geometry l).panes (==→≡ a b same))),
    ap not (sym same),
  )
  | inr other ↦ (
    (record l { root = exchange l.root a b }, true),
    rw (known a one, known b two, unzoomed, other) refl,
    refl,
    rw tiled (place-exchange l.root (canvas l) a b empty_geometry),
    ap not (sym other),
  )
]
  where
    known : (t : PaneId) → member t (leaves l.root) ≡ true → contains l.root t ≡ true
    known t m = contains-member l.root t ∙ m

-- `r` lies in an area of the given height and width, and has a cell.
abbrev pub Within : ℕ → ℕ → Rect → Type 0
Within height width r =
    (r.row + r.rows ≤ height) × (r.column + r.columns ≤ width) × (0 < r.rows) × (0 < r.columns)

-- One if an axis of `size` cells has a frame and the test holds.
abbrev pub frame : ℕ → Bool → ℕ
frame size touches = if leb 3 size && touches then 1 else 0

-- A pane loses its first row and column at the near edge of the canvas and its last ones at the far
-- edge, on axes of three cells or more, and nothing else; nothing wraps.
pub inset-frame :
    (height width : ℕ) (r : Rect)
    → height < 65536
    → width < 65536
    → Within height width r
    → let top = frame height (r.row == 0) in
      let bottom = frame height (r.row + r.rows == height) in
      let near = frame width (r.column == 0) in
      let far = frame width (r.column + r.columns == width) in
      (inset height width r ≡ record {
        row = r.row + top;
        column = r.column + near;
        rows = r.rows - top - bottom;
        columns = r.columns - near - far;
      })
      × (top + bottom ≤ r.rows)
      × (near + far ≤ r.columns)
unfolding inset add16 sub16
inset-frame height width r p q w = ground arith
