-- ===== src/Layout/Steering.antt =====
-- Which separator `Node::adjust` moves, and by how much: a relation on trees, and that the code
-- implements it.
use rustmux.Base.{
  ap, Option, Bool-cases, inl, inr, some, ◌<◌, Bool, arith, false, if◌then◌else◌, none, not, refl,
  true, ◌==◌, ◌||◌, ◌≡◌, ℕ,
}
use rustmux.Base.Word.{ℤ}
use rustmux.Layout.Rect.{
  columns, rows, Parts, split_rects, Parts, part, split_rects, axis_eq, SplitAxis, Rect, Pair,
}
use rustmux.Layout.Node.{minimum, adjust_here, contains, PaneId, Node, pane, split, adjust}
use rustmux.Layout.Cut.{adjust_share-first_size, IsStep, cut, target_size}
use rustmux.Layout.Minimum.{Fits-Splits, least_pos, Fits, least, first_cells}

-- A split on the axis stands on the path from the root to the pane.
abbrev pub on_path : Node → PaneId → SplitAxis → Bool
on_path (pane id) t axis = false
on_path (split a share f s) t axis =
    axis_eq a axis || (if contains f t then on_path f t axis else on_path s t axis)

-- Where the separator of a split stands after a move.
abbrev pub steered : SplitAxis → Pair → Node → Node → Rect → ℤ → ℕ
steered axis share f s r delta = target_size axis share (least f) (least s) r delta

-- `n'` is `n` with the deepest separator on the axis above pane `t` moved by `delta` cells, as far
-- as the minima of its two sides allow; `moved` says whether that is a change.
pub data Steers (axis : SplitAxis) (delta : ℤ) (t : PaneId)
    : Node → Rect → Node → Bool → Type 0 where
  here :
      {a : SplitAxis} {share share' : Pair} {f s : Node} {r : Rect} {moved : Bool}
      → axis_eq a axis ≡ true
      → (if contains f t then on_path f t axis else on_path s t axis) ≡ false
      → first_cells a share' f s r ≡ steered a share f s r delta
      → moved ≡ not (steered a share f s r delta == first_cells a share f s r)
      → Steers axis delta t (split a share f s) r (split a share' f s) moved
  in_first :
      {a : SplitAxis} {share : Pair} {f f' s : Node} {p r : Rect} {moved : Bool}
      → contains f t ≡ true
      → p ≡ (cut a r (first_cells a share f s r)).a
      → Steers axis delta t f p f' moved
      → Steers axis delta t (split a share f s) r (split a share f' s) moved
  in_second :
      {a : SplitAxis} {share : Pair} {f s s' : Node} {p r : Rect} {moved : Bool}
      → contains f t ≡ false
      → p ≡ (cut a r (first_cells a share f s r)).b
      → Steers axis delta t s p s' moved
      → Steers axis delta t (split a share f s) r (split a share f s') moved

-- Off the path nothing is moved.
pub adjust_off_path :
    (n : Node) (t : PaneId) (r : Rect) (axis : SplitAxis) (delta : ℤ)
    → on_path n t axis ≡ false
    → adjust n t r axis delta ≡ (n, none)
unfolding adjust
adjust_off_path (pane id) t r axis delta h = refl
adjust_off_path (split a share f s) t r axis delta h =
    let p = split_rects a share (minimum f) (minimum s) r in
    ground (arith, adjust_off_path f t p.a axis delta, adjust_off_path s t p.b axis delta)

pub part-least_pos : (axis : SplitAxis) (n : Node) → 0 < part axis (least n)
part-least_pos columns n = (least_pos n).1
part-least_pos rows n = (least_pos n).0

-- The outcome that `adjust-Steers` promises, of a result of `Node::adjust`.
abbrev pub Steered : SplitAxis → ℤ → PaneId → Node → Rect → Node × Option Bool → Type 0
Steered axis delta t n r out =
    (moved : Bool) × (out.1 ≡ some moved) × Steers axis delta t n r out.0 moved

-- At the deepest split on the path the separator itself moves.
adjust_here-Steers :
    (a : SplitAxis) (share : Pair) (f s : Node) (t : PaneId) (r : Rect) (axis : SplitAxis)
    (delta : ℤ)
    → Fits (split a share f s) r
    → IsStep delta
    → axis_eq a axis ≡ true
    → (if contains f t then on_path f t axis else on_path s t axis) ≡ false
    → Steered axis delta t (split a share f s) r (adjust_here a share f s r axis delta none)
unfolding adjust_here
adjust_here-Steers a share f s t r axis delta h step same off =
    let q = Fits-Splits a share f s r h in
    let e =
      adjust_share-first_size a share (least f) (least s) r delta h.2 q.room (part-least_pos a f)
        step in
    rw (same, q.first_min, q.second_min) (_, refl, here same off e.0 e.1)

module _ (a : SplitAxis) (share : Pair) (f s : Node) (t : PaneId) (r : Rect) (axis : SplitAxis)
    (delta : ℤ) (h : Fits (split a share f s) r) (step : IsStep delta) where
  abbrev Whole : Node × Option Bool → Type 0
  Whole out = Steered axis delta t (split a share f s) r out

  abbrev parts : Parts
  parts = split_rects a share (minimum f) (minimum s) r

  above_first :
      contains f t ≡ true
      → Steered axis delta t f parts.a (adjust f t parts.a axis delta)
      → Whole (adjust (split a share f s) t r axis delta)
  unfolding adjust
  above_first first (moved, result, steers) = rw first (
      rw (result, adjust_here)
        (
          moved,
          refl,
          in_first first (ap (λ (q : Parts). q.a) (Fits-Splits a share f s r h).parts_are) steers,
        ))

  above_second :
      contains f t ≡ false
      → Steered axis delta t s parts.b (adjust s t parts.b axis delta)
      → Whole (adjust (split a share f s) t r axis delta)
  unfolding adjust
  above_second second (moved, result, steers) = rw second (
      rw (result, adjust_here)
        (
          moved,
          refl,
          in_second second (ap (λ (q : Parts). q.b) (Fits-Splits a share f s r h).parts_are) steers,
        ))

  at_here :
      axis_eq a axis ≡ true
      → (if contains f t then on_path f t axis else on_path s t axis) ≡ false
      → Whole (adjust (split a share f s) t r axis delta)
  unfolding adjust
  at_here same off = elim (Bool-cases (contains f t)) [
    | inl first ↦ rw first (
        rw (adjust_off_path f t parts.a axis delta (rw first at off))
          (adjust_here-Steers a share f s t r axis delta h step same off))
    | inr second ↦ rw second (
        rw (adjust_off_path s t parts.b axis delta (rw second at off))
          (adjust_here-Steers a share f s t r axis delta h step same off))
  ]

-- `Node::adjust` moves the deepest separator on the axis above the pane, for every tree with room.
pub adjust-Steers :
    (n : Node) (t : PaneId) (r : Rect) (axis : SplitAxis) (delta : ℤ)
    → Fits n r
    → IsStep delta
    → on_path n t axis ≡ true
    → Steered axis delta t n r (adjust n t r axis delta)
adjust-Steers (pane id) t r axis delta h step on = absurd (cc)
adjust-Steers (split a share f s) t r axis delta h step on =
    let q = Fits-Splits a share f s r h in
    let p = split_rects a share (minimum f) (minimum s) r in
    elim (Bool-cases (if contains f t then on_path f t axis else on_path s t axis)) [
      | inr off ↦ at_here a share f s t r axis delta h step (ground arith) off
      | inl deeper ↦ elim (Bool-cases (contains f t)) [
        | inl first ↦ above_first a share f s t r axis delta h step first (
            adjust-Steers f t p.a axis delta (rw q.parts_are q.first_fits) step
              (rw first at deeper))
        | inr second ↦ above_second a share f s t r axis delta h step second (
            adjust-Steers s t p.b axis delta (rw q.parts_are q.second_fits) step
              (rw second at deeper))
      ]
    ]
