-- ===== src/Layout/Minimum.antt =====
-- The exact minimum of a tree, and that a rectangle with room for it can be split all the way down
-- with no wrap-around and no clamp with crossed bounds.
use rustmux.Base.{[], ◌++◌, ◌∷◌, arith, refl, ◌+◌, ◌<◌, ◌≡◌, ◌≤◌, ℕ, max}
use rustmux.Layout.Rect.{SplitAxis, columns, rows, Rect, Pair, side, part, split_rects}
use rustmux.Layout.Node.{place, Geometry, Node, pane, split, minimum, join_minimum}
use rustmux.Layout.Cut.{InRange, cut, first_size, split_rects-cut}
use rustmux.Base.Word.{add16}

-- The rows and columns that a tree needs, in numbers without a bound.
abbrev pub least : Node → Pair
least (pane id) = (1, 1)
least (split columns share f s) = (max (least f).0 (least s).0, (least f).1 + 2 + (least s).1)
least (split rows share f s) = ((least f).0 + 2 + (least s).0, max (least f).1 (least s).1)

abbrev pub Fits : Node → Rect → Type 0
Fits n r = ((least n).0 ≤ r.rows) × ((least n).1 ≤ r.columns) × InRange r

pub least_pos : (n : Node) → (0 < (least n).0) × (0 < (least n).1)
least_pos (pane id) = omega arith
least_pos (split columns share f s) = omega (arith, least_pos f, least_pos s)
least_pos (split rows share f s) = omega (arith, least_pos f, least_pos s)

join_minimum-least :
    (axis : SplitAxis) (share : Pair) (f s : Node)
    → (least (split axis share f s)).0 < 65536
    → (least (split axis share f s)).1 < 65536
    → join_minimum axis (least f) (least s) ≡ least (split axis share f s)
unfolding add16
join_minimum-least columns share f s p q = ground arith
join_minimum-least rows share f s p q = ground arith

-- A minimum that fits into `u16` values is computed exactly.
pub minimum-least : (n : Node) → (least n).0 < 65536 → (least n).1 < 65536 → minimum n ≡ least n
unfolding minimum
minimum-least (pane id) p q = refl
minimum-least (split columns share f s) p q =
    rw (minimum-least f (omega arith) (omega arith))
      (rw (minimum-least s (omega arith) (omega arith)) (join_minimum-least columns share f s p q))
minimum-least (split rows share f s) p q =
    rw (minimum-least f (omega arith) (omega arith))
      (rw (minimum-least s (omega arith) (omega arith)) (join_minimum-least rows share f s p q))

-- The cells that the first child of a split gets in a rectangle.
abbrev pub first_cells : SplitAxis → Pair → Node → Node → Rect → ℕ
first_cells axis share f s r = first_size axis share (least f) (least s) r

-- What one split does to a rectangle with room for both children.
pub record Splits (axis : SplitAxis) (share : Pair) (f s : Node) (r : Rect) : Type 0 where
  pub parts_are :
      split_rects axis share (minimum f) (minimum s) r ≡ cut axis r (first_cells axis share f s r)
  pub room : part axis (least f) + 2 + part axis (least s) ≤ side axis r
  pub first_min : minimum f ≡ least f
  pub second_min : minimum s ≡ least s
  pub first_fits : Fits f (cut axis r (first_cells axis share f s r)).a
  pub second_fits : Fits s (cut axis r (first_cells axis share f s r)).b
  pub first_bound : first_cells axis share f s r + 2 ≤ side axis r

pub Fits-Splits :
    (axis : SplitAxis) (share : Pair) (f s : Node) (r : Rect)
    → Fits (split axis share f s) r
    → Splits axis share f s r
Fits-Splits columns share f s r h =
    let m = minimum-least f (omega arith) (omega arith) in
    let n = minimum-least s (omega arith) (omega arith) in
    let c = split_rects-cut columns share (least f) (least s) r h.2 (omega arith) in
    record {
      parts_are = rw (m, n) c.0;
      room = omega arith;
      first_min = m;
      second_min = n;
      first_fits = omega (arith, c.1, c.2);
      second_fits = omega (arith, c.1, c.2);
      first_bound = omega (arith, c.2);
    }
Fits-Splits rows share f s r h =
    let m = minimum-least f (omega arith) (omega arith) in
    let n = minimum-least s (omega arith) (omega arith) in
    let c = split_rects-cut rows share (least f) (least s) r h.2 (omega arith) in
    record {
      parts_are = rw (m, n) c.0;
      room = omega arith;
      first_min = m;
      second_min = n;
      first_fits = omega (arith, c.1, c.2);
      second_fits = omega (arith, c.1, c.2);
      first_bound = omega (arith, c.2);
    }

abbrev pub add_separator : Geometry → Rect → Geometry
add_separator g r = record g { separators = g.separators ++ r ∷ [] }

-- `Node::place` at a split with room, in exact arithmetic.
pub place-split :
    (axis : SplitAxis) (share : Pair) (f s : Node) (r : Rect) (g : Geometry)
    → Fits (split axis share f s) r
    → let c = cut axis r (first_cells axis share f s r) in
      place (split axis share f s) r g ≡ place s c.b (place f c.a (add_separator g c.separator))
unfolding place
place-split axis share f s r g h = rw ((Fits-Splits axis share f s r h).parts_are, place)
