-- ===== src/Layout/Room.antt =====
-- Where a leaf is placed, and that every edit of a tree with room leaves a tree with room.
use mathlib.Core.List.{append_assoc}
use rustmux.Base.{
  Option, if◌then◌else◌, Option-cases, sym, ℕ, ◌+◌, Bool-cases, [], ap, ap₂, arith, false, inl, inr,
  none, refl, some, true, ◌++◌, ◌==◌, ◌∙◌, ◌∷◌, ◌≡◌, ◌≤◌, List,
}
use rustmux.Layout.Rect.{side, Pair, SplitAxis, columns, rows, Rect}
use rustmux.Layout.Node.{
  is_some, split_at, PaneId, Node, pane, split, Geometry, place, remove, exchange, or_else,
}
use rustmux.Layout.Cut.{InRange, cut}
use rustmux.Layout.Geometry.{find_pane}
use rustmux.Layout.Leaves.{leaves-split_at, leaves}
use rustmux.Layout.Minimum.{least, Fits, Fits-Splits, first_cells, place-split}
use rustmux.Base.Members.{member}

-- The panes of a tree in a rectangle, in traversal order.
abbrev pub tiles : Node → Rect → List (PaneId × Rect)
tiles (pane id) r = (id, r) ∷ []
tiles (split axis share f s) r =
    tiles f (cut axis r (first_cells axis share f s r)).a
    ++ tiles s (cut axis r (first_cells axis share f s r)).b

-- `Node::place` appends the tiles to the panes it is given.
pub panes-place :
    (n : Node) (r : Rect) (g : Geometry) → Fits n r → (place n r g).panes ≡ g.panes ++ tiles n r
unfolding place
panes-place (pane id) r g h = refl
panes-place (split axis share f s) r g h =
    let q = Fits-Splits axis share f s r h in
    let c = cut axis r (first_cells axis share f s r) in
    rw (place-split axis share f s r g h) (
      panes-place s c.b _ q.second_fits
      ∙ ap (λ (l : List (PaneId × Rect)). l ++ tiles s c.b) (panes-place f c.a _ q.first_fits)
      ∙ append_assoc g.panes (tiles f c.a) (tiles s c.b))

abbrev pub ids : List (PaneId × Rect) → List PaneId
ids [] = []
ids ((id, r) ∷ panes) = id ∷ ids panes

pub ids-append : (xs ys : List (PaneId × Rect)) → ids (xs ++ ys) ≡ ids xs ++ ids ys
ids-append [] ys = refl
ids-append ((id, r) ∷ xs) ys = ap (λ (l : List PaneId). id ∷ l) (ids-append xs ys)

pub ids-tiles : (n : Node) (r : Rect) → ids (tiles n r) ≡ leaves n
ids-tiles (pane id) r = refl
ids-tiles (split axis share f s) r =
    let c = cut axis r (first_cells axis share f s r) in
    ids-append (tiles f c.a) (tiles s c.b) ∙ ap₂ ◌++◌ (ids-tiles f c.a) (ids-tiles s c.b)

pub find_pane-append :
    (t : PaneId) (xs ys : List (PaneId × Rect))
    → find_pane t (xs ++ ys) ≡ or_else (find_pane t xs) (find_pane t ys)
find_pane-append t [] ys = refl
find_pane-append t ((id, r) ∷ xs) ys = ground (arith, find_pane-append t xs ys)

pub find_pane-ids :
    (t : PaneId) (xs : List (PaneId × Rect))
    → member t (ids xs) ≡ true
    → (r : Rect) × (find_pane t xs ≡ some r)
find_pane-ids t [] h = absurd (cc)
find_pane-ids t ((id, r) ∷ xs) h = elim (Bool-cases (id == t)) [
  | inl e ↦ (r, rw e)
  | inr e ↦ let (r', found) = find_pane-ids t xs (ground arith) in (r', rw e found)
]

find_pane_absent :
    (t : PaneId) (xs : List (PaneId × Rect)) → member t (ids xs) ≡ false → find_pane t xs ≡ none
find_pane_absent t [] h = refl
find_pane_absent t ((id, r) ∷ xs) h = ground (arith, find_pane_absent t xs)

pub least-exchange : (n : Node) (a b : PaneId) → least (exchange n a b) ≡ least n
unfolding exchange
least-exchange (pane id) a b = ground arith
least-exchange (split columns share f s) a b = rw (least-exchange f a b, least-exchange s a b)
least-exchange (split rows share f s) a b = rw (least-exchange f a b, least-exchange s a b)

pub Fits-exchange : (n : Node) (r : Rect) (a b : PaneId) → Fits n r → Fits (exchange n a b) r
Fits-exchange n r a b h = rw (least-exchange n a b) h

least-remove :
    (n : Node) (t : PaneId)
    → ((least (remove n t).0).0 ≤ (least n).0) × ((least (remove n t).0).1 ≤ (least n).1)
unfolding remove
least-remove (pane id) t = omega arith
least-remove (split columns share f s) t = ground (arith, least-remove f t, least-remove s t)
least-remove (split rows share f s) t = ground (arith, least-remove f t, least-remove s t)

pub Fits-remove : (n : Node) (r : Rect) (t : PaneId) → Fits n r → Fits (remove n t).0 r
Fits-remove n r t h = omega (arith, least-remove n t)

pub Fits-join :
    (axis : SplitAxis) (share : Pair) (f s : Node) (r : Rect) (k : ℕ)
    → k + 2 ≤ side axis r
    → InRange r
    → Fits f (cut axis r k).a
    → Fits s (cut axis r k).b
    → Fits (split axis share f s) r
Fits-join columns share f s r k h i p q = omega arith
Fits-join rows share f s r k h i p q = omega arith

split_at_absent :
    (n : Node) (t : PaneId) (axis : SplitAxis) (new : PaneId)
    → (split_at n t axis new).1 ≡ false
    → (split_at n t axis new).0 ≡ n
unfolding split_at
split_at_absent (pane id) t axis new h = ground arith
split_at_absent (split a share f s) t axis new h =
    ground (arith, split_at_absent f t axis new, split_at_absent s t axis new)

Fits-split_at_pane :
    (id : PaneId) (r rect : Rect) (t : PaneId) (axis : SplitAxis) (new : PaneId)
    → Fits (pane id) r
    → find_pane t (tiles (pane id) r) ≡ some rect
    → 4 ≤ side axis rect
    → Fits (split_at (pane id) t axis new).0 r
unfolding split_at
Fits-split_at_pane id r rect t columns new h e room = ground arith
Fits-split_at_pane id r rect t rows new h e room = ground arith

-- A leaf has a tile, and only a leaf has one.
pub member-find_pane :
    (n : Node) (r : Rect) (t : PaneId) (o : Option Rect)
    → find_pane t (tiles n r) ≡ o
    → member t (leaves n) ≡ is_some o
member-find_pane n r t o e = elim (Bool-cases (member t (ids (tiles n r)))) [
  | inl leaf ↦
      let (rect, found) = find_pane-ids t (tiles n r) leaf in
      rw (← ids-tiles n r) (leaf ∙ ap is_some (sym found ∙ e))
  | inr not_leaf ↦
      rw (← ids-tiles n r)
        (not_leaf ∙ ap is_some (sym (find_pane_absent t (tiles n r) not_leaf) ∙ e))
]

split_at-split :
    (a : SplitAxis) (share : Pair) (f s : Node) (t : PaneId) (axis : SplitAxis) (new : PaneId)
    → (split_at (split a share f s) t axis new).0 ≡ (
        if (split_at f t axis new).1
        then split a share (split_at f t axis new).0 s
        else split a share f (split_at s t axis new).0)
unfolding split_at
split_at-split a share f s t axis new = ground (arith, split_at_absent f t axis new)

-- Splitting a leaf whose rectangle has four cells along the axis leaves room for every pane.
pub Fits-split_at :
    (n : Node) (r rect : Rect) (t : PaneId) (axis : SplitAxis) (new : PaneId)
    → Fits n r
    → find_pane t (tiles n r) ≡ some rect
    → 4 ≤ side axis rect
    → Fits (split_at n t axis new).0 r
Fits-split_at (pane id) r rect t axis new h e room =
    Fits-split_at_pane id r rect t axis new h e room
Fits-split_at (split a share f s) r rect t axis new h e room =
    let q = Fits-Splits a share f s r h in
    let k = first_cells a share f s r in
    let c = cut a r k in
    let parts = sym (find_pane-append t (tiles f c.a) (tiles s c.b)) ∙ e in
    let done = (leaves-split_at f t axis new).0 in
    rw (split_at-split a share f s t axis new) elim (Option-cases (find_pane t (tiles f c.a))) [
      | inl nowhere ↦ rw (done ∙ member-find_pane f c.a t none nowhere) (
          Fits-join a share _ _ r k q.first_bound h.2 q.first_fits
            (Fits-split_at s c.b rect t axis new q.second_fits (rw nowhere at parts) room))
      | inr (r', found) ↦ rw (done ∙ member-find_pane f c.a t (some r') found) (
          Fits-join a share _ _ r k q.first_bound h.2
            (Fits-split_at f c.a rect t axis new q.first_fits (found ∙ (rw found at parts)) room)
            q.second_fits)
    ]
