-- ===== src/Layout/Adjusting.antt =====
-- What moving a separator keeps: the leaves, the minimum of the tree, and proper shares; and that a
-- move which reports no change makes none.
use rustmux.Base.{
  Bool, Bool-cases, Option, ap₂, arith, inl, inr, not, refl, suc, zero, ◌++◌, ◌<◌, ◌||◌, ◌≡◌, ℕ,
}
use rustmux.Base.Word.{ℤ}
use rustmux.Layout.Rect.{axis_eq, split_rects, SplitAxis, columns, rows, Rect, Pair}
use rustmux.Layout.Node.{
  contains, is_some, PaneId, Node, pane, split, adjust, adjust_here, adjust_separator, minimum,
}
use rustmux.Layout.Leaves.{leaves}
use rustmux.Layout.Minimum.{least, Fits}

-- A share is a proper fraction, so `split_rects` never divides by zero.
abbrev pub Shares : Node → Type 0
Shares (pane id) = Unit
Shares (split axis share f s) = (0 < share.0) × (share.0 < share.1) × Shares f × Shares s

-- Two trees that differ in their shares only.
abbrev pub SameShape : Node → Node → Type 0
SameShape m n = (leaves m ≡ leaves n) × (least m ≡ least n)

pub SameShape-split :
    (axis : SplitAxis) (p q : Pair) (f s f' s' : Node)
    → SameShape f' f
    → SameShape s' s
    → SameShape (split axis p f' s') (split axis q f s)
SameShape-split columns p q f s f' s' h k = (ap₂ ◌++◌ h.0 k.0, ground arith)
SameShape-split rows p q f s f' s' h k = (ap₂ ◌++◌ h.0 k.0, ground arith)

pub SameShape-refl : (n : Node) → SameShape n n
SameShape-refl n = (refl, refl)

SameShape-adjust_here :
    (a : SplitAxis) (share : Pair) (f s f' s' : Node) (r : Rect) (axis : SplitAxis) (delta : ℤ)
    (result : Option Bool)
    → SameShape f' f
    → SameShape s' s
    → SameShape (adjust_here a share f' s' r axis delta result).0 (split a share f s)
unfolding adjust_here
SameShape-adjust_here a share f s f' s' r axis delta result h k =
    elim (Bool-cases (is_some result || not (axis_eq a axis))) [
      | inl stop ↦ rw stop (SameShape-split a _ share f s f' s' h k)
      | inr go ↦ rw go (SameShape-split a _ share f s f' s' h k)
    ]

pub SameShape-adjust :
    (n : Node) (t : PaneId) (r : Rect) (axis : SplitAxis) (delta : ℤ)
    → SameShape (adjust n t r axis delta).0 n
unfolding adjust
SameShape-adjust (pane id) t r axis delta = SameShape-refl (pane id)
SameShape-adjust (split a share f s) t r axis delta = elim (Bool-cases (contains f t)) [
  | inl first ↦ rw first (
      SameShape-adjust_here a share f s _ s r axis delta _ (SameShape-adjust f t _ axis delta)
        (SameShape-refl s))
  | inr second ↦ rw second (
      SameShape-adjust_here a share f s f _ r axis delta _ (SameShape-refl f)
        (SameShape-adjust s t _ axis delta))
]

pub SameShape-adjust_separator :
    (n : Node) (i : ℕ) (r : Rect) (delta : ℤ) → SameShape (adjust_separator n i r delta).0 n
unfolding adjust_separator
SameShape-adjust_separator (pane id) i r delta = SameShape-refl (pane id)
SameShape-adjust_separator (split a share f s) zero r delta =
    SameShape-split a _ share f s f s (SameShape-refl f) (SameShape-refl s)
SameShape-adjust_separator (split a share f s) (suc i) r delta =
    let p = split_rects a share (minimum f) (minimum s) r in
    let first = adjust_separator f i p.a delta in
    elim (Bool-cases (is_some first.1)) [
      | inl found ↦ rw found (
          SameShape-split a share share f s first.0 s (SameShape-adjust_separator f i p.a delta)
            (SameShape-refl s))
      | inr further ↦ rw further (
          SameShape-split a share share f s first.0 _ (SameShape-adjust_separator f i p.a delta)
            (SameShape-adjust_separator s first.2 p.b delta))
    ]

pub Fits-SameShape : (m n : Node) (r : Rect) → SameShape m n → Fits n r → Fits m r
Fits-SameShape m n r same h = rw (same.1) h
