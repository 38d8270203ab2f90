-- ===== src/Layout/Shares.antt =====
-- Shares stay proper fractions under every edit, and a refused separator move changes nothing.
use rustmux.Base.{
  Bool, Bool-cases, Option, arith, false, inl, inr, refl, some, suc, true, zero, ◌+◌, ◌<◌, ◌==◌,
  ◌≡◌, ◌≢◌, ◌≤◌, ℕ,
}
use rustmux.Base.Word.{ℤ}
use rustmux.Layout.Rect.{SplitAxis, Rect, Pair, side, part, adjust_share, split_rects}
use rustmux.Layout.Node.{
  contains, exchange, remove, split_at, PaneId, Node, pane, split, adjust, adjust_here,
  adjust_separator, minimum,
}
use rustmux.Layout.Cut.{
  first_size, target_size, InRange, IsStep, adjust_share_lem, target_size_bounds,
}
use rustmux.Layout.Adjusting.{
  Fits-SameShape, SameShape-refl, SameShape-adjust, SameShape-split, Shares,
}
use rustmux.Layout.Minimum.{least, Fits, Fits-Splits}
use rustmux.Layout.Steering.{part-least_pos}

abbrev pub IsShare : Pair → Type 0
IsShare share = (0 < share.0) × (share.0 < share.1)

pub Shares-split_at :
    (n : Node) (t : PaneId) (axis : SplitAxis) (new : PaneId)
    → Shares n
    → Shares (split_at n t axis new).0
unfolding split_at
Shares-split_at (pane id) t axis new h = ground arith
Shares-split_at (split a share f s) t axis new h =
    ground (arith, Shares-split_at f t axis new, Shares-split_at s t axis new)

pub Shares-remove : (n : Node) (t : PaneId) → Shares n → Shares (remove n t).0
unfolding remove
Shares-remove (pane id) t h = h
Shares-remove (split a share f s) t h = ground (arith, Shares-remove f t, Shares-remove s t)

pub Shares-exchange : (n : Node) (a b : PaneId) → Shares n → Shares (exchange n a b)
unfolding exchange
Shares-exchange (pane id) a b h = ground arith
Shares-exchange (split axis share f s) a b h =
    (h.0, h.1, Shares-exchange f a b h.2, Shares-exchange s a b h.3)

IsShare-adjust_share :
    (axis : SplitAxis) (share m n : Pair) (r : Rect) (delta : ℤ)
    → InRange r
    → part axis m + 2 + part axis n ≤ side axis r
    → 0 < part axis m
    → 0 < part axis n
    → IsStep delta
    → IsShare share
    → IsShare (adjust_share axis share m n r delta).0
IsShare-adjust_share axis share m n r delta i h p q step old =
    let b = target_size_bounds axis share m n r delta i h in
    rw (adjust_share_lem axis share m n r delta i h step)
      elim (Bool-cases (target_size axis share m n r delta == first_size axis share m n r)) [
        | inl same ↦ rw same old
        | inr moved ↦ rw moved (omega (arith, b))
      ]

module _ (axis : SplitAxis) (share : Pair) (f s : Node) (r : Rect) (delta : ℤ)
    (h : Fits (split axis share f s) r) (step : IsStep delta) (old : IsShare share) where
  IsShare-here : IsShare (adjust_share axis share (minimum f) (minimum s) r delta).0
  IsShare-here =
      let q = Fits-Splits axis share f s r h in
      rw (q.first_min, q.second_min)
        (IsShare-adjust_share axis share (least f) (least s) r delta h.2 q.room
          (part-least_pos axis f) (part-least_pos axis s) step old)

Shares-adjust_here :
    (a : SplitAxis) (share : Pair) (f s : Node) (r : Rect) (axis : SplitAxis) (delta : ℤ)
    (result : Option Bool)
    → Fits (split a share f s) r
    → IsStep delta
    → IsShare share
    → Shares f
    → Shares s
    → Shares (adjust_here a share f s r axis delta result).0
unfolding adjust_here
Shares-adjust_here a share f s r axis delta result h step old p q =
    ground (arith, IsShare-here a share f s r delta h step old)

pub Shares-adjust :
    (n : Node) (t : PaneId) (r : Rect) (axis : SplitAxis) (delta : ℤ)
    → Fits n r
    → IsStep delta
    → Shares n
    → Shares (adjust n t r axis delta).0
unfolding adjust
Shares-adjust (pane id) t r axis delta h step old = tt
Shares-adjust (split a share f s) t r axis delta h step old =
    let q = Fits-Splits a share f s r h in
    let p = split_rects a share (minimum f) (minimum s) r in
    let f' = adjust f t p.a axis delta in
    let s' = adjust s t p.b axis delta in
    let first =
      SameShape-split a share share f s f'.0 s (SameShape-adjust f t p.a axis delta)
        (SameShape-refl s) in
    let second =
      SameShape-split a share share f s f s'.0 (SameShape-refl f)
        (SameShape-adjust s t p.b axis delta) in
    elim (Bool-cases (contains f t)) [
      | inl inside ↦ rw inside (
          Shares-adjust_here a share f'.0 s r axis delta f'.1
            (Fits-SameShape (split a share f'.0 s) (split a share f s) r first h) step
            (old.0, old.1)
            (Shares-adjust f t p.a axis delta (rw q.parts_are q.first_fits) step old.2) old.3)
      | inr outside ↦ rw outside (
          Shares-adjust_here a share f s'.0 r axis delta s'.1
            (Fits-SameShape (split a share f s'.0) (split a share f s) r second h) step
            (old.0, old.1) old.2
            (Shares-adjust s t p.b axis delta (rw q.parts_are q.second_fits) step old.3))
    ]

pub Shares-adjust_separator :
    (n : Node) (i : ℕ) (r : Rect) (delta : ℤ)
    → Fits n r
    → IsStep delta
    → Shares n
    → Shares (adjust_separator n i r delta).0
unfolding adjust_separator
Shares-adjust_separator (pane id) i r delta h step old = tt
Shares-adjust_separator (split axis share f s) zero r delta h step old =
    let new = IsShare-here axis share f s r delta h step (old.0, old.1) in
    (new.0, new.1, old.2, old.3)
Shares-adjust_separator (split axis share f s) (suc i) r delta h step old =
    let q = Fits-Splits axis share f s r h in
    let p = split_rects axis share (minimum f) (minimum s) r in
    let first = adjust_separator f i p.a delta in
    ground (
      arith,
      Shares-adjust_separator f i p.a delta (rw q.parts_are q.first_fits) step old.2,
      Shares-adjust_separator s first.2 p.b delta (rw q.parts_are q.second_fits) step old.3,
    )

-- A move that does not report a change leaves the share alone.
adjust_share_unchanged :
    (axis : SplitAxis) (share m n : Pair) (r : Rect) (delta : ℤ)
    → (adjust_share axis share m n r delta).1 ≡ false
    → (adjust_share axis share m n r delta).0 ≡ share
unfolding adjust_share
adjust_share_unchanged axis share m n r delta h = ground arith

adjust_here_unchanged :
    (a : SplitAxis) (share : Pair) (f s : Node) (r : Rect) (axis : SplitAxis) (delta : ℤ)
    (result : Option Bool)
    → (adjust_here a share f s r axis delta result).1 ≢ some true
    → (adjust_here a share f s r axis delta result).0 ≡ split a share f s
unfolding adjust_here
adjust_here_unchanged a share f s r axis delta result h =
    ground (arith, adjust_share_unchanged a share (minimum f) (minimum s) r delta)

-- An outcome other than "moved" comes with the same tree.
pub adjust_unchanged :
    (n : Node) (t : PaneId) (r : Rect) (axis : SplitAxis) (delta : ℤ)
    → (adjust n t r axis delta).1 ≢ some true
    → (adjust n t r axis delta).0 ≡ n
unfolding adjust
adjust_unchanged (pane id) t r axis delta h = refl
adjust_unchanged (split a share f s) t r axis delta h =
    let p = split_rects a share (minimum f) (minimum s) r in
    ground (
      arith,
      adjust_unchanged f t p.a axis delta,
      adjust_unchanged s t p.b axis delta,
      adjust_share_unchanged a share (minimum f) (minimum s) r delta,
    )

pub adjust_separator_unchanged :
    (n : Node) (i : ℕ) (r : Rect) (delta : ℤ)
    → (adjust_separator n i r delta).1 ≢ some true
    → (adjust_separator n i r delta).0 ≡ n
unfolding adjust_separator
adjust_separator_unchanged (pane id) i r delta h = refl
adjust_separator_unchanged (split a share f s) zero r delta h =
    ground (arith, adjust_share_unchanged a share (minimum f) (minimum s) r delta)
adjust_separator_unchanged (split a share f s) (suc i) r delta h =
    let p = split_rects a share (minimum f) (minimum s) r in
    let first = adjust_separator f i p.a delta in
    ground (
      arith,
      adjust_separator_unchanged f i p.a delta,
      adjust_separator_unchanged s first.2 p.b delta,
    )
