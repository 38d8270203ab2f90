-- ===== src/Layout/Unpanicked.antt =====
-- The arithmetic of src/layout.rs under `resize_pane`: the checked definitions against the total ones.
use rustmux.Base.{
  if◌then◌else◌, Bool-cases, inl, inr, not, some, true, ◌||◌, ◌∙◌, ◌⊎◌, Bool, Option, ap, arith,
  false, ltb, refl, ◌*◌, ◌+◌, ◌/◌, ◌<◌, ◌==◌, ◌≡◌, ◌≤◌, ℕ,
}
use rustmux.Layout.Rect.{
  Direction, axis_eq, columns, rows, side, part, Rect, Pair, adjust_share, SplitAxis, split_rects,
}
use rustmux.Base.Word.{to_u16, clamp, ℤ, sub16}
use rustmux.Layout.Checked.{
  adjust_pane_checked, resize_pane_checked, parts_at, adjust_checked, adjust_here_checked,
  adjust_share_checked, split_rects_checked,
}
use rustmux.Layout.Node.{contains, is_some, minimum, pane, split, PaneId, Node, adjust, adjust_here}
use rustmux.Layout.Cut.{InRange}
use rustmux.Layout.Minimum.{Fits-Splits, Fits}
use rustmux.Layout.Adjusting.{
  SameShape-refl, SameShape-adjust, SameShape-split, Fits-SameShape, Shares,
}
use rustmux.Base.Result.{fail_if, Result, ◌>>=◌, ◌>>◌, ok}
use rustmux.Layout.Geometry.{canvas, unknown_pane, zero_cells, Error, Layout}
use rustmux.Layout.Operations.{adjusted, direction_delta, direction_axis, adjust_pane, resize_pane}
use rustmux.Layout.Valid.{Safe, IsValid}
use rustmux.Layout.Edits.{resize_pane-Safe}

parts_at-split_rects :
    (axis : SplitAxis) (share m n : Pair) (r : Rect)
    → parts_at axis r (
        clamp
          (to_u16 (sub16 (side axis r) 2 * share.0 / share.1))
          (part axis m)
          (sub16 (sub16 (side axis r) 2) (part axis n)))
      ≡ split_rects axis share m n r
unfolding split_rects
parts_at-split_rects columns share m n r = refl
parts_at-split_rects rows share m n r = refl

-- The bounds of both clamps are in order where the rectangle has room.
bounds_in_order :
    (axis : SplitAxis) (m n : Pair) (r : Rect)
    → InRange r
    → part axis m + 2 + part axis n ≤ side axis r
    → ltb (sub16 (sub16 (side axis r) 2) (part axis n)) (part axis m) ≡ false
unfolding sub16
bounds_in_order columns m n r i h = ground arith
bounds_in_order rows m n r i h = ground arith

split_rects_checked-Fits :
    (axis : SplitAxis) (share m n : Pair) (r : Rect)
    → InRange r
    → part axis m + 2 + part axis n ≤ side axis r
    → 0 < share.1
    → split_rects_checked axis share m n r ≡ ok (split_rects axis share m n r)
unfolding split_rects_checked
split_rects_checked-Fits axis share m n r i h p =
    let proper : (share.1 == 0) ≡ false = ground arith in
    rw (proper, bounds_in_order axis m n r i h) (ap ok (parts_at-split_rects axis share m n r))

adjust_share_checked-Fits :
    (axis : SplitAxis) (share m n : Pair) (r : Rect) (delta : ℤ)
    → InRange r
    → part axis m + 2 + part axis n ≤ side axis r
    → 0 < share.1
    → adjust_share_checked axis share m n r delta ≡ ok (adjust_share axis share m n r delta)
unfolding adjust_share_checked adjust_share
adjust_share_checked-Fits axis share m n r delta i h p =
    rw (split_rects_checked-Fits axis share m n r i h p, bounds_in_order axis m n r i h) refl

room_of :
    (a : SplitAxis) (share : Pair) (f s : Node) (r : Rect)
    → Fits (split a share f s) r
    → part a (minimum f) + 2 + part a (minimum s) ≤ side a r
room_of a share f s r h =
    let q = Fits-Splits a share f s r h in rw (q.first_min, q.second_min) q.room

>>=-ok :
    {A B : Type 0} (m : Result Error A) (f : A → Result Error B) {x : A}
    → m ≡ ok x
    → (m >>= f) ≡ f x
>>=-ok m f e = ap (λ n. n >>= f) e

adjust_here_checked-Fits :
    (a : SplitAxis) (share : Pair) (f s : Node) (r : Rect) (axis : SplitAxis) (delta : ℤ)
    (result : Option Bool)
    → Fits (split a share f s) r
    → 0 < share.1
    → adjust_here_checked a share f s r axis delta result
      ≡ ok (adjust_here a share f s r axis delta result)
unfolding adjust_here_checked adjust_here
adjust_here_checked-Fits a share f s r axis delta result h p =
    elim (Bool-cases (is_some result || not (axis_eq a axis))) [
      | inl passed_on ↦ rw passed_on refl
      | inr here ↦ rw here (
          >>=-ok (adjust_share_checked a share (minimum f) (minimum s) r delta)
            (λ out. ok (split a out.0 f s, some out.1))
            (adjust_share_checked-Fits a share (minimum f) (minimum s) r delta h.2
              (room_of a share f s r h) p))
    ]

-- A child that changed shares only still fits.
Fits-first :
    (a : SplitAxis) (share : Pair) (f s : Node) (t : PaneId) (r p : Rect) (axis : SplitAxis)
    (delta : ℤ)
    → Fits (split a share f s) r
    → Fits (split a share (adjust f t p axis delta).0 s) r
Fits-first a share f s t r p axis delta h =
    let f' = (adjust f t p axis delta).0 in
    Fits-SameShape (split a share f' s) (split a share f s) r
      (SameShape-split a share share f s f' s (SameShape-adjust f t p axis delta)
        (SameShape-refl s))
      h

Fits-second :
    (a : SplitAxis) (share : Pair) (f s : Node) (t : PaneId) (r p : Rect) (axis : SplitAxis)
    (delta : ℤ)
    → Fits (split a share f s) r
    → Fits (split a share f (adjust s t p axis delta).0) r
Fits-second a share f s t r p axis delta h =
    let s' = (adjust s t p axis delta).0 in
    Fits-SameShape (split a share f s') (split a share f s) r
      (SameShape-split a share share f s f s' (SameShape-refl f)
        (SameShape-adjust s t p axis delta))
      h

adjust_checked-Fits :
    (n : Node) (t : PaneId) (r : Rect) (axis : SplitAxis) (delta : ℤ)
    → Fits n r
    → Shares n
    → adjust_checked n t r axis delta ≡ ok (adjust n t r axis delta)
unfolding adjust_checked adjust
adjust_checked-Fits (pane id) t r axis delta h old = refl
adjust_checked-Fits (split a share f s) t r axis delta h old =
    let q = Fits-Splits a share f s r h in
    let p = split_rects a share (minimum f) (minimum s) r in
    let proper : 0 < share.1 = omega (arith, old) in
    let parts =
      split_rects_checked-Fits a share (minimum f) (minimum s) r h.2 (room_of a share f s r h)
        proper in
    elim (Bool-cases (contains f t)) [
      | inl inside ↦
          rw (parts, inside)
            (>>=-ok (adjust_checked f t p.a axis delta)
                (λ out. adjust_here_checked a share out.0 s r axis delta out.1)
                (adjust_checked-Fits f t p.a axis delta (rw q.parts_are q.first_fits) old.2)
              ∙ adjust_here_checked-Fits a share (adjust f t p.a axis delta).0 s r axis delta
                  (adjust f t p.a axis delta).1 (Fits-first a share f s t r p.a axis delta h)
                  proper)
      | inr outside ↦
          rw (parts, outside)
            (>>=-ok (adjust_checked s t p.b axis delta)
                (λ out. adjust_here_checked a share f out.0 r axis delta out.1)
                (adjust_checked-Fits s t p.b axis delta (rw q.parts_are q.second_fits) old.3)
              ∙ adjust_here_checked-Fits a share f (adjust s t p.b axis delta).0 r axis delta
                  (adjust s t p.b axis delta).1 (Fits-second a share f s t r p.b axis delta h)
                  proper)
    ]

same_branch :
    (b : Bool) {A : Type 0} (out : A) (x : Result Error A) (y : A)
    → x ≡ ok y
    → (if b then ok out else x) ≡ ok (if b then out else y)
same_branch true out x y e = refl
same_branch false out x y e = e

adjust_pane_checked-adjust_pane :
    (l : Layout) (id : PaneId) (d : Direction) (cells : ℕ)
    → IsValid l
    → adjust_pane_checked l id d cells ≡ ok (adjust_pane l id d cells)
unfolding adjust_pane_checked adjust_pane
adjust_pane_checked-adjust_pane l id d cells v =
    same_branch l.zoomed (l, false) _ _
      (>>=-ok (adjust_checked l.root id (canvas l) (direction_axis d) (direction_delta d cells))
        (λ out. ok (adjusted l out.0 out.1))
        (adjust_checked-Fits l.root id (canvas l) (direction_axis d) (direction_delta d cells)
          v.fits v.shares))

resize_pane_checked-resize_pane :
    (l : Layout) (id : PaneId) (d : Direction) (cells : ℕ)
    → IsValid l
    → resize_pane_checked l id d cells ≡ resize_pane l id d cells
unfolding resize_pane_checked resize_pane
resize_pane_checked-resize_pane l id d cells v =
    ap
      (λ (step : Result Error (Layout × Bool)).
        fail_if (cells == 0) zero_cells
        >> (fail_if (not (contains l.root id)) unknown_pane >> step))
      (adjust_pane_checked-adjust_pane l id d cells v)

-- In a valid layout and for fewer than 65536 cells, `resize_pane` never panics: none of its divisions
-- has a zero divisor and none of its clamps crossed bounds, so it ends as without these checks. A
-- layout that it returns is valid, and the outcome is `true` or the layout is as it was.
pub resize_pane_checked-Safe :
    (l : Layout) (id : PaneId) (d : Direction) (cells : ℕ)
    → IsValid l
    → cells < 65536
    → (resize_pane_checked l id d cells ≡ resize_pane l id d cells)
      × Safe
          (λ out. IsValid out.0 × ((out.1 ≡ true) ⊎ (out.0 ≡ l)))
          (resize_pane_checked l id d cells)
resize_pane_checked-Safe l id d cells v h =
    let same = resize_pane_checked-resize_pane l id d cells v in
    (same, rw same (resize_pane-Safe l id d cells v h))
