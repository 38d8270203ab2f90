-- ===== src/Layout/Cut.antt =====
-- The exact arithmetic of one split, and that `split_rects` and `adjust_share` reach it.
use rustmux.Base.{
  ==→≡, Bool-cases, inl, inr, refl, sym, false, if◌then◌else◌, true, not, ◌==◌, ◌^◌, ℕ, suc, min,
  max, ◌+◌, ◌*◌, ◌/◌, ◌-◌, ◌≤◌, ◌<◌, ◌≡◌, arith,
}
use rustmux.Base.Word.{
  clamp_i32, negsuc, sub16-eq, u16_mod, pos, add_i32, ℤ, clamp, to_u16, sub16, add16,
}
use native.Mathlib.Nat.{mul-div_cancel_left}
use rustmux.Layout.Rect.{
  adjust_share, SplitAxis, columns, rows, Rect, Parts, Pair, side, part, split_rects,
}

-- The rectangle lies inside the `u16` plane.
abbrev pub InRange : Rect → Type 0
InRange r = (r.row + r.rows < 65536) × (r.column + r.columns < 65536)

-- A rectangle cut behind its first `k` cells, with a gap of two cells.
abbrev pub cut : SplitAxis → Rect → ℕ → Parts
cut columns r k = record {
  a = record r { columns = k };
  b = record r { column = r.column + k + 2; columns = r.columns - k - 2 };
  separator = record r { column = r.column + k; columns = 2 };
}
cut rows r k = record {
  a = record r { rows = k };
  b = record r { row = r.row + k + 2; rows = r.rows - k - 2 };
  separator = record r { row = r.row + k; rows = 2 };
}

-- The cells that the first child gets.
abbrev pub first_size : SplitAxis → Pair → Pair → Pair → Rect → ℕ
first_size axis share m n r =
    clamp (to_u16 ((side axis r - 2) * share.0 / share.1)) (part axis m)
      (side axis r - 2 - part axis n)

pub split_rects-cut :
    (axis : SplitAxis) (share m n : Pair) (r : Rect)
    → InRange r
    → part axis m + 2 + part axis n ≤ side axis r
    → (split_rects axis share m n r ≡ cut axis r (first_size axis share m n r))
      × (part axis m ≤ first_size axis share m n r)
      × (first_size axis share m n r + 2 + part axis n ≤ side axis r)
unfolding split_rects sub16 add16 to_u16
split_rects-cut columns share m n r i h = ground arith
split_rects-cut rows share m n r i h = ground arith

-- A delta that cannot overflow an `i32` when a `u16` is added to it.
abbrev pub IsStep : ℤ → Type 0
IsStep (pos d) = d < 2 ^ 31 - u16_mod
IsStep (negsuc d) = d < 2 ^ 31 - u16_mod

-- Where a separator behind `k` cells comes to rest between two limits.
abbrev pub moved_to : ℕ → ℤ → ℕ → ℕ → ℕ
moved_to k (pos d) lo hi = min (k + d) hi
moved_to k (negsuc d) lo hi = max (k - suc d) lo

clamp_i32-moved_to :
    (k lo hi : ℕ) (delta : ℤ)
    → lo ≤ k
    → k ≤ hi
    → hi < u16_mod
    → IsStep delta
    → to_u16 (clamp_i32 (add_i32 (pos k) delta) lo hi) ≡ moved_to k delta lo hi
unfolding to_u16 add_i32
clamp_i32-moved_to k lo hi (pos d) h1 h2 h3 h4 = ground arith
clamp_i32-moved_to k lo hi (negsuc d) h1 h2 h3 h4 = ground arith

-- The limits between which a separator moves: the minima of its two sides.
abbrev pub target_size : SplitAxis → Pair → Pair → Pair → Rect → ℤ → ℕ
target_size axis share m n r delta =
    moved_to (first_size axis share m n r) delta (part axis m) (side axis r - 2 - part axis n)

-- The share `(k, available)` stands for exactly `k` cells.
first_size-exact :
    (axis : SplitAxis) (m n : Pair) (r : Rect) (k : ℕ)
    → InRange r
    → 0 < side axis r - 2
    → part axis m ≤ k
    → k ≤ side axis r - 2 - part axis n
    → first_size axis (k, side axis r - 2) m n r ≡ k
unfolding to_u16
first_size-exact columns m n r k i p h1 h2 = rw (mul-div_cancel_left k p) (ground arith)
first_size-exact rows m n r k i p h1 h2 = rw (mul-div_cancel_left k p) (ground arith)

side-cut : (axis : SplitAxis) (r : Rect) (k : ℕ) → side axis (cut axis r k).a ≡ k
side-cut columns r k = refl
side-cut rows r k = refl

side-lt : (axis : SplitAxis) (r : Rect) → InRange r → side axis r < u16_mod
side-lt columns r i = omega arith
side-lt rows r i = omega arith

pub adjust_share_lem :
    (axis : SplitAxis) (share m n : Pair) (r : Rect) (delta : ℤ)
    → InRange r
    → part axis m + 2 + part axis n ≤ side axis r
    → IsStep delta
    → adjust_share axis share m n r delta ≡ (
        if target_size axis share m n r delta == first_size axis share m n r
        then (share, false)
        else ((target_size axis share m n r delta, side axis r - 2), true))
unfolding adjust_share
adjust_share_lem axis share m n r delta i h s =
    let c = split_rects-cut axis share m n r i h in
    let k = first_size axis share m n r in
    let small = side-lt axis r i in
    let available = sub16-eq (side axis r) 2 (omega arith) small in
    let limit = sub16-eq (side axis r - 2) (part axis n) (omega arith) (omega arith) in
    let target =
      clamp_i32-moved_to k (part axis m) (side axis r - 2 - part axis n) delta c.1 (omega arith)
        (omega arith) s in
    rw c.0 (rw (side-cut axis r k) (rw available (rw limit (rw target))))

moved_to_bounds :
    (k lo hi : ℕ) (delta : ℤ)
    → lo ≤ k
    → k ≤ hi
    → (lo ≤ moved_to k delta lo hi) × (moved_to k delta lo hi ≤ hi)
moved_to_bounds k lo hi (pos d) h1 h2 = omega arith
moved_to_bounds k lo hi (negsuc d) h1 h2 = omega arith

pub target_size_bounds :
    (axis : SplitAxis) (share m n : Pair) (r : Rect) (delta : ℤ)
    → InRange r
    → part axis m + 2 + part axis n ≤ side axis r
    → (part axis m ≤ target_size axis share m n r delta)
      × (target_size axis share m n r delta ≤ side axis r - 2 - part axis n)
target_size_bounds axis share m n r delta i h =
    let c = split_rects-cut axis share m n r i h in
    moved_to_bounds (first_size axis share m n r) (part axis m) (side axis r - 2 - part axis n)
      delta c.1 (omega arith)

-- Moving a separator makes the first side exactly the clamped target, and the result says whether
-- that is a change. A share that is kept is kept Whole.
pub adjust_share-first_size :
    (axis : SplitAxis) (share m n : Pair) (r : Rect) (delta : ℤ)
    → InRange r
    → part axis m + 2 + part axis n ≤ side axis r
    → 0 < part axis m
    → IsStep delta
    → (first_size axis (adjust_share axis share m n r delta).0 m n r
        ≡ target_size axis share m n r delta)
      × ((adjust_share axis share m n r delta).1
          ≡ not (target_size axis share m n r delta == first_size axis share m n r))
adjust_share-first_size axis share m n r delta i h p s =
    let b = target_size_bounds axis share m n r delta i h in
    elim (Bool-cases (target_size axis share m n r delta == first_size axis share m n r)) [
      | inl same ↦
          rw (adjust_share_lem axis share m n r delta i h s) (rw same (sym (==→≡ _ _ same), refl))
      | inr moved ↦
          rw (adjust_share_lem axis share m n r delta i h s)
            (rw moved (first_size-exact axis m n r _ i (omega arith) b.0 b.1, refl))
    ]
