-- ===== src/Layout/Edits.antt =====
-- `resize_pane` and `resize_separator` of src/layout.rs and the invariant of a layout.
use rustmux.Base.{
  ◌⊎◌, Bool, Bool-cases, Option, ap, arith, false, if_cases, inl, inr, none, refl, some, suc, true,
  zero, ◌<◌, ◌==◌, ◌||◌, ◌≡◌, ◌≢◌, ℕ,
}
use rustmux.Base.Word.{ℤ}
use rustmux.Layout.Rect.{SplitAxis, Direction, left, right, up, down}
use rustmux.Layout.Node.{contains, PaneId, Node}
use rustmux.Layout.Geometry.{Error, Layout, canvas}
use rustmux.Layout.Operations.{
  is_zero, adjust_pane, adjusted, direction_axis, direction_delta, resize_pane, resize_separator,
}
use rustmux.Layout.Cut.{IsStep}
use rustmux.Layout.Adjusting.{SameShape-adjust, SameShape-adjust_separator}
use rustmux.Layout.Shares.{
  Shares-adjust, Shares-adjust_separator, adjust_unchanged, adjust_separator_unchanged,
}
use rustmux.Layout.Valid.{IsValid, Safe}
use rustmux.Layout.Preserve.{retree-SameShape}
use rustmux.Base.Result.{err, ok, Result}

IsStep-direction_delta :
    (d : Direction) (cells : ℕ) → cells < 65536 → IsStep (direction_delta d cells)
IsStep-direction_delta left zero h = omega arith
IsStep-direction_delta left (suc n) h = omega arith
IsStep-direction_delta up zero h = omega arith
IsStep-direction_delta up (suc n) h = omega arith
IsStep-direction_delta right n h = omega arith
IsStep-direction_delta down n h = omega arith

adjusted-IsValid :
    (l : Layout) (n : Node) (o : Option Bool)
    → IsValid (record l { root = n })
    → IsValid (adjusted l n o).0
adjusted-IsValid l n none v = v
adjusted-IsValid l n (some b) v = v

adjusted_unchanged :
    (l : Layout) (n : Node) (o : Option Bool)
    → (o ≢ some true → n ≡ l.root)
    → (adjusted l n o).1 ≡ false
    → (adjusted l n o).0 ≡ l
adjusted_unchanged l n none same h = ap (λ (m : Node). record l { root = m }) (same (λ e. cc))
adjusted_unchanged l n (some b) same h = ap (λ (m : Node). record l { root = m }) (same (λ e. cc))

-- A pane's separator moves to a valid layout, and an outcome `false` is the same layout.
pub adjust_pane-IsValid :
    (l : Layout) (id : PaneId) (d : Direction) (cells : ℕ)
    → IsValid l
    → cells < 65536
    → IsValid (adjust_pane l id d cells).0
      × ((adjust_pane l id d cells).1 ≡ false → (adjust_pane l id d cells).0 ≡ l)
unfolding adjust_pane
adjust_pane-IsValid l id d cells v h =
    if_cases (λ (out : Layout × Bool). IsValid out.0 × (out.1 ≡ false → out.0 ≡ l)) l.zoomed
      (λ _. (v, λ _. refl))
      λ _. (
        adjusted-IsValid l _ _ (
            retree-SameShape l _ v (SameShape-adjust l.root id (canvas l) axis delta) (
              Shares-adjust l.root id (canvas l) axis delta v.fits
                (IsStep-direction_delta d cells h) v.shares)),
        adjusted_unchanged l _ _ (adjust_unchanged l.root id (canvas l) axis delta),
      )
  where
    axis : SplitAxis
    axis = direction_axis d

    delta : ℤ
    delta = direction_delta d cells

pub resize_separator-IsValid :
    (l : Layout) (index : ℕ) (delta : ℤ)
    → IsValid l
    → IsStep delta
    → IsValid (resize_separator l index delta).0
      × ((resize_separator l index delta).1 ≡ false → (resize_separator l index delta).0 ≡ l)
unfolding resize_separator
resize_separator-IsValid l index delta v step =
    if_cases (λ (out : Layout × Bool). IsValid out.0 × (out.1 ≡ false → out.0 ≡ l))
      (l.zoomed || is_zero delta) (λ _. (v, λ _. refl))
      λ _. (
        adjusted-IsValid l _ _ (
            retree-SameShape l _ v (SameShape-adjust_separator l.root index (canvas l) delta)
              (Shares-adjust_separator l.root index (canvas l) delta v.fits step v.shares)),
        adjusted_unchanged l _ _ (adjust_separator_unchanged l.root index (canvas l) delta),
      )

resize_pane-edits :
    (l : Layout) (id : PaneId) (d : Direction) (cells : ℕ)
    → IsValid l
    → cells < 65536
    → Safe (λ out. IsValid out.0 × (out.1 ≡ false → out.0 ≡ l)) (resize_pane l id d cells)
unfolding resize_pane
resize_pane-edits l id d cells v h = elim (Bool-cases (cells == 0)) [
  | inl nothing ↦ rw nothing (λ e. cc)
  | inr some_cells ↦ elim (Bool-cases (contains l.root id)) [
    | inl known ↦ rw (some_cells, known) (adjust_pane-IsValid l id d cells v h)
    | inr unknown ↦ rw (some_cells, unknown) (λ e. cc)
  ]
]

told :
    (changed : Bool) {now before : Layout}
    → (changed ≡ false → now ≡ before)
    → (changed ≡ true) ⊎ (now ≡ before)
told true h = inl refl
told false h = inr (h refl)

Safe-map :
    {A : Type 0} (P Q : A → Type 0) (r : Result Error A)
    → ((a : A) → P a → Q a)
    → Safe P r
    → Safe Q r
Safe-map P Q (ok a) f h = f a h
Safe-map P Q (err e) f h = h

-- In a valid layout and for fewer than 65536 cells, a layout that `resize_pane` returns is valid, and
-- the outcome is `true` or the layout is as it was.
pub resize_pane-Safe :
    (l : Layout) (id : PaneId) (d : Direction) (cells : ℕ)
    → IsValid l
    → cells < 65536
    → Safe (λ out. IsValid out.0 × ((out.1 ≡ true) ⊎ (out.0 ≡ l))) (resize_pane l id d cells)
resize_pane-Safe l id d cells v h =
    Safe-map (λ (out : Layout × Bool). IsValid out.0 × (out.1 ≡ false → out.0 ≡ l))
      (λ (out : Layout × Bool). IsValid out.0 × ((out.1 ≡ true) ⊎ (out.0 ≡ l)))
      (resize_pane l id d cells) (λ out kept. (kept.0, told out.1 kept.1))
      (resize_pane-edits l id d cells v h)
