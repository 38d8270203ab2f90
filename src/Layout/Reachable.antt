-- ===== src/Layout/Reachable.antt =====
-- The layouts that a program can build: `Layout::new`, then any sequence of the operations.
use mathlib.Core.Path.{subst}
use rustmux.Base.{==→≡, ==→≢, arith, ◌==◌, Bool-cases, inl, inr, Bool, Option, true, ◌<◌, ◌≡◌, ℕ}
use rustmux.Base.Word.{ℤ}
use rustmux.Layout.Rect.{SplitAxis, Direction}
use rustmux.Layout.Node.{PaneId}
use rustmux.Layout.Geometry.{zoomed_move, Error, Layout, new, into_floating, toggle_zoom, resize}
use rustmux.Layout.Operations.{
  select, select_direction_from, move_pane, swap_panes, swap_active, resize_pane, resize_separator,
  split_active, close, restore_closed,
}
use rustmux.Layout.Cut.{IsStep}
use rustmux.Layout.Valid.{
  resize-IsValid, Safe, toggle_zoom-IsValid, new-IsValid, into_floating-IsValid, IsValid,
}
use rustmux.Base.Result.{fail_if-true, err, ok-injective, of_ensures, Ensures, Result, ok}
use rustmux.Base.Members.{member}
use rustmux.Layout.Exchange.{
  move_pane_total, select_direction_from_total, swap_panes-IsValid, swap_active_total,
}
use rustmux.Layout.Restoring.{restore_closed-Safe}
use rustmux.Layout.Leaves.{leaves-length_pos, leaves}
use rustmux.Layout.Preserve.{select-IsValid}
use rustmux.Layout.Edits.{resize_separator-IsValid, resize_pane-Safe}
use rustmux.Layout.Moves.{directional_neighbor-IsNearest, directional_neighbor_unknown}
use rustmux.Layout.Splitting.{split_active-Safe}
use rustmux.Layout.Closing.{close_unknown, close_total, close_last}

-- One successful call of an operation; sizes and cells are `u16` values.
pub data Step : Layout → Layout → Type 0 where
  float : {l l' : Layout} → into_floating l ≡ ok l' → Step l l'
  zoom : (l : Layout) → Step l (toggle_zoom l).0
  focus : {l l' : Layout} (id : PaneId) → select l id ≡ ok l' → Step l l'
  focus_toward :
      {l l' : Layout} {target : Option PaneId} (origin : PaneId) (d : Direction)
      → select_direction_from l origin d ≡ ok (l', target)
      → Step l l'
  move :
      {l l' : Layout} {moved : Bool} (id : PaneId) (d : Direction)
      → move_pane l id d ≡ ok (l', moved)
      → Step l l'
  swap :
      {l l' : Layout} {moved : Bool} (a b : PaneId) → swap_panes l a b ≡ ok (l', moved) → Step l l'
  rotate :
      {l l' : Layout} {moved : Bool} (backwards : Bool)
      → swap_active l backwards ≡ ok (l', moved)
      → Step l l'
  enlarge :
      {l l' : Layout} {moved : Bool} (id : PaneId) (d : Direction) (cells : ℕ)
      → cells < 65536
      → resize_pane l id d cells ≡ ok (l', moved)
      → Step l l'
  drag :
      (l : Layout) (index : ℕ) (delta : ℤ)
      → IsStep delta
      → Step l (resize_separator l index delta).0
  rescale :
      {l l' : Layout} (height width : ℕ)
      → height < 65536
      → width < 65536
      → resize l height width ≡ ok l'
      → Step l l'
  divide :
      {l l' : Layout} {id : PaneId} (axis : SplitAxis)
      → split_active l axis ≡ ok (l', id)
      → Step l l'
  remove : {l l' : Layout} {next : PaneId} (id : PaneId) → close l id ≡ ok (l', next) → Step l l'

pub data Reach : Layout → Type 0 where
  start :
      {l : Layout} (height width : ℕ)
      → height < 65536
      → width < 65536
      → new height width ≡ ok l
      → Reach l
  next : {l l' : Layout} → Reach l → Step l l' → Reach l'
  -- An undo joins the layout with an earlier one that held the closed pane.
  undo :
      {l before l' : Layout} {out : PaneId} (after : Layout) (id : PaneId)
      → Reach l
      → Reach before
      → member id (leaves before.root) ≡ true
      → restore_closed l before after id ≡ ok (l', out)
      → Reach l'

pub of_safe : {A : Type 0} (P : A → Type 0) (r : Result Error A) {a : A} → Safe P r → r ≡ ok a → P a
of_safe P (ok b) h e = subst P (ok-injective e) h
of_safe P (err x) h e = absurd (cc)

swap_active-IsValid :
    (l : Layout) (backwards : Bool)
    → IsValid l
    → Ensures (λ (out : Layout × Bool). IsValid out.0) (swap_active l backwards)
swap_active-IsValid l backwards v =
    let (out, e, valid, moved) = swap_active_total l backwards v in rw e valid

select_direction_from-IsValid :
    (l : Layout) (origin : PaneId) (d : Direction)
    → IsValid l
    → Ensures (λ (out : Layout × Option PaneId). IsValid out.0) (select_direction_from l origin d)
unfolding select_direction_from
select_direction_from-IsValid l origin d v = elim (Bool-cases (member origin (leaves l.root))) [
  | inl leaf ↦
      let (source, found, target, e, near, valid) = select_direction_from_total l origin d v leaf in
      rw (e, select_direction_from) valid
  | inr unknown ↦ rw (directional_neighbor_unknown l origin d unknown) tt
]

move_pane-IsValid :
    (l : Layout) (id : PaneId) (d : Direction)
    → IsValid l
    → Ensures (λ (out : Layout × Bool). IsValid out.0) (move_pane l id d)
unfolding move_pane
move_pane-IsValid l id d v = elim (Bool-cases (member id (leaves l.root))) [
  | inl leaf ↦ elim (Bool-cases l.zoomed) [
    | inl z ↦
        let (source, found, target, e, near, closest) =
          directional_neighbor-IsNearest l id d v leaf in
        rw e (rw (fail_if-true zoomed_move z) tt)
    | inr z ↦
        let (source, target, e, near, valid) = move_pane_total l id d v leaf z in
        rw (e, move_pane) valid
  ]
  | inr unknown ↦ rw (directional_neighbor_unknown l id d unknown) tt
]

close-IsValid :
    (l : Layout) (id : PaneId)
    → IsValid l
    → Ensures (λ (out : Layout × PaneId). IsValid out.0) (close l id)
close-IsValid l id v = elim (Bool-cases (member id (leaves l.root))) [
  | inl leaf ↦ elim (Bool-cases (l.count == 1)) [
    | inl one ↦ rw (close_last l id v leaf (==→≡ l.count 1 one)) tt
    | inr many ↦
        let some_pane = leaves-length_pos l.root in
        let (heir_id, e, _focus, same, valid) =
          close_total l id v leaf (omega (arith, v.counted, ==→≢ l.count 1 many)) in
        rw e valid
  ]
  | inr unknown ↦ rw (close_unknown l id v unknown) tt
]

pub Step-IsValid : {l l' : Layout} → Step l l' → IsValid l → IsValid l'
Step-IsValid (float {l} e) v = into_floating-IsValid l v e
Step-IsValid (zoom l) v = toggle_zoom-IsValid l v
Step-IsValid (focus {l} id e) v = of_ensures IsValid (select l id) (select-IsValid l id v) e
Step-IsValid (focus_toward {l} origin d e) v =
    of_ensures (λ (o : Layout × Option PaneId). IsValid o.0) (select_direction_from l origin d)
      (select_direction_from-IsValid l origin d v) e
Step-IsValid (move {l} id d e) v =
    of_ensures (λ (o : Layout × Bool). IsValid o.0) (move_pane l id d) (move_pane-IsValid l id d v)
      e
Step-IsValid (swap {l} a b e) v =
    of_ensures (λ (o : Layout × Bool). IsValid o.0) (swap_panes l a b) (swap_panes-IsValid l a b v)
      e
Step-IsValid (rotate {l} backwards e) v =
    of_ensures (λ (o : Layout × Bool). IsValid o.0) (swap_active l backwards)
      (swap_active-IsValid l backwards v) e
Step-IsValid (enlarge {l} id d cells h e) v =
    (of_safe _ (resize_pane l id d cells) (resize_pane-Safe l id d cells v h) e).0
Step-IsValid (drag l index delta h) v = (resize_separator-IsValid l index delta v h).0
Step-IsValid (rescale {l} height width p q e) v = resize-IsValid l height width p q v e
Step-IsValid (divide {l} axis e) v =
    of_safe (λ (o : Layout × PaneId). IsValid o.0) (split_active l axis)
      (split_active-Safe l axis v) e
Step-IsValid (remove {l} id e) v =
    of_ensures (λ (o : Layout × PaneId). IsValid o.0) (close l id) (close-IsValid l id v) e

-- Every layout that the program can build satisfies the invariant.
pub Reach-IsValid : {l : Layout} → Reach l → IsValid l
Reach-IsValid (start height width p q e) = new-IsValid height width p q e
Reach-IsValid (next r s) = Step-IsValid s (Reach-IsValid r)
Reach-IsValid (undo {l} {before} after id r old leaf e) =
    of_safe (λ (o : Layout × PaneId). IsValid o.0) (restore_closed l before after id)
      (restore_closed-Safe l before after id (Reach-IsValid r) (Reach-IsValid old) leaf) e
