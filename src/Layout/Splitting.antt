-- ===== src/Layout/Splitting.antt =====
-- `Layout::split_active`: every outcome, the new leaf and the invariant.
use rustmux.Base.{
  ==_refl, ==→≢, Bool-cases, ap, arith, false, if_cases, if◌then◌else◌, inl, inr, leb, length, ltb,
  some, sym, ◌+◌, ◌<◌, ◌==◌, ◌^◌, ◌∙◌, ◌≡◌, ◌≤◌,
}
use rustmux.Layout.Rect.{SplitAxis, Rect, side}
use rustmux.Layout.Node.{PaneId, split_at}
use rustmux.Layout.Geometry.{
  Layout, Error, floating_split, pane_limit, no_space, ids_exhausted, canvas, tiled_geometry,
  find_pane, max_panes,
}
use rustmux.Layout.Operations.{split_active}
use rustmux.Layout.Leaves.{leaves, leaves-split_at}
use rustmux.Layout.Shares.{Shares-split_at}
use rustmux.Layout.Room.{Fits-split_at}
use rustmux.Layout.Valid.{IsValid, Safe, find_leaf, panes-tiled}
use rustmux.Base.Result.{ok, Result, err}
use rustmux.Base.Members.{
  length-insert_after, Distinct-insert_after, member-insert_after, insert_after, member,
}

-- The layout that a successful split leaves.
abbrev pub split_layout : Layout → SplitAxis → Layout
split_layout l axis = record l {
  root = (split_at l.root l.active axis l.next_id).0;
  active = l.next_id;
  next_id = l.next_id + 1;
  count = l.count + 1;
  zoomed = false;
}

-- Every outcome of `split_active` in a valid layout: the guards in their order. The active pane
-- always has a rectangle, so `expect` does not panic.
pub split_active_outcomes :
    (l : Layout) (axis : SplitAxis)
    → IsValid l
    → (rect : Rect) × (find_pane l.active (tiled_geometry l).panes ≡ some rect)
      × (split_active l axis ≡ (
          if l.floating
          then err floating_split
          else if l.count == max_panes
          then err pane_limit
          else if ltb (side axis rect) 4
          then err no_space
          else if leb (2 ^ 64) (l.next_id + 1)
          then err ids_exhausted
          else ok (split_layout l axis, l.next_id)))
unfolding split_active
split_active_outcomes l axis v =
    let (rect, found) = find_leaf l l.active v v.focused in (rect, found, rw found (ground arith))

pub unused_id : (l : Layout) → IsValid l → member l.next_id (leaves l.root) ≡ false
unused_id l v = elim (Bool-cases (member l.next_id (leaves l.root))) [
  | inl used ↦ absurd (omega (arith, v.fresh l.next_id used))
  | inr unused ↦ unused
]

-- A successful split adds one leaf, the next identity, right behind the old focus.
pub leaves-split_layout :
    (l : Layout) (axis : SplitAxis)
    → leaves (split_layout l axis).root ≡ insert_after l.active l.next_id (leaves l.root)
leaves-split_layout l axis = (leaves-split_at l.root l.active axis l.next_id).1

split_layout-IsValid :
    (l : Layout) (axis : SplitAxis) (rect : Rect)
    → IsValid l
    → find_pane l.active (tiled_geometry l).panes ≡ some rect
    → l.floating ≡ false
    → (l.count == max_panes) ≡ false
    → 4 ≤ side axis rect
    → l.next_id + 1 < 2 ^ 64
    → IsValid (split_layout l axis)
split_layout-IsValid l axis rect v found tiled few room ids =
    let e = leaves-split_layout l axis in
    let new = l.next_id in
    let old = leaves l.root in
    let member_new = λ (t : PaneId). member-insert_after l.active new t old v.focused in
    record {
      distinct = rw e (Distinct-insert_after l.active new old v.focused (unused_id l v) v.distinct);
      counted =
          omega (arith, v.counted, ap length e, length-insert_after l.active new old v.focused);
      few = omega (arith, v.few, ==→≢ l.count max_panes few);
      focused = ap (member new) e ∙ member_new new ∙ rw (==_refl new);
      fresh = λ t m. ground (arith, v.fresh t, sym (ap (member t) e) ∙ m, member_new t);
      id_room = ids;
      shares = Shares-split_at l.root l.active axis new v.shares;
      fits =
          Fits-split_at l.root (canvas l) rect l.active axis new v.fits
            (rw (panes-tiled l v tiled) at found) room;
      zoom = λ h. absurd (cc);
      float = λ h. absurd (cc);
    }

-- Splitting keeps the invariant, and never panics.
pub split_active-Safe :
    (l : Layout) (axis : SplitAxis) → IsValid l → Safe (λ out. IsValid out.0) (split_active l axis)
split_active-Safe l axis v =
    let (rect, found, e) = split_active_outcomes l axis v in
    rw e (
      if_cases Good l.floating (λ _ x. cc)
        λ tiled.
          if_cases Good (l.count == max_panes) (λ _ x. cc)
            λ few.
              if_cases Good (ltb (side axis rect) 4) (λ _ x. cc)
                λ room.
                  if_cases Good (leb (2 ^ 64) (l.next_id + 1)) (λ _ x. cc)
                    λ ids.
                      split_layout-IsValid l axis rect v found tiled few (ground arith)
                        (ground arith))
  where
    Good : Result Error (Layout × PaneId) → Type 0
    Good r = Safe (λ out. IsValid out.0) r
