-- ===== src/Layout/Restoring.antt =====
-- `Layout::resize` and `Layout::restore_closed`.
use rustmux.Base.{
  false, max, refl, ◌≤◌, Bool-cases, arith, if◌then◌else◌, inl, inr, ltb, true, ◌||◌, ◌≡◌, ℕ,
}
use rustmux.Layout.Rect.{axis_eq, SplitAxis}
use rustmux.Layout.Node.{PaneId, Node, pane, split}
use rustmux.Layout.Geometry.{Layout, too_small, resize}
use rustmux.Layout.Operations.{restore_closed, node_eq}
use rustmux.Layout.Leaves.{leaves}
use rustmux.Layout.Minimum.{least, minimum-least}
use rustmux.Layout.Valid.{IsValid, Safe}
use rustmux.Layout.Splitting.{split_active-Safe}
use rustmux.Base.Result.{ok, err}
use rustmux.Base.Members.{member}

-- A valid layout takes a size exactly if the tree's minimum fits, and keeps all but its size.
pub resize_outcomes :
    (l : Layout) (height width : ℕ)
    → IsValid l
    → resize l height width ≡ (
        if ltb height (least l.root).0 || ltb width (least l.root).1
        then err too_small
        else ok (record l { rows = height; columns = width }))
unfolding resize
resize_outcomes l height width v =
    let same = minimum-least l.root (omega (arith, v.fits)) (omega (arith, v.fits)) in rw same

axis_eq→≡ : (a b : SplitAxis) → axis_eq a b ≡ true → a ≡ b
axis_eq→≡ SplitAxis.columns SplitAxis.columns h = refl
axis_eq→≡ SplitAxis.rows SplitAxis.rows h = refl
axis_eq→≡ SplitAxis.columns SplitAxis.rows h = cc
axis_eq→≡ SplitAxis.rows SplitAxis.columns h = cc

-- The derived equality of trees is equality.
pub node_eq→≡ : (m n : Node) → node_eq m n ≡ true → m ≡ n
unfolding node_eq
node_eq→≡ (pane a) (pane b) h = ground arith
node_eq→≡ (split x p a b) (split y q c d) h =
    ground (arith, node_eq→≡ a c, node_eq→≡ b d, axis_eq→≡ x y)
node_eq→≡ (pane a) (split y q c d) h = cc
node_eq→≡ (split x p a b) (pane c) h = cc

-- The layout that an undo restores at the current size.
abbrev restored_layout : Layout → Layout → PaneId → Layout
restored_layout l before id = record before {
  rows = l.rows;
  columns = l.columns;
  next_id = max before.next_id l.next_id;
  active = id;
  zoomed = false;
}

restored_layout-IsValid :
    (l before : Layout) (id : PaneId)
    → IsValid l
    → IsValid before
    → member id (leaves before.root) ≡ true
    → (least before.root).0 ≤ l.rows
    → (least before.root).1 ≤ l.columns
    → IsValid (restored_layout l before id)
restored_layout-IsValid l before id v old leaf p q = record {
  distinct = old.distinct;
  counted = old.counted;
  few = old.few;
  focused = leaf;
  fresh = λ t m. omega (arith, old.fresh t m);
  id_room = omega (arith, v.id_room, old.id_room);
  shares = old.shares;
  fits = omega (arith, v.fits);
  zoom = λ h. absurd (cc);
  float = old.float;
}

-- Undoing a close keeps the invariant and never panics, if the layout from before the close is valid
-- and has the closed pane.
pub restore_closed-Safe :
    (l before after : Layout) (id : PaneId)
    → IsValid l
    → IsValid before
    → member id (leaves before.root) ≡ true
    → Safe (λ out. IsValid out.0) (restore_closed l before after id)
unfolding restore_closed
restore_closed-Safe l before after id v old leaf = elim (Bool-cases (node_eq l.root after.root)) [
  | inl same ↦
      rw (same, resize_outcomes before l.rows l.columns old)
        elim (Bool-cases
          (ltb l.rows (least before.root).0 || ltb l.columns (least before.root).1)) [
            | inl small ↦ rw small (λ e. cc)
            | inr room ↦
                rw room
                  (restored_layout-IsValid l before id v old leaf (ground arith) (ground arith))
          ]
  | inr edited ↦ rw edited (split_active-Safe l _ v)
]
