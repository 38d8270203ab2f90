-- ===== src/Layout/Preserve.antt =====
-- The operations of `Layout` keep its invariant.
use rustmux.Base.{
  Option-cases, [], ap, arith, inl, inr, length, map, some, sym, true, ◌∙◌, ◌∷◌, ◌≡◌, List,
}
use rustmux.Layout.Rect.{Rect}
use rustmux.Layout.Node.{PaneId, Node, exchange}
use rustmux.Layout.Geometry.{Layout, canvas, tiled_geometry, find_pane}
use rustmux.Layout.Operations.{select}
use rustmux.Layout.Leaves.{leaves, leaves-exchange}
use rustmux.Layout.Minimum.{Fits}
use rustmux.Layout.Adjusting.{Fits-SameShape, Shares, SameShape}
use rustmux.Layout.Room.{Fits-exchange, ids}
use rustmux.Layout.Valid.{IsValid, ids-tiled_geometry}
use rustmux.Base.Members.{
  length-map, member-map-transpose, Distinct-map-transpose, transpose, Distinct, member,
}
use rustmux.Base.Result.{Ensures}
use rustmux.Layout.Shares.{Shares-exchange}

-- A valid layout may move its focus to any of its leaves.
pub refocus :
    (l : Layout) (t : PaneId)
    → IsValid l
    → member t (leaves l.root) ≡ true
    → IsValid (record l { active = t })
refocus l t v m = record {
  distinct = v.distinct;
  counted = v.counted;
  few = v.few;
  focused = m;
  fresh = v.fresh;
  id_room = v.id_room;
  shares = v.shares;
  fits = v.fits;
  zoom = v.zoom;
  float = v.float;
}

-- A valid layout may take another tree over the same leaves.
pub retree :
    (l : Layout) (n : Node)
    → IsValid l
    → Distinct (leaves n)
    → length (leaves n) ≡ length (leaves l.root)
    → ((t : PaneId) → member t (leaves n) ≡ member t (leaves l.root))
    → Shares n
    → Fits n (canvas l)
    → IsValid (record l { root = n })
retree l n v d len same s f = record {
  distinct = d;
  counted = v.counted ∙ sym len;
  few = v.few;
  focused = same l.active ∙ v.focused;
  fresh = λ t m. v.fresh t (sym (same t) ∙ m);
  id_room = v.id_room;
  shares = s;
  fits = f;
  zoom = v.zoom;
  float = v.float;
}

pub retree-SameShape :
    (l : Layout) (n : Node)
    → IsValid l
    → SameShape n l.root
    → Shares n
    → IsValid (record l { root = n })
retree-SameShape l n v same s =
    retree l n v (rw (same.0) v.distinct) (ap length same.0) (λ t. ap (member t) same.0) s
      (Fits-SameShape n l.root (canvas l) same v.fits)

member-transpose_leaf :
    (a b t : PaneId) (xs : List PaneId)
    → member a xs ≡ true
    → member b xs ≡ true
    → member t (map (transpose a b) xs) ≡ member t xs
member-transpose_leaf a b t xs p q = ground (arith, member-map-transpose a b t xs)

-- Two leaves may change places.
pub exchange-IsValid :
    (l : Layout) (a b : PaneId)
    → IsValid l
    → member a (leaves l.root) ≡ true
    → member b (leaves l.root) ≡ true
    → IsValid (record l { root = exchange l.root a b })
exchange-IsValid l a b v p q =
    let e = leaves-exchange l.root a b in
    retree l (exchange l.root a b) v (rw e (Distinct-map-transpose a b (leaves l.root) v.distinct))
      (ap length e ∙ length-map (transpose a b) (leaves l.root))
      (λ t. ap (member t) e ∙ member-transpose_leaf a b t (leaves l.root) p q)
      (Shares-exchange l.root a b v.shares) (Fits-exchange l.root (canvas l) a b v.fits)

find_pane-member :
    (t : PaneId) (xs : List (PaneId × Rect)) (r : Rect)
    → find_pane t xs ≡ some r
    → member t (ids xs) ≡ true
find_pane-member t [] r e = cc
find_pane-member t ((id, q) ∷ xs) r e = ground (arith, find_pane-member t xs r)

pub find_pane-leaf :
    (l : Layout) (t : PaneId) (r : Rect)
    → IsValid l
    → find_pane t (tiled_geometry l).panes ≡ some r
    → member t (leaves l.root) ≡ true
find_pane-leaf l t r v e =
    rw (← ids-tiled_geometry l v) (find_pane-member t (tiled_geometry l).panes r e)

pub select-IsValid : (l : Layout) (t : PaneId) → IsValid l → Ensures IsValid (select l t)
unfolding select
select-IsValid l t v = elim (Option-cases (find_pane t (tiled_geometry l).panes)) [
  | inl nowhere ↦ rw (nowhere, select) tt
  | inr (r, found) ↦ rw (found, select) (refocus l t v (find_pane-leaf l t r v found))
]
