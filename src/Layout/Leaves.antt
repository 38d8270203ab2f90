-- ===== src/Layout/Leaves.antt =====
-- The leaves of a tree in traversal order, and what each edit of the tree does to them.
use mathlib.Core.List.{map-append, append-nil}
use rustmux.Base.{
  true, [], arith, false, length, length-append, map, sym, ◌++◌, ◌<◌, ◌∷◌, ◌≡◌, List,
}
use rustmux.Base.Members.{
  erase_absent, Distinct-append, Distinct, insert_after_absent, member-append, member, insert_after,
  erase, transpose, insert_after-append, erase-append,
}
use rustmux.Layout.Rect.{SplitAxis}
use rustmux.Layout.Node.{PaneId, Node, pane, split, split_at, remove, exchange, contains, is_pane}

abbrev pub leaves : Node → List PaneId
leaves (pane id) = id ∷ []
leaves (split axis share f s) = leaves f ++ leaves s

pub contains-member : (n : Node) (t : PaneId) → contains n t ≡ member t (leaves n)
unfolding contains
contains-member (pane id) t = ground arith
contains-member (split axis share f s) t =
    rw (contains-member f t, contains-member s t) (sym (member-append t (leaves f) (leaves s)))

pub leaves-length_pos : (n : Node) → 0 < length (leaves n)
leaves-length_pos (pane id) = omega arith
leaves-length_pos (split axis share f s) =
    omega (arith, length-append (leaves f) (leaves s), leaves-length_pos f)

-- `Node::split` finds the target exactly if it is a leaf, and puts the new leaf right behind it.
pub leaves-split_at :
    (n : Node) (t : PaneId) (axis : SplitAxis) (new : PaneId)
    → ((split_at n t axis new).1 ≡ member t (leaves n))
      × (leaves (split_at n t axis new).0 ≡ insert_after t new (leaves n))
unfolding split_at
leaves-split_at (pane id) t axis new = ground arith
leaves-split_at (split a share f s) t axis new = ground (
  arith,
  leaves-split_at f t axis new,
  leaves-split_at s t axis new,
  member-append t (leaves f) (leaves s),
  insert_after-append t new (leaves f) (leaves s),
  insert_after_absent t new (leaves f),
)

pub leaves-exchange :
    (n : Node) (a b : PaneId) → leaves (exchange n a b) ≡ map (transpose a b) (leaves n)
unfolding exchange
leaves-exchange (pane id) a b = ground arith
leaves-exchange (split axis share f s) a b =
    rw (leaves-exchange f a b, leaves-exchange s a b) (sym (map-append (transpose a b) _ _))

is_pane-leaves : (n : Node) (t : PaneId) → is_pane n t ≡ true → leaves n ≡ t ∷ []
is_pane-leaves (pane id) t h = ground arith
is_pane-leaves (split axis share f s) t h = cc

-- `Node::remove` finds the target exactly if it is a leaf below the root, and takes it alone.
pub leaves-remove :
    (n : Node) (t : PaneId)
    → Distinct (leaves n)
    → is_pane n t ≡ false
    → ((remove n t).1 ≡ member t (leaves n)) × (leaves (remove n t).0 ≡ erase t (leaves n))
unfolding remove
leaves-remove (pane id) t d h = ground arith
leaves-remove (split a share f s) t d h =
    let (p, q, apart) = Distinct-append (leaves f) (leaves s) d in
    ground (
      arith,
      is_pane-leaves f t,
      is_pane-leaves s t,
      leaves-remove f t p,
      leaves-remove s t q,
      apart t,
      member-append t (leaves f) (leaves s),
      erase-append t (leaves f) (leaves s),
      erase_absent t (leaves f),
      append-nil (leaves f),
    )
