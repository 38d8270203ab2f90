-- ===== src/Layout/Exchange.antt =====
-- Focus moves and exchanges as Whole operations: they return for every valid layout, keep the
-- invariant, and refuse exactly what the source refuses.
use rustmux.Base.{
  if_false, if_true, [], get_elem?, if_cases, length, suc, sym, zero, ◌%◌, ◌+◌, ◌-◌, ◌<◌, ◌∙◌, ◌∷◌,
  Bool, Bool-cases, Option, ap, arith, false, if◌then◌else◌, inl, inr, none, not, refl, some, true,
  ◌==◌, ◌||◌, ◌≡◌, ℕ, List,
}
use rustmux.Layout.Rect.{Rect, Direction}
use rustmux.Layout.Node.{PaneId, exchange}
use rustmux.Layout.Geometry.{
  zoomed_move, Layout, Error, unknown_pane, zoomed_swap, tiled_geometry, find_pane, position,
}
use rustmux.Layout.Operations.{
  select_direction_from, select_direction, move_pane, move_active, swap_panes, swap_active,
  activate, exchange_with, expect,
}
use rustmux.Layout.Closest.{IsClosest}
use rustmux.Layout.Leaves.{leaves, contains-member}
use rustmux.Layout.Valid.{IsValid, ids-tiled_geometry}
use rustmux.Layout.Preserve.{refocus, exchange-IsValid}
use rustmux.Layout.Moves.{directional_neighbor-IsNearest, IsNearest-leaf, IsNearest}
use rustmux.Base.Members.{member}
use rustmux.Base.Result.{fail_if-false, Result, err, Ensures, ok}
use rustmux.Layout.Room.{ids}

activate-IsValid :
    (l : Layout) (id : PaneId) (source : Rect) (d : Direction) (target : Option PaneId)
    → IsValid l
    → IsNearest id source d (tiled_geometry l).panes target
    → IsValid (activate l target)
activate-IsValid l id source d none v near = v
activate-IsValid l id source d (some t) v near =
    refocus l t v (IsNearest-leaf l id t source d v near).0

exchange_with-IsValid :
    (l : Layout) (id : PaneId) (source : Rect) (d : Direction) (target : Option PaneId)
    → IsValid l
    → member id (leaves l.root) ≡ true
    → IsNearest id source d (tiled_geometry l).panes target
    → IsValid (exchange_with l id target).0
exchange_with-IsValid l id source d none v m near = v
exchange_with-IsValid l id source d (some t) v m near =
    exchange-IsValid l id t v m (IsNearest-leaf l id t source d v near).0

-- From any leaf of a valid layout the selection returns the closest pane beyond the edge, as `IsClosest` says, and
-- moves the focus to it alone; without such a pane it changes nothing.
pub select_direction_from_total :
    (l : Layout) (origin : PaneId) (d : Direction)
    → IsValid l
    → member origin (leaves l.root) ≡ true
    → (source : Rect) × (find_pane origin (tiled_geometry l).panes ≡ some source)
      × (target : Option PaneId) × (select_direction_from l origin d
          ≡ ok (activate l target, target))
      × IsClosest origin source d (tiled_geometry l).panes target
      × IsValid (activate l target)
unfolding select_direction_from
select_direction_from_total l origin d v m =
    let (source, found, target, e, near, closest) = directional_neighbor-IsNearest l origin d v m in
    (source, found, target, rw e, closest, activate-IsValid l origin source d target v near)

-- The active pane always exists: `expect` never panics.
pub select_direction_total :
    (l : Layout) (d : Direction)
    → IsValid l
    → (target : Option PaneId) × (select_direction l d ≡ ok (activate l target, target))
      × IsValid (activate l target)
unfolding select_direction
select_direction_total l d v =
    let (source, found, target, e, near, valid) =
      select_direction_from_total l l.active d v v.focused in
    (target, ap expect e, valid)

-- A known pane of a layout that is not zoomed changes places with its nearest neighbour, if any.
pub move_pane_total :
    (l : Layout) (id : PaneId) (d : Direction)
    → IsValid l
    → member id (leaves l.root) ≡ true
    → l.zoomed ≡ false
    → (source : Rect) × (target : Option PaneId) × (move_pane l id d
        ≡ ok (exchange_with l id target))
      × IsNearest id source d (tiled_geometry l).panes target
      × IsValid (exchange_with l id target).0
unfolding move_pane
move_pane_total l id d v m z =
    let (source, found, target, e, near, closest) = directional_neighbor-IsNearest l id d v m in
    (
      source,
      target,
      rw e (rw (fail_if-false zoomed_move z)),
      near,
      exchange_with-IsValid l id source d target v m near,
    )

-- `move_active` returns a valid layout for every valid layout: the same one if it is zoomed, and
-- otherwise one that exchanges the active pane with some pane or is the same.
pub move_active_total :
    (l : Layout) (d : Direction)
    → IsValid l
    → (out : Layout × Bool) × (move_active l d ≡ ok out)
      × IsValid out.0
      × ((target : Option PaneId) × (out
            ≡ (if l.zoomed then (l, false) else exchange_with l l.active target)))
unfolding move_active
move_active_total l d v = elim (Bool-cases l.zoomed) [
  | inl z ↦ ((l, false), if_true _ _ z, v, (none, rw z))
  | inr z ↦
      let (source, target, e, near, valid) = move_pane_total l l.active d v v.focused z in
      (
        exchange_with l l.active target,
        if_false _ _ z ∙ ap expect e,
        valid,
        (target, sym (if_false _ _ z)),
      )
]

-- Every outcome of `swap_panes`.
pub swap_panes_outcomes :
    (l : Layout) (a b : PaneId)
    → IsValid l
    → swap_panes l a b ≡ (
        if not (member a (leaves l.root)) || not (member b (leaves l.root))
        then err unknown_pane
        else if l.zoomed
        then err zoomed_swap
        else if a == b
        then ok (l, false)
        else ok (record l { root = exchange l.root a b }, true))
unfolding swap_panes
swap_panes_outcomes l a b v = rw (contains-member l.root a, contains-member l.root b) (ground arith)

-- Swapping two leaves keeps a layout valid.
pub swap_panes-IsValid :
    (l : Layout) (a b : PaneId) → IsValid l → Ensures (λ out. IsValid out.0) (swap_panes l a b)
swap_panes-IsValid l a b v = rw (swap_panes_outcomes l a b v) (
    if_cases Good (not (member a (leaves l.root)) || not (member b (leaves l.root))) (λ _. tt)
      λ known.
        if_cases Good l.zoomed (λ _. tt)
          λ _.
            if_cases Good (a == b) (λ _. v)
              λ _. exchange-IsValid l a b v (ground arith) (ground arith))
  where
    Good : Result Error (Layout × Bool) → Type 0
    Good r = Ensures (λ out. IsValid out.0) r

-- The tiles of a valid layout are as many as it counts.
ids-length : (xs : List (PaneId × Rect)) → length (ids xs) ≡ length xs
ids-length [] = refl
ids-length ((id, r) ∷ xs) = ap suc (ids-length xs)

pub panes-length : (l : Layout) → IsValid l → length (tiled_geometry l).panes ≡ l.count
panes-length l v =
    sym (ids-length (tiled_geometry l).panes) ∙ ap length (ids-tiled_geometry l v) ∙ sym v.counted

pub position-member :
    (t : PaneId) (xs : List (PaneId × Rect))
    → member t (ids xs) ≡ true
    → (i : ℕ) × (position t xs ≡ some i) × (i < length xs)
position-member t [] h = absurd (cc)
position-member t ((id, r) ∷ xs) h = elim (Bool-cases (id == t)) [
  | inl e ↦ (0, rw e, omega arith)
  | inr e ↦
      let (i, found, small) = position-member t xs (ground arith) in
      (suc i, rw (e, found), omega arith)
]

pub get_elem?-ids :
    (xs : List (PaneId × Rect)) (i : ℕ)
    → i < length xs
    → (p : PaneId × Rect) × (get_elem? xs i ≡ some p) × (member p.0 (ids xs) ≡ true)
get_elem?-ids [] i h = absurd (omega arith)
get_elem?-ids ((id, r) ∷ xs) zero h = ((id, r), refl, ground arith)
get_elem?-ids ((id, r) ∷ xs) (suc i) h =
    let (p, found, m) = get_elem?-ids xs i (omega arith) in (p, found, ground arith)

-- `swap_active` finds both indices in every valid layout: it never panics, and the result is valid.
pub swap_active_total :
    (l : Layout) (backwards : Bool)
    → IsValid l
    → (out : Layout × Bool) × (swap_active l backwards ≡ ok out)
      × IsValid out.0
      × (out.1 ≡ not (l.count == 1 || l.zoomed))
unfolding swap_active
swap_active_total l backwards v = elim (Bool-cases (l.count == 1 || l.zoomed)) [
  | inl alone ↦ ((l, false), rw alone, v, rw alone)
  | inr many ↦
      let panes = (tiled_geometry l).panes in
      let (index, at, small) =
        position-member l.active panes (rw (ids-tiled_geometry l v) v.focused) in
      let target : ℕ =
        if backwards then (index + l.count - 1) % l.count else (index + 1) % l.count in
      let bound : target < l.count = ground (arith, panes-length l v) in
      let (p, found, m) = get_elem?-ids panes target (omega (arith, panes-length l v)) in
      let leaf : member p.0 (leaves l.root) ≡ true = rw (← ids-tiled_geometry l v) m in
      (
        (record l { root = exchange l.root l.active p.0 }, true),
        rw (many, at) (rw found),
        exchange-IsValid l l.active p.0 v v.focused leaf,
        rw many,
      )
]
