-- ===== src/Layout/Node.antt =====
-- The split tree of src/layout.rs: `enum Node` and its methods. A method that mutates the tree
-- returns the new tree with its result.
use rustmux.Base.{
  ℕ, zero, suc, Bool, true, false, not, ◌||◌, Option, none, some, List, [], ◌∷◌, ◌++◌, max, ◌==◌,
  if◌then◌else◌, length,
}
use rustmux.Base.Word.{add16, ℤ}
use rustmux.Layout.Rect.{
  SplitAxis, columns, rows, axis_eq, Rect, Pair, split_border_cells, split_rects, adjust_share,
}

-- `PaneId(u64)`
abbrev pub PaneId : Type 0
PaneId = ℕ

pub data Node : Type 0 where
  pane : PaneId → Node
  split : SplitAxis → Pair → Node → Node → Node

pub record Geometry : Type 0 where
  pub panes : List (PaneId × Rect)
  pub separators : List Rect

pub record Hitbox : Type 0 where
  pub index : ℕ
  pub axis : SplitAxis
  pub area : Rect

-- The two cases of `Node::minimum` at a split.
abbrev pub join_minimum : SplitAxis → Pair → Pair → Pair
join_minimum columns (ar, ac) (br, bc) = (max ar br, add16 (add16 ac split_border_cells) bc)
join_minimum rows (ar, ac) (br, bc) = (add16 (add16 ar split_border_cells) br, max ac bc)

unfoldable pub minimum : Node → Pair
minimum (pane id) = (1, 1)
minimum (split axis share first second) = join_minimum axis (minimum first) (minimum second)

-- `Node::split`
unfoldable pub split_at : Node → PaneId → SplitAxis → PaneId → Node × Bool
split_at (pane id) target axis new =
    if id == target then (split axis (1, 2) (pane target) (pane new), true) else (pane id, false)
split_at (split a share first second) target axis new =
    let (first', done) = split_at first target axis new in
    let (second', replaced) = split_at second target axis new in
    if done then (split a share first' second, true) else (split a share first' second', replaced)

-- `matches!(node, Self::Pane(id) if *id == target)`
abbrev pub is_pane : Node → PaneId → Bool
is_pane (pane id) target = id == target
is_pane (split _ _ _ _) target = false

unfoldable pub remove : Node → PaneId → Node × Bool
remove (pane id) target = (pane id, false)
remove (split a share first second) target =
    let (first', done) = remove first target in
    let (second', removed) = remove second target in
    if is_pane first target
    then (second, true)
    else if is_pane second target
    then (first, true)
    else if done
    then (split a share first' second, true)
    else (split a share first' second', removed)

unfoldable pub exchange : Node → PaneId → PaneId → Node
exchange (pane id) a b = if id == a then pane b else if id == b then pane a else pane id
exchange (split axis share first second) a b =
    split axis share (exchange first a b) (exchange second a b)

-- `Option::or_else`
abbrev pub or_else {ℓ} : {A : Type ℓ} → Option A → Option A → Option A
or_else none o = o
or_else (some a) o = some a

unfoldable pub parent_axis : Node → PaneId → Option SplitAxis
parent_axis (pane id) target = none
parent_axis (split axis share first second) target =
    if is_pane first target || is_pane second target
    then some axis
    else or_else (parent_axis first target) (parent_axis second target)

unfoldable pub contains : Node → PaneId → Bool
contains (pane id) target = id == target
contains (split axis share first second) target = contains first target || contains second target

abbrev pub is_some {ℓ} : {A : Type ℓ} → Option A → Bool
is_some none = false
is_some (some a) = true

-- The end of `Node::adjust`, after the recursive call that gave `result`.
unfoldable pub adjust_here :
    SplitAxis → Pair → Node → Node → Rect → SplitAxis → ℤ → Option Bool → Node × Option Bool
adjust_here split_axis share first second rect axis delta result =
    if is_some result || not (axis_eq split_axis axis)
    then (split split_axis share first second, result)
    else (let (share', moved) =
          adjust_share split_axis share (minimum first) (minimum second) rect delta in
        (split split_axis share' first second, some moved))

unfoldable pub adjust : Node → PaneId → Rect → SplitAxis → ℤ → Node × Option Bool
unfolding adjust_here
adjust (pane id) target rect axis delta = (pane id, none)
adjust (split split_axis share first second) target rect axis delta =
    let p = split_rects split_axis share (minimum first) (minimum second) rect in
    let (first', in_first) = adjust first target p.a axis delta in
    let (second', in_second) = adjust second target p.b axis delta in
    if contains first target
    then adjust_here split_axis share first' second rect axis delta in_first
    else adjust_here split_axis share first second' rect axis delta in_second

-- The tree, the result and what `*remaining` holds afterwards.
unfoldable pub adjust_separator : Node → ℕ → Rect → ℤ → Node × Option Bool × ℕ
adjust_separator (pane id) remaining rect delta = (pane id, none, remaining)
adjust_separator (split axis share first second) zero rect delta =
    let (share', moved) = adjust_share axis share (minimum first) (minimum second) rect delta in
    (split axis share' first second, some moved, zero)
adjust_separator (split axis share first second) (suc remaining) rect delta =
    let p = split_rects axis share (minimum first) (minimum second) rect in
    let (first', in_first, left) = adjust_separator first remaining p.a delta in
    let (second', in_second, rest) = adjust_separator second left p.b delta in
    if is_some in_first
    then (split axis share first' second, in_first, left)
    else (split axis share first' second', in_second, rest)

unfoldable pub separator_hitboxes : Node → Rect → List Hitbox → List Hitbox
separator_hitboxes (pane id) rect hitboxes = hitboxes
separator_hitboxes (split axis share first second) rect hitboxes =
    let p = split_rects axis share (minimum first) (minimum second) rect in
    let here : Hitbox = record { index = length hitboxes; axis = axis; area = p.separator } in
    separator_hitboxes second p.b (separator_hitboxes first p.a (hitboxes ++ here ∷ []))

unfoldable pub place : Node → Rect → Geometry → Geometry
place (pane id) rect g = record g { panes = g.panes ++ (id, rect) ∷ [] }
place (split axis share first second) rect g =
    let p = split_rects axis share (minimum first) (minimum second) rect in
    let g' = record g { separators = g.separators ++ p.separator ∷ [] } in
    place second p.b (place first p.a g')
