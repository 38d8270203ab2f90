-- ===== src/Layout/Saved.antt =====
-- Saved layouts of src/layout/snapshot.rs: the flat records of a tree, and the reader that trusts
-- none of them. A `HashSet` is the list of its elements.
use rustmux.Base.{
  Bool, List, false, get_elem?, leb, length, ltb, max, not, suc, true, zero, ℕ, ◌&&◌, ◌*◌, ◌++◌,
  ◌+◌, ◌-◌, ◌==◌, ◌^◌, ◌∷◌, [], ◌||◌,
}
use rustmux.Base.Result.{Result, ok, err, ◌>>=◌, ◌>>◌, fail_if, ok_or}
use rustmux.Base.Members.{member}
use rustmux.Layout.Rect.{Rect, SplitAxis, columns, rows, axis_eq}
use rustmux.Layout.Node.{PaneId, Node, pane, split}
use rustmux.Layout.Geometry.{Layout, Error, max_panes, resize, tiled_content_geometry}

-- `saved_split rows share first second`
pub data SavedNode : Type 0 where
  saved_pane : PaneId → SavedNode
  saved_split : Bool → ℕ × ℕ → ℕ → ℕ → SavedNode

pub record SavedLayout : Type 0 where
  pub active : PaneId
  pub zoomed : Bool
  pub nodes : List SavedNode

-- `nodes[index] = node`
abbrev pub put : ℕ → SavedNode → List SavedNode → List SavedNode
put i node [] = []
put zero node (n ∷ nodes) = node ∷ nodes
put (suc i) node (n ∷ nodes) = n ∷ put i node nodes

unfoldable pub append : Node → List SavedNode → ℕ × List SavedNode
append (pane id) nodes =
    (length nodes, put (length nodes) (saved_pane id) (nodes ++ saved_pane 0 ∷ []))
append (split axis share f s) nodes =
    let (first, with_first) = append f (nodes ++ saved_pane 0 ∷ []) in
    let (second, with_second) = append s with_first in
    (
      length nodes,
      put (length nodes) (saved_split (axis_eq axis rows) share first second) with_second,
    )

unfoldable pub saved : Layout → SavedLayout
unfolding append
saved l = record { active = l.active; zoomed = l.zoomed; nodes = (append l.root []).1 }

-- The errors of `from_saved`; `out_of_fuel` is a descent of the model that ran out of fuel.
pub data SavedError : Type 0 where
  invalid_count repeated_node missing_node invalid_id invalid_links : SavedError
  unreachable_or_unfocused no_content_space out_of_fuel : SavedError
  refused : Error → SavedError

-- The tree with the sets `visited` and `ids` after it.
abbrev pub Built : Type 0
Built = Node × List ℕ × List ℕ

abbrev pub axis_from : Bool → SplitAxis
axis_from true = rows
axis_from false = columns

-- The body of `build` at a node, with the nested calls as an argument.
unfoldable pub read_node :
    (ℕ → List ℕ → List ℕ → Result SavedError Built)
    → ℕ
    → List ℕ
    → List ℕ
    → SavedNode
    → Result SavedError Built
read_node child index visited ids (saved_pane id) =
    fail_if (leb (2 ^ 63 - 1) id || member id ids) invalid_id
    >> ok (pane id, index ∷ visited, id ∷ ids)
read_node child index visited ids (saved_split is_rows share first second) =
    fail_if (leb first index || leb second index || share.0 == 0 || leb share.1 share.0)
      invalid_links
    >> (child first (index ∷ visited) ids >>= λ f.
        child second f.1 f.2 >>= λ s. ok (split (axis_from is_rows) share f.0 s.0, s.1, s.2))

-- A child's index is larger than its parent's, so the number of nodes is fuel enough.
unfoldable pub build : ℕ → List SavedNode → ℕ → List ℕ → List ℕ → Result SavedError Built
unfolding read_node
build zero nodes index visited ids = err out_of_fuel
build (suc fuel) nodes index visited ids = do
  fail_if (member index visited) repeated_node
  node ← ok_or (get_elem? nodes index) missing_node
  read_node (build fuel nodes) index visited ids node

abbrev pub maximum : List ℕ → ℕ
maximum [] = 0
maximum (x ∷ xs) = max x (maximum xs)

abbrev pub any_empty : List (PaneId × Rect) → Bool
any_empty [] = false
any_empty ((id, r) ∷ panes) = r.rows == 0 || r.columns == 0 || any_empty panes

abbrev pub resized : Layout → ℕ → ℕ → Result SavedError Layout
resized l height width = elim (resize l height width) [ err e ↦ err (refused e) | ok out ↦ ok out ]

unfoldable pub from_saved : SavedLayout → ℕ → ℕ → Result SavedError Layout
unfolding build resize
from_saved data_in height width = do
  let nodes = data_in.nodes
  fail_if (length nodes == 0 || ltb (max_panes * 2 - 1) (length nodes)) invalid_count
  built ← build (length nodes + 1) nodes 0 [] []
  let ids = built.2
  fail_if
      (not (length built.1 == length nodes)
        || ltb max_panes (length ids)
        || not (member data_in.active ids))
      unreachable_or_unfocused
  l ←
      resized
        (record {
          root = built.0;
          rows = height;
          columns = width;
          active = data_in.active;
          next_id = maximum ids + 1;
          count = length ids;
          zoomed = data_in.zoomed && ltb 1 (length ids);
          floating = false;
        })
        height width
  fail_if (any_empty (tiled_content_geometry l).panes) no_content_space
  ok l
