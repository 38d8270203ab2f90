-- ===== src/Layout/Moves.antt =====
-- Focus moves and pane moves: what the directional search finds in a valid layout, and that moving
-- focus or exchanging panes keeps the invariant and never panics.
use rustmux.Base.{
  All, Option, [], false, inl, inr, none, refl, some, true, ◌∙◌, ◌∷◌, ◌≡◌, ◌≢◌, List,
}
use rustmux.Layout.Rect.{Rect, Direction}
use rustmux.Layout.Node.{PaneId}
use rustmux.Layout.Geometry.{Layout, unknown_pane, tiled_geometry, find_pane}
use rustmux.Layout.Operations.{Candidate, Score, nearest, candidate_id, directional_neighbor}
use rustmux.Layout.Focus.{scored, Beaten, Chosen, nearest-Beaten, nearest-Chosen, Chosen-member}
use rustmux.Layout.Closest.{IsClosest}
use rustmux.Layout.Searching.{nearest-IsClosest}
use rustmux.Layout.Leaves.{leaves, contains-member}
use rustmux.Layout.Valid.{IsValid, find_leaf, ids-tiled_geometry}
use rustmux.Base.Members.{member}
use rustmux.Base.Result.{err, ok}

-- `result` is the pane with the least score among those beyond the edge of `source`, or there is
-- no such pane.
abbrev pub IsNearest : PaneId → Rect → Direction → List (PaneId × Rect) → Option PaneId → Type 0
IsNearest id source d panes none = All (λ p. scored id source d p ≡ none) panes
IsNearest id source d panes (some t) =
    (s : Score) × Chosen id source d s t panes
    × All (λ p. Beaten (some (s, t)) (scored id source d p)) panes

none-scored :
    (id : PaneId) (source : Rect) (d : Direction) (panes : List (PaneId × Rect))
    → All (λ p. Beaten none (scored id source d p)) panes
    → All (λ p. scored id source d p ≡ none) panes
none-scored id source d [] h = tt
none-scored id source d (p ∷ panes) h =
    (empty (scored id source d p) h.0, none-scored id source d panes h.1)
  where
    empty : (o : Option Score) → Beaten none o → o ≡ none
    empty none h = refl
    empty (some s) h = absurd h

nearest-IsNearest :
    (id : PaneId) (source : Rect) (d : Direction) (panes : List (PaneId × Rect))
    → IsNearest id source d panes (candidate_id (nearest id source d none panes))
nearest-IsNearest id source d panes =
    go (nearest id source d none panes) refl (nearest-Beaten id source d panes none)
  where
    go :
        (best : Option Candidate)
        → nearest id source d none panes ≡ best
        → All (λ p. Beaten (nearest id source d none panes) (scored id source d p)) panes
        → IsNearest id source d panes (candidate_id best)
    go none e h = none-scored id source d panes (rw e at h)
    go (some (s, t)) e h = elim (nearest-Chosen id source d panes none s t e) [
      | inl q ↦ absurd (cc)
      | inr chosen ↦ (s, chosen, rw e at h)
    ]

-- In a valid layout the search from any leaf succeeds and finds a nearest pane.
pub directional_neighbor-IsNearest :
    (l : Layout) (id : PaneId) (d : Direction)
    → IsValid l
    → member id (leaves l.root) ≡ true
    → (source : Rect) × (find_pane id (tiled_geometry l).panes ≡ some source)
      × (target : Option PaneId) × (directional_neighbor l id d ≡ ok target)
      × IsNearest id source d (tiled_geometry l).panes target
      × IsClosest id source d (tiled_geometry l).panes target
unfolding directional_neighbor
directional_neighbor-IsNearest l id d v m =
    let (source, found) = find_leaf l id v m in
    let panes = (tiled_geometry l).panes in
    (
      source,
      found,
      candidate_id (nearest id source d none panes),
      rw (contains-member l.root id ∙ m) (rw found),
      nearest-IsNearest id source d panes,
      nearest-IsClosest id source d panes,
    )

-- An identity that is no leaf is refused.
pub directional_neighbor_unknown :
    (l : Layout) (id : PaneId) (d : Direction)
    → member id (leaves l.root) ≡ false
    → directional_neighbor l id d ≡ err unknown_pane
unfolding directional_neighbor
directional_neighbor_unknown l id d m = rw (contains-member l.root id ∙ m)

pub IsNearest-leaf :
    (l : Layout) (id t : PaneId) (source : Rect) (d : Direction)
    → IsValid l
    → IsNearest id source d (tiled_geometry l).panes (some t)
    → (member t (leaves l.root) ≡ true) × (t ≢ id)
IsNearest-leaf l id t source d v (s, chosen, best) =
    let (m, ne) = Chosen-member id source d s t (tiled_geometry l).panes chosen in
    (rw (← ids-tiled_geometry l v) m, ne)
