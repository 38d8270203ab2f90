-- ===== src/Layout/Focus.antt =====
-- Directional focus: what a score means, and that the search returns a best-scored pane.
use rustmux.Base.{
  Bool-cases, All, [], ap, inl, inr, refl, sym, ◌∙◌, ◌≢◌, ◌⊎◌, Option, arith, false, if◌then◌else◌,
  none, some, true, ◌+◌, ◌<◌, ◌==◌, ◌∷◌, ◌≡◌, ◌≤◌, ℕ, List,
}
use rustmux.Layout.Rect.{Rect, Direction, left, right, up, down}
use rustmux.Layout.Node.{PaneId}
use rustmux.Layout.Operations.{Score, Candidate, focus_score, score_lt, better, nearest}
use rustmux.Layout.Room.{ids}
use rustmux.Base.Members.{member}

-- `other` lies beyond the edge of `source` in the direction.
abbrev pub Beyond : Direction → Rect → Rect → Type 0
Beyond left source other = other.column + other.columns ≤ source.column
Beyond right source other = source.column + source.columns ≤ other.column
Beyond up source other = other.row + other.rows ≤ source.row
Beyond down source other = source.row + source.rows ≤ other.row

-- The rectangles share a cell's worth of edge across the direction.
abbrev pub Overlap : ℕ → ℕ → ℕ → ℕ → Type 0
Overlap a m b n = (a < b + n) × (b < a + m) × (0 < m) × (0 < n)

abbrev pub Aligned : Direction → Rect → Rect → Type 0
Aligned left s t = Overlap s.row s.rows t.row t.rows
Aligned right s t = Overlap s.row s.rows t.row t.rows
Aligned up s t = Overlap s.column s.columns t.column t.columns
Aligned down s t = Overlap s.column s.columns t.column t.columns

-- A score exists only for a rectangle beyond the edge that overlaps across the direction.
pub focus_score-Beyond :
    (d : Direction) (s t : Rect) (x : Score)
    → focus_score s t d ≡ some x
    → Beyond d s t × Aligned d s t
unfolding focus_score
focus_score-Beyond left s t x e = ground arith
focus_score-Beyond right s t x e = ground arith
focus_score-Beyond up s t x e = ground arith
focus_score-Beyond down s t x e = ground arith

score_lt_trans : (x y z : Score) → score_lt x y ≡ true → score_lt y z ≡ true → score_lt x z ≡ true
unfolding score_lt
score_lt_trans x y z p q = ground arith

score_lt_irrefl : (x : Score) → score_lt x x ≡ false
unfolding score_lt
score_lt_irrefl x = ground arith

-- The score with which a pane takes part in the search.
abbrev pub scored : PaneId → Rect → Direction → PaneId × Rect → Option Score
scored id source d (other, rect) = if other == id then none else focus_score source rect d

-- No candidate is missed, and none has a smaller score than the one found.
abbrev pub Beaten : Option Candidate → Option Score → Type 0
Beaten best none = Unit
Beaten none (some s) = ⊥
Beaten (some (b, i)) (some s) = score_lt s b ≡ false

abbrev pub candidate : PaneId → Option Score → Option Candidate → Option Candidate
candidate other none best = best
candidate other (some s) best = better best (s, other)

Beaten-better :
    (best : Option Candidate) (s : Score) (other : PaneId) (o : Option Score)
    → Beaten best o
    → Beaten (better best (s, other)) o
Beaten-better none s other none h = tt
Beaten-better none s other (some x) h = absurd h
Beaten-better (some (b, i)) s other none h = tt
Beaten-better (some (b, i)) s other (some x) h = ground (arith, score_lt_trans x s b)

Beaten-new :
    (best : Option Candidate) (s : Score) (other : PaneId)
    → Beaten (better best (s, other)) (some s)
Beaten-new none s other = score_lt_irrefl s
Beaten-new (some (b, i)) s other = ground (arith, score_lt_irrefl s)

pub nearest-cons :
    (id : PaneId) (source : Rect) (d : Direction) (best : Option Candidate) (other : PaneId)
    (rect : Rect) (panes : List (PaneId × Rect))
    → nearest id source d best ((other, rect) ∷ panes)
      ≡ nearest id source d (candidate other (scored id source d (other, rect)) best) panes
unfolding nearest
nearest-cons id source d best other rect panes =
    ap (λ (b : Option Candidate). nearest id source d b panes) (ground arith)

nearest_keeps :
    (id : PaneId) (source : Rect) (d : Direction) (panes : List (PaneId × Rect))
    (best : Option Candidate) (o : Option Score)
    → Beaten best o
    → Beaten (nearest id source d best panes) o
unfolding nearest
nearest_keeps id source d [] best o h = h
nearest_keeps id source d ((other, rect) ∷ panes) best o h =
    rw (nearest-cons id source d best other rect panes)
      (nearest_keeps id source d panes _ o (keep (scored id source d (other, rect))))
  where
    keep : (new : Option Score) → Beaten (candidate other new best) o
    keep none = h
    keep (some s) = Beaten-better best s other o h

-- No pane in the list has a smaller score than the result.
pub nearest-Beaten :
    (id : PaneId) (source : Rect) (d : Direction) (panes : List (PaneId × Rect))
    (best : Option Candidate)
    → All (λ p. Beaten (nearest id source d best panes) (scored id source d p)) panes
unfolding nearest
nearest-Beaten id source d [] best = tt
nearest-Beaten id source d ((other, rect) ∷ panes) best =
    rw (nearest-cons id source d best other rect panes) (
      nearest_keeps id source d panes _ _ (here (scored id source d (other, rect))),
      nearest-Beaten id source d panes _,
    )
  where
    here : (new : Option Score) → Beaten (candidate other new best) new
    here none = tt
    here (some s) = Beaten-new best s other

-- The result is a pane of the list with its own score.
abbrev pub Chosen : PaneId → Rect → Direction → Score → PaneId → List (PaneId × Rect) → Type 0
Chosen id source d s t [] = ⊥
Chosen id source d s t (p ∷ panes) =
    (p.0 ≡ t) × (scored id source d p ≡ some s) ⊎ Chosen id source d s t panes

pub nearest-Chosen :
    (id : PaneId) (source : Rect) (d : Direction) (panes : List (PaneId × Rect))
    (best : Option Candidate) (s : Score) (t : PaneId)
    → nearest id source d best panes ≡ some (s, t)
    → (best ≡ some (s, t)) ⊎ Chosen id source d s t panes
unfolding nearest
nearest-Chosen id source d [] best s t e = inl e
nearest-Chosen id source d ((other, rect) ∷ panes) best s t e =
    let later =
      nearest-Chosen id source d panes (candidate other (scored id source d (other, rect)) best) s t
        (sym (nearest-cons id source d best other rect panes) ∙ e) in
    elim later [
      | inr further ↦ inr (inr further)
      | inl now ↦ split_new (scored id source d (other, rect)) refl best now
    ]
  where
    split_new :
        (new : Option Score)
        → scored id source d (other, rect) ≡ new
        → (old : Option Candidate) → candidate other new old ≡ some (s, t)
        → (old ≡ some (s, t)) ⊎ Chosen id source d s t ((other, rect) ∷ panes)
    split_new none q old h = inl h
    split_new (some x) q none h = inr (inl (ground arith))
    split_new (some x) q (some (b, i)) h = elim (Bool-cases (score_lt x b)) [
      | inl less ↦ let now = rw less at h in inr (inl (ground arith))
      | inr kept ↦ inl (rw kept at h)
    ]

pub Chosen-member :
    (id : PaneId) (source : Rect) (d : Direction) (s : Score) (t : PaneId)
    (panes : List (PaneId × Rect))
    → Chosen id source d s t panes
    → (member t (ids panes) ≡ true) × (t ≢ id)
Chosen-member id source d s t [] h = absurd h
Chosen-member id source d s t ((other, rect) ∷ panes) (inl (e, q)) = ground arith
Chosen-member id source d s t ((other, rect) ∷ panes) (inr h) =
    let (m, ne) = Chosen-member id source d s t panes h in (ground arith, ne)
