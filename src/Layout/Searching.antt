-- ===== src/Layout/Searching.antt =====
-- `directional_neighbor` of src/layout.rs keeps the first of the best panes.
use rustmux.Base.{
  ==→≡, ==→≢, Bool-cases, [], refl, some-injective, sym, ◌==◌, ◌∙◌, ◌≢◌, All, ap, arith, false, inl,
  inr, none, some, true, ◌++◌, ◌∷◌, ◌≡◌, ◌⊎◌, List, Option,
}
use rustmux.Layout.Operations.{candidate_id, focus_score, nearest, score_lt, Candidate, Score}
use rustmux.Layout.Node.{PaneId}
use rustmux.Layout.Rect.{Direction, Rect}
use rustmux.Layout.Focus.{Aligned, nearest-cons, Beyond, candidate, Beaten, scored}
use rustmux.Layout.Closest.{
  score_lt-false-Ahead, score_lt-Ahead, IsClosest, Ahead, focus_score-measure, measure, Out,
}

-- A pane before the one chosen with score `s` lost against it.
abbrev LostBefore : Score → Option Score → Type 0
LostBefore s none = Unit
LostBefore s (some x) = score_lt s x ≡ true

-- The score beats the best one so far.
abbrev Improves : Option Candidate → Score → Type 0
Improves none s = Unit
Improves (some (b, i)) s = score_lt s b ≡ true

-- The search took over the pane `t` of the list.
record Took (id : PaneId) (source : Rect) (d : Direction) (best : Option Candidate)
    (panes : List (PaneId × Rect)) (found : Option Candidate) : Type 0 where
  before : List (PaneId × Rect)
  t : PaneId
  rect : Rect
  after : List (PaneId × Rect)
  s : Score
  parts : panes ≡ before ++ (t, rect) ∷ after
  own : scored id source d (t, rect) ≡ some s
  result : found ≡ some (s, t)
  better_one : Improves best s
  ahead : All (λ p. LostBefore s (scored id source d p)) before
  first : All (λ p. Beaten (some (s, t)) (scored id source d p)) after

abbrev Kept :
    PaneId → Rect → Direction → Option Candidate → List (PaneId × Rect) → Option Candidate → Type 0
Kept id source d best panes found =
    (found ≡ best) × All (λ p. Beaten best (scored id source d p)) panes

score_lt-mixed : (x y z : Score) → score_lt x z ≡ true → score_lt y z ≡ false → score_lt x y ≡ true
unfolding score_lt
score_lt-mixed x y z p q = ground arith

score_lt_trans : (x y z : Score) → score_lt x y ≡ true → score_lt y z ≡ true → score_lt x z ≡ true
unfolding score_lt
score_lt_trans x y z p q = ground arith

module _ (id : PaneId) (source : Rect) (d : Direction) where
  -- The pane in front loses to the one taken later.
  passed :
      (p : PaneId × Rect) (panes : List (PaneId × Rect)) (best other found : Option Candidate)
      (k : Took id source d other panes found)
      → Improves best k.s
      → LostBefore k.s (scored id source d p)
      → Took id source d best (p ∷ panes) found
  passed p panes best other found k improves lost = record {
    before = p ∷ k.before;
    t = k.t;
    rect = k.rect;
    after = k.after;
    s = k.s;
    parts = ap (λ ps. p ∷ ps) k.parts;
    own = k.own;
    result = k.result;
    better_one = improves;
    ahead = (lost, k.ahead);
    first = k.first;
  }

  -- The pane in front is taken.
  taken :
      (p : PaneId × Rect) (panes : List (PaneId × Rect)) (best found : Option Candidate) (x : Score)
      → scored id source d p ≡ some x
      → Improves best x
      → Kept id source d (some (x, p.0)) panes found
      → Took id source d best (p ∷ panes) found
  taken p panes best found x e improves k = record {
    before = [];
    t = p.0;
    rect = p.1;
    after = panes;
    s = x;
    parts = refl;
    own = e;
    result = k.0;
    better_one = improves;
    ahead = tt;
    first = k.1;
  }

  -- A pane in front of the search of the others.
  nearest-step :
      (p : PaneId × Rect) (panes : List (PaneId × Rect)) (best found : Option Candidate)
      (new : Option Score)
      → scored id source d p ≡ new
      → Kept id source d (candidate p.0 new best) panes found
        ⊎ Took id source d (candidate p.0 new best) panes found
      → Kept id source d best (p ∷ panes) found ⊎ Took id source d best (p ∷ panes) found
  nearest-step p panes none found none e (inl k) = inl (k.0, (rw e tt, k.1))
  nearest-step p panes (some c) found none e (inl k) = inl (k.0, (rw e tt, k.1))
  nearest-step p panes best found none e (inr k) =
      inr (passed p panes best best found k k.better_one (rw e tt))
  nearest-step p panes none found (some x) e (inl k) = inr (taken p panes none found x e tt k)
  nearest-step p panes none found (some x) e (inr k) =
      inr (passed p panes none (some (x, p.0)) found k tt (rw e k.better_one))
  nearest-step p panes (some (b, i)) found (some x) e h = elim (Bool-cases (score_lt x b)) [
    | inl less ↦ elim (rw less at h) [
      | inl k ↦ inr (taken p panes (some (b, i)) found x e less k)
      | inr k ↦ inr (
          passed p panes (some (b, i)) (some (x, p.0)) found k
            (score_lt_trans k.s x b k.better_one less) (rw e k.better_one))
    ]
    | inr more ↦ elim (rw more at h) [
      | inl k ↦ inl (k.0, (rw e more, k.1))
      | inr k ↦ inr (
          passed p panes (some (b, i)) (some (b, i)) found k k.better_one
            (rw e (score_lt-mixed k.s x b k.better_one more)))
    ]
  ]

  nearest-outcomes :
      (panes : List (PaneId × Rect)) (best : Option Candidate)
      → Kept id source d best panes (nearest id source d best panes)
        ⊎ Took id source d best panes (nearest id source d best panes)
  unfolding nearest
  nearest-outcomes [] best = inl (refl, tt)
  nearest-outcomes (p ∷ panes) best = rw (nearest-cons id source d best p.0 p.1 panes) (
      nearest-step p panes best
        (nearest id source d (candidate p.0 (scored id source d p) best) panes)
        (scored id source d p) refl
        (nearest-outcomes panes (candidate p.0 (scored id source d p) best)))

  -- What a score says of a pane.
  Out-unscored : (p : PaneId × Rect) → scored id source d p ≡ none → Out id source d p
  Out-unscored p e = elim (Bool-cases (p.0 == id)) [
    | inl same ↦ inl (==→≡ p.0 id same)
    | inr other ↦ elim (focus_score-measure d source p.1) [
      | inl (fits, m) ↦ absurd (ground (arith, other, m, e))
      | inr (unfit, m) ↦ inr unfit
    ]
  ]

  scored_values :
      (p : PaneId × Rect) (s : Score)
      → scored id source d p ≡ some s
      → (p.0 ≢ id) × Beyond d source p.1 × Aligned d source p.1 × (s ≡ measure d source p.1)
  scored_values p s e = elim (Bool-cases (p.0 == id)) [
    | inl same ↦ absurd (ground (arith, same, e))
    | inr other ↦ elim (focus_score-measure d source p.1) [
      | inl ((beyond, aligned), m) ↦
          (==→≢ p.0 id other, beyond, aligned, some-injective (sym e ∙ scored_other other ∙ m))
      | inr (unfit, m) ↦ absurd (cc (sym e ∙ scored_other other ∙ m))
    ]
  ]
    where
      scored_other : (p.0 == id) ≡ false → scored id source d p ≡ focus_score source p.1 d
      scored_other h = rw h refl

  All-map :
      (P Q : PaneId × Rect → Type 0) (panes : List (PaneId × Rect))
      → ((p : PaneId × Rect) → P p → Q p)
      → All P panes
      → All Q panes
  All-map P Q [] f h = tt
  All-map P Q (p ∷ panes) f h = (f p h.0, All-map P Q panes f h.1)

  beaten_before :
      (p : PaneId × Rect) (s : Score) (new : Option Score)
      → scored id source d p ≡ new
      → LostBefore s new
      → Out id source d p ⊎ Ahead s (measure d source p.1)
  beaten_before p s none e h = inl (Out-unscored p e)
  beaten_before p s (some x) e h =
      let same = (scored_values p x e).3 in inr (rw (← same) (score_lt-Ahead s x h))

  Beaten-after :
      (p : PaneId × Rect) (s : Score) (t : PaneId) (new : Option Score)
      → scored id source d p ≡ new
      → Beaten (some (s, t)) new
      → Out id source d p ⊎ ¬ Ahead (measure d source p.1) s
  Beaten-after p s t none e h = inl (Out-unscored p e)
  Beaten-after p s t (some x) e h =
      let same = (scored_values p x e).3 in inr (rw (← same) (score_lt-false-Ahead x s h))

  unbeaten :
      (p : PaneId × Rect) (new : Option Score)
      → scored id source d p ≡ new
      → Beaten none new
      → Out id source d p
  unbeaten p none e h = Out-unscored p e
  unbeaten p (some x) e h = absurd h

  -- The search from no candidate finds the closest pane.
  pub nearest-IsClosest :
      (panes : List (PaneId × Rect))
      → IsClosest id source d panes (candidate_id (nearest id source d none panes))
  nearest-IsClosest panes = elim (nearest-outcomes panes none) [
    | inl (nothing, worse) ↦ rw nothing (
        All-map (λ p. Beaten none (scored id source d p)) (Out id source d) panes
          (λ p. unbeaten p (scored id source d p) refl) worse)
    | inr k ↦
        let (other, beyond, aligned, same) = scored_values (k.t, k.rect) k.s k.own in
        rw k.result (
          k.before,
          k.rect,
          k.after,
          k.parts,
          other,
          beyond,
          aligned,
          All-map (λ p. LostBefore k.s (scored id source d p))
              (λ p. Out id source d p ⊎ Ahead (measure d source k.rect) (measure d source p.1))
              k.before (λ p h. rw (← same) (beaten_before p k.s (scored id source d p) refl h))
              k.ahead,
          All-map (λ p. Beaten (some (k.s, k.t)) (scored id source d p))
              (λ p. Out id source d p ⊎ ¬ Ahead (measure d source p.1) (measure d source k.rect))
              k.after (λ p h. rw (← same) (Beaten-after p k.s k.t (scored id source d p) refl h))
              k.first,
        )
  ]
