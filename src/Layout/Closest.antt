-- ===== src/Layout/Closest.antt =====
-- The nearest pane in a direction, described by the rectangles alone, and that the search of
-- src/layout.rs finds it.
use rustmux.Base.{
  Bool-cases, ap₂, inl, inr, ltb, refl, ◌==◌, ◌≤◌, All, arith, false, max, min, none, some, true,
  ◌*◌, ◌++◌, ◌+◌, ◌-◌, ◌<◌, ◌∷◌, ◌≡◌, ◌≢◌, ◌⊎◌, ℕ, List, Option,
}
use rustmux.Layout.Rect.{Rect, Direction, left, right, up, down}
use rustmux.Layout.Operations.{
  checked_sub, span_of, Span, score_across, abs_diff, focus_score, score_lt, Score,
}
use rustmux.Layout.Node.{PaneId}
use rustmux.Layout.Focus.{Overlap, Aligned, Beyond}

-- The cells between the facing edges.
abbrev pub gap_between : Direction → Rect → Rect → ℕ
gap_between left s t = s.column - (t.column + t.columns)
gap_between right s t = t.column - (s.column + s.columns)
gap_between up s t = s.row - (t.row + t.rows)
gap_between down s t = t.row - (s.row + s.rows)

abbrev pub apart : ℕ → ℕ → ℕ
apart a b = (a - b) + (b - a)

-- Across the direction: the distance of the first edges, the cells in common and twice the distance
-- of the centres, for stretches of `m` cells from `a` and of `n` from `b`.
abbrev across : ℕ → ℕ → ℕ → ℕ → ℕ → Score
across gap a m b n = record {
  gap = gap;
  edge_distance = apart a b;
  overlap = min (a + m) (b + n) - max a b;
  center_distance = apart (2 * a + m) (2 * b + n);
}

abbrev pub measure : Direction → Rect → Rect → Score
measure left s t = across (gap_between left s t) s.row s.rows t.row t.rows
measure right s t = across (gap_between right s t) s.row s.rows t.row t.rows
measure up s t = across (gap_between up s t) s.column s.columns t.column t.columns
measure down s t = across (gap_between down s t) s.column s.columns t.column t.columns

-- The smaller gap comes first; then the smaller distance of the edges, the larger overlap and the
-- smaller distance of the centres decide.
abbrev pub Ahead : Score → Score → Type 0
Ahead x y =
    (x.gap < y.gap)
    ⊎ (x.gap ≡ y.gap)
      × ((x.edge_distance < y.edge_distance)
          ⊎ (x.edge_distance ≡ y.edge_distance)
            × ((y.overlap < x.overlap)
                ⊎ (x.overlap ≡ y.overlap) × (x.center_distance < y.center_distance)))

-- A pane takes part if it is another one, beyond the edge and with a cell's worth of edge in common.
abbrev pub Out : PaneId → Rect → Direction → PaneId × Rect → Type 0
Out origin source d p = (p.0 ≡ origin) ⊎ ¬ (Beyond d source p.1 × Aligned d source p.1)

-- The panes that take part and stand before the chosen one are behind it in the order, those after it
-- are not ahead of it.
abbrev pub IsClosest : PaneId → Rect → Direction → List (PaneId × Rect) → Option PaneId → Type 0
IsClosest origin source d panes none = All (Out origin source d) panes
IsClosest origin source d panes (some t) =
    (before : List (PaneId × Rect)) × (rect : Rect) × (after : List (PaneId × Rect)) × (panes
      ≡ before ++ (t, rect) ∷ after)
    × (t ≢ origin)
    × Beyond d source rect
    × Aligned d source rect
    × All (λ p. Out origin source d p ⊎ Ahead (measure d source rect) (measure d source p.1)) before
    × All (λ p. Out origin source d p ⊎ ¬ Ahead (measure d source p.1) (measure d source rect))
        after

pub score_lt-Ahead : (x y : Score) → score_lt x y ≡ true → Ahead x y
unfolding score_lt
score_lt-Ahead x y h = ground arith

pub score_lt-false-Ahead : (x y : Score) → score_lt x y ≡ false → ¬ Ahead x y
unfolding score_lt
score_lt-false-Ahead x y h k = ground arith

abs_diff-apart : (a b : ℕ) → abs_diff a b ≡ apart a b
abs_diff-apart a b = ground arith

centers-apart : (a m b n : ℕ) → abs_diff (a + (a + m)) (b + (b + n)) ≡ apart (2 * a + m) (2 * b + n)
centers-apart a m b n = ground arith

-- Across the direction a score exists exactly with a cell in common, and is the measure.
score_across-measure :
    (s t : Span) (gap : ℕ)
    → (Overlap s.cross s.span t.cross t.span
        × (score_across s t gap ≡ some (across gap s.cross s.span t.cross t.span)))
      ⊎ ((¬ Overlap s.cross s.span t.cross t.span) × (score_across s t gap ≡ none))
unfolding score_across
score_across-measure s t gap = elim (Bool-cases (ltb high_start low_end)) [
  | inl common ↦
      let fits : ltb low_end high_start ≡ false = ground (arith, common) in
      let some_cell : (low_end - high_start == 0) ≡ false = ground (arith, common) in
      inl (
        ground (arith, common),
        rw (score_across, fits, some_cell)
            (ap₂
              (λ e c. some (record {
                gap = gap;
                edge_distance = e;
                overlap = low_end - high_start;
                center_distance = c;
              }))
              (abs_diff-apart s.cross t.cross) (centers-apart s.cross s.span t.cross t.span)),
      )
  | inr apart_from ↦ inr (
    λ h. ground (arith, apart_from),
    elim (Bool-cases (ltb low_end high_start)) [
      | inl crossed ↦ rw (score_across, crossed) refl
      | inr touching ↦
          let nothing : (low_end - high_start == 0) ≡ true = ground (arith, apart_from) in
          rw (score_across, touching, nothing) refl
    ],
  )
]
  where
    low_end : ℕ
    low_end = min (s.cross + s.span) (t.cross + t.span)

    high_start : ℕ
    high_start = max s.cross t.cross

-- The gap is taken first.
gap-measure :
    (a b : ℕ) (s t : Span)
    → (((b ≤ a) × Overlap s.cross s.span t.cross t.span)
        × ((elim (checked_sub a b) as (λ x. Option Score) [
          | none ↦ none
          | some gap ↦ score_across s t gap
        ])
            ≡ some (across (a - b) s.cross s.span t.cross t.span)))
      ⊎ ((¬ ((b ≤ a) × Overlap s.cross s.span t.cross t.span))
          × ((elim (checked_sub a b) as (λ x. Option Score) [
            | none ↦ none
            | some gap ↦ score_across s t gap
          ])
              ≡ none))
gap-measure a b s t = elim (Bool-cases (ltb a b)) [
  | inl behind ↦ inr (λ h. ground (arith, behind, h.0), rw behind refl)
  | inr beyond ↦ elim (score_across-measure s t (a - b)) [
    | inl (common, e) ↦ inl ((ground (arith, beyond), common), rw beyond e)
    | inr (lacking, e) ↦ inr (λ h. lacking h.1, rw beyond e)
  ]
]

pub focus_score-measure :
    (d : Direction) (s t : Rect)
    → ((Beyond d s t × Aligned d s t) × (focus_score s t d ≡ some (measure d s t)))
      ⊎ ((¬ (Beyond d s t × Aligned d s t)) × (focus_score s t d ≡ none))
unfolding focus_score
focus_score-measure left s t =
    gap-measure s.column (t.column + t.columns) (span_of left s) (span_of left t)
focus_score-measure right s t =
    gap-measure t.column (s.column + s.columns) (span_of right s) (span_of right t)
focus_score-measure up s t = gap-measure s.row (t.row + t.rows) (span_of up s) (span_of up t)
focus_score-measure down s t = gap-measure t.row (s.row + s.rows) (span_of down s) (span_of down t)
