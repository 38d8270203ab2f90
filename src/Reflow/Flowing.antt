-- ===== src/Reflow/Flowing.antt =====
-- Reflow keeps the text of history and screen: src/screen/reflow.rs.
use rustmux.Base.{
  leb, ap, ap₂, if_true, length-append, sym, Bool-cases, arith, inl, inr, refl, suc, zero, ◌∙◌, All,
  [], length, max, none, not, some, take, ◌&&◌, ◌++◌, ◌+◌, ◌==◌, ◌∷◌, ◌≡◌, ◌≤◌, List, Option, ℕ,
}
use rustmux.Reflow.Collecting.{
  and_then, reflow_rows, collect_rows, noted, add_row, end_line, Flow, Source, Cursor,
}
use rustmux.Reflow.Packing.{pack, origin, Mapped, Row, bit, Cell}
use rustmux.Reflow.Rounds.{Drawn}
use rustmux.Reflow.Kept.{All-append, starts, Within, flat}
use rustmux.Reflow.Points.{Inside}
use rustmux.Reflow.Packed.{pack-cells}
use rustmux.Protocol.Pushing.{append-nil}
use rustmux.Protocol.Chunks.{append_assoc}
use rustmux.Reflow.Noting.{Inside-more, noted-Inside, noted-extent, cursor_extent}

length-take : {A : Type 0} (n : ℕ) (xs : List A) → n ≤ length xs → length (take n xs) ≡ n
length-take zero xs h = refl
length-take (suc n) [] h = absurd (omega arith)
length-take (suc n) (x ∷ xs) h = omega (arith, length-take n xs)

All-take : {A : Type 0} (P : A → Type 0) (n : ℕ) (xs : List A) → All P xs → All P (take n xs)
All-take P zero xs h = tt
All-take P (suc n) [] h = tt
All-take P (suc n) (x ∷ xs) h = (h.0, All-take P n xs h.1)

and_then-some :
    {A B : Type 0} (m : Option A) (f : A → Option B) {a : A} → m ≡ some a → and_then m f ≡ f a
and_then-some m f e = ap (λ o. and_then o f) e

module _ {A : Type 0} (width history : ℕ) (current : Cursor) (saved : Option Cursor) where
  abbrev pub extent_at : ℕ → Source A → ℕ
  extent_at index source =
      max (max source.extent (cursor_extent (some current) history index))
        (cursor_extent saved history index)

  -- The cells in use of all rows from the row `index` on, up to the cursors.
  abbrev pub text : ℕ → List (Source A) → List (Cell A)
  text index [] = []
  text index (source ∷ sources) =
      take (extent_at index source) source.cells ++ text (index + 1) sources

  -- The rows from the row `index` on that start a line behind an earlier one.
  abbrev pub line_starts : ℕ → List (Source A) → ℕ
  line_starts index [] = 0
  line_starts index (source ∷ sources) =
      bit (not (index == 0) && not source.continued) + line_starts (index + 1) sources

  -- Cells are drawn ones, and neither the extent nor a cursor is beyond its row.
  abbrev pub Sources : ℕ → List (Source A) → Type 0
  Sources index [] = Unit
  Sources index (source ∷ sources) =
      All Drawn source.cells
      × (extent_at index source ≤ length source.cells)
      × Sources (index + 1) sources

  record Flowing (seen : List (Cell A)) (lines : ℕ) (f : Flow A) : Type 0 where
    held : flat f.output ++ f.logical ≡ seen
    bounded : All (Within width) f.output
    drawn : All Drawn f.logical
    inside : All (Inside (length f.logical)) f.points
    counted : starts f.output ≡ lines

  end_line-Flowing :
      (index : ℕ) (source : Source A) (f : Flow A) (seen : List (Cell A)) (lines : ℕ)
      → 2 ≤ width
      → Flowing seen lines f
      → (f' : Flow A) × (end_line width index source f ≡ some f')
        × Flowing seen (lines + bit (not (index == 0) && not source.continued)) f'
  unfolding end_line
  end_line-Flowing index source f seen lines wide k =
      elim (Bool-cases (not (index == 0) && not source.continued)) [
        | inl ends ↦
            let (out, e, flat_out, bounded, counted) =
              pack-cells f.logical f.points width f.output f.mapped wide k.drawn k.bounded
                k.inside in
            (
              record { output = out.0; mapped = out.1; logical = []; points = [] },
              rw (ends, e) refl,
              record {
                held = append-nil (flat out.0) ∙ flat_out ∙ k.held;
                bounded = bounded;
                drawn = tt;
                inside = tt;
                counted = rw ends (omega (arith, counted, k.counted));
              },
            )
        | inr goes_on ↦ (
          f,
          rw goes_on refl,
          rw goes_on (record {
            held = k.held;
            bounded = k.bounded;
            drawn = k.drawn;
            inside = k.inside;
            counted = omega (arith, k.counted);
          }),
        )
      ]

  add_row-Flowing :
      (index : ℕ) (source : Source A) (f : Flow A) (seen : List (Cell A)) (lines : ℕ)
      → All Drawn source.cells
      → extent_at index source ≤ length source.cells
      → Flowing seen lines f
      → (f' : Flow A) × (add_row history current saved index source f ≡ some f')
        × Flowing (seen ++ take (extent_at index source) source.cells) lines f'
  unfolding add_row
  add_row-Flowing index source f seen lines drawn fits k =
      let both = noted history current saved index (length f.logical) source.extent f.points in
      let reach =
        noted-extent history current saved index (length f.logical) source.extent f.points in
      let added = take both.0 source.cells in
      let longer : length (f.logical ++ added) ≡ length f.logical + extent_at index source = omega (
        arith,
        length-append f.logical added,
        length-take both.0 source.cells (omega (arith, reach)),
        reach,
      ) in
      (
        record f { logical = f.logical ++ added; points = both.1 },
        if_true (some (record f { logical = f.logical ++ added; points = both.1 })) none
            {b = leb both.0 (length source.cells)} (ground (arith, reach)),
        record {
          held =
              sym (append_assoc (flat f.output) f.logical added)
              ∙ ap₂ (λ before n. before ++ take n source.cells) k.held reach;
          bounded = k.bounded;
          drawn =
              All-append Drawn f.logical added k.drawn (All-take Drawn both.0 source.cells drawn);
          inside =
              noted-Inside history current saved index (length f.logical) source.extent f.points
                (length (f.logical ++ added))
                (Inside-more (length f.logical) (length (f.logical ++ added)) f.points
                  (omega (arith, longer)) k.inside)
                (omega (arith, longer));
          counted = k.counted;
        },
      )

  collect_rows-Flowing :
      (index : ℕ) (sources : List (Source A)) (f : Flow A) (seen : List (Cell A)) (lines : ℕ)
      → 2 ≤ width
      → Sources index sources
      → Flowing seen lines f
      → (f' : Flow A) × (collect_rows width history current saved index sources f ≡ some f')
        × Flowing (seen ++ text index sources) (lines + line_starts index sources) f'
  unfolding collect_rows
  collect_rows-Flowing index [] f seen lines wide h k = (
    f,
    refl,
    record {
      held = k.held ∙ sym (append-nil seen);
      bounded = k.bounded;
      drawn = k.drawn;
      inside = k.inside;
      counted = omega (arith, k.counted);
    },
  )
  collect_rows-Flowing index (source ∷ sources) f seen lines wide h k =
      let (ended, e, at_line) = end_line-Flowing index source f seen lines wide k in
      let (added, e', in_line) = add_row-Flowing index source ended seen _ h.0 h.1 at_line in
      let (f', e'', done) = collect_rows-Flowing (index + 1) sources added _ _ wide h.2 in_line in
      (
        f',
        and_then-some (end_line width index source f)
              (λ ended.
                and_then (add_row history current saved index source ended)
                  (collect_rows width history current saved (index + 1) sources))
              e
            ∙ and_then-some (add_row history current saved index source ended)
                (collect_rows width history current saved (index + 1) sources) e'
            ∙ e'',
        record {
          held =
              done.held
              ∙ append_assoc seen (take (extent_at index source) source.cells)
                  (text (index + 1) sources);
          bounded = done.bounded;
          drawn = done.drawn;
          inside = done.inside;
          counted = omega (arith, done.counted);
        },
      )

  -- Reflow to rows of two columns or more keeps the cells in use of all rows, in order, in rows within the width, and
  -- as many logical lines; it does not panic. The cells are drawn ones, and no extent or cursor is beyond its row.
  pub reflow_rows-text :
      (sources : List (Source A))
      → 2 ≤ width
      → Sources 0 sources
      → (out : List (Row A) × Mapped) × (reflow_rows width history current saved sources ≡ some out)
        × (flat out.0 ≡ text 0 sources)
        × All (Within width) out.0
        × (starts out.0 ≡ line_starts 0 sources + 1)
  unfolding reflow_rows
  reflow_rows-text sources wide h =
      let (f, e, k) =
        collect_rows-Flowing 0 sources
          (record {
            output = [];
            mapped = record { current_at = origin; saved_at = origin };
            logical = [];
            points = [];
          })
          [] 0 wide h
          (record { held = refl; bounded = tt; drawn = tt; inside = tt; counted = refl }) in
      let (out, e', flat_out, bounded, counted) =
        pack-cells f.logical f.points width f.output f.mapped wide k.drawn k.bounded k.inside in
      (
        out,
        and_then-some _ (λ f. pack f.logical f.points width f.output f.mapped) e ∙ e',
        flat_out ∙ k.held,
        bounded,
        omega (arith, counted, k.counted),
      )
