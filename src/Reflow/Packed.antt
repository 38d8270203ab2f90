-- ===== src/Reflow/Packed.antt =====
-- What `pack` of src/screen/reflow.rs makes of a logical line.
use rustmux.Base.{
  ap, none, All, Bool-cases, [], arith, false, get_elem?, if◌then◌else◌, inl, inr, length,
  length-append, refl, some, some-injective, suc, sym, true, zero, ◌&&◌, ◌++◌, ◌+◌, ◌<◌, ◌∙◌, ◌∷◌,
  ◌≡◌, ◌≤◌, List, Option, Bool, ℕ,
}
use rustmux.Reflow.Packing.{
  map_points, any_behind, Mapped, end_position, walk, Point, Packing, Position, pack, Cell, Row,
}
use rustmux.Reflow.Kept.{
  Within, Shows-append, Lands-Shows, starts-append, All-append, starts, flat-append, look, rows_of,
  flat, Kept, Lands,
}
use rustmux.Reflow.Rounds.{walk-Kept, Drawn}
use rustmux.Reflow.Points.{map_points-at, at, Other, map_points_total, Inside}
use rustmux.Protocol.Pushing.{append-nil}

module _ {A : Type 0} where
  length-Lands :
      (rows : List (Row A)) (positions : List Position) (cells : List (Cell A))
      → Lands rows positions cells
      → length positions ≡ length cells
  length-Lands rows [] [] h = refl
  length-Lands rows [] (c ∷ cells) h = absurd h
  length-Lands rows (p ∷ positions) [] h = absurd h
  length-Lands rows (p ∷ positions) (c ∷ cells) h =
      omega (arith, length-Lands rows positions cells h.2)

  get_elem?-Lands :
      (rows : List (Row A)) (positions more : List Position) (cells : List (Cell A)) (i : ℕ)
      {p : Position}
      → Lands rows positions cells
      → i < length cells
      → get_elem? (positions ++ more) i ≡ some p
      → look rows p.row p.column ≡ get_elem? cells i
  get_elem?-Lands rows positions more [] i h small e = absurd (omega arith)
  get_elem?-Lands rows [] more (c ∷ cells) i h small e = absurd h
  get_elem?-Lands rows (q ∷ positions) more (c ∷ cells) zero h small e =
      let same = some-injective (sym e) in rw same h.0
  get_elem?-Lands rows (q ∷ positions) more (c ∷ cells) (suc i) h small e =
      get_elem?-Lands rows positions more cells i h.2 (omega arith) e

  abbrev empty_packing : List (Row A) → Packing A
  empty_packing output = record {
    output = output;
    row = record { cells = []; continued = false };
    positions = [];
  }

  empty_packing-Kept :
      (width : ℕ) (output : List (Row A))
      → All (Within width) output
      → Kept output width [] (empty_packing output)
  empty_packing-Kept width output bounded = record {
    held = flat-append output (empty_row ∷ []);
    narrow = All-append (Within width) output (empty_row ∷ []) bounded (omega arith, tt);
    lines = starts-append output (empty_row ∷ []);
    placed = tt;
  }
    where
      empty_row : Row A
      empty_row = record { cells = []; continued = false }

  -- The rows with the empty one that a cursor may need, and the cells, widths, lines and places in them.
  record Laid (output : List (Row A)) (width : ℕ) (cells : List (Cell A)) (rows : List (Row A))
      (positions : List Position) : Type 0 where
    laid : flat rows ≡ flat output ++ cells
    bounded : All (Within width) rows
    counted : starts rows ≡ starts output + 1
    lands : Lands rows positions cells

  -- The packing of `pack` behind its loop.
  abbrev packed : ℕ → List (Cell A) → List (Row A) → Packing A
  packed width cells output = walk width 0 cells (empty_packing output)

  abbrev needs_empty : ℕ → List (Cell A) → List Point → List (Row A) → Bool
  needs_empty width cells points output =
      (end_position width (packed width cells output)).pending && any_behind (length cells) points

  abbrev final_rows : ℕ → List (Cell A) → List Point → List (Row A) → List (Row A)
  final_rows width cells points output =
      if needs_empty width cells points output
      then rows_of (packed width cells output) ++ record { cells = []; continued = true } ∷ []
      else rows_of (packed width cells output)

  final_rows-Laid :
      (width : ℕ) (cells : List (Cell A)) (points : List Point) (output : List (Row A))
      → 2 ≤ width
      → All Drawn cells
      → All (Within width) output
      → Laid output width cells
          (final_rows width cells points output)
          (packed width cells output).positions
  final_rows-Laid width cells points output wide drawn bounded =
      let p = packed width cells output in
      let k =
        walk-Kept output width cells [] (empty_packing output) wide drawn
          (empty_packing-Kept width output bounded) in
      elim (Bool-cases (needs_empty width cells points output)) [
        | inl needed ↦ rw needed (record {
          laid = flat-append (rows_of p) (spare ∷ []) ∙ append-nil (flat (rows_of p)) ∙ k.held;
          bounded = All-append (Within width) (rows_of p) (spare ∷ []) k.narrow (omega arith, tt);
          counted = omega (arith, starts-append (rows_of p) (spare ∷ []), k.lines);
          lands =
              Lands-Shows (rows_of p) (rows_of p ++ spare ∷ []) p.positions cells
                (Shows-append (rows_of p) (spare ∷ [])) k.placed;
        })
        | inr enough ↦
            rw enough
              (record { laid = k.held; bounded = k.narrow; counted = k.lines; lands = k.placed })
      ]
    where
      spare : Row A
      spare = record { cells = []; continued = true }

  pack-final_rows :
      (cells : List (Cell A)) (points : List Point) (width : ℕ) (output : List (Row A))
      (mapped m : Mapped)
      → map_points
          (length cells)
          (end_position width (packed width cells output))
          ((packed width cells output).positions
            ++ end_position width (packed width cells output) ∷ [])
          points
          mapped
        ≡ some m
      → pack cells points width output mapped ≡ some (final_rows width cells points output, m)
  unfolding pack
  pack-final_rows cells points width output mapped m e =
      ap
        (λ (found : Option Mapped). elim found as (λ x. Option (List (Row A) × Mapped)) [
          | none ↦ none
          | some m ↦ some (final_rows width cells points output, m)
        ])
        e

  -- On rows of two columns or more, `pack` keeps the cells of a logical line, all and in order, behind the
  -- rows before it; each row stays within the width, and the rows it adds are one logical line. It does not panic
  -- if no cursor is behind the end of the line.
  pub pack-cells :
      (cells : List (Cell A)) (points : List Point) (width : ℕ) (output : List (Row A))
      (mapped : Mapped)
      → 2 ≤ width
      → All Drawn cells
      → All (Within width) output
      → All (Inside (length cells)) points
      → (out : List (Row A) × Mapped) × (pack cells points width output mapped ≡ some out)
        × (flat out.0 ≡ flat output ++ cells)
        × All (Within width) out.0
        × (starts out.0 ≡ starts output + 1)
  pack-cells cells points width output mapped wide drawn bounded inside =
      let l = final_rows-Laid width cells points output wide drawn bounded in
      let p = packed width cells output in
      let end = end_position width p in
      let (mapped', e) =
        map_points_total (length cells) end (p.positions ++ end ∷ []) points mapped
          (omega
            (arith, length-append p.positions (end ∷ []), length-Lands _ p.positions cells l.lands))
          inside in
      (
        (final_rows width cells points output, mapped'),
        pack-final_rows cells points width output mapped mapped' e,
        l.laid,
        l.bounded,
        l.counted,
      )

  -- A cursor on a cell of the line is on the same cell afterwards, if no later point is that cursor's.
  pub pack-at :
      (cells : List (Cell A)) (before after : List Point) (point : Point) (width : ℕ)
      (output : List (Row A)) (mapped : Mapped)
      → 2 ≤ width
      → All Drawn cells
      → All (Within width) output
      → All (Inside (length cells)) (before ++ point ∷ after)
      → All (Other point.0) after
      → point.1 < length cells
      → (out : List (Row A) × Mapped) × (pack cells (before ++ point ∷ after) width output mapped
          ≡ some out)
        × (look out.0 (at point.0 out.1).row (at point.0 out.1).column ≡ get_elem? cells point.1)
  pack-at cells before after point width output mapped wide drawn bounded inside other small =
      let points = before ++ point ∷ after in
      let l = final_rows-Laid width cells points output wide drawn bounded in
      let p = packed width cells output in
      let end = end_position width p in
      let measured : length (p.positions ++ end ∷ []) ≡ length cells + 1 =
        omega
          (arith, length-append p.positions (end ∷ []), length-Lands _ p.positions cells l.lands) in
      let (mapped', e) =
        map_points_total (length cells) end (p.positions ++ end ∷ []) points mapped measured
          inside in
      (
        (final_rows width cells points output, mapped'),
        pack-final_rows cells points width output mapped mapped' e,
        get_elem?-Lands (final_rows width cells points output) p.positions (end ∷ []) cells point.1
            l.lands small
            (map_points-at (length cells) end (p.positions ++ end ∷ []) before after point mapped
              measured inside other small e),
      )
