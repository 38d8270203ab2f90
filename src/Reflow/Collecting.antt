-- ===== src/Reflow/Collecting.antt =====
-- The part of `reflow_primary_into` in src/screen/reflow.rs that joins rows into logical lines and packs
-- them, and the window of the packed rows that it shows.
use rustmux.Base.{
  [], if◌then◌else◌, leb, length, ltb, max, min, none, not, some, take, ◌&&◌, ◌++◌, ◌+◌, ◌-◌, ◌==◌,
  ◌∷◌, List, Option, Bool, ℕ,
}
use rustmux.Reflow.Packing.{
  origin, current_cursor, Point, Position, Mapped, saved_cursor, pack, CursorId, bit, Row, Cell,
}

-- A row of the history or of the screen, with the cells in use and whether it continues a line.
pub record Source (A : Type 0) : Type 0 where
  pub cells : List (Cell A)
  pub extent : ℕ
  pub continued : Bool

-- What `SavedCursor` has that matters here.
pub record Cursor : Type 0 where
  pub row : ℕ
  pub column : ℕ
  pub wrap_pending : Bool
  pub auto_wrap : Bool

-- The locals of the loop.
pub record Flow (A : Type 0) : Type 0 where
  pub output : List (Row A)
  pub mapped : Mapped
  pub logical : List (Cell A)
  pub points : List Point

abbrev pub pends : Cursor → Bool
pends cursor = cursor.wrap_pending && cursor.auto_wrap

abbrev pub offset_of : Cursor → ℕ
offset_of cursor = cursor.column + bit (pends cursor)

-- The extent of a row and the points of the line, with a cursor that stands in the row.
unfoldable pub note_cursor : CursorId → Option Cursor → ℕ → ℕ → ℕ → ℕ × List Point → ℕ × List Point
note_cursor id none history index before (extent, points) = (extent, points)
note_cursor id (some cursor) history index before (extent, points) =
    if index == history + cursor.row
    then (
      max extent (offset_of cursor),
      points ++ (id, before + offset_of cursor, pends cursor) ∷ [],
    )
    else (extent, points)

-- The loop over both cursors, at a row of that extent.
unfoldable pub noted : ℕ → Cursor → Option Cursor → ℕ → ℕ → ℕ → List Point → ℕ × List Point
unfolding note_cursor
noted history current saved index before extent points =
    note_cursor saved_cursor saved history index before
      (note_cursor current_cursor (some current) history index before (extent, points))

abbrev pub and_then : {A B : Type 0} → Option A → (A → Option B) → Option B
and_then none f = none
and_then (some a) f = f a

module _ {A : Type 0} where
  -- A row that starts a line ends the one before it. `none` is a panic.
  unfoldable pub end_line : ℕ → ℕ → Source A → Flow A → Option (Flow A)
  end_line width index source f =
      if not (index == 0) && not source.continued
      then elim (pack f.logical f.points width f.output f.mapped) [
        | none ↦ none
        | some (output, mapped) ↦
            some (record { output = output; mapped = mapped; logical = []; points = [] })
      ]
      else some f

  unfoldable pub add_row : ℕ → Cursor → Option Cursor → ℕ → Source A → Flow A → Option (Flow A)
  unfolding noted
  add_row history current saved index source f =
      let with_cursors =
        noted history current saved index (length f.logical) source.extent f.points in
      if leb with_cursors.0 (length source.cells)
      then some (record f {
        logical = f.logical ++ take with_cursors.0 source.cells;
        points = with_cursors.1;
      })
      else none

  unfoldable pub collect_rows :
      ℕ → ℕ → Cursor → Option Cursor → ℕ → List (Source A) → Flow A → Option (Flow A)
  unfolding end_line add_row
  collect_rows width history current saved index [] f = some f
  collect_rows width history current saved index (source ∷ sources) f =
      and_then (end_line width index source f) (λ ended.
        and_then (add_row history current saved index source ended)
          (collect_rows width history current saved (index + 1) sources))

  -- The packed rows of the whole history and screen. The first `history` sources are the history's rows.
  unfoldable pub reflow_rows :
      ℕ → ℕ → Cursor → Option Cursor → List (Source A) → Option (List (Row A) × Mapped)
  unfolding collect_rows
  reflow_rows width history current saved sources =
      and_then
        (collect_rows width history current saved 0 sources (record {
          output = [];
          mapped = record { current_at = origin; saved_at = origin };
          logical = [];
          points = [];
        }))
        (λ f. pack f.logical f.points width f.output f.mapped)

-- The first row that the screen of `rows` rows shows of `packed` ones.
abbrev pub start_row : ℕ → ℕ → Mapped → ℕ
start_row packed rows mapped = min (packed - rows) mapped.current_at.row

-- `translate`: where a cursor is on the screen.
unfoldable pub translate : ℕ → ℕ → Cursor → Position → Cursor
translate start rows cursor position = record cursor {
  row = min (position.row - start) (rows - 1);
  column = position.column;
  wrap_pending = position.pending && leb start position.row && ltb position.row (start + rows);
}
