-- ===== src/Reflow/Packing.antt =====
-- `pack` of src/screen/reflow.rs and the loop of `reflow_primary_into` that collects logical lines.
use rustmux.Base.{
  [], false, get_elem?, if◌then◌else◌, length, ltb, max, min, none, not, some, suc, true, zero,
  ◌&&◌, ◌++◌, ◌+◌, ◌-◌, ◌==◌, ◌||◌, ◌∷◌, List, Option, Bool, ℕ,
}

-- `Cell` of src/style.rs; `details` stands for the combining scalars, the style and the hyperlink.
pub record Cell (A : Type 0) : Type 0 where
  pub character : ℕ
  pub width : ℕ
  pub details : A

pub record Position : Type 0 where
  pub row : ℕ
  pub column : ℕ
  pub pending : Bool

-- `Position::default()`
abbrev pub origin : Position
origin = record { row = 0; column = 0; pending = false }

pub record Row (A : Type 0) : Type 0 where
  pub cells : List (Cell A)
  pub continued : Bool

-- The two cursors, by their index into `mapped`.
pub data CursorId : Type 0 where
  current_cursor saved_cursor : CursorId

pub record Mapped : Type 0 where
  pub current_at : Position
  pub saved_at : Position

-- A cursor of a logical line: which one, its offset, and whether a wrap is pending.
abbrev pub Point : Type 0
Point = CursorId × ℕ × Bool

-- The locals of the loop of `pack`. `positions` holds the entries below `index`.
pub record Packing (A : Type 0) : Type 0 where
  pub output : List (Row A)
  pub row : Row A
  pub positions : List Position

abbrev pub bit : Bool → ℕ
bit true = 1
bit false = 0

abbrev pub set_mapped : CursorId → Position → Mapped → Mapped
set_mapped current_cursor at m = record m { current_at = at }
set_mapped saved_cursor at m = record m { saved_at = at }

-- `points.iter().any(|(_, offset, pending)| *offset == cells.len() && !pending)`
abbrev pub any_behind : ℕ → List Point → Bool
any_behind n [] = false
any_behind n ((id, offset, pending) ∷ points) = offset == n && not pending || any_behind n points

-- `none` is an index out of range.
abbrev pub map_points : ℕ → Position → List Position → List Point → Mapped → Option Mapped
map_points n end positions [] mapped = some mapped
map_points n end positions ((id, offset, pending) ∷ points) mapped =
    if offset == n && end.pending && not pending
    then map_points n end positions points
        (set_mapped id (record { row = end.row + 1; column = 0; pending = false }) mapped)
    else elim (get_elem? positions offset) [
      | none ↦ none
      | some at ↦ map_points n end positions points (set_mapped id at mapped)
    ]

module _ {A : Type 0} where
  -- A glyph that does not fit starts a continued row.
  unfoldable pub wrap : ℕ → ℕ → Packing A → Packing A
  wrap width glyph_width p =
      if ltb width (length p.row.cells + glyph_width)
      then record p {
        output = p.output ++ p.row ∷ [];
        row = record { cells = []; continued = true };
      }
      else p

  unfoldable pub put_cell : Cell A → Packing A → Packing A
  put_cell cell p = record p { row = record p.row { cells = p.row.cells ++ cell ∷ [] } }

  unfoldable pub put_position : Position → Packing A → Packing A
  put_position at p = record p { positions = p.positions ++ at ∷ [] }

  -- `Position { row: output.len(), column: row.cells.len(), pending: false }`
  abbrev pub here : Packing A → Position
  here p = record { row = length p.output; column = length p.row.cells; pending = false }

  -- The positions of cells that the loop steps over keep their default.
  abbrev pub defaults : ℕ → List (Cell A) → List Position
  defaults zero cells = []
  defaults (suc n) [] = []
  defaults (suc n) (cell ∷ cells) = origin ∷ defaults n cells

  -- The cells behind a glyph that the loop steps over.
  unfoldable pub put_trail : ℕ → ℕ → Position → List (Cell A) → Packing A → Packing A
  unfolding put_cell put_position
  put_trail original_width glyph_width at [] p = p
  put_trail original_width glyph_width at (next ∷ cells) p =
      if original_width == 2
      then (let placed =
            put_position (record at { column = at.column + bit (glyph_width == 2) }) p in
          if glyph_width == 2 then put_cell next placed else placed)
      else record p { positions = p.positions ++ defaults (original_width - 1) (next ∷ cells) }

  -- `'\u{fffd}'` stands for a glyph that is wider than a row.
  abbrev pub shown : ℕ → Cell A → Cell A
  shown width cell =
      if ltb width (max cell.width 1) then record cell { character = 65533; width = 1 } else cell

  -- One round of the loop, at a cell and those behind it.
  unfoldable pub put_glyph : ℕ → Cell A → List (Cell A) → Packing A → Packing A
  unfolding wrap put_cell put_position put_trail
  put_glyph width cell cells p =
      let original_width = max cell.width 1 in
      let glyph_width = min original_width width in
      let p' = wrap width glyph_width p in
      put_trail original_width glyph_width (here p') cells
        (put_cell (shown width cell) (put_position (here p') p'))

  -- The loop over the cells from `index` on; it steps over `skip` more of them first.
  unfoldable pub walk : ℕ → ℕ → List (Cell A) → Packing A → Packing A
  unfolding put_glyph
  walk width skip [] p = p
  walk width zero (cell ∷ cells) p =
      walk width (max cell.width 1 - 1) cells (put_glyph width cell cells p)
  walk width (suc skip) (cell ∷ cells) p = walk width skip cells p

  -- The position behind the last cell; `width` is not zero.
  abbrev pub end_position : ℕ → Packing A → Position
  end_position width p =
      let pending = length p.row.cells == width in
      record {
        row = length p.output;
        column = if pending then min (length p.row.cells) (width - 1) else length p.row.cells;
        pending = pending;
      }

  unfoldable pub pack :
      List (Cell A) → List Point → ℕ → List (Row A) → Mapped → Option (List (Row A) × Mapped)
  unfolding walk
  pack cells points width output mapped =
      let p = walk width 0 cells (record {
        output = output;
        row = record { cells = []; continued = false };
        positions = [];
      }) in
      let end = end_position width p in
      let rows = p.output ++ p.row ∷ [] in
      let needs_empty = end.pending && any_behind (length cells) points in
      elim (map_points (length cells) end (p.positions ++ end ∷ []) points mapped) [
        | none ↦ none
        | some mapped' ↦ some (
          if needs_empty then rows ++ record { cells = []; continued = true } ∷ [] else rows,
          mapped',
        )
      ]
