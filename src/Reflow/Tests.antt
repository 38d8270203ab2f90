-- ===== src/Reflow/Tests.antt =====
-- Runs of the model of src/screen/reflow.rs, and its theorems at rows of four columns made three wide.
use rustmux.Base.{All, [], arith, false, none, refl, some, true, ◌++◌, ◌∷◌, ◌≡◌, List, ℕ}
use rustmux.Reflow.Packing.{current_cursor, origin, Row, pack, Mapped, Cell}
use rustmux.Reflow.Collecting.{reflow_rows, Cursor, Source}
use rustmux.Reflow.Kept.{starts, Within, flat}
use rustmux.Reflow.Flowing.{reflow_rows-text}

abbrev glyph : ℕ → ℕ → Cell ℕ
glyph character width = record { character = character; width = width; details = 0 }

-- A line of six cells over two rows, with a wide glyph, and a line of one cell.
abbrev sample : List (Source ℕ)
sample =
    record {
      cells = glyph 97 1 ∷ glyph 98 1 ∷ glyph 20013 2 ∷ glyph 0 0 ∷ [];
      extent = 4;
      continued = false;
    }
    ∷ record {
      cells = glyph 99 1 ∷ glyph 100 1 ∷ glyph 32 1 ∷ glyph 32 1 ∷ [];
      extent = 2;
      continued = true;
    }
    ∷ record {
      cells = glyph 101 1 ∷ glyph 32 1 ∷ glyph 32 1 ∷ glyph 32 1 ∷ [];
      extent = 1;
      continued = false;
    }
    ∷ []

abbrev cursor : Cursor
cursor = record { row = 2; column = 0; wrap_pending = false; auto_wrap = true }

abbrev line : List (Cell ℕ)
line = glyph 97 1 ∷ glyph 98 1 ∷ glyph 20013 2 ∷ glyph 0 0 ∷ glyph 99 1 ∷ []

abbrev nowhere : Mapped
nowhere = record { current_at = origin; saved_at = origin }

-- The wide glyph does not fit behind two cells, so it starts a row of its own.
packed_line :
    pack line ((current_cursor, 3, false) ∷ []) 3 [] nowhere
    ≡ some (
      record { cells = glyph 97 1 ∷ glyph 98 1 ∷ []; continued = false }
          ∷ record { cells = glyph 20013 2 ∷ glyph 0 0 ∷ glyph 99 1 ∷ []; continued = true }
          ∷ [],
      record nowhere { current_at = record { row = 1; column = 1; pending = false } },
    )
unfolding pack
packed_line = refl

reflow_rows-text_example :
    (out : List (Row ℕ) × Mapped) × (reflow_rows 3 0 cursor none sample ≡ some out)
    × (flat out.0 ≡ line ++ glyph 100 1 ∷ glyph 101 1 ∷ [])
    × All (Within 3) out.0
    × (starts out.0 ≡ 2)
reflow_rows-text_example = reflow_rows-text 3 0 cursor none sample (omega arith) (
  (omega arith, (omega arith, (omega arith, (omega arith, tt)))),
  omega arith,
  (
    (omega arith, (omega arith, (omega arith, (omega arith, tt)))),
    omega arith,
    ((omega arith, (omega arith, (omega arith, (omega arith, tt)))), omega arith, tt),
  ),
)
