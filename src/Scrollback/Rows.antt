-- ===== src/Scrollback/Rows.antt =====
-- `Scrollback` of src/scrollback.rs. A cell is of any type; the oldest row comes first. The count of
-- cells is never below the length of a row that leaves, as `Bounds` shows, so `-=` does not wrap.
use rustmux.Base.{
  Bool, List, Option, get_elem?, if◌then◌else◌, leb, length, ltb, min, none, some, ℕ, ◌++◌, ◌+◌,
  ◌-◌, ◌==◌, ◌∷◌, [], ◌||◌,
}

abbrev pub max_lines_default : ℕ
max_lines_default = 1000

abbrev pub max_cells : ℕ
max_cells = 65536

pub record HistoryRow (C : Type 0) : Type 0 where
  pub cells : List C
  pub continued : Bool
  pub used : ℕ

pub record Scrollback (C : Type 0) : Type 0 where
  pub rows : List (HistoryRow C)
  pub cells : ℕ
  pub max_lines : ℕ

module _ {C : Type 0} where
  unfoldable pub new : ℕ → Scrollback C
  new max_lines = record { rows = []; cells = 0; max_lines = max_lines }

  unfoldable pub clear : Scrollback C → Scrollback C
  clear s = record s { rows = []; cells = 0 }

  abbrev pub row : Scrollback C → ℕ → Option (List C)
  row s index = elim (get_elem? s.rows index) [ none ↦ none | some r ↦ some r.cells ]

  -- `VecDeque::pop_back`
  abbrev pub split_last : HistoryRow C → List (HistoryRow C) → List (HistoryRow C) × HistoryRow C
  split_last r [] = ([], r)
  split_last r (x ∷ xs) = let (front, newest) = split_last x xs in (r ∷ front, newest)

  abbrev pub pop_back : List (HistoryRow C) → Option (List (HistoryRow C) × HistoryRow C)
  pop_back [] = none
  pop_back (r ∷ rows) = some (split_last r rows)

  unfoldable pub pop_newest : Scrollback C → Scrollback C × Option (HistoryRow C)
  pop_newest s = elim (pop_back s.rows) [
    | none ↦ (s, none)
    | some out ↦ (record s { rows = out.0; cells = s.cells - length out.1.cells }, some out.1)
  ]

  -- `while rows.len() >= self.max_lines || … { … }`: the rows and the cell count that are left, or
  -- `none` where `expect` panics.
  unfoldable pub evict : ℕ → ℕ → List (HistoryRow C) → ℕ → Option (List (HistoryRow C) × ℕ)
  evict max_lines width [] cells =
      if leb max_lines 0 || ltb max_cells (cells + width) then none else some ([], cells)
  evict max_lines width (r ∷ rows) cells =
      let rest = evict max_lines width rows (cells - length r.cells) in
      if leb max_lines (length (r ∷ rows)) || ltb max_cells (cells + width)
      then rest
      else some (r ∷ rows, cells)

  abbrev pub appended :
      Scrollback C → List C → Bool → ℕ → Option (List (HistoryRow C) × ℕ) → Option (Scrollback C)
  appended s cells continued used none = none
  appended s cells continued used (some (rows, count)) = some (record s {
    rows =
        rows
        ++ (record { cells = cells; continued = continued; used = min used (length cells) }) ∷ [];
    cells = count + length cells;
  })

  unfoldable pub push : Scrollback C → List C → Bool → ℕ → Option (Scrollback C)
  unfolding evict clear
  push s cells continued used =
      if s.max_lines == 0
      then some (clear s)
      else if ltb max_cells (length cells)
      then some (clear s)
      else appended s cells continued used (evict s.max_lines (length cells) s.rows s.cells)
