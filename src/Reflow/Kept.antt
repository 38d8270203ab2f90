-- ===== src/Reflow/Kept.antt =====
-- What a round of the loop of `pack` in src/screen/reflow.rs keeps: every cell, the width of a row and
-- the place of each cell.
use rustmux.Base.{
  All, [], ap, arith, false, get_elem?, length, none, not, refl, some, suc, sym, zero, ◌++◌, ◌+◌,
  ◌∙◌, ◌∷◌, ◌≡◌, ◌≤◌, List, Option, ℕ,
}
use rustmux.Reflow.Packing.{Position, bit, Cell, Packing, Row}
use mathlib.Core.List.{append_assoc, append-nil}

pub All-append {κ} :
    {B : Type 0} (P : B → Type κ) (xs ys : List B) → All P xs → All P ys → All P (xs ++ ys)
All-append P [] ys h k = k
All-append P (x ∷ xs) ys h k = (h.0, All-append P xs ys h.1 k)

pub All-split {κ} :
    {B : Type 0} (P : B → Type κ) (xs ys : List B) → All P (xs ++ ys) → All P xs × All P ys
All-split P [] ys h = (tt, h)
All-split P (x ∷ xs) ys h = let (one, two) = All-split P xs ys h.1 in ((h.0, one), two)

module _ {A : Type 0} where
  -- The cells of rows, one row after the other.
  abbrev pub flat : List (Row A) → List (Cell A)
  flat [] = []
  flat (r ∷ rows) = r.cells ++ flat rows

  -- The number of rows that start a logical line.
  abbrev pub starts : List (Row A) → ℕ
  starts [] = 0
  starts (r ∷ rows) = bit (not r.continued) + starts rows

  -- The cell at a row and a column.
  abbrev pub look : List (Row A) → ℕ → ℕ → Option (Cell A)
  look [] row column = none
  look (r ∷ rows) zero column = get_elem? r.cells column
  look (r ∷ rows) (suc row) column = look rows row column

  abbrev pub Within : ℕ → Row A → Type 0
  Within width r = length r.cells ≤ width

  -- Each position shows the cell that it stands for.
  abbrev pub Lands : List (Row A) → List Position → List (Cell A) → Type 0
  Lands rows [] [] = Unit
  Lands rows [] (c ∷ cells) = ⊥
  Lands rows (at ∷ positions) [] = ⊥
  Lands rows (at ∷ positions) (c ∷ cells) =
      (look rows at.row at.column ≡ some c) × (at.pending ≡ false) × Lands rows positions cells

  -- The finished rows with the one in progress.
  abbrev pub rows_of : Packing A → List (Row A)
  rows_of p = p.output ++ p.row ∷ []

  -- Behind the rows `base`, the packing holds the cells `seen` in one logical line.
  pub record Kept (base : List (Row A)) (width : ℕ) (seen : List (Cell A)) (p : Packing A)
      : Type 0 where
    pub held : flat (rows_of p) ≡ flat base ++ seen
    pub narrow : All (Within width) (rows_of p)
    pub lines : starts (rows_of p) ≡ starts base + 1
    pub placed : Lands (rows_of p) p.positions seen

  pub flat-append : (xs ys : List (Row A)) → flat (xs ++ ys) ≡ flat xs ++ flat ys
  flat-append [] ys = refl
  flat-append (r ∷ xs) ys =
      ap (λ more. r.cells ++ more) (flat-append xs ys)
      ∙ sym (append_assoc r.cells (flat xs) (flat ys))

  pub starts-append : (xs ys : List (Row A)) → starts (xs ++ ys) ≡ starts xs + starts ys
  starts-append [] ys = omega arith
  starts-append (r ∷ xs) ys = omega (arith, starts-append xs ys)

  -- Rows that show at least what others show.
  abbrev pub Shows : List (Row A) → List (Row A) → Type 0
  Shows rows more =
      (r c : ℕ) (cell : Cell A) → look rows r c ≡ some cell → look more r c ≡ some cell

  get_elem?-more :
      (xs ys : List (Cell A)) (i : ℕ) {cell : Cell A}
      → get_elem? xs i ≡ some cell
      → get_elem? (xs ++ ys) i ≡ some cell
  get_elem?-more [] ys i h = absurd (cc)
  get_elem?-more (x ∷ xs) ys zero h = h
  get_elem?-more (x ∷ xs) ys (suc i) h = get_elem?-more xs ys i h

  get_elem?-end :
      (xs : List (Cell A)) (cell : Cell A) → get_elem? (xs ++ cell ∷ []) (length xs) ≡ some cell
  get_elem?-end [] cell = refl
  get_elem?-end (x ∷ xs) cell = get_elem?-end xs cell

  pub Shows-append : (rows more : List (Row A)) → Shows rows (rows ++ more)
  Shows-append [] more r c cell' h = absurd (cc)
  Shows-append (x ∷ rows) more zero c cell' h = h
  Shows-append (x ∷ rows) more (suc r) c cell' h = Shows-append rows more r c cell' h

  -- A cell more at the end of the last row.
  pub Shows-put :
      (rows : List (Row A)) (x : Row A) (cell : Cell A)
      → Shows (rows ++ x ∷ []) (rows ++ record x { cells = x.cells ++ cell ∷ [] } ∷ [])
  Shows-put [] x cell zero c cell' h = get_elem?-more x.cells (cell ∷ []) c h
  Shows-put [] x cell (suc r) c cell' h = absurd (cc)
  Shows-put (y ∷ rows) x cell zero c cell' h = h
  Shows-put (y ∷ rows) x cell (suc r) c cell' h = Shows-put rows x cell r c cell' h

  pub look-put :
      (rows : List (Row A)) (x : Row A) (cell : Cell A)
      → look (rows ++ record x { cells = x.cells ++ cell ∷ [] } ∷ []) (length rows) (length x.cells)
        ≡ some cell
  look-put [] x cell = get_elem?-end x.cells cell
  look-put (y ∷ rows) x cell = look-put rows x cell

  pub Lands-Shows :
      (rows more : List (Row A)) (positions : List Position) (cells : List (Cell A))
      → Shows rows more
      → Lands rows positions cells
      → Lands more positions cells
  Lands-Shows rows more [] [] shows h = tt
  Lands-Shows rows more [] (c ∷ cells) shows h = h
  Lands-Shows rows more (at ∷ positions) [] shows h = h
  Lands-Shows rows more (at ∷ positions) (c ∷ cells) shows h =
      (shows at.row at.column c h.0, h.1, Lands-Shows rows more positions cells shows h.2)

  pub Lands-end :
      (rows : List (Row A)) (positions : List Position) (cells : List (Cell A)) (at : Position)
      (c : Cell A)
      → Lands rows positions cells
      → look rows at.row at.column ≡ some c
      → at.pending ≡ false
      → Lands rows (positions ++ at ∷ []) (cells ++ c ∷ [])
  Lands-end rows [] [] at c h here_is fresh = (here_is, fresh, tt)
  Lands-end rows [] (x ∷ cells) at c h here_is fresh = absurd h
  Lands-end rows (p ∷ positions) [] at c h here_is fresh = absurd h
  Lands-end rows (p ∷ positions) (x ∷ cells) at c h here_is fresh =
      (h.0, h.1, Lands-end rows positions cells at c h.2 here_is fresh)

  -- A cell more at the end of the last row is a cell more at the end.
  pub flat-put :
      (rows : List (Row A)) (x : Row A) (cell : Cell A)
      → flat (rows ++ record x { cells = x.cells ++ cell ∷ [] } ∷ [])
        ≡ flat (rows ++ x ∷ []) ++ cell ∷ []
  flat-put [] x cell =
      append-nil (x.cells ++ cell ∷ []) ∙ ap (λ more. more ++ cell ∷ []) (sym (append-nil x.cells))
  flat-put (y ∷ rows) x cell =
      ap (λ more. y.cells ++ more) (flat-put rows x cell)
      ∙ sym (append_assoc y.cells (flat (rows ++ x ∷ [])) (cell ∷ []))
