-- ===== src/Scrollback/Bounds.antt =====
-- The bounds that `push` and `pop_newest` of src/scrollback.rs keep, and what they retain.
use rustmux.Base.{
  if_true, length-append, min, zero, ◌++◌, ◌==◌, ◌∙◌, ◌⊎◌, Bool, Bool-cases, List, arith, drop,
  false, inl, inr, leb, length, ltb, refl, some, suc, true, ℕ, ◌+◌, ◌-◌, ◌<◌, ◌∷◌, ◌≡◌, ◌≤◌, [],
  ◌||◌,
}
use rustmux.Scrollback.Rows.{max_cells, HistoryRow, Scrollback, push, evict, clear}

module _ {C : Type 0} where
  abbrev pub total : List (HistoryRow C) → ℕ
  total [] = 0
  total (r ∷ rows) = length r.cells + total rows

  -- At most `max_lines` rows of at most 65536 cells in all, which the count says.
  pub record Bounded (s : Scrollback C) : Type 0 where
    pub lines : length s.rows ≤ s.max_lines
    pub counted : s.cells ≡ total s.rows
    pub limit : s.cells ≤ max_cells

  -- A row of `width` cells does not fit behind these rows.
  abbrev pub crowded : ℕ → ℕ → List (HistoryRow C) → Bool
  crowded lines width rows = leb lines (length rows) || ltb max_cells (total rows + width)

  -- The oldest rows leave, and no more of them than must.
  abbrev pub Evicted : ℕ → ℕ → List (HistoryRow C) → List (HistoryRow C) → Type 0
  Evicted lines width rows kept =
      (crowded lines width kept ≡ false)
      × ((n : ℕ) × (kept ≡ drop n rows)
          × ((m : ℕ) → m < n → crowded lines width (drop m rows) ≡ true))

  room_left :
      (lines width : ℕ) (rows : List (HistoryRow C))
      → crowded lines width rows ≡ false
      → (length rows < lines) × (total rows + width ≤ max_cells)
  room_left lines width rows h = ground arith

  first_leaves :
      (lines width : ℕ) (r : HistoryRow C) (rows : List (HistoryRow C)) (n : ℕ)
      → crowded lines width (r ∷ rows) ≡ true
      → ((m : ℕ) → m < n → crowded lines width (drop m rows) ≡ true)
      → (m : ℕ) → m < suc n
      → crowded lines width (drop m (r ∷ rows)) ≡ true
  first_leaves lines width r rows n full least zero h = full
  first_leaves lines width r rows n full least (suc m) h = least m (omega arith)

  evict-Evicted :
      (lines width : ℕ) (rows : List (HistoryRow C)) (cells : ℕ)
      → 0 < lines
      → width ≤ max_cells
      → cells ≡ total rows
      → (kept : List (HistoryRow C)) × (evict lines width rows cells ≡ some (kept, total kept))
        × Evicted lines width rows kept
  unfolding evict
  evict-Evicted lines width [] cells p w c =
      let open_end : (leb lines 0 || ltb max_cells (cells + width)) ≡ false = ground arith in
      ([], rw (open_end, c), (ground arith, (0, refl, λ m h. absurd (omega arith))))
  evict-Evicted lines width (r ∷ rows) cells p w c =
      elim (Bool-cases (crowded lines width (r ∷ rows))) [
        | inr fits ↦ (r ∷ rows, rw (c, fits), (fits, (0, refl, λ m h. absurd (omega arith))))
        | inl full ↦
            let full_test =
              if_true (evict lines width rows (cells - length r.cells)) (some (r ∷ rows, cells))
                {b = leb lines (length (r ∷ rows)) || ltb max_cells (cells + width)} (rw c full) in
            let (kept, e, (open_end, (n, same, least))) =
              evict-Evicted lines width rows (cells - length r.cells) p w (omega arith) in
            (
              kept,
              full_test ∙ e,
              (open_end, (suc n, same, first_leaves lines width r rows n full least)),
            )
      ]

  total-append : (rows more : List (HistoryRow C)) → total (rows ++ more) ≡ total rows + total more
  total-append [] more = omega arith
  total-append (r ∷ rows) more = omega (arith, total-append rows more)

  -- The row that `push` stores.
  abbrev pub stored : List C → Bool → ℕ → HistoryRow C
  stored cells continued used = record {
    cells = cells;
    continued = continued;
    used = min used (length cells);
  }

  -- The rows after a push: none if rows are not kept or the new one is too wide; otherwise the
  -- newest rows that leave room for the new one, and that one.
  abbrev pub Retained : Scrollback C → List C → Bool → ℕ → List (HistoryRow C) → Type 0
  Retained s cells continued used rows =
      (((s.max_lines ≡ 0) ⊎ (max_cells < length cells)) × (rows ≡ []))
      ⊎ ((kept : List (HistoryRow C)) × (rows ≡ kept ++ stored cells continued used ∷ [])
          × Evicted s.max_lines (length cells) s.rows kept)

  clear-Bounded : (s : Scrollback C) → Bounded (clear s)
  unfolding clear
  clear-Bounded s = record { lines = omega arith; counted = refl; limit = omega arith }

  -- From a bounded history `push` never panics and leaves a bounded history with the same limit: no
  -- row when rows are not kept or the new one has more than 65536 cells; otherwise the new row last,
  -- behind the newest rows that leave room for it, none of which was dropped without need.
  pub push-Retained :
      (s : Scrollback C) (cells : List C) (continued : Bool) (used : ℕ)
      → Bounded s
      → (out : Scrollback C) × (push s cells continued used ≡ some out)
        × Bounded out
        × (out.max_lines ≡ s.max_lines)
        × Retained s cells continued used out.rows
  unfolding push clear
  push-Retained s cells continued used b = elim (Bool-cases (s.max_lines == 0)) [
    | inl nothing ↦ (clear s, rw nothing, clear-Bounded s, refl, inl (inl (ground arith), refl))
    | inr keeps ↦ elim (Bool-cases (ltb max_cells (length cells))) [
      | inl wide ↦
          (clear s, rw (keeps, wide), clear-Bounded s, refl, inl (inr (ground arith), refl))
      | inr fits ↦
          let (kept, e, evicted) =
            evict-Evicted s.max_lines (length cells) s.rows s.cells (ground arith) (ground arith)
              b.counted in
          let new = stored cells continued used in
          let out = record s { rows = kept ++ new ∷ []; cells = total kept + length cells } in
          let sum = total-append kept (new ∷ []) in
          let len = length-append kept (new ∷ []) in
          let (line, cell) = room_left s.max_lines (length cells) kept evicted.0 in
          (
            out,
            rw (keeps, fits, e),
            record { lines = omega (arith, len, line); counted = omega (arith, sum); limit = cell },
            refl,
            inr (kept, refl, evicted),
          )
    ]
  ]
