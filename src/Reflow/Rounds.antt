-- ===== src/Reflow/Rounds.antt =====
-- The loop of `pack` in src/screen/reflow.rs round by round, on rows of two cells or more.
use mathlib.Core.List.{append-nil, append_assoc}
use mathlib.Core.Path.{subst}
use rustmux.Base.{
  ==→≡, ◌-◌, ◌==◌, All, false, max, min, sym, ap, length-append, ◌≡◌, Bool-cases, [], arith, inl,
  inr, length, ltb, refl, true, ◌++◌, ◌+◌, ◌∙◌, ◌∷◌, ◌≤◌, List, ℕ,
}
use rustmux.Reflow.Packing.{
  walk, Position, put_trail, put_glyph, here, put_position, Packing, Cell, put_cell, wrap, Row,
}
use rustmux.Reflow.Kept.{
  look-put, Shows-put, Lands-end, All-split, Shows-append, flat-put, Lands-Shows, Within,
  All-append, flat, starts-append, rows_of, flat-append, Kept,
}

-- A cell is a leader of one or two columns, or the placeholder behind one.
abbrev pub Drawn : {A : Type 0} → Cell A → Type 0
Drawn cell = cell.width ≤ 2

module _ {A : Type 0} (base : List (Row A)) (width : ℕ) where
  wrap-Kept :
      (glyph_width : ℕ) (seen : List (Cell A)) (p : Packing A)
      → Kept base width seen p
      → Kept base width seen (wrap width glyph_width p)
  unfolding wrap
  wrap-Kept glyph_width seen p k =
      elim (Bool-cases (ltb width (length p.row.cells + glyph_width))) [
        | inl full ↦ rw full (record {
          held = flat-append (rows_of p) (fresh ∷ []) ∙ append-nil (flat (rows_of p)) ∙ k.held;
          narrow = All-append (Within width) (rows_of p) (fresh ∷ []) k.narrow (omega arith, tt);
          lines = omega (arith, starts-append (rows_of p) (fresh ∷ []), k.lines);
          placed =
              Lands-Shows (rows_of p) (rows_of p ++ fresh ∷ []) p.positions seen
                (Shows-append (rows_of p) (fresh ∷ [])) k.placed;
        })
        | inr room ↦ rw room k
      ]
    where
      fresh : Row A
      fresh = record { cells = []; continued = true }

  wrap_room :
      (glyph_width : ℕ) (p : Packing A)
      → glyph_width ≤ width
      → length (wrap width glyph_width p).row.cells + glyph_width ≤ width
  unfolding wrap
  wrap_room glyph_width p h = ground arith

  -- A cell put where there is room, its position with it.
  put-Kept :
      (cell : Cell A) (seen : List (Cell A)) (p : Packing A)
      → length p.row.cells + 1 ≤ width
      → Kept base width seen p
      → Kept base width (seen ++ cell ∷ []) (put_cell cell (put_position (here p) p))
  unfolding put_cell put_position
  put-Kept cell seen p room k = record {
    held =
        flat-put p.output p.row cell
        ∙ ap (λ more. more ++ cell ∷ []) k.held
        ∙ append_assoc (flat base) seen (cell ∷ []);
    narrow =
        All-append (Within width) p.output (wider ∷ [])
          (All-split (Within width) p.output (p.row ∷ []) k.narrow).0
          (omega (arith, length-append p.row.cells (cell ∷ [])), tt);
    lines =
        omega (
          arith,
          starts-append p.output (wider ∷ []),
          starts-append p.output (p.row ∷ []),
          k.lines,
        );
    placed =
        Lands-end (p.output ++ wider ∷ []) p.positions seen (here p) cell
          (Lands-Shows (rows_of p) (p.output ++ wider ∷ []) p.positions seen
            (Shows-put p.output p.row cell) k.placed)
          (look-put p.output p.row cell) refl;
  }
    where
      wider : Row A
      wider = record p.row { cells = p.row.cells ++ cell ∷ [] }

  -- A glyph that fits a row is put as it is.
  put_glyph_fits :
      (o : ℕ) (cell : Cell A) (cells : List (Cell A)) (p : Packing A)
      → max cell.width 1 ≡ o
      → o ≤ width
      → put_glyph width cell cells p
        ≡ put_trail o o
            (here (wrap width o p))
            cells
            (put_cell cell (put_position (here (wrap width o p)) (wrap width o p)))
  unfolding put_glyph
  put_glyph_fits o cell cells p e h = rw (e, fits, whole) refl
    where
      fits : min o width ≡ o
      fits = omega arith

      whole : ltb width o ≡ false
      whole = ground arith

  no_trail : (more : List (Cell A)) (at : Position) (q : Packing A) → put_trail 1 1 at more q ≡ q
  unfolding put_trail
  no_trail [] at q = refl
  no_trail (next ∷ more) at q =
      ap (λ positions. record q { positions = positions }) (append-nil q.positions)

  -- A cell that is not a wide glyph.
  narrow-Kept :
      (cell : Cell A) (cells seen : List (Cell A)) (p : Packing A)
      → cell.width ≤ 1
      → 2 ≤ width
      → Kept base width seen p
      → Kept base width (seen ++ cell ∷ []) (put_glyph width cell cells p)
  narrow-Kept cell cells seen p small wide k =
      let q = wrap width 1 p in
      subst (Kept base width (seen ++ cell ∷ []))
        (sym (
          put_glyph_fits 1 cell cells p (omega arith) (omega arith)
          ∙ no_trail cells (here q) (put_cell cell (put_position (here q) q))))
        (put-Kept cell seen q (wrap_room 1 p (omega arith)) (wrap-Kept 1 seen p k))

  put_room :
      (cell : Cell A) (q : Packing A)
      → length q.row.cells + 2 ≤ width
      → length (put_cell cell (put_position (here q) q)).row.cells + 1 ≤ width
  unfolding put_cell put_position
  put_room cell q h = omega (arith, length-append q.row.cells (cell ∷ []))

  wide_trail :
      (cell next : Cell A) (cells : List (Cell A)) (q : Packing A)
      → put_trail 2 2 (here q) (next ∷ cells) (put_cell cell (put_position (here q) q))
        ≡ put_cell next (
            put_position
              (here (put_cell cell (put_position (here q) q)))
              (put_cell cell (put_position (here q) q)))
  unfolding put_trail put_cell put_position
  wide_trail cell next cells q = rw (length-append q.row.cells (cell ∷ [])) refl

  -- A wide glyph with the cell behind it.
  wide-Kept :
      (cell next : Cell A) (cells seen : List (Cell A)) (p : Packing A)
      → cell.width ≡ 2
      → 2 ≤ width
      → Kept base width seen p
      → Kept base width ((seen ++ cell ∷ []) ++ next ∷ []) (put_glyph width cell (next ∷ cells) p)
  wide-Kept cell next cells seen p two wide k =
      let q = wrap width 2 p in
      let room = wrap_room 2 p (omega arith) in
      let put = put_cell cell (put_position (here q) q) in
      subst (Kept base width ((seen ++ cell ∷ []) ++ next ∷ []))
        (sym (
          put_glyph_fits 2 cell (next ∷ cells) p (omega arith) (omega arith)
          ∙ wide_trail cell next cells q))
        (put-Kept next (seen ++ cell ∷ []) put (put_room cell q room)
          (put-Kept cell seen q (omega (arith, room)) (wrap-Kept 2 seen p k)))

  no_trail_end : (at : Position) (q : Packing A) → put_trail 2 2 at [] q ≡ q
  unfolding put_trail
  no_trail_end at q = refl

  -- A wide glyph at the very end.
  cut-Kept :
      (cell : Cell A) (seen : List (Cell A)) (p : Packing A)
      → cell.width ≡ 2
      → 2 ≤ width
      → Kept base width seen p
      → Kept base width (seen ++ cell ∷ []) (put_glyph width cell [] p)
  cut-Kept cell seen p two wide k =
      let q = wrap width 2 p in
      subst (Kept base width (seen ++ cell ∷ []))
        (sym (
          put_glyph_fits 2 cell [] p (omega arith) (omega arith)
          ∙ no_trail_end (here q) (put_cell cell (put_position (here q) q))))
        (put-Kept cell seen q (omega (arith, wrap_room 2 p (omega arith))) (wrap-Kept 2 seen p k))

  one_behind : (cell : Cell A) → cell.width ≡ 2 → max cell.width 1 - 1 ≡ 1
  one_behind cell h = omega arith

  none_behind : (cell : Cell A) → cell.width ≤ 1 → max cell.width 1 - 1 ≡ 0
  none_behind cell h = omega arith

  -- The whole loop.
  pub walk-Kept :
      (cells seen : List (Cell A)) (p : Packing A)
      → 2 ≤ width
      → All Drawn cells
      → Kept base width seen p
      → Kept base width (seen ++ cells) (walk width 0 cells p)
  unfolding walk
  walk-Kept [] seen p wide h k = subst (λ all. Kept base width all p) (sym (append-nil seen)) k
  walk-Kept (cell ∷ []) seen p wide h k = elim (Bool-cases (cell.width == 2)) [
    | inl two ↦ cut-Kept cell seen p (==→≡ cell.width 2 two) wide k
    | inr other ↦ narrow-Kept cell [] seen p (ground (arith, h.0, other)) wide k
  ]
  walk-Kept (cell ∷ next ∷ cells) seen p wide h k = elim (Bool-cases (cell.width == 2)) [
    | inl two ↦
        let is_two = ==→≡ cell.width 2 two in
        let p' = put_glyph width cell (next ∷ cells) p in
        subst (λ n. Kept base width (seen ++ cell ∷ next ∷ cells) (walk width n (next ∷ cells) p'))
          (sym (one_behind cell is_two))
          (subst (λ all. Kept base width all (walk width 0 cells p'))
            (append_assoc (seen ++ cell ∷ []) (next ∷ []) cells
              ∙ append_assoc seen (cell ∷ []) (next ∷ cells))
            (walk-Kept cells ((seen ++ cell ∷ []) ++ next ∷ []) p' wide h.1.1
              (wide-Kept cell next cells seen p is_two wide k)))
    | inr other ↦
        let small : cell.width ≤ 1 = ground (arith, h.0, other) in
        let p' = put_glyph width cell (next ∷ cells) p in
        subst (λ n. Kept base width (seen ++ cell ∷ next ∷ cells) (walk width n (next ∷ cells) p'))
          (sym (none_behind cell small))
          (subst (λ all. Kept base width all (walk width 0 (next ∷ cells) p'))
            (append_assoc seen (cell ∷ []) (next ∷ cells))
            (walk-Kept (next ∷ cells) (seen ++ cell ∷ []) p' wide h.1
              (narrow-Kept cell (next ∷ cells) seen p small wide k)))
  ]
