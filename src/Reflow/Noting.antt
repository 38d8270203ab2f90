-- ===== src/Reflow/Noting.antt =====
-- The cursors of a row that `reflow_primary_into` of src/screen/reflow.rs adds to a line.
use rustmux.Base.{
  All, Bool-cases, [], ap, arith, if◌then◌else◌, inl, inr, max, none, some, ◌+◌, ◌==◌, ◌∙◌, ◌∷◌,
  ◌≡◌, ◌≤◌, List, Option, ℕ,
}
use rustmux.Reflow.Collecting.{pends, offset_of, noted, note_cursor, Cursor}
use rustmux.Reflow.Packing.{saved_cursor, current_cursor, CursorId, Point}
use rustmux.Reflow.Points.{Inside}
use rustmux.Reflow.Kept.{All-append}

-- The cells that a row needs for a cursor.
abbrev pub cursor_extent : Option Cursor → ℕ → ℕ → ℕ
cursor_extent none history index = 0
cursor_extent (some cursor) history index =
    if index == history + cursor.row then offset_of cursor else 0

note-extent :
    (id : CursorId) (cursor : Option Cursor) (history index before extent : ℕ) (points : List Point)
    → (note_cursor id cursor history index before (extent, points)).0
      ≡ max extent (cursor_extent cursor history index)
unfolding note_cursor
note-extent id none history index before extent points = omega arith
note-extent id (some cursor) history index before extent points = ground arith

-- The noted cursor is within the line that the row makes longer.
note-Inside :
    (id : CursorId) (cursor : Option Cursor) (history index before extent : ℕ) (points : List Point)
    (n : ℕ)
    → All (Inside n) points
    → before + max extent (cursor_extent cursor history index) ≤ n
    → All (Inside n) (note_cursor id cursor history index before (extent, points)).1
unfolding note_cursor
note-Inside id none history index before extent points n h k = h
note-Inside id (some cursor) history index before extent points n h k =
    elim (Bool-cases (index == history + cursor.row)) [
      | inl there ↦ rw there (
          All-append (Inside n) points ((id, before + offset_of cursor, pends cursor) ∷ []) h
            (ground arith, tt))
      | inr elsewhere ↦ rw elsewhere h
    ]

pub noted-extent :
    (history : ℕ) (current : Cursor) (saved : Option Cursor) (index before extent : ℕ)
    (points : List Point)
    → (noted history current saved index before extent points).0
      ≡ max
          (max extent (cursor_extent (some current) history index))
          (cursor_extent saved history index)
unfolding noted
noted-extent history current saved index before extent points =
    let first = note_cursor current_cursor (some current) history index before (extent, points) in
    note-extent saved_cursor saved history index before first.0 first.1
    ∙ ap (λ n. max n (cursor_extent saved history index))
        (note-extent current_cursor (some current) history index before extent points)

pub noted-Inside :
    (history : ℕ) (current : Cursor) (saved : Option Cursor) (index before extent : ℕ)
    (points : List Point) (n : ℕ)
    → All (Inside n) points
    → before
        + max
            (max extent (cursor_extent (some current) history index))
            (cursor_extent saved history index)
      ≤ n
    → All (Inside n) (noted history current saved index before extent points).1
unfolding noted
noted-Inside history current saved index before extent points n h k =
    let first = note_cursor current_cursor (some current) history index before (extent, points) in
    let reach = note-extent current_cursor (some current) history index before extent points in
    note-Inside saved_cursor saved history index before first.0 first.1 n
      (note-Inside current_cursor (some current) history index before extent points n h
        (omega arith))
      (omega (arith, reach))

pub Inside-more :
    (m n : ℕ) (points : List Point) → m ≤ n → All (Inside m) points → All (Inside n) points
Inside-more m n [] h k = tt
Inside-more m n (point ∷ points) h k = (omega (arith, k.0), Inside-more m n points h k.1)
