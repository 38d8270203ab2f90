-- ===== src/Reflow/Points.antt =====
-- The cursors that `pack` of src/screen/reflow.rs carries along with the cells.
use rustmux.Reflow.Packing.{current_cursor, saved_cursor}
use rustmux.Base.{
  All, Bool-cases, [], ap, arith, false, get_elem?, inl, inr, length, not, refl, some,
  some-injective, suc, sym, true, zero, ◌&&◌, ◌++◌, ◌+◌, ◌<◌, ◌==◌, ◌∙◌, ◌∷◌, ◌≡◌, ◌≤◌, ◌⊎◌, List,
  Bool, ℕ,
}
use rustmux.Reflow.Packing.{map_points, set_mapped, Mapped, Position, Point, CursorId}

abbrev pub at : CursorId → Mapped → Position
at current_cursor m = m.current_at
at saved_cursor m = m.saved_at

abbrev pub is_cursor : CursorId → CursorId → Bool
is_cursor current_cursor current_cursor = true
is_cursor saved_cursor saved_cursor = true
is_cursor current_cursor saved_cursor = false
is_cursor saved_cursor current_cursor = false

abbrev pub Inside : ℕ → Point → Type 0
Inside n point = point.1 ≤ n

abbrev pub Other : CursorId → Point → Type 0
Other id point = is_cursor id point.0 ≡ false

at-set_mapped : (id : CursorId) (p : Position) (m : Mapped) → at id (set_mapped id p m) ≡ p
at-set_mapped current_cursor p m = refl
at-set_mapped saved_cursor p m = refl

at-set_other :
    (id other : CursorId) (p : Position) (m : Mapped)
    → is_cursor id other ≡ false
    → at id (set_mapped other p m) ≡ at id m
at-set_other current_cursor saved_cursor p m h = refl
at-set_other saved_cursor current_cursor p m h = refl
at-set_other current_cursor current_cursor p m h = absurd (cc)
at-set_other saved_cursor saved_cursor p m h = absurd (cc)

in_list :
    (positions : List Position) (i : ℕ)
    → i < length positions
    → (p : Position) × (get_elem? positions i ≡ some p)
in_list [] i h = absurd (omega arith)
in_list (p ∷ positions) zero h = (p, refl)
in_list (p ∷ positions) (suc i) h = in_list positions i (omega arith)

-- What one point does: either it is put behind the end, or its offset is looked up.
map_points-cons :
    (n : ℕ) (end : Position) (positions : List Position) (point : Point) (points : List Point)
    (m : Mapped)
    → length positions ≡ n + 1
    → point.1 ≤ n
    → (p : Position) × (map_points n end positions (point ∷ points) m
        ≡ map_points n end positions points (set_mapped point.0 p m))
      × ((point.1 ≡ n) ⊎ (get_elem? positions point.1 ≡ some p))
map_points-cons n end positions point points m h k =
    elim (Bool-cases (point.1 == n && end.pending && not point.2)) [
      | inl behind ↦ (
        record { row = end.row + 1; column = 0; pending = false },
        rw behind refl,
        inl (ground arith),
      )
      | inr found ↦
          let (p, e) = in_list positions point.1 (omega arith) in (p, rw (found, e) refl, inr e)
    ]

pub map_points_total :
    (n : ℕ) (end : Position) (positions : List Position) (points : List Point) (m : Mapped)
    → length positions ≡ n + 1
    → All (Inside n) points
    → (m' : Mapped) × (map_points n end positions points m ≡ some m')
map_points_total n end positions [] m h k = (m, refl)
map_points_total n end positions (point ∷ points) m h k =
    let (p, e, kind) = map_points-cons n end positions point points m h k.0 in
    let (m', done) = map_points_total n end positions points (set_mapped point.0 p m) h k.1 in
    (m', e ∙ done)

-- Points of the other cursor leave a cursor alone.
map_points-Other :
    (id : CursorId) (n : ℕ) (end : Position) (positions : List Position) (points : List Point)
    (m : Mapped) {m' : Mapped}
    → length positions ≡ n + 1
    → All (Inside n) points
    → All (Other id) points
    → map_points n end positions points m ≡ some m'
    → at id m' ≡ at id m
map_points-Other id n end positions [] m h k o e = ap (at id) (some-injective (sym e))
map_points-Other id n end positions (point ∷ points) m h k o e =
    let (p, step, kind) = map_points-cons n end positions point points m h k.0 in
    map_points-Other id n end positions points (set_mapped point.0 p m) h k.1 o.1 (sym step ∙ e)
    ∙ at-set_other id point.0 p m o.0

-- The last point of a cursor decides its position.
pub map_points-at :
    (n : ℕ) (end : Position) (positions : List Position) (before after : List Point) (point : Point)
    (m : Mapped) {m' : Mapped}
    → length positions ≡ n + 1
    → All (Inside n) (before ++ point ∷ after)
    → All (Other point.0) after
    → point.1 < n
    → map_points n end positions (before ++ point ∷ after) m ≡ some m'
    → get_elem? positions point.1 ≡ some (at point.0 m')
map_points-at n end positions [] after point m h k o small e =
    let (p, step, kind) = map_points-cons n end positions point after m h k.0 in
    elim kind [
      | inl last ↦ absurd (omega (arith, last))
      | inr found ↦
          found
          ∙ ap some (
              sym (
                map_points-Other point.0 n end positions after (set_mapped point.0 p m) h k.1 o
                  (sym step ∙ e)
                ∙ at-set_mapped point.0 p m))
    ]
map_points-at n end positions (first ∷ before) after point m h k o small e =
    let (p, step, kind) = map_points-cons n end positions first (before ++ point ∷ after) m h k.0 in
    map_points-at n end positions before after point (set_mapped first.0 p m) h k.1 o small
      (sym step ∙ e)
