-- ===== src/Windows/Tests.antt =====
-- Runs of the model of src/window.rs, and its theorems at a collection of three windows.
use rustmux.Base.{
  Bool, Option, arith, get_elem?, if◌then◌else◌, length, ltb, refl, some, some-injective, ℕ, ◌==◌,
  ◌∷◌, ◌≡◌, [], true, false,
}
use rustmux.Base.Result.{ok, err}
use rustmux.Windows.Store.{
  tiled_active, remove_at, id_of, index, Windows, Window, WindowId, to_right, panic, select_last,
  select_next, select_previous, empty, create,
}
use rustmux.Windows.Order.{move_window, close}
use rustmux.Windows.Valid.{IsValid, ids}
use rustmux.Windows.Reachable.{start, next, append, Grown-IsValid}
use rustmux.Windows.Closing.{close_removes, heir_index}
use rustmux.Base.Counting.{SameCounts}
use rustmux.Windows.Moving.{move_window_total, move_window_panics}
use rustmux.Windows.Selecting.{select_previous-select_next, select_last-select_last}
use rustmux.Windows.History.{close_stale}
use rustmux.Windows.Places.{place_before}

abbrev window : ℕ → Window ℕ
window n = record { id = n; name = n ∷ []; content = n }

-- Three windows, the last one selected, the first one before it.
abbrev three : Windows ℕ
three = record {
  entries = window 0 ∷ window 1 ∷ window 2 ∷ [];
  active = 2;
  close_focus = to_right;
  next_id = some 4;
  last_active = some 1;
  floating = some (window 3);
  floating_visible = false;
}

abbrev covered : Windows ℕ
covered = record three { floating_visible = true }

three-IsValid : IsValid three
three-IsValid = record {
  distinct = (refl, (refl, (refl, tt)));
  given_out = λ t m. ground arith;
  apart = (refl, omega arith);
  room = omega arith;
  in_range = omega arith;
  known = refl;
  shown = λ h. absurd (cc);
}

covered-IsValid : IsValid covered
covered-IsValid = record {
  distinct = (refl, (refl, (refl, tt)));
  given_out = λ t m. ground arith;
  apart = (refl, omega arith);
  room = omega arith;
  in_range = omega arith;
  known = refl;
  shown = λ h. (refl, omega arith);
}

abbrev none_yet : Windows ℕ
none_yet = empty

abbrev first_content : ℕ
first_content = 5

abbrev first_window : Window ℕ
first_window = record { id = 0; name = 7 ∷ []; content = first_content }

abbrev one_window : Windows ℕ
one_window = record none_yet { entries = first_window ∷ []; next_id = some 1 }

created : create none_yet (7 ∷ []) first_content ≡ ok (one_window, 0)
unfolding create empty
created = refl

Grown-IsValid_example : IsValid one_window
Grown-IsValid_example = Grown-IsValid (next (start refl) (append (7 ∷ []) first_content created))

close_removes_example :
    (i : ℕ) × (out : Windows ℕ × Window ℕ) × (index 2 three.entries ≡ some i)
    × (get_elem? three.entries i ≡ some out.1)
    × (close three 2 ≡ ok out)
    × (out.0.entries ≡ remove_at i three.entries)
    × (tiled_active out.0
        ≡ get_elem? three.entries (
            if i == three.active
            then heir_index three.close_focus i (length three.entries)
            else three.active))
    × IsValid out.0
close_removes_example = close_removes three 2 three-IsValid refl

select_last-select_last_example :
    (out : Windows ℕ) × (select_last three ≡ (out, some 1))
    × (id_of (tiled_active out) ≡ some 1)
    × (select_last out ≡ (record three { floating_visible = false }, id_of (tiled_active three)))
select_last-select_last_example =
    select_last-select_last three 1 three-IsValid refl
      (λ h. absurd (omega (arith, some-injective h)))

select_previous-select_next_example :
    (out back : Windows ℕ × Option WindowId) × (select_next three ≡ ok out)
    × (select_previous out.0 ≡ ok back)
    × (back.0.entries ≡ three.entries)
    × (back.0.active ≡ three.active)
    × (back.1 ≡ id_of (tiled_active three))
select_previous-select_next_example = select_previous-select_next three three-IsValid (omega arith)

move_window_total_example :
    (i : ℕ) × (out : Windows ℕ × Bool) × (index 2 three.entries ≡ some i)
    × (move_window three 2 true ≡ ok out)
    × (out.0 ≡ record three { entries = out.0.entries; active = out.0.active })
    × ((k : ℕ)
        → get_elem? out.0.entries k
          ≡ get_elem? three.entries (place_before i true (length three.entries) k))
    × IsValid out.0
    × SameCounts (ids out.0.entries) (ids three.entries)
    × (id_of (tiled_active out.0) ≡ id_of (tiled_active three))
    × (out.1 ≡ ltb 1 (length three.entries))
move_window_total_example = move_window_total three 2 true three-IsValid refl refl

move_window_panics_example : move_window covered 0 true ≡ err panic
move_window_panics_example =
    move_window_panics covered 0 true covered-IsValid refl refl (omega arith)

close_stale_example :
    (out : Windows ℕ × Window ℕ) × (close covered 2 ≡ ok out)
    × (out.0.last_active ≡ some 1)
    × (id_of (tiled_active out.0) ≡ some 1)
close_stale_example =
    close_stale covered 2 1 2 covered-IsValid refl (omega arith) refl refl
      (λ h. absurd (omega (arith, h))) refl
