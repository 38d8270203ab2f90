-- ===== src/Windows/Order.antt =====
-- The methods of `Windows` in src/window.rs that move, rename and close a window.
use rustmux.Base.{
  Bool, List, false, get_elem?, if◌then◌else◌, leb, length, ltb, none, not, some, suc, true, zero,
  ℕ, ◌++◌, ◌+◌, ◌-◌, ◌==◌, ◌||◌, ◌∷◌, [], ◌&&◌,
}
use rustmux.Base.Result.{Result, ok, err, ◌>>=◌, ok_or}
use rustmux.Windows.Store.{
  is_empty, remove_at, id_of, index, same_id, is_some, active_window, is_floating, Windows, Window,
  CloseFocus, to_left, to_right, WindowId, WindowError, panic, unknown_window,
}

module _ {ℓ} {A : Type ℓ} where
  -- `rotate_left(1)`, `rotate_right(1)` and `swap(i, i + 1)`.
  abbrev pub rotate_left : List A → List A
  rotate_left [] = []
  rotate_left (x ∷ xs) = xs ++ x ∷ []

  abbrev pub second : A → List A → List A
  second x [] = x ∷ []
  second x (z ∷ zs) = z ∷ x ∷ zs

  abbrev pub last_first : A → List A → List A
  last_first x [] = x ∷ []
  last_first x (y ∷ ys) = second x (last_first y ys)

  abbrev pub rotate_right : List A → List A
  rotate_right [] = []
  rotate_right (x ∷ xs) = last_first x xs

  abbrev pub swap_next : ℕ → List A → List A
  swap_next i [] = []
  swap_next i (x ∷ []) = x ∷ []
  swap_next zero (x ∷ y ∷ xs) = y ∷ x ∷ xs
  swap_next (suc i) (x ∷ y ∷ xs) = x ∷ swap_next i (y ∷ xs)

abbrev pub is_left : CloseFocus → Bool
is_left to_left = true
is_left to_right = false

-- The index that keeps the focus when the window at `i` leaves `n` windows behind.
abbrev pub focus_after : CloseFocus → ℕ → ℕ → ℕ → ℕ
focus_after focus i active n =
    if ltb i active
    then active - 1
    else if i == active && (is_left focus || active == n)
    then active - 1
    else active

module _ {T : Type 0} where
  -- The new order of `move_window`.
  abbrev pub reordered : ℕ → Bool → List (Window T) → List (Window T)
  reordered i right xs =
      if right && i + 1 == length xs
      then rotate_right xs
      else if not right && i == 0
      then rotate_left xs
      else swap_next (if right then i else i - 1) xs

  unfoldable pub move_window : Windows T → WindowId → Bool → Result WindowError (Windows T × Bool)
  move_window w id right = if is_floating w id then ok (w, false) else (do
    i ← ok_or (index id w.entries) unknown_window
    if leb (length w.entries) 1 then ok (w, false) else (do
      active ← ok_or (active_window w) panic
      let moved = reordered i right w.entries
      j ← ok_or (index active.id moved) panic
      ok (record w { entries = moved; active = j }, true)))

  abbrev pub expect : Result WindowError (Windows T × Bool) → Result WindowError (Windows T × Bool)
  expect (ok out) = ok out
  expect (err e) = err panic

  -- `move_active_left` (`false`) and `move_active_right`.
  unfoldable pub move_active : Windows T → Bool → Result WindowError (Windows T × Bool)
  unfolding move_window
  move_active w right = elim (active_window w) [
    | none ↦ ok (w, false)
    | some window ↦ expect (move_window w window.id right)
  ]

  -- The first entry of the identity.
  abbrev pub rename_entry : WindowId → List ℕ → List (Window T) → List (Window T)
  rename_entry id name [] = []
  rename_entry id name (x ∷ xs) =
      if x.id == id then record x { name = name } ∷ xs else x ∷ rename_entry id name xs

  unfoldable pub rename : Windows T → WindowId → List ℕ → Result WindowError (Windows T)
  rename w id name =
      if is_some (index id w.entries)
      then ok (record w { entries = rename_entry id name w.entries })
      else elim w.floating [
        | none ↦ err unknown_window
        | some window ↦
            if window.id == id
            then ok (record w { floating = some (record window { name = name }) })
            else err unknown_window
      ]

  -- Forget a target that is closed or already active.
  abbrev pub forget : WindowId → Windows T → Windows T
  forget id w =
      if same_id w.last_active (some id) || same_id w.last_active (id_of (active_window w))
      then record w { last_active = none }
      else w

  unfoldable pub close : Windows T → WindowId → Result WindowError (Windows T × Window T)
  close w id =
      if is_floating w id
      then (do
        window ← ok_or w.floating panic
        ok (record w { floating = none; floating_visible = false }, window))
      else (do
        i ← ok_or (index id w.entries) unknown_window
        removed ← ok_or (get_elem? w.entries i) panic
        let left_over = remove_at i w.entries
        ok (
          forget id (record w {
            entries = left_over;
            floating_visible = w.floating_visible && not (is_empty left_over);
            active = focus_after w.close_focus i w.active (length left_over);
          }),
          removed,
        ))
