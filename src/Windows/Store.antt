-- ===== src/Windows/Store.antt =====
-- `Windows` of src/window.rs: ownership and focus. Contents are of any type. A method that mutates
-- returns the new collection beside its result; `panic` is a failed `expect`, `unwrap` or index.
use rustmux.Base.{
  Bool, List, Option, false, get_elem?, if◌then◌else◌, leb, length, ltb, none, not, some, suc, true,
  zero, ℕ, ◌+◌, ◌-◌, ◌==◌, ◌^◌, ◌||◌, ◌∷◌, [], ◌&&◌,
}
use rustmux.Base.Result.{Result, ok, err, ◌>>=◌, ◌>>◌, fail_if, ok_or}
use rustmux.Panes.Set.{Failure}

abbrev pub WindowId : Type 0
WindowId = ℕ

-- `TabCloseFocus`
pub data CloseFocus : Type 0 where
  to_left to_right : CloseFocus

pub record Window (T : Type 0) : Type 0 where
  pub id : WindowId
  pub name : List ℕ
  pub content : T

pub record Windows (T : Type 0) : Type 0 where
  pub entries : List (Window T)
  pub active : ℕ
  pub close_focus : CloseFocus
  pub next_id : Option ℕ
  pub last_active : Option WindowId
  pub floating : Option (Window T)
  pub floating_visible : Bool

pub data WindowError : Type 0 where
  ids_exhausted floating_refused unknown_window no_active_window panic : WindowError
  pane_failure : Failure → WindowError

-- `value.checked_add(1)` on a `u64`.
abbrev pub checked_next : ℕ → Option ℕ
checked_next value = if leb (2 ^ 64) (value + 1) then none else some (value + 1)

abbrev pub same_id : Option WindowId → Option WindowId → Bool
same_id none none = true
same_id (some a) (some b) = a == b
same_id _ _ = false

abbrev pub is_some {ℓ} : {A : Type ℓ} → Option A → Bool
is_some none = false
is_some (some a) = true

module _ {ℓ} {A : Type ℓ} where
  -- `Vec::insert` within bounds, and `Vec::remove`.
  abbrev pub insert_at : ℕ → A → List A → List A
  insert_at zero a xs = a ∷ xs
  insert_at (suc i) a [] = a ∷ []
  insert_at (suc i) a (x ∷ xs) = x ∷ insert_at i a xs

  abbrev pub remove_at : ℕ → List A → List A
  remove_at i [] = []
  remove_at zero (x ∷ xs) = xs
  remove_at (suc i) (x ∷ xs) = x ∷ remove_at i xs

module _ {T : Type 0} where
  unfoldable pub empty : Windows T
  empty = record {
    entries = [];
    active = 0;
    close_focus = to_right;
    next_id = some 0;
    last_active = none;
    floating = none;
    floating_visible = false;
  }

  unfoldable pub set_close_focus : Windows T → CloseFocus → Windows T
  set_close_focus w focus = record w { close_focus = focus }

  abbrev pub id_of : Option (Window T) → Option WindowId
  id_of none = none
  id_of (some window) = some window.id

  abbrev pub tiled_active : Windows T → Option (Window T)
  tiled_active w = get_elem? w.entries w.active

  abbrev pub active_window : Windows T → Option (Window T)
  active_window w = if w.floating_visible then w.floating else tiled_active w

  abbrev pub has_id : WindowId → Option (Window T) → Bool
  has_id id none = false
  has_id id (some window) = window.id == id

  abbrev pub is_floating : Windows T → WindowId → Bool
  is_floating w id = has_id id w.floating

  -- `entries.iter().position(|window| window.id == id)`
  abbrev pub index : WindowId → List (Window T) → Option ℕ
  index id [] = none
  index id (x ∷ xs) =
      if x.id == id then some 0 else elim (index id xs) [ none ↦ none | some i ↦ some (suc i) ]

  unfoldable pub insert : Windows T → ℕ → List ℕ → T → Result WindowError (Windows T × WindowId)
  insert w i name content = do
    value ← ok_or w.next_id ids_exhausted
    let hidden = record w { floating_visible = false }
    fail_if (ltb (length w.entries) i) panic
    ok (
      record hidden {
        last_active = id_of (active_window hidden);
        entries = insert_at i (record { id = value; name = name; content = content }) w.entries;
        next_id = checked_next value;
        active = i;
      },
      value,
    )

  unfoldable pub create : Windows T → List ℕ → T → Result WindowError (Windows T × WindowId)
  unfolding insert
  create w name content = insert w (length w.entries) name content

  abbrev pub is_empty : List (Window T) → Bool
  is_empty [] = true
  is_empty (x ∷ xs) = false

  unfoldable pub create_after_active :
      Windows T → List ℕ → T → Result WindowError (Windows T × WindowId)
  unfolding insert
  create_after_active w name content =
      insert w (if is_empty w.entries then 0 else w.active + 1) name content

  unfoldable pub create_floating :
      Windows T → List ℕ → T → Result WindowError (Windows T × WindowId)
  create_floating w name content = do
    fail_if (is_some w.floating || is_empty w.entries) floating_refused
    value ← ok_or w.next_id ids_exhausted
    ok (
      record w {
        next_id = checked_next value;
        floating = some (record { id = value; name = name; content = content });
        floating_visible = true;
      },
      value,
    )

  unfoldable pub show_floating : Windows T → Windows T × Bool
  show_floating w =
      let visible = is_some w.floating && not (is_empty w.entries) in
      (record w { floating_visible = visible }, visible)

  unfoldable pub hide_floating : Windows T → Windows T
  hide_floating w = record w { floating_visible = false }

  unfoldable pub activate : Windows T → ℕ → Windows T
  activate w i =
      let hidden = record w { floating_visible = false } in
      if i == w.active
      then hidden
      else record hidden { last_active = id_of (active_window hidden); active = i }

  unfoldable pub select : Windows T → WindowId → Result WindowError (Windows T)
  unfolding show_floating activate
  select w id =
      if is_floating w id
      then ok (show_floating w).0
      else (do i ← ok_or (index id w.entries) unknown_window; ok (activate w i))

  -- `Some(self.entries[self.active].id)`; an index out of range would panic.
  abbrev pub selected : Windows T → Result WindowError (Windows T × Option WindowId)
  selected w = elim (tiled_active w) [ none ↦ err panic | some window ↦ ok (w, some window.id) ]

  unfoldable pub select_next : Windows T → Result WindowError (Windows T × Option WindowId)
  unfolding activate
  select_next w =
      if is_empty w.entries
      then ok (w, none)
      else selected (activate w (if w.active + 1 == length w.entries then 0 else w.active + 1))

  unfoldable pub select_previous : Windows T → Result WindowError (Windows T × Option WindowId)
  unfolding activate
  select_previous w =
      if is_empty w.entries
      then ok (w, none)
      else selected (activate w (if w.active == 0 then length w.entries - 1 else w.active - 1))

  unfoldable pub select_last : Windows T → Windows T × Option WindowId
  unfolding activate
  select_last w =
      let hidden = record w { floating_visible = false } in
      elim w.last_active [
        | none ↦ (hidden, none)
        | some id ↦ elim (index id w.entries) [
          | none ↦ (hidden, none)
          | some i ↦ (activate hidden i, some id)
        ]
      ]
