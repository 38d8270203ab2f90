-- ===== src/Windows/Valid.antt =====
-- The invariant of `Windows` in src/window.rs.
use rustmux.Base.{
  List, Option, length, none, some, true, ℕ, ◌-◌, ◌<◌, ◌∷◌, ◌≡◌, ◌≤◌, [], false, ◌^◌,
}
use rustmux.Base.Members.{member, Distinct}
use rustmux.Windows.Store.{is_some, Windows, Window, WindowId}

abbrev pub next_bound : Option ℕ → ℕ
next_bound none = 2 ^ 64
next_bound (some n) = n

-- An identity that can be given out is a `u64`.
abbrev pub Room : Option ℕ → Type 0
Room none = Unit
Room (some n) = n < 2 ^ 64

abbrev pub Known : List WindowId → Option WindowId → Type 0
Known xs none = Unit
Known xs (some id) = member id xs ≡ true

module _ {T : Type 0} where
  abbrev pub ids : List (Window T) → List WindowId
  ids [] = []
  ids (x ∷ xs) = x.id ∷ ids xs

  -- The identity of the floating window is none of the others and was given out.
  abbrev pub Apart : ℕ → List WindowId → Option (Window T) → Type 0
  Apart n xs none = Unit
  Apart n xs (some window) = (member window.id xs ≡ false) × (window.id < n)

  -- Identities are distinct and below the next one; the selected index is in range, or 0 where there
  -- is no window; the last window is one of the ordinary ones; the floating window is shown only
  -- where it exists and has a parent.
  pub record IsValid (w : Windows T) : Type 0 where
    pub distinct : Distinct (ids w.entries)
    pub given_out : (t : WindowId) → member t (ids w.entries) ≡ true → t < next_bound w.next_id
    pub apart : Apart (next_bound w.next_id) (ids w.entries) w.floating
    pub room : Room w.next_id
    pub in_range : w.active ≤ length w.entries - 1
    pub known : Known (ids w.entries) w.last_active
    pub shown : w.floating_visible ≡ true → (is_some w.floating ≡ true) × (0 < length w.entries)
