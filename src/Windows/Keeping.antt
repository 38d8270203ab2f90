-- ===== src/Windows/Keeping.antt =====
-- The methods of src/window.rs that create and select windows keep the invariant.
use rustmux.Base.{
  Bool, List, Option, arith, get_elem?, if_cases, length, none, not, some, suc, true, zero, ℕ, ◌&&◌,
  ◌-◌, ◌<◌, ◌==◌, ◌∷◌, ◌≡◌, ◌≤◌, [], false,
}
use rustmux.Windows.Store.{
  is_empty, id_of, is_some, Windows, Window, WindowId, CloseFocus, empty, set_close_focus,
  show_floating, hide_floating, activate,
}
use rustmux.Windows.Valid.{Known, ids, IsValid}

module _ {T : Type 0} where
  pub empty-IsValid : IsValid {T = T} empty
  unfolding empty
  empty-IsValid = record {
    distinct = tt;
    given_out = λ t m. absurd (cc);
    apart = tt;
    room = omega arith;
    in_range = omega arith;
    known = tt;
    shown = λ h. absurd (cc);
  }

  -- Focus may move to any window, with any ordinary window as the last one.
  pub refocus :
      (w : Windows T) (i : ℕ) (last : Option WindowId) (visible : Bool)
      → IsValid w
      → i ≤ length w.entries - 1
      → Known (ids w.entries) last
      → (visible ≡ true → (is_some w.floating ≡ true) × (0 < length w.entries))
      → IsValid (record w { active = i; last_active = last; floating_visible = visible })
  refocus w i last visible v small known shown = record {
    distinct = v.distinct;
    given_out = v.given_out;
    apart = v.apart;
    room = v.room;
    in_range = small;
    known = known;
    shown = shown;
  }

  pub hide_floating-IsValid : (w : Windows T) → IsValid w → IsValid (hide_floating w)
  unfolding hide_floating
  hide_floating-IsValid w v =
      refocus w w.active w.last_active false v v.in_range v.known (λ h. absurd (cc))

  pub set_close_focus-IsValid :
      (w : Windows T) (focus : CloseFocus) → IsValid w → IsValid (set_close_focus w focus)
  unfolding set_close_focus
  set_close_focus-IsValid w focus v = record {
    distinct = v.distinct;
    given_out = v.given_out;
    apart = v.apart;
    room = v.room;
    in_range = v.in_range;
    known = v.known;
    shown = v.shown;
  }

  pub show_floating-IsValid : (w : Windows T) → IsValid w → IsValid (show_floating w).0
  unfolding show_floating
  show_floating-IsValid w v =
      refocus w w.active w.last_active (is_some w.floating && not (is_empty w.entries)) v v.in_range
        v.known (shows w.floating w.entries)
    where
      shows :
          (f : Option (Window T)) (xs : List (Window T))
          → is_some f && not (is_empty xs) ≡ true
          → (is_some f ≡ true) × (0 < length xs)
      shows f [] h = absurd (ground arith)
      shows f (x ∷ xs) h = (ground arith, omega arith)

  -- The selected window, as a last window, is one of the ordinary ones.
  pub tiled-Known : (i : ℕ) (xs : List (Window T)) → Known (ids xs) (id_of (get_elem? xs i))
  tiled-Known i [] = tt
  tiled-Known zero (x ∷ xs) = ground arith
  tiled-Known (suc i) (x ∷ xs) = later (id_of (get_elem? xs i)) (tiled-Known i xs)
    where
      later : (o : Option WindowId) → Known (ids xs) o → Known (ids (x ∷ xs)) o
      later none k = tt
      later (some t) k = ground arith

  pub activate-IsValid :
      (w : Windows T) (i : ℕ) → IsValid w → i ≤ length w.entries - 1 → IsValid (activate w i)
  unfolding activate
  activate-IsValid w i v small =
      if_cases IsValid (i == w.active)
        (λ _. refocus w w.active w.last_active false v v.in_range v.known (λ h. absurd (cc)))
        λ _. refocus w i _ false v small (tiled-Known w.active w.entries) (λ h. absurd (cc))
