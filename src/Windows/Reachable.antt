-- ===== src/Windows/Reachable.antt =====
-- Every collection that the methods of src/window.rs build is valid.
use rustmux.Base.{
  Bool-cases, ap, if_cases, if◌then◌else◌, inl, inr, leb, none, some, sym, ◌==◌, ◌∙◌, Bool, List,
  Option, arith, length, refl, ℕ, ◌∷◌, ◌≡◌, [], false,
}
use mathlib.Core.Path.{subst}
use rustmux.Base.Members.{Distinct, member}
use rustmux.Base.Result.{ok_or-eq-ok, ok_or, Ensures->>=, Result, ok, err, Ensures, of_ensures}
use rustmux.Windows.Store.{
  panic, active_window, index, is_some, unknown_window, is_floating, Windows, Window, WindowId,
  WindowError, CloseFocus, empty, create, create_after_active, create_floating, select, select_next,
  select_previous, select_last, set_close_focus, show_floating, hide_floating,
}
use rustmux.Windows.Order.{reordered, rename_entry, close, move_window, rename}
use rustmux.Windows.Closing.{close_removes}
use rustmux.Windows.Moving.{moved-IsValid}
use rustmux.Windows.Valid.{Known, next_bound, Apart, ids, IsValid}
use rustmux.Windows.Keeping.{
  hide_floating-IsValid, show_floating-IsValid, empty-IsValid, set_close_focus-IsValid,
}
use rustmux.Windows.Inserting.{create_floating-IsValid, create_after_active-IsValid, create-IsValid}
use rustmux.Windows.Moving.{moved-IsValid}
use rustmux.Windows.Selecting.{
  select-IsValid, select_last-IsValid, select_previous-IsValid, select_next-IsValid,
}
use rustmux.Windows.Lists.{index_absent, index_small}

-- One call of a method that succeeds.
pub data Step {T : Type 0} : Windows T → Windows T → Type 0 where
  policy : (w : Windows T) (side : CloseFocus) → Step w (set_close_focus w side)
  append :
      {w w' : Windows T} {id : WindowId} (name : List ℕ) (content : T)
      → create w name content ≡ ok (w', id)
      → Step w w'
  append_after :
      {w w' : Windows T} {id : WindowId} (name : List ℕ) (content : T)
      → create_after_active w name content ≡ ok (w', id)
      → Step w w'
  float :
      {w w' : Windows T} {id : WindowId} (name : List ℕ) (content : T)
      → create_floating w name content ≡ ok (w', id)
      → Step w w'
  show : (w : Windows T) → Step w (show_floating w).0
  hide : (w : Windows T) → Step w (hide_floating w)
  focus : {w w' : Windows T} (id : WindowId) → select w id ≡ ok w' → Step w w'
  forward : {w w' : Windows T} {t : Option WindowId} → select_next w ≡ ok (w', t) → Step w w'
  backward : {w w' : Windows T} {t : Option WindowId} → select_previous w ≡ ok (w', t) → Step w w'
  last : (w : Windows T) → Step w (select_last w).0
  move :
      {w w' : Windows T} {moved : Bool} (id : WindowId) (right : Bool)
      → move_window w id right ≡ ok (w', moved)
      → Step w w'
  entitle :
      {w w' : Windows T} (id : WindowId) (name : List ℕ) → rename w id name ≡ ok w' → Step w w'
  drop : {w w' : Windows T} {x : Window T} (id : WindowId) → close w id ≡ ok (w', x) → Step w w'

pub data Grown {T : Type 0} : Windows T → Type 0 where
  start : {w : Windows T} → w ≡ empty → Grown w
  next : {w w' : Windows T} → Grown w → Step w w' → Grown w'

module _ {T : Type 0} where
  ids-rename_entry :
      (id : WindowId) (name : List ℕ) (xs : List (Window T))
      → ids (rename_entry id name xs) ≡ ids xs
  ids-rename_entry id name [] = refl
  ids-rename_entry id name (x ∷ xs) = ground (arith, ids-rename_entry id name xs)

  length-rename_entry :
      (id : WindowId) (name : List ℕ) (xs : List (Window T))
      → length (rename_entry id name xs) ≡ length xs
  length-rename_entry id name [] = refl
  length-rename_entry id name (x ∷ xs) = ground (arith, length-rename_entry id name xs)

  abbrev FirstValid {κ} : {B : Type κ} → Windows T × B → Type 0
  FirstValid out = IsValid out.0

  -- Entries of the same identities may stand in for one another.
  relabel :
      (w : Windows T) (xs : List (Window T))
      → ids xs ≡ ids w.entries
      → length xs ≡ length w.entries
      → IsValid w
      → IsValid (record w { entries = xs })
  relabel w xs same len v = record {
    distinct = subst Distinct (sym same) v.distinct;
    given_out = λ t m. v.given_out t (sym (ap (member t) same) ∙ m);
    apart = subst (λ l. Apart (next_bound w.next_id) l w.floating) (sym same) v.apart;
    room = v.room;
    in_range = omega (arith, len, v.in_range);
    known = subst (λ l. Known l w.last_active) (sym same) v.known;
    shown = λ h. ((v.shown h).0, omega (arith, len, (v.shown h).1));
  }

  rename-IsValid :
      (w : Windows T) (id : WindowId) (name : List ℕ)
      → IsValid w
      → Ensures IsValid (rename w id name)
  unfolding rename
  rename-IsValid w id name v =
      if_cases (λ (r : Result WindowError (Windows T)). Ensures IsValid r)
        (is_some (index id w.entries))
        (λ _.
          relabel w _ (ids-rename_entry id name w.entries) (length-rename_entry id name w.entries)
            v)
        (λ _. floating_entry w.floating v.apart)
    where
      floating_entry :
          (f : Option (Window T))
          → Apart (next_bound w.next_id) (ids w.entries) f
          → Ensures IsValid (elim f [
            | none ↦ err unknown_window
            | some window ↦
                if window.id == id
                then ok (record w { floating = some (record window { name = name }) })
                else err unknown_window
          ])
      floating_entry none a = tt
      floating_entry (some f) a =
          if_cases (λ (r : Result WindowError (Windows T)). Ensures IsValid r) (f.id == id)
            (λ _.
              let valid : IsValid (record w { floating = some (record f { name = name }) }) =
                record {
                  distinct = v.distinct;
                  given_out = v.given_out;
                  apart = a;
                  room = v.room;
                  in_range = v.in_range;
                  known = v.known;
                  shown = λ h. (refl, (v.shown h).1);
                } in
              valid)
            (λ _. tt)

  move_window-IsValid :
      (w : Windows T) (id : WindowId) (right : Bool)
      → IsValid w
      → Ensures (λ (out : Windows T × Bool). IsValid out.0) (move_window w id right)
  unfolding move_window
  move_window-IsValid w id right v =
      let P = λ (out : Windows T × Bool). IsValid out.0 in
      let Good = λ (r : Result WindowError (Windows T × Bool)). Ensures P r in
      if_cases Good (is_floating w id) (λ _. v)
        λ _. Ensures->>= P (ok_or (index id w.entries) unknown_window) _ λ i h.
          if_cases Good (leb (length w.entries) 1) (λ _. v)
            λ _. Ensures->>= P (ok_or (active_window w) panic) _ λ a _.
              let moved = reordered i right w.entries in
              Ensures->>= P (ok_or (index a.id moved) panic) _ λ j at.
                moved-IsValid w i j right v (index_small a.id moved j (ok_or-eq-ok _ panic at))

  close-IsValid :
      (w : Windows T) (id : WindowId)
      → IsValid w
      → Ensures (λ (out : Windows T × Window T). IsValid out.0) (close w id)
  unfolding close
  close-IsValid w id v = elim (Bool-cases (member id (ids w.entries))) [
    | inl m ↦
        let (i, out, found, at, e, left_over, neighbour, valid) = close_removes w id v m in
        subst (Ensures P) (sym e) valid
    | inr m ↦
        if_cases (λ (r : Result WindowError (Windows T × Window T)). Ensures P r) (is_floating w id)
          (λ _. Ensures->>= P (ok_or w.floating panic) _ (λ f _. alone))
          (λ _. rw (index_absent id w.entries m) tt)
  ]
    where
      P : Windows T × Window T → Type 0
      P out = IsValid out.0

      alone : IsValid (record w { floating = none; floating_visible = false })
      alone = record {
        distinct = v.distinct;
        given_out = v.given_out;
        apart = tt;
        room = v.room;
        in_range = v.in_range;
        known = v.known;
        shown = λ h. absurd (cc);
      }

  Step-IsValid : {w w' : Windows T} → Step w w' → IsValid w → IsValid w'
  Step-IsValid (policy w side) v = set_close_focus-IsValid w side v
  Step-IsValid (append {w} name content e) v =
      of_ensures FirstValid _ (create-IsValid w name content v) e
  Step-IsValid (append_after {w} name content e) v =
      of_ensures FirstValid _ (create_after_active-IsValid w name content v) e
  Step-IsValid (float {w} name content e) v =
      of_ensures FirstValid _ (create_floating-IsValid w name content v) e
  Step-IsValid (show w) v = show_floating-IsValid w v
  Step-IsValid (hide w) v = hide_floating-IsValid w v
  Step-IsValid (focus {w} id e) v = of_ensures IsValid _ (select-IsValid w id v) e
  Step-IsValid (forward {w} e) v = of_ensures FirstValid _ (select_next-IsValid w v) e
  Step-IsValid (backward {w} e) v = of_ensures FirstValid _ (select_previous-IsValid w v) e
  Step-IsValid (last w) v = select_last-IsValid w v
  Step-IsValid (move {w} id right e) v =
      of_ensures FirstValid _ (move_window-IsValid w id right v) e
  Step-IsValid (entitle {w} id name e) v = of_ensures IsValid _ (rename-IsValid w id name v) e
  Step-IsValid (drop {w} id e) v = of_ensures FirstValid _ (close-IsValid w id v) e

  -- Every collection that an empty one becomes by calls that succeed is valid: identities are distinct
  -- and were given out, the selected index is in range, the last window is an ordinary one, and the
  -- floating window is shown only where it exists and there is an ordinary window.
  pub Grown-IsValid : {w : Windows T} → Grown w → IsValid w
  Grown-IsValid (start e) = subst IsValid (sym e) empty-IsValid
  Grown-IsValid (next r s) = Step-IsValid s (Grown-IsValid r)
