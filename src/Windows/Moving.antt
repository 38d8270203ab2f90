-- ===== src/Windows/Moving.antt =====
-- `Windows::move_window` of src/window.rs: every outcome.
use rustmux.Base.{
  get_elem?, ◌≤◌, Bool, Bool-cases, List, Option, ap, arith, inl, inr, leb, length, ltb, none, refl,
  some, sym, true, ℕ, ◌<◌, ◌∙◌, ◌≡◌, false,
}
use mathlib.Core.Path.{subst}
use rustmux.Base.Members.{member}
use rustmux.Base.Result.{ok, err}
use rustmux.Windows.Store.{
  index, has_id, tiled_active, id_of, is_some, is_floating, Windows, Window, WindowId, panic,
}
use rustmux.Windows.Order.{reordered, move_window}
use rustmux.Windows.Valid.{Known, next_bound, Apart, ids, IsValid}
use rustmux.Base.Counting.{Distinct-SameCounts, member-SameCounts, SameCounts}
use rustmux.Windows.Lists.{
  length-reordered, get_elem?-member, index_absent, get_elem?_total, index_found,
  reordered-SameCounts,
}
use rustmux.Windows.Places.{get_elem?-reordered, place_before}

pub is_some_value {ℓ} : {A : Type ℓ} (o : Option A) → is_some o ≡ true → (a : A) × (o ≡ some a)
is_some_value none h = absurd (cc)
is_some_value (some a) h = (a, refl)

-- A lone window stays where it is.
lone_place : (i : ℕ) (right : Bool) (n k : ℕ) → i < n → n ≤ 1 → k ≡ place_before i right n k
lone_place i right n k p q = ground arith

module _ {T : Type 0} where
  -- The same windows in another order, with the focus on any of them.
  pub moved-IsValid :
      (w : Windows T) (i j : ℕ) (right : Bool)
      → IsValid w
      → j < length (reordered i right w.entries)
      → IsValid (record w { entries = reordered i right w.entries; active = j })
  moved-IsValid w i j right v small = record {
    distinct = Distinct-SameCounts _ (ids w.entries) same v.distinct;
    given_out = λ t m. v.given_out t (sym (members t) ∙ m);
    apart = still_apart w.floating v.apart;
    room = v.room;
    in_range = omega (arith, length-reordered i right w.entries);
    known = still_known w.last_active v.known;
    shown = λ h. ((v.shown h).0, omega (arith, length-reordered i right w.entries, (v.shown h).1));
  }
    where
      moved : List (Window T)
      moved = reordered i right w.entries

      same : SameCounts (ids moved) (ids w.entries)
      same = reordered-SameCounts i right w.entries

      members : (t : ℕ) → member t (ids moved) ≡ member t (ids w.entries)
      members = member-SameCounts (ids moved) (ids w.entries) same

      still_apart :
          (f : Option (Window T))
          → Apart (next_bound w.next_id) (ids w.entries) f
          → Apart (next_bound w.next_id) (ids moved) f
      still_apart none a = tt
      still_apart (some f) (unused, below) = (members f.id ∙ unused, below)

      still_known : (o : Option WindowId) → Known (ids w.entries) o → Known (ids moved) o
      still_known none k = tt
      still_known (some t) k = members t ∙ k

  pub floats :
      (w : Windows T) (id : WindowId)
      → IsValid w
      → member id (ids w.entries) ≡ true
      → is_floating w id ≡ false
  floats w id v m = none_of w.floating v.apart
    where
      none_of :
          (f : Option (Window T))
          → Apart (next_bound w.next_id) (ids w.entries) f
          → has_id id f ≡ false
      none_of none a = refl
      none_of (some f) (unused, below) = ground arith

  -- An ordinary window of a valid collection moves while the floating window is hidden: the call
  -- returns without a panic and changes the order and the selected index alone. The window changes
  -- places with its neighbour on the side asked for, or at the end all windows turn by one, as
  -- `place_before` says for each place; the result is valid and holds the same identities as often,
  -- and the selected window is the one that was selected. It reports `false` exactly for a lone
  -- window.
  pub move_window_total :
      (w : Windows T) (id : WindowId) (right : Bool)
      → IsValid w
      → w.floating_visible ≡ false
      → member id (ids w.entries) ≡ true
      → (i : ℕ) × (out : Windows T × Bool) × (index id w.entries ≡ some i)
        × (move_window w id right ≡ ok out)
        × (out.0 ≡ record w { entries = out.0.entries; active = out.0.active })
        × ((k : ℕ)
            → get_elem? out.0.entries k
              ≡ get_elem? w.entries (place_before i right (length w.entries) k))
        × IsValid out.0
        × SameCounts (ids out.0.entries) (ids w.entries)
        × (id_of (tiled_active out.0) ≡ id_of (tiled_active w))
        × (out.1 ≡ ltb 1 (length w.entries))
  unfolding move_window
  move_window_total w id right v hidden m =
      let (i, x, found, at, same, small) = index_found id w.entries m in
      let ordinary = floats w id v m in
      elim (Bool-cases (leb (length w.entries) 1)) [
        | inl lone ↦ (
          i,
          (w, false),
          found,
          rw (ordinary, found, lone),
          refl,
          λ k.
              ap (get_elem? w.entries)
                (lone_place i right (length w.entries) k small (ground (arith, lone))),
          v,
          λ t. refl,
          refl,
          ground arith,
        )
        | inr many ↦
            let (a, active) = get_elem?_total w.active w.entries (omega (arith, v.in_range)) in
            let moved = reordered i right w.entries in
            let members =
              member-SameCounts (ids moved) (ids w.entries)
                (reordered-SameCounts i right w.entries) in
            let (j, y, found', at', same', small') =
              index_found a.id moved
                (members a.id ∙ get_elem?-member w.active a w.entries active) in
            (
              i,
              (record w { entries = moved; active = j }, true),
              found,
              rw (ordinary, found, many, hidden, active, found'),
              refl,
              λ k. get_elem?-reordered i right w.entries k small,
              moved-IsValid w i j right v small',
              reordered-SameCounts i right w.entries,
              ap id_of at' ∙ ap some same' ∙ sym (ap id_of active),
              ground arith,
            )
      ]

  -- While the floating window is shown, moving an ordinary window of a collection with two or more
  -- of them panics: the floating window is looked up among the ordinary ones.
  pub move_window_panics :
      (w : Windows T) (id : WindowId) (right : Bool)
      → IsValid w
      → w.floating_visible ≡ true
      → member id (ids w.entries) ≡ true
      → 1 < length w.entries
      → move_window w id right ≡ err panic
  unfolding move_window
  move_window_panics w id right v visible m many =
      let (i, x, found, at, same, small) = index_found id w.entries m in
      let ordinary = floats w id v m in
      let (f, shown) = is_some_value w.floating (v.shown visible).0 in
      let several : leb (length w.entries) 1 ≡ false = ground arith in
      let members = member-SameCounts _ (ids w.entries) (reordered-SameCounts i right w.entries) in
      let lost =
        index_absent f.id (reordered i right w.entries)
          (members f.id ∙ (subst (Apart _ _) shown v.apart).0) in
      rw (ordinary, found, several, visible, shown, lost)
