-- ===== src/Windows/Inserting.antt =====
-- New windows of src/window.rs: `insert`, `create`, `create_after_active` and `create_floating`.
use rustmux.Base.{
  refl, if◌then◌else◌, ltb, Bool-cases, ap, inl, inr, leb, sym, ◌+◌, ◌^◌, ◌||◌, ◌∙◌, List, Option,
  arith, if_cases, length, none, some, true, ℕ, ◌-◌, ◌<◌, ◌==◌, ◌∷◌, ◌≡◌, ◌≤◌, [], false,
}
use mathlib.Core.Path.{subst}
use rustmux.Base.Members.{member}
use rustmux.Base.Counting.{member-SameCounts, Distinct-SameCounts, SameCounts}
use rustmux.Base.Result.{Ensures-fail_if, ok_or-eq-ok, fail_if, ok_or, Ensures->>=, Ensures}
use rustmux.Windows.Store.{
  floating_refused, ids_exhausted, checked_next, insert_at, tiled_active, is_empty, id_of, is_some,
  Windows, Window, WindowId, create, create_after_active, create_floating, insert, panic,
}
use rustmux.Windows.Valid.{Apart, Room, next_bound, Known, ids, IsValid}
use rustmux.Windows.Lists.{parent, length-insert_at, count-insert_at}
use rustmux.Windows.Keeping.{tiled-Known}

next_bound-checked_next : (value : ℕ) → value < 2 ^ 64 → next_bound (checked_next value) ≡ value + 1
next_bound-checked_next value h = ground arith

checked_next-Room : (value : ℕ) → Room (checked_next value)
checked_next-Room value = if_cases Room (leb (2 ^ 64) (value + 1)) (λ _. tt) (λ h. ground arith)

Known-more :
    (xs ys : List WindowId) (o : Option WindowId)
    → ((t : WindowId) → member t ys ≡ true → member t xs ≡ true)
    → Known ys o
    → Known xs o
Known-more xs ys none more k = tt
Known-more xs ys (some t) more k = more t k

module _ {T : Type 0} where
  -- What a valid collection says of the next identity.
  module _ (w : Windows T) (value : ℕ) (v : IsValid w) (e : w.next_id ≡ some value) where
    pub next-small : value < 2 ^ 64
    next-small = subst Room e v.room

    next-bound : next_bound (checked_next value) ≡ next_bound w.next_id + 1
    next-bound = next_bound-checked_next value next-small ∙ ap (λ b. b + 1) (sym (ap next_bound e))

    next_unused : member value (ids w.entries) ≡ false
    next_unused = elim (Bool-cases (member value (ids w.entries))) [
      | inl used ↦ absurd (omega (arith, v.given_out value used, ap next_bound e))
      | inr unused ↦ unused
    ]

    next-Apart :
        (xs : List WindowId) (f : Option (Window T))
        → ((t : WindowId) → member t xs ≡ (value == t || member t (ids w.entries)))
        → Apart (next_bound w.next_id) (ids w.entries) f
        → Apart (next_bound (checked_next value)) xs f
    next-Apart xs none new a = tt
    next-Apart xs (some f) new (unused, below) =
        (ground (arith, new f.id, ap next_bound e), omega (arith, next-bound))

  module _ (w : Windows T) (i value : ℕ) (name : List ℕ) (content : T) where
    new_window : Window T
    new_window = record { id = value; name = name; content = content }

    abbrev inserted : Windows T
    inserted = record w {
      floating_visible = false;
      last_active = id_of (tiled_active w);
      entries = insert_at i (record { id = value; name = name; content = content }) w.entries;
      next_id = checked_next value;
      active = i;
    }

    inserted-IsValid : IsValid w → w.next_id ≡ some value → i ≤ length w.entries → IsValid inserted
    inserted-IsValid v e small = record {
      distinct =
          Distinct-SameCounts _ (value ∷ ids w.entries) same (next_unused w value v e, v.distinct);
      given_out =
          λ t m. ground (arith, next-bound w value v e, members t, v.given_out t, ap next_bound e);
      apart = next-Apart w value v e _ w.floating members v.apart;
      room = checked_next-Room value;
      in_range = omega (arith, length-insert_at i _ w.entries);
      known =
          Known-more _ (ids w.entries) _ (λ t m. ground (arith, members t))
            (tiled-Known w.active w.entries);
      shown = λ h. absurd (cc);
    }
      where
        same : SameCounts (ids inserted.entries) (value ∷ ids w.entries)
        same t = count-insert_at t i _ w.entries

        members :
            (t : ℕ) → member t (ids inserted.entries) ≡ (value == t || member t (ids w.entries))
        members t = member-SameCounts _ (value ∷ ids w.entries) same t

  pub insert-IsValid :
      (w : Windows T) (i : ℕ) (name : List ℕ) (content : T)
      → IsValid w
      → i ≤ length w.entries
      → Ensures (λ (out : Windows T × WindowId). IsValid out.0) (insert w i name content)
  unfolding insert
  insert-IsValid w i name content v small =
      let P = λ (out : Windows T × WindowId). IsValid out.0 in
      Ensures->>= P (ok_or w.next_id ids_exhausted) _ λ value h.
        Ensures->>= P (fail_if (ltb (length w.entries) i) panic) _
          λ _ _. inserted-IsValid w i value name content v (ok_or-eq-ok _ _ h) small

  pub create-IsValid :
      (w : Windows T) (name : List ℕ) (content : T)
      → IsValid w
      → Ensures (λ (out : Windows T × WindowId). IsValid out.0) (create w name content)
  unfolding create
  create-IsValid w name content v = insert-IsValid w (length w.entries) name content v (omega arith)

  after_active :
      (xs : List (Window T)) (active : ℕ)
      → active ≤ length xs - 1
      → (if is_empty xs then 0 else active + 1) ≤ length xs
  after_active [] active h = omega arith
  after_active (x ∷ xs) active h = omega arith

  pub create_after_active-IsValid :
      (w : Windows T) (name : List ℕ) (content : T)
      → IsValid w
      → Ensures (λ (out : Windows T × WindowId). IsValid out.0) (create_after_active w name content)
  unfolding create_after_active
  create_after_active-IsValid w name content v =
      insert-IsValid w _ name content v (after_active w.entries w.active v.in_range)

  pub create_floating-IsValid :
      (w : Windows T) (name : List ℕ) (content : T)
      → IsValid w
      → Ensures (λ (out : Windows T × WindowId). IsValid out.0) (create_floating w name content)
  unfolding create_floating
  create_floating-IsValid w name content v =
      let P = λ (out : Windows T × WindowId). IsValid out.0 in
      Ensures-fail_if P (is_some w.floating || is_empty w.entries) floating_refused _ λ free.
        Ensures->>= P (ok_or w.next_id ids_exhausted) _ λ value h.
          let e = ok_or-eq-ok w.next_id ids_exhausted h in
          record {
            distinct = v.distinct;
            given_out = λ t m. omega (arith, next-bound w value v e, v.given_out t m);
            apart =
                (next_unused w value v e, omega (arith, next-bound w value v e, ap next_bound e));
            room = checked_next-Room value;
            in_range = v.in_range;
            known = v.known;
            shown = λ _. (refl, parent w.entries (ground arith));
          }
