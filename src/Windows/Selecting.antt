-- ===== src/Windows/Selecting.antt =====
-- The methods of src/window.rs that select a window.
use rustmux.Base.{
  ◌≤◌, ==→≡, Bool-cases, ap, if_false, inl, inr, none, sym, ◌≢◌, Option, ap₂, arith, get_elem?,
  if_cases, if◌then◌else◌, length, refl, some, ℕ, ◌+◌, ◌-◌, ◌<◌, ◌==◌, ◌∙◌, ◌≡◌, false,
}
use mathlib.Core.Path.{subst}
use rustmux.Base.Result.{ok_or-eq-ok, ok_or, Ensures->>=, Result, ok, Ensures}
use rustmux.Windows.Store.{
  hide_floating, unknown_window, index, tiled_active, id_of, selected, is_empty, is_floating,
  Windows, Window, WindowId, WindowError, select, select_next, select_previous, select_last,
  activate,
}
use rustmux.Windows.Valid.{Known, ids, IsValid}
use rustmux.Windows.Keeping.{hide_floating-IsValid, show_floating-IsValid, activate-IsValid}
use rustmux.Windows.Lists.{
  not_empty, parent, index-get_elem?, index_found, index_small, get_elem?_total,
}

module _ {T : Type 0} where
  pub select-IsValid : (w : Windows T) (id : WindowId) → IsValid w → Ensures IsValid (select w id)
  unfolding select
  select-IsValid w id v =
      if_cases (λ (r : Result WindowError (Windows T)). Ensures IsValid r) (is_floating w id)
        (λ _. show_floating-IsValid w v)
        λ _. Ensures->>= IsValid (ok_or (index id w.entries) unknown_window) _ λ i h.
          activate-IsValid w i v (omega (arith, index_small id w.entries i (ok_or-eq-ok _ _ h)))

  -- The index that `select_next` and `select_previous` choose.
  abbrev next_index : Windows T → ℕ
  next_index w = if w.active + 1 == length w.entries then 0 else w.active + 1

  abbrev previous_index : Windows T → ℕ
  previous_index w = if w.active == 0 then length w.entries - 1 else w.active - 1

  active-activate : (w : Windows T) (i : ℕ) → (activate w i).active ≡ i
  unfolding activate
  active-activate w i = elim (Bool-cases (i == w.active)) [
    | inl same ↦ rw same (sym (==→≡ i w.active same))
    | inr other ↦ rw other
  ]

  entries-activate : (w : Windows T) (i : ℕ) → (activate w i).entries ≡ w.entries
  unfolding activate
  entries-activate w i =
      if_cases (λ (u : Windows T). u.entries ≡ w.entries) (i == w.active) (λ _. refl) (λ _. refl)

  selected-IsValid :
      (w : Windows T)
      → IsValid w
      → Ensures (λ (out : Windows T × Option WindowId). IsValid out.0) (selected w)
  selected-IsValid w v = at_active (tiled_active w) refl
    where
      at_active :
          (o : Option (Window T))
          → tiled_active w ≡ o
          → Ensures (λ (out : Windows T × Option WindowId). IsValid out.0) (selected w)
      at_active none e = rw (e, selected) tt
      at_active (some x) e = rw (e, selected) v

  selected_lem :
      (w : Windows T) (x : Window T) → tiled_active w ≡ some x → selected w ≡ ok (w, some x.id)
  selected_lem w x e = rw (e, selected)

  -- What selecting index `i` of a collection with a window returns.
  selected_at :
      (w : Windows T) (i : ℕ)
      → i < length w.entries
      → (x : Window T) × (get_elem? w.entries i ≡ some x)
        × ((if is_empty w.entries then ok (w, none) else selected (activate w i))
            ≡ ok (activate w i, some x.id))
  selected_at w i small =
      let (x, at) = get_elem?_total i w.entries small in
      let found = ap₂ get_elem? (entries-activate w i) (active-activate w i) ∙ at in
      (
        x,
        at,
        if_false _ _ (not_empty w.entries (omega arith)) ∙ selected_lem (activate w i) x found,
      )

  stepped :
      (w : Windows T) (i : ℕ)
      → IsValid w
      → (0 < length w.entries → i ≤ length w.entries - 1)
      → Ensures
          (λ (out : Windows T × Option WindowId). IsValid out.0)
          (if is_empty w.entries then ok (w, none) else selected (activate w i))
  stepped w i v small =
      if_cases
        (λ (r : Result WindowError (Windows T × Option WindowId)).
          Ensures (λ (out : Windows T × Option WindowId). IsValid out.0) r)
        (is_empty w.entries) (λ _. v)
        λ some_window.
          selected-IsValid (activate w i)
            (activate-IsValid w i v (small (parent w.entries some_window)))

  -- In a valid collection with a window, `select_next` followed by `select_previous` selects the
  -- window that was selected, and the entries stay as they are; neither call panics.
  pub select_previous-select_next :
      (w : Windows T)
      → IsValid w
      → 0 < length w.entries
      → (out back : Windows T × Option WindowId) × (select_next w ≡ ok out)
        × (select_previous out.0 ≡ ok back)
        × (back.0.entries ≡ w.entries)
        × (back.0.active ≡ w.active)
        × (back.1 ≡ id_of (tiled_active w))
  unfolding select_next select_previous
  select_previous-select_next w v some_window =
      let n = next_index w in
      let n_small : n < length w.entries = ground (arith, v.in_range) in
      let (x, at, e) = selected_at w n n_small in
      let w' = activate w n in
      let same = entries-activate w n in
      let moved = active-activate w n in
      let back_to : previous_index w' ≡ w.active = rw (moved, same) (ground (arith, v.in_range)) in
      let (y, at', e') =
        selected_at w' (previous_index w') (rw (back_to, same) (omega (arith, v.in_range))) in
      (
        (w', some x.id),
        (activate w' (previous_index w'), some y.id),
        e,
        e',
        entries-activate w' (previous_index w') ∙ same,
        active-activate w' (previous_index w') ∙ back_to,
        ap id_of (sym at' ∙ ap₂ get_elem? same back_to),
      )

  select_last_to :
      (w : Windows T) (t : WindowId) (i : ℕ)
      → w.last_active ≡ some t
      → index t w.entries ≡ some i
      → (i == w.active) ≡ false
      → select_last w ≡ (
        record w { floating_visible = false; last_active = id_of (tiled_active w); active = i },
        some t,
      )
  unfolding select_last activate
  select_last_to w t i e found other = rw (e, select_last) (rw (found, select_last) (rw other))

  apart_index :
      (w : Windows T) (i : ℕ) (x : Window T)
      → get_elem? w.entries i ≡ some x
      → id_of (tiled_active w) ≢ some x.id
      → (i == w.active) ≡ false
  apart_index w i x at other = elim (Bool-cases (i == w.active)) [
    | inl same ↦
        absurd (
          other
            (ap (λ k. id_of (get_elem? w.entries k)) (sym (==→≡ i w.active same)) ∙ ap id_of at))
    | inr apart ↦ apart
  ]

  -- In a valid collection where the last window is not the selected one, `select_last` selects it, and
  -- a second call comes back: the collection is as it was, with the floating window hidden.
  pub select_last-select_last :
      (w : Windows T) (t : WindowId)
      → IsValid w
      → w.last_active ≡ some t
      → id_of (tiled_active w) ≢ some t
      → (out : Windows T) × (select_last w ≡ (out, some t))
        × (id_of (tiled_active out) ≡ some t)
        × (select_last out ≡ (record w { floating_visible = false }, id_of (tiled_active w)))
  unfolding select_last activate
  select_last-select_last w t v e other =
      let (i, x, found, at, same, small) =
        index_found t w.entries (subst (Known (ids w.entries)) e v.known) in
      let apart : (i == w.active) ≡ false = apart_index w i x at (λ h. other (h ∙ ap some same)) in
      let (y, here) = get_elem?_total w.active w.entries (omega (arith, v.in_range)) in
      let out : Windows T = record w {
        floating_visible = false;
        last_active = id_of (tiled_active w);
        active = i;
      } in
      let last = ap id_of here in
      (
        out,
        select_last_to w t i e found apart,
        ap id_of at ∙ ap some same,
        select_last_to out y.id w.active last (index-get_elem? w.active y w.entries v.distinct here)
              (ground arith)
            ∙ ap₂
                (λ (l o : Option WindowId).
                  let u : Windows T = record w { floating_visible = false; last_active = l } in
                  (u, o))
                (ap id_of at ∙ ap some same ∙ sym e) (sym last),
      )

  pub select_next-IsValid :
      (w : Windows T)
      → IsValid w
      → Ensures (λ (out : Windows T × Option WindowId). IsValid out.0) (select_next w)
  unfolding select_next
  select_next-IsValid w v = stepped w (next_index w) v (λ p. ground (arith, v.in_range))

  pub select_previous-IsValid :
      (w : Windows T)
      → IsValid w
      → Ensures (λ (out : Windows T × Option WindowId). IsValid out.0) (select_previous w)
  unfolding select_previous
  select_previous-IsValid w v = stepped w (previous_index w) v (λ p. ground (arith, v.in_range))

  pub select_last-IsValid : (w : Windows T) → IsValid w → IsValid (select_last w).0
  unfolding select_last hide_floating
  select_last-IsValid w v = found w.last_active refl
    where
      hidden : Windows T
      hidden = record w { floating_visible = false }

      at_index :
          (o : Option ℕ) (t : WindowId)
          → index t w.entries ≡ o
          → w.last_active ≡ some t
          → IsValid (select_last w).0
      at_index none t e l = rw (l, select_last) (rw (e, select_last) (hide_floating-IsValid w v))
      at_index (some i) t e l =
          rw (l, select_last)
            (rw (e, select_last)
              (activate-IsValid hidden i (hide_floating-IsValid w v)
                (omega (arith, index_small t w.entries i e))))

      found : (o : Option WindowId) → w.last_active ≡ o → IsValid (select_last w).0
      found none e = rw (e, select_last) (hide_floating-IsValid w v)
      found (some t) e = at_index (index t w.entries) t refl e
