-- ===== src/Windows/History.antt =====
-- The last window that `Windows::close` of src/window.rs remembers.
use rustmux.Base.{
  ==→≡, Bool, Bool-cases, ap₂, if_false, inl, inr, some-injective, ◌≢◌, ◌⊎◌, sym, true, List,
  Option, none, ap, arith, get_elem?, if_cases, if◌then◌else◌, length, refl, some, ℕ, ◌<◌, ◌==◌,
  ◌||◌, ◌∙◌, ◌≡◌, false,
}
use mathlib.Core.Path.{subst}
use rustmux.Base.Members.{member}
use rustmux.Base.Result.{ok-injective, ok}
use rustmux.Windows.Store.{
  active_window, id_of, same_id, index, tiled_active, remove_at, Windows, Window, WindowId,
}
use rustmux.Windows.Order.{close, forget}
use rustmux.Windows.Valid.{next_bound, Apart, Known, ids, IsValid}
use rustmux.Windows.Lists.{
  index-member, not_empty, get_elem?_total, index_small, index_found, length-remove_at,
}
use rustmux.Windows.Moving.{is_some_value, floats}
use rustmux.Windows.Closing.{heir_index, tiled-unfocused, unfocused, close_at}

apart_members :
    (a b : ℕ) (xs : List ℕ) → member a xs ≡ true → member b xs ≡ false → (a == b) ≡ false
apart_members a b xs m n = elim (Bool-cases (a == b)) [
  | inl same ↦ absurd (cc (==→≡ a b same))
  | inr apart ↦ apart
]

both_false : {a b : Bool} → a ≡ false → b ≡ false → a || b ≡ false
both_false h k = rw (h, k)

module _ {T : Type 0} where
  -- The history names no window, or one that is neither closed nor selected.
  abbrev pub Forgot : WindowId → Windows T → Type 0
  Forgot id w =
      (w.last_active ≡ none)
      ⊎ ((w.last_active ≢ some id) × (w.last_active ≢ id_of (tiled_active w)))

  forget-Forgot :
      (id : WindowId) (w : Windows T) → w.floating_visible ≡ false → Forgot id (forget id w)
  forget-Forgot id w hidden =
      if_cases (Forgot id)
        (same_id w.last_active (some id) || same_id w.last_active (id_of (active_window w)))
        (λ _. inl refl) λ apart. neither w.last_active refl apart
    where
      visible_window : active_window w ≡ tiled_active w
      visible_window = rw hidden

      apart_ids : (a b : Option WindowId) → same_id a b ≡ false → a ≢ b
      apart_ids none none h e = absurd (cc)
      apart_ids none (some b) h e = cc
      apart_ids (some a) none h e = cc
      apart_ids (some a) (some b) h e = ground (arith, some-injective e)

      neither :
          (last : Option WindowId)
          → w.last_active ≡ last
          → same_id w.last_active (some id) || same_id w.last_active (id_of (active_window w))
            ≡ false
          → Forgot id w
      neither none e apart = inl e
      neither (some t) e apart = inr (
        apart_ids w.last_active (some id) (ground arith),
        apart_ids w.last_active (id_of (tiled_active w))
            (ap (λ o. same_id w.last_active (id_of o)) (sym visible_window) ∙ ground arith),
      )

  -- With the floating window hidden, `close` leaves no stale history.
  pub close-Forgot :
      (w : Windows T) (id : WindowId) {out : Windows T × Window T}
      → IsValid w
      → w.floating_visible ≡ false
      → member id (ids w.entries) ≡ true
      → close w id ≡ ok out
      → Forgot id out.0
  close-Forgot w id {out} v hidden m e =
      let (i, x, found, at, same, small) = index_found id w.entries m in
      let closed = close_at w id i x (floats w id v m) found at in
      subst (λ (o : Windows T × Window T). Forgot id o.0) (ok-injective (sym closed ∙ e))
        (forget-Forgot id (unfocused w i) (rw hidden))

  -- With the floating window shown it can: when the last window `t` is the one that gets the focus,
  -- `close` leaves a history that names the selected window, since it compares the history with the
  -- floating window.
  pub close_stale :
      (w : Windows T) (id t : WindowId) (i : ℕ)
      → IsValid w
      → w.floating_visible ≡ true
      → 1 < length w.entries
      → index id w.entries ≡ some i
      → w.last_active ≡ some t
      → t ≢ id
      → id_of (
          get_elem? w.entries
            (if i == w.active then heir_index w.close_focus i (length w.entries) else w.active))
        ≡ some t
      → (out : Windows T × Window T) × (close w id ≡ ok out)
        × (out.0.last_active ≡ some t)
        × (id_of (tiled_active out.0) ≡ some t)
  close_stale w id t i v visible many found last other focus =
      let small = index_small id w.entries i found in
      let (x, at) = get_elem?_total i w.entries small in
      let (f, shown) = is_some_value w.floating (v.shown visible).0 in
      let known = subst (Known (ids w.entries)) last v.known in
      let unused = (subst (Apart (next_bound w.next_id) (ids w.entries)) shown v.apart).0 in
      let len = length-remove_at i w.entries small in
      let others_left = not_empty (remove_at i w.entries) (omega arith) in
      let covers : active_window (unfocused w i) ≡ some f = rw (visible, others_left) shown in
      let open_id : same_id w.last_active (some id) ≡ false =
        ap (λ o. same_id o (some id)) last ∙ ground arith in
      let unlike : (t == f.id) ≡ false = apart_members t f.id (ids w.entries) known unused in
      let open_focus = ap₂ same_id last (ap id_of covers) ∙ unlike in
      let kept : forget id (unfocused w i) ≡ unfocused w i =
        if_false _ _ (both_false open_id open_focus) in
      (
        (unfocused w i, x),
        close_at w id i x (floats w id v (index-member id i w.entries found)) found at
            ∙ ap (λ u. ok (u, x)) kept,
        last,
        ap id_of (tiled-unfocused w i v small) ∙ focus,
      )
