-- ===== src/Windows/Closing.antt =====
-- `Windows::close` of src/window.rs: what is left, where the focus goes, and the history.
use rustmux.Base.{
  sym, true, ◌∷◌, Option, none, ap, arith, get_elem?, if_cases, if◌then◌else◌, length, ltb, not,
  refl, some, ℕ, ◌&&◌, ◌+◌, ◌-◌, ◌<◌, ◌==◌, ◌||◌, ◌∙◌, ◌≡◌, ◌≤◌, false,
}
use rustmux.Base.Members.{Distinct, member}
use rustmux.Base.Result.{ok}
use rustmux.Windows.Store.{
  active_window, id_of, same_id, index, is_empty, tiled_active, is_floating, remove_at, Windows,
  Window, WindowId, CloseFocus, to_left, to_right,
}
use rustmux.Windows.Order.{is_left, close, forget, focus_after}
use rustmux.Windows.Valid.{next_bound, Apart, Known, ids, IsValid}
use rustmux.Windows.Lists.{
  count-remove_at, index_found, parent, get_elem?-remove_at, length-remove_at,
}
use rustmux.Base.Counting.{Distinct-SameCounts, member-SameCounts, SameCounts}
use rustmux.Windows.Moving.{floats}

-- The neighbour that gets the focus when the selected window at `i` of `n` closes: the preferred one,
-- or the other at an edge.
abbrev pub heir_index : CloseFocus → ℕ → ℕ → ℕ
heir_index focus i n = if is_left focus || i + 1 == n then if i == 0 then 1 else i - 1 else i + 1

focus_index :
    (focus : CloseFocus) (i active n : ℕ)
    → i < n
    → active ≤ n - 1
    → (let k = focus_after focus i active (n - 1) in if ltb k i then k else k + 1)
      ≡ (if i == active then heir_index focus i n else active)
focus_index to_left i active n h a = ground arith
focus_index to_right i active n h a = ground arith

module _ {T : Type 0} where
  -- What `close` leaves before it looks at the history.
  abbrev pub unfocused : Windows T → ℕ → Windows T
  unfocused w i =
      let left_over = remove_at i w.entries in
      record w {
        entries = left_over;
        floating_visible = w.floating_visible && not (is_empty left_over);
        active = focus_after w.close_focus i w.active (length left_over);
      }

  pub close_at :
      (w : Windows T) (id : WindowId) (i : ℕ) (x : Window T)
      → is_floating w id ≡ false
      → index id w.entries ≡ some i
      → get_elem? w.entries i ≡ some x
      → close w id ≡ ok (forget id (unfocused w i), x)
  unfolding close
  close_at w id i x ordinary found at = rw (ordinary, found, at)

  tiled-forget : (id : WindowId) (w : Windows T) → tiled_active (forget id w) ≡ tiled_active w
  tiled-forget id w =
      if_cases (λ (u : Windows T). tiled_active u ≡ tiled_active w)
        (same_id w.last_active (some id) || same_id w.last_active (id_of (active_window w)))
        (λ _. refl) (λ _. refl)

  entries-forget : (id : WindowId) (w : Windows T) → (forget id w).entries ≡ w.entries
  entries-forget id w =
      if_cases (λ (u : Windows T). u.entries ≡ w.entries)
        (same_id w.last_active (some id) || same_id w.last_active (id_of (active_window w)))
        (λ _. refl) (λ _. refl)

  pub tiled-unfocused :
      (w : Windows T) (i : ℕ)
      → IsValid w
      → i < length w.entries
      → tiled_active (unfocused w i)
        ≡ get_elem? w.entries
            (if i == w.active then heir_index w.close_focus i (length w.entries) else w.active)
  tiled-unfocused w i v small =
      let len : length (remove_at i w.entries) ≡ length w.entries - 1 =
        omega (arith, length-remove_at i w.entries small) in
      get_elem?-remove_at _ i w.entries
      ∙ ap (get_elem? w.entries)
          (rw len (focus_index w.close_focus i w.active (length w.entries) small v.in_range))

  -- Closing the window `x` at index `i` of a valid collection.
  module _ (w : Windows T) (i : ℕ) (x : Window T) (v : IsValid w)
      (at : get_elem? w.entries i ≡ some x) (small : i < length w.entries) where
    with_closed : SameCounts (x.id ∷ ids (remove_at i w.entries)) (ids w.entries)
    with_closed t = count-remove_at t i x w.entries at

    others : Distinct (x.id ∷ ids (remove_at i w.entries))
    others =
        Distinct-SameCounts (x.id ∷ ids (remove_at i w.entries)) (ids w.entries) with_closed
          v.distinct

    -- The identities that stay are the others.
    members :
        (t : WindowId)
        → member t (ids (remove_at i w.entries))
          ≡ (if x.id == t then false else member t (ids w.entries))
    members t = ground (
      arith,
      others.0,
      member-SameCounts (x.id ∷ ids (remove_at i w.entries)) (ids w.entries) with_closed t,
    )

    still_Apart :
        (f : Option (Window T))
        → Apart (next_bound w.next_id) (ids w.entries) f
        → Apart (next_bound w.next_id) (ids (remove_at i w.entries)) f
    still_Apart none a = tt
    still_Apart (some f) (unused, below) = (ground (arith, members f.id), below)

    still_Known :
        (o : Option WindowId)
        → Known (ids w.entries) o
        → same_id o (some x.id) ≡ false
        → Known (ids (remove_at i w.entries)) o
    still_Known none k h = tt
    still_Known (some t) k h = ground (arith, members t)

    unfocused-IsValid :
        (last : Option WindowId)
        → Known (ids (remove_at i w.entries)) last
        → IsValid (record (unfocused w i) { last_active = last })
    unfocused-IsValid last known =
        let len = length-remove_at i w.entries small in
        record {
          distinct = others.1;
          given_out = λ t m. v.given_out t (ground (arith, members t));
          apart = still_Apart w.floating v.apart;
          room = v.room;
          in_range = ground (arith, len, v.in_range);
          known = known;
          shown = λ h. ((v.shown (ground arith)).0, parent (remove_at i w.entries) (ground arith));
        }

    forget-IsValid : IsValid (forget x.id (unfocused w i))
    forget-IsValid =
        if_cases IsValid
          (same_id w.last_active (some x.id)
            || same_id w.last_active (id_of (active_window (unfocused w i))))
          (λ _. unfocused-IsValid none tt)
          λ keep. unfocused-IsValid w.last_active (still_Known w.last_active v.known (ground arith))

  -- Closing an ordinary window of a valid collection returns that window and leaves a valid collection
  -- of the others in their order. If another window was selected it still is; otherwise the focus
  -- goes to the neighbour that `heir_index` names, or to none if no window is left.
  pub close_removes :
      (w : Windows T) (id : WindowId)
      → IsValid w
      → member id (ids w.entries) ≡ true
      → (i : ℕ) × (out : Windows T × Window T) × (index id w.entries ≡ some i)
        × (get_elem? w.entries i ≡ some out.1)
        × (close w id ≡ ok out)
        × (out.0.entries ≡ remove_at i w.entries)
        × (tiled_active out.0
            ≡ get_elem? w.entries
                (if i == w.active then heir_index w.close_focus i (length w.entries) else w.active))
        × IsValid out.0
  close_removes w id v m =
      let (i, x, found, at, same, small) = index_found id w.entries m in
      let out = forget x.id (unfocused w i) in
      (
        i,
        (out, x),
        found,
        at,
        close_at w id i x (floats w id v m) found at
            ∙ ap (λ t. ok (forget t (unfocused w i), x)) (sym same),
        entries-forget x.id (unfocused w i),
        tiled-forget x.id (unfocused w i) ∙ tiled-unfocused w i v small,
        forget-IsValid w i x v at small,
      )
