-- ===== src/Panes/Transfers.antt =====
-- `PaneSet::transfer_active_to` and `PaneSet::detach_active` of src/pane_set.rs lose no content.
use mathlib.Core.Path.{subst}
use rustmux.Base.{
  ==_refl, Bool-cases, List, ap, arith, inl, inr, length, refl, some, sym, true, ◌++◌, ◌<◌, ◌==◌,
  ◌∙◌, ◌∷◌, ◌≡◌, ◌⊎◌, [], false,
}
use rustmux.Base.Result.{ok-injective, ok, >>=-eq-ok}
use rustmux.Base.Members.{member}
use rustmux.Layout.Rect.{SplitAxis}
use rustmux.Layout.Node.{PaneId}
use rustmux.Layout.Leaves.{leaves-length_pos}
use rustmux.Panes.Set.{PaneSet, lookup, without, split_with}
use rustmux.Panes.Moving.{pop_only, extract_active, transfer_active_to, turn}
use rustmux.Panes.Owning.{Owns, keys}
use rustmux.Panes.Changing.{split_with-Grew, close_owned}

module _ {T : Type 0} where
  only_entry :
      (id : PaneId) (entries : List (PaneId × T))
      → length entries ≡ 1
      → member id (keys entries) ≡ true
      → (content : T) × (entries ≡ (id, content) ∷ [])
  only_entry id [] one m = absurd (omega arith)
  only_entry id ((t, content) ∷ []) one m =
      let same : t ≡ id = ground arith in (content, ap (λ k. (k, content) ∷ []) same)
  only_entry id ((t, content) ∷ e ∷ entries) one m = absurd (omega arith)

  -- The active content has left the set: every other entry stays in its place, and the set owns one
  -- content for each leaf unless it is empty.
  abbrev pub Gave : PaneSet T → T → PaneSet T → Type 0
  Gave set content out =
      (lookup set.layout.active set.entries ≡ some content)
      × (out.entries ≡ without set.layout.active set.entries)
      × ((out.entries ≡ []) ⊎ Owns out)

  focused_key : (set : PaneSet T) → Owns set → member set.layout.active (keys set.entries) ≡ true
  focused_key set o = o.same set.layout.active ∙ o.valid.focused

  not_one : (set : PaneSet T) → Owns set → (length set.entries == 1) ≡ false → 1 < set.layout.count
  not_one set o h = ground (arith, o.as_many, o.valid.counted, leaves-length_pos set.layout.root)

  pop_only-Gave :
      (set : PaneSet T)
      → Owns set
      → (length set.entries == 1) ≡ true
      → (out : T × PaneSet T) × (pop_only set ≡ ok out) × Gave set out.0 out.1
  pop_only-Gave set o one =
      let a = set.layout.active in
      let (content, e) = only_entry a set.entries (ground arith) (focused_key set o) in
      let found : lookup a set.entries ≡ some content = ap (lookup a) e ∙ rw (==_refl a) in
      let gone : [] ≡ without a set.entries = sym (ap (without a) e ∙ rw (==_refl a)) in
      ((content, record set { entries = [] }), rw e, (found, gone, inl refl))

  pub extract_active-Gave :
      (set : PaneSet T)
      → Owns set
      → (out : T × PaneSet T) × (extract_active set ≡ ok out) × Gave set out.0 out.1
  unfolding extract_active
  extract_active-Gave set o = elim (Bool-cases (length set.entries == 1)) [
    | inl one ↦ let (out, e, gave) = pop_only-Gave set o one in (out, rw one e, gave)
    | inr many ↦
        let (out, e, found, kept, owned) =
          close_owned set o set.layout.active (focused_key set o) (not_one set o many) in
        (turn out, rw (many, e), (found, kept, inr owned))
  ]

  -- Between two sets that own their panes, a transfer that succeeds moves the active content of the
  -- source, and no other, to the end of the target under the target's next identity. The target owns
  -- one content for each leaf, and so does the source unless it gave its only pane.
  pub transfer_active_to-Gave :
      (set target : PaneSet T) (axis : SplitAxis) {out : PaneSet T × PaneSet T}
      → Owns set
      → Owns target
      → transfer_active_to set target axis ≡ ok out
      → (content : T) × Gave set content out.0
        × (out.1.entries ≡ target.entries ++ (target.layout.next_id, content) ∷ [])
        × Owns out.1
  unfolding transfer_active_to
  transfer_active_to-Gave set target axis {out} o o' e =
      let (moved, e', gave) = extract_active-Gave set o in
      let (grew, h, k) = >>=-eq-ok (split_with target axis (λ id rect. extract_active set)) _ e in
      let (owned, id, new, (rect, content, at, call, added)) =
        split_with-Grew target o' (λ id rect. extract_active set) axis h in
      let same = ok-injective (sym e' ∙ call) in
      let gave' = subst (λ (m : T × PaneSet T). Gave set m.0 m.1) same gave in
      subst
        (λ (out : PaneSet T × PaneSet T).
          (content : T) × Gave set content out.0
          × (out.1.entries ≡ target.entries ++ (target.layout.next_id, content) ∷ [])
          × Owns out.1)
        (ok-injective k)
        (content, gave', added ∙ ap (λ i. target.entries ++ (i, content) ∷ []) id, owned)
