-- ===== src/Panes/Changing.antt =====
-- `PaneSet::close` and `PaneSet::split_with` of src/pane_set.rs keep one content for each leaf.
use mathlib.Core.Path.{subst}
use rustmux.Base.{
  List, false, length-append, none, ℕ, ap, arith, if_cases, leb, length, ltb, ◌++◌, ◌+◌, ◌==◌, ◌^◌,
  ◌∷◌, refl, some, sym, true, ◌<◌, ◌∙◌, ◌≡◌, [],
}
use rustmux.Base.Result.{
  ok_or-eq-ok, >>=-eq-ok, err, ok-injective, ok_or, of_ensures, Ensures, Result, ok,
}
use rustmux.Base.Members.{
  member-insert_after, member-append, length-erase, member-erase, Distinct-erase, member, Distinct,
}
use rustmux.Layout.Rect.{Rect, side, SplitAxis}
use rustmux.Layout.Node.{PaneId}
use rustmux.Layout.Geometry.{panic, tiled_content_geometry, find_pane, max_panes, Layout, Error}
use rustmux.Layout.Operations.{split_active}
use rustmux.Layout.Reachable.{of_safe}
use rustmux.Layout.Splitting.{
  split_active-Safe, leaves-split_layout, unused_id, split_layout, split_active_outcomes,
}
use rustmux.Layout.Valid.{IsValid}
use rustmux.Panes.Set.{
  refused, require_content_cells, split_with, Failure, of_layout, PaneSet, close, lookup, without,
}
use rustmux.Panes.Owning.{
  lookup_absent, keys-append, length-keys, keys-without, lookup-member, Owns, keys,
}
use rustmux.Layout.Closing.{closed_layout, close_total}
use rustmux.Layout.Leaves.{leaves}

-- A split that succeeds leaves `split_layout` and returns the next identity.
split_active-eq-ok :
    (l : Layout) (axis : SplitAxis) {out : Layout × PaneId}
    → IsValid l
    → split_active l axis ≡ ok out
    → out ≡ (split_layout l axis, l.next_id)
split_active-eq-ok l axis {out} v e =
    let (rect, found, e') = split_active_outcomes l axis v in
    let outcome =
      if_cases Good l.floating (λ _. tt)
        λ _.
          if_cases Good (l.count == max_panes) (λ _. tt)
            λ _.
              if_cases Good (ltb (side axis rect) 4) (λ _. tt)
                λ _. if_cases Good (leb (2 ^ 64) (l.next_id + 1)) (λ _. tt) (λ _. refl) in
    of_ensures IsNew _ outcome (sym e' ∙ e)
  where
    IsNew : Layout × PaneId → Type 0
    IsNew made = made ≡ (split_layout l axis, l.next_id)

    Good : Result Error (Layout × PaneId) → Type 0
    Good r = Ensures IsNew r

of_layout-eq-ok : {A : Type 0} (m : Result Error A) {a : A} → of_layout m ≡ ok a → m ≡ ok a
of_layout-eq-ok (ok b) h = ap ok (ok-injective h)
of_layout-eq-ok (err e) h = absurd (cc)

Distinct-snoc : (t : ℕ) (xs : List ℕ) → member t xs ≡ false → Distinct xs → Distinct (xs ++ t ∷ [])
Distinct-snoc t [] m d = (refl, tt)
Distinct-snoc t (x ∷ xs) m d =
    (member-append x xs (t ∷ []) ∙ ground (arith, d.0), Distinct-snoc t xs (ground arith) d.1)

module _ {T : Type 0} (set : PaneSet T) (o : Owns set) where
  close_layout :
      (id : PaneId) (l' : Layout) (next : PaneId) (content : T)
      → lookup id set.entries ≡ some content
      → rustmux.Layout.Operations.close set.layout id ≡ ok (l', next)
      → close set id ≡ ok (record { layout = l'; entries = without id set.entries }, content)
  unfolding close
  close_layout id l' next content here e = rw (here, e)

  -- Closing a pane of a set with more than one returns the content that the set owned under that
  -- identity; every other entry stays in its place, and the set still owns one content for each leaf.
  pub close_owned :
      (id : PaneId)
      → member id (keys set.entries) ≡ true
      → 1 < set.layout.count
      → (out : PaneSet T × T) × (close set id ≡ ok out)
        × (lookup id set.entries ≡ some out.1)
        × (out.0.entries ≡ without id set.entries)
        × Owns out.0
  close_owned id m many =
      let v = o.valid in
      let leaf = sym (o.same id) ∙ m in
      let (content, here) = lookup-member id set.entries m in
      let (next, e, heir, left_over, v') = close_total set.layout id v leaf many in
      let l' = closed_layout set.layout id next in
      let owned : Owns (record { layout = l'; entries = without id set.entries }) = record {
        valid = v';
        once = subst Distinct (sym (keys-without id set.entries)) (Distinct-erase id _ o.once);
        same = λ t.
            ap (member t) (keys-without id set.entries)
            ∙ member-erase id t _ o.once
            ∙ rw (o.same t) (sym (ap (member t) left_over ∙ member-erase id t _ v.distinct));
        as_many = omega (
          arith,
          o.as_many,
          length-keys (without id set.entries),
          length-keys set.entries,
          ap length (keys-without id set.entries),
          length-erase id (keys set.entries) m,
        );
      } in
      (
        (record { layout = l'; entries = without id set.entries }, content),
        close_layout id l' next content here e,
        here,
        refl,
        owned,
      )

  abbrev grown : SplitAxis → T → PaneSet T
  grown axis content = record {
    layout = split_layout set.layout axis;
    entries = set.entries ++ (set.layout.next_id, content) ∷ [];
  }

  unowned_id : member set.layout.next_id (keys set.entries) ≡ false
  unowned_id = o.same set.layout.next_id ∙ unused_id set.layout o.valid

  grown-Owns :
      (axis : SplitAxis) (content : T)
      → IsValid (split_layout set.layout axis)
      → Owns (grown axis content)
  grown-Owns axis content v' =
      let id = set.layout.next_id in
      let old = leaves set.layout.root in
      let added = keys-append set.entries id content in
      let placed = leaves-split_layout set.layout axis in
      record {
        valid = v';
        once = subst Distinct (sym added) (Distinct-snoc id (keys set.entries) unowned_id o.once);
        same = λ t.
            ap (member t) added
            ∙ member-append t (keys set.entries) (id ∷ [])
            ∙ rw (o.same t, placed)
                (rw (member-insert_after set.layout.active id t old o.valid.focused)
                  (ground arith));
        as_many = omega (arith, o.as_many, length-append set.entries ((id, content) ∷ []));
      }

  module _ {S : Type 0} (create : PaneId → Rect → Result Failure (T × S)) where
    -- What a successful `split_with` has done.
    abbrev pub Grew : PaneSet T × PaneId × S → Type 0
    Grew out =
        Owns out.0
        × (out.1 ≡ set.layout.next_id)
        × (lookup out.1 set.entries ≡ none)
        × ((rect : Rect) × (content : T) × (find_pane out.1
                (tiled_content_geometry out.0.layout).panes
              ≡ some rect)
            × (create out.1 rect ≡ ok (content, out.2))
            × (out.0.entries ≡ set.entries ++ (out.1, content) ∷ []))

    -- A split that succeeds has called the factory with an identity that no entry had, and with the
    -- content rectangle that the new layout gives it; the created content is the new last entry,
    -- the other entries stay as they were, and the set owns one content for each leaf.
    pub split_with-Grew :
        (axis : SplitAxis) {out : PaneSet T × PaneId × S}
        → split_with set axis create ≡ ok out
        → Grew out
    unfolding split_with
    split_with-Grew axis {out} e =
        let (c, h, k) = >>=-eq-ok (of_layout (split_active set.layout axis)) _ e in
        let (_u, cells, k2) = >>=-eq-ok (require_content_cells c.0) _ k in
        let (rect, at, k3) =
          >>=-eq-ok (ok_or (find_pane c.1 (tiled_content_geometry c.0).panes) (refused panic)) _
            k2 in
        let (made, call, k4) = >>=-eq-ok (create c.1 rect) _ k3 in
        let split_ok = of_layout-eq-ok (split_active set.layout axis) h in
        let new = split_active-eq-ok set.layout axis o.valid split_ok in
        let v' =
          of_safe (λ made. IsValid made.0) _ (split_active-Safe set.layout axis o.valid) split_ok in
        let v'' = subst (λ (d : Layout × PaneId). IsValid d.0) new v' in
        let owned =
          subst
            (λ (d : Layout × PaneId).
              Owns (record { layout = d.0; entries = set.entries ++ (d.1, made.0) ∷ [] }))
            (sym new) (grown-Owns axis made.0 v'') in
        subst Grew (ok-injective k4) (
          owned,
          ap (λ d. d.1) new,
          lookup_absent c.1 set.entries (rw (ap (λ d. d.1) new) unowned_id),
          (rect, made.0, ok_or-eq-ok _ _ at, call, refl),
        )
