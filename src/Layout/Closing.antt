-- ===== src/Layout/Closing.antt =====
-- `Layout::close`: every outcome, which pane inherits the focus, and the invariant.
use rustmux.Base.{
  Bool, ◌+◌, ap, sym, false, zero, ◌∙◌, Bool-cases, Option, [], arith, get_elem?, if◌then◌else◌,
  inl, inr, length, none, refl, some, suc, true, ◌-◌, ◌<◌, ◌==◌, ◌∷◌, ◌≡◌, ◌⊎◌, ℕ, List,
}
use rustmux.Layout.Rect.{Rect}
use rustmux.Layout.Node.{PaneId, Node, pane, split, remove, or_else, is_pane}
use rustmux.Layout.Geometry.{
  last_pane, unknown_pane, Layout, panic, canvas, tiled_geometry, position,
}
use rustmux.Layout.Operations.{close, successor}
use rustmux.Layout.Leaves.{leaves, leaves-remove}
use rustmux.Layout.Shares.{Shares-remove}
use rustmux.Layout.Room.{Fits-remove, ids}
use rustmux.Layout.Valid.{IsValid, ids-tiled_geometry}
use rustmux.Layout.Exchange.{panes-length, get_elem?-ids, position-member}
use rustmux.Base.Members.{member-erase, length-erase, Distinct-erase, erase, member}
use rustmux.Base.Result.{fail_if-true, err, ok_or, ok}

-- The element behind the first `t`, or else the one in front of it; `prev` stands in front of the
-- list.
abbrev pub heir : Option ℕ → ℕ → List ℕ → Option ℕ
heir prev t [] = none
heir prev t (x ∷ []) = if x == t then prev else none
heir prev t (x ∷ y ∷ xs) = if x == t then some y else heir (some x) t (y ∷ xs)

heir-some :
    (p t : ℕ) (xs : List ℕ)
    → member t xs ≡ true
    → (h : ℕ) × (heir (some p) t xs ≡ some h) × ((h ≡ p) ⊎ (member h (erase t xs) ≡ true))
heir-some p t [] m = absurd (cc)
heir-some p t (x ∷ []) m = (p, ground arith, inl refl)
heir-some p t (x ∷ y ∷ xs) m = elim (Bool-cases (x == t)) [
  | inl e ↦ (y, rw e, inr (rw e (ground arith)))
  | inr e ↦
      let (h, found, place) = heir-some x t (y ∷ xs) (ground arith) in
      (h, rw e found, inr (ground arith))
]

-- In a list of two or more there is an heir, and it is another element.
pub heir-member :
    (t : ℕ) (xs : List ℕ)
    → member t xs ≡ true
    → 1 < length xs
    → (h : ℕ) × (heir none t xs ≡ some h) × (member h (erase t xs) ≡ true)
heir-member t [] m len = absurd (omega arith)
heir-member t (x ∷ []) m len = absurd (omega arith)
heir-member t (x ∷ y ∷ xs) m len = elim (Bool-cases (x == t)) [
  | inl e ↦ (y, rw e, rw e (ground arith))
  | inr e ↦
      let (h, found, place) = heir-some x t (y ∷ xs) (ground arith) in (h, rw e found, ground arith)
]

abbrev id_of : Option (PaneId × Rect) → Option PaneId
id_of none = none
id_of (some p) = some p.0

-- `position` at the head, and behind it.
abbrev step_position : PaneId → PaneId → Option ℕ → Option ℕ
step_position id t rest =
    if id == t then some 0 else elim rest [ none ↦ none | some i ↦ some (suc i) ]

first_position :
    (id t : PaneId) (rest : Option ℕ) → step_position id t rest ≡ some 0 → (id == t) ≡ true
first_position id t none e = ground arith
first_position id t (some i) e = ground arith

later_position :
    (id t : PaneId) (rest : Option ℕ) (j : ℕ)
    → step_position id t rest ≡ some (suc j)
    → ((id == t) ≡ false) × (rest ≡ some j)
later_position id t none j e = ground arith
later_position id t (some i) j e = ground arith

successor_from :
    (t : PaneId) (panes : List (PaneId × Rect)) (i : ℕ) (prev : Option PaneId)
    → position t panes ≡ some i
    → heir prev t (ids panes)
      ≡ or_else
          (id_of (get_elem? panes (suc i)))
          (if i == 0 then prev else id_of (get_elem? panes (i - 1)))
successor_from t [] i prev e = cc
successor_from t ((id, r) ∷ []) i prev e = ground arith
successor_from t ((id, r) ∷ (id', r') ∷ panes) zero prev e =
    let here : (id == t) ≡ true = first_position id t _ e in rw here
successor_from t ((id, r) ∷ (id', r') ∷ panes) (suc zero) prev e =
    let (further, later) = later_position id t _ zero e in
    rw further (successor_from t ((id', r') ∷ panes) zero (some id) later)
successor_from t ((id, r) ∷ (id', r') ∷ panes) (suc (suc j)) prev e =
    let (further, later) = later_position id t _ (suc j) e in
    rw further (successor_from t ((id', r') ∷ panes) (suc j) (some id) later ∙ same)
  where
    near : suc j - 1 ≡ j
    near = omega arith

    far : suc (suc j) - 1 ≡ suc j
    far = omega arith

    same :
        or_else
          (id_of (get_elem? ((id', r') ∷ panes) (suc (suc j))))
          (if suc j == 0 then some id else id_of (get_elem? ((id', r') ∷ panes) (suc j - 1)))
        ≡ or_else (id_of (get_elem? ((id', r') ∷ panes) (suc (suc j)))) (
            if suc (suc j) == 0
            then prev
            else id_of (get_elem? ((id, r) ∷ (id', r') ∷ panes) (suc (suc j) - 1)))
    same = rw (near, far) (ground arith)

-- The layout that a successful close leaves.
abbrev pub closed_layout : Layout → PaneId → PaneId → Layout
closed_layout l id next = record l {
  root = (remove l.root id).0;
  active = next;
  count = l.count - 1;
  zoomed = false;
}

is_pane_many : (n : Node) (t : PaneId) → 1 < length (leaves n) → is_pane n t ≡ false
is_pane_many (pane id) t h = absurd (omega arith)
is_pane_many (split axis share f s) t h = refl

abbrev next_id_of : Option (PaneId × Rect) → Option PaneId
next_id_of o = elim o [ none ↦ none | some p ↦ some p.0 ]

next_of :
    (o q : Option (PaneId × Rect))
    → next_id_of (elim o [ none ↦ q | some found ↦ some found ]) ≡ or_else (id_of o) (id_of q)
next_of none none = refl
next_of none (some p) = refl
next_of (some p) q = refl

successor_lem :
    (panes : List (PaneId × Rect)) (i : ℕ) (o : Option (PaneId × Rect))
    → get_elem? panes (suc i) ≡ o
    → 1 < length panes
    → next_id_of (successor panes i)
      ≡ or_else
          (id_of (get_elem? panes (suc i)))
          (if i == 0 then none else id_of (get_elem? panes (i - 1)))
successor_lem panes i (some p) e many =
    let a : i + 1 ≡ suc i = omega arith in
    next_of (get_elem? panes (i + 1)) (get_elem? panes (i - 1)) ∙ rw a (rw e)
successor_lem panes i none e many =
    let a : i + 1 ≡ suc i = omega arith in
    next_of (get_elem? panes (i + 1)) (get_elem? panes (i - 1))
    ∙ rw a (rw e (previous i e (get_elem? panes (i - 1)) refl))
  where
    previous :
        (j : ℕ)
        → get_elem? panes (suc j) ≡ none
        → (q : Option (PaneId × Rect)) → get_elem? panes (j - 1) ≡ q
        → id_of q ≡ (if j == 0 then none else id_of q)
    previous zero none_at q f = let (p, found, m) = get_elem?-ids panes 1 many in absurd (cc)
    previous (suc j) none_at none f = ground arith
    previous (suc j) none_at (some p) f = ground arith

successor-heir :
    (t : PaneId) (panes : List (PaneId × Rect)) (i : ℕ)
    → position t panes ≡ some i
    → 1 < length panes
    → next_id_of (successor panes i) ≡ heir none t (ids panes)
successor-heir t panes i e many =
    successor_lem panes i (get_elem? panes (suc i)) refl many
    ∙ sym (successor_from t panes i none e)

module _ (l : Layout) (id : PaneId) (v : IsValid l) where
  abbrev pub inherits : Option PaneId
  inherits = heir none id (leaves l.root)

  pub closed_layout-IsValid :
      (next : PaneId)
      → member id (leaves l.root) ≡ true
      → 1 < l.count
      → member next (erase id (leaves l.root)) ≡ true
      → IsValid (closed_layout l id next)
  closed_layout-IsValid next leaf many near =
      let old = leaves l.root in
      let many' : 1 < length old = omega (arith, v.counted) in
      let e = (leaves-remove l.root id v.distinct (is_pane_many l.root id many')).1 in
      record {
        distinct = rw e (Distinct-erase id old v.distinct);
        counted = omega (arith, v.counted, ap length e, length-erase id old leaf);
        few = omega (arith, v.few);
        focused = ap (member next) e ∙ near;
        fresh = λ t m.
            ground (arith, v.fresh t, sym (ap (member t) e) ∙ m, member-erase id t old v.distinct);
        id_room = v.id_room;
        shares = Shares-remove l.root id v.shares;
        fits = Fits-remove l.root (canvas l) id v.fits;
        zoom = λ h. absurd (cc);
        float = λ h. absurd (omega (arith, v.float h));
      }

-- The focus after a close: an active pane hands it to its heir, any other keeps it where it is.
abbrev pub next_focus : Layout → PaneId → Option PaneId
next_focus l id = if l.active == id then heir none id (leaves l.root) else some l.active

focus_step :
    (same : Bool) (active next : PaneId) (o : Option (PaneId × Rect)) (h : Option PaneId)
    → next_id_of o ≡ h
    → (if same then h else some active) ≡ some next
    → (if same then ok_or (next_id_of o) panic else ok active) ≡ ok next
focus_step true active next o h e f = rw (e ∙ f)
focus_step false active next o h e f = ground arith

close_found :
    (l : Layout) (id : PaneId) (index : ℕ) (next : PaneId)
    → position id (tiled_geometry l).panes ≡ some index
    → (l.count == 1) ≡ false
    → (if l.active == id
        then ok_or (next_id_of (successor (tiled_geometry l).panes index)) panic
        else ok l.active)
      ≡ ok next
    → close l id ≡ ok (closed_layout l id next, next)
unfolding close
close_found l id index next at many focus = rw (at, many) (rw focus)

module _ (l : Layout) (id : PaneId) (v : IsValid l) where
  next_focus_leaf :
      member id (leaves l.root) ≡ true
      → 1 < l.count
      → (next : PaneId) × (next_focus l id ≡ some next)
        × (member next (erase id (leaves l.root)) ≡ true)
  next_focus_leaf leaf many = elim (Bool-cases (l.active == id)) [
    | inl same ↦
        let (next, found, m) = heir-member id (leaves l.root) leaf (omega (arith, v.counted)) in
        (next, rw same found, m)
    | inr other ↦ (
      l.active,
      rw other,
      ground (arith, member-erase id l.active (leaves l.root) v.distinct, v.focused),
    )
  ]

  -- Closing a leaf of a valid layout with other panes succeeds: the tree loses that leaf alone, the focus
  -- goes to the next pane in traversal order, or the previous one at the end, if the closed pane had
  -- it, and the result is valid.
  pub close_total :
      member id (leaves l.root) ≡ true
      → 1 < l.count
      → (next : PaneId) × (close l id ≡ ok (closed_layout l id next, next))
        × (next_focus l id ≡ some next)
        × (leaves (closed_layout l id next).root ≡ erase id (leaves l.root))
        × IsValid (closed_layout l id next)
  unfolding close
  close_total leaf many =
      let panes = (tiled_geometry l).panes in
      let listed = ids-tiled_geometry l v in
      let (index, at, small) = position-member id panes (rw listed leaf) in
      let (next, found, m) = next_focus_leaf leaf many in
      let len : 1 < length panes = omega (arith, panes-length l v) in
      let heirs = successor-heir id panes index at len ∙ ap (heir none id) listed in
      (
        next,
        close_found l id index next at (ground arith)
            (focus_step (l.active == id) l.active next (successor panes index) _ heirs found),
        found,
        (leaves-remove l.root id v.distinct (is_pane_many l.root id (omega (arith, v.counted)))).1,
        closed_layout-IsValid l id v next leaf many m,
      )

position_absent :
    (t : PaneId) (xs : List (PaneId × Rect)) → member t (ids xs) ≡ false → position t xs ≡ none
position_absent t [] h = refl
position_absent t ((id, r) ∷ xs) h = ground (arith, position_absent t xs)

-- An identity that is no leaf is refused.
pub close_unknown :
    (l : Layout) (id : PaneId)
    → IsValid l
    → member id (leaves l.root) ≡ false
    → close l id ≡ err unknown_pane
unfolding close
close_unknown l id v m =
    rw (position_absent id (tiled_geometry l).panes (rw (ids-tiled_geometry l v) m))

-- The last pane is not closed.
pub close_last :
    (l : Layout) (id : PaneId)
    → IsValid l
    → member id (leaves l.root) ≡ true
    → l.count ≡ 1
    → close l id ≡ err last_pane
unfolding close
close_last l id v m one =
    let (index, at, small) =
      position-member id (tiled_geometry l).panes (rw (ids-tiled_geometry l v) m) in
    let alone : (l.count == 1) ≡ true = ground arith in rw at (rw (fail_if-true last_pane alone))
