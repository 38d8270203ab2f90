-- ===== src/Layout/Writing.antt =====
-- What `saved` of src/layout/snapshot.rs writes, and that `from_saved` reads it back.
use mathlib.Core.List.{append_assoc}
use rustmux.Base.{
  suc, zero, ◌==◌, false, true, ◌-◌, ◌^◌, ◌≤◌, ap₂, ◌∙◌, [], ap, arith, get_elem?, leb,
  length-append, ltb, refl, some, sym, ◌&&◌, ◌*◌, ◌++◌, ◌+◌, ◌||◌, List, length, ℕ, ◌≡◌, ◌<◌, ◌∷◌,
}
use rustmux.Layout.Saved.{
  Built, SavedError, read_node, build, axis_from, saved_split, saved_pane, SavedNode, put, append,
}
use rustmux.Layout.Node.{PaneId, split, pane, Node}
use rustmux.Base.Members.{Distinct-append, Distinct, member-append, member}
use rustmux.Layout.Leaves.{leaves}
use rustmux.Layout.Rect.{SplitAxis, axis_eq}
use rustmux.Layout.Adjusting.{Shares}
use rustmux.Base.Result.{Result, ok}

abbrev pub size : Node → ℕ
size (pane id) = 1
size (split axis share f s) = 1 + size f + size s

-- The records of a tree whose first one stands at `k`, each node before its children.
abbrev pub records : ℕ → Node → List SavedNode
records k (pane id) = saved_pane id ∷ []
records k (split axis share f s) =
    saved_split (axis_eq axis SplitAxis.rows) share (k + 1) (k + 1 + size f)
    ∷ (records (k + 1) f ++ records (k + 1 + size f) s)

pub length-records : (k : ℕ) (n : Node) → length (records k n) ≡ size n
length-records k (pane id) = refl
length-records k (split axis share f s) = omega (
  arith,
  length-append (records (k + 1) f) (records (k + 1 + size f) s),
  length-records (k + 1) f,
  length-records (k + 1 + size f) s,
)

put-append :
    (xs : List SavedNode) (x y : SavedNode) (ys : List SavedNode)
    → put (length xs) x (xs ++ y ∷ ys) ≡ xs ++ x ∷ ys
put-append [] x y ys = refl
put-append (z ∷ xs) x y ys = ap (λ more. z ∷ more) (put-append xs x y ys)

gap_closed :
    (before first second : List SavedNode) (x y : SavedNode)
    → put (length before) x (((before ++ y ∷ []) ++ first) ++ second)
      ≡ before ++ x ∷ (first ++ second)
gap_closed before first second x y =
    ap (put (length before) x) (
      ap (λ xs. xs ++ second) (append_assoc before (y ∷ []) first)
      ∙ append_assoc before (y ∷ first) second)
    ∙ put-append before x y (first ++ second)

pub append-records :
    (n : Node) (nodes : List SavedNode) (k : ℕ)
    → length nodes ≡ k
    → append n nodes ≡ (k, nodes ++ records k n)
unfolding append
append-records (pane id) nodes k h =
    ap₂ (λ i more. (i, more)) h (put-append nodes (saved_pane id) (saved_pane 0) [])
append-records (split axis share f s) nodes k h =
    let opened = nodes ++ saved_pane 0 ∷ [] in
    let one =
      append-records f opened (k + 1) (omega (arith, length-append nodes (saved_pane 0 ∷ []))) in
    let two = append-records s (opened ++ records (k + 1) f) (k + 1 + size f) (
      omega (
        arith,
        length-append nodes (saved_pane 0 ∷ []),
        length-append opened (records (k + 1) f),
        length-records (k + 1) f,
      )) in
    rw (one, two)
      (ap₂ (λ i more. (i, more)) h
        (gap_closed nodes (records (k + 1) f) (records (k + 1 + size f) s) _ (saved_pane 0)))

abbrev pub visit : ℕ → Node → List ℕ → List ℕ
visit k (pane id) seen = k ∷ seen
visit k (split axis share f s) seen = visit (k + 1 + size f) s (visit (k + 1) f (k ∷ seen))

abbrev pub gather : Node → List ℕ → List ℕ
gather (pane id) ids = id ∷ ids
gather (split axis share f s) ids = gather s (gather f ids)

member-visit :
    (t k : ℕ) (n : Node) (seen : List ℕ)
    → member t (visit k n seen) ≡ (leb k t && ltb t (k + size n) || member t seen)
member-visit t k (pane id) seen = ground arith
member-visit t k (split axis share f s) seen = ground (
  arith,
  member-visit t (k + 1 + size f) s (visit (k + 1) f (k ∷ seen)),
  member-visit t (k + 1) f (k ∷ seen),
)

pub length-visit :
    (k : ℕ) (n : Node) (seen : List ℕ) → length (visit k n seen) ≡ size n + length seen
length-visit k (pane id) seen = omega arith
length-visit k (split axis share f s) seen = omega (
  arith,
  length-visit (k + 1 + size f) s (visit (k + 1) f (k ∷ seen)),
  length-visit (k + 1) f (k ∷ seen),
)

pub member-gather :
    (t : ℕ) (n : Node) (ids : List ℕ)
    → member t (gather n ids) ≡ (member t (leaves n) || member t ids)
member-gather t (pane id) ids = ground arith
member-gather t (split axis share f s) ids = ground (
  arith,
  member-gather t s (gather f ids),
  member-gather t f ids,
  member-append t (leaves f) (leaves s),
)

pub length-gather :
    (n : Node) (ids : List ℕ) → length (gather n ids) ≡ length (leaves n) + length ids
length-gather (pane id) ids = omega arith
length-gather (split axis share f s) ids = omega (
  arith,
  length-gather s (gather f ids),
  length-gather f ids,
  length-append (leaves f) (leaves s),
)

pub size-leaves : (n : Node) → size n + 1 ≡ 2 * length (leaves n)
size-leaves (pane id) = refl
size-leaves (split axis share f s) =
    omega (arith, size-leaves f, size-leaves s, length-append (leaves f) (leaves s))

-- The records of a tree stand in `nodes` from `k` on.
abbrev pub Written : List SavedNode → ℕ → Node → Type 0
Written nodes k (pane id) = get_elem? nodes k ≡ some (saved_pane id)
Written nodes k (split axis share f s) =
    (get_elem? nodes k
      ≡ some (saved_split (axis_eq axis SplitAxis.rows) share (k + 1) (k + 1 + size f)))
    × Written nodes (k + 1) f
    × Written nodes (k + 1 + size f) s

get_elem?-append :
    (xs : List SavedNode) (x : SavedNode) (ys : List SavedNode)
    → get_elem? (xs ++ x ∷ ys) (length xs) ≡ some x
get_elem?-append [] x ys = refl
get_elem?-append (y ∷ xs) x ys = get_elem?-append xs x ys

pub records-Written :
    (before : List SavedNode) (k : ℕ) (n : Node) (after nodes : List SavedNode)
    → length before ≡ k
    → nodes ≡ before ++ (records k n ++ after)
    → Written nodes k n
records-Written before k (pane id) after nodes h e = rw e (rw (sym h) (get_elem?-append before _ _))
records-Written before k (split axis share f s) after nodes h e = (
  rw e (rw (sym h) (get_elem?-append before _ _)),
  records-Written (before ++ top ∷ []) (k + 1) f (second ++ after) nodes
      (omega (arith, length-append before (top ∷ [])))
      (e
        ∙ ap (λ more. before ++ top ∷ more) (append_assoc first second after)
        ∙ sym (append_assoc before (top ∷ []) (first ++ (second ++ after)))),
  records-Written ((before ++ top ∷ []) ++ first) (k + 1 + size f) s after nodes
      (omega (
        arith,
        length-append before (top ∷ []),
        length-append (before ++ top ∷ []) first,
        length-records (k + 1) f,
      ))
      (e
        ∙ ap (λ more. before ++ top ∷ more) (append_assoc first second after)
        ∙ sym (append_assoc before (top ∷ []) (first ++ (second ++ after)))
        ∙ sym (append_assoc (before ++ top ∷ []) first (second ++ after))),
)
  where
    top : SavedNode
    top = saved_split (axis_eq axis SplitAxis.rows) share (k + 1) (k + 1 + size f)

    first : List SavedNode
    first = records (k + 1) f

    second : List SavedNode
    second = records (k + 1 + size f) s

axis_from_eq : (axis : SplitAxis) → axis_from (axis_eq axis SplitAxis.rows) ≡ axis
axis_from_eq SplitAxis.columns = refl
axis_from_eq SplitAxis.rows = refl

size_pos : (n : Node) → 0 < size n
size_pos (pane id) = omega arith
size_pos (split axis share f s) = omega arith

-- What the reader needs of the places and identities it has not seen.
pub record Readable (seen ids : List ℕ) (k : ℕ) (n : Node) : Type 0 where
  pub places : (t : ℕ) → k ≤ t → t < k + size n → member t seen ≡ false
  pub fresh : (t : ℕ) → member t (leaves n) ≡ true → member t ids ≡ false
  pub unique : Distinct (leaves n)
  pub small : (t : ℕ) → member t (leaves n) ≡ true → t < 2 ^ 63 - 1
  pub shares : Shares n

Readable-first :
    (seen ids : List ℕ) (k : ℕ) (axis : SplitAxis) (share : ℕ × ℕ) (f s : Node)
    → Readable seen ids k (split axis share f s)
    → Readable (k ∷ seen) ids (k + 1) f
Readable-first seen ids k axis share f s r = record {
  places = λ t p q. ground (arith, r.places t);
  fresh = λ t m. ground (arith, r.fresh t, member-append t (leaves f) (leaves s));
  unique = (Distinct-append (leaves f) (leaves s) r.unique).0;
  small = λ t m. ground (arith, r.small t, member-append t (leaves f) (leaves s));
  shares = r.shares.2;
}

Readable-second :
    (seen ids : List ℕ) (k : ℕ) (axis : SplitAxis) (share : ℕ × ℕ) (f s : Node)
    → Readable seen ids k (split axis share f s)
    → Readable (visit (k + 1) f (k ∷ seen)) (gather f ids) (k + 1 + size f) s
Readable-second seen ids k axis share f s r = record {
  places = λ t p q. ground (arith, r.places t, member-visit t (k + 1) f (k ∷ seen));
  fresh = λ t m. ground (
    arith,
    r.fresh t,
    member-append t (leaves f) (leaves s),
    member-gather t f ids,
    (Distinct-append (leaves f) (leaves s) r.unique).2 t,
  );
  unique = (Distinct-append (leaves f) (leaves s) r.unique).1;
  small = λ t m. ground (arith, r.small t, member-append t (leaves f) (leaves s));
  shares = r.shares.3;
}

build-pane :
    (child : ℕ → List ℕ → List ℕ → Result SavedError Built) (k : ℕ) (id : PaneId)
    (seen ids : List ℕ)
    → Readable seen ids k (pane id)
    → read_node child k seen ids (saved_pane id) ≡ ok (pane id, k ∷ seen, id ∷ ids)
unfolding read_node
build-pane child k id seen ids r =
    let small = r.small id (ground arith) in let fresh = r.fresh id (ground arith) in ground arith

build-split :
    (child : ℕ → List ℕ → List ℕ → Result SavedError Built) (k : ℕ) (axis : SplitAxis)
    (share : ℕ × ℕ) (f s : Node) (seen ids : List ℕ)
    → Readable seen ids k (split axis share f s)
    → child (k + 1) (k ∷ seen) ids ≡ ok (f, visit (k + 1) f (k ∷ seen), gather f ids)
    → child (k + 1 + size f) (visit (k + 1) f (k ∷ seen)) (gather f ids)
      ≡ ok (s, visit k (split axis share f s) seen, gather (split axis share f s) ids)
    → read_node child k seen ids
        (saved_split (axis_eq axis SplitAxis.rows) share (k + 1) (k + 1 + size f))
      ≡ ok (
        split axis share f s,
        visit k (split axis share f s) seen,
        gather (split axis share f s) ids,
      )
unfolding read_node
build-split child k axis share f s seen ids r one two =
    rw (linked, one, two, axis_from_eq axis) refl
  where
    linked :
        (leb (k + 1) k || leb (k + 1 + size f) k || share.0 == 0 || leb share.1 share.0) ≡ false
    linked = ground (arith, r.shares)

pub build-records :
    (fuel : ℕ) (nodes : List SavedNode) (k : ℕ) (n : Node) (seen ids : List ℕ)
    → size n ≤ fuel
    → Written nodes k n
    → Readable seen ids k n
    → build fuel nodes k seen ids ≡ ok (n, visit k n seen, gather n ids)
unfolding build
build-records zero nodes k n seen ids room w r = absurd (omega (arith, size_pos n))
build-records (suc fuel) nodes k (pane id) seen ids room w r =
    rw (r.places k (omega arith) (omega arith), w) (build-pane (build fuel nodes) k id seen ids r)
build-records (suc fuel) nodes k (split axis share f s) seen ids room w r =
    rw (r.places k (omega arith) (omega arith), w.0)
      (build-split (build fuel nodes) k axis share f s seen ids r
        (build-records fuel nodes (k + 1) f (k ∷ seen) ids (omega arith) w.1
          (Readable-first seen ids k axis share f s r))
        (build-records fuel nodes (k + 1 + size f) s (visit (k + 1) f (k ∷ seen)) (gather f ids)
          (omega arith) w.2 (Readable-second seen ids k axis share f s r)))
