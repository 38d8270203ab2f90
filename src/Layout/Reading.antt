-- ===== src/Layout/Reading.antt =====
-- What `from_saved` of src/layout/snapshot.rs makes of records that nobody vouches for.
use rustmux.Base.{
  max, ◌++◌, Bool, some, not, ◌≢◌, ==_refl, Bool-cases, inl, inr, [], ltb, ◌&&◌, ◌*◌, ◌==◌, ◌≤◌,
  get_elem?, arith, false, leb, length-append, refl, suc, true, zero, ◌+◌, ◌-◌, ◌^◌, ◌||◌, List,
  length, ℕ, ◌≡◌, ◌<◌, ◌∷◌,
}
use rustmux.Base.Result.{
  ◌>>◌, ◌>>=◌, fail_if, ok_or-eq-ok, Avoids-≢, Avoids-ok_or, Avoids->>=, Avoids-fail_if, Avoids, ok,
  err, of_ensures, ok_or, Ensures->>=, Ensures-fail_if, Result, Ensures,
}
use rustmux.Layout.Saved.{
  no_content_space, unreachable_or_unfocused, invalid_count, out_of_fuel, from_saved, any_empty,
  refused, resized, SavedLayout, maximum, axis_from, invalid_links, saved_split, invalid_id,
  saved_pane, SavedError, read_node, missing_node, repeated_node, SavedNode, build, Built,
}
use rustmux.Base.Members.{member-append, Distinct-both, Distinct, member}
use rustmux.Layout.Rect.{SplitAxis}
use rustmux.Layout.Node.{minimum, Node, split, pane}
use rustmux.Layout.Leaves.{leaves-length_pos, leaves}
use rustmux.Layout.Adjusting.{Shares}
use rustmux.Layout.Minimum.{minimum-least, least}
use rustmux.Layout.Rect.{SplitAxis}
use rustmux.Layout.Geometry.{tiled_content_geometry, Error, resize, max_panes, Layout}
use rustmux.Layout.Valid.{IsValid}

-- A tree that `build` read into the identities seen before it: its leaves are new, distinct and
-- small, and exactly what the set of identities gained.
record Sound (ids : List ℕ) (b : Built) : Type 0 where
  pub unique : Distinct (leaves b.0)
  pub fresh : (t : ℕ) → member t (leaves b.0) ≡ true → member t ids ≡ false
  known : (t : ℕ) → member t b.2 ≡ (member t (leaves b.0) || member t ids)
  counted : length b.2 ≡ length (leaves b.0) + length ids
  pub small : (t : ℕ) → member t (leaves b.0) ≡ true → t < 2 ^ 63 - 1
  pub shares : Shares b.0

Sound-pane :
    (id index : ℕ) (visited ids : List ℕ)
    → (leb (2 ^ 63 - 1) id || member id ids) ≡ false
    → Sound ids (pane id, index ∷ visited, id ∷ ids)
Sound-pane id index visited ids h = record {
  unique = (refl, tt);
  fresh = λ t m. ground arith;
  known = λ t. ground arith;
  counted = omega arith;
  small = λ t m. ground arith;
  shares = tt;
}

Sound-split :
    (axis : SplitAxis) (share : ℕ × ℕ) (ids : List ℕ) (f s : Built)
    → 0 < share.0
    → share.0 < share.1
    → Sound ids f
    → Sound f.2 s
    → Sound ids (split axis share f.0 s.0, s.1, s.2)
Sound-split axis share ids f s p q one two = record {
  unique =
      Distinct-both (leaves f.0) (leaves s.0) one.unique two.unique
        (λ t m. ground (arith, two.fresh t, one.known t));
  fresh = λ t m.
      ground
        (arith, member-append t (leaves f.0) (leaves s.0), two.fresh t, one.known t, one.fresh t);
  known = λ t. ground (arith, member-append t (leaves f.0) (leaves s.0), two.known t, one.known t);
  counted = omega (arith, length-append (leaves f.0) (leaves s.0), one.counted, two.counted);
  small =
      λ t m. ground (arith, member-append t (leaves f.0) (leaves s.0), two.small t, one.small t);
  shares = (p, q, one.shares, two.shares);
}

-- One node read: what is left of `build` behind the two checks of its index.
read_node-Sound :
    (child : ℕ → List ℕ → List ℕ → Result SavedError Built) (index : ℕ) (visited ids : List ℕ)
    (node : SavedNode)
    → ((i : ℕ) (v s : List ℕ) → Ensures (Sound s) (child i v s))
    → Ensures (Sound ids) (read_node child index visited ids node)
unfolding read_node
read_node-Sound child index visited ids (saved_pane id) below =
    Ensures-fail_if (Sound ids) (leb (2 ^ 63 - 1) id || member id ids) invalid_id _
      (λ fine. Sound-pane id index visited ids fine)
read_node-Sound child index visited ids (saved_split is_rows share first second) below =
    Ensures-fail_if (Sound ids)
      (leb first index || leb second index || share.0 == 0 || leb share.1 share.0) invalid_links _
      (λ fine. Ensures->>= (Sound ids) (child first (index ∷ visited) ids) _ (λ f found.
        Ensures->>= (Sound ids) (child second f.1 f.2) _ (λ s read.
          Sound-split (axis_from is_rows) share ids f s (ground arith) (ground arith)
            (of_ensures (Sound ids) _ (below first (index ∷ visited) ids) found)
            (of_ensures (Sound f.2) _ (below second f.1 f.2) read))))

build-Sound :
    (fuel : ℕ) (nodes : List SavedNode) (index : ℕ) (visited ids : List ℕ)
    → Ensures (Sound ids) (build fuel nodes index visited ids)
unfolding build
build-Sound zero nodes index visited ids = tt
build-Sound (suc fuel) nodes index visited ids =
    Ensures-fail_if (Sound ids) (member index visited) repeated_node _ (λ new.
      Ensures->>= (Sound ids) (ok_or (get_elem? nodes index) missing_node) _ (λ node found.
        read_node-Sound (build fuel nodes) index visited ids node (build-Sound fuel nodes)))

least-leaves :
    (n : Node)
    → ((least n).0 + 2 ≤ 3 * length (leaves n)) × ((least n).1 + 2 ≤ 3 * length (leaves n))
least-leaves (pane id) = omega arith
least-leaves (split SplitAxis.columns share f s) = omega (
  arith,
  least-leaves f,
  least-leaves s,
  length-append (leaves f) (leaves s),
  leaves-length_pos f,
  leaves-length_pos s,
)
least-leaves (split SplitAxis.rows share f s) = omega (
  arith,
  least-leaves f,
  least-leaves s,
  length-append (leaves f) (leaves s),
  leaves-length_pos f,
  leaves-length_pos s,
)

pub maximum-append : (xs ys : List ℕ) → maximum (xs ++ ys) ≡ max (maximum xs) (maximum ys)
maximum-append [] ys = omega arith
maximum-append (x ∷ xs) ys = omega (arith, maximum-append xs ys)

maximum-member : (t : ℕ) (xs : List ℕ) → member t xs ≡ true → t ≤ maximum xs
maximum-member t [] h = cc
maximum-member t (x ∷ xs) h = ground (arith, maximum-member t xs)

maximum-small :
    (bound : ℕ) (xs : List ℕ)
    → 0 < bound
    → ((t : ℕ) → member t xs ≡ true → t < bound)
    → maximum xs < bound
maximum-small bound [] p h = p
maximum-small bound (x ∷ xs) p h =
    omega (arith, h x (rw (==_refl x) refl), maximum-small bound xs p (λ t m. h t (ground arith)))

-- The layout that `from_saved` puts together before it fits it to the terminal.
abbrev pub assembled : SavedLayout → Built → ℕ → ℕ → Layout
assembled data_in built height width = record {
  root = built.0;
  rows = height;
  columns = width;
  active = data_in.active;
  next_id = maximum built.2 + 1;
  count = length built.2;
  zoomed = data_in.zoomed && ltb 1 (length built.2);
  floating = false;
}

Ensures-resized :
    (P : Layout → Type 0) (l : Layout) (height width : ℕ)
    → Ensures P (resize l height width)
    → Ensures P (resized l height width)
Ensures-resized P l height width h = kept (resize l height width) h
  where
    kept :
        (r : Result Error Layout)
        → Ensures P r
        → Ensures {E = SavedError} P (elim r [ err e ↦ err (refused e) | ok out ↦ ok out ])
    kept (ok out) h = h
    kept (err e) h = tt

resize-IsValid :
    (data_in : SavedLayout) (b : Built) (height width : ℕ)
    → height < 65536
    → width < 65536
    → Sound [] b
    → length b.2 ≤ max_panes
    → member data_in.active b.2 ≡ true
    → Ensures IsValid (resize (assembled data_in b height width) height width)
unfolding resize
resize-IsValid data_in b height width p q sound few focused =
    elim (Bool-cases (ltb height (least b.0).0 || ltb width (least b.0).1)) [
      | inl small ↦ rw same (rw small tt)
      | inr room ↦ rw same (
          rw room (record {
            distinct = sound.unique;
            counted = omega (arith, sound.counted);
            few = few;
            focused = ground (arith, sound.known data_in.active);
            fresh = λ t m. omega (arith, maximum-member t b.2 (ground (arith, sound.known t)));
            id_room = omega (arith, maximum-small (2 ^ 63 - 1) b.2 (omega arith) small_ids);
            shares = sound.shares;
            fits = ground arith;
            zoom = λ h. ground arith;
            float = λ h. absurd (cc);
          }))
    ]
  where
    same : minimum b.0 ≡ least b.0
    same =
        minimum-least b.0 (omega (arith, least-leaves b.0, sound.counted))
          (omega (arith, least-leaves b.0, sound.counted))

    small_ids : (t : ℕ) → member t b.2 ≡ true → t < 2 ^ 63 - 1
    small_ids t m = sound.small t (ground (arith, sound.known t))

-- A layout that `from_saved` returns is valid, and no content rectangle of it is empty.
abbrev Restored : Layout → Type 0
Restored l = IsValid l × (any_empty (tiled_content_geometry l).panes ≡ false)

pub from_saved-IsValid :
    (data_in : SavedLayout) (height width : ℕ) {l : Layout}
    → height < 65536
    → width < 65536
    → from_saved data_in height width ≡ ok l
    → IsValid l × (any_empty (tiled_content_geometry l).panes ≡ false)
unfolding from_saved
from_saved-IsValid data_in height width {l} p q e =
    of_ensures Restored (from_saved data_in height width) checked e
  where
    nodes : List SavedNode
    nodes = data_in.nodes

    checked : Ensures Restored (from_saved data_in height width)
    checked = Ensures-fail_if Restored _ invalid_count _ (λ many.
        Ensures->>= Restored (build (length nodes + 1) nodes 0 [] []) _ (λ b read.
          Ensures-fail_if Restored
            (not (length b.1 == length nodes)
              || ltb max_panes (length b.2)
              || not (member data_in.active b.2))
            unreachable_or_unfocused _
            (λ fine.
              Ensures->>= Restored (resized (assembled data_in b height width) height width) _
                (λ l' fitted.
                  Ensures-fail_if Restored (any_empty (tiled_content_geometry l').panes)
                    no_content_space (ok l')
                    (λ room. (
                      of_ensures IsValid (resized (assembled data_in b height width) height width)
                          (Ensures-resized IsValid (assembled data_in b height width) height width (
                            resize-IsValid data_in b height width p q
                              (of_ensures (Sound []) _
                                (build-Sound (length nodes + 1) nodes 0 [] []) read)
                              (ground arith) (ground arith)))
                          fitted,
                      room,
                    ))))))

some_in_range :
    (nodes : List SavedNode) (i : ℕ) {node : SavedNode}
    → get_elem? nodes i ≡ some node
    → i < length nodes
some_in_range [] i h = absurd (cc)
some_in_range (x ∷ nodes) zero h = omega arith
some_in_range (x ∷ nodes) (suc i) h = omega (arith, some_in_range nodes i h)

read_node-Avoids :
    (child : ℕ → List ℕ → List ℕ → Result SavedError Built) (index : ℕ) (visited ids : List ℕ)
    (node : SavedNode)
    → ((i : ℕ) (v s : List ℕ) → index < i → Avoids out_of_fuel (child i v s))
    → Avoids out_of_fuel (read_node child index visited ids node)
unfolding read_node
read_node-Avoids child index visited ids (saved_pane id) below =
    Avoids-fail_if out_of_fuel (leb (2 ^ 63 - 1) id || member id ids) invalid_id
      (ok (pane id, index ∷ visited, id ∷ ids)) (λ h. cc) (λ fine. tt)
read_node-Avoids child index visited ids (saved_split is_rows share first second) below =
    Avoids-fail_if out_of_fuel
      (leb first index || leb second index || share.0 == 0 || leb share.1 share.0) invalid_links _
      (λ h. cc)
      (λ fine.
        Avoids->>= out_of_fuel (child first (index ∷ visited) ids) _
          (below first (index ∷ visited) ids (ground arith))
          (λ f found.
            Avoids->>= out_of_fuel (child second f.1 f.2) _ (below second f.1 f.2 (ground arith))
              (λ s read. tt)))

build-Avoids :
    (fuel : ℕ) (nodes : List SavedNode) (index : ℕ) (visited ids : List ℕ)
    → 0 < fuel
    → length nodes < index + fuel
    → Avoids out_of_fuel (build fuel nodes index visited ids)
unfolding build
build-Avoids zero nodes index visited ids some_fuel h = absurd (omega arith)
build-Avoids (suc fuel) nodes index visited ids some_fuel h =
    Avoids-fail_if out_of_fuel (member index visited) repeated_node _ (λ e. cc)
      (λ new.
        Avoids->>= out_of_fuel (ok_or (get_elem? nodes index) missing_node) _
          (Avoids-ok_or out_of_fuel (get_elem? nodes index) missing_node (λ e. cc))
          (λ node found.
            let inside =
              some_in_range nodes index (ok_or-eq-ok (get_elem? nodes index) missing_node found) in
            read_node-Avoids (build fuel nodes) index visited ids node
              (λ i v s below. build-Avoids fuel nodes i v s (omega (arith, inside)) (omega arith))))

Avoids-resized : (l : Layout) (height width : ℕ) → Avoids out_of_fuel (resized l height width)
Avoids-resized l height width = kept (resize l height width)
  where
    kept :
        (r : Result Error Layout)
        → Avoids {E = SavedError} {A = Layout} out_of_fuel
            (elim r [ err e ↦ err (refused e) | ok out ↦ ok out ])
    kept (ok out) = tt
    kept (err e) = λ h. cc

-- The reader ends: no descent comes back to a node, so its fuel is never used up.
pub from_saved_ends :
    (data_in : SavedLayout) (height width : ℕ) → from_saved data_in height width ≢ err out_of_fuel
unfolding from_saved
from_saved_ends data_in height width = Avoids-≢ out_of_fuel (from_saved data_in height width) (
    Avoids-fail_if out_of_fuel (length nodes == 0 || ltb (max_panes * 2 - 1) (length nodes))
      invalid_count (build (length nodes + 1) nodes 0 [] [] >>= checked) (λ e. cc)
      (λ many.
        Avoids->>= out_of_fuel (build (length nodes + 1) nodes 0 [] []) checked
          (build-Avoids (length nodes + 1) nodes 0 [] [] (omega arith) (omega arith))
          (λ b read. checked-Avoids b)))
  where
    nodes : List SavedNode
    nodes = data_in.nodes

    roomy : Layout → Result SavedError Layout
    roomy l = fail_if (any_empty (tiled_content_geometry l).panes) no_content_space >> ok l

    unfocused : Built → Bool
    unfocused b =
        not (length b.1 == length nodes)
        || ltb max_panes (length b.2)
        || not (member data_in.active b.2)

    checked : Built → Result SavedError Layout
    checked b =
        fail_if (unfocused b) unreachable_or_unfocused
        >> (resized (assembled data_in b height width) height width >>= roomy)

    checked-Avoids : (b : Built) → Avoids out_of_fuel (checked b)
    checked-Avoids b =
        Avoids-fail_if out_of_fuel (unfocused b) unreachable_or_unfocused
          (resized (assembled data_in b height width) height width >>= roomy) (λ e. cc)
          (λ fine.
            Avoids->>= out_of_fuel (resized (assembled data_in b height width) height width) roomy
              (Avoids-resized (assembled data_in b height width) height width)
              (λ l fitted.
                Avoids-fail_if out_of_fuel (any_empty (tiled_content_geometry l).panes)
                  no_content_space (ok l) (λ e. cc) (λ room. tt)))
