-- ===== src/Layout/Valid.antt =====
-- The invariant of `struct Layout`, and what the geometry of a valid layout holds.
use rustmux.Base.{
  ◌≢◌, ==→≡, ltb, refl, ◌==◌, ◌||◌, Bool-cases, [], ap, arith, false, inl, inr, length, some, sym,
  true, ◌<◌, ◌^◌, ◌∙◌, ◌∷◌, ◌≡◌, ◌≤◌, ℕ, List,
}
use rustmux.Layout.Rect.{Rect}
use rustmux.Layout.Node.{minimum, PaneId}
use rustmux.Layout.Geometry.{
  panic, Error, Layout, max_panes, canvas, tiled_geometry, find_pane, new, into_floating,
  toggle_zoom, resize,
}
use rustmux.Layout.Leaves.{leaves}
use rustmux.Layout.Minimum.{least, Fits, minimum-least}
use rustmux.Layout.Room.{tiles, panes-place, ids, ids-tiles, find_pane-ids}
use rustmux.Layout.Adjusting.{Shares}
use rustmux.Base.Members.{member, Distinct}
use rustmux.Base.Result.{err, Result, of_ensures, Ensures, ok}

pub record IsValid (l : Layout) : Type 0 where
  pub distinct : Distinct (leaves l.root)
  pub counted : l.count ≡ length (leaves l.root)
  pub few : l.count ≤ max_panes
  pub focused : member l.active (leaves l.root) ≡ true
  pub fresh : (t : PaneId) → member t (leaves l.root) ≡ true → t < l.next_id
  pub id_room : l.next_id < 2 ^ 64
  pub shares : Shares l.root
  pub fits : Fits l.root (canvas l)
  pub zoom : l.zoomed ≡ true → 1 < l.count
  pub float : l.floating ≡ true → l.count ≡ 1

only_member : (a : ℕ) (xs : List ℕ) → length xs ≡ 1 → member a xs ≡ true → xs ≡ a ∷ []
only_member a [] h m = cc
only_member a (x ∷ []) h m = ground arith
only_member a (x ∷ y ∷ xs) h m = absurd (omega arith)

-- The panes that the tiled geometry of a valid layout lists are the leaves in traversal order.
pub ids-tiled_geometry : (l : Layout) → IsValid l → ids (tiled_geometry l).panes ≡ leaves l.root
unfolding tiled_geometry
ids-tiled_geometry l v = elim (Bool-cases l.floating) [
  | inl floats ↦
      rw floats
        (sym (only_member l.active (leaves l.root) (sym v.counted ∙ v.float floats) v.focused))
  | inr tiled ↦
      rw tiled (ap ids (panes-place l.root (canvas l) _ v.fits) ∙ ids-tiles l.root (canvas l))
]

pub panes-tiled :
    (l : Layout)
    → IsValid l
    → l.floating ≡ false
    → (tiled_geometry l).panes ≡ tiles l.root (canvas l)
unfolding tiled_geometry
panes-tiled l v tiled = rw tiled (panes-place l.root (canvas l) _ v.fits)

pub find_leaf :
    (l : Layout) (t : PaneId)
    → IsValid l
    → member t (leaves l.root) ≡ true
    → (r : Rect) × (find_pane t (tiled_geometry l).panes ≡ some r)
find_leaf l t v m = find_pane-ids t (tiled_geometry l).panes (rw (ids-tiled_geometry l v) m)

new-Ensures :
    (height width : ℕ) → height < 65536 → width < 65536 → Ensures IsValid (new height width)
unfolding new
new-Ensures height width p q = elim (Bool-cases (height == 0 || width == 0)) [
  | inl empty ↦ rw empty tt
  | inr room ↦ rw room (record {
    distinct = (refl, tt);
    counted = refl;
    few = omega arith;
    focused = refl;
    fresh = λ t m. ground arith;
    id_room = omega arith;
    shares = tt;
    fits = ground arith;
    zoom = λ h. absurd (cc);
    float = λ h. absurd (cc);
  })
]

-- A new layout is valid.
pub new-IsValid :
    (height width : ℕ) {l : Layout}
    → height < 65536
    → width < 65536
    → new height width ≡ ok l
    → IsValid l
unfolding new
new-IsValid height width {l} p q e =
    of_ensures IsValid (new height width) (new-Ensures height width p q) e

pub toggle_zoom-IsValid : (l : Layout) → IsValid l → IsValid (toggle_zoom l).0
unfolding toggle_zoom
toggle_zoom-IsValid l v = record {
  distinct = v.distinct;
  counted = v.counted;
  few = v.few;
  focused = v.focused;
  fresh = v.fresh;
  id_room = v.id_room;
  shares = v.shares;
  fits = v.fits;
  zoom = λ h. ground arith;
  float = v.float;
}

pub into_floating-IsValid :
    (l : Layout) {l' : Layout} → IsValid l → into_floating l ≡ ok l' → IsValid l'
unfolding into_floating
into_floating-IsValid l {l'} v e = of_ensures IsValid (into_floating l) floated e
  where
    floated : Ensures IsValid (into_floating l)
    floated = elim (Bool-cases (l.count == 1)) [
      | inl one ↦ rw one (record {
        distinct = v.distinct;
        counted = v.counted;
        few = v.few;
        focused = v.focused;
        fresh = v.fresh;
        id_room = v.id_room;
        shares = v.shares;
        fits = v.fits;
        zoom = λ h. absurd (cc);
        float = λ h. ==→≡ l.count 1 one;
      })
      | inr many ↦ rw many tt
    ]

pub resize-IsValid :
    (l : Layout) (height width : ℕ) {l' : Layout}
    → height < 65536
    → width < 65536
    → IsValid l
    → resize l height width ≡ ok l'
    → IsValid l'
unfolding resize
resize-IsValid l height width {l'} p q v e = of_ensures IsValid (resize l height width) resized e
  where
    same : minimum l.root ≡ least l.root
    same = minimum-least l.root (omega arith) (omega arith)

    resized : Ensures IsValid (resize l height width)
    resized = elim (Bool-cases (ltb height (least l.root).0 || ltb width (least l.root).1)) [
      | inl small ↦ rw same (rw small tt)
      | inr room ↦ rw same (
          rw room (record {
            distinct = v.distinct;
            counted = v.counted;
            few = v.few;
            focused = v.focused;
            fresh = v.fresh;
            id_room = v.id_room;
            shares = v.shares;
            fits = ground arith;
            zoom = v.zoom;
            float = v.float;
          }))
    ]

-- Every success satisfies `P`, and no failure is a panic.
abbrev pub Safe : {A : Type 0} → (A → Type 0) → Result Error A → Type 0
Safe P (ok a) = P a
Safe P (err e) = e ≢ panic
