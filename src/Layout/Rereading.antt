-- ===== src/Layout/Rereading.antt =====
-- Saving a layout and reading it back, src/layout/snapshot.rs.
use rustmux.Base.{
  ap, ◌&&◌, length, ltb, not, refl, sym, ◌==◌, ◌||◌, List, [], arith, false, max, true, ◌+◌, ◌-◌,
  ◌^◌, ◌≤◌, ℕ, ◌≡◌, ◌<◌,
}
use rustmux.Layout.Geometry.{resize, Layout, Error, tiled_content_geometry}
use rustmux.Layout.Node.{split, pane, Node}
use rustmux.Layout.Saved.{
  refused, SavedError, build, SavedNode, any_empty, resized, maximum, from_saved, saved,
}
use rustmux.Layout.Valid.{IsValid}
use rustmux.Layout.Minimum.{minimum-least, least}
use rustmux.Layout.Leaves.{leaves}
use rustmux.Base.Members.{member}
use rustmux.Base.Result.{err, Result, ok}
use rustmux.Layout.Writing.{
  append-records, member-gather, length-visit, build-records, records-Written, Written, Readable,
  size-leaves, length-records, length-gather, size, records, visit, gather,
}
use rustmux.Layout.Reading.{maximum-append, assembled}
use rustmux.Protocol.Pushing.{append-nil}

maximum-gather :
    (n : Node) (ids : List ℕ) → maximum (gather n ids) ≡ max (maximum (leaves n)) (maximum ids)
maximum-gather (pane id) ids = omega arith
maximum-gather (split axis share f s) ids = omega (
  arith,
  maximum-gather s (gather f ids),
  maximum-gather f ids,
  maximum-append (leaves f) (leaves s),
)

-- The layout that comes back: fresh identities start right behind the largest one in use.
abbrev reread : Layout → ℕ → ℕ → Layout
reread l height width = record l {
  rows = height;
  columns = width;
  next_id = maximum (leaves l.root) + 1;
}

saved-reread :
    (l : Layout) (height width : ℕ)
    → IsValid l
    → l.floating ≡ false
    → assembled (saved l) (l.root, visit 0 l.root [], gather l.root []) height width
      ≡ reread l height width
unfolding saved
saved-reread l height width v tiled = rw (tiled, still_zoomed, top, counted) refl
  where
    counted : length (gather l.root []) ≡ l.count
    counted = omega (arith, length-gather l.root [], v.counted)

    still_zoomed : (l.zoomed && ltb 1 (length (gather l.root []))) ≡ l.zoomed
    still_zoomed = ground (arith, counted, v.zoom)

    top : maximum (gather l.root []) ≡ maximum (leaves l.root)
    top = omega (arith, maximum-gather l.root [])

resize-reread :
    (l : Layout) (height width : ℕ)
    → (least l.root).0 ≤ height
    → (least l.root).1 ≤ width
    → height < 65536
    → width < 65536
    → resize (reread l height width) height width ≡ ok (reread l height width)
unfolding resize
resize-reread l height width p q small_height small_width =
    rw (minimum-least l.root (omega arith) (omega arith)) (ground arith)

resized-reread :
    (l : Layout) (height width : ℕ)
    → resize (reread l height width) height width ≡ ok (reread l height width)
    → resized (reread l height width) height width ≡ ok (reread l height width)
resized-reread l height width e =
    ap
      (λ (r : Result Error Layout). elim r as (λ x. Result SavedError Layout) [
        | err e ↦ err (refused e)
        | ok out ↦ ok out
      ])
      e

-- A tiled layout whose identities fit a signed integer is read back from its records, on any terminal that
-- has room for it and for the contents of its panes.
pub from_saved-saved :
    (l : Layout) (height width : ℕ)
    → IsValid l
    → l.floating ≡ false
    → ((t : ℕ) → member t (leaves l.root) ≡ true → t < 2 ^ 63 - 1)
    → (least l.root).0 ≤ height
    → (least l.root).1 ≤ width
    → height < 65536
    → width < 65536
    → any_empty (tiled_content_geometry (record l { rows = height; columns = width })).panes ≡ false
    → from_saved (saved l) height width
      ≡ ok (record l { rows = height; columns = width; next_id = maximum (leaves l.root) + 1 })
unfolding from_saved saved tiled_content_geometry
from_saved-saved l height width v tiled small p q small_height small_width room =
    rw (append-records l.root [] 0 refl) (
      rw (counted, read)
        (rw linked (
          rw
            (
              saved-reread l height width v tiled,
              resized-reread l height width
                  (resize-reread l height width p q small_height small_width),
            )
            (rw room refl))))
  where
    nodes : List SavedNode
    nodes = records 0 l.root

    measured : length nodes ≡ size l.root
    measured = length-records 0 l.root

    counted : (length nodes == 0 || ltb 127 (length nodes)) ≡ false
    counted = ground (arith, measured, size-leaves l.root, v.counted, v.few)

    readable : Readable [] [] 0 l.root
    readable = record {
      places = λ t h k. refl;
      fresh = λ t m. refl;
      unique = v.distinct;
      small = small;
      shares = v.shares;
    }

    written : Written nodes 0 l.root
    written = records-Written [] 0 l.root [] nodes refl (sym (append-nil nodes))

    read : build (length nodes + 1) nodes 0 [] [] ≡ ok (l.root, visit 0 l.root [], gather l.root [])
    read =
        build-records (length nodes + 1) nodes 0 l.root [] [] (omega (arith, measured)) written
          readable

    linked :
        (not (length (visit 0 l.root []) == length nodes)
          || ltb 64 (length (gather l.root []))
          || not (member l.active (gather l.root [])))
        ≡ false
    linked = ground (
      arith,
      measured,
      length-visit 0 l.root [],
      length-gather l.root [],
      member-gather l.active l.root [],
      v.counted,
      v.few,
      v.focused,
    )
