-- ===== src/Layout/Hitboxes.antt =====
-- The hit boxes of the separators: one for each separator of the geometry, in the same order and
-- numbered from zero.
use rustmux.Base.{[], suc, ◌++◌, ◌∷◌, ◌≡◌, ℕ, List}
use rustmux.Layout.Rect.{Rect}
use rustmux.Layout.Node.{Node, pane, split, Geometry, Hitbox}
use rustmux.Layout.Geometry.{Layout}
use rustmux.Layout.Cut.{cut}
use rustmux.Layout.Minimum.{first_cells}

-- The separators of a tree in a rectangle, each before those of its children.
abbrev pub gaps : Node → Rect → List Rect
gaps (pane id) r = []
gaps (split axis share f s) r =
    let c = cut axis r (first_cells axis share f s r) in c.separator ∷ (gaps f c.a ++ gaps s c.b)

abbrev pub areas : List Hitbox → List Rect
areas [] = []
areas (h ∷ hs) = h.area ∷ areas hs

abbrev pub Numbered : ℕ → List Hitbox → Type 0
Numbered k [] = Unit
Numbered k (h ∷ hs) = (h.index ≡ k) × Numbered (suc k) hs
