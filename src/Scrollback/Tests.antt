-- ===== src/Scrollback/Tests.antt =====
-- Runs of the model of src/scrollback.rs.
use rustmux.Base.{arith, refl, some, ℕ, ◌∷◌, ◌≡◌, [], true}
use rustmux.Scrollback.Rows.{HistoryRow, Scrollback, push}
use rustmux.Scrollback.Bounds.{push-Retained, Retained, Bounded}

abbrev line : ℕ → HistoryRow ℕ
line n = record { cells = n ∷ n ∷ []; continued = true; used = 1 }

abbrev full : Scrollback ℕ
full = record { rows = line 1 ∷ line 2 ∷ []; cells = 4; max_lines = 2 }

full-Bounded : Bounded full
full-Bounded = record { lines = omega arith; counted = refl; limit = omega arith }

push_drops :
    push full (3 ∷ 3 ∷ []) true 1
    ≡ some (record { rows = line 2 ∷ line 3 ∷ []; cells = 4; max_lines = 2 })
unfolding push
push_drops = refl

push-Retained_example :
    (out : Scrollback ℕ) × (push full (3 ∷ []) true 4 ≡ some out)
    × Bounded out
    × (out.max_lines ≡ 2)
    × Retained full (3 ∷ []) true 4 out.rows
push-Retained_example = push-Retained full (3 ∷ []) true 4 full-Bounded
