-- ===== src/Panes/Tests.antt =====
-- Runs of the model of src/pane_set.rs, and its theorems at a set of three panes.
use rustmux.Base.{arith, refl, some, ℕ, ◌+◌, ◌∷◌, ◌≡◌, []}
use rustmux.Base.Result.{Result, ok}
use rustmux.Layout.Rect.{SplitAxis, Rect}
use rustmux.Layout.Node.{PaneId}
use rustmux.Layout.Samples.{single, three, single-IsValid, three-IsValid}
use rustmux.Panes.Set.{split_with, PaneSet, Failure, close, lookup, without}
use rustmux.Layout.Samples.{two}
use rustmux.Panes.Owning.{Owns}
use rustmux.Panes.Changing.{split_with-Grew, Grew, close_owned}
use rustmux.Panes.Moving.{transfer_active_to}
use rustmux.Panes.Transfers.{transfer_active_to-Gave, Gave}

-- The content of pane `n` is the number `10 + n`.
abbrev owner : PaneSet ℕ
owner = record { layout = three; entries = (0, 10) ∷ (1, 11) ∷ (2, 12) ∷ [] }

abbrev lone : PaneSet ℕ
lone = record { layout = single; entries = (0, 20) ∷ [] }

owner-Owns : Owns owner
owner-Owns = record {
  valid = three-IsValid;
  once = (refl, (refl, (refl, tt)));
  same = λ t. refl;
  as_many = refl;
}

lone-Owns : Owns lone
lone-Owns = record { valid = single-IsValid; once = (refl, tt); same = λ t. refl; as_many = refl }

close_owned_example :
    (out : PaneSet ℕ × ℕ) × (close owner 1 ≡ ok out)
    × (lookup 1 owner.entries ≡ some out.1)
    × (out.0.entries ≡ without 1 owner.entries)
    × Owns out.0
close_owned_example = close_owned owner owner-Owns 1 refl (omega arith)

abbrev factory : PaneId → Rect → Result Failure (ℕ × ℕ)
factory id rect = ok (10 + id, rect.columns)

abbrev split_lone : PaneSet ℕ × PaneId × ℕ
split_lone =
    (record { layout = record two { active = 1 }; entries = (0, 20) ∷ (1, 11) ∷ [] }, 1, 38)

split_lone_runs : split_with lone SplitAxis.columns factory ≡ ok split_lone
unfolding split_with rustmux.Layout.Geometry.tiled_geometry rustmux.Layout.Node.place
    rustmux.Layout.Geometry.tiled_content_geometry rustmux.Layout.Node.split_at
    rustmux.Layout.Geometry.inset rustmux.Base.Word.add16 rustmux.Layout.Rect.split_rects
    rustmux.Base.Word.sub16 rustmux.Base.Word.to_u16 rustmux.Layout.Node.minimum
split_lone_runs = refl

split_with-Grew_example : Grew lone lone-Owns factory split_lone
split_with-Grew_example = split_with-Grew lone lone-Owns factory SplitAxis.columns split_lone_runs

abbrev transferred : PaneSet ℕ × PaneSet ℕ
transferred = (
  record { layout = record two { next_id = 3 }; entries = (0, 10) ∷ (1, 11) ∷ [] },
  record { layout = two; entries = (0, 20) ∷ (1, 12) ∷ [] },
)

transfer_runs : transfer_active_to owner lone SplitAxis.columns ≡ ok transferred
unfolding transfer_active_to rustmux.Layout.Geometry.tiled_geometry rustmux.Layout.Node.place
    rustmux.Layout.Geometry.tiled_content_geometry rustmux.Layout.Node.split_at
    rustmux.Layout.Geometry.inset rustmux.Base.Word.add16 rustmux.Layout.Rect.split_rects
    rustmux.Base.Word.sub16 rustmux.Base.Word.to_u16 rustmux.Layout.Node.minimum
    rustmux.Layout.Node.remove
transfer_runs = refl

transfer_active_to-Gave_example :
    (content : ℕ) × Gave owner content transferred.0
    × (transferred.1.entries ≡ (0, 20) ∷ (1, content) ∷ [])
    × Owns transferred.1
transfer_active_to-Gave_example =
    transfer_active_to-Gave owner lone SplitAxis.columns owner-Owns lone-Owns transfer_runs
