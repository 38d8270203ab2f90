-- ===== src/Layout/Samples.antt =====
-- Layouts of one, two and three panes on a terminal of 24 rows and 80 columns, for tests.
use rustmux.Base.{arith, refl, ◌≡◌, false}
use rustmux.Base.Result.{ok}
use rustmux.Layout.Rect.{SplitAxis}
use rustmux.Layout.Node.{Node}
use rustmux.Layout.Geometry.{Layout, new}
use rustmux.Layout.Valid.{IsValid, new-IsValid}

abbrev pub single : Layout
single = record {
  root = Node.pane 0;
  rows = 24;
  columns = 80;
  active = 0;
  next_id = 1;
  count = 1;
  zoomed = false;
  floating = false;
}

-- Pane 0 on the left; on the right pane 1 above pane 2.
abbrev pub three : Layout
three = record {
  root =
      Node.split SplitAxis.columns (1, 2) (Node.pane 0)
        (Node.split SplitAxis.rows (1, 2) (Node.pane 1) (Node.pane 2));
  rows = 24;
  columns = 80;
  active = 2;
  next_id = 3;
  count = 3;
  zoomed = false;
  floating = false;
}

abbrev pub two : Layout
two = record {
  root = Node.split SplitAxis.columns (1, 2) (Node.pane 0) (Node.pane 1);
  rows = 24;
  columns = 80;
  active = 1;
  next_id = 2;
  count = 2;
  zoomed = false;
  floating = false;
}

single_runs : new 24 80 ≡ ok single
unfolding new
single_runs = refl

pub single-IsValid : IsValid single
single-IsValid = new-IsValid 24 80 (omega arith) (omega arith) single_runs

pub three-IsValid : IsValid three
three-IsValid = record {
  distinct = (refl, (refl, (refl, tt)));
  counted = refl;
  few = omega arith;
  focused = refl;
  fresh = λ t m. ground arith;
  id_room = omega arith;
  shares = omega arith;
  fits = omega arith;
  zoom = λ h. absurd (cc);
  float = λ h. absurd (cc);
}
