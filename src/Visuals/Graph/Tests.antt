-- ===== src/Visuals/Graph/Tests.antt =====
-- The points that a concrete view shows, and the theorem applied to them.
use megapet.Common.{ℕ, ◌≡◌, refl, List, [], ◌∷◌, Option, some, arith, true, false, max, min}
use megapet.Common.Sample.{sample_num}
use megapet.Engine.Series.{SeriesPoint}
use megapet.Visuals.Graph.{GraphView, down, up, skip, visible, has_data, x_for}
use megapet.Visuals.Graph.Window.{IsWindow, visible-IsWindow}

graph : Unit {0}
unfolding skip visible has_data x_for max min
graph = tt

abbrev at : ℕ → SeriesPoint (Option ℕ)
at t = record { t = t; down = some t; up = some 0 }

abbrev points : List (SeriesPoint (Option ℕ))
points = at 0 ∷ at 10 ∷ at 20 ∷ at 30 ∷ at 40 ∷ at 50 ∷ []

abbrev view : GraphView (Option ℕ)
view = record { width = some 640; height = some 200; from_ms = some 15; to_ms = some 35 }

shown : visible points view ≡ at 10 ∷ at 20 ∷ at 30 ∷ at 40 ∷ []
unfolding graph
shown = refl

carried : (has_data points down ≡ true) × (has_data points up ≡ false)
unfolding graph
carried = (refl, refl)

edges : (x_for (some 0) view ≡ some 0) × (x_for (some 99) view ≡ some 640)
unfolding graph
edges = (refl, refl)

visible-IsWindow_example : IsWindow view points (visible points view)
visible-IsWindow_example =
    visible-IsWindow view points
      (omega arith, (omega arith, (omega arith, (omega arith, (omega arith, (omega arith, tt))))))
      (omega arith, (omega arith, (omega arith, (omega arith, (omega arith, (omega arith, tt))))))
