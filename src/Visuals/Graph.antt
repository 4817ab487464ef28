-- ===== src/Visuals/Graph.antt =====
-- web/src/ui/visuals/graph.ts: where the points of a session are drawn, and which of them.
pub mod Skip
pub mod Window
mod Tests
use megapet.Common.{
  ℕ, ◌+◌, ◌-◌, if◌then◌else◌, Bool, true, false, not, ◌||◌, List, [], ◌∷◌, Num, lt, min, max,
}
use mathlib.Core.List.{reverse}
use megapet.Engine.Series.{SeriesPoint}
use megapet.Visuals.Scale.{to_fraction}

pub record GraphView (R : Type 0) : Type 0 where
  pub width : R
  pub height : R
  pub from_ms : R
  pub to_ms : R

pub data SeriesKey : Type 0 where
  down up : SeriesKey

abbrev pub axis_gutter : ℕ
axis_gutter = 18

-- The loop that moves an end on while the point next to it is outside.
unfoldable pub skip : {A : Type 0} → (A → Bool) → List A → List A
skip f [] = []
skip f (p ∷ []) = p ∷ []
skip f (p ∷ q ∷ rest) = let moved = skip f (q ∷ rest) in if f q then moved else p ∷ q ∷ rest

module _ ⦃F : Num⦄ where
  unfoldable pub y_for : F.R → GraphView F.R → F.R
  y_for mbps view =
      let usable = max (F.of_ℕ 0) (F.sub view.height (F.of_ℕ axis_gutter)) in
      F.sub usable (F.mul (to_fraction mbps) usable)

  unfoldable pub x_for : F.R → GraphView F.R → F.R
  x_for t view =
      let span = F.sub view.to_ms view.from_ms in
      let fraction = F.div (F.sub t view.from_ms) span in
      if lt (F.of_ℕ 0) span
      then F.mul (max (F.of_ℕ 0) (min (F.of_ℕ 1) fraction)) view.width
      else view.width

  abbrev pub before : GraphView F.R → SeriesPoint F.R → Bool
  before view p = lt (F.of_ℕ p.t) view.from_ms

  abbrev pub past : GraphView F.R → SeriesPoint F.R → Bool
  past view p = lt view.to_ms (F.of_ℕ p.t)

  -- `first` goes up from the start, then `last` down from the end.
  unfoldable pub visible : List (SeriesPoint F.R) → GraphView F.R → List (SeriesPoint F.R)
  visible points view = reverse (skip (past view) (reverse (skip (before view) points)))

  abbrev pub reading : SeriesKey → SeriesPoint F.R → F.R
  reading down p = p.down
  reading up p = p.up

  unfoldable pub has_data : List (SeriesPoint F.R) → SeriesKey → Bool
  has_data [] key = false
  has_data (p ∷ rest) key = lt (F.of_ℕ 0) (reading key p) || has_data rest key
