-- ===== src/Visuals/Lift/Layout.antt =====
-- web/src/ui/visuals/lift/layout.ts: the sizes that the machine computes with.
use megapet.Common.{ℕ, Num, max}
use megapet.Mech.Geometry.{to_radians}
use megapet.Visuals.Scale.{ride_min_ms, ride_full_ms}

-- `Drive`: which way the car travels as the reading rises.
pub data Drive : Type 0 where
  up down : Drive

module _ ⦃F : Num⦄ where
  abbrev pub hub_teeth : ℕ
  hub_teeth = 15

  abbrev pub lay_teeth : ℕ
  lay_teeth = 20

  -- Both belt pulleys.
  abbrev pub pulley_radius : F.R
  pulley_radius = F.of_ℕ 14

  abbrev pub sheave_radius : F.R
  sheave_radius = F.of_ℕ 26

  abbrev pub start_angle : F.R
  start_angle = F.of_ℕ 225

  abbrev pub sweep_rad : F.R
  sweep_rad = to_radians (F.of_ℕ 270)

  abbrev pub drive_ratio : F.R
  drive_ratio = F.div (F.of_ℕ hub_teeth) (F.of_ℕ lay_teeth)

  -- `TRAVEL`, and `CAR.top`, `CAR_BOTTOM` and `CAR_REST`.
  abbrev pub travel_length : F.R
  travel_length = F.mul (F.mul drive_ratio sweep_rad) sheave_radius

  abbrev pub car_top : F.R
  car_top = F.of_ℕ 206

  unfoldable pub car_bottom : F.R
  car_bottom = F.add car_top travel_length

  abbrev pub car_rest : F.R
  car_rest = car_bottom

  -- `FORK.open`, `FORK.crossed`, and the two seats of the lever.
  abbrev pub fork_open : F.R
  fork_open = F.of_ℕ 0

  abbrev pub fork_crossed : F.R
  fork_crossed = F.of_ℕ 40

  abbrev pub fork_travel : F.R
  fork_travel = F.sub fork_crossed fork_open

  abbrev pub lever_seat : Drive → F.R
  lever_seat up = F.div fork_travel (F.of_ℕ 2)
  lever_seat down = F.div (F.sub (F.of_ℕ 0) fork_travel) (F.of_ℕ 2)

  abbrev pub cross_for : Drive → F.R
  cross_for up = F.of_ℕ 1
  cross_for down = F.of_ℕ 0

  unfoldable pub ride_ms : (distance : F.R) → F.R
  ride_ms distance = max ride_min_ms (F.round (F.mul (F.div distance travel_length) ride_full_ms))
