-- ===== src/Visuals/Lift/Machine/Tests.antt =====
-- Runs of the lift machine at concrete actions, and the theorems applied to them.
use megapet.Common.{ℕ, ◌≡◌, refl, List, [], ◌∷◌, Option, some, true, false, max, min, inr}
use megapet.Common.Sample.{sample_num}
use megapet.Mech.Geometry.{clamp, lerp}
use megapet.Mech.Drive.{move_to, drive_travel, belt_ratio}
use megapet.Visuals.Easing.{stage, ease_in_out, ease_out_back, limit_step, approach}
use megapet.Visuals.Scale.{to_fraction, sweep_ms}
use megapet.Visuals.Pointer
use megapet.Visuals.Move
use megapet.Visuals.Lift.Layout.{down, car_bottom, ride_ms, cross_for}
use megapet.Visuals.Lift.Reversing
use megapet.Visuals.Lift.Car.{Order, shift, ride}
use megapet.Visuals.Lift.Car
use megapet.Visuals.Lift.Machine.{
  new, perform, order, reverse, land, ride_to, aim, rested, reset, turn, drain, update_car, advance,
  settle, idle, update, Action, aims, updates, reverses, lands, resets, act, run,
}
use megapet.Visuals.Lift.Machine.Orders.{direction_of}
use megapet.Visuals.Lift.Machine.Direction.{run-Latched, AllSane}
use megapet.Visuals.Lift.Machine.Shaft.{InShaft, run-InShaft, advance-pointer}

machine : Unit {0}
unfolding new perform order reverse land ride_to aim rested reset turn drain update_car advance
    settle idle update act run Pointer.new Pointer.aim Pointer.asked Pointer.turned
    Pointer.begin_fall Pointer.falling Pointer.busy_ms Pointer.settled Pointer.fall Pointer.track
    Pointer.update Pointer.settle Move.new Move.start Move.snap Move.update Move.value Move.running
    Move.remaining_ms Reversing.new Reversing.part Reversing.cross Reversing.lever_angle
    Reversing.begin Reversing.seat Reversing.update Car.new Car.drive Car.take Car.land Car.ride_to
    Car.home Car.clear Car.carry Car.let_go clamp lerp move_to drive_travel belt_ratio stage
    ease_in_out ease_out_back limit_step approach to_fraction sweep_ms car_bottom ride_ms max min
machine = tt

-- The reversal is asked for while the car runs into its floor.
abbrev reversal : List (Action (Option ℕ))
reversal = lands ∷ reverses down ∷ updates (some 500) ∷ updates (some 2000) ∷ []

waits :
    ((run (lands ∷ reverses down ∷ updates (some 500) ∷ []) new).crossed ≡ true)
    × ((run (lands ∷ reverses down ∷ updates (some 500) ∷ []) new).car.orders ≡ shift down ∷ [])
    × ((run reversal new).crossed ≡ false)
    × ((run reversal new).car.orders ≡ [])
unfolding machine
waits = (refl, refl, refl, refl)

reversal-AllSane : AllSane reversal new
unfolding machine
reversal-AllSane = (tt, (tt, ((refl, refl), ((refl, refl), tt))))

reversed_home : Car.free (run reversal new).car ≡ true
unfolding machine
reversed_home = refl

run-Latched_example :
    (direction_of (run reversal new).crossed ≡ (run reversal new).drive)
    × ((run reversal new).gear.cross_to ≡ cross_for (run reversal new).drive)
run-Latched_example = run-Latched reversal reversal-AllSane reversed_home

new-InShaft : InShaft new.car
unfolding machine
new-InShaft = (refl, inr (refl, refl))

run-InShaft_example : InShaft (run (aims (some 900) ∷ updates (some 16) ∷ resets ∷ []) new).car
run-InShaft_example =
    run-InShaft (aims (some 900) ∷ updates (some 16) ∷ resets ∷ []) new new-InShaft

taken_holding : (run (lands ∷ []) new).car.travel.held ≡ true
unfolding machine
taken_holding = refl

-- The car is landing, and the pointer is sent elsewhere.
advance-pointer_example :
    (advance
      (some 16)
      (record (run (lands ∷ []) new) { pointer = Pointer.aim (some 900) Pointer.new })).car
    ≡ (update_car (some 16) (record (run (lands ∷ []) new) {
      gear = Reversing.update (some 16) (run (lands ∷ []) new).gear;
    })).car
unfolding machine
advance-pointer_example =
    advance-pointer (some 16) (Pointer.aim (some 900) Pointer.new) (run (lands ∷ []) new) refl
