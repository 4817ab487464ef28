-- ===== src/Visuals/Lift/Machine.antt =====
-- web/src/ui/visuals/lift/machine/machine.ts: the lift machine.
--
-- The parts of the train are fields, and `turn` hands a move from one to the next as they are put
-- together in the constructor. `place`, which writes the parts into a scene, is left out.
pub mod Taken
pub mod Orders
pub mod Direction
pub mod Shaft
mod Tests
use megapet.Common.{
  ℕ, Bool, true, false, not, ◌&&◌, ◌||◌, if◌then◌else◌, List, [], ◌∷◌, ◌++◌, Num, max, lt,
}
use megapet.Mech.Geometry.{to_radians}
use megapet.Mech.Drive.{belt_ratio}
use megapet.Visuals.Easing.{opposite}
use megapet.Visuals.Scale.{sweep_ms}
use megapet.Visuals.Move
use megapet.Visuals.Pointer.{Pointer}
use megapet.Visuals.Pointer
use megapet.Visuals.Lift.Layout.{
  Drive, up, down, hub_teeth, lay_teeth, pulley_radius, start_angle, sweep_rad, car_rest, ride_ms,
}
use megapet.Visuals.Lift.Reversing.{ReversingGear}
use megapet.Visuals.Lift.Reversing
use megapet.Visuals.Lift.Car.{Car, Order, shift, ride}
use megapet.Visuals.Lift.Car

abbrev pub is_up : Drive → Bool
is_up up = true
is_up down = false

pub record LiftMachine (R : Type 0) : Type 0 where
  pub pointer : Pointer R
  pub car : Car R
  pub gear : ReversingGear R
  -- what the two shafts have turned
  pub hub : R
  pub lay : R
  pub crossed : Bool
  pub braked : Bool
  pub drive : Drive

module _ ⦃F : Num⦄ where
  -- The ratio of the hub and the layshaft.
  abbrev pub pair_ratio : F.R
  pair_ratio = F.div (opposite (F.of_ℕ hub_teeth)) (F.of_ℕ lay_teeth)

  unfoldable pub new : LiftMachine F.R
  new = record {
    pointer = Pointer.new;
    car = Car.new car_rest;
    gear = Reversing.new;
    hub = to_radians start_angle;
    lay = F.mul (to_radians start_angle) pair_ratio;
    crossed = true;
    braked = false;
    drive = up;
  }

  abbrev pub reading : LiftMachine F.R → F.R
  reading m = Pointer.reading m.pointer

  unfoldable pub aim : F.R → LiftMachine F.R → LiftMachine F.R
  aim mbps m = record m { pointer = Pointer.aim mbps m.pointer }

  -- What an order does.
  unfoldable pub perform : Order F.R → LiftMachine F.R → LiftMachine F.R
  perform (shift direction) m = record m {
    gear = Reversing.begin direction m.gear;
    crossed = is_up direction;
  }
  perform (ride to) m = record m { car = Car.ride_to to m.car }

  -- `car.order`: at once, or behind the journey that is under way.
  unfoldable pub order : Order F.R → LiftMachine F.R → LiftMachine F.R
  order o m =
      if Move.running m.car.journey
      then record m { car = record m.car { orders = m.car.orders ++ o ∷ [] } }
      else perform o m

  unfoldable pub reverse : Drive → LiftMachine F.R → LiftMachine F.R
  reverse direction m = order (shift direction) (record m { drive = direction })

  unfoldable pub land : LiftMachine F.R → LiftMachine F.R
  land m = record m { car = Car.land (not (is_up m.drive)) m.car }

  -- What `ride` answers is `ride_time`.
  unfoldable pub ride_to : F.R → LiftMachine F.R → LiftMachine F.R
  ride_to to m = order (ride to) m

  abbrev pub ride_time : F.R → LiftMachine F.R → F.R
  ride_time to m = ride_ms (Car.distance to (Car.destination m.car))

  abbrev pub fall_of : Pointer F.R → F.R
  fall_of p =
      if lt (F.of_ℕ 0) p.fraction then max (Pointer.busy_ms p) (sweep_ms p.fraction) else F.of_ℕ 0

  unfoldable pub rested : LiftMachine F.R → LiftMachine F.R
  rested m = record m {
    pointer = Pointer.aim (F.of_ℕ 0) m.pointer;
    drive = up;
    gear = Reversing.seat up m.gear;
    crossed = true;
    car = Car.clear m.car;
  }

  unfoldable pub reset : LiftMachine F.R → LiftMachine F.R
  reset m =
      let r = rested m in
      if lt (F.of_ℕ 0) (fall_of r.pointer)
        || F.le Car.arrived_within (Car.distance car_rest (Car.position r.car))
      then record r { car = Car.home (fall_of r.pointer) r.car }
      else r

  unfoldable pub settle_ms : LiftMachine F.R → F.R
  settle_ms m = F.round (max (Car.busy_ms m.car) (Pointer.busy_ms m.pointer))

  -- The train beyond the hub: the mesh, the layshaft, the belt, the brake, and the rope, which takes
  -- the sheave's turn the other way round.
  unfoldable pub turn : (delta : F.R) → LiftMachine F.R → LiftMachine F.R
  turn delta m =
      let braked = Reversing.holding m.gear in
      let swept = F.mul delta sweep_rad in
      let meshed = F.mul swept pair_ratio in
      let walked = F.mul meshed (belt_ratio m.crossed pulley_radius pulley_radius) in
      record m {
        braked = braked;
        hub = F.add m.hub swept;
        lay = F.add m.lay meshed;
        car = if braked then m.car else Car.drive (opposite walked) m.car;
      }

  -- The loop at the end of the car's `update`.
  unfoldable pub drain : List (Order F.R) → LiftMachine F.R → LiftMachine F.R
  drain [] m = record m { car = record m.car { orders = [] } }
  drain (o ∷ rest) m =
      let waiting = record m { car = record m.car { orders = o ∷ rest } } in
      if Move.running m.car.journey
      then waiting
      else drain rest (perform o (record m { car = record m.car { orders = rest } }))

  unfoldable pub update_car : (dt : F.R) → LiftMachine F.R → LiftMachine F.R
  update_car dt m =
      let (car, arrived) = Car.carry dt m.car in
      if not (Move.running m.car.journey)
      then m
      else if arrived
      then drain car.orders (record m { car = Car.let_go car })
      else record m { car = car }

  unfoldable pub idle : LiftMachine F.R → Bool
  idle m = Pointer.settled m.pointer && not (Reversing.throwing m.gear) && Car.free m.car

  unfoldable pub settle : LiftMachine F.R → LiftMachine F.R
  settle m =
      let pointer = Pointer.settle m.pointer in
      turn (Pointer.delta pointer) (record m { pointer = pointer })

  -- A frame up to its last test.
  unfoldable pub advance : (dt : F.R) → LiftMachine F.R → LiftMachine F.R
  advance dt m =
      let pointer = Pointer.update dt m.pointer in
      update_car dt (
        turn (Pointer.delta pointer)
          (record m { pointer = pointer; gear = Reversing.update dt m.gear }))

  unfoldable pub update : (dt : F.R) → LiftMachine F.R → LiftMachine F.R × Bool
  update dt m = let n = advance dt m in (if idle n then settle n else n, idle n)

-- What the visual does with the machine.
pub data Action (R : Type 0) : Type 0 where
  aims rides updates : R → Action R
  reverses : Drive → Action R
  lands resets : Action R

module _ ⦃F : Num⦄ where
  unfoldable pub act : Action F.R → LiftMachine F.R → LiftMachine F.R
  act (aims mbps) m = aim mbps m
  act (rides to) m = ride_to to m
  act (updates dt) m = (update dt m).0
  act (reverses direction) m = reverse direction m
  act lands m = land m
  act resets m = reset m

  unfoldable pub run : List (Action F.R) → LiftMachine F.R → LiftMachine F.R
  run [] m = m
  run (a ∷ rest) m = run rest (act a m)
