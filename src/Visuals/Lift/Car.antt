-- ===== src/Visuals/Lift/Car.antt =====
-- web/src/ui/visuals/lift/machine/car.ts: the car.
--
-- The orders that wait are values: the machine queues two kinds of work, and carries them out.
-- What `order` and the end of `update` do with them is in Visuals.Lift.Machine.
use megapet.Common.{Bool, true, false, not, ◌&&◌, if◌then◌else◌, List, [], ◌∷◌, Num, max, lt}
use megapet.Mech.Drive.{Travel, move_to, drive_travel}
use megapet.Visuals.Easing.{ease_in_out}
use megapet.Visuals.Scale.{land_ms, magnitude}
use megapet.Visuals.Move.{Move}
use megapet.Visuals.Move
use megapet.Visuals.Lift.Layout.{Drive, car_top, car_bottom, car_rest, sheave_radius, ride_ms}

pub data Order (R : Type 0) : Type 0 where
  shift : Drive → Order R
  ride : (to : R) → Order R

pub record Car (R : Type 0) : Type 0 where
  pub travel : Travel R
  pub journey : Move R
  pub orders : List (Order R)

abbrev pub none_waiting : {R : Type 0} → List (Order R) → Bool
none_waiting [] = true
none_waiting (o ∷ os) = false

module _ ⦃F : Num⦄ where
  unfoldable pub new : (at : F.R) → Car F.R
  new at = record {
    travel = record {
      held = false;
      position = at;
      low = car_top;
      high = car_bottom;
      per_radian = sheave_radius;
    };
    journey = Move.new;
    orders = [];
  }

  abbrev pub position : Car F.R → F.R
  position c = c.travel.position

  abbrev pub free : Car F.R → Bool
  free c = not (Move.running c.journey) && none_waiting c.orders

  abbrev pub busy_ms : Car F.R → F.R
  busy_ms c = Move.remaining_ms c.journey

  abbrev pub destination : Car F.R → F.R
  destination c = if Move.running c.journey then Move.destination c.journey else c.travel.position

  unfoldable pub drive : (delta : F.R) → Car F.R → Car F.R
  drive delta c = record c { travel = drive_travel delta c.travel }

  unfoldable pub take : (to ms : F.R) → Car F.R → Car F.R
  take to ms c = record c {
    journey = Move.start c.travel.position to ms ease_in_out c.journey;
    travel = record c.travel { held = true };
  }

  -- Closer than this and a journey is not worth making.
  abbrev pub arrived_within : F.R
  arrived_within = F.div (F.of_ℕ 1) (F.of_ℕ 2)

  abbrev pub distance : F.R → F.R → F.R
  distance a b = magnitude (F.sub a b)

  -- `driveSign > 0`
  unfoldable pub land : (falls : Bool) → Car F.R → Car F.R
  land falls c =
      let floor = if falls then car_bottom else car_top in
      if Move.running c.journey && lt (distance (Move.destination c.journey) floor) arrived_within
      then c
      else take floor land_ms c

  unfoldable pub ride_to : F.R → Car F.R → Car F.R
  ride_to to c =
      if lt (distance to (destination c)) arrived_within
      then c
      else take to (ride_ms (distance to (destination c))) c

  unfoldable pub home : (fall_ms : F.R) → Car F.R → Car F.R
  home fall_ms c = take car_rest (max fall_ms (ride_ms (distance car_rest c.travel.position))) c

  unfoldable pub park : Car F.R → Car F.R
  park c = ride_to car_rest c

  unfoldable pub clear : Car F.R → Car F.R
  clear c = record c { orders = [] }

  unfoldable pub place : F.R → Car F.R → Car F.R
  place at c = record {
    journey = Move.snap at c.journey;
    travel = move_to at (record c.travel { held = false });
    orders = [];
  }

  -- A frame of the journey, and whether it arrives.
  unfoldable pub carry : (dt : F.R) → Car F.R → Car F.R × Bool
  carry dt c =
      let (journey, arrived) = Move.update dt c.journey in
      (record c { journey = journey; travel = move_to (Move.value journey) c.travel }, arrived)

  unfoldable pub let_go : Car F.R → Car F.R
  let_go c = record c { travel = record c.travel { held = false } }
