-- ===== src/Visuals/Lift/Machine/Taken.antt =====
-- web/src/ui/visuals/lift/machine/car.ts: when the machine has the car.
use megapet.Common.{
  ◌≡◌, refl, sym, Bool, true, false, not, ◌&&◌, ◌||◌, if◌then◌else◌, if_cases, lt, Num, arith,
}
use megapet.Mech.Drive.{drive_travel, move_to}
use megapet.Visuals.Move.{Move}
use megapet.Visuals.Move
use megapet.Visuals.Move.Progress.{
  IsUnderWay, Forward, update-IsUnderWay, update-arrives, start-IsUnderWay,
}
use megapet.Visuals.Scale.{land_ms}
use megapet.Visuals.Lift.Layout.{ride_ms, car_bottom, car_top}
use megapet.Visuals.Lift.Car.{Car, Order, shift, ride, none_waiting}
use megapet.Visuals.Lift.Car

module _ ⦃F : Num⦄ where
  -- The machine has the car exactly while a journey runs.
  pub record IsTaken (c : Car F.R) : Type 0 where
    pub under_way : IsUnderWay c.journey
    pub held : c.travel.held ≡ Move.running c.journey

  pub take-IsTaken :
      (to ms : F.R) (c : Car F.R)
      → IsTaken (Car.take to ms c)
        × (Move.running (Car.take to ms c).journey ≡ true)
        × ((Car.take to ms c).orders ≡ c.orders)
  unfolding Car.take
  take-IsTaken to ms c =
      let (u, h) = start-IsUnderWay c.travel.position to ms _ c.journey in
      (record { under_way = u; held = sym h }, h, refl)

  -- A car's own move: it stays sound, its orders stay, and a journey that runs is not ended.
  pub record IsMoved (c d : Car F.R) : Type 0 where
    pub taken : IsTaken d
    pub kept : d.orders ≡ c.orders
    pub busy : (not (Move.running c.journey) || Move.running d.journey) ≡ true

  pub take-IsMoved : (to ms : F.R) (c : Car F.R) → IsMoved c (Car.take to ms c)
  take-IsMoved to ms c =
      let (t, h, o) = take-IsTaken to ms c in
      record { taken = t; kept = o; busy = ground (arith, h) }

  pub stay-IsMoved : (c : Car F.R) → IsTaken c → IsMoved c c
  stay-IsMoved c v = record { taken = v; kept = refl; busy = ground arith }

  pub ride_to-IsMoved : (to : F.R) (c : Car F.R) → IsTaken c → IsMoved c (Car.ride_to to c)
  unfolding Car.ride_to
  ride_to-IsMoved to c v =
      let ms = ride_ms (Car.distance to (Car.destination c)) in
      if_cases (IsMoved c) (lt (Car.distance to (Car.destination c)) Car.arrived_within) c
        (Car.take to ms c) (λ _. stay-IsMoved c v) λ _. take-IsMoved to ms c

  pub land-IsMoved : (falls : Bool) (c : Car F.R) → IsTaken c → IsMoved c (Car.land falls c)
  unfolding Car.land
  land-IsMoved falls c v =
      let floor = if falls then car_bottom else car_top in
      if_cases (IsMoved c)
        (Move.running c.journey
          && lt (Car.distance (Move.destination c.journey) floor) Car.arrived_within)
        c (Car.take floor land_ms c) (λ _. stay-IsMoved c v) λ _. take-IsMoved floor land_ms c

  pub home-IsMoved : (fall_ms : F.R) (c : Car F.R) → IsMoved c (Car.home fall_ms c)
  unfolding Car.home
  home-IsMoved fall_ms c = take-IsMoved _ _ c

  pub drive-IsMoved : (delta : F.R) (c : Car F.R) → IsTaken c → IsMoved c (Car.drive delta c)
  unfolding Car.drive drive_travel move_to
  drive-IsMoved delta c v = record {
    taken = record { under_way = v.under_way; held = ground (arith, v.held) };
    kept = refl;
    busy = ground arith;
  }

  -- A frame of a journey that runs, with the machine keeping the car or letting it go.
  pub carry-kept :
      (dt : F.R) (c : Car F.R)
      → Forward dt c.journey
      → IsTaken c
      → Move.running c.journey ≡ true
      → (Car.carry dt c).1 ≡ false
      → IsMoved c (Car.carry dt c).0
  unfolding Car.carry move_to
  carry-kept dt c f v r a =
      let arrives = update-arrives dt c.journey f v.under_way r in
      record {
        taken = record {
          under_way = update-IsUnderWay dt c.journey f v.under_way;
          held = ground (arith, v.held, arrives);
        };
        kept = refl;
        busy = ground (arith, arrives);
      }

  pub carry-let_go :
      (dt : F.R) (c : Car F.R)
      → Forward dt c.journey
      → IsTaken c
      → Move.running c.journey ≡ true
      → (Car.carry dt c).1 ≡ true
      → IsTaken (Car.let_go (Car.carry dt c).0) × ((Car.carry dt c).0.orders ≡ c.orders)
  unfolding Car.carry Car.let_go
  carry-let_go dt c f v r a =
      let arrives = update-arrives dt c.journey f v.under_way r in
      (
        record {
          under_way = update-IsUnderWay dt c.journey f v.under_way;
          held = ground (arith, arrives);
        },
        refl,
      )
