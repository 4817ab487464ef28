-- ===== src/Visuals/Lift/Machine/Shaft.antt =====
-- web/src/ui/visuals/lift/machine: where the car may be, and what may move it.
use megapet.Common.{
  ◌≡◌, refl, ap, ◌∙◌, Bool, true, not, ◌&&◌, ◌||◌, if◌then◌else◌, if_cases, lt, List, [], ◌∷◌, Num,
  arith, Bool-cases, inl, inr,
}
use megapet.Mech.Drive.{drive_travel, move_to}
use megapet.Mech.Drive.Carriage.{InRun, move_to-InRun, drive_travel-InRun}
use megapet.Visuals.Pointer
use megapet.Visuals.Move
use megapet.Visuals.Scale.{land_ms}
use megapet.Visuals.Lift.Layout.{ride_ms, car_bottom, car_top, car_rest}
use megapet.Visuals.Lift.Reversing
use megapet.Visuals.Lift.Car.{Car, Order, shift, ride}
use megapet.Visuals.Lift.Car
use megapet.Visuals.Lift.Machine.{
  LiftMachine, is_up, perform, order, reverse, land, ride_to, aim, rested, reset, turn, drain,
  update_car, advance, settle, idle, update, fall_of, Action, aims, rides, updates, reverses, lands,
  resets, act, run,
}

module _ ⦃F : Num⦄ where
  -- The car is in its shaft, unless its position is no number.
  abbrev pub InShaft : Car F.R → Type 0
  InShaft c = (F.le c.travel.low c.travel.high ≡ true) × InRun c.travel

  take-InShaft : (to ms : F.R) (c : Car F.R) → InShaft c → InShaft (Car.take to ms c)
  unfolding Car.take
  take-InShaft to ms c v = v

  ride_to-InShaft : (to : F.R) (c : Car F.R) → InShaft c → InShaft (Car.ride_to to c)
  unfolding Car.ride_to
  ride_to-InShaft to c v =
      let ms = ride_ms (Car.distance to (Car.destination c)) in
      if_cases InShaft (lt (Car.distance to (Car.destination c)) Car.arrived_within) c
        (Car.take to ms c) (λ _. v) λ _. take-InShaft to ms c v

  land-InShaft : (falls : Bool) (c : Car F.R) → InShaft c → InShaft (Car.land falls c)
  unfolding Car.land
  land-InShaft falls c v =
      let floor = if falls then car_bottom else car_top in
      if_cases InShaft
        (Move.running c.journey
          && lt (Car.distance (Move.destination c.journey) floor) Car.arrived_within)
        c (Car.take floor land_ms c) (λ _. v) λ _. take-InShaft floor land_ms c v

  drive-InShaft : (delta : F.R) (c : Car F.R) → InShaft c → InShaft (Car.drive delta c)
  unfolding Car.drive
  drive-InShaft delta c (h, v) = drive_travel-InRun delta c.travel h v

  carry-InShaft : (dt : F.R) (c : Car F.R) → InShaft c → InShaft (Car.carry dt c).0
  unfolding Car.carry move_to
  carry-InShaft dt c (h, v) =
      (h, move_to-InRun (Move.value (Move.update dt c.journey).0) c.travel h)

  let_go-InShaft : (c : Car F.R) → InShaft c → InShaft (Car.let_go c)
  unfolding Car.let_go
  let_go-InShaft c v = v

  perform-InShaft :
      (o : Order F.R) (m : LiftMachine F.R) → InShaft m.car → InShaft (perform o m).car
  unfolding perform
  perform-InShaft (shift d) m v = v
  perform-InShaft (ride to) m v = ride_to-InShaft to m.car v

  order-InShaft : (o : Order F.R) (m : LiftMachine F.R) → InShaft m.car → InShaft (order o m).car
  unfolding order
  order-InShaft o m v =
      if_cases (λ (n : LiftMachine F.R). InShaft n.car) (Move.running m.car.journey) _ (perform o m)
        (λ _. v) λ _. perform-InShaft o m v

  drain-InShaft :
      (os : List (Order F.R)) (m : LiftMachine F.R) → InShaft m.car → InShaft (drain os m).car
  unfolding drain
  drain-InShaft [] m v = v
  drain-InShaft (o ∷ rest) m v =
      let q = record m { car = record m.car { orders = rest } } in
      if_cases (λ (n : LiftMachine F.R). InShaft n.car) (Move.running m.car.journey) _
        (drain rest (perform o q)) (λ _. v)
        λ _. drain-InShaft rest (perform o q) (perform-InShaft o q v)

  reset-InShaft : (m : LiftMachine F.R) → InShaft m.car → InShaft (reset m).car
  unfolding reset rested Car.clear Car.home Car.take
  reset-InShaft m v =
      if_cases (λ (n : LiftMachine F.R). InShaft n.car)
        (lt (F.of_ℕ 0) (fall_of (rested m).pointer)
          || F.le Car.arrived_within (Car.distance car_rest (Car.position (rested m).car)))
        (record (rested m) { car = Car.home (fall_of (rested m).pointer) (rested m).car })
        (rested m) (λ _. v) λ _. v

  turn-InShaft : (delta : F.R) (m : LiftMachine F.R) → InShaft m.car → InShaft (turn delta m).car
  unfolding turn
  turn-InShaft delta m v =
      if_cases InShaft (Reversing.holding m.gear) m.car _ (λ _. v) λ _. drive-InShaft _ m.car v

  update_car-InShaft :
      (dt : F.R) (m : LiftMachine F.R) → InShaft m.car → InShaft (update_car dt m).car
  unfolding update_car
  update_car-InShaft dt m v =
      let c = (Car.carry dt m.car).0 in
      let w = carry-InShaft dt m.car v in
      if_cases (λ (n : LiftMachine F.R). InShaft n.car) (not (Move.running m.car.journey)) m _
        (λ _. v)
        λ _.
          if_cases (λ (n : LiftMachine F.R). InShaft n.car) (Car.carry dt m.car).1
            (drain c.orders (record m { car = Car.let_go c })) (record m { car = c })
            (λ _. drain-InShaft c.orders (record m { car = Car.let_go c }) (let_go-InShaft c w))
            λ _. w

  settle-InShaft : (m : LiftMachine F.R) → InShaft m.car → InShaft (settle m).car
  unfolding settle
  settle-InShaft m v =
      let p = Pointer.settle m.pointer in
      turn-InShaft (Pointer.delta p) (record m { pointer = p }) v

  advance-InShaft : (dt : F.R) (m : LiftMachine F.R) → InShaft m.car → InShaft (advance dt m).car
  unfolding advance
  advance-InShaft dt m v =
      let p = Pointer.update dt m.pointer in
      let n = record m { pointer = p; gear = Reversing.update dt m.gear } in
      update_car-InShaft dt (turn (Pointer.delta p) n) (turn-InShaft (Pointer.delta p) n v)

  -- Whatever is asked of the machine, and however long its frames are, the car does not leave its
  -- shaft: its position is within it, or is no number because what moved it was none.
  pub run-InShaft :
      (actions : List (Action F.R)) (m : LiftMachine F.R)
      → InShaft m.car
      → InShaft (run actions m).car
  unfolding run act update aim reverse ride_to land
  run-InShaft [] m v = v
  run-InShaft (aims mbps ∷ rest) m v = run-InShaft rest (aim mbps m) v
  run-InShaft (rides to ∷ rest) m v = run-InShaft rest (ride_to to m) (order-InShaft (ride to) m v)
  run-InShaft (updates dt ∷ rest) m v =
      let n = advance dt m in
      let w = advance-InShaft dt m v in
      run-InShaft rest (update dt m).0 (
        if_cases (λ (n : LiftMachine F.R). InShaft n.car) (idle n) (settle n) n
          (λ _. settle-InShaft n w) λ _. w)
  run-InShaft (reverses d ∷ rest) m v =
      run-InShaft rest (reverse d m) (order-InShaft (shift d) (record m { drive = d }) v)
  run-InShaft (lands ∷ rest) m v =
      run-InShaft rest (land m) (land-InShaft (not (is_up m.drive)) m.car v)
  run-InShaft (resets ∷ rest) m v = run-InShaft rest (reset m) (reset-InShaft m v)

  turn-holding :
      (delta : F.R) (m : LiftMachine F.R)
      → Reversing.holding m.gear ≡ true
      → (turn delta m).car ≡ m.car
  unfolding turn
  turn-holding delta m h = ground (arith, h)

  turn-held :
      (delta : F.R) (m : LiftMachine F.R) → m.car.travel.held ≡ true → (turn delta m).car ≡ m.car
  unfolding turn Car.drive drive_travel
  turn-held delta m h = ground (arith, h)

  -- What the car does is read off the car alone.
  perform-car :
      (o : Order F.R) (c : Car F.R) (m n : LiftMachine F.R)
      → (perform o (record m { car = c })).car ≡ (perform o (record n { car = c })).car
  unfolding perform
  perform-car (shift d) c m n = refl
  perform-car (ride to) c m n = refl

  drain-car :
      (os : List (Order F.R)) (m n : LiftMachine F.R)
      → m.car ≡ n.car
      → (drain os m).car ≡ (drain os n).car
  unfolding drain
  drain-car [] m n e = ap (λ (c : Car F.R). record c { orders = [] }) e
  drain-car (o ∷ rest) m n e =
      let q = λ (c : Car F.R). record m { car = record c { orders = rest } } in
      let rest_same =
        drain-car rest (perform o (q m.car))
          (perform o (record n { car = record n.car { orders = rest } }))
          (ap (λ (c : Car F.R). (perform o (q c)).car) e
            ∙ perform-car o (record n.car { orders = rest }) m n) in
      ground (arith, e, rest_same)

  update_car-car :
      (dt : F.R) (m n : LiftMachine F.R)
      → m.car ≡ n.car
      → (update_car dt m).car ≡ (update_car dt n).car
  unfolding update_car
  update_car-car dt m n e =
      let drained = λ (c : Car F.R) (k : LiftMachine F.R).
        (drain (Car.carry dt c).0.orders (record k { car = Car.let_go (Car.carry dt c).0 })).car in
      let same : drained m.car m ≡ drained n.car n =
        ap (λ c. drained c m) e
        ∙ drain-car (Car.carry dt n.car).0.orders
            (record m { car = Car.let_go (Car.carry dt n.car).0 })
            (record n { car = Car.let_go (Car.carry dt n.car).0 }) refl in
      ground (arith, e, same)

  -- In a frame in which the fork is being thrown, or the machine has the car, the pointer turns the
  -- gears and does not move the car: it is where the frame's share of its journey takes it, as if
  -- the pointer had stood still.
  pub advance-pointer :
      (dt : F.R) (p : Pointer.Pointer F.R) (m : LiftMachine F.R)
      → (Reversing.holding (Reversing.update dt m.gear) || m.car.travel.held) ≡ true
      → (advance dt (record m { pointer = p })).car
        ≡ (update_car dt (record m { gear = Reversing.update dt m.gear })).car
  unfolding advance
  advance-pointer dt p m h =
      let q = Pointer.update dt p in
      let n = record m { pointer = q; gear = Reversing.update dt m.gear } in
      update_car-car dt (turn (Pointer.delta q) n) (record m { gear = Reversing.update dt m.gear })
        (elim (Bool-cases (Reversing.holding (Reversing.update dt m.gear))) [
          | inl a ↦ turn-holding (Pointer.delta q) n a
          | inr a ↦ turn-held (Pointer.delta q) n (ground arith)
        ])
