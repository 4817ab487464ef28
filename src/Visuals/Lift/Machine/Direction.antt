-- ===== src/Visuals/Lift/Machine/Direction.antt =====
-- web/src/ui/visuals/lift/machine/machine.ts: every action of the machine, and the way it drives.
use megapet.Common.{
  ◌≡◌, refl, ap, subst, sym, ◌∙◌, Bool, true, not, ◌||◌, if_cases, lt, List, [], ◌∷◌, Num, arith,
}
use megapet.Visuals.Pointer
use megapet.Visuals.Move.{Move}
use megapet.Visuals.Move
use megapet.Visuals.Move.Progress.{Forward, update-IsUnderWay, new-IsUnderWay}
use megapet.Visuals.Lift.Layout.{cross_for, car_rest}
use megapet.Visuals.Lift.Reversing
use megapet.Visuals.Lift.Car.{Car, Order, shift, ride, none_waiting}
use megapet.Visuals.Lift.Car
use megapet.Visuals.Lift.Machine.{
  LiftMachine, new, aim, rested, reset, turn, drain, update_car, advance, settle, idle, update,
  fall_of, Action, aims, rides, updates, reverses, lands, resets, act, run,
}
use megapet.Visuals.Lift.Machine.Taken.{
  IsMoved, stay-IsMoved, home-IsMoved, drive-IsMoved, carry-kept, carry-let_go,
}
use megapet.Visuals.Lift.Machine.Orders.{
  direction_of, pending, IsMachine, drain-IsMachine, car-IsMachine, none_waiting-nil,
  reverse-IsMachine, ride_to-IsMachine, land-IsMachine, rested-IsMachine,
}

module _ ⦃F : Num⦄ where
  -- The pointer and the train move, and perhaps the car with them.
  frame-IsMachine :
      (p : Pointer.Pointer F.R) (c : Car F.R) (hub lay : F.R) (braked : Bool) (m : LiftMachine F.R)
      → IsMoved m.car c
      → IsMachine m
      → IsMachine (record m { pointer = p; car = c; hub = hub; lay = lay; braked = braked })
  frame-IsMachine p c hub lay braked m w v =
      let n = car-IsMachine c m w v in
      record {
        sound = record {
          taken = n.sound.taken;
          stroke = n.sound.stroke;
          latched = n.sound.latched;
        };
        queued = n.queued;
        told = n.told;
      }

  pointer-IsMachine :
      (p : Pointer.Pointer F.R) (m : LiftMachine F.R)
      → IsMachine m
      → IsMachine (record m { pointer = p })
  pointer-IsMachine p m v =
      frame-IsMachine p m.car m.hub m.lay m.braked m (stay-IsMoved m.car v.sound.taken) v

  reset-IsMachine : (m : LiftMachine F.R) → IsMachine m → IsMachine (reset m)
  unfolding reset
  reset-IsMachine m v =
      let r = rested m in
      let w = rested-IsMachine m v in
      let fall = fall_of r.pointer in
      if_cases IsMachine
        (lt (F.of_ℕ 0) fall || F.le Car.arrived_within (Car.distance car_rest (Car.position r.car)))
        (record r { car = Car.home fall r.car }) r
        (λ _. car-IsMachine (Car.home fall r.car) r (home-IsMoved fall r.car) w) λ _. w

  turn-IsMachine : (delta : F.R) (m : LiftMachine F.R) → IsMachine m → IsMachine (turn delta m)
  unfolding turn
  turn-IsMachine delta m v =
      frame-IsMachine m.pointer _ _ _ _ m
        (if_cases (IsMoved m.car) (Reversing.holding m.gear) m.car _
          (λ _. stay-IsMoved m.car v.sound.taken) λ _. drive-IsMoved _ m.car v.sound.taken)
        v

  gear-IsMachine :
      (dt : F.R) (p : Pointer.Pointer F.R) (m : LiftMachine F.R)
      → Forward dt m.gear.stroke
      → IsMachine m
      → IsMachine (record m { pointer = p; gear = Reversing.update dt m.gear })
  unfolding Reversing.update
  gear-IsMachine dt p m f v = record {
    sound = record {
      taken = record { under_way = v.sound.taken.under_way; held = v.sound.taken.held };
      stroke = update-IsUnderWay dt m.gear.stroke f v.sound.stroke;
      latched = v.sound.latched;
    };
    queued = v.queued;
    told = v.told;
  }

  update_car-IsMachine :
      (dt : F.R) (m : LiftMachine F.R)
      → Forward dt m.car.journey
      → IsMachine m
      → IsMachine (update_car dt m)
  unfolding update_car
  update_car-IsMachine dt m f v =
      let c = (Car.carry dt m.car).0 in
      if_cases IsMachine (not (Move.running m.car.journey)) m _ (λ _. v)
        λ r.
          let running : Move.running m.car.journey ≡ true = ground arith in
          if_cases IsMachine (Car.carry dt m.car).1
            (drain c.orders (record m { car = Car.let_go c })) (record m { car = c })
            (λ a.
              let (taken, kept) = carry-let_go dt m.car f v.sound.taken running a in
              drain-IsMachine c.orders (record m { car = Car.let_go c })
                (record { taken = taken; stroke = v.sound.stroke; latched = v.sound.latched })
                (ap (pending (direction_of m.crossed)) kept ∙ v.told))
            λ a. car-IsMachine c m (carry-kept dt m.car f v.sound.taken running a) v

  turn-journey : (delta : F.R) (m : LiftMachine F.R) → (turn delta m).car.journey ≡ m.car.journey
  unfolding turn Car.drive
  turn-journey delta m = ground arith

  advance-IsMachine :
      (dt : F.R) (m : LiftMachine F.R)
      → Forward dt m.car.journey
      → Forward dt m.gear.stroke
      → IsMachine m
      → IsMachine (advance dt m)
  unfolding advance
  advance-IsMachine dt m f g v =
      let p = Pointer.update dt m.pointer in
      let n = record m { pointer = p; gear = Reversing.update dt m.gear } in
      update_car-IsMachine dt (turn (Pointer.delta p) n)
        (subst (Forward dt) (sym (turn-journey (Pointer.delta p) n)) f)
        (turn-IsMachine (Pointer.delta p) n (gear-IsMachine dt p m g v))

  settle-IsMachine : (m : LiftMachine F.R) → IsMachine m → IsMachine (settle m)
  unfolding settle
  settle-IsMachine m v =
      let p = Pointer.settle m.pointer in
      turn-IsMachine (Pointer.delta p) (record m { pointer = p }) (pointer-IsMachine p m v)

  -- The frames of a run: the share of each move that a frame covers is a number not below zero.
  abbrev pub IsSane : Action F.R → LiftMachine F.R → Type 0
  IsSane (updates dt) m = Forward dt m.car.journey × Forward dt m.gear.stroke
  IsSane (aims mbps) m = Unit
  IsSane (rides to) m = Unit
  IsSane (reverses d) m = Unit
  IsSane lands m = Unit
  IsSane resets m = Unit

  abbrev pub AllSane : List (Action F.R) → LiftMachine F.R → Type 0
  AllSane [] m = Unit
  AllSane (a ∷ rest) m = IsSane a m × AllSane rest (act a m)

  -- Every action keeps a machine whose orders wait only behind a journey, whose fork is thrown to the
  -- side on which the belt is latched, and whose orders lead to the direction it was last told.
  act-IsMachine :
      (a : Action F.R) (m : LiftMachine F.R) → IsSane a m → IsMachine m → IsMachine (act a m)
  unfolding act aim update
  act-IsMachine (aims mbps) m s v = pointer-IsMachine (Pointer.aim mbps m.pointer) m v
  act-IsMachine (rides to) m s v = ride_to-IsMachine to m v
  act-IsMachine (updates dt) m (f, g) v =
      let w = advance-IsMachine dt m f g v in
      if_cases IsMachine (idle (advance dt m)) (settle (advance dt m)) (advance dt m)
        (λ _. settle-IsMachine (advance dt m) w) λ _. w
  act-IsMachine (reverses d) m s v = reverse-IsMachine d m v
  act-IsMachine lands m s v = land-IsMachine m v
  act-IsMachine resets m s v = reset-IsMachine m v

  run-IsMachine :
      (actions : List (Action F.R)) (m : LiftMachine F.R)
      → AllSane actions m
      → IsMachine m
      → IsMachine (run actions m)
  unfolding run
  run-IsMachine [] m s v = v
  run-IsMachine (a ∷ rest) m (s, ss) v = run-IsMachine rest (act a m) ss (act-IsMachine a m s v)

  pub new-IsMachine : IsMachine new
  unfolding new Car.new Reversing.new
  new-IsMachine =
      let (u, h) = new-IsUnderWay in
      record {
        sound = record {
          taken = record { under_way = u; held = sym h };
          stroke = u;
          latched = refl;
        };
        queued = refl;
        told = refl;
      }

  free-Latched :
      (m : LiftMachine F.R) → IsMachine m → Car.free m.car ≡ true → direction_of m.crossed ≡ m.drive
  free-Latched m v h =
      ap (pending (direction_of m.crossed)) (sym (none_waiting-nil m.car.orders (ground arith)))
      ∙ v.told

  -- Whatever the visual asks of a fresh machine, and in whatever order, once the car is free the
  -- belt is latched and the fork thrown the way the machine was last told to drive: no reversal is
  -- lost behind a journey, and none is left over.
  pub run-Latched :
      (actions : List (Action F.R))
      → AllSane actions new
      → Car.free (run actions new).car ≡ true
      → (direction_of (run actions new).crossed ≡ (run actions new).drive)
        × ((run actions new).gear.cross_to ≡ cross_for (run actions new).drive)
  run-Latched actions s h =
      let v = run-IsMachine actions new s new-IsMachine in
      let e = free-Latched (run actions new) v h in (e, v.sound.latched ∙ ap cross_for e)
