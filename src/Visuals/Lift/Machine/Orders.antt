-- ===== src/Visuals/Lift/Machine/Orders.antt =====
-- web/src/ui/visuals/lift/machine: the orders that wait behind a journey.
use megapet.Common.{
  ◌≡◌, refl, ap, sym, ◌∙◌, Bool, true, false, not, ◌||◌, if_cases, List, [], ◌∷◌, ◌++◌, Num, arith,
}
use megapet.Visuals.Move.{Move}
use megapet.Visuals.Move
use megapet.Visuals.Move.Progress.{IsUnderWay, start-IsUnderWay, snap-IsUnderWay}
use megapet.Visuals.Lift.Layout.{Drive, up, down, cross_for}
use megapet.Visuals.Lift.Reversing
use megapet.Visuals.Lift.Car.{Car, Order, shift, ride, none_waiting}
use megapet.Visuals.Lift.Car
use megapet.Visuals.Lift.Machine.{
  LiftMachine, is_up, perform, order, reverse, land, ride_to, rested, drain,
}
use megapet.Visuals.Lift.Machine.Taken.{IsTaken, IsMoved, ride_to-IsMoved, land-IsMoved}

abbrev pub direction_of : Bool → Drive
direction_of true = up
direction_of false = down

module _ {R : Type 0} where
  -- The direction that the drive will have when the orders have been carried out.
  abbrev pub pending : Drive → List (Order R) → Drive
  pending d [] = d
  pending d (shift e ∷ rest) = pending e rest
  pending d (ride to ∷ rest) = pending d rest

  pub pending-shift : (d e : Drive) (os : List (Order R)) → pending d (os ++ shift e ∷ []) ≡ e
  pending-shift d e [] = refl
  pending-shift d e (shift f ∷ rest) = pending-shift f e rest
  pending-shift d e (ride to ∷ rest) = pending-shift d e rest

  pub pending-ride :
      (d : Drive) (to : R) (os : List (Order R)) → pending d (os ++ ride to ∷ []) ≡ pending d os
  pending-ride d to [] = refl
  pending-ride d to (shift f ∷ rest) = pending-ride f to rest
  pending-ride d to (ride x ∷ rest) = pending-ride d to rest

module _ ⦃F : Num⦄ where
  -- What holds also while orders are being carried out.
  pub record IsSound (m : LiftMachine F.R) : Type 0 where
    pub taken : IsTaken m.car
    pub stroke : IsUnderWay m.gear.stroke
    -- the belt is latched the way the fork is thrown
    pub latched : m.gear.cross_to ≡ cross_for (direction_of m.crossed)

  pub record IsMachine (m : LiftMachine F.R) : Type 0 where
    pub sound : IsSound m
    -- an order waits only behind a journey
    pub queued : (none_waiting m.car.orders || Move.running m.car.journey) ≡ true
    pub told : pending (direction_of m.crossed) m.car.orders ≡ m.drive

  pub perform-IsSound : (o : Order F.R) (m : LiftMachine F.R) → IsSound m → IsSound (perform o m)
  unfolding perform Reversing.begin
  perform-IsSound (shift up) m v = record {
    taken = v.taken;
    stroke = (start-IsUnderWay _ _ _ _ m.gear.stroke).0;
    latched = refl;
  }
  perform-IsSound (shift down) m v = record {
    taken = v.taken;
    stroke = (start-IsUnderWay _ _ _ _ m.gear.stroke).0;
    latched = refl;
  }
  perform-IsSound (ride to) m v = record {
    taken = (ride_to-IsMoved to m.car v.taken).taken;
    stroke = v.stroke;
    latched = v.latched;
  }

  pub perform-pending :
      (o : Order F.R) (rest : List (Order F.R)) (m : LiftMachine F.R)
      → pending (direction_of (perform o m).crossed) rest
        ≡ pending (direction_of m.crossed) (o ∷ rest)
  unfolding perform
  perform-pending (shift up) rest m = refl
  perform-pending (shift down) rest m = refl
  perform-pending (ride to) rest m = refl

  pub perform-drive : (o : Order F.R) (m : LiftMachine F.R) → (perform o m).drive ≡ m.drive
  unfolding perform
  perform-drive (shift e) m = refl
  perform-drive (ride to) m = refl

  pub drain-IsMachine :
      (os : List (Order F.R)) (m : LiftMachine F.R)
      → IsSound m
      → pending (direction_of m.crossed) os ≡ m.drive
      → IsMachine (drain os m)
  unfolding drain
  drain-IsMachine [] m v h = record {
    sound = record {
      taken = record { under_way = v.taken.under_way; held = v.taken.held };
      stroke = v.stroke;
      latched = v.latched;
    };
    queued = refl;
    told = h;
  }
  drain-IsMachine (o ∷ rest) m v h =
      let q = record m { car = record m.car { orders = rest } } in
      let w : IsSound q = record {
        taken = record { under_way = v.taken.under_way; held = v.taken.held };
        stroke = v.stroke;
        latched = v.latched;
      } in
      if_cases IsMachine (Move.running m.car.journey) _ _
        (λ r. record {
          sound = record {
            taken = record { under_way = v.taken.under_way; held = v.taken.held };
            stroke = v.stroke;
            latched = v.latched;
          };
          queued = r;
          told = h;
        })
        λ _.
          drain-IsMachine rest (perform o q) (perform-IsSound o q w)
            (perform-pending o rest q ∙ h ∙ sym (perform-drive o q))

  -- The car moves by itself.
  pub car-IsMachine :
      (c : Car F.R) (m : LiftMachine F.R)
      → IsMoved m.car c
      → IsMachine m
      → IsMachine (record m { car = c })
  car-IsMachine c m w v = record {
    sound = record { taken = w.taken; stroke = v.sound.stroke; latched = v.sound.latched };
    queued = ground (arith, w.kept, w.busy, v.queued);
    told = ap (pending (direction_of m.crossed)) w.kept ∙ v.told;
  }

  pub none_waiting-nil : (os : List (Order F.R)) → none_waiting os ≡ true → os ≡ []
  none_waiting-nil [] h = refl
  none_waiting-nil (o ∷ rest) h = absurd (ground arith)

  pub perform-orders :
      (o : Order F.R) (m : LiftMachine F.R) → IsSound m → (perform o m).car.orders ≡ m.car.orders
  unfolding perform
  perform-orders (shift e) m v = refl
  perform-orders (ride to) m v = (ride_to-IsMoved to m.car v.taken).kept

  -- An order given while nothing waits and no journey runs is carried out at once.
  pub perform-IsMachine :
      (o : Order F.R) (m : LiftMachine F.R)
      → IsSound m
      → m.car.orders ≡ []
      → pending (direction_of m.crossed) (o ∷ []) ≡ m.drive
      → IsMachine (perform o m)
  perform-IsMachine o m v e t =
      let none_left = perform-orders o m v ∙ e in
      record {
        sound = perform-IsSound o m v;
        queued = ground (arith, none_left);
        told =
            ap (pending (direction_of (perform o m).crossed)) none_left
            ∙ perform-pending o [] m
            ∙ t
            ∙ sym (perform-drive o m);
      }

  pub order-IsMachine :
      (o : Order F.R) (m : LiftMachine F.R)
      → IsSound m
      → (none_waiting m.car.orders || Move.running m.car.journey) ≡ true
      → pending (direction_of m.crossed) (m.car.orders ++ o ∷ []) ≡ m.drive
      → IsMachine (order o m)
  unfolding order
  order-IsMachine o m v q t =
      if_cases IsMachine (Move.running m.car.journey) _ (perform o m)
        (λ r. record {
          sound = record {
            taken = record { under_way = v.taken.under_way; held = v.taken.held };
            stroke = v.stroke;
            latched = v.latched;
          };
          queued = ground (arith, r);
          told = t;
        })
        λ r.
          let e = none_waiting-nil m.car.orders (ground arith) in
          perform-IsMachine o m v e (
            ap (λ (os : List (Order F.R)). pending (direction_of m.crossed) (os ++ o ∷ [])) (sym e)
            ∙ t)

  pub reverse-IsMachine : (d : Drive) (m : LiftMachine F.R) → IsMachine m → IsMachine (reverse d m)
  unfolding reverse
  reverse-IsMachine d m v =
      order-IsMachine (shift d) (record m { drive = d })
        (record { taken = v.sound.taken; stroke = v.sound.stroke; latched = v.sound.latched })
        v.queued (pending-shift (direction_of m.crossed) d m.car.orders)

  pub ride_to-IsMachine : (to : F.R) (m : LiftMachine F.R) → IsMachine m → IsMachine (ride_to to m)
  unfolding ride_to
  ride_to-IsMachine to m v =
      order-IsMachine (ride to) m v.sound v.queued
        (pending-ride (direction_of m.crossed) to m.car.orders ∙ v.told)

  pub land-IsMachine : (m : LiftMachine F.R) → IsMachine m → IsMachine (land m)
  unfolding land
  land-IsMachine m v = car-IsMachine _ m (land-IsMoved (not (is_up m.drive)) m.car v.sound.taken) v

  pub rested-IsMachine : (m : LiftMachine F.R) → IsMachine m → IsMachine (rested m)
  unfolding rested Car.clear Reversing.seat
  rested-IsMachine m v = record {
    sound = record {
      taken = record { under_way = v.sound.taken.under_way; held = v.sound.taken.held };
      stroke = (snap-IsUnderWay (F.of_ℕ 1) m.gear.stroke).0;
      latched = refl;
    };
    queued = refl;
    told = refl;
  }
