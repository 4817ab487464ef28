-- ===== src/Mech/Drive/Carriage.antt =====
-- web/src/mech/drive.ts: where the part at the end of a train may be.
use megapet.Common.{
  ◌≡◌, refl, Bool, true, false, ◌||◌, if_cases, Num, max, min, ◌⊎◌, inl, inr, Bool-cases, List, [],
  ◌∷◌, min-glb, min-le_left, max-ge_left, max-not-nan, arith, ap, ◌∙◌,
}
use megapet.Mech.Geometry.{clamp}
use megapet.Mech.Drive.{
  Travel, Train, nothing, rotation, gear_pair, belt_drive, brake, travel, move_to, drive_travel,
  drive, belt_ratio, Action, drives, seats, moves, crosses, brakes, holds, act,
}

module _ ⦃F : Num⦄ where
  -- Within its run, unless what drove it was no number.
  abbrev pub InRun : Travel F.R → Type 0
  InRun t =
      (F.is_nan t.position ≡ true)
      ⊎ ((F.le t.low t.position ≡ true) × (F.le t.position t.high ≡ true))

  -- Every carriage of a train has a run, and is in it.
  abbrev AllInRun : Train F.R → Type 0
  AllInRun nothing = Unit
  AllInRun (rotation turned output) = AllInRun output
  AllInRun (gear_pair ratio output) = AllInRun output
  AllInRun (belt_drive crossed r s output) = AllInRun output
  AllInRun (brake set output) = AllInRun output
  AllInRun (travel t) = (F.le t.low t.high ≡ true) × InRun t

  clamp-nan :
      (value lo hi : F.R)
      → F.is_nan lo ≡ false
      → F.is_nan hi ≡ false
      → F.is_nan value ≡ true
      → F.is_nan (clamp value lo hi) ≡ true
  unfolding clamp max min
  clamp-nan value lo hi a b c = ground (arith, a, b, c)

  pub move_to-InRun :
      (position : F.R) (t : Travel F.R) → F.le t.low t.high ≡ true → InRun (move_to position t)
  unfolding move_to clamp
  move_to-InRun position t h = elim (Bool-cases (F.is_nan position)) [
    | inl n ↦
        inl (clamp-nan position t.low t.high (F.le-not-nan_left _ _ h) (F.le-not-nan_right _ _ h) n)
    | inr n ↦
        let low = F.le-not-nan_left _ _ h in
        inr (
          min-glb _ _ _ h (max-ge_left _ _ low n),
          min-le_left _ _ (F.le-not-nan_right _ _ h) (max-not-nan _ _ low n),
        )
  ]

  pub drive_travel-InRun :
      (delta : F.R) (t : Travel F.R)
      → F.le t.low t.high ≡ true
      → InRun t
      → (F.le (drive_travel delta t).low (drive_travel delta t).high ≡ true)
        × InRun (drive_travel delta t)
  unfolding drive_travel move_to
  drive_travel-InRun delta t h v =
      if_cases (λ (u : Travel F.R). (F.le u.low u.high ≡ true) × InRun u) t.held t _ (λ _. (h, v))
        λ _. (h, move_to-InRun (F.add t.position (F.mul delta t.per_radian)) t h)

  drive-AllInRun : (delta : F.R) (train : Train F.R) → AllInRun train → AllInRun (drive delta train)
  unfolding drive
  drive-AllInRun delta nothing v = v
  drive-AllInRun delta (rotation turned output) v = drive-AllInRun delta output v
  drive-AllInRun delta (gear_pair ratio output) v = drive-AllInRun (F.mul delta ratio) output v
  drive-AllInRun delta (belt_drive crossed r s output) v =
      drive-AllInRun (F.mul delta (belt_ratio crossed r s)) output v
  drive-AllInRun delta (brake set output) v =
      if_cases AllInRun set output _ (λ _. v) λ _. drive-AllInRun delta output v
  drive-AllInRun delta (travel t) v = drive_travel-InRun delta t v.0 v.1

  act-AllInRun : (a : Action F.R) (train : Train F.R) → AllInRun train → AllInRun (act a train)
  unfolding act move_to
  act-AllInRun (drives delta) train v = drive-AllInRun delta train v
  act-AllInRun a nothing v = tt
  act-AllInRun (seats phase) (rotation turned output) v = act-AllInRun (seats phase) output v
  act-AllInRun a (rotation turned output) v = act-AllInRun a output v
  act-AllInRun a (gear_pair ratio output) v = act-AllInRun a output v
  act-AllInRun (crosses on) (belt_drive crossed r s output) v = act-AllInRun (crosses on) output v
  act-AllInRun a (belt_drive crossed r s output) v = act-AllInRun a output v
  act-AllInRun (brakes on) (brake set output) v = act-AllInRun (brakes on) output v
  act-AllInRun a (brake set output) v = act-AllInRun a output v
  act-AllInRun (moves position) (travel t) v = (v.0, move_to-InRun position t v.0)
  act-AllInRun (holds on) (travel t) v = v
  act-AllInRun a (travel t) v = v

  unfoldable pub act_all : List (Action F.R) → Train F.R → Train F.R
  act_all [] train = train
  act_all (a ∷ rest) train = act_all rest (act a train)

  -- However a train is driven and whatever the machine does to it, no carriage leaves its run: its
  -- position is within the run, or is no number because what drove it was none.
  act_all-AllInRun :
      (actions : List (Action F.R)) (train : Train F.R)
      → AllInRun train
      → AllInRun (act_all actions train)
  unfolding act_all
  act_all-AllInRun [] train v = v
  act_all-AllInRun (a ∷ rest) train v = act_all-AllInRun rest (act a train) (act-AllInRun a train v)

  -- The positions of the carriages of a train.
  abbrev pub carriages : Train F.R → List F.R
  carriages nothing = []
  carriages (rotation turned output) = carriages output
  carriages (gear_pair ratio output) = carriages output
  carriages (belt_drive crossed r s output) = carriages output
  carriages (brake set output) = carriages output
  carriages (travel t) = t.position ∷ []

  -- Every carriage is behind a brake that is set, or is held by the machine.
  abbrev pub stopped : Train F.R → Bool
  stopped nothing = true
  stopped (rotation turned output) = stopped output
  stopped (gear_pair ratio output) = stopped output
  stopped (belt_drive crossed r s output) = stopped output
  stopped (brake set output) = set || stopped output
  stopped (travel t) = t.held

  drive-stopped :
      (delta : F.R) (train : Train F.R)
      → stopped train ≡ true
      → (stopped (drive delta train) ≡ true) × (carriages (drive delta train) ≡ carriages train)
  unfolding drive drive_travel
  drive-stopped delta nothing h = (refl, refl)
  drive-stopped delta (rotation turned output) h = drive-stopped delta output h
  drive-stopped delta (gear_pair ratio output) h = drive-stopped (F.mul delta ratio) output h
  drive-stopped delta (belt_drive crossed r s output) h =
      drive-stopped (F.mul delta (belt_ratio crossed r s)) output h
  drive-stopped delta (brake true output) h = (refl, refl)
  drive-stopped delta (brake false output) h = drive-stopped delta output h
  drive-stopped delta (travel t) h = ground arith

  unfoldable pub drive_all : List F.R → Train F.R → Train F.R
  drive_all [] train = train
  drive_all (delta ∷ rest) train = drive_all rest (drive delta train)

  crosses-carriages :
      (on : Bool) (train : Train F.R)
      → (stopped (act (crosses on) train) ≡ stopped train)
        × (carriages (act (crosses on) train) ≡ carriages train)
  unfolding act
  crosses-carriages on nothing = (refl, refl)
  crosses-carriages on (rotation turned output) = crosses-carriages on output
  crosses-carriages on (gear_pair ratio output) = crosses-carriages on output
  crosses-carriages on (belt_drive crossed r s output) = crosses-carriages on output
  crosses-carriages on (brake set output) =
      let (a, b) = crosses-carriages on output in (ap (λ x. set || x) a, b)
  crosses-carriages on (travel t) = (refl, refl)

  drive_all-stopped :
      (deltas : List F.R) (train : Train F.R)
      → stopped train ≡ true
      → carriages (drive_all deltas train) ≡ carriages train
  unfolding drive_all
  drive_all-stopped [] train h = refl
  drive_all-stopped (delta ∷ rest) train h =
      let (s, same) = drive-stopped delta train h in
      drive_all-stopped rest (drive delta train) s ∙ same

  -- While every carriage is behind a set brake or held by the machine, none moves: neither when the
  -- belt is crossed or opened, nor by anything that the needle then drives into the train.
  crosses-stopped :
      (on : Bool) (deltas : List F.R) (train : Train F.R)
      → stopped train ≡ true
      → carriages (drive_all deltas (act (crosses on) train)) ≡ carriages train
  crosses-stopped on deltas train h =
      let (s, same) = crosses-carriages on train in
      drive_all-stopped deltas (act (crosses on) train) (s ∙ h) ∙ same
