-- ===== src/Mech/Drive.antt =====
-- web/src/mech/drive.ts: a drive train.
--
-- A part holds the part that it drives, so a train is a part with what hangs on it. A part that
-- drives nothing has `nothing` there. Driving a train gives the train after it.
pub mod Carriage
mod Tests
use megapet.Mech.Geometry.{clamp}
use megapet.Common.{
  ℕ, Bool, true, false, not, ◌&&◌, if◌then◌else◌, Num, max, min, lt, List, [], ◌∷◌,
}

-- The part of a gear that a pair computes with.
pub record Gear (R : Type 0) : Type 0 where
  pub radius : R
  pub teeth : ℕ

pub record Travel (R : Type 0) : Type 0 where
  pub held : Bool
  pub position : R
  pub low : R
  pub high : R
  pub per_radian : R

pub data Train (R : Type 0) : Type 0 where
  nothing : Train R
  rotation : (turned : R) → Train R → Train R
  gear_pair : (ratio : R) → Train R → Train R
  belt_drive : (crossed : Bool) (driver_radius driven_radius : R) → Train R → Train R
  brake : (set : Bool) → Train R → Train R
  travel : Travel R → Train R

pub data Built (R : Type 0) : Type 0 where
  built : Train R → Built R
  range_error : Built R

module _ ⦃F : Num⦄ where
  abbrev pub negated : F.R → F.R
  negated x = F.sub (F.of_ℕ 0) x

  -- `(2 * gear.radius) / gear.teeth`
  abbrev pub module_of : Gear F.R → F.R
  module_of g = F.div (F.mul (F.of_ℕ 2) g.radius) (F.of_ℕ g.teeth)

  -- The constructor of `GearPair`: the gears have to be cut to one module.
  unfoldable pub new_gear_pair : (driver driven : Gear F.R) → Train F.R → Built F.R
  new_gear_pair driver driven output =
      let off = F.sub (module_of driver) (module_of driven) in
      let tolerance = F.div (F.of_ℕ 1) (F.of_ℕ 1000000000) in
      if lt tolerance (max off (negated off))
      then range_error
      else built (gear_pair (F.div (negated (F.of_ℕ driver.teeth)) (F.of_ℕ driven.teeth)) output)

  unfoldable pub belt_ratio : (crossed : Bool) (driver_radius driven_radius : F.R) → F.R
  belt_ratio crossed driver_radius driven_radius =
      F.mul (if crossed then negated (F.of_ℕ 1) else F.of_ℕ 1) (F.div driver_radius driven_radius)

  unfoldable pub move_to : F.R → Travel F.R → Travel F.R
  move_to position t = record t { position = clamp position t.low t.high }

  unfoldable pub drive_travel : F.R → Travel F.R → Travel F.R
  drive_travel delta t =
      if t.held then t else move_to (F.add t.position (F.mul delta t.per_radian)) t

  unfoldable pub drive : F.R → Train F.R → Train F.R
  drive delta nothing = nothing
  drive delta (rotation turned output) = rotation (F.add turned delta) (drive delta output)
  drive delta (gear_pair ratio output) = gear_pair ratio (drive (F.mul delta ratio) output)
  drive delta (belt_drive crossed r s output) =
      belt_drive crossed r s (drive (F.mul delta (belt_ratio crossed r s)) output)
  drive delta (brake set output) =
      let released = drive delta output in brake set (if set then output else released)
  drive delta (travel t) = travel (drive_travel delta t)

-- What the machine does to a train besides driving it. Each acts on every part of its kind, which
-- in the trains of the client is one.
pub data Action (R : Type 0) : Type 0 where
  drives seats moves : R → Action R
  crosses brakes holds : Bool → Action R

module _ ⦃F : Num⦄ where
  unfoldable pub act : Action F.R → Train F.R → Train F.R
  act (drives delta) train = drive delta train
  act a nothing = nothing
  act (seats phase) (rotation turned output) = rotation phase (act (seats phase) output)
  act a (rotation turned output) = rotation turned (act a output)
  act a (gear_pair ratio output) = gear_pair ratio (act a output)
  act (crosses on) (belt_drive crossed r s output) = belt_drive on r s (act (crosses on) output)
  act a (belt_drive crossed r s output) = belt_drive crossed r s (act a output)
  act (brakes on) (brake set output) = brake on (act (brakes on) output)
  act a (brake set output) = brake set (act a output)
  act (moves position) (travel t) = travel (move_to position t)
  act (holds on) (travel t) = travel (record t { held = on })
  act a (travel t) = travel t
