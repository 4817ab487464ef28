-- ===== src/Mech/Drive/Tests.antt =====
-- Runs of a train at concrete turns, and the theorems applied to them.
use megapet.Common.{ℕ, ◌≡◌, refl, [], ◌∷◌, Option, some, false, Bool, max, min}
use megapet.Common.Sample.{sample_num}
use megapet.Mech.Geometry.{clamp}
use megapet.Mech.Drive.{
  Train, nothing, rotation, belt_drive, brake, travel, range_error, new_gear_pair, belt_ratio,
  move_to, drive_travel, drive, act,
}
use megapet.Mech.Drive.Carriage.{act_all, carriages, drive_all}

drive_train : Unit {0}
unfolding clamp new_gear_pair belt_ratio move_to drive_travel drive act act_all drive_all max min
drive_train = tt

-- The needle, a belt, the brake and the car.
abbrev train : (braked : Bool) → Train (Option ℕ)
train braked = rotation (some 0) (
    belt_drive false (some 2) (some 1) (
      brake braked (
        travel (record {
          held = false;
          position = some 10;
          low = some 0;
          high = some 100;
          per_radian = some 3;
        }))))

carried :
    (carriages (drive (some 5) (train false)) ≡ some 40 ∷ [])
    × (carriages (drive (some 50) (train false)) ≡ some 100 ∷ [])
unfolding drive_train
carried = (refl, refl)

meshes :
    new_gear_pair
      (record { radius = some 90; teeth = 10 })
      (record { radius = some 30; teeth = 10 })
      nothing
    ≡ range_error
unfolding drive_train
meshes = refl
