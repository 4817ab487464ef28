-- ===== src/Visuals/Lift/Reversing.antt =====
-- web/src/ui/visuals/lift/machine/reversing.ts: the reversing gear.
--
-- The belt's slack and the outlines that are drawn from the throw are left out.
use megapet.Common.{ℕ, Bool, Num}
use megapet.Mech.Geometry.{clamp, lerp}
use megapet.Visuals.Easing.{ease_in_out, ease_out_back, stage}
use megapet.Visuals.Scale.{shift_ms}
use megapet.Visuals.Move.{Move}
use megapet.Visuals.Move
use megapet.Visuals.Lift.Layout.{Drive, up, cross_for, lever_seat, fork_open, fork_crossed}

pub record ReversingGear (R : Type 0) : Type 0 where
  pub stroke : Move R
  pub cross_from : R
  pub cross_to : R
  pub lever_from : R
  pub lever_to : R

module _ ⦃F : Num⦄ where
  abbrev hundredths : ℕ → F.R
  hundredths n = F.div (F.of_ℕ n) (F.of_ℕ 100)

  -- A stage of the throw, from `STAGE`, in hundredths.
  unfoldable pub part : (from to : ℕ) → ReversingGear F.R → F.R
  part from to g = stage (Move.progress g.stroke) (hundredths from) (hundredths to)

  unfoldable pub new : ReversingGear F.R
  new = record {
    stroke = Move.new;
    cross_from = cross_for up;
    cross_to = cross_for up;
    lever_from = lever_seat up;
    lever_to = lever_seat up;
  }

  unfoldable pub cross : ReversingGear F.R → F.R
  cross g = lerp g.cross_from g.cross_to (ease_in_out (part 34 74 g))

  unfoldable pub lever_angle : ReversingGear F.R → F.R
  lever_angle g = lerp g.lever_from g.lever_to (ease_out_back (part 26 46 g))

  unfoldable pub grip : ReversingGear F.R → F.R
  grip g = F.mul (ease_in_out (part 14 28 g)) (F.sub (F.of_ℕ 1) (ease_in_out (part 64 78 g)))

  unfoldable pub brake_force : ReversingGear F.R → F.R
  brake_force g =
      clamp (F.sub (ease_in_out (part 0 12 g)) (ease_in_out (part 86 100 g))) (F.of_ℕ 0) (F.of_ℕ 1)

  unfoldable pub fork_angle : ReversingGear F.R → F.R
  fork_angle g = F.add fork_open (F.mul (cross g) (F.sub fork_crossed fork_open))

  unfoldable pub begin : Drive → ReversingGear F.R → ReversingGear F.R
  begin direction g = record {
    stroke = Move.start (F.of_ℕ 0) (F.of_ℕ 1) shift_ms (λ t. t) g.stroke;
    cross_from = cross g;
    cross_to = cross_for direction;
    lever_from = lever_angle g;
    lever_to = lever_seat direction;
  }

  unfoldable pub seat : Drive → ReversingGear F.R → ReversingGear F.R
  seat direction g = record {
    stroke = Move.snap (F.of_ℕ 1) g.stroke;
    cross_from = cross_for direction;
    cross_to = cross_for direction;
    lever_from = lever_seat direction;
    lever_to = lever_seat direction;
  }

  unfoldable pub update : F.R → ReversingGear F.R → ReversingGear F.R
  update dt g = record g { stroke = (Move.update dt g.stroke).0 }

  abbrev pub throwing : ReversingGear F.R → Bool
  throwing g = Move.running g.stroke

  abbrev pub holding : ReversingGear F.R → Bool
  holding g = Move.running g.stroke
