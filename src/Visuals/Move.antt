-- ===== src/Visuals/Move.antt =====
-- web/src/ui/visuals/move.ts: a part taken somewhere by the machine.
pub mod Progress
use megapet.Common.{ℕ, Bool, true, false, ◌&&◌, if◌then◌else◌, Num, max, min, lt}
use megapet.Mech.Geometry.{lerp}
use megapet.Visuals.Easing.{ease_in_out}

pub record Move (R : Type 0) : Type 0 where
  pub t : R
  pub origin : R
  pub target : R
  pub ms : R
  pub ease : R → R

module _ ⦃F : Num⦄ where
  unfoldable pub new : Move F.R
  new = record {
    t = F.of_ℕ 1;
    origin = F.of_ℕ 0;
    target = F.of_ℕ 0;
    ms = F.of_ℕ 1;
    ease = ease_in_out;
  }

  unfoldable pub start : (from to ms : F.R) (ease : F.R → F.R) → Move F.R → Move F.R
  start from to ms ease m = record {
    t = F.of_ℕ 0;
    origin = from;
    target = to;
    ms = max (F.of_ℕ 1) ms;
    ease = ease;
  }

  unfoldable pub snap : F.R → Move F.R → Move F.R
  snap to m = record m { t = F.of_ℕ 1; origin = to; target = to }

  abbrev pub advanced : F.R → Move F.R → F.R
  advanced dt m = min (F.of_ℕ 1) (F.add m.t (F.div dt m.ms))

  -- The Boolean is true on the frame that arrives.
  unfoldable pub update : (dt : F.R) → Move F.R → Move F.R × Bool
  update dt m = if F.le (F.of_ℕ 1) m.t then (m, false) else (
    record m { t = advanced dt m },
    F.le (advanced dt m) (F.of_ℕ 1) && F.le (F.of_ℕ 1) (advanced dt m),
  )

  unfoldable pub value : Move F.R → F.R
  value m = lerp m.origin m.target (m.ease m.t)

  abbrev pub progress : Move F.R → F.R
  progress m = m.t

  unfoldable pub running : Move F.R → Bool
  running m = lt m.t (F.of_ℕ 1)

  abbrev pub destination : Move F.R → F.R
  destination m = m.target

  unfoldable pub remaining_ms : Move F.R → F.R
  remaining_ms m = if running m then F.mul (F.sub (F.of_ℕ 1) m.t) m.ms else F.of_ℕ 0
