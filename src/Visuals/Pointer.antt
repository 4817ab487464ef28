-- ===== src/Visuals/Pointer.antt =====
-- web/src/ui/visuals/pointer.ts: the part of an instrument that carries a reading.
pub mod Sweep
mod Tests
use megapet.Common.{ℕ, Bool, true, false, not, ◌&&◌, ◌^◌, if◌then◌else◌, Num, max, min, lt}
use megapet.Mech.Geometry.{lerp}
use megapet.Visuals.Easing.{ease_in_out, approach, limit_step}
use megapet.Visuals.Scale.{
  sweep_ms, sweep_duration, to_fraction, from_fraction, ease_tau, max_mbps, magnitude,
}

pub record Pointer (R : Type 0) : Type 0 where
  pub fraction : R
  pub last : R
  pub aim_fraction : R
  pub target_mbps : R
  pub fall_t : R
  pub fall_from : R
  pub fall_ms : R

module _ ⦃F : Num⦄ where
  abbrev pub same : F.R → F.R → Bool
  same a b = F.le a b && F.le b a

  unfoldable pub new : Pointer F.R
  new = record {
    fraction = F.of_ℕ 0;
    last = F.of_ℕ 0;
    aim_fraction = F.of_ℕ 0;
    target_mbps = F.of_ℕ 0;
    fall_t = F.of_ℕ 1;
    fall_from = F.of_ℕ 0;
    fall_ms = sweep_duration;
  }

  abbrev pub delta : Pointer F.R → F.R
  delta p = F.sub p.fraction p.last

  unfoldable pub reading : Pointer F.R → F.R
  reading p =
      let pinned = lt (F.sub (F.of_ℕ 1) (F.div (F.of_ℕ 1) (F.of_ℕ 1000000))) p.fraction in
      if pinned && lt max_mbps p.target_mbps then p.target_mbps else from_fraction p.fraction

  unfoldable pub falling : Pointer F.R → Bool
  falling p = lt p.fall_t (F.of_ℕ 1)

  unfoldable pub busy_ms : Pointer F.R → F.R
  busy_ms p = if falling p then F.mul (F.sub (F.of_ℕ 1) p.fall_t) p.fall_ms else F.of_ℕ 0

  -- 0.0005
  unfoldable pub settled : Pointer F.R → Bool
  settled p =
      same p.fall_t (F.of_ℕ 1)
      && lt (magnitude (F.sub p.aim_fraction p.fraction)) (F.div (F.of_ℕ 5) (F.of_ℕ 10000))

  -- A reading that is not a positive number counts as zero.
  unfoldable pub asked : F.R → F.R
  asked mbps = if F.is_finite mbps && lt (F.of_ℕ 0) mbps then mbps else F.of_ℕ 0

  unfoldable pub begin_fall : Pointer F.R → Pointer F.R
  begin_fall p = record p {
    fall_from = p.fraction;
    fall_ms = sweep_ms p.fraction;
    fall_t = F.of_ℕ 0;
  }

  unfoldable pub turned : (next : F.R) → Pointer F.R → Pointer F.R
  turned next p =
      if same next (F.of_ℕ 0) && lt (F.of_ℕ 0) p.aim_fraction
      then begin_fall p
      else if lt (F.of_ℕ 0) next
      then record p { fall_t = F.of_ℕ 1 }
      else p

  unfoldable pub aim : F.R → Pointer F.R → Pointer F.R
  aim mbps p =
      let value = asked mbps in
      record (turned (to_fraction value) p) {
        target_mbps = value;
        aim_fraction = to_fraction value;
      }

  -- A frame of the fall, and of the way to a reading.
  unfoldable pub fall : F.R → Pointer F.R → Pointer F.R
  fall dt p =
      let t = min (F.of_ℕ 1) (F.add p.fall_t (F.div dt p.fall_ms)) in
      record p { fall_t = t; fraction = lerp p.fall_from (F.of_ℕ 0) (ease_in_out t) }

  unfoldable pub track : F.R → Pointer F.R → Pointer F.R
  track dt p =
      let wanted = F.sub (approach p.fraction p.aim_fraction dt ease_tau) p.fraction in
      record p { fraction = F.add p.fraction (limit_step wanted dt sweep_duration) }

  -- What it answers is `delta` of the pointer after it.
  unfoldable pub update : F.R → Pointer F.R → Pointer F.R
  update dt p =
      let q = record p { last = p.fraction } in if falling p then fall dt q else track dt q

  unfoldable pub settle : Pointer F.R → Pointer F.R
  settle p = record p { last = p.fraction; fraction = p.aim_fraction; fall_t = F.of_ℕ 1 }

  unfoldable pub rest : Pointer F.R → Pointer F.R
  rest p = record p {
    last = F.of_ℕ 0;
    fraction = F.of_ℕ 0;
    aim_fraction = F.of_ℕ 0;
    target_mbps = F.of_ℕ 0;
    fall_t = F.of_ℕ 1;
  }
