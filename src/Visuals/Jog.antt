-- ===== src/Visuals/Jog.antt =====
-- web/src/ui/visuals/jog.ts: the treadmill, which runs at the pace of the link.
--
-- The frame that the browser is asked for is a Boolean: whether one is due.
use Prim.Native.String.{String}
use megapet.Common.{ℕ, ◌-◌, ltb, Num, max, lt, Bool, true, false, not, if◌then◌else◌}
use megapet.Visuals.Scale.{to_fraction}

abbrev pub tread_gap : ℕ
tread_gap = 11

abbrev pub max_belt_speed : ℕ
max_belt_speed = 62

abbrev pub min_belt_speed : ℕ
min_belt_speed = 3

pub record Treadmill (R : Type 0) : Type 0 where
  pub phase : R
  pub mbps : R
  pub active : Bool
  pub frame : Bool
  pub last_frame : ℕ
  -- what the stylesheet reads: the state, the pace and the period of the bob
  pub shown_running : Bool
  pub pace : String
  pub bob : R

module _ ⦃F : Num⦄ where
  unfoldable pub belt_speed_for : (mbps : F.R) → (running : Bool) → F.R
  belt_speed_for mbps running =
      if not running
      then F.of_ℕ 0
      else F.add (F.of_ℕ min_belt_speed)
          (F.mul (to_fraction mbps) (F.sub (F.of_ℕ max_belt_speed) (F.of_ℕ min_belt_speed)))

  unfoldable pub belt_step : (mbps : F.R) → (running : Bool) → (dt_ms : F.R) → F.R
  belt_step mbps running dt_ms = F.div (F.mul (belt_speed_for mbps running) dt_ms) (F.of_ℕ 1000)

  unfoldable pub bob_period_ms : (mbps : F.R) → (running : Bool) → F.R
  bob_period_ms mbps running =
      let speed = belt_speed_for mbps running in
      if F.le speed (F.of_ℕ 0)
      then F.of_ℕ 0
      else max (F.of_ℕ 90) (F.round (F.mul (F.div (F.of_ℕ tread_gap) speed) (F.of_ℕ 1000)))

  unfoldable pub pace_class : (mbps : F.R) → String
  pace_class mbps =
      let fraction = to_fraction mbps in
      if lt (F.div (F.of_ℕ 66) (F.of_ℕ 100)) fraction
      then "fast"
      else if lt (F.div (F.of_ℕ 33) (F.of_ℕ 100)) fraction
      then "brisk"
      else "easy"

  abbrev pub clean : F.R → F.R
  clean mbps = if F.is_finite mbps then max (F.of_ℕ 0) mbps else F.of_ℕ 0

  unfoldable pub set_rate : (mbps : F.R) → Treadmill F.R → Treadmill F.R
  set_rate mbps t = record t {
    mbps = clean mbps;
    pace = if t.active then pace_class (clean mbps) else "idle";
    bob =
        let period = bob_period_ms (clean mbps) t.active in
        if lt (F.of_ℕ 0) period then period else F.of_ℕ 0;
  }

  unfoldable pub new : Treadmill F.R
  new = set_rate (F.of_ℕ 0) (record {
    phase = F.of_ℕ 0;
    mbps = F.of_ℕ 0;
    active = false;
    frame = false;
    last_frame = 0;
    shown_running = false;
    pace = "";
    bob = F.of_ℕ 0;
  })

  unfoldable pub start : (now : ℕ) → Treadmill F.R → Treadmill F.R
  start now t = if t.frame then t else record t { last_frame = now; frame = true }

  unfoldable pub stop : Treadmill F.R → Treadmill F.R
  stop t = record t { frame = false }

  unfoldable pub set_active : (now : ℕ) → Bool → Treadmill F.R → Treadmill F.R
  set_active now true t =
      if t.active
      then t
      else start now (set_rate t.mbps (record t { active = true; shown_running = true }))
  set_active now false t =
      if t.active
      then stop (set_rate t.mbps (record t { active = false; shown_running = false }))
      else t

  -- A frame that was asked for.
  unfoldable pub step : (now : ℕ) → Treadmill F.R → Treadmill F.R
  step now t =
      let dt = if ltb (now - t.last_frame) 64 then now - t.last_frame else 64 in
      if t.frame
      then record t {
        last_frame = now;
        phase = F.add t.phase (belt_step t.mbps t.active (F.of_ℕ dt));
      }
      else t

pub data Action (R : Type 0) : Type 0 where
  rates : R → Action R
  activates : Bool → Action R
  frames destroys : Action R

module _ ⦃F : Num⦄ where
  unfoldable pub act : (now : ℕ) → Action F.R → Treadmill F.R → Treadmill F.R
  act now (rates mbps) t = set_rate mbps t
  act now (activates on) t = set_active now on t
  act now frames t = step now t
  act now destroys t = stop t
