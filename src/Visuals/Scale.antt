-- ===== src/Visuals/Scale.antt =====
-- web/src/ui/visuals/scale.ts and tempo.ts: positions on the dial, and the durations of the moves.
use megapet.Common.{ℕ, ◌||◌, if◌then◌else◌, Num, max, min}

module _ ⦃F : Num⦄ where
  -- A duration at the tempo, which is 1.
  abbrev pub beat : ℕ → F.R
  beat ms = F.round (F.mul (F.of_ℕ ms) (F.of_ℕ 1))

  abbrev pub sweep_duration : F.R
  sweep_duration = beat 1600

  abbrev pub shift_ms : F.R
  shift_ms = beat 3900

  abbrev pub land_ms : F.R
  land_ms = beat 1000

  abbrev pub ride_full_ms : F.R
  ride_full_ms = beat 2400

  abbrev pub ride_min_ms : F.R
  ride_min_ms = beat 300

  abbrev pub sweep_min_ms : F.R
  sweep_min_ms = beat 200

  abbrev pub ease_tau : F.R
  ease_tau = F.of_ℕ 110

  abbrev pub min_mbps : F.R
  min_mbps = F.of_ℕ 1

  abbrev pub max_mbps : F.R
  max_mbps = F.of_ℕ 10000

  abbrev pub log_min : F.R
  log_min = F.log10 min_mbps

  abbrev pub log_span : F.R
  log_span = F.sub (F.log10 max_mbps) log_min

  -- `Math.abs(x)`
  abbrev pub magnitude : F.R → F.R
  magnitude x = max x (F.sub (F.of_ℕ 0) x)

  unfoldable pub sweep_ms : (distance : F.R) → F.R
  sweep_ms distance = max sweep_min_ms (F.round (F.mul (magnitude distance) sweep_duration))

  unfoldable pub to_fraction : F.R → F.R
  to_fraction mbps =
      if F.is_nan mbps || F.le mbps min_mbps
      then F.of_ℕ 0
      else min (F.of_ℕ 1) (F.div (F.sub (F.log10 mbps) log_min) log_span)

  unfoldable pub from_fraction : F.R → F.R
  from_fraction position =
      if F.le position (F.of_ℕ 0)
      then F.of_ℕ 0
      else F.pow (F.of_ℕ 10) (F.add (F.mul position log_span) log_min)
