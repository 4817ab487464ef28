-- ===== src/Engine/Transfer.antt =====
-- web/src/engine/phases/transfer-phase.ts: the machinery of a throughput phase.
--
-- `run` is split where it gives way to the event loop: `begin` is the part up to the first wait,
-- `on_tick` the interval, `on_abort` the listener on the caller's signal, and `finish` what follows
-- once every worker has settled. What the workers count between these is an event. Reads of
-- `performance.now()` are arguments; a tick reads the clock twice.
pub mod Capture
pub mod Short
pub mod Retries
pub mod Upload
pub mod Post
mod Tests
use Prim.Native.String.{String}
use Prim.Native.String as Text
use megapet.Common.{
  ℕ, ◌+◌, ◌-◌, ltb, leb, if◌then◌else◌, Bool, true, false, not, ◌&&◌, Option, none, some, List, [],
  ◌∷◌, ◌++◌, is_some, Num, min,
}
use megapet.Engine.Meter.{RateMeter}
use megapet.Engine.Meter

pub record TransferTick (R : Type 0) : Type 0 where
  pub live_mbps : R
  pub average_mbps : R
  pub bytes : ℕ
  pub progress : R

pub record TransferResult (R : Type 0) : Type 0 where
  pub mbps : R
  pub bytes : ℕ
  pub total_bytes : ℕ

-- What a worker or the phase throws: a `DOMException` named `AbortError`, or another value.
pub data Thrown : Type 0 where
  abort_error other : String → Thrown

-- How a worker's promise settled.
pub data Outcome : Type 0 where
  fulfilled : Outcome
  rejected : Thrown → Outcome

pub record Options (R : Type 0) : Type 0 where
  pub name : String
  -- `none` is `Infinity`
  pub duration_ms : Option ℕ
  pub grace_ms : ℕ
  pub overhead : R

pub record Phase (R : Type 0) : Type 0 where
  pub options : Options R
  pub meter : RateMeter
  pub started : ℕ
  -- the caller's signal, the phase's own controller, and whether the one is passed on to the other
  pub signal_aborted : Bool
  pub aborted : Bool
  pub listening : Bool
  pub ticking : Bool
  pub captured : Option (TransferResult R)
  -- what `onTick` was called with
  pub reported : List (TransferTick R)

pub data Result (R : Type 0) : Type 0 where
  ok : TransferResult R → Result R
  err : Thrown → Result R

abbrev pub tick_ms : ℕ
tick_ms = 50

module _ ⦃F : Num⦄ where
  unfoldable pub begin : Options F.R → (signal_aborted : Bool) → (now : ℕ) → Phase F.R
  begin options signal_aborted now = record {
    options = options;
    meter = Meter.start now Meter.new;
    started = now;
    signal_aborted = signal_aborted;
    aborted = false;
    listening = true;
    ticking = true;
    captured = none;
    reported = [];
  }

  unfoldable pub graced : ℕ → RateMeter → RateMeter
  graced now m = if m.graced then m else Meter.mark_grace now m

  unfoldable pub capture : ℕ → Phase F.R → Phase F.R
  capture now p =
      if is_some p.captured
      then p
      else let meter = graced now p.meter in
        record p {
          meter = meter;
          captured = some (record {
            mbps = F.mul (Meter.final now meter) p.options.overhead;
            bytes = Meter.measured_bytes meter;
            total_bytes = meter.total;
          });
        }

  -- `elapsed >= durationMs`
  abbrev pub window_over : Option ℕ → ℕ → Bool
  window_over none elapsed = false
  window_over (some d) elapsed = leb d elapsed

  abbrev pub progress : Option ℕ → ℕ → F.R
  progress none elapsed = F.of_ℕ 0
  progress (some d) elapsed = min (F.of_ℕ 1) (F.div (F.of_ℕ elapsed) (F.of_ℕ d))

  -- The tick's sample, and the grace mark when its time has come.
  unfoldable pub measure : ℕ → Phase F.R → Phase F.R
  measure now p =
      let sampled = Meter.sample now p.meter in
      record p {
        meter =
            if not sampled.graced && leb p.options.grace_ms (now - p.started)
            then Meter.mark_grace now sampled
            else sampled;
      }

  unfoldable pub report : (now again : ℕ) → Phase F.R → TransferTick F.R
  report now again p = record {
    live_mbps = F.mul (Meter.live 1000 again p.meter) p.options.overhead;
    average_mbps = F.mul (Meter.final now p.meter) p.options.overhead;
    bytes = p.meter.total;
    progress = progress p.options.duration_ms (now - p.started);
  }

  unfoldable pub on_tick : (now again : ℕ) → Phase F.R → Phase F.R
  on_tick now again p =
      let q = measure now p in
      let closed = record (capture now q) { ticking = false; aborted = true } in
      let ticked = record q { reported = q.reported ++ report now again q ∷ [] } in
      if not p.ticking
      then p
      else if window_over p.options.duration_ms (now - p.started)
      then closed
      else ticked

  unfoldable pub on_abort : Phase F.R → Phase F.R
  on_abort p = record p { signal_aborted = true; aborted = if p.listening then true else p.aborted }

  -- A worker counts bytes.
  unfoldable pub on_bytes : ℕ → Phase F.R → Phase F.R
  on_bytes n p = record p { meter = Meter.add n p.meter }

  abbrev pub first_failure : List Outcome → Option Thrown
  first_failure [] = none
  first_failure (fulfilled ∷ rest) = first_failure rest
  first_failure (rejected e ∷ rest) = some e

  abbrev pub all_failed : List Outcome → Bool
  all_failed [] = true
  all_failed (fulfilled ∷ rest) = false
  all_failed (rejected e ∷ rest) = all_failed rest

  -- The `finally` block.
  unfoldable pub wind_up : Phase F.R → Phase F.R
  wind_up p = record p { ticking = false; aborted = true; listening = false }

  abbrev pub abort_message : Options F.R → Thrown
  abort_message o = abort_error (Text.◌++◌ o.name " aborted")

  -- `captured!`, which is never null there: `capture` has just been called.
  abbrev pub answer : Phase F.R → Result F.R
  answer p = elim p.captured [ none ↦ err (abort_message p.options) | some r ↦ ok r ]

  -- What follows the `try`: an abort is a failure of a phase that had a window to finish.
  unfoldable pub conclude : ℕ → Phase F.R → Phase F.R × Result F.R
  conclude now p =
      if p.signal_aborted && not (is_some p.captured) && is_some p.options.duration_ms
      then (p, err (abort_message p.options))
      else (capture now p, answer (capture now p))

  unfoldable pub finish : (now : ℕ) → List Outcome → Phase F.R → Phase F.R × Result F.R
  finish now outcomes p = elim (first_failure outcomes) [
    | none ↦ conclude now (wind_up p)
    | some e ↦
        if all_failed outcomes && not p.signal_aborted
        then (wind_up p, err e)
        else conclude now (wind_up p)
  ]

-- What may happen between `begin` and `finish`.
pub data Event : Type 0 where
  ticks : (now again : ℕ) → Event
  aborts : Event
  counts : ℕ → Event

module _ ⦃F : Num⦄ where
  unfoldable pub step : Event → Phase F.R → Phase F.R
  step (ticks now again) p = on_tick now again p
  step aborts p = on_abort p
  step (counts n) p = on_bytes n p

  unfoldable pub run : List Event → Phase F.R → Phase F.R
  run [] p = p
  run (e ∷ es) p = run es (step e p)
