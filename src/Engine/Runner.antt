-- ===== src/Engine/Runner.antt =====
-- web/src/engine/runner.ts: one test from the first probe to the last byte.
--
-- `run` awaits in turn a pause, the probes, a pause, and twice a reversal and a transfer. What
-- happens during an await is a script: the reports that come, whether the caller aborts, and how it
-- settles. Between awaits nothing else runs. `Run` is what `run` keeps: the snapshot, the signal,
-- and the snapshots that `onUpdate` has been called with, the newest first.
pub mod Stages
pub mod Rules
pub mod Order
pub mod Outcomes
pub mod Figures
pub mod Guard
mod Tests
use Prim.Native.String.{String}
use megapet.Common.{
  ℕ, zero, suc, ◌+◌, ◌-◌, ◌*◌, ltb, leb, if◌then◌else◌, Bool, true, false, not, ◌&&◌, ◌||◌, Option,
  none, some, List, [], ◌∷◌, Num, max, lt,
}
use megapet.Engine.Transfer.{TransferTick, TransferResult, Thrown, abort_error, other, Options}

-- `Phase`, under another name than the measuring phase of the transfers.
pub data Stage : Type 0 where
  idle latency reversing download upload done aborted error : Stage

pub record Snapshot (R : Type 0) : Type 0 where
  pub phase : Stage
  pub progress : R
  pub live_mbps : R
  pub ping_ms : R
  pub jitter_ms : R
  pub ping_min_ms : R
  pub ping_max_ms : R
  pub download_mbps : R
  pub upload_mbps : R
  pub download_bytes : ℕ
  pub upload_bytes : ℕ
  pub next_phase : Option Stage
  pub failure : Option String

pub record LatencyFigures (R : Type 0) : Type 0 where
  pub min : R
  pub max : R
  pub jitter : R

pub record Probe (R : Type 0) : Type 0 where
  pub done : ℕ
  pub total : ℕ
  pub rtt : R

pub record Pacing : Type 0 where
  pub opening_ms : Option ℕ
  pub latency_ms : Option ℕ
  pub reverse_ms : Option ℕ

-- A number of seconds, given to the millisecond: a grace period of 1.5 seconds is 1500 of them.
pub record Seconds : Type 0 where
  pub milliseconds : ℕ

pub record TestParams (R : Type 0) : Type 0 where
  pub download_seconds : Seconds
  pub upload_seconds : Seconds
  pub grace_seconds : Seconds
  pub upload_streams : ℕ
  pub upload_chunk_bytes : R
  pub overhead_factor : R

pub data Settled (A : Type 0) : Type 0 where
  gives : A → Settled A
  throws : Thrown → Settled A

-- An await: what is reported during it, whether the caller aborts during it, how it settles.
pub record Await (E A : Type 0) : Type 0 where
  pub reports : List E
  pub aborts : Bool
  pub settles : Settled A

pub record Script (R : Type 0) : Type 0 where
  pub opening_aborts : Bool
  pub probes : Await (Probe R) (LatencyFigures R)
  -- the time the probes took, on the clock
  pub played : ℕ
  pub pause_aborts : Bool
  pub first_reverse_aborts : Bool
  pub download : Options R → Await (TransferTick R) (TransferResult R)
  pub second_reverse_aborts : Bool
  pub upload : Options R → R → Await (TransferTick R) (TransferResult R)

pub record Run (R : Type 0) : Type 0 where
  pub snapshot : Snapshot R
  pub signal_aborted : Bool
  pub emitted : List (Snapshot R)

-- A part of `run`: the state after it, and its value or what it throws.
abbrev pub Part : Type 0 → Type 0 → Type 0
Part R A = Run R → Run R × Settled A

module _ {R : Type 0} where
  abbrev pub continue : {A B : Type 0} → Run R × Settled A → (A → Part R B) → Run R × Settled B
  continue (r, gives a) f = f a r
  continue (r, throws e) f = (r, throws e)

  infix 20 ◌>>>◌
  unfoldable pub ◌>>>◌ : {A B : Type 0} → Part R A → (A → Part R B) → Part R B
  (p >>> f) r = continue (p r) f

  unfoldable pub emit : (Snapshot R → Snapshot R) → Part R Unit
  emit patch r = (
    record {
      snapshot = patch r.snapshot;
      signal_aborted = r.signal_aborted;
      emitted = patch r.snapshot ∷ r.emitted;
    },
    gives tt,
  )

  unfoldable pub throw_if_aborted : Part R Unit
  throw_if_aborted r =
      (r, if r.signal_aborted then throws (abort_error "test aborted") else gives tt)

  -- The caller may abort while `run` waits.
  unfoldable pub waits : Bool → Part R Unit
  waits aborts r = (record r { signal_aborted = r.signal_aborted || aborts }, gives tt)

  -- `if (ms > 0) await sleep(ms, signal)`
  abbrev pub sleeps : Option ℕ → Bool → Part R Unit
  sleeps none aborts r = (r, gives tt)
  sleeps (some zero) aborts r = (r, gives tt)
  sleeps (some (suc ms)) aborts r = waits aborts r

  unfoldable pub reported : {E : Type 0} → (E → Snapshot R → Snapshot R) → List E → Run R → Run R
  reported patch [] r = r
  reported patch (e ∷ rest) r = reported patch rest (emit (patch e) r).0

  unfoldable pub awaits : {E A : Type 0} → (E → Snapshot R → Snapshot R) → Await E A → Part R A
  awaits patch a r = ((waits a.aborts (reported patch a.reports r)).0, a.settles)

module _ ⦃F : Num⦄ where
  abbrev pub latency_weight : F.R
  latency_weight = F.div (F.of_ℕ 1) (F.of_ℕ 10)

  abbrev pub reverse_weight : F.R
  reverse_weight = F.div (F.of_ℕ 4) (F.of_ℕ 100)

  abbrev pub download_weight : F.R
  download_weight = F.div (F.of_ℕ 42) (F.of_ℕ 100)

  abbrev pub upload_weight : F.R
  upload_weight = F.div (F.of_ℕ 4) (F.of_ℕ 10)

  abbrev pub download_from : F.R
  download_from = F.add latency_weight reverse_weight

  abbrev pub upload_from : F.R
  upload_from = F.add (F.add download_from download_weight) reverse_weight
