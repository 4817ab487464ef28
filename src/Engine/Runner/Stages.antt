-- ===== src/Engine/Runner/Stages.antt =====
-- web/src/engine/runner.ts: `SpeedTest.run` from its parts, and what it asks of the transfers.
use Prim.Native.String.{String}
use megapet.Common.{
  ℕ, zero, suc, ◌-◌, if◌then◌else◌, Bool, false, not, ◌&&◌, ◌||◌, Option, none, some, [], Num, max,
  or_else,
}
use megapet.Engine.Transfer.{TransferTick, TransferResult, Thrown, abort_error, other, Options}
use megapet.Engine.Runner.{
  Stage, latency, reversing, download, upload, done, aborted, error, idle, Snapshot, LatencyFigures,
  Probe, Pacing, TestParams, Settled, gives, throws, Script, Run, Part, ◌>>>◌, emit,
  throw_if_aborted, waits, sleeps, awaits, latency_weight, download_weight, upload_weight,
  download_from, upload_from,
}

abbrev pub describe_error : Thrown → String
describe_error (abort_error m) = m
describe_error (other m) = m

module _ ⦃F : Num⦄ where
  unfoldable pub empty_snapshot : Snapshot F.R
  empty_snapshot = record {
    phase = idle;
    progress = F.of_ℕ 0;
    live_mbps = F.of_ℕ 0;
    ping_ms = F.of_ℕ 0;
    jitter_ms = F.of_ℕ 0;
    ping_min_ms = F.of_ℕ 0;
    ping_max_ms = F.of_ℕ 0;
    download_mbps = F.of_ℕ 0;
    upload_mbps = F.of_ℕ 0;
    download_bytes = 0;
    upload_bytes = 0;
    next_phase = none;
    failure = none;
  }

  -- `overhead_factor || 1`
  unfoldable pub overhead_of : TestParams F.R → F.R
  overhead_of p =
      if F.is_nan p.overhead_factor
        || F.le p.overhead_factor (F.of_ℕ 0) && F.le (F.of_ℕ 0) p.overhead_factor
      then F.of_ℕ 1
      else p.overhead_factor

  unfoldable pub download_options : TestParams F.R → Options F.R
  download_options p = record {
    name = "download";
    duration_ms = some p.download_seconds.milliseconds;
    grace_ms = p.grace_seconds.milliseconds;
    overhead = overhead_of p;
  }

  unfoldable pub upload_options : TestParams F.R → Options F.R
  upload_options p = record {
    name = "upload";
    duration_ms = some p.upload_seconds.milliseconds;
    grace_ms = p.grace_seconds.milliseconds;
    overhead = overhead_of p;
  }

  unfoldable pub chunk_size_for : TestParams F.R → F.R → F.R
  chunk_size_for p mbps =
      let per_second =
        F.div (F.div (F.mul mbps (F.of_ℕ 1000000)) (F.of_ℕ 8))
          (max (F.of_ℕ 1) (F.of_ℕ p.upload_streams)) in
      if not (F.is_finite mbps) || F.le mbps (F.of_ℕ 0)
      then p.upload_chunk_bytes
      else F.round (F.div per_second (F.of_ℕ 2))

  -- What each report makes of the snapshot.
  abbrev pub on_sample : Probe F.R → Snapshot F.R → Snapshot F.R
  on_sample e s = record s {
    progress = F.mul (F.div (F.of_ℕ e.done) (F.of_ℕ e.total)) latency_weight;
    live_mbps = e.rtt;
    ping_ms = e.rtt;
  }

  abbrev pub on_download : TransferTick F.R → Snapshot F.R → Snapshot F.R
  on_download t s = record s {
    live_mbps = t.live_mbps;
    download_mbps = t.live_mbps;
    progress = F.add download_from (F.mul t.progress download_weight);
  }

  abbrev pub on_upload : TransferTick F.R → Snapshot F.R → Snapshot F.R
  on_upload t s = record s {
    live_mbps = t.live_mbps;
    upload_mbps = t.live_mbps;
    progress = F.add upload_from (F.mul t.progress upload_weight);
  }

  abbrev pub starts_latency : Snapshot F.R → Snapshot F.R
  starts_latency s = record s { phase = latency; progress = F.of_ℕ 0; live_mbps = F.of_ℕ 0 }

  abbrev pub has_latency : LatencyFigures F.R → Snapshot F.R → Snapshot F.R
  has_latency l s = record s {
    progress = latency_weight;
    ping_ms = l.min;
    ping_min_ms = l.min;
    ping_max_ms = l.max;
    jitter_ms = l.jitter;
    live_mbps = F.of_ℕ 0;
  }

  abbrev pub has_download : TransferResult F.R → Snapshot F.R → Snapshot F.R
  has_download r s = record s {
    download_mbps = r.mbps;
    download_bytes = r.total_bytes;
    live_mbps = r.mbps;
    progress = F.add download_from download_weight;
  }

  abbrev pub is_done : TransferResult F.R → Snapshot F.R → Snapshot F.R
  is_done r s = record s {
    phase = done;
    progress = F.of_ℕ 1;
    upload_mbps = r.mbps;
    upload_bytes = r.total_bytes;
    live_mbps = r.mbps;
  }

  abbrev pub is_reversing : Stage → F.R → Snapshot F.R → Snapshot F.R
  is_reversing next progress s = record s {
    phase = reversing;
    next_phase = some next;
    live_mbps = F.of_ℕ 0;
    progress = progress;
  }

  abbrev pub starts_upload : Snapshot F.R → Snapshot F.R
  starts_upload s = record s { phase = upload; live_mbps = F.of_ℕ 0 }

  abbrev pub starts_download : Snapshot F.R → Snapshot F.R
  starts_download s = record s { phase = download }

  -- `reverse`: nothing without a pause to hold.
  abbrev pub reverse : Option ℕ → Stage → F.R → (aborts : Bool) → Part F.R Unit
  reverse none next progress aborts r = (r, gives tt)
  reverse (some zero) next progress aborts r = (r, gives tt)
  reverse (some (suc ms)) next progress aborts r =
      (emit (is_reversing next progress) >>> λ _. waits aborts >>> λ _. throw_if_aborted) r

  -- The pause after the probes, where they took less than the visual plays for.
  unfoldable pub pause : Pacing → (played : ℕ) → (aborts : Bool) → Part F.R Unit
  pause p played aborts = sleeps (some (or_else p.latency_ms 0 - played)) aborts

  unfoldable pub latency_part : Pacing → Script F.R → Part F.R Unit
  latency_part p s = emit starts_latency >>> λ _. sleeps p.opening_ms s.opening_aborts >>> λ _.
      awaits on_sample s.probes >>> λ l. throw_if_aborted >>> λ _.
      emit (has_latency l) >>> λ _. pause p s.played s.pause_aborts >>> λ _. throw_if_aborted

  unfoldable pub download_part :
      TestParams F.R → Pacing → Script F.R → Part F.R (TransferResult F.R)
  download_part t p s = reverse p.reverse_ms download latency_weight s.first_reverse_aborts >>> λ _.
      emit starts_download >>> λ _. awaits on_download (s.download (download_options t)) >>> λ d.
      throw_if_aborted >>> λ _. emit (has_download d) >>> λ _ r. (r, gives d)

  unfoldable pub upload_part :
      TestParams F.R → Pacing → Script F.R → TransferResult F.R → Part F.R Unit
  upload_part t p s d =
      reverse p.reverse_ms upload (F.add download_from download_weight) s.second_reverse_aborts
      >>> λ _. emit starts_upload >>> λ _.
          awaits on_upload (s.upload (upload_options t) (chunk_size_for t d.mbps)) >>> λ u.
          throw_if_aborted >>> λ _. emit (is_done u)

  unfoldable pub measured : TestParams F.R → Pacing → Script F.R → Part F.R Unit
  measured t p s = latency_part p s >>> λ _. download_part t p s >>> λ d. upload_part t p s d

  abbrev pub is_aborted : Snapshot F.R → Snapshot F.R
  is_aborted s = record s { phase = aborted; live_mbps = F.of_ℕ 0 }

  abbrev pub has_failed : Thrown → Snapshot F.R → Snapshot F.R
  has_failed e s = record s {
    phase = error;
    live_mbps = F.of_ℕ 0;
    failure = some (describe_error e);
  }

  -- The `catch` block.
  unfoldable pub caught : Run F.R × Settled Unit → Run F.R
  caught (r, gives _) = r
  caught (r, throws e) =
      if r.signal_aborted then (emit is_aborted r).0 else (emit (has_failed e) r).0

  abbrev pub fresh : Run F.R
  fresh = record { snapshot = empty_snapshot; signal_aborted = false; emitted = [] }

  -- `run` with no test running: what `onUpdate` was called with, and the snapshot that it returns.
  unfoldable pub run : TestParams F.R → Pacing → Script F.R → Run F.R
  run t p s = caught (measured t p s fresh)
