-- ===== src/Engine/Runner/Tests.antt =====
-- Runs of a whole test at concrete scripts, and the theorems applied to them.
use megapet.Common.{
  List, ◌⊎◌, ℕ, ◌*◌, ◌≡◌, refl, [], ◌∷◌, Option, some, true, false, Bool, map, max,
}
use megapet.Common.Sample.{sample_num}
use megapet.Engine.Transfer.{TransferTick, TransferResult, other}
use megapet.Engine.Runner.{
  latency, reversing, download, upload, done, aborted, error, Snapshot, Settled, gives, throws,
  Pacing, TestParams, Script, LatencyFigures, ◌>>>◌, emit, throw_if_aborted, waits, reported,
  awaits,
}
use megapet.Engine.Runner.Order.{IsOver, run-IsOver}
use megapet.Engine.Runner.Outcomes.{Verdict, run-Verdict}
use megapet.Engine.Runner.Figures.{IsUndisturbed, HasFigures, run-HasFigures}
use megapet.Engine.Runner.Guard.{
  calls, cancels, returns, Event, fresh, steps, Refused, Begun, steps-calls,
}
use megapet.Engine.Runner.Stages.{
  run, caught, measured, latency_part, download_part, upload_part, pause, download_options,
  upload_options, chunk_size_for, empty_snapshot, overhead_of,
}

runner : Unit {0}
unfolding ◌>>>◌ emit throw_if_aborted waits reported awaits run caught measured latency_part
    download_part upload_part pause download_options upload_options chunk_size_for empty_snapshot
    overhead_of max
runner = tt

abbrev params : TestParams (Option ℕ)
params = record {
  download_seconds = record { milliseconds = 10000 };
  upload_seconds = record { milliseconds = 10000 };
  grace_seconds = record { milliseconds = 1500 };
  upload_streams = 4;
  upload_chunk_bytes = some 8388608;
  overhead_factor = some 0;
}

abbrev paced : Pacing
paced = record { opening_ms = some 300; latency_ms = some 2000; reverse_ms = some 600 }

abbrev pings : LatencyFigures (Option ℕ)
pings = record { min = some 9; max = some 14; jitter = some 2 }

abbrev result_of : ℕ → TransferResult (Option ℕ)
result_of mbps = record { mbps = some mbps; bytes = 1000000 * mbps; total_bytes = 1250000 * mbps }

abbrev tick_of : ℕ → TransferTick (Option ℕ)
tick_of mbps = record {
  live_mbps = some mbps;
  average_mbps = some mbps;
  bytes = 500000;
  progress = some 0;
}

-- The upload takes the bytes that it was asked to send at once as its rate.
abbrev script : (download_aborts : Bool) → Settled (TransferResult (Option ℕ)) → Script (Option ℕ)
script aborts downloaded = record {
  opening_aborts = false;
  probes = record {
    reports = record { done = 1; total = 1; rtt = some 9 } ∷ [];
    aborts = false;
    settles = gives pings;
  };
  played = 600;
  pause_aborts = false;
  first_reverse_aborts = false;
  download = λ o. record { reports = tick_of 70 ∷ []; aborts = aborts; settles = downloaded };
  second_reverse_aborts = false;
  upload = λ o chunk. record {
    reports = tick_of 30 ∷ [];
    aborts = false;
    settles = gives (record { mbps = chunk; bytes = 4000; total_bytes = 5000 });
  };
}

abbrev undisturbed : Script (Option ℕ)
undisturbed = script false (gives (result_of 80))

shown :
    map (λ (s : Snapshot (Option ℕ)). s.phase) (run params paced undisturbed).emitted
    ≡ done ∷ upload ∷ upload ∷ reversing ∷ download ∷ download ∷ download ∷ reversing ∷ latency
      ∷ latency ∷ latency ∷ []
unfolding runner
shown = refl

-- An abort in the middle of the download, and an endpoint that cannot be reached.
ended :
    ((run params paced (script true (gives (result_of 80)))).snapshot.phase ≡ aborted)
    × ((run params paced (script true (throws (other "reset")))).snapshot.phase ≡ aborted)
    × ((run params paced (script false (throws (other "reset")))).snapshot.phase ≡ error)
unfolding runner
ended = (refl, refl, refl)

run-IsOver_example : IsOver (run params paced undisturbed)
run-IsOver_example = run-IsOver params paced undisturbed

run-Verdict_example : Verdict (run params paced (script true (throws (other "reset"))))
run-Verdict_example = run-Verdict params paced (script true (throws (other "reset")))

abbrev uploaded : TransferResult (Option ℕ)
uploaded = record { mbps = some 1250000; bytes = 4000; total_bytes = 5000 }

undisturbed-IsUndisturbed : IsUndisturbed params undisturbed pings (result_of 80) uploaded
unfolding runner
undisturbed-IsUndisturbed = record {
  opening = refl;
  probed = refl;
  probes_kept = refl;
  paused = refl;
  first_reverse = refl;
  downloaded = refl;
  download_kept = refl;
  second_reverse = refl;
  uploaded = refl;
  upload_kept = refl;
}

run-HasFigures_example :
    HasFigures pings (result_of 80) uploaded (run params paced undisturbed).snapshot
run-HasFigures_example =
    run-HasFigures params paced undisturbed pings (result_of 80) uploaded undisturbed-IsUndisturbed

abbrev events : List (Event (Option ℕ))
events = cancels ∷ calls ∷ calls ∷ cancels ∷ returns empty_snapshot ∷ []

steps-calls_example : Refused (steps events fresh) ⊎ Begun (steps events fresh)
steps-calls_example = steps-calls events
