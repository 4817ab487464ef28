-- ===== src/Features/TestController/Tests.antt =====
-- Runs of the test controller at concrete tests, and the theorems applied to them.
use Prim.Native.String.{String}
use megapet.Common.{
  ℕ, ◌+◌, ◌*◌, ◌≤◌, ◌≡◌, refl, [], ◌∷◌, List, Option, none, some, arith, true, false, max,
}
use megapet.Common.Sample.{sample_num}
use megapet.Engine.Transfer.{TransferTick, TransferResult, other}
use megapet.Engine.Series.{clean, cleaned, raise, average, merge, store, compact, add}
use megapet.Engine.Monitor.{Clocks}
use megapet.Engine.Runner.{
  Stage, reversing, download, Snapshot, Settled, gives, throws, Pacing, TestParams, Script,
  LatencyFigures, ◌>>>◌, emit, throw_if_aborted, waits, reported, awaits,
}
use megapet.Engine.Runner.Stages.{
  run, caught, measured, latency_part, download_part, upload_part, pause, download_options,
  upload_options, chunk_size_for, empty_snapshot, overhead_of,
}
use megapet.Features.TestController.{
  TestController, abort, start_test, opened, begin, apply_snapshot, on_update, persist, persisted,
  finish, ended, calls,
}
use megapet.Features.TestController.Calls.{
  Peer, loads, style_of, next_name, reversing_drive, phase_calls, reading_calls, aborts,
}
use megapet.Features.TestController.Recording.{
  RunRecording, fresh_recording, sampled_now, store_snapshot, record_snapshot, add_floor,
  begin_recording, end_recording,
}
use megapet.Features.TestController.Rate.{Shown, turns, last_now, show_all-paced}
use megapet.Features.TestController.Rate
use megapet.Features.TestController.Trace.{traced, started_by, opens, closes}
use megapet.Features.TestController.Rest.Closing.{run_test-requests}
use megapet.Features.TestController.Rest.{show_all, opened_if, run_test, requests}
use megapet.Features.TestController.Reentry.{begun_twice, begun_twice-starts}

controller : Unit {0}
unfolding ◌>>>◌ emit throw_if_aborted waits reported awaits run caught measured latency_part
    download_part upload_part pause download_options upload_options chunk_size_for empty_snapshot
    overhead_of max clean cleaned raise average merge store compact add loads style_of abort
    start_test opened begin next_name reversing_drive phase_calls reading_calls apply_snapshot
    on_update persist persisted finish ended sampled_now store_snapshot record_snapshot add_floor
    begin_recording end_recording Rate.show_all show_all opened_if run_test
controller = tt

abbrev at : ℕ → Clocks
at t = record { now = t; date = 0 }

abbrev params : TestParams (Option ℕ)
params = record {
  download_seconds = record { milliseconds = 10000 };
  upload_seconds = record { milliseconds = 10000 };
  grace_seconds = record { milliseconds = 1500 };
  upload_streams = 4;
  upload_chunk_bytes = some 8388608;
  overhead_factor = some 0;
}

abbrev paced : Pacing
paced = record { opening_ms = none; latency_ms = some 2000; reverse_ms = some 600 }

abbrev pings : LatencyFigures (Option ℕ)
pings = record { min = some 9; max = some 14; jitter = some 2 }

abbrev result_of : ℕ → TransferResult (Option ℕ)
result_of mbps = record { mbps = some mbps; bytes = 1000000 * mbps; total_bytes = 1250000 * mbps }

abbrev tick_of : ℕ → TransferTick (Option ℕ)
tick_of mbps = record {
  live_mbps = some mbps;
  average_mbps = some mbps;
  bytes = 500000;
  progress = some 0;
}

abbrev script : Settled (TransferResult (Option ℕ)) → Script (Option ℕ)
script downloaded = record {
  opening_aborts = false;
  probes = record {
    reports = record { done = 1; total = 1; rtt = some 9 } ∷ [];
    aborts = false;
    settles = gives pings;
  };
  played = 600;
  pause_aborts = false;
  first_reverse_aborts = false;
  download = λ o. record { reports = tick_of 70 ∷ []; aborts = false; settles = downloaded };
  second_reverse_aborts = false;
  upload = λ o chunk. record {
    reports = tick_of 30 ∷ [];
    aborts = false;
    settles = gives (result_of 20);
  };
}

abbrev fresh : TestController (Option ℕ)
fresh = record { test = none; next_test = 0; run_id = none; recording = fresh_recording; log = [] }

abbrev elsewhere : Peer
elsewhere = record { id = "p1"; name = "Elsewhere"; url = "https://peer.example" }

abbrev run_of :
    Option Peer → Settled String → Settled (TransferResult (Option ℕ)) → TestController (Option ℕ)
run_of peer answer downloaded =
    run_test (λ i. at (100 * i + 1)) paced true answer params (script downloaded) peer fresh

asked :
    (requests (run_of none (gives "r7") (gives (result_of 80))).log
      ≡ opens none ∷ closes none "r7" ∷ [])
    × (requests (run_of none (gives "") (gives (result_of 80))).log ≡ opens none ∷ [])
    × (requests (run_of none (gives "r7") (throws (other "reset"))).log ≡ opens none ∷ [])
    × (requests (run_of none (throws (other "reset")) (gives (result_of 80))).log ≡ opens none ∷ [])
unfolding controller
asked = (refl, refl, refl, refl)

run_test-requests_example :
    ((run_of (some elsewhere) (gives "r7") (gives (result_of 80))).test ≡ none)
    × (requests (run_of (some elsewhere) (gives "r7") (gives (result_of 80))).log
        ≡ opens (some "https://peer.example") ∷ closes none "r7" ∷ [])
unfolding controller
run_test-requests_example =
    run_test-requests (λ i. at (100 * i + 1)) paced true (gives "r7") params
      (script (gives (result_of 80))) (some elsewhere) fresh refl

abbrev twice : TestController (Option ℕ)
twice = begun_twice (at 5) (at 9) paced none (gives "r7") (gives "r8") fresh

begun_twice-starts_example :
    (traced started_by twice.log ≡ 0 ∷ 1 ∷ [])
    × (twice.test ≡ some 1)
    × (abort twice ≡ calls (aborts 1 ∷ []) twice)
unfolding controller
begun_twice-starts_example =
    begun_twice-starts (at 5) (at 9) paced none (gives "r7") (gives "r8") fresh refl

abbrev snapshot_of : Stage → ℕ → Snapshot (Option ℕ)
snapshot_of phase mbps = record (run params paced (script (gives (result_of 80)))).snapshot {
  phase = phase;
  live_mbps = some mbps;
}

abbrev begun : RunRecording (Option ℕ)
begun = record fresh_recording { recorded_at = 10; recorded_phase = download }

abbrev shown : List Shown
shown =
    (at 100, snapshot_of download 40)
    ∷ (at 300, snapshot_of download 60)
    ∷ (at 310, snapshot_of reversing 0)
    ∷ []

sampled : (Rate.show_all shown begun).series.count ≡ 2
unfolding controller
sampled = refl

show_all-paced_example :
    (0 + turns download shown ≤ (Rate.show_all shown begun).series.count)
    × (250 * (Rate.show_all shown begun).series.count + 10
        ≤ 250 * (0 + turns download shown) + last_now 10 shown)
show_all-paced_example =
    show_all-paced shown begun (omega arith) (omega arith, (omega arith, (omega arith, tt)))
