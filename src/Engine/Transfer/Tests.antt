-- ===== src/Engine/Transfer/Tests.antt =====
-- Runs of the phases at concrete events, and the theorems applied to them.
use megapet.Common.{ℕ, ◌≡◌, ◌+◌, refl, [], ◌∷◌, Option, some, arith, false, min, max}
use megapet.Common.Sample.{sample_num}
use megapet.Engine.Meter.{RateMeter}
use megapet.Engine.Meter
use megapet.Engine.Transfer.{
  Phase, Options, TransferResult, other, fulfilled, rejected, ticks, aborts, counts, ok, begin,
  capture, measure, on_tick, on_abort, on_bytes, wind_up, conclude, finish, step, run, graced,
  report,
}
use megapet.Engine.Transfer.Capture.{finish-on_tick}
use megapet.Engine.Transfer.Short.{finish-IsShort}
use megapet.Engine.Transfer.Retries.{
  Round, with_retries, turn, IsFault, ThreeInARow, with_retries-ThreeInARow,
}
use megapet.Engine.Transfer.Post.{requested, times_out, requested-ends}
use megapet.Engine.Transfer.Upload.{rejected, random_payload, Fills, random_payload-Fills}

phases : Unit {0}
unfolding begin graced capture measure on_tick on_abort on_bytes wind_up conclude finish step run
    report Meter.start Meter.add Meter.sample Meter.mark_grace Meter.measured_bytes Meter.drop_old
    Meter.anchor_from Meter.live Meter.final Meter.to_mbps min max
phases = tt

abbrev options : Options (Option ℕ)
options = record { name = "download"; duration_ms = some 10000; grace_ms = 2000; overhead = some 1 }

-- A phase of ten seconds that is past its grace period, about to close.
abbrev loaded : Phase (Option ℕ)
loaded = run (counts 1000000 ∷ ticks 2000 2001 ∷ counts 8000000 ∷ []) (begin options false 0)

closing :
    (finish 10001 (fulfilled ∷ []) (on_tick 10000 10000 loaded)).1
    ≡ ok (record { mbps = some 8; bytes = 8000000; total_bytes = 9000000 })
unfolding phases
closing = refl

abbrev figures : TransferResult (Option ℕ)
figures = record { mbps = some 8; bytes = 8000000; total_bytes = 9000000 }

finish-on_tick_example :
    (finish 10200
      (fulfilled ∷ rejected (other "reset") ∷ [])
      (run (counts 512 ∷ aborts ∷ ticks 10050 10050 ∷ []) (on_tick 10000 10000 loaded))).1
    ≡ ok figures
unfolding phases
finish-on_tick_example =
    (finish-on_tick 10000 10000 10000 10200 (counts 512 ∷ aborts ∷ ticks 10050 10050 ∷ [])
      (fulfilled ∷ rejected (other "reset") ∷ []) loaded refl refl refl (omega arith) refl).0

abbrev short : Options (Option ℕ)
short = record { name = "upload"; duration_ms = some 3000; grace_ms = 5000; overhead = some 1 }

abbrev unmeasured : TransferResult (Option ℕ)
unmeasured = record { mbps = some 0; bytes = 0; total_bytes = 4000000 }

finish-IsShort_example :
    (unmeasured.bytes ≡ 0) × (unmeasured.mbps ≡ sample_num.mul (some 0) (some 1))
unfolding phases
finish-IsShort_example =
    finish-IsShort short false 0 3010 3000 (counts 4000000 ∷ ticks 3000 3000 ∷ []) (fulfilled ∷ [])
      unmeasured refl (omega arith) refl

abbrev failing : Round
failing = record {
  aborted_before = false;
  attempt = rejected (other "reset");
  aborted_after = false;
}

abbrev sending : Round
sending = record { aborted_before = false; attempt = fulfilled; aborted_after = false }

failing-IsFault : IsFault (other "reset") failing
failing-IsFault = record { wanted = refl; failed = refl; kept = refl; own = refl }

with_retries-ThreeInARow_example :
    ThreeInARow (other "reset") (failing ∷ failing ∷ sending ∷ failing ∷ failing ∷ failing ∷ [])
unfolding with_retries turn
with_retries-ThreeInARow_example =
    with_retries-ThreeInARow (other "reset")
      (failing ∷ failing ∷ sending ∷ failing ∷ failing ∷ failing ∷ []) refl

requested-ends_example :
    ((requested 4194304 (65536 ∷ 1048576 ∷ 524288 ∷ []) times_out Meter.new).settlement
      ≡ some (rejected "upload request timed out"))
    × ((requested 4194304 (65536 ∷ 1048576 ∷ 524288 ∷ []) times_out Meter.new).listening ≡ false)
    × ((requested 4194304 (65536 ∷ 1048576 ∷ 524288 ∷ []) times_out Meter.new).meter.total
        ≡ Meter.new.total + 1048576)
requested-ends_example =
    requested-ends 4194304 (65536 ∷ 1048576 ∷ 524288 ∷ []) times_out Meter.new
      (omega arith, (omega arith, (omega arith, tt)))

random_payload-Fills_example : Fills 0 100000 (random_payload 100000)
random_payload-Fills_example = random_payload-Fills 100000
