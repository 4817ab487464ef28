-- ===== src/Engine/Latency/Tests.antt =====
-- The round trips of concrete requests and their summary, and the theorems applied to them.
use megapet.Common.{
  ℕ, ◌≡◌, refl, List, [], ◌∷◌, Option, none, some, max, ltb, if◌then◌else◌, false, ◌+◌, arith,
}
use megapet.Common.Sample.{sample_num}
use megapet.Engine.Latency.{insert, sort, summarize}
use megapet.Engine.Transfer.{other}
use megapet.Engine.Runner.{gives, throws}
use megapet.Engine.Latency.Probes.{
  Timing, rtt_of, sampled, settled, turn, probe_from, concluded, measure_latency,
}
use megapet.Engine.Latency.Loop.{rtts, answered, measure_latency-rtts}
use megapet.Engine.Latency.Failure.{failing, until, measure_latency-failing}

latency : Unit {0}
unfolding insert sort summarize max
latency = tt

abbrev trips : List (Option ℕ)
trips = some 12 ∷ some 9 ∷ some 30 ∷ some 11 ∷ []

figures :
    summarize trips
    ≡ record { samples = trips; min = some 9; median = some 11; max = some 30; jitter = some 7 }
unfolding latency
figures = refl

probes : Unit {0}
unfolding latency rtt_of sampled settled turn probe_from concluded measure_latency
probes = tt

abbrev answers : ℕ → Option ℕ × Option (Timing (Option ℕ))
answers i = (
  some (10 + i),
  if ltb i 2 then none else some (record { request_start = some 3; response_start = some 8 }),
)

-- One request to warm up, then three that count, two of them with a timing entry.
measured :
    (measure_latency (λ i. answered (answers i)) 3 1).0.samples ≡ some 11 ∷ some 5 ∷ some 5 ∷ []
unfolding probes
measured = refl

measure_latency-rtts_example :
    (measure_latency (λ i. answered (answers i)) 3 1).1 ≡ gives (summarize (rtts answers 1 3))
measure_latency-rtts_example = measure_latency-rtts answers 3 1

measure_latency-failing_example :
    (measure_latency (until 2 answers (failing (other "reset") false)) 3 1).1
    ≡ throws (other "reset")
measure_latency-failing_example =
    measure_latency-failing answers 3 1 2 (other "reset") false (omega arith)
