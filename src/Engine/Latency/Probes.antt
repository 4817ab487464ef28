-- ===== src/Engine/Latency/Probes.antt =====
-- web/src/engine/latency.ts: the loop that takes the round trips.
--
-- What a request meets is a turn: whether the signal is aborted before it, the time that it took
-- with the timing entry that the browser has of it, or what it throws, and whether the signal is
-- aborted by then. The time is a number of the language. The wait between two requests only passes
-- time.
use megapet.Common.{
  ℕ, zero, suc, ◌+◌, ltb, if◌then◌else◌, Bool, ◌&&◌, Option, none, some, List, [], ◌∷◌, ◌++◌,
  length, Num, lt,
}
use megapet.Engine.Runner.{Probe, Settled, gives, throws}
use megapet.Engine.Latency.{LatencyResult, summarize}

pub record Timing (R : Type 0) : Type 0 where
  pub request_start : R
  pub response_start : R

pub record Turn (R : Type 0) : Type 0 where
  pub aborted : Bool
  pub request : Settled (R × Option (Timing R))
  pub aborted_then : Bool

-- The round trips, and the reports that `onSample` got, in order.
pub record Taken (R : Type 0) : Type 0 where
  pub samples : List R
  pub reports : List (Probe R)

pub data Next (R : Type 0) : Type 0 where
  again : Taken R → Next R
  ends : Taken R → Settled Unit → Next R

-- `Math.max(1, opt.count)`
abbrev pub at_least_one : ℕ → ℕ
at_least_one count = if ltb 1 count then count else 1

abbrev pub none_taken : {R : Type 0} → Taken R
none_taken = record { samples = []; reports = [] }

module _ ⦃F : Num⦄ where
  -- The network's share of a round trip where the timing entry gives it, and else all of it.
  unfoldable pub rtt_of : F.R × Option (Timing F.R) → F.R
  rtt_of (elapsed, none) = elapsed
  rtt_of (elapsed, some t) =
      if lt (F.of_ℕ 0) t.request_start && F.le t.request_start t.response_start
      then F.sub t.response_start t.request_start
      else elapsed

  abbrev pub report_of : (total : ℕ) → F.R → List F.R → Probe F.R
  report_of total rtt samples = record { done = length samples; total = total; rtt = rtt }

  unfoldable pub sampled : (total warmup i : ℕ) → F.R → Taken F.R → Taken F.R
  sampled total warmup i rtt q = if ltb i warmup then q else record {
    samples = q.samples ++ rtt ∷ [];
    reports = q.reports ++ report_of total rtt (q.samples ++ rtt ∷ []) ∷ [];
  }

  unfoldable pub settled : (total warmup i : ℕ) → Turn F.R → Taken F.R → Next F.R
  settled total warmup i t q = elim t.request [
    | gives a ↦ again (sampled total warmup i (rtt_of a) q)
    | throws e ↦ ends q (if t.aborted_then then gives tt else throws e)
  ]

  unfoldable pub turn : (total warmup i : ℕ) → Turn F.R → Taken F.R → Next F.R
  turn total warmup i t q = if t.aborted then ends q (gives tt) else settled total warmup i t q

  -- The loop, with the number of turns that are left.
  unfoldable pub probe_from :
      (ℕ → Turn F.R) → (total warmup left i : ℕ) → Taken F.R → Taken F.R × Settled Unit
  probe_from met total warmup zero i q = (q, gives tt)
  probe_from met total warmup (suc left) i q = elim (turn total warmup i (met i) q) [
    | again p ↦ probe_from met total warmup left (suc i) p
    | ends p s ↦ (p, s)
  ]

  unfoldable pub concluded : Taken F.R × Settled Unit → Taken F.R × Settled (LatencyResult F.R)
  concluded (q, gives _) = (q, gives (summarize q.samples))
  concluded (q, throws e) = (q, throws e)

  unfoldable pub measure_latency :
      (ℕ → Turn F.R) → (count warmup : ℕ) → Taken F.R × Settled (LatencyResult F.R)
  measure_latency met count warmup =
      let total = at_least_one count in
      concluded (probe_from met total warmup (total + warmup) 0 none_taken)
