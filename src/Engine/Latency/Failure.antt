-- ===== src/Engine/Latency/Failure.antt =====
-- web/src/engine/latency.ts: a request that throws in the middle of the loop.
use megapet.Common.{
  ℕ, zero, suc, ◌+◌, ◌-◌, ◌<◌, ◌≡◌, refl, sym, ap, ◌∙◌, subst, ltb, if◌then◌else◌, Bool, true,
  false, Option, List, Num, arith,
}
use megapet.Engine.Transfer.{Thrown}
use megapet.Engine.Runner.{Settled, gives, throws}
use megapet.Engine.Latency.{summarize}
use megapet.Engine.Latency.Probes.{
  Timing, Turn, Taken, again, ends, at_least_one, none_taken, rtt_of, sampled, settled, turn,
  probe_from, concluded, measure_latency,
}
use megapet.Engine.Latency.Loop.{rtts, answered, IsFull, sampled-IsFull}

module _ ⦃F : Num⦄ where
  abbrev pub failing : Thrown → (aborted_then : Bool) → Turn F.R
  failing e aborted_then = record {
    aborted = false;
    request = throws e;
    aborted_then = aborted_then;
  }

  -- Every request is answered up to one that throws.
  abbrev pub until : ℕ → (ℕ → F.R × Option (Timing F.R)) → Turn F.R → ℕ → Turn F.R
  until k answer t i = if ltb i k then answered (answer i) else t

  after :
      (ℕ → Turn F.R) → (total warmup left i : ℕ) → Turn F.R → Taken F.R → Taken F.R × Settled Unit
  after met total warmup left i t q = elim (turn total warmup i t q) [
    | again p ↦ probe_from met total warmup left (suc i) p
    | ends p s ↦ (p, s)
  ]

  record IsFailed (answer : ℕ → F.R × Option (Timing F.R)) (warmup k : ℕ) (e : Thrown)
      (aborted_then : Bool) (x : Taken F.R × Settled Unit) : Type 0 where
    pub kept : x.0.samples ≡ rtts answer warmup (k - warmup)
    pub answer_is : x.1 ≡ (if aborted_then then gives tt else throws e)

  abbrev turns : (before rest : ℕ) → ℕ
  turns zero rest = suc rest
  turns (suc d) rest = suc (turns d rest)

  turns-add : (before rest : ℕ) → turns before rest ≡ before + suc rest
  turns-add zero rest = omega arith
  turns-add (suc d) rest = omega (arith, turns-add d rest)

  probe_from-IsFailed :
      (answer : ℕ → F.R × Option (Timing F.R)) (total warmup k rest : ℕ) (e : Thrown)
      (aborted_then : Bool) (d i : ℕ) (q : Taken F.R)
      → d + i ≡ k
      → IsFull answer warmup i q
      → IsFailed answer warmup k e aborted_then
          (probe_from (until k answer (failing e aborted_then)) total warmup (turns d rest) i q)
  unfolding probe_from after turn settled
  probe_from-IsFailed answer total warmup k rest e aborted_then zero i q h v =
      let met = until k answer (failing e aborted_then) in
      let here : until k answer (failing e aborted_then) i ≡ failing e aborted_then =
        ground arith in
      let n : i - warmup ≡ k - warmup = ground arith in
      subst (IsFailed answer warmup k e aborted_then)
        (ap (λ (t : Turn F.R). after met total warmup rest i t q) (sym here))
        (record { kept = v.taken ∙ ap (rtts answer warmup) n; answer_is = refl })
  probe_from-IsFailed answer total warmup k rest e aborted_then (suc d) i q h v =
      let met = until k answer (failing e aborted_then) in
      let here : until k answer (failing e aborted_then) i ≡ answered (answer i) = ground arith in
      subst (IsFailed answer warmup k e aborted_then)
        (ap (λ (t : Turn F.R). after met total warmup (turns d rest) i t q) (sym here))
        (probe_from-IsFailed answer total warmup k rest e aborted_then d (suc i)
          (sampled total warmup i (rtt_of (answer i)) q) (omega arith)
          (sampled-IsFull answer total warmup i q v))

  concluded-IsFailed :
      (answer : ℕ → F.R × Option (Timing F.R)) (warmup k : ℕ) (e : Thrown) (aborted_then : Bool)
      (x : Taken F.R × Settled Unit)
      → IsFailed answer warmup k e aborted_then x
      → (concluded x).1
        ≡ (if aborted_then then gives (summarize (rtts answer warmup (k - warmup))) else throws e)
  unfolding concluded
  concluded-IsFailed answer warmup k e true (q, s) v =
      ap (λ (s : Settled Unit). (concluded (q, s)).1) v.answer_is
      ∙ ap (λ (t : List F.R). gives (summarize t)) v.kept
  concluded-IsFailed answer warmup k e false (q, s) v =
      ap (λ (s : Settled Unit). (concluded (q, s)).1) v.answer_is

  -- If every request before the turn numbered k is answered and that one throws, the loop throws what
  -- it threw, unless the signal is aborted by then: in that case it answers the summary of the round
  -- trips that it took up to there, which may be none.
  pub measure_latency-failing :
      (answer : ℕ → F.R × Option (Timing F.R)) (count warmup k : ℕ) (e : Thrown)
      (aborted_then : Bool)
      → k < at_least_one count + warmup
      → (measure_latency (until k answer (failing e aborted_then)) count warmup).1
        ≡ (if aborted_then then gives (summarize (rtts answer warmup (k - warmup))) else throws e)
  unfolding measure_latency
  measure_latency-failing answer count warmup k e aborted_then h =
      let total = at_least_one count in
      let met = until k answer (failing e aborted_then) in
      let rest = total + warmup - suc k in
      let n : turns k rest ≡ total + warmup = omega (arith, turns-add k rest, h) in
      let z : 0 ≡ 0 - warmup = omega arith in
      concluded-IsFailed answer warmup k e aborted_then _ (
        subst
          (λ (m : ℕ).
            IsFailed answer warmup k e aborted_then (probe_from met total warmup m 0 none_taken))
          n
          (probe_from-IsFailed answer total warmup k rest e aborted_then k 0 none_taken
            (omega arith) (record { taken = ap (rtts answer warmup) z })))
