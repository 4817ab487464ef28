-- ===== src/Engine/Latency/Loop.antt =====
-- web/src/engine/latency.ts: what the loop reports, and what it takes when nothing goes wrong.
use megapet.Common.{
  ℕ, zero, suc, ◌+◌, ◌-◌, ◌≤◌, ◌≡◌, refl, sym, ap, ◌∙◌, subst, ltb, if_cases, false, Option, List,
  [], ◌∷◌, ◌++◌, length, length-append, Num, arith, inl, inr, ◌⊎◌,
}
use megapet.Engine.Runner.{Probe, Settled, gives, throws}
use megapet.Engine.Latency.{summarize}
use megapet.Engine.Latency.Probes.{
  Timing, Turn, Taken, Next, again, ends, at_least_one, none_taken, rtt_of, report_of, sampled,
  settled, turn, probe_from, concluded, measure_latency,
}

module _ ⦃F : Num⦄ where
  -- The reports of round trips, numbered from one.
  abbrev pub numbered : (total done : ℕ) → List F.R → List (Probe F.R)
  numbered total done [] = []
  numbered total done (x ∷ xs) =
      record { done = suc done; total = total; rtt = x } ∷ numbered total (suc done) xs

  numbered-append :
      (total done : ℕ) (xs : List F.R) (x : F.R)
      → numbered total done (xs ++ x ∷ [])
        ≡ numbered total done xs
          ++ record { done = done + length (xs ++ x ∷ []); total = total; rtt = x } ∷ []
  numbered-append total done [] x =
      ap (λ (n : ℕ). record { done = n; total = total; rtt = x } ∷ []) (omega arith)
  numbered-append total done (y ∷ xs) x =
      let first : Probe F.R = record { done = suc done; total = total; rtt = y } in
      let n : suc done + length (xs ++ x ∷ []) ≡ done + suc (length (xs ++ x ∷ [])) = omega arith in
      ap (λ (t : List (Probe F.R)). first ∷ t) (numbered-append total (suc done) xs x)
      ∙ ap
          (λ (n : ℕ).
            first
            ∷ (numbered total (suc done) xs ++ record { done = n; total = total; rtt = x } ∷ []))
          n

  numbered-append_first :
      (total : ℕ) (xs : List F.R) (x : F.R)
      → numbered total 0 (xs ++ x ∷ [])
        ≡ numbered total 0 xs ++ report_of total x (xs ++ x ∷ []) ∷ []
  numbered-append_first total xs x =
      let n : 0 + length (xs ++ x ∷ []) ≡ length (xs ++ x ∷ []) = omega arith in
      numbered-append total 0 xs x
      ∙ ap (λ (n : ℕ). numbered total 0 xs ++ record { done = n; total = total; rtt = x } ∷ []) n

  record IsReported (total : ℕ) (q : Taken F.R) : Type 0 where
    pub reported : q.reports ≡ numbered total 0 q.samples
    pub bounded : length q.samples ≤ total

  -- Before a turn: the reports are the samples, numbered, and every turn past the warmup took one.
  record IsAt (total warmup i : ℕ) (q : Taken F.R) : Type 0 where
    pub reported : q.reports ≡ numbered total 0 q.samples
    pub counted : length q.samples ≡ i - warmup

  sampled-IsAt :
      (total warmup i : ℕ) (rtt : F.R) (q : Taken F.R)
      → IsAt total warmup i q
      → IsAt total warmup (suc i) (sampled total warmup i rtt q)
  unfolding sampled
  sampled-IsAt total warmup i rtt q v =
      if_cases (IsAt total warmup (suc i)) (ltb i warmup) q _
        (λ h. record { reported = v.reported; counted = ground (arith, v.counted) })
        λ h. record {
          reported =
              ap (λ (t : List (Probe F.R)). t ++ report_of total rtt (q.samples ++ rtt ∷ []) ∷ [])
                v.reported
              ∙ sym (numbered-append_first total q.samples rtt);
          counted = ground (arith, v.counted, length-append q.samples (rtt ∷ []));
        }

  After : (total warmup i : ℕ) → Next F.R → Type 0
  After total warmup i (again q) = IsAt total warmup (suc i) q
  After total warmup i (ends q s) = IsAt total warmup i q

  settled-After :
      (total warmup i : ℕ) (t : Turn F.R) (q : Taken F.R)
      → IsAt total warmup i q
      → (a : Settled (F.R × Option (Timing F.R))) → t.request ≡ a
      → After total warmup i (settled total warmup i t q)
  unfolding settled After
  settled-After total warmup i t q v (gives a) h = rw h (sampled-IsAt total warmup i (rtt_of a) q v)
  settled-After total warmup i t q v (throws e) h = rw h v

  turn-After :
      (total warmup i : ℕ) (t : Turn F.R) (q : Taken F.R)
      → IsAt total warmup i q
      → After total warmup i (turn total warmup i t q)
  unfolding turn After
  turn-After total warmup i t q v =
      if_cases (After total warmup i) t.aborted (ends q (gives tt)) (settled total warmup i t q)
        (λ _. v) λ _. settled-After total warmup i t q v t.request refl

  turn_cases :
      (n : Next F.R)
      → ((p : Taken F.R) × (n ≡ again p)) ⊎ ((x : Taken F.R × Settled Unit) × (n ≡ ends x.0 x.1))
  turn_cases (again p) = inl (p, refl)
  turn_cases (ends p s) = inr ((p, s), refl)

  next_turn : (met : ℕ → Turn F.R) (total warmup left i : ℕ) → Next F.R → Taken F.R × Settled Unit
  next_turn met total warmup left i (again p) = probe_from met total warmup left (suc i) p
  next_turn met total warmup left i (ends p s) = (p, s)

  probe_from-next_turn :
      (met : ℕ → Turn F.R) (total warmup left i : ℕ) (q : Taken F.R) (n : Next F.R)
      → turn total warmup i (met i) q ≡ n
      → probe_from met total warmup (suc left) i q ≡ next_turn met total warmup left i n
  unfolding probe_from next_turn
  probe_from-next_turn met total warmup left i q (again p) h =
      ap
        (λ (n : Next F.R). elim n as (λ (n : Next F.R). Taken F.R × Settled Unit) [
          | again p ↦ probe_from met total warmup left (suc i) p
          | ends p s ↦ (p, s)
        ])
        h
  probe_from-next_turn met total warmup left i q (ends p s) h =
      ap
        (λ (n : Next F.R). elim n as (λ (n : Next F.R). Taken F.R × Settled Unit) [
          | again p ↦ probe_from met total warmup left (suc i) p
          | ends p s ↦ (p, s)
        ])
        h

  IsAt-bounded :
      (total warmup i : ℕ) (q : Taken F.R)
      → i ≤ total + warmup
      → IsAt total warmup i q
      → IsReported total q
  IsAt-bounded total warmup i q h v = record {
    reported = v.reported;
    bounded = omega (arith, v.counted);
  }

  probe_from-IsReported :
      (met : ℕ → Turn F.R) (total warmup left i : ℕ) (q : Taken F.R)
      → left + i ≡ total + warmup
      → IsAt total warmup i q
      → IsReported total (probe_from met total warmup left i q).0
  unfolding probe_from After next_turn
  probe_from-IsReported met total warmup zero i q h v =
      IsAt-bounded total warmup i q (omega arith) v
  probe_from-IsReported met total warmup (suc left) i q h v =
      let after = turn-After total warmup i (met i) q v in
      elim (turn_cases (turn total warmup i (met i) q)) [
        | inl (p, e) ↦
            subst (λ (x : Taken F.R × Settled Unit). IsReported total x.0)
              (sym (probe_from-next_turn met total warmup left i q (again p) e))
              (probe_from-IsReported met total warmup left (suc i) p (omega arith)
                (subst (After total warmup i) e after))
        | inr ((p, s), e) ↦
            subst (λ (x : Taken F.R × Settled Unit). IsReported total x.0)
              (sym (probe_from-next_turn met total warmup left i q (ends p s) e))
              (IsAt-bounded total warmup i p (omega arith) (subst (After total warmup i) e after))
      ]

  -- The round trips of the turns from one on, where every request is answered.
  abbrev pub rtts : (ℕ → F.R × Option (Timing F.R)) → (first count : ℕ) → List F.R
  rtts answer first zero = []
  rtts answer first (suc k) = rtts answer first k ++ rtt_of (answer (first + k)) ∷ []

  abbrev pub answered : F.R × Option (Timing F.R) → Turn F.R
  answered a = record { aborted = false; request = gives a; aborted_then = false }

  -- What was taken in full, by the turn.
  pub record IsFull (answer : ℕ → F.R × Option (Timing F.R)) (warmup i : ℕ) (q : Taken F.R)
      : Type 0 where
    pub taken : q.samples ≡ rtts answer warmup (i - warmup)

  pub sampled-IsFull :
      (answer : ℕ → F.R × Option (Timing F.R)) (total warmup i : ℕ) (q : Taken F.R)
      → IsFull answer warmup i q
      → IsFull answer warmup (suc i) (sampled total warmup i (rtt_of (answer i)) q)
  unfolding sampled
  sampled-IsFull answer total warmup i q v =
      if_cases (IsFull answer warmup (suc i)) (ltb i warmup) q _
        (λ h.
          let n : i - warmup ≡ suc i - warmup = ground arith in
          record { taken = v.taken ∙ ap (rtts answer warmup) n })
        λ h.
          let n : suc (i - warmup) ≡ suc i - warmup = ground arith in
          let k : i ≡ warmup + (i - warmup) = ground arith in
          record {
            taken =
                ap (λ (t : List F.R). t ++ rtt_of (answer i) ∷ []) v.taken
                ∙ ap (λ (j : ℕ). rtts answer warmup (i - warmup) ++ rtt_of (answer j) ∷ []) k
                ∙ ap (rtts answer warmup) n;
          }

  abbrev Full :
      (ℕ → F.R × Option (Timing F.R)) → (total warmup : ℕ) → Taken F.R × Settled Unit → Type 0
  Full answer total warmup (q, s) = (s ≡ gives tt) × (q.samples ≡ rtts answer warmup total)

  probe_from-Full :
      (answer : ℕ → F.R × Option (Timing F.R)) (total warmup left i : ℕ) (q : Taken F.R)
      → left + i ≡ total + warmup
      → IsFull answer warmup i q
      → Full answer total warmup (probe_from (λ j. answered (answer j)) total warmup left i q)
  unfolding probe_from turn settled
  probe_from-Full answer total warmup zero i q h v =
      let n : i - warmup ≡ total = omega arith in (refl, v.taken ∙ ap (rtts answer warmup) n)
  probe_from-Full answer total warmup (suc left) i q h v =
      probe_from-Full answer total warmup left (suc i)
        (sampled total warmup i (rtt_of (answer i)) q) (omega arith)
        (sampled-IsFull answer total warmup i q v)

  concluded-taken : (x : Taken F.R × Settled Unit) → x.0 ≡ (concluded x).0
  unfolding concluded
  concluded-taken (q, gives _) = refl
  concluded-taken (q, throws e) = refl

  concluded-Full :
      (answer : ℕ → F.R × Option (Timing F.R)) (total warmup : ℕ) (x : Taken F.R × Settled Unit)
      → Full answer total warmup x
      → (concluded x).1 ≡ gives (summarize (rtts answer warmup total))
  unfolding concluded
  concluded-Full answer total warmup (q, s) (e, h) =
      ap (λ (s : Settled Unit). (concluded (q, s)).1) e
      ∙ ap (λ (t : List F.R). gives (summarize t)) h

  -- Whatever the requests meet, the loop reports every sample it keeps, once, in order, numbered from
  -- one and out of the same total, and keeps no more than that total.
  measure_latency-IsReported :
      (met : ℕ → Turn F.R) (count warmup : ℕ)
      → IsReported (at_least_one count) (measure_latency met count warmup).0
  unfolding measure_latency
  measure_latency-IsReported met count warmup =
      let total = at_least_one count in
      let x = probe_from met total warmup (total + warmup) 0 none_taken in
      subst (IsReported total) (concluded-taken x) (
        probe_from-IsReported met total warmup (total + warmup) 0 none_taken (omega arith)
          (record { reported = refl; counted = omega arith }))

  -- If every request is answered and nothing is aborted, the loop ends after the warmup and as many
  -- turns as were asked for, at least one, and answers the summary of exactly these turns' round trips.
  pub measure_latency-rtts :
      (answer : ℕ → F.R × Option (Timing F.R)) (count warmup : ℕ)
      → (measure_latency (λ i. answered (answer i)) count warmup).1
        ≡ gives (summarize (rtts answer warmup (at_least_one count)))
  unfolding measure_latency
  measure_latency-rtts answer count warmup =
      let total = at_least_one count in
      let x = probe_from (λ i. answered (answer i)) total warmup (total + warmup) 0 none_taken in
      let z : 0 ≡ 0 - warmup = omega arith in
      concluded-Full answer total warmup x (
        probe_from-Full answer total warmup (total + warmup) 0 none_taken (omega arith)
          (record { taken = ap (rtts answer warmup) z }))
