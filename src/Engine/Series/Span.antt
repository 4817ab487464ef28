-- ===== src/Engine/Series/Span.antt =====
-- series.ts: which stretch of the session the points cover, and at what spacing.
use megapet.Common.{
  ℕ, ◌+◌, ◌*◌, ◌≡◌, refl, ◌∙◌, List, [], ◌∷◌, ◌++◌, length, arith, Num, if◌then◌else◌, some, last?,
  last?-append, ltb,
}
use megapet.Engine.Series.{
  SeriesPoint, TimeSeries, Sample, store, cleaned, compact, add, add_all, clear, size,
}
use megapet.Engine.Series.Compact.{first?, first?-merge, last?-merge_odd}
use megapet.Engine.Series.Validity.{IsValid, add_cases}

module _ ⦃F : Num⦄ where
  first?-append :
      (t : ℕ) (ps : List (SeriesPoint F.R)) (q : SeriesPoint F.R)
      → first? ps ≡ some t
      → first? (ps ++ q ∷ []) ≡ some t
  first?-append t [] q h = cc
  first?-append t (p ∷ ps) q h = h

  first?-add :
      (t : ℕ) (x : Sample F.R) (s : TimeSeries F.R)
      → first? s.points ≡ some t
      → first? (add x.point x.date x.now s).points ≡ some t
  unfolding compact store
  first?-add t x s h =
      add_cases (λ q. first? q.points ≡ some t) x.point x.date x.now s
        (λ _. first?-append t s.points _ h)
        (λ _. first?-merge (s.points ++ cleaned x.point ∷ []) ∙ first?-append t s.points _ h)

  -- The oldest timestamp of a session never moves, however often the series is compacted.
  first?-add_all :
      (t : ℕ) (s : TimeSeries F.R) (xs : List (Sample F.R))
      → first? s.points ≡ some t
      → first? (add_all s xs).points ≡ some t
  unfolding add_all
  first?-add_all t s [] h = h
  first?-add_all t s (x ∷ xs) h =
      first?-add_all t (add x.point x.date x.now s) xs (first?-add t x s h)

  -- With an even capacity, as both users of the class give, the newest point is the sample just
  -- added, cleaned but never averaged.
  last?-add :
      (p : SeriesPoint F.R) (date now k : ℕ) (s : TimeSeries F.R)
      → s.capacity ≡ k + k
      → IsValid s
      → last? (add p date now s).points ≡ some (cleaned p)
  unfolding compact store
  last?-add p date now k s even v =
      add_cases (λ q. last? q.points ≡ some (cleaned p)) p date now s
        (λ _. last?-append s.points (cleaned p))
        (λ over. last?-merge_odd k s.points (cleaned p) (omega (arith, v.bounded)))

  -- The reported spacing doubles exactly when a full series takes one more sample.
  interval-add :
      (p : SeriesPoint F.R) (date now : ℕ) (s : TimeSeries F.R)
      → IsValid s
      → (add p date now s).interval
        ≡ (if ltb (length s.points) s.capacity then s.interval else s.interval * 2)
  unfolding compact store
  interval-add p date now s v =
      add_cases
        (λ q.
          q.interval ≡ (if ltb (length s.points) s.capacity then s.interval else s.interval * 2))
        p date now s (λ fits. ground arith) (λ over. ground (arith, v.bounded))

  -- `clear` empties the series and keeps the doubled spacing: after a full series takes a sample
  -- and is cleared, it holds no point and reports twice the spacing that it had.
  interval-clear_full :
      (p : SeriesPoint F.R) (date now : ℕ) (s : TimeSeries F.R)
      → IsValid s
      → length s.points ≡ s.capacity
      → (size (clear (add p date now s)) ≡ 0)
        × ((clear (add p date now s)).interval ≡ s.interval * 2)
  unfolding clear
  interval-clear_full p date now s v full = (refl, ground (arith, interval-add p date now s v))
