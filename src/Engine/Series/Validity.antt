-- ===== src/Engine/Series/Validity.antt =====
-- series.ts: the series never outgrows its capacity and its timestamps never fall.
use megapet.Common.{
  ℕ, ◌+◌, ◌/◌, ◌≤◌, ◌≡◌, refl, inl, inr, List, [], ◌∷◌, ◌++◌, length, length-append, some, arith,
  Num, ltb, ltb→lt, ltb→le, ◌<◌, if◌then◌else◌, Bool-cases,
}
use megapet.Engine.Series.{
  SeriesPoint, TimeSeries, Sample, new, store, cleaned, compact, add, add_all, clear,
}
use megapet.Engine.Series.Compact.{
  Ascending, last_t, Ascending-append, merge-Ascending, last_t-merge, length-merge,
}

module _ ⦃F : Num⦄ where
  pub record IsValid (s : TimeSeries F.R) : Type 0 where
    pub roomy : 4 ≤ s.capacity
    pub bounded : length s.points ≤ s.capacity
    pub ordered : Ascending 0 s.points

  pub new-IsValid :
      (capacity interval date : ℕ) (s : TimeSeries F.R)
      → new capacity interval date ≡ some s
      → IsValid s
  unfolding new
  new-IsValid capacity interval date s h = ground arith

  pub last_t-append :
      (lo : ℕ) (ps : List (SeriesPoint F.R)) (q : SeriesPoint F.R) → last_t lo (ps ++ q ∷ []) ≡ q.t
  last_t-append lo [] q = refl
  last_t-append lo (p ∷ ps) q = last_t-append p.t ps q

  pub capacity-store :
      (p : SeriesPoint F.R) (date now : ℕ) (s : TimeSeries F.R)
      → (store p date now s).capacity ≡ s.capacity
  unfolding store
  capacity-store p date now s = refl

  pub length-store :
      (p : SeriesPoint F.R) (date now : ℕ) (s : TimeSeries F.R)
      → length (store p date now s).points ≡ length s.points + 1
  unfolding store
  length-store p date now s = length-append s.points (cleaned p ∷ [])

  -- Either the sample is stored within the capacity, or the store is compacted.
  pub add_cases {ℓ} :
      (P : TimeSeries F.R → Type ℓ) (p : SeriesPoint F.R) (date now : ℕ) (s : TimeSeries F.R)
      → (length s.points + 1 ≤ s.capacity → P (store p date now s))
      → (s.capacity < length s.points + 1 → P (compact (store p date now s)))
      → P (add p date now s)
  unfolding add
  add_cases P p date now s within over =
      elim (Bool-cases (ltb (store p date now s).capacity (length (store p date now s).points))) [
        | inl e ↦ rw e (
            over
              (omega (arith, ltb→lt _ _ e, length-store p date now s, capacity-store p date now s)))
        | inr e ↦ rw e (
            within
              (omega (arith, ltb→le _ _ e, length-store p date now s, capacity-store p date now s)))
      ]

  store-IsOrdered :
      (p : SeriesPoint F.R) (date now : ℕ) (s : TimeSeries F.R)
      → last_t 0 s.points ≤ p.t
      → Ascending 0 s.points
      → Ascending 0 (store p date now s).points × (last_t 0 (store p date now s).points ≡ p.t)
  unfolding store cleaned
  store-IsOrdered p date now s h a = (Ascending-append 0 s.points _ a h, last_t-append 0 s.points _)

  compact-IsValid :
      (s : TimeSeries F.R)
      → 4 ≤ s.capacity
      → length s.points ≤ s.capacity + 1
      → Ascending 0 s.points
      → IsValid (compact s)
  unfolding compact
  compact-IsValid s roomy near a = record {
    roomy = roomy;
    bounded = omega (arith, length-merge s.points);
    ordered = merge-Ascending 0 s.points a;
  }

  last_t-compact :
      (s : TimeSeries F.R) → Ascending 0 s.points → last_t 0 (compact s).points ≤ last_t 0 s.points
  unfolding compact
  last_t-compact s a = last_t-merge 0 s.points a

  length-compact : (s : TimeSeries F.R) → length (compact s).points ≡ (length s.points + 1) / 2
  unfolding compact
  length-compact s = length-merge s.points

  -- One call of `add` keeps the series valid, and its newest timestamp within the sample's.
  pub add-IsValid_step :
      (p : SeriesPoint F.R) (date now : ℕ) (s : TimeSeries F.R)
      → last_t 0 s.points ≤ p.t
      → IsValid s
      → IsValid (add p date now s) × (last_t 0 (add p date now s).points ≤ p.t)
  add-IsValid_step p date now s h v =
      add_cases (λ q. IsValid q × (last_t 0 q.points ≤ p.t)) p date now s
        (λ fits.
          let (a, e) = store-IsOrdered p date now s h v.ordered in
          (
            record {
              roomy = omega (arith, v.roomy, capacity-store p date now s);
              bounded = omega (arith, length-store p date now s, capacity-store p date now s);
              ordered = a;
            },
            omega arith,
          ))
        (λ over.
          let (a, e) = store-IsOrdered p date now s h v.ordered in
          (
            compact-IsValid _ (omega (arith, v.roomy, capacity-store p date now s))
                (omega (arith, v.bounded, length-store p date now s, capacity-store p date now s))
                a,
            omega (arith, last_t-compact (store p date now s) a),
          ))

  pub clear-IsValid : (s : TimeSeries F.R) → IsValid s → IsValid (clear s)
  unfolding clear
  clear-IsValid s v = record { roomy = v.roomy; bounded = omega arith; ordered = tt }

  -- The samples come in the order of their times, from `lo` on.
  abbrev pub InOrder : ℕ → List (Sample F.R) → Type 0
  InOrder lo [] = Unit
  InOrder lo (x ∷ xs) = (lo ≤ x.point.t) × InOrder x.point.t xs

  InOrder-weaken : (lo hi : ℕ) (xs : List (Sample F.R)) → lo ≤ hi → InOrder hi xs → InOrder lo xs
  InOrder-weaken lo hi [] h o = tt
  InOrder-weaken lo hi (x ∷ xs) h o = (omega arith, o.1)

  -- However long the session, a series that is fed samples in order of time stays within its
  -- capacity of at least four points, with timestamps that never fall.
  pub add_all-IsValid :
      (s : TimeSeries F.R) (xs : List (Sample F.R))
      → IsValid s
      → InOrder (last_t 0 s.points) xs
      → IsValid (add_all s xs)
  unfolding add_all
  add_all-IsValid s [] v o = v
  add_all-IsValid s (x ∷ xs) v o =
      let (w, h) = add-IsValid_step x.point x.date x.now s o.0 v in
      add_all-IsValid (add x.point x.date x.now s) xs w (InOrder-weaken _ _ xs h o.1)

  capacity-add :
      (p : SeriesPoint F.R) (date now : ℕ) (s : TimeSeries F.R)
      → (add p date now s).capacity ≡ s.capacity
  unfolding compact store
  capacity-add p date now s =
      add_cases (λ q. q.capacity ≡ s.capacity) p date now s (λ _. refl) (λ _. refl)

  -- A full series of an even capacity falls to half of it and one point more; below that each
  -- sample is one point more. So the size oscillates between half the capacity and the capacity.
  length-add :
      (p : SeriesPoint F.R) (date now k : ℕ) (s : TimeSeries F.R)
      → s.capacity ≡ k + k
      → IsValid s
      → length (add p date now s).points
        ≡ (if ltb (length s.points) s.capacity then length s.points + 1 else k + 1)
  length-add p date now k s even v =
      add_cases
        (λ q.
          length q.points
          ≡ (if ltb (length s.points) s.capacity then length s.points + 1 else k + 1))
        p date now s (λ fits. ground (arith, length-store p date now s))
        (λ over.
          ground (arith, length-store p date now s, length-compact (store p date now s), v.bounded))
