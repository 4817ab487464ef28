-- ===== src/Engine/Series/Peaks.antt =====
-- series.ts: the headline figures are taken from the raw samples.
use megapet.Common.{
  ◌+◌, ◌≡◌, refl, ap, ◌∙◌, true, false, List, [], ◌∷◌, arith, Num, max-ge_left, le_of_not-le,
}
use megapet.Engine.Series.{
  SeriesStats, TimeSeries, Sample, store, clean, raise, compact, add, add_all, stats,
}
use megapet.Engine.Series.Validity.{add_cases}

module _ ⦃F : Num⦄ where
  zero-not-nan : F.is_nan (F.of_ℕ 0) ≡ false
  zero-not-nan = F.finite-not-nan _ (F.of_ℕ-finite 0 (omega arith))

  pub clean-ge_zero : (x : F.R) → F.le (F.of_ℕ 0) (clean x) ≡ true
  unfolding clean
  clean-ge_zero x =
      ground
        (arith, F.le_refl _ zero-not-nan, max-ge_left (F.of_ℕ 0) x zero-not-nan, F.finite-not-nan x)

  pub clean-not-nan : (x : F.R) → F.is_nan (clean x) ≡ false
  clean-not-nan x = F.le-not-nan_right _ _ (clean-ge_zero x)

  pub raise-ge_left : (peak x : F.R) → F.is_nan peak ≡ false → F.le peak (raise peak x) ≡ true
  unfolding raise
  raise-ge_left peak x p = ground (arith, F.le_refl peak p)

  pub raise-ge_right :
      (peak x : F.R) → F.is_nan peak ≡ false → F.is_nan x ≡ false → F.le x (raise peak x) ≡ true
  unfolding raise
  raise-ge_right peak x p q = ground (arith, F.le_refl x q, le_of_not-le peak x p q)

  abbrev observe_one : SeriesStats F.R → Sample F.R → SeriesStats F.R
  observe_one st x = record {
    samples = st.samples + 1;
    peak_down = raise st.peak_down (clean x.point.down);
    peak_up = raise st.peak_up (clean x.point.up);
  }

  -- What the count and the peaks should be: a fold of the raw samples, the graph left aside.
  abbrev observe : SeriesStats F.R → List (Sample F.R) → SeriesStats F.R
  observe st [] = st
  observe st (x ∷ xs) = observe (observe_one st x) xs

  stats-add :
      (x : Sample F.R) (s : TimeSeries F.R)
      → stats (add x.point x.date x.now s) ≡ observe_one (stats s) x
  unfolding compact store
  stats-add x s =
      add_cases (λ q. stats q ≡ observe_one (stats s) x) x.point x.date x.now s (λ _. refl)
        (λ _. refl)

  -- The figures of a session are those of its raw samples: no compaction changes them.
  stats-add_all :
      (s : TimeSeries F.R) (xs : List (Sample F.R)) → stats (add_all s xs) ≡ observe (stats s) xs
  unfolding add_all
  stats-add_all s [] = refl
  stats-add_all s (x ∷ xs) =
      stats-add_all (add x.point x.date x.now s) xs ∙ ap (λ st. observe st xs) (stats-add x s)
