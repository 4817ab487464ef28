-- ===== src/Engine/Series/Range.antt =====
-- series.ts: what is drawn stays between zero and the reported peaks.
use megapet.Common.{ℕ, ◌≡◌, inl, inr, true, List, [], ◌∷◌, ◌++◌, arith, Num}
use megapet.Engine.Series.{
  SeriesPoint, TimeSeries, Sample, store, clean, cleaned, raise, average, merge, compact, add,
  add_all,
}
use megapet.Engine.Series.Compact.{Each}
use megapet.Engine.Series.Validity.{add_cases}
use megapet.Engine.Series.Peaks.{clean-ge_zero, clean-not-nan, raise-ge_left, raise-ge_right}

module _ ⦃F : Num⦄ where
  -- `0 <= x <= m`
  abbrev pub Between : F.R → F.R → Type 0
  Between m x = (F.le (F.of_ℕ 0) x ≡ true) × (F.le x m ≡ true)

  -- Every point that is drawn lies between zero and the peaks.
  pub record InRange (s : TimeSeries F.R) : Type 0 where
    pub down_peak : F.le (F.of_ℕ 0) s.max_down ≡ true
    pub up_peak : F.le (F.of_ℕ 0) s.max_up ≡ true
    pub inside : Each (λ d u. Between s.max_down d × Between s.max_up u) s.points

  half-Between :
      (m a b : F.R)
      → F.is_finite (F.add m m) ≡ true
      → Between m a
      → Between m b
      → F.le a b ≡ true
      → Between m (F.div (F.add a b) (F.of_ℕ 2))
  half-Between m a b fin p q h =
      let sum = F.add-finite_below a b m p.0 q.0 p.1 q.1 fin in
      (F.le_trans _ _ _ p.0 (F.half-ge a b h sum), F.le_trans _ _ _ (F.half-le a b h sum) q.1)

  average-Between :
      (m a b : F.R)
      → F.is_finite (F.add m m) ≡ true
      → Between m a
      → Between m b
      → Between m (F.div (F.add a b) (F.of_ℕ 2))
  average-Between m a b fin p q =
      elim (F.le_total a b (F.le-not-nan_left _ _ p.1) (F.le-not-nan_left _ _ q.1)) [
        | inl h ↦ half-Between m a b fin p q h
        | inr h ↦ rw F.add_comm (half-Between m b a fin q p h)
      ]

  abbrev Box : F.R → F.R → List (SeriesPoint F.R) → Type 0
  Box m n = Each (λ d u. Between m d × Between n u)

  Box-merge :
      (m n : F.R) (ps : List (SeriesPoint F.R))
      → F.is_finite (F.add m m) ≡ true
      → F.is_finite (F.add n n) ≡ true
      → Box m n ps
      → Box m n (merge ps)
  unfolding merge average
  Box-merge m n [] f g h = tt
  Box-merge m n (a ∷ []) f g h = h
  Box-merge m n (a ∷ b ∷ rest) f g h = (
    (average-Between m _ _ f h.0.0 h.1.0.0, average-Between n _ _ g h.0.1 h.1.0.1),
    Box-merge m n rest f g h.1.1,
  )

  Box-weaken :
      (m n m' n' : F.R) (ps : List (SeriesPoint F.R))
      → F.le m m' ≡ true
      → F.le n n' ≡ true
      → Box m n ps
      → Box m' n' ps
  Box-weaken m n m' n' [] p q h = tt
  Box-weaken m n m' n' (a ∷ rest) p q h = (
    ((h.0.0.0, F.le_trans _ _ _ h.0.0.1 p), (h.0.1.0, F.le_trans _ _ _ h.0.1.1 q)),
    Box-weaken m n m' n' rest p q h.1,
  )

  Box-append :
      (m n : F.R) (ps : List (SeriesPoint F.R)) (q : SeriesPoint F.R)
      → Box m n ps
      → Between m q.down
      → Between n q.up
      → Box m n (ps ++ q ∷ [])
  Box-append m n [] q h d u = ((d, u), tt)
  Box-append m n (p ∷ ps) q h d u = (h.0, Box-append m n ps q h.1 d u)

  -- A reading below the bound, once cleaned, raises a peak below the bound to one below the bound.
  raise-le : (peak x b : F.R) → F.le peak b ≡ true → F.le x b ≡ true → F.le (raise peak x) b ≡ true
  unfolding raise
  raise-le peak x b p q = ground arith

  store-InRange :
      (p : SeriesPoint F.R) (date now : ℕ) (s : TimeSeries F.R)
      → InRange s
      → InRange (store p date now s)
  unfolding store cleaned
  store-InRange p date now s v =
      let dn = F.le-not-nan_right _ _ v.down_peak in
      let un = F.le-not-nan_right _ _ v.up_peak in
      let dl = raise-ge_left s.max_down (clean p.down) dn in
      let ul = raise-ge_left s.max_up (clean p.up) un in
      record {
        down_peak = F.le_trans _ _ _ v.down_peak dl;
        up_peak = F.le_trans _ _ _ v.up_peak ul;
        inside =
            Box-append _ _ s.points _ (Box-weaken _ _ _ _ s.points dl ul v.inside)
              (clean-ge_zero p.down, raise-ge_right _ _ dn (clean-not-nan p.down))
              (clean-ge_zero p.up, raise-ge_right _ _ un (clean-not-nan p.up));
      }

  compact-InRange :
      (s : TimeSeries F.R)
      → F.is_finite (F.add s.max_down s.max_down) ≡ true
      → F.is_finite (F.add s.max_up s.max_up) ≡ true
      → InRange s
      → InRange (compact s)
  unfolding compact
  compact-InRange s f g v = record {
    down_peak = v.down_peak;
    up_peak = v.up_peak;
    inside = Box-merge _ _ s.points f g v.inside;
  }

  -- Peaks below `b`, the largest reading that can be added to itself.
  abbrev pub Below : F.R → TimeSeries F.R → Type 0
  Below b s = (F.le s.max_down b ≡ true) × (F.le s.max_up b ≡ true)

  abbrev pub ReadingsBelow : F.R → List (Sample F.R) → Type 0
  ReadingsBelow b [] = Unit
  ReadingsBelow b (x ∷ xs) =
      (F.le (clean x.point.down) b ≡ true) × (F.le (clean x.point.up) b ≡ true) × ReadingsBelow b xs

  double-finite :
      (b m : F.R)
      → F.is_finite (F.add b b) ≡ true
      → F.le (F.of_ℕ 0) m ≡ true
      → F.le m b ≡ true
      → F.is_finite (F.add m m) ≡ true
  double-finite b m f p q = F.add-finite_below m m b p p q q f

  store-Below :
      (b : F.R) (p : SeriesPoint F.R) (date now : ℕ) (s : TimeSeries F.R)
      → F.le (clean p.down) b ≡ true
      → F.le (clean p.up) b ≡ true
      → Below b s
      → Below b (store p date now s)
  unfolding store
  store-Below b p date now s d u h = (raise-le _ _ b h.0 d, raise-le _ _ b h.1 u)

  compact-Below : (b : F.R) (s : TimeSeries F.R) → Below b s → Below b (compact s)
  unfolding compact
  compact-Below b s h = h

  add-InRange :
      (b : F.R) (x : Sample F.R) (s : TimeSeries F.R)
      → F.is_finite (F.add b b) ≡ true
      → F.le (clean x.point.down) b ≡ true
      → F.le (clean x.point.up) b ≡ true
      → Below b s
      → InRange s
      → InRange (add x.point x.date x.now s) × Below b (add x.point x.date x.now s)
  add-InRange b x s f d u h v =
      let w = store-InRange x.point x.date x.now s v in
      let k = store-Below b x.point x.date x.now s d u h in
      add_cases (λ q. InRange q × Below b q) x.point x.date x.now s (λ _. (w, k))
        λ _. (
          compact-InRange _ (double-finite b _ f w.down_peak k.0)
              (double-finite b _ f w.up_peak k.1) w,
          compact-Below b _ k,
        )

  -- However often the series is compacted, every point that is drawn lies between zero and the
  -- peak that is reported, for readings no larger than a number whose double is finite.
  pub add_all-InRange :
      (b : F.R) (s : TimeSeries F.R) (xs : List (Sample F.R))
      → F.is_finite (F.add b b) ≡ true
      → ReadingsBelow b xs
      → Below b s
      → InRange s
      → InRange (add_all s xs)
  unfolding add_all
  add_all-InRange b s [] f r h v = v
  add_all-InRange b s (x ∷ xs) f r h v =
      let (w, k) = add-InRange b x s f r.0 r.1 h v in
      add_all-InRange b (add x.point x.date x.now s) xs f r.2 k w
