-- ===== src/Engine/Series/Compact.antt =====
-- series.ts, `compact`: what halving the resolution does to the list of points.
use megapet.Common.{
  ℕ, ◌+◌, ◌/◌, ◌≤◌, ◌≡◌, refl, List, [], ◌∷◌, ◌++◌, length, last?, last?-cons, ◌-◌, Option, some,
  none, arith, Num,
}
use megapet.Engine.Series.{SeriesPoint, average, merge}

module _ ⦃F : Num⦄ where
  -- The timestamps do not fall, and none is below `lo`.
  abbrev pub Ascending : ℕ → List (SeriesPoint F.R) → Type 0
  Ascending lo [] = Unit
  Ascending lo (p ∷ ps) = (lo ≤ p.t) × Ascending p.t ps

  -- The last timestamp, or `d` of no points.
  abbrev pub last_t : ℕ → List (SeriesPoint F.R) → ℕ
  last_t d [] = d
  last_t d (p ∷ ps) = last_t p.t ps

  pub Ascending-weaken :
      (lo hi : ℕ) (ps : List (SeriesPoint F.R)) → lo ≤ hi → Ascending hi ps → Ascending lo ps
  Ascending-weaken lo hi [] h a = tt
  Ascending-weaken lo hi (p ∷ ps) h a = (omega arith, a.1)

  pub Ascending-append :
      (lo : ℕ) (ps : List (SeriesPoint F.R)) (q : SeriesPoint F.R)
      → Ascending lo ps
      → last_t lo ps ≤ q.t
      → Ascending lo (ps ++ q ∷ [])
  Ascending-append lo [] q a h = (h, tt)
  Ascending-append lo (p ∷ ps) q a h = (a.0, Ascending-append p.t ps q a.1 h)

  -- Points whose coordinates all satisfy a predicate on readings.
  abbrev pub Each : (F.R → F.R → Type 0) → List (SeriesPoint F.R) → Type 0
  Each P [] = Unit
  Each P (p ∷ ps) = P p.down p.up × Each P ps

  pub length-merge : (ps : List (SeriesPoint F.R)) → length (merge ps) ≡ (length ps + 1) / 2
  unfolding merge
  length-merge [] = omega arith
  length-merge (a ∷ []) = omega arith
  length-merge (a ∷ b ∷ rest) = omega (arith, length-merge rest)

  pub merge-Ascending :
      (lo : ℕ) (ps : List (SeriesPoint F.R)) → Ascending lo ps → Ascending lo (merge ps)
  unfolding merge average
  merge-Ascending lo [] h = tt
  merge-Ascending lo (a ∷ []) h = h
  merge-Ascending lo (a ∷ b ∷ rest) h =
      (h.0, merge-Ascending a.t rest (Ascending-weaken a.t b.t rest h.1.0 h.1.1))

  pub last_t_mono : (d e : ℕ) (ps : List (SeriesPoint F.R)) → d ≤ e → last_t d ps ≤ last_t e ps
  last_t_mono d e [] h = h
  last_t_mono d e (p ∷ ps) h = omega arith

  pub last_t-merge :
      (d : ℕ) (ps : List (SeriesPoint F.R)) → Ascending d ps → last_t d (merge ps) ≤ last_t d ps
  unfolding merge average
  last_t-merge d [] h = omega arith
  last_t-merge d (a ∷ []) h = omega arith
  last_t-merge d (a ∷ b ∷ rest) h = omega (
    arith,
    last_t-merge a.t rest (Ascending-weaken a.t b.t rest h.1.0 h.1.1),
    last_t_mono a.t b.t rest h.1.0,
  )

  -- An odd number of points keeps its last point as it is.
  pub last?-merge_odd :
      (k : ℕ) (ps : List (SeriesPoint F.R)) (q : SeriesPoint F.R)
      → length ps ≡ k + k
      → last? (merge (ps ++ q ∷ [])) ≡ some q
  unfolding merge
  last?-merge_odd k [] q h = refl
  last?-merge_odd k (a ∷ []) q h = absurd (omega arith)
  last?-merge_odd k (a ∷ b ∷ rest) q h =
      last?-cons _ q (merge (rest ++ q ∷ [])) (last?-merge_odd (k - 1) rest q (omega arith))

  abbrev pub first? : List (SeriesPoint F.R) → Option ℕ
  first? [] = none
  first? (p ∷ ps) = some p.t

  pub first?-merge : (ps : List (SeriesPoint F.R)) → first? (merge ps) ≡ first? ps
  unfolding merge average
  first?-merge [] = refl
  first?-merge (a ∷ []) = refl
  first?-merge (a ∷ b ∷ rest) = refl
