-- ===== src/Engine/Latency.antt =====
-- web/src/engine/latency.ts: the summary of the round trips.
--
-- `sort` with the comparator `a - b` is the stable sort by `<=`.
pub mod Extremes
pub mod Probes
pub mod Loop
pub mod Failure
mod Tests
use megapet.Common.{
  ℕ, zero, suc, ◌-◌, ◌/◌, ◌%◌, ◌==◌, Bool, true, false, if◌then◌else◌, Option, none, some, List, [],
  ◌∷◌, Num, max, length, last?, or_else,
}

pub record LatencyResult (R : Type 0) : Type 0 where
  pub samples : List R
  pub min : R
  pub median : R
  pub max : R
  pub jitter : R

module _ ⦃F : Num⦄ where
  unfoldable pub insert : F.R → List F.R → List F.R
  insert x [] = x ∷ []
  insert x (y ∷ ys) = let rest = insert x ys in if F.le x y then x ∷ y ∷ ys else y ∷ rest

  unfoldable pub sort : List F.R → List F.R
  sort [] = []
  sort (x ∷ xs) = insert x (sort xs)

  -- `xs[i] ?? 0`
  abbrev pub at : List F.R → ℕ → F.R
  at [] i = F.of_ℕ 0
  at (x ∷ xs) zero = x
  at (x ∷ xs) (suc i) = at xs i

  -- `Math.abs(x)`
  abbrev pub magnitude : F.R → F.R
  magnitude x = max x (F.sub (F.of_ℕ 0) x)

  abbrev pub median_of : List F.R → F.R
  median_of sorted =
      let mid = length sorted / 2 in
      if length sorted % 2 == 0
      then F.div (F.add (at sorted (mid - 1)) (at sorted mid)) (F.of_ℕ 2)
      else at sorted mid

  -- The loop over consecutive round trips, from the sum so far.
  abbrev pub steps_from : F.R → List F.R → F.R
  steps_from sum [] = sum
  steps_from sum (x ∷ []) = sum
  steps_from sum (x ∷ y ∷ rest) = steps_from (F.add sum (magnitude (F.sub y x))) (y ∷ rest)

  abbrev pub jitter_of : List F.R → F.R
  jitter_of [] = F.of_ℕ 0
  jitter_of (x ∷ []) = F.of_ℕ 0
  jitter_of (x ∷ y ∷ rest) =
      F.div (steps_from (F.of_ℕ 0) (x ∷ y ∷ rest)) (F.of_ℕ (length (x ∷ y ∷ rest) - 1))

  abbrev pub empty : LatencyResult F.R
  empty = record {
    samples = [];
    min = F.of_ℕ 0;
    median = F.of_ℕ 0;
    max = F.of_ℕ 0;
    jitter = F.of_ℕ 0;
  }

  unfoldable pub summarize : List F.R → LatencyResult F.R
  summarize [] = empty
  summarize (x ∷ xs) =
      let sorted = sort (x ∷ xs) in
      record {
        samples = x ∷ xs;
        min = at sorted 0;
        median = median_of sorted;
        max = or_else (last? sorted) (F.of_ℕ 0);
        jitter = jitter_of (x ∷ xs);
      }
