-- ===== src/Engine/Latency/Extremes.antt =====
-- web/src/engine/latency.ts, `summarize`: the fastest and the slowest round trip.
use megapet.Common.{
  ◌≡◌, true, false, if_cases, List, [], ◌∷◌, Num, All, last?, or_else, le_of_not-le,
}
use megapet.Engine.Latency.{insert, sort, at, summarize}

module _ ⦃F : Num⦄ where
  -- In rising order.
  abbrev Rises : List F.R → Type 0
  Rises [] = Unit
  Rises (x ∷ xs) = All (λ y. F.le x y ≡ true) xs × Rises xs

  insert-All : (P : F.R → Type 0) (x : F.R) (xs : List F.R) → P x → All P xs → All P (insert x xs)
  unfolding insert
  insert-All P x [] p h = (p, tt)
  insert-All P x (y ∷ ys) p (q, h) =
      if_cases (All P) (F.le x y) _ _ (λ _. (p, (q, h))) λ _. (q, insert-All P x ys p h)

  All-insert : (P : F.R → Type 0) (x : F.R) (xs : List F.R) → All P (insert x xs) → P x × All P xs
  unfolding insert
  All-insert P x [] (p, h) = (p, h)
  All-insert P x (y ∷ ys) h =
      if_cases (λ zs. All P zs → P x × All P (y ∷ ys)) (F.le x y) _ _ (λ _ (p, h). (p, h))
        (λ _ (q, h). let (p, k) = All-insert P x ys h in (p, (q, k))) h

  sort-All : (P : F.R → Type 0) (xs : List F.R) → All P xs → All P (sort xs)
  unfolding sort
  sort-All P [] h = h
  sort-All P (x ∷ xs) (p, h) = insert-All P x (sort xs) p (sort-All P xs h)

  All-sort : (P : F.R → Type 0) (xs : List F.R) → All P (sort xs) → All P xs
  unfolding sort
  All-sort P [] h = h
  All-sort P (x ∷ xs) h = let (p, k) = All-insert P x (sort xs) h in (p, All-sort P xs k)

  abbrev Number : F.R → Type 0
  Number x = F.is_nan x ≡ false

  All-le_trans :
      (x y : F.R) (ys : List F.R)
      → F.le x y ≡ true
      → All (λ z. F.le y z ≡ true) ys
      → All (λ z. F.le x z ≡ true) ys
  All-le_trans x y [] h k = tt
  All-le_trans x y (z ∷ zs) h (k, l) = (F.le_trans x y z h k, All-le_trans x y zs h l)

  insert-Rises :
      (x : F.R) (xs : List F.R) → Number x → All Number xs → Rises xs → Rises (insert x xs)
  unfolding insert
  insert-Rises x [] n m r = (tt, tt)
  insert-Rises x (y ∷ ys) n (m, ms) (l, r) =
      if_cases Rises (F.le x y) _ _ (λ h. ((h, All-le_trans x y ys h l), (l, r)))
        λ h. (
          insert-All (λ z. F.le y z ≡ true) x ys (le_of_not-le x y n m h) l,
          insert-Rises x ys n ms r,
        )

  sort-Rises : (xs : List F.R) → All Number xs → Rises (sort xs)
  unfolding sort
  sort-Rises [] n = tt
  sort-Rises (x ∷ xs) (n, ns) =
      insert-Rises x (sort xs) n (sort-All Number xs ns) (sort-Rises xs ns)

  All-refl :
      (x : F.R) (xs : List F.R) → Number x → Rises (x ∷ xs) → All (λ y. F.le x y ≡ true) (x ∷ xs)
  All-refl x xs n (l, r) = (F.le_refl x n, l)

  first-least : (xs : List F.R) → All Number xs → Rises xs → All (λ y. F.le (at xs 0) y ≡ true) xs
  first-least [] n r = tt
  first-least (x ∷ xs) (n, ns) r = All-refl x xs n r

  last-greatest :
      (xs : List F.R)
      → All Number xs
      → Rises xs
      → All (λ y. F.le y (or_else (last? xs) (F.of_ℕ 0)) ≡ true) xs
  last-greatest [] n r = tt
  last-greatest (x ∷ []) (n, ns) r = (F.le_refl x n, tt)
  last-greatest (x ∷ y ∷ ys) (n, ns) ((h, l), r) =
      let rest = last-greatest (y ∷ ys) ns r in (F.le_trans _ _ _ h rest.0, rest)

  -- If no round trip is NaN, each lies between the least and the greatest that the summary gives.
  summarize-Between :
      (samples : List F.R)
      → All Number samples
      → All (λ x. F.le (summarize samples).min x ≡ true) samples
        × All (λ x. F.le x (summarize samples).max ≡ true) samples
  unfolding summarize
  summarize-Between [] n = (tt, tt)
  summarize-Between (x ∷ xs) n =
      let ns = sort-All Number (x ∷ xs) n in
      let r = sort-Rises (x ∷ xs) n in
      (
        All-sort _ (x ∷ xs) (first-least (sort (x ∷ xs)) ns r),
        All-sort _ (x ∷ xs) (last-greatest (sort (x ∷ xs)) ns r),
      )
