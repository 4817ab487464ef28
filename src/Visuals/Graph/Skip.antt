-- ===== src/Visuals/Graph/Skip.antt =====
-- web/src/ui/visuals/graph.ts: what a loop that moves an end of the window leaves out.
use megapet.Common.{
  ◌≡◌, refl, sym, ap, subst, if_cases, Bool, true, false, List, [], ◌∷◌, ◌++◌, All, All-append,
}
use mathlib.Core.List.{reverse, reverse-cons}
use megapet.Visuals.Graph.{skip}

module _ {A : Type 0} where
  -- Every earlier element is related to every later one.
  abbrev pub Pairs : (A → A → Type 0) → List A → Type 0
  Pairs R [] = Unit
  Pairs R (x ∷ xs) = All (R x) xs × Pairs R xs

  pub All-reverse : (P : A → Type 0) (xs : List A) → All P xs → All P (reverse xs)
  All-reverse P [] h = tt
  All-reverse P (x ∷ xs) (h, hs) =
      subst (All P) (sym (reverse-cons x xs))
        (All-append P (reverse xs) (x ∷ []) (All-reverse P xs hs) (h, tt))

  Pairs-append_last :
      (R : A → A → Type 0) (xs : List A) (y : A)
      → Pairs R xs
      → All (λ x. R x y) xs
      → Pairs R (xs ++ y ∷ [])
  Pairs-append_last R [] y v h = (tt, tt)
  Pairs-append_last R (x ∷ xs) y (v, vs) (h, hs) =
      (All-append (R x) xs (y ∷ []) v (h, tt), Pairs-append_last R xs y vs hs)

  pub Pairs-reverse :
      (R : A → A → Type 0) (xs : List A) → Pairs R xs → Pairs (λ x y. R y x) (reverse xs)
  Pairs-reverse R [] v = tt
  Pairs-reverse R (x ∷ xs) (v, vs) = subst (Pairs (λ x y. R y x)) (sym (reverse-cons x xs)) (
      Pairs-append_last (λ x y. R y x) (reverse xs) x (Pairs-reverse R xs vs)
        (All-reverse (R x) xs v))

  All-map : (P Q : A → Type 0) → ((x : A) → P x → Q x) → (xs : List A) → All P xs → All Q xs
  All-map P Q g [] v = tt
  All-map P Q g (x ∷ xs) (v, vs) = (g x v, All-map P Q g xs vs)

  pub Pairs-map :
      (R S : A → A → Type 0) → ((x y : A) → R x y → S x y) → (xs : List A) → Pairs R xs → Pairs S xs
  Pairs-map R S g [] v = tt
  Pairs-map R S g (x ∷ xs) (v, vs) = (All-map (R x) (S x) (g x) xs v, Pairs-map R S g xs vs)

  pub Pairs-suffix : (R : A → A → Type 0) (xs ys : List A) → Pairs R (xs ++ ys) → Pairs R ys
  Pairs-suffix R [] ys v = v
  Pairs-suffix R (x ∷ xs) ys (_, vs) = Pairs-suffix R xs ys vs

  module _ (f : A → Bool) where
    -- Only the end itself may be outside: the element next to it is not.
    abbrev pub Tight : List A → Type 0
    Tight [] = Unit
    Tight (p ∷ []) = Unit
    Tight (p ∷ q ∷ rest) = f q ≡ false

    pub skip-Tight : (xs : List A) → Tight (skip f xs)
    unfolding skip
    skip-Tight [] = tt
    skip-Tight (p ∷ []) = tt
    skip-Tight (p ∷ q ∷ rest) =
        if_cases Tight (f q) (skip f (q ∷ rest)) (p ∷ q ∷ rest) (λ _. skip-Tight (q ∷ rest)) λ h. h

    pub Tight-append : (xs ys : List A) → Tight (xs ++ ys) → Tight xs
    Tight-append [] ys h = tt
    Tight-append (p ∷ []) ys h = tt
    Tight-append (p ∷ q ∷ rest) ys h = h

    -- The first is outside where the second is.
    abbrev pub Follows : A → A → Type 0
    Follows p q = f q ≡ true → f p ≡ true

    pub record IsSkipped (xs kept : List A) : Type 0 where
      pub left_out : List A
      pub whole : xs ≡ left_out ++ kept
      pub outside : All (λ p. f p ≡ true) left_out

    pub skip-IsSkipped : (xs : List A) → Pairs Follows xs → IsSkipped xs (skip f xs)
    unfolding skip
    skip-IsSkipped [] v = record { left_out = []; whole = refl; outside = tt }
    skip-IsSkipped (p ∷ []) v = record { left_out = []; whole = refl; outside = tt }
    skip-IsSkipped (p ∷ q ∷ rest) ((v, _), vs) =
        let more = skip-IsSkipped (q ∷ rest) vs in
        if_cases (IsSkipped (p ∷ q ∷ rest)) (f q) (skip f (q ∷ rest)) (p ∷ q ∷ rest)
          (λ h. record {
            left_out = p ∷ more.left_out;
            whole = ap (λ (t : List A). p ∷ t) more.whole;
            outside = (v h, more.outside);
          })
          λ _. record { left_out = []; whole = refl; outside = tt }
