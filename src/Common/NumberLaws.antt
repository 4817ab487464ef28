-- ===== src/Common/NumberLaws.antt =====
-- The order of `Math.max` and `Math.min`.
use mathlib.Core.Path.{◌≡◌}
use mathlib.Core.Bool.{true, false}
use native.Mathlib.Omega.{arith}
use megapet.Common.Numbers.{Num, max, min}

module _ ⦃F : Num⦄ where
  pub le_of_not-le :
      (a b : F.R) → F.is_nan a ≡ false → F.is_nan b ≡ false → F.le a b ≡ false → F.le b a ≡ true
  le_of_not-le a b p q h = ground (arith, F.le_total a b p q)

  pub max-ge_left : (a b : F.R) → F.is_nan a ≡ false → F.is_nan b ≡ false → F.le a (max a b) ≡ true
  unfolding max
  max-ge_left a b p q = ground (arith, F.le_refl a p)

  pub max-ge_right : (a b : F.R) → F.is_nan a ≡ false → F.is_nan b ≡ false → F.le b (max a b) ≡ true
  unfolding max
  max-ge_right a b p q = ground (arith, F.le_refl b q, le_of_not-le a b p q)

  pub max-lub : (a b c : F.R) → F.le a c ≡ true → F.le b c ≡ true → F.le (max a b) c ≡ true
  unfolding max
  max-lub a b c p q = ground arith

  pub min-le_left : (a b : F.R) → F.is_nan a ≡ false → F.is_nan b ≡ false → F.le (min a b) a ≡ true
  unfolding min
  min-le_left a b p q = ground (arith, F.le_refl a p, le_of_not-le a b p q)

  pub min-le_right : (a b : F.R) → F.is_nan a ≡ false → F.is_nan b ≡ false → F.le (min a b) b ≡ true
  unfolding min
  min-le_right a b p q = ground (arith, F.le_refl b q)

  pub min-glb : (a b c : F.R) → F.le c a ≡ true → F.le c b ≡ true → F.le c (min a b) ≡ true
  unfolding min
  min-glb a b c p q = ground arith

  pub max-not-nan :
      (a b : F.R) → F.is_nan a ≡ false → F.is_nan b ≡ false → F.is_nan (max a b) ≡ false
  unfolding max
  max-not-nan a b p q = ground arith

  pub min-not-nan :
      (a b : F.R) → F.is_nan a ≡ false → F.is_nan b ≡ false → F.is_nan (min a b) ≡ false
  unfolding min
  min-not-nan a b p q = ground arith
