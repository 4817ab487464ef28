-- ===== src/Common/Numbers.antt =====
-- The numbers of the language, as an interface.
--
-- A reading, a position or a fraction of the client is a double. The model takes the type and its
-- operations as an instance, and relies on what IEEE arithmetic documents: the order of numbers
-- that are not NaN, comparisons with NaN being false, the integers up to 2^53 being exact, and a
-- sum of two numbers that stays finite halving to a number between the two, and the sum of two
-- non-negative numbers being finite where twice a larger one is. What lies between two finite
-- numbers is finite, and a finite number does not fall when a number that is not negative is added.
-- `Math.max` and `Math.min` are defined from these, with NaN passed on.
use Prim.Native.Nat.{ℕ, ◌≤◌, ◌<◌, ◌^◌}
use mathlib.Core.Path.{◌≡◌}
use mathlib.Core.Bool.{Bool, true, false, not, ◌&&◌}
use mathlib.Core.Logic.{◌⊎◌}
use megapet.Common.Tests.{if◌then◌else◌}

abbrev pub max_safe : ℕ
max_safe = 2 ^ 53

pub record Num : Type 1 where
  pub R : Type 0
  -- a literal or a count
  pub of_ℕ : ℕ → R
  pub add : R → R → R
  pub sub : R → R → R
  pub mul : R → R → R
  pub div : R → R → R
  pub round : R → R
  pub exp : R → R
  pub log10 : R → R
  -- `a ** b`
  pub pow : R → R → R
  pub pi : R
  pub is_nan : R → Bool
  pub is_finite : R → Bool
  -- `a <= b`; `a < b` is below
  pub le : R → R → Bool
  pub finite-not-nan : (a : R) → is_finite a ≡ true → is_nan a ≡ false
  pub le-not-nan_left : (a b : R) → le a b ≡ true → is_nan a ≡ false
  pub le-not-nan_right : (a b : R) → le a b ≡ true → is_nan b ≡ false
  pub le_refl : (a : R) → is_nan a ≡ false → le a a ≡ true
  pub le_trans : (a b c : R) → le a b ≡ true → le b c ≡ true → le a c ≡ true
  pub le_total : (a b : R) → is_nan a ≡ false → is_nan b ≡ false → (le a b ≡ true) ⊎ (le b a ≡ true)
  pub of_ℕ-finite : (n : ℕ) → n ≤ max_safe → is_finite (of_ℕ n) ≡ true
  pub of_ℕ-le : (m n : ℕ) → m ≤ n → n ≤ max_safe → le (of_ℕ m) (of_ℕ n) ≡ true
  pub of_ℕ-lt : (m n : ℕ) → m < n → n ≤ max_safe → le (of_ℕ n) (of_ℕ m) ≡ false
  pub add_comm : (a b : R) → add a b ≡ add b a
  pub add-finite_below :
      (a b c : R)
      → le (of_ℕ 0) a ≡ true
      → le (of_ℕ 0) b ≡ true
      → le a c ≡ true
      → le b c ≡ true
      → is_finite (add c c) ≡ true
      → is_finite (add a b) ≡ true
  pub finite_between :
      (a x b : R)
      → is_finite a ≡ true
      → is_finite b ≡ true
      → le a x ≡ true
      → le x b ≡ true
      → is_finite x ≡ true
  pub add-ge : (a b : R) → is_finite a ≡ true → le (of_ℕ 0) b ≡ true → le a (add a b) ≡ true
  pub half-ge :
      (a b : R) → le a b ≡ true → is_finite (add a b) ≡ true → le a (div (add a b) (of_ℕ 2)) ≡ true
  pub half-le :
      (a b : R) → le a b ≡ true → is_finite (add a b) ≡ true → le (div (add a b) (of_ℕ 2)) b ≡ true

module _ ⦃F : Num⦄ where
  -- `a < b`, which is false where either side is NaN.
  abbrev pub lt : F.R → F.R → Bool
  lt a b = F.le a b && not (F.le b a)

  -- `Math.max(a, b)`
  unfoldable pub max : F.R → F.R → F.R
  max a b = if F.is_nan a then a else if F.is_nan b then b else if F.le a b then b else a

  -- `Math.min(a, b)`
  unfoldable pub min : F.R → F.R → F.R
  min a b = if F.is_nan a then a else if F.is_nan b then b else if F.le a b then a else b
