-- ===== src/Common/Sample.antt =====
-- Numbers for the examples: whole numbers with a NaN. They show that the interface can be met.
use megapet.Common.Tests.{leb}
use Prim.Native.Nat.{ℕ, ◌+◌, ◌-◌, ◌*◌, ◌/◌, ◌≤◌, ◌<◌}
use mathlib.Core.Path.{◌≡◌, refl}
use mathlib.Core.Logic.{◌⊎◌}
use mathlib.Core.Bool.{Bool, true, false}
use mathlib.Core.Option.{Option, none, some}
use native.Mathlib.Omega.{arith}
use native.Mathlib.Nat.{add_comm}
use megapet.Common.Numbers.{Num, max_safe}

abbrev lift : (ℕ → ℕ → ℕ) → Option ℕ → Option ℕ → Option ℕ
lift f none b = none
lift f (some a) none = none
lift f (some a) (some b) = some (f a b)

abbrev nan? : Option ℕ → Bool
nan? none = true
nan? (some a) = false

abbrev finite? : Option ℕ → Bool
finite? none = false
finite? (some a) = true

abbrev at_most : Option ℕ → Option ℕ → Bool
at_most none b = false
at_most (some a) none = false
at_most (some a) (some b) = leb a b

abbrev plus : ℕ → ℕ → ℕ
plus a b = a + b

abbrev over : ℕ → ℕ → ℕ
over a b = a / b

pub finite-not-nan_lem : (a : Option ℕ) → finite? a ≡ true → nan? a ≡ false
finite-not-nan_lem none h = ground arith
finite-not-nan_lem (some a) h = refl

pub at_most-nan_left : (a b : Option ℕ) → at_most a b ≡ true → nan? a ≡ false
at_most-nan_left none b h = ground arith
at_most-nan_left (some a) b h = refl

pub at_most-nan_right : (a b : Option ℕ) → at_most a b ≡ true → nan? b ≡ false
at_most-nan_right none b h = ground arith
at_most-nan_right (some a) none h = ground arith
at_most-nan_right (some a) (some b) h = refl

pub at_most_refl : (a : Option ℕ) → nan? a ≡ false → at_most a a ≡ true
at_most_refl none h = ground arith
at_most_refl (some a) h = ground arith

pub at_most_trans :
    (a b c : Option ℕ) → at_most a b ≡ true → at_most b c ≡ true → at_most a c ≡ true
at_most_trans none b c h k = ground arith
at_most_trans (some a) none c h k = ground arith
at_most_trans (some a) (some b) none h k = ground arith
at_most_trans (some a) (some b) (some c) h k = ground arith

pub at_most_total :
    (a b : Option ℕ) → nan? a ≡ false → nan? b ≡ false → (at_most a b ≡ true) ⊎ (at_most b a ≡ true)
at_most_total none b h k = ground arith
at_most_total (some a) none h k = ground arith
at_most_total (some a) (some b) h k = ground arith

pub lift_comm : (a b : Option ℕ) → lift plus a b ≡ lift plus b a
lift_comm none none = refl
lift_comm none (some b) = refl
lift_comm (some a) none = refl
lift_comm (some a) (some b) = ground (arith, add_comm a b)

pub lift-finite :
    (a b c : Option ℕ)
    → at_most (some 0) a ≡ true
    → at_most (some 0) b ≡ true
    → at_most a c ≡ true
    → at_most b c ≡ true
    → finite? (lift plus c c) ≡ true
    → finite? (lift plus a b) ≡ true
lift-finite none b c p q r s f = ground arith
lift-finite (some a) none c p q r s f = ground arith
lift-finite (some a) (some b) c p q r s f = refl

pub half-ge_lem :
    (a b : Option ℕ)
    → at_most a b ≡ true
    → finite? (lift plus a b) ≡ true
    → at_most a (lift over (lift plus a b) (some 2)) ≡ true
half-ge_lem none b h f = ground arith
half-ge_lem (some a) none h f = ground arith
half-ge_lem (some a) (some b) h f = ground arith

pub half-le_lem :
    (a b : Option ℕ)
    → at_most a b ≡ true
    → finite? (lift plus a b) ≡ true
    → at_most (lift over (lift plus a b) (some 2)) b ≡ true
half-le_lem none b h f = ground arith
half-le_lem (some a) none h f = ground arith
half-le_lem (some a) (some b) h f = ground arith

pub at_most-literal : (m n : ℕ) → m ≤ n → n ≤ max_safe → at_most (some m) (some n) ≡ true
at_most-literal m n h k = ground arith

pub at_most-literal_lt : (m n : ℕ) → m < n → n ≤ max_safe → at_most (some n) (some m) ≡ false
at_most-literal_lt m n h k = ground arith

pub finite_between_lem :
    (a x b : Option ℕ)
    → finite? a ≡ true
    → finite? b ≡ true
    → at_most a x ≡ true
    → at_most x b ≡ true
    → finite? x ≡ true
finite_between_lem none x b f g h k = ground arith
finite_between_lem (some a) none b f g h k = ground arith
finite_between_lem (some a) (some x) b f g h k = refl

pub add-ge_lem :
    (a b : Option ℕ)
    → finite? a ≡ true
    → at_most (some 0) b ≡ true
    → at_most a (lift plus a b) ≡ true
add-ge_lem none b f h = ground arith
add-ge_lem (some a) none f h = ground arith
add-ge_lem (some a) (some b) f h = ground arith

instance abbrev pub sample_num : Num
sample_num = record {
  R = Option ℕ;
  of_ℕ = some;
  add = lift plus;
  sub = lift (λ a b. a - b);
  mul = lift (λ a b. a * b);
  div = lift over;
  round = λ a. a;
  exp = λ a. a;
  log10 = λ a. a;
  pow = λ a b. a;
  pi = some 3;
  is_nan = nan?;
  is_finite = finite?;
  le = at_most;
  finite-not-nan = finite-not-nan_lem;
  le-not-nan_left = at_most-nan_left;
  le-not-nan_right = at_most-nan_right;
  le_refl = at_most_refl;
  le_trans = at_most_trans;
  le_total = at_most_total;
  of_ℕ-finite = λ n _. refl;
  of_ℕ-le = at_most-literal;
  of_ℕ-lt = at_most-literal_lt;
  add_comm = lift_comm;
  add-finite_below = lift-finite;
  finite_between = finite_between_lem;
  add-ge = add-ge_lem;
  half-ge = half-ge_lem;
  half-le = half-le_lem;
}
