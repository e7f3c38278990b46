-- ===== src/Double.antt =====
-- Python's `float`, as an interface: the values, what the program does with them, and laws of IEEE
-- 754 doubles that the proofs use. `W` is the type of the doubles.

pub mod Milli
pub mod Laws
pub mod Full
use eval_ops.Prelude.{ℕ, ◌<◌, ◌≤◌, String, ◌≡◌, ◌⊎◌, Bool, true, false, List}

pub record Double (W : Type 0) : Type 0 where
  -- `float(n)` of an int: whether it returns, being an OverflowError if not, and what it returns
  pub fits : ℕ → Bool
  pub of_nat : ℕ → W
  pub add : W → W → W
  pub sub : W → W → W
  pub mul : W → W → W
  pub div : W → W → W
  pub neg : W → W
  pub lt : W → W → Bool
  pub le : W → W → Bool
  pub eq : W → W → Bool
  -- literals: the decimal `n / 10 ** k`
  pub decimal : ℕ → ℕ → W
  -- `a / b` of two ints, `math.ceil(x)` and `math.floor(x)` of a number that is not negative
  pub ratio : ℕ → ℕ → W
  pub ceil : W → ℕ
  pub floor : W → ℕ
  -- `sum(xs)`, and `fmean`, `median` and `stdev` of the module `statistics`
  pub sum : List W → W
  pub fmean : List W → W
  pub median : List W → W
  pub stdev : List W → W
  -- `format(x, ".0%")`, `format(x, ".1%")`, `format(x, "g")`,
  -- `format(x, ".3g")`, `format(x, ".3f")`
  pub percent0 : W → String
  pub percent1 : W → String
  pub general : W → String
  pub general3 : W → String
  pub fixed3 : W → String

module _ {W : Type 0} ⦃d : Double W⦄ where
  abbrev pub zero_f : W
  zero_f = d.of_nat 0

  abbrev pub one_f : W
  one_f = d.of_nat 1

  infix 4 ◌≼◌ ◌≺◌
  abbrev pub ◌≼◌ : W → W → Type 0
  x ≼ y = d.le x y ≡ true

  abbrev pub ◌≺◌ : W → W → Type 0
  x ≺ y = d.lt x y ≡ true

-- Laws of the order and of the operations, in forms that hold for NaN and the infinities too.
-- A finite number is one that `is_finite` accepts.
pub record IsOrdered (W : Type 0) ⦃d : Double W⦄ : Type 0 where
  pub is_finite : W → Bool
  pub lt_irrefl : (x : W) → d.lt x x ≡ false
  pub le_refl : (x : W) → is_finite x ≡ true → x ≼ x
  pub le_trans : (x y z : W) → x ≼ y → y ≼ z → x ≼ z
  pub le-lt_trans : (x y z : W) → x ≼ y → y ≺ z → x ≺ z
  pub lt-le_trans : (x y z : W) → x ≺ y → y ≼ z → x ≺ z
  pub le_of_lt : (x y : W) → x ≺ y → x ≼ y
  pub le_total : (x y : W) → is_finite x ≡ true → is_finite y ≡ true → (x ≼ y) ⊎ (y ≼ x)
  -- rounding keeps the order of products by a number that is not negative
  pub mul_mono :
      (x y z : W)
      → is_finite x ≡ true
      → is_finite y ≡ true
      → is_finite z ≡ true
      → d.of_nat 0 ≼ z
      → x ≼ y
      → d.mul x z ≼ d.mul y z
  pub one_finite : is_finite (d.of_nat 1) ≡ true
  pub zero_finite : is_finite (d.of_nat 0) ≡ true
  -- a proper fraction lies between 0 and 1
  pub ratio_bounds :
      (a b : ℕ) → a ≤ b → 0 < b → (d.of_nat 0 ≼ d.ratio a b) × (d.ratio a b ≼ d.of_nat 1)
  -- it is below 1 if its denominator is at most 2 ** 53, and a positive number over itself is 1
  pub ratio_below : (a b : ℕ) → a < b → b ≤ 9007199254740992 → d.ratio a b ≺ d.of_nat 1
  pub ratio_self : (n : ℕ) → 0 < n → d.ratio n n ≡ d.of_nat 1
  -- 95 per cent of a positive length, rounded up, is a position from 1 to the length
  pub ceil_rank :
      (n : ℕ)
      → 0 < n
      → (0 < d.ceil (d.mul (d.decimal 95 2) (d.of_nat n)))
        × (d.ceil (d.mul (d.decimal 95 2) (d.of_nat n)) ≤ n)
  -- the sign flips the order
  pub neg_anti : (x y : W) → x ≼ y → d.neg y ≼ d.neg x
