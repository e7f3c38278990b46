-- ===== src/Double/Laws.antt =====
-- That the thousandths satisfy the laws which the proofs ask of doubles.
use eval_ops.Prelude.{
  ℕ, zero, Bool-cases, suc, ◌+◌, ◌*◌, ◌≤◌, ◌<◌, ◌≡◌, refl, ap, ◌⊎◌, inl, inr, true, arith, nat_eq,
  leb,
}
use Prim.Native.Nat.{◌/◌}
use native.Mathlib.Nat.{div-le_of_le-mul, div-lt_iff_lt-mul, mul-div_cancel_left, mul-le-mul_right}
use eval_ops.Double.{IsOrdered, ◌≼◌, ◌≺◌}
use eval_ops.Double.Milli.{Milli, nonneg, minus, minus_of, quotient, milli}

scaled_mono : (a b z : ℕ) → a ≤ b → a * z / 1000 ≤ b * z / 1000
scaled_mono a b z h = omega (arith, mul-le-mul_right z h)

minus_of_anti : (m n : ℕ) → n ≤ m → minus_of m ≼ minus_of n
minus_of_anti m n h = ground arith

minus_of_low : (m n : ℕ) → minus_of m ≼ nonneg n
minus_of_low m n = ground arith

times_mono : (x y z : Milli) → nonneg 0 ≼ z → x ≼ y → milli.mul x z ≼ milli.mul y z
times_mono x y (minus z) h k = absurd (cc h)
times_mono (nonneg a) (nonneg b) (nonneg z) h k = ground (arith, scaled_mono a b z)
times_mono (nonneg a) (minus b) (nonneg z) h k = absurd (cc k)
times_mono (minus a) (nonneg b) (nonneg z) h k = minus_of_low (suc a * z / 1000) (b * z / 1000)
times_mono (minus a) (minus b) (nonneg z) h k =
    minus_of_anti (suc a * z / 1000) (suc b * z / 1000)
      (scaled_mono (suc b) (suc a) z (ground arith))

quotient_bound : (a b : ℕ) → a ≤ b → 0 < b → quotient a b ≤ 1000
quotient_bound a zero h k = absurd (omega (arith, k))
quotient_bound a (suc b) h k =
    let q : a * 1000 / suc b ≤ 1000 = div-le_of_le-mul (suc b) (omega (arith, h)) in
    ground (arith, q)

quotient_below : (a b : ℕ) → a < b → quotient a b < 1000
quotient_below a zero h = absurd (omega (arith, h))
quotient_below a (suc b) h =
    let q : a * 1000 / suc b < 1000 =
      (div-lt_iff_lt-mul {k = suc b} {x = a * 1000} {y = 1000} (omega arith)).1
        (omega (arith, h)) in
    ground (arith, q)

quotient_self : (n : ℕ) → 0 < n → quotient n n ≡ 1000
quotient_self zero h = absurd (omega (arith, h))
quotient_self (suc n) h =
    let q : suc n * 1000 / suc n ≡ 1000 = mul-div_cancel_left 1000 {n = suc n} (omega arith) in
    ground (arith, q)

trans : (x y z : Milli) → x ≼ y → y ≼ z → x ≼ z
trans x y z h k = ground arith

le-lt : (x y z : Milli) → x ≼ y → y ≺ z → x ≺ z
le-lt x y z h k = ground arith

lt-le : (x y z : Milli) → x ≺ y → y ≼ z → x ≺ z
lt-le x y z h k = ground arith

of_lt : (x y : Milli) → x ≺ y → x ≼ y
of_lt x y h = ground arith

total : (x y : Milli) → (x ≼ y) ⊎ (y ≼ x)
total (nonneg a) (nonneg b) = elim (Bool-cases (leb a b)) [
  | inl h ↦ inl h
  | inr h ↦ inr (ground arith)
]
total (nonneg a) (minus b) = inr refl
total (minus a) (nonneg b) = inl refl
total (minus a) (minus b) = elim (Bool-cases (leb b a)) [
  | inl h ↦ inl h
  | inr h ↦ inr (ground arith)
]

negate_anti : (x y : Milli) → x ≼ y → milli.neg y ≼ milli.neg x
negate_anti x y h = ground arith

rank :
    (n : ℕ)
    → 0 < n
    → (0 < (10 * 95 * (1000 * n) / 1000 + 999) / 1000)
      × ((10 * 95 * (1000 * n) / 1000 + 999) / 1000 ≤ n)
rank n h = (omega arith, omega arith)

pub milli_laws : IsOrdered Milli
milli_laws = record {
  is_finite = λ x. true;
  lt_irrefl = λ x. elim x [ nonneg n ↦ ground arith | minus n ↦ ground arith ];
  le_refl = λ x h. elim x [ nonneg n ↦ ground arith | minus n ↦ ground arith ];
  le_trans = trans;
  le-lt_trans = le-lt;
  lt-le_trans = lt-le;
  le_of_lt = of_lt;
  le_total = λ x y h k. total x y;
  mul_mono = λ x y z fx fy fz. times_mono x y z;
  one_finite = refl;
  zero_finite = refl;
  ratio_bounds = λ a b h k. let q = quotient_bound a b h k in (ground arith, ground arith);
  ratio_below = λ a b h k. let q = quotient_below a b h in ground arith;
  ratio_self = λ n h. ap nonneg (quotient_self n h);
  ceil_rank = rank;
  neg_anti = negate_anti;
}

-- Every thousandth is finite.
pub all_finite : (x : Milli) → milli_laws.is_finite x ≡ true
unfolding milli_laws
all_finite x = refl
