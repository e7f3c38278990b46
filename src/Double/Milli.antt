-- ===== src/Double/Milli.antt =====
-- A concrete arithmetic for the tests: whole thousandths, with every result rounded to one.
use eval_ops.Prelude.{
  ℕ, zero, suc, ◌+◌, ◌-◌, ◌*◌, String, Bool, true, false, ◌&&◌, List, [], ◌∷◌, ◌==◌, nat_eq, ltb,
  leb, length, if◌then◌else◌,
}
use Prim.Native.Nat.{◌/◌}
use Prim.Native.String.{◌++◌}
use eval_ops.Double.{Double}
use eval_ops.Text.{show_nat}

-- `minus n` is `-(n + 1)` thousandths.
pub data Milli : Type 0 where
  nonneg : ℕ → Milli
  minus : ℕ → Milli

abbrev pub minus_of : ℕ → Milli
minus_of n = if n == 0 then nonneg 0 else minus (n - 1)

abbrev diff : ℕ → ℕ → Milli
diff a b = if ltb a b then minus (b - a - 1) else nonneg (a - b)

abbrev pub negate : Milli → Milli
negate (nonneg n) = minus_of n
negate (minus n) = nonneg (suc n)

abbrev plus : Milli → Milli → Milli
plus (nonneg a) (nonneg b) = nonneg (a + b)
plus (nonneg a) (minus b) = diff a (suc b)
plus (minus a) (nonneg b) = diff b (suc a)
plus (minus a) (minus b) = minus (suc (a + b))

abbrev times : Milli → Milli → Milli
times (nonneg a) (nonneg b) = nonneg (a * b / 1000)
times (nonneg a) (minus b) = minus_of (a * suc b / 1000)
times (minus a) (nonneg b) = minus_of (suc a * b / 1000)
times (minus a) (minus b) = nonneg (suc a * suc b / 1000)

-- 0 stands for a quotient by 0.
abbrev pub quotient : ℕ → ℕ → ℕ
quotient a b = if b == 0 then 0 else a * 1000 / b

abbrev over : Milli → Milli → Milli
over (nonneg a) (nonneg b) = nonneg (quotient a b)
over (nonneg a) (minus b) = minus_of (quotient a (suc b))
over (minus a) (nonneg b) = minus_of (quotient (suc a) b)
over (minus a) (minus b) = nonneg (quotient (suc a) (suc b))

abbrev pub below : Milli → Milli → Bool
below (nonneg a) (nonneg b) = ltb a b
below (nonneg a) (minus b) = false
below (minus a) (nonneg b) = true
below (minus a) (minus b) = ltb b a

abbrev pub at_most : Milli → Milli → Bool
at_most (nonneg a) (nonneg b) = leb a b
at_most (nonneg a) (minus b) = false
at_most (minus a) (nonneg b) = true
at_most (minus a) (minus b) = leb b a

abbrev magnitude : Milli → ℕ
magnitude (nonneg a) = a
magnitude (minus a) = suc a

abbrev total : List Milli → Milli
total [] = nonneg 0
total (x ∷ xs) = plus x (total xs)

abbrev mean : List Milli → Milli
mean xs = over (total xs) (nonneg (1000 * length xs))

abbrev or_zero : List Milli → ℕ → Milli
or_zero [] n = nonneg 0
or_zero (x ∷ xs) zero = x
or_zero (x ∷ xs) (suc n) = or_zero xs n

abbrev deviations : Milli → List Milli → List Milli
deviations m [] = []
deviations m (x ∷ xs) = nonneg (magnitude (plus x (negate m))) ∷ deviations m xs

abbrev shown : Milli → String
shown x = show_nat (magnitude x) ++ "/1000"

instance abbrev pub milli : Double Milli
milli = record {
  fits = λ n. leb n 1000000;
  of_nat = λ n. nonneg (1000 * n);
  add = plus;
  sub = λ x y. plus x (negate y);
  mul = times;
  div = over;
  neg = negate;
  lt = below;
  le = at_most;
  eq = λ x y. at_most x y && at_most y x;
  decimal = λ n k. nonneg (if k == 2 then 10 * n else 100 * n);
  ratio = λ a b. nonneg (quotient a b);
  ceil = λ x. (magnitude x + 999) / 1000;
  floor = λ x. magnitude x / 1000;
  sum = total;
  fmean = mean;
  median = λ xs. or_zero xs (length xs / 2);
  stdev = λ xs. mean (deviations (mean xs) xs);
  percent0 = shown;
  percent1 = shown;
  general = shown;
  general3 = shown;
  fixed3 = shown;
}
