-- ===== src/Diagnostics/Groups.antt =====
-- Python's `m.setdefault(key(x), []).append(x)` over a list, and the order `(-count, text)`.
use eval_ops.Prelude.{
  ℕ, suc, ◌+◌, String, ◌≡◌, refl, Bool, ◌&&◌, ◌||◌, List, [], ◌∷◌, ◌++◌, arith, ◌==◌, Eq, nat_eq,
  if◌then◌else◌, length, length-append, ltb,
}
use eval_ops.Dict.{Dict}
use eval_ops.Sort.{string_leb, insert, sorted}

module _ {K V : Type 0} ⦃e : Eq K⦄ where
  unfoldable pub append_to : K → V → Dict K (List V) → Dict K (List V)
  append_to k x [] = (k, x ∷ []) ∷ []
  append_to k x ((j, xs) ∷ m) =
      let rest = append_to k x m in if j == k then (j, xs ++ x ∷ []) ∷ m else (j, xs) ∷ rest

  unfoldable pub group_from : (V → K) → Dict K (List V) → List V → Dict K (List V)
  unfolding append_to
  group_from key m [] = m
  group_from key m (x ∷ xs) = group_from key (append_to (key x) x m) xs

  abbrev pub group_by : (V → K) → List V → Dict K (List V)
  group_by key xs = group_from key [] xs

module _ {A : Type 0} where
  -- `sum(f(x) for x in xs)`
  abbrev pub sum_of : (A → ℕ) → List A → ℕ
  sum_of f [] = 0
  sum_of f (x ∷ xs) = f x + sum_of f xs

  sum_of-insert :
      (leb : A → A → Bool) (f : A → ℕ) (x : A) (xs : List A)
      → sum_of f (insert leb x xs) ≡ f x + sum_of f xs
  unfolding insert
  sum_of-insert leb f x [] = omega arith
  sum_of-insert leb f x (y ∷ ys) = ground (arith, sum_of-insert leb f x ys)

  -- A sum does not depend on the order.
  pub sum_of-sorted :
      (leb : A → A → Bool) (f : A → ℕ) (xs : List A) → sum_of f (sorted leb xs) ≡ sum_of f xs
  unfolding sorted
  sum_of-sorted leb f [] = refl
  sum_of-sorted leb f (x ∷ xs) =
      omega (arith, sum_of-insert leb f x (sorted leb xs), sum_of-sorted leb f xs)

module _ {K V : Type 0} ⦃e : Eq K⦄ where
  sum-append_to :
      (k : K) (x : V) (m : Dict K (List V))
      → sum_of (λ p. length p.1) (append_to k x m) ≡ suc (sum_of (λ p. length p.1) m)
  unfolding append_to
  sum-append_to k x [] = refl
  sum-append_to k x ((j, xs) ∷ m) = ground (arith, sum-append_to k x m, length-append xs (x ∷ []))

  sum-group_from :
      (key : V → K) (m : Dict K (List V)) (xs : List V)
      → sum_of (λ p. length p.1) (group_from key m xs) ≡ sum_of (λ p. length p.1) m + length xs
  unfolding group_from
  sum-group_from key m [] = omega arith
  sum-group_from key m (x ∷ xs) =
      omega (arith, sum-group_from key (append_to (key x) x m) xs, sum-append_to (key x) x m)

  -- Grouping loses nothing and counts nothing twice.
  pub sum-group_by :
      (key : V → K) (xs : List V) → sum_of (λ p. length p.1) (group_by key xs) ≡ length xs
  sum-group_by key xs = omega (arith, sum-group_from key [] xs)

-- `key=lambda c: (-count(c), text(c))`
abbrev pub count_leb : ℕ × String → ℕ × String → Bool
count_leb (m, s) (n, t) = ltb n m || (m == n && string_leb s t)
