-- ===== src/Sort.antt =====
-- Python's `sorted`: a stable sort by a test `leb`. Timsort is the language's; what the program
-- uses of it is its result, which is that of a stable insertion sort.
use Prim.Native.Nat.{Ordering}
use Prim.Native.String.{compare}
use eval_ops.Prelude.{
  ℕ, String, ◌≡◌, refl, Bool, true, false, List, [], ◌∷◌, arith, if◌then◌else◌, length, count_if,
  contains, Eq, ◌==◌, ◌||◌, leb as nat_leb,
}

module _ {ℓ} {A : Type ℓ} (leb : A → A → Bool) where
  unfoldable pub insert : A → List A → List A
  insert x [] = x ∷ []
  insert x (y ∷ ys) = let rest = insert x ys in if leb x y then x ∷ y ∷ ys else y ∷ rest

  unfoldable pub sorted : List A → List A
  unfolding insert
  sorted [] = []
  sorted (x ∷ xs) = insert x (sorted xs)

  -- Every item is at most the next.
  abbrev pub IsSorted : List A → Type 0
  IsSorted [] = Unit
  IsSorted (x ∷ []) = Unit
  IsSorted (x ∷ y ∷ ys) = (leb x y ≡ true) × IsSorted (y ∷ ys)

  count_if-insert :
      (p : A → Bool) (x : A) (xs : List A) → count_if p (insert x xs) ≡ count_if p (x ∷ xs)
  unfolding insert
  count_if-insert p x [] = refl
  count_if-insert p x (y ∷ ys) = ground (arith, count_if-insert p x ys)

  -- Sorting keeps what is counted, whatever the test.
  pub count_if-sorted : (p : A → Bool) (xs : List A) → count_if p (sorted xs) ≡ count_if p xs
  unfolding sorted
  count_if-sorted p [] = refl
  count_if-sorted p (x ∷ xs) = ground (arith, count_if-insert p x (sorted xs), count_if-sorted p xs)

  length-insert : (x : A) (xs : List A) → length (insert x xs) ≡ length (x ∷ xs)
  unfolding insert
  length-insert x [] = refl
  length-insert x (y ∷ ys) = ground (arith, length-insert x ys)

  pub length-sorted : (xs : List A) → length (sorted xs) ≡ length xs
  unfolding sorted
  length-sorted [] = refl
  length-sorted (x ∷ xs) = ground (arith, length-insert x (sorted xs), length-sorted xs)

module _ {ℓ} {A : Type ℓ} ⦃e : Eq A⦄ (leb : A → A → Bool) where
  contains-insert :
      (x a : A) (xs : List A) → contains (insert leb x xs) a ≡ (x == a || contains xs a)
  unfolding insert
  contains-insert x a [] = refl
  contains-insert x a (y ∷ ys) = ground (arith, contains-insert x a ys)

  pub contains-sorted : (a : A) (xs : List A) → contains (sorted leb xs) a ≡ contains xs a
  unfolding sorted
  contains-sorted a [] = refl
  contains-sorted a (x ∷ xs) =
      ground (arith, contains-insert x a (sorted leb xs), contains-sorted a xs)

-- Texts in the order of their code points, and pairs of a text and a number.
abbrev pub string_leb : String → String → Bool
string_leb s t = elim (compare s t) [ Ordering.gt ↦ false | _ ↦ true ]

abbrev pub key_leb : String × ℕ → String × ℕ → Bool
key_leb (s, m) (t, n) = elim (compare s t) [
  | Ordering.lt ↦ true
  | Ordering.eq ↦ nat_leb m n
  | Ordering.gt ↦ false
]
