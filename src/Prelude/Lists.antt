-- ===== src/Prelude/Lists.antt =====
-- Lists measured by native numbers, and Python's comprehensions, `any`, `all`, `in` and `set`.
use Prim.Native.Nat.{ℕ, zero, suc, ◌+◌, ◌≤◌, ◌<◌}
use mathlib.Core.Path.{◌≡◌, refl, ap}
use mathlib.Core.Logic.{◌↔◌, ◌⊎◌, inl, inr}
use mathlib.Core.Bool.{Bool, true, false, not, ◌&&◌, ◌||◌}
use mathlib.Core.Option.{Option, none, some}
use mathlib.Core.List.{List, [], ◌∷◌, ◌++◌, map}
use native.Mathlib.Omega.{arith}
use eval_ops.Prelude.Tests.{if◌then◌else◌, Bool-cases}
use eval_ops.Prelude.Keys.{Eq, ◌==◌}

module _ {ℓ} {A : Type ℓ} where
  abbrev pub length : List A → ℕ
  length [] = 0
  length (x ∷ xs) = suc (length xs)

  abbrev pub get_elem? : List A → ℕ → Option A
  get_elem? [] i = none
  get_elem? (x ∷ xs) zero = some x
  get_elem? (x ∷ xs) (suc i) = get_elem? xs i

  -- `[x for x in xs if p(x)]`
  abbrev pub select : (A → Bool) → List A → List A
  select p [] = []
  select p (x ∷ xs) = let rest = select p xs in if p x then x ∷ rest else rest

  -- `sum(1 for x in xs if p(x))`
  abbrev pub count_if : (A → Bool) → List A → ℕ
  count_if p [] = 0
  count_if p (x ∷ xs) = let rest = count_if p xs in if p x then suc rest else rest

  abbrev pub any : (A → Bool) → List A → Bool
  any p [] = false
  any p (x ∷ xs) = p x || any p xs

  abbrev pub all : (A → Bool) → List A → Bool
  all p [] = true
  all p (x ∷ xs) = p x && all p xs

  -- A predicate by recursion, which the tactics read and build.
  abbrev pub All {κ} : (Q : A → Type κ) (items : List A) → Type κ
  All Q (item ∷ items) = Q item × All Q items
  All Q [] = Unit

  abbrev pub Exists : (A → Type 0) → List A → Type 0
  Exists P [] = ⊥
  Exists P (x ∷ xs) = P x ⊎ Exists P xs

  pub length-append : (xs ys : List A) → length (xs ++ ys) ≡ length xs + length ys
  length-append [] ys = omega arith
  length-append (x ∷ xs) ys = omega (arith, length-append xs ys)

  pub count_if-le-length : (p : A → Bool) (xs : List A) → count_if p xs ≤ length xs
  count_if-le-length p [] = omega arith
  count_if-le-length p (x ∷ xs) = ground (arith, count_if-le-length p xs)

  pub length-select : (p : A → Bool) (xs : List A) → length (select p xs) ≡ count_if p xs
  length-select p [] = refl
  length-select p (x ∷ xs) = ground (arith, length-select p xs)

  pub count_if-select :
      (p q : A → Bool) (xs : List A) → count_if q (select p xs) ≡ count_if (λ x. p x && q x) xs
  count_if-select p q [] = refl
  count_if-select p q (x ∷ xs) = ground (arith, count_if-select p q xs)

  pub All-map {κ κ'} :
      {P : A → Type κ} {Q : A → Type κ'} (xs : List A) → ((x : A) → P x → Q x) → All P xs → All Q xs
  All-map [] f h = tt
  All-map (x ∷ xs) f h = (f x h.0, All-map xs f h.1)

  pub All-select {κ} :
      (P : A → Type κ) (p : A → Bool) (xs : List A)
      → All (λ x. p x ≡ true → P x) xs
      → All P (select p xs)
  All-select P p [] h = tt
  All-select P p (x ∷ xs) h = elim (Bool-cases (p x)) [
    | inl e ↦ rw e (h.0 e, All-select P p xs h.1)
    | inr e ↦ rw e (All-select P p xs h.1)
  ]

  -- Something is counted exactly if it is there.
  pub Exists-count_if :
      (p : A → Bool) (xs : List A) → (0 < count_if p xs) ↔ Exists (λ x. p x ≡ true) xs
  Exists-count_if p [] = (λ h. elim h [ ], λ h. elim h [ ])
  Exists-count_if p (x ∷ xs) =
      let (there, back) = Exists-count_if p xs in
      elim (Bool-cases (p x)) [
        | inl e ↦ (λ h. inl e, λ h. rw e (omega arith))
        | inr e ↦ (
          λ h. inr (there (rw e at h)),
          λ h. elim h [ inl a ↦ absurd (cc (a, e)) | inr b ↦ rw e (back b) ],
        )
      ]

module _ {ℓ κ} {A : Type ℓ} {B : Type κ} where
  pub length-map : (f : A → B) (xs : List A) → length (map f xs) ≡ length xs
  length-map f [] = refl
  length-map f (x ∷ xs) = ap suc (length-map f xs)

module _ {ℓ} {A : Type ℓ} ⦃e : Eq A⦄ where
  -- `a in xs`
  abbrev pub contains : List A → A → Bool
  contains [] a = false
  contains (x ∷ xs) a = x == a || contains xs a

  -- `len(xs) == len(set(xs))`: no value occurs twice.
  abbrev pub distinct : List A → Bool
  distinct [] = true
  distinct (x ∷ xs) = not (contains xs x) && distinct xs

  -- `set(xs)`, as the list of the values at their last occurrence.
  abbrev pub to_set : List A → List A
  to_set [] = []
  to_set (x ∷ xs) = let rest = to_set xs in if contains xs x then rest else x ∷ rest

  pub contains-to_set : (a : A) (xs : List A) → contains (to_set xs) a ≡ contains xs a
  contains-to_set a [] = refl
  contains-to_set a (x ∷ xs) = elim (Bool-cases (contains xs x)) [
    | inl h ↦ ground (arith, contains-to_set a xs, e.beq_iff x a, h)
    | inr h ↦ ground (arith, contains-to_set a xs)
  ]
