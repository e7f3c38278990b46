-- ===== src/Result.antt =====
-- Exceptions as values: errors.py, domain/errors.py and db/errors.py. A function that may raise
-- returns a `Result`. The text is the message without the values that an f-string puts into it.
use eval_ops.Prelude.{
  String, ◌≡◌, refl, ◌↔◌, Bool, true, false, List, [], ◌∷◌, Exists, All, inl, inr, arith, length,
}

pub data Error : Type 0 where
  config_error : String → Error
  domain_error : String → Error
  record_not_found : String → Error
  record_conflict : String → Error
  persistence_error : String → Error
  -- ProviderError or a subclass: the name of its class, and the message
  provider_error : String → String → Error
  judge_error : String → Error
  key_error : Error
  index_error : Error
  -- any other exception, of a class that the program does not name
  other_error : String → Error

-- What a call gives: the value that it returns, or the exception that it raises.
pub data Result {ℓ} (Value : Type ℓ) : Type ℓ where
  ok : (value : Value) → Result Value
  err : (raised : Error) → Result Value

infixl 5 ◌>>=◌ ◌>>◌
-- Go on with the value; an exception ends the chain.
abbrev pub ◌>>=◌ {ℓ κ} :
    {X : Type ℓ} {Y : Type κ} (first : Result X) (next : X → Result Y) → Result Y
err raised >>= next = err raised
ok x >>= next = next x

-- The same after a call that is made for its checks only.
abbrev pub ◌>>◌ {κ} : {Y : Type κ} (check : Result (Unit {0})) (next : Result Y) → Result Y
err raised >> next = err raised
ok done >> next = next

-- `if test: raise e`
abbrev pub raise_if : Bool → Error → Result (Unit {0})
raise_if true e = err e
raise_if false e = ok tt

abbrev pub map_ok {ℓ κ} : {A : Type ℓ} {B : Type κ} → (A → B) → Result A → Result B
map_ok f (ok a) = ok (f a)
map_ok f (err e) = err e

pub ok_inj {ℓ} : {A : Type ℓ} {a b : A} → ok a ≡ ok b → a ≡ b
ok_inj h = cc

-- Whether a call has returned.
abbrev pub is_ok {ℓ} : {A : Type ℓ} → Result A → Bool
is_ok (ok a) = true
is_ok (err e) = false

pub is_ok-value {ℓ} : {A : Type ℓ} (m : Result A) → is_ok m ≡ true → (a : A) × (m ≡ ok a)
is_ok-value (ok a) h = (a, refl)
is_ok-value (err e) h = cc

module _ {ℓ} {B : Type ℓ} where
  pub >>-eq-ok : (m : Result (Unit {0})) (k : Result B) {b : B} → (m >> k) ≡ ok b → k ≡ ok b
  >>-eq-ok (ok a) k h = h
  >>-eq-ok (err e) k h = cc

module _ {ℓ κ} {A : Type ℓ} {B : Type κ} where
  -- A chain that returns has returned at its first call.
  pub >>=-eq-ok :
      (first : Result A) (next : A → Result B) {y : B} (whole : (first >>= next) ≡ ok y)
      → (x : A) × (first ≡ ok x) × (next x ≡ ok y)
  >>=-eq-ok (err raised) next whole = cc
  >>=-eq-ok (ok x) next whole = (x, refl, whole)

  pub map_ok-inv :
      (f : A → B) (m : Result A) (b : B) → map_ok f m ≡ ok b → (a : A) × (m ≡ ok a) × (b ≡ f a)
  map_ok-inv f (ok a) b h = (a, refl, cc h)
  map_ok-inv f (err e) b h = cc

  -- A comprehension whose body may raise: the first exception ends it.
  abbrev pub traverse : (A → Result B) → List A → Result (List B)
  traverse f [] = ok []
  traverse f (x ∷ xs) = let rest = traverse f xs in f x >>= λ y. map_ok (λ ys. y ∷ ys) rest

module _ {ℓ} {A : Type ℓ} where
  -- A loop that only checks, and raises at the first item that fails.
  abbrev pub each : (A → Result (Unit {0})) → List A → Result (Unit {0})
  each f [] = ok tt
  each f (x ∷ xs) = let rest = each f xs in f x >> rest

module _ {ℓ κ} {A : Type ℓ} {B : Type κ} (f : A → Result B) where
  -- Inversion of a comprehension that has returned.
  pub traverse-cons :
      (x : A) (xs : List A) (ys : List B)
      → traverse f (x ∷ xs) ≡ ok ys
      → (y : B) × (ys' : List B) × (f x ≡ ok y) × (traverse f xs ≡ ok ys') × (ys ≡ y ∷ ys')
  traverse-cons x xs ys h = split (f x) (traverse f xs) refl refl h
    where
      split :
          (r : Result B) (rs : Result (List B))
          → f x ≡ r
          → traverse f xs ≡ rs
          → (r >>= λ y. map_ok (λ ys. y ∷ ys) rs) ≡ ok ys
          → (y : B) × (ys' : List B) × (f x ≡ ok y) × (traverse f xs ≡ ok ys') × (ys ≡ y ∷ ys')
      split (ok y) (ok ys') p q e = (y, ys', p, q, cc)
      split (ok y) (err e') p q e = cc
      split (err e') rs p q e = cc

  -- What holds of each result exactly if it holds of its item is found in both lists or in none.
  pub Exists-traverse :
      (P : A → Type 0) (Q : B → Type 0)
      → ((x : A) (y : B) → f x ≡ ok y → Q y ↔ P x)
      → (xs : List A) (ys : List B) → traverse f xs ≡ ok ys
      → Exists Q ys ↔ Exists P xs
  Exists-traverse P Q pointwise [] [] h = (λ q. q, λ p. p)
  Exists-traverse P Q pointwise [] (y ∷ ys) h = cc
  Exists-traverse P Q pointwise (x ∷ xs) ys h =
      let (y, ys', p, q, e) = traverse-cons x xs ys h in
      let (there, back) = pointwise x y p in
      let (theres, backs) = Exists-traverse P Q pointwise xs ys' q in
      rw e (
        λ t. elim t [ inl a ↦ inl (there a) | inr b ↦ inr (theres b) ],
        λ t. elim t [ inl a ↦ inl (back a) | inr b ↦ inr (backs b) ],
      )

  pub length-traverse : (xs : List A) (ys : List B) → traverse f xs ≡ ok ys → length ys ≡ length xs
  length-traverse [] [] h = refl
  length-traverse [] (y ∷ ys) h = cc
  length-traverse (x ∷ xs) ys h =
      let (y, ys', p, q, e) = traverse-cons x xs ys h in
      rw e (omega (arith, length-traverse xs ys' q))

  -- A body that returns for every item lets the comprehension return.
  pub traverse_total :
      (xs : List A) → All (λ x. is_ok (f x) ≡ true) xs → (ys : List B) × (traverse f xs ≡ ok ys)
  traverse_total [] h = ([], refl)
  traverse_total (x ∷ xs) h =
      let (y, p) = is_ok-value (f x) h.0 in
      let (ys, q) = traverse_total xs h.1 in (y ∷ ys, cc (p, q))

  -- The comprehension item by item.
  pub All-traverse :
      (Q : B → Type 0)
      → ((x : A) (y : B) → f x ≡ ok y → Q y)
      → (xs : List A) (ys : List B) → traverse f xs ≡ ok ys
      → All Q ys
  All-traverse Q pointwise [] [] h = tt
  All-traverse Q pointwise [] (y ∷ ys) h = cc
  All-traverse Q pointwise (x ∷ xs) ys h =
      let (y, ys', p, q, e) = traverse-cons x xs ys h in
      rw e (pointwise x y p, All-traverse Q pointwise xs ys' q)
