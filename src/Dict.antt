-- ===== src/Dict.antt =====
-- Python's `dict`: an association list in the order of the keys' first insertion.
use eval_ops.Prelude.{
  ◌≡◌, refl, Option, none, some, List, [], ◌∷◌, arith, Eq, ◌==◌, ◌∙◌, ap, if◌then◌else◌, contains,
  is_some,
}

abbrev pub Dict {ℓ κ} : Type ℓ → Type κ → Type (ℓ ⊔ κ)
Dict K V = List (K × V)

module _ {ℓ κ} {K : Type ℓ} {V : Type κ} ⦃e : Eq K⦄ where
  -- `m.get(k)`
  abbrev pub get : K → Dict K V → Option V
  get k [] = none
  get k ((j, v) ∷ m) = if j == k then some v else get k m

  -- `m[k] = v`
  abbrev pub set : K → V → Dict K V → Dict K V
  set k v [] = (k, v) ∷ []
  set k v ((j, w) ∷ m) = if j == k then (j, v) ∷ m else (j, w) ∷ set k v m

  abbrev pub keys : Dict K V → List K
  keys [] = []
  keys ((j, v) ∷ m) = j ∷ keys m

  pub get-set :
      (k j : K) (v : V) (m : Dict K V) → get j (set k v m) ≡ (if k == j then some v else get j m)
  get-set k j v [] = refl
  get-set k j v ((i, w) ∷ m) =
      ground (arith, e.beq_iff k j, e.beq_iff i k, e.beq_iff i j, get-set k j v m)

  pub get-keys : (k : K) (m : Dict K V) → is_some (get k m) ≡ contains (keys m) k
  get-keys k [] = refl
  get-keys k ((j, v) ∷ m) = ground (arith, get-keys k m)

module _ {ℓ κ} {K : Type ℓ} {V : Type κ} ⦃e : Eq K⦄ where
  -- `{key(x): x for x in xs}`, with the items before it: a later item replaces an earlier one.
  pub index_from : (V → K) → Dict K V → List V → Dict K V
  index_from key m [] = m
  index_from key m (x ∷ xs) = index_from key (set (key x) x m) xs

  unfoldable pub index_by : (V → K) → List V → Dict K V
  unfolding index_from
  index_by key xs = index_from key [] xs

  -- The last item with the key.
  abbrev pub last_with : (V → K) → K → List V → Option V → Option V
  last_with key k [] found = found
  last_with key k (x ∷ xs) found = last_with key k xs (if key x == k then some x else found)

  get-index_from :
      (key : V → K) (k : K) (m : Dict K V) (xs : List V)
      → get k (index_from key m xs) ≡ last_with key k xs (get k m)
  unfolding index_from
  get-index_from key k m [] = refl
  get-index_from key k m (x ∷ xs) =
      get-index_from key k (set (key x) x m) xs ∙ ap (last_with key k xs) (get-set (key x) k x m)

  pub get-index_by :
      (key : V → K) (k : K) (xs : List V) → get k (index_by key xs) ≡ last_with key k xs none
  unfolding index_by
  get-index_by key k xs = get-index_from key k [] xs
