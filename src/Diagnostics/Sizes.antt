-- ===== src/Diagnostics/Sizes.antt =====
-- How many distinct values a list has: a block of one value adds at most one, and a dict of groups
-- has a key for each.
use eval_ops.Prelude.{
  suc, ◌+◌, ◌≤◌, ◌≡◌, refl, sym, ap, ◌∙◌, true, false, not, ◌||◌, List, [], ◌∷◌, ◌++◌, map, arith,
  ◌==◌, Eq, if◌then◌else◌, length, contains, select, to_set, Bool-cases, inl, inr, All,
}
use eval_ops.Dict.{Dict, keys}
use eval_ops.Diagnostics.Groups.{append_to, group_from, group_by}

module _ {K : Type 0} ⦃e : Eq K⦄ where
  to_set_block_step :
      {V : Type 0} (f : V → K) (k : K) (x : V) (xs rest : List V)
      → f x ≡ k
      → All (λ y. f y ≡ k) xs
      → length (to_set (map f (xs ++ rest))) ≤ suc (length (to_set (map f rest)))
      → length (to_set (map f (x ∷ xs ++ rest))) ≤ suc (length (to_set (map f rest)))
  to_set_block_step f k x [] rest here same h = ground (arith, h)
  to_set_block_step f k x (y ∷ ys) rest here same h =
      let found : (f y == f x) ≡ true = (e.beq_iff (f y) (f x)).1 (same.0 ∙ sym here) in
      rw found (h)

  pub to_set_block :
      {V : Type 0} (f : V → K) (k : K) (xs rest : List V)
      → All (λ y. f y ≡ k) xs
      → length (to_set (map f (xs ++ rest))) ≤ suc (length (to_set (map f rest)))
  to_set_block f k [] rest same = omega arith
  to_set_block f k (x ∷ xs) rest same =
      to_set_block_step f k x xs rest same.0 same.1 (to_set_block f k xs rest same.1)

  -- What is left without a value.
  abbrev without : K → List K → List K
  without k ys = select (λ y. not (k == y)) ys

  without_absent : (k : K) (ys : List K) → contains ys k ≡ false → without k ys ≡ ys
  without_absent k [] h = refl
  without_absent k (y ∷ ys) h = ground (arith, e.beq_iff k y, e.beq_iff y k, without_absent k ys, h)

  contains-without :
      (k y : K) (ys : List K) → (k == y) ≡ false → contains (without k ys) y ≡ contains ys y
  contains-without k y [] h = refl
  contains-without k y (z ∷ ys) h =
      ground (arith, e.beq_iff k z, e.beq_iff z y, e.beq_iff k y, contains-without k y ys h)

  length-to_set-without :
      (k : K) (ys : List K)
      → contains ys k ≡ true
      → length (to_set ys) ≡ suc (length (to_set (without k ys)))
  length-to_set-without k [] h = cc h
  length-to_set-without k (y ∷ ys) h = elim (Bool-cases (k == y)) [
    | inl same ↦ elim (Bool-cases (contains ys k)) [
      | inl more ↦ ground (arith, e.beq_iff k y, length-to_set-without k ys more, same, more)
      | inr none_left ↦
          ground (arith, e.beq_iff k y, without_absent k ys none_left, same, none_left)
    ]
    | inr other ↦
        (let later : contains ys k ≡ true =
            ground (arith, e.beq_iff k y, e.beq_iff y k, h, other) in
          let kept = contains-without k y ys other in
          ground (arith, length-to_set-without k ys later, kept, other))
  ]

  length-to_set-cons :
      (k : K) (ys : List K) → length (to_set (k ∷ ys)) ≡ suc (length (to_set (without k ys)))
  length-to_set-cons k ys = elim (Bool-cases (contains ys k)) [
    | inl h ↦ rw h (length-to_set-without k ys h)
    | inr h ↦ rw (h, without_absent k ys h) refl
  ]

  unknown_empty : (ys : List K) → select (λ y. not (contains {A = K} [] y)) ys ≡ ys
  unknown_empty [] = refl
  unknown_empty (y ∷ ys) = ap (λ zs. y ∷ zs) (unknown_empty ys)

module _ {K V : Type 0} ⦃e : Eq K⦄ where
  -- The values that are not keys of a dict.
  abbrev unknown : Dict K (List V) → List K → List K
  unknown m ys = select (λ y. not (contains (keys m) y)) ys

  contains-append_to :
      (k y : K) (x : V) (m : Dict K (List V))
      → contains (keys (append_to k x m)) y ≡ (k == y || contains (keys m) y)
  unfolding append_to
  contains-append_to k y x [] = ground arith
  contains-append_to k y x ((j, xs) ∷ m) =
      ground (arith, e.beq_iff j k, e.beq_iff j y, e.beq_iff k y, contains-append_to k y x m)

  length-append_to :
      (k : K) (x : V) (m : Dict K (List V))
      → length (append_to k x m) ≡ (if contains (keys m) k then length m else suc (length m))
  unfolding append_to
  length-append_to k x [] = refl
  length-append_to k x ((j, xs) ∷ m) = ground (arith, length-append_to k x m)

  unknown-append_to :
      (k : K) (x : V) (m : Dict K (List V)) (ys : List K)
      → unknown (append_to k x m) ys ≡ without k (unknown m ys)
  unknown-append_to k x m [] = refl
  unknown-append_to k x m (y ∷ ys) =
      ground (arith, contains-append_to k y x m, unknown-append_to k x m ys)

  unknown_known :
      (k : K) (x : V) (m : Dict K (List V)) (ys : List K)
      → contains (keys m) k ≡ true
      → unknown (append_to k x m) ys ≡ unknown m ys
  unknown_known k x m [] h = refl
  unknown_known k x m (y ∷ ys) h =
      ground (arith, contains-append_to k y x m, unknown_known k x m ys h, e.beq_iff k y, h)

  length-group_from :
      (key : V → K) (m : Dict K (List V)) (xs : List V)
      → length (group_from key m xs) ≡ length m + length (to_set (unknown m (map key xs)))
  unfolding group_from
  length-group_from key m [] = omega arith
  length-group_from key m (x ∷ xs) =
      let later = length-group_from key (append_to (key x) x m) xs in
      let grown = length-append_to (key x) x m in
      elim (Bool-cases (contains (keys m) (key x))) [
        | inl h ↦
            (let same = unknown_known (key x) x m (map key xs) h in
              rw (h) (omega (arith, later, rw h at grown, ap (λ ys. length (to_set ys)) same)))
        | inr h ↦
            (let fewer = unknown-append_to (key x) x m (map key xs) in
              rw (h) (
                omega (
                  arith,
                  later,
                  rw h at grown,
                  ap (λ ys. length (to_set ys)) fewer,
                  length-to_set-cons (key x) (unknown m (map key xs)),
                )))
      ]

  -- There is a group for each distinct key.
  pub length-group_by :
      (key : V → K) (xs : List V) → length (group_by key xs) ≡ length (to_set (map key xs))
  length-group_by key xs = omega (
    arith,
    length-group_from key [] xs,
    ap (λ ys. length (to_set ys)) (unknown_empty (map key xs)),
  )
