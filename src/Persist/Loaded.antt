-- ===== src/Persist/Loaded.antt =====
-- db/models.py: the relationships with an `order_by`. A database hands out the child rows of a
-- parent in any order; what a relationship loads is those rows sorted by their `position`.
use mathlib.Core.List.{Permᴰ}
use eval_ops.Prelude.{
  ℕ, suc, ◌<◌, ◌≡◌, ◌≢◌, refl, sym, ◌∙◌, subst, List, [], ◌∷◌, arith, All, leb, nat_eq,
}
use eval_ops.Sort.{insert, sorted}

-- The number of a child in its parent's list, from `enumerate`.
abbrev pub enumerated {ℓ κ} : {A : Type ℓ} {B : Type κ} → (ℕ → A → B) → ℕ → List A → List B
enumerated f n [] = []
enumerated f n (x ∷ xs) = f n x ∷ enumerated f (suc n) xs

module _ {R : Type 0} (position : R → ℕ) where
  -- `relationship(..., order_by="....position")`
  unfoldable pub loaded : List R → List R
  unfolding sorted
  loaded rows = sorted (λ a b. leb (position a) (position b)) rows

  -- No two rows have the same position.
  abbrev Distinct : List R → Type 0
  Distinct [] = Unit
  Distinct (r ∷ rs) = All (λ s. position r ≢ position s) rs × Distinct rs

  All-perm : (P : R → Type 0) {xs ys : List R} → Permᴰ xs ys → All P xs → All P ys
  All-perm P Permᴰ.nil h = tt
  All-perm P (Permᴰ.cons e p) h = (subst P e h.0, All-perm P p h.1)
  All-perm P (Permᴰ.swap e e') h = (subst P e' h.1.0, (subst P e h.0, h.1.1))
  All-perm P (Permᴰ.trans p q) h = All-perm P q (All-perm P p h)

  Distinct-perm : {xs ys : List R} → Permᴰ xs ys → Distinct xs → Distinct ys
  Distinct-perm Permᴰ.nil h = tt
  Distinct-perm (Permᴰ.cons {l₂ = ys} e p) h =
      (subst (λ r. All (λ s. position r ≢ position s) ys) e (All-perm _ p h.0), Distinct-perm p h.1)
  Distinct-perm (Permᴰ.swap {a} {b} {a'} {b'} {l} e e') h =
      subst (λ r. Distinct (r ∷ b' ∷ l)) e'
        (subst (λ r. Distinct (b ∷ r ∷ l)) e (((λ k. h.0.0 (sym k)), h.1.0), (h.0.1, h.1.1)))
  Distinct-perm (Permᴰ.trans p q) h = Distinct-perm q (Distinct-perm p h)

  -- Rows with different positions may be inserted in either order.
  insert_swap :
      (x y : R) (zs : List R)
      → position x ≢ position y
      → insert
          (λ a b. leb (position a) (position b))
          x
          (insert (λ a b. leb (position a) (position b)) y zs)
        ≡ insert
            (λ a b. leb (position a) (position b))
            y
            (insert (λ a b. leb (position a) (position b)) x zs)
  unfolding insert
  insert_swap x y [] h = ground arith
  insert_swap x y (z ∷ zs) h = ground (arith, insert_swap x y zs h)

  -- The order in which rows with different positions are handed out does not matter.
  loaded-perm : {xs ys : List R} → Permᴰ xs ys → Distinct xs → loaded xs ≡ loaded ys
  unfolding loaded sorted
  loaded-perm Permᴰ.nil h = refl
  loaded-perm (Permᴰ.cons e p) h = cc (e, loaded-perm p h.1)
  loaded-perm (Permᴰ.swap {a} {b} {l} e e') h =
      let swapped = insert_swap a b (loaded l) h.0.0 in cc (e, e', swapped)
  loaded-perm (Permᴰ.trans p q) h = loaded-perm p h ∙ loaded-perm q (Distinct-perm p h)

  module _ {A : Type 0} (write : ℕ → A → R)
      (numbered : (n : ℕ) (x : A) → position (write n x) ≡ n) where
    later : (n m : ℕ) (xs : List A) → n < m → All (λ s. n < position s) (enumerated write m xs)
    later n m [] h = tt
    later n m (x ∷ xs) h = (omega (arith, numbered m x, h), later n (suc m) xs (omega (arith, h)))

    apart :
        (r : R) (rs : List R)
        → All (λ s. position r < position s) rs
        → All (λ s. position r ≢ position s) rs
    apart r [] h = tt
    apart r (s ∷ rs) h = (λ e. absurd (omega (arith, e, h.0)), apart r rs h.1)

    enumerated-Distinct : (n : ℕ) (xs : List A) → Distinct (enumerated write n xs)
    enumerated-Distinct n [] = tt
    enumerated-Distinct n (x ∷ xs) = (
      apart (write n x) (enumerated write (suc n) xs) (
          subst (λ k. All (λ s. k < position s) (enumerated write (suc n) xs)) (sym (numbered n x))
            (later n (suc n) xs (omega arith))),
      enumerated-Distinct (suc n) xs,
    )

    insert-enumerated :
        (n : ℕ) (x : A) (xs : List A)
        → insert (λ a b. leb (position a) (position b)) (write n x) (enumerated write (suc n) xs)
          ≡ write n x ∷ enumerated write (suc n) xs
    unfolding insert
    insert-enumerated n x [] = refl
    insert-enumerated n x (y ∷ ys) = ground (arith, numbered n x, numbered (suc n) y)

    loaded-enumerated :
        (n : ℕ) (xs : List A) → loaded (enumerated write n xs) ≡ enumerated write n xs
    unfolding loaded sorted
    loaded-enumerated n [] = refl
    loaded-enumerated n (x ∷ xs) =
        let rest = loaded-enumerated (suc n) xs in rw rest (insert-enumerated n x xs)

    -- Numbered rows, handed out in any order, are loaded in the order of their numbers.
    pub loaded-handed :
        (n : ℕ) (xs : List A) (rows : List R)
        → Permᴰ (enumerated write n xs) rows
        → loaded rows ≡ enumerated write n xs
    loaded-handed n xs rows p =
        sym (loaded-perm p (enumerated-Distinct n xs)) ∙ loaded-enumerated n xs
