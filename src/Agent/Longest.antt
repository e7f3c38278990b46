-- ===== src/Agent/Longest.antt =====
-- What `_lcs_len` computes: the length of a longest common subsequence.
use eval_ops.Prelude.{
  ℕ, suc, ◌≤◌, ◌≡◌, refl, sym, ap, ◌∙◌, ◌⊎◌, inl, inr, List, [], ◌∷◌, ◌++◌, ◌==◌, Eq, length,
  if◌then◌else◌, arith, Bool-cases, ltb, true, false, ◌+◌,
}
use eval_ops.Agent.Subsequence.{max}

module _ {A : Type 0} where
  -- The items of the first list stand in the second in the same order.
  abbrev pub IsSubsequence : List A → List A → Type 0
  IsSubsequence [] a = Unit
  IsSubsequence (z ∷ zs) [] = ⊥
  IsSubsequence (z ∷ zs) (x ∷ a) = ((z ≡ x) × IsSubsequence zs a) ⊎ IsSubsequence (z ∷ zs) a

  IsSubsequence-later : (x : A) (zs a : List A) → IsSubsequence zs a → IsSubsequence zs (x ∷ a)
  IsSubsequence-later x [] a h = tt
  IsSubsequence-later x (z ∷ zs) a h = inr h

  IsSubsequence-tail : (z : A) (zs a : List A) → IsSubsequence (z ∷ zs) a → IsSubsequence zs a
  IsSubsequence-tail z zs [] h = absurd h
  IsSubsequence-tail z zs (x ∷ a) (inl h) = IsSubsequence-later x zs a h.1
  IsSubsequence-tail z zs (x ∷ a) (inr h) = IsSubsequence-later x zs a (IsSubsequence-tail z zs a h)

  -- A list turned round, in front of another.
  abbrev pub rev_onto : List A → List A → List A
  rev_onto [] acc = acc
  rev_onto (x ∷ xs) acc = rev_onto xs (x ∷ acc)

  pub length-rev_onto : (xs acc : List A) → length (rev_onto xs acc) ≡ length xs + length acc
  length-rev_onto [] acc = omega arith
  length-rev_onto (x ∷ xs) acc = omega (arith, length-rev_onto xs (x ∷ acc))

  pub rev_onto-rev_onto :
      (xs acc c : List A) → rev_onto (rev_onto xs acc) c ≡ rev_onto acc (xs ++ c)
  rev_onto-rev_onto [] acc c = refl
  rev_onto-rev_onto (x ∷ xs) acc c = rev_onto-rev_onto xs (x ∷ acc) c

  -- Both lists turned round, onto lists that are subsequences already.
  pub IsSubsequence-rev :
      (zs a ws acc : List A)
      → IsSubsequence zs a
      → IsSubsequence ws acc
      → IsSubsequence (rev_onto zs ws) (rev_onto a acc)
  IsSubsequence-rev [] [] ws acc h k = k
  IsSubsequence-rev [] (x ∷ a) ws acc h k =
      IsSubsequence-rev [] a ws (x ∷ acc) tt (IsSubsequence-later x ws acc k)
  IsSubsequence-rev (z ∷ zs) [] ws acc h k = absurd h
  IsSubsequence-rev (z ∷ zs) (x ∷ a) ws acc (inl h) k =
      IsSubsequence-rev zs a (z ∷ ws) (x ∷ acc) h.1 (inl (h.0, k))
  IsSubsequence-rev (z ∷ zs) (x ∷ a) ws acc (inr h) k =
      IsSubsequence-rev (z ∷ zs) a ws (x ∷ acc) h (IsSubsequence-later x ws acc k)

  -- `n` is the length of a longest common subsequence.
  abbrev pub IsLongest : ℕ → List A → List A → Type 0
  IsLongest n a b =
      ((zs : List A) × IsSubsequence zs a × IsSubsequence zs b × (length zs ≡ n))
      × ((zs : List A) → IsSubsequence zs a → IsSubsequence zs b → length zs ≤ n)

module _ {A : Type 0} ⦃e : Eq A⦄ where
  -- The recursion on the first items.
  unfoldable pub longest : List A → List A → ℕ
  longest [] b = 0
  longest (x ∷ a) [] = 0
  longest (x ∷ a) (y ∷ b) =
      if x == y then suc (longest a b) else max (longest a (y ∷ b)) (longest (x ∷ a) b)

  tail-IsLongest :
      (x y : A) (a b : List A) (n : ℕ)
      → (x == y) ≡ true
      → IsLongest n a b
      → IsLongest (suc n) (x ∷ a) (y ∷ b)
  tail-IsLongest x y a b n h ((zs, ha, hb, l), top) =
      ((x ∷ zs, inl (refl, ha), inl ((e.beq_iff x y).0 h, hb), ap suc l), bound)
    where
      bound :
          (ws : List A) → IsSubsequence ws (x ∷ a) → IsSubsequence ws (y ∷ b) → length ws ≤ suc n
      bound [] p q = omega arith
      bound (w ∷ ws) (inl p) (inl q) = omega (arith, top ws p.1 q.1)
      bound (w ∷ ws) (inl p) (inr q) = omega (arith, top ws p.1 (IsSubsequence-tail w ws b q))
      bound (w ∷ ws) (inr p) (inl q) = omega (arith, top ws (IsSubsequence-tail w ws a p) q.1)
      bound (w ∷ ws) (inr p) (inr q) = omega (arith, top (w ∷ ws) p q)

  either-IsLongest :
      (x y : A) (a b : List A) (m n : ℕ)
      → (x == y) ≡ false
      → IsLongest m a (y ∷ b)
      → IsLongest n (x ∷ a) b
      → IsLongest (max m n) (x ∷ a) (y ∷ b)
  either-IsLongest x y a b m n h ((us, ua, ub, ul), u_top) ((vs, va, vb, vl), v_top) =
      (reached, bound)
    where
      reached :
          (zs : List A) × IsSubsequence zs (x ∷ a)
          × IsSubsequence zs (y ∷ b)
          × (length zs ≡ max m n)
      reached = elim (Bool-cases (ltb m n)) [
        | inl t ↦ (vs, va, IsSubsequence-later y vs b vb, rw t vl)
        | inr t ↦ (us, IsSubsequence-later x us a ua, ub, rw t ul)
      ]

      bound :
          (ws : List A) → IsSubsequence ws (x ∷ a) → IsSubsequence ws (y ∷ b) → length ws ≤ max m n
      bound [] p q = omega arith
      bound (w ∷ ws) (inl p) (inl q) =
          (let same : x ≡ y = sym p.0 ∙ q.0 in let hit = (e.beq_iff x y).1 same in cc (h, hit))
      bound (w ∷ ws) (inl p) (inr q) = ground (arith, v_top (w ∷ ws) (inl p) q)
      bound (w ∷ ws) (inr p) q = ground (arith, u_top (w ∷ ws) p q)

  empty-IsLongest : (b : List A) → IsLongest 0 [] b
  empty-IsLongest b = (([], tt, tt, refl), bound)
    where
      bound : (ws : List A) → IsSubsequence ws [] → IsSubsequence ws b → length ws ≤ 0
      bound [] p q = omega arith
      bound (w ∷ ws) p q = absurd p

  pub longest-IsLongest : (a b : List A) → IsLongest (longest a b) a b
  unfolding longest
  longest-IsLongest [] b = empty-IsLongest b
  longest-IsLongest (x ∷ a) [] =
      let (_, top) = empty-IsLongest (x ∷ a) in (([], tt, tt, refl), λ ws p q. top ws q p)
  longest-IsLongest (x ∷ a) (y ∷ b) = elim (Bool-cases (x == y)) [
    | inl h ↦ rw h (tail-IsLongest x y a b (longest a b) h (longest-IsLongest a b))
    | inr h ↦
        rw h (
          either-IsLongest x y a b _ _ h (longest-IsLongest a (y ∷ b))
            (longest-IsLongest (x ∷ a) b))
  ]
