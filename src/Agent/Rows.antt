-- ===== src/Agent/Rows.antt =====
-- The table of `_lcs_len`, row by row, and what it comes to.
use eval_ops.Prelude.{ℕ, ◌≤◌, ◌≡◌, refl, sym, ap, ◌∙◌, subst, List, [], ◌∷◌, Eq, length, arith}
use mathlib.Core.List.{append-nil}
use eval_ops.Agent.Subsequence.{zeros, last_of, rest_of_row, rows, lcs_len}
use eval_ops.Agent.Longest.{
  IsSubsequence, IsLongest, longest, longest-IsLongest, rev_onto, length-rev_onto,
  rev_onto-rev_onto, IsSubsequence-rev,
}

module _ {A : Type 0} ⦃e : Eq A⦄ where
  -- The row of the items `ra` met so far, the last first, from the column after `rb` on.
  row : List A → List A → List A → List ℕ
  row ra rb [] = longest ra rb ∷ []
  row ra rb (y ∷ b) = longest ra rb ∷ row ra (y ∷ rb) b

  zeros-row : (rb b : List A) → 0 ∷ zeros b ≡ row [] rb b
  unfolding row longest
  zeros-row rb [] = refl
  zeros-row rb (y ∷ b) = ap (λ r. 0 ∷ r) (zeros-row (y ∷ rb) b)

  next_row :
      (x : A) (ra rb b : List A)
      → longest (x ∷ ra) rb ∷ rest_of_row x b (row ra rb b) (longest (x ∷ ra) rb)
        ≡ row (x ∷ ra) rb b
  unfolding row rest_of_row longest
  next_row x ra rb [] = refl
  next_row x ra rb (y ∷ []) = refl
  next_row x ra rb (y ∷ y' ∷ b) =
      ap (λ r. longest (x ∷ ra) rb ∷ r) (next_row x ra (y ∷ rb) (y' ∷ b))

  all_rows : (a ra b : List A) → rows a b (row ra [] b) ≡ row (rev_onto a ra) [] b
  unfolding rows longest
  all_rows [] ra b = refl
  all_rows (x ∷ a) ra b = ap (rows a b) (next_row x ra [] b) ∙ all_rows a (x ∷ ra) b

  last_of-row : (n : ℕ) (ra rb b : List A) → last_of n (row ra rb b) ≡ longest ra (rev_onto b rb)
  unfolding row
  last_of-row n ra rb [] = refl
  last_of-row n ra rb (y ∷ b) = last_of-row (longest ra rb) ra (y ∷ rb) b

  longest-nil : (ra : List A) → longest ra [] ≡ 0
  unfolding longest
  longest-nil [] = refl
  longest-nil (x ∷ ra) = refl

  longest-empty : (b : List A) → longest [] b ≡ 0
  unfolding longest
  longest-empty b = refl

  lcs_len-longest : (a b : List A) → lcs_len a b ≡ longest (rev_onto a []) (rev_onto b [])
  lcs_len-longest [] b = unfold lcs_len in sym (longest-empty (rev_onto b []))
  lcs_len-longest (x ∷ a) [] = unfold lcs_len in sym (longest-nil (rev_onto (x ∷ a) []))
  lcs_len-longest (x ∷ a) (y ∷ b) =
      unfold lcs_len in
      ap (λ r. last_of 0 (rows (x ∷ a) (y ∷ b) r)) (zeros-row [] (y ∷ b))
      ∙ (ap (last_of 0) (all_rows (x ∷ a) [] (y ∷ b))
          ∙ last_of-row 0 (rev_onto (x ∷ a) []) [] (y ∷ b))

  -- `_lcs_len` returns the length of a longest list that is a subsequence of both its arguments.
  pub lcs_len-IsLongest : (a b : List A) → IsLongest (lcs_len a b) a b
  lcs_len-IsLongest a b =
      let ((zs, ha, hb, l), top) = longest-IsLongest (rev_onto a []) (rev_onto b []) in
      rw (lcs_len-longest a b) (
        (
          rev_onto zs [],
          subst (IsSubsequence (rev_onto zs [])) (rev_rev a) (IsSubsequence-rev zs _ [] [] ha tt),
          subst (IsSubsequence (rev_onto zs [])) (rev_rev b) (IsSubsequence-rev zs _ [] [] hb tt),
          length-rev zs ∙ l,
        ),
        λ ws p q.
            subst (λ (n : ℕ). n ≤ longest (rev_onto a []) (rev_onto b [])) (length-rev ws)
              (top (rev_onto ws []) (IsSubsequence-rev ws a [] [] p tt)
                (IsSubsequence-rev ws b [] [] q tt)),
      )
    where
      rev_rev : (xs : List A) → rev_onto (rev_onto xs []) [] ≡ xs
      rev_rev xs = rev_onto-rev_onto xs [] [] ∙ append-nil xs

      length-rev : (xs : List A) → length (rev_onto xs []) ≡ length xs
      length-rev xs = omega (arith, length-rev_onto xs [])
