-- ===== src/Agent/Subsequence.antt =====
-- agent_evaluators.py: `_lcs_len`
use eval_ops.Prelude.{ℕ, suc, List, [], ◌∷◌, ◌==◌, Eq, if◌then◌else◌, ltb}
use eval_ops.Domain.Entities.{is_empty}

-- `max(m, n)`
abbrev pub max : ℕ → ℕ → ℕ
max m n = if ltb m n then n else m

abbrev pub zeros : {A : Type 0} → List A → List ℕ
zeros [] = []
zeros (x ∷ xs) = 0 ∷ zeros xs

-- `row[-1]` of a row that is not empty
abbrev pub last_of : ℕ → List ℕ → ℕ
last_of n [] = n
last_of n (m ∷ ms) = last_of m ms

module _ {A : Type 0} ⦃e : Eq A⦄ where
  -- The inner loop: `prev` from position `j - 1` on, and `curr[j - 1]`, give the rest of `curr`.
  unfoldable pub rest_of_row : A → List A → List ℕ → ℕ → List ℕ
  rest_of_row x (y ∷ ys) (p ∷ q ∷ prev) here =
      let next = if x == y then suc p else max q here in next ∷ rest_of_row x ys (q ∷ prev) next
  rest_of_row x _ _ here = []

  -- The outer loop.
  unfoldable pub rows : List A → List A → List ℕ → List ℕ
  unfolding rest_of_row
  rows [] b prev = prev
  rows (x ∷ a) b prev = rows a b (0 ∷ rest_of_row x b prev 0)

  unfoldable pub lcs_len : List A → List A → ℕ
  unfolding rows
  lcs_len a b =
      if is_empty a then 0 else if is_empty b then 0 else last_of 0 (rows a b (0 ∷ zeros b))
