-- ===== src/Loop.antt =====
-- Python's `for` over a list, whose body changes a state and may raise, with its proof rules.
use eval_ops.Prelude.{ℕ, zero, suc, ◌+◌, arith, ◌≡◌, refl, List, [], ◌∷◌, ◌++◌, ◌∙◌, ap, sym, subst}
use mathlib.Core.List.{flat_map, append-nil, append_assoc}
use eval_ops.Result.{Result, ok, ◌>>=◌, >>=-eq-ok, ok_inj}

-- `range(start, start + n)`
abbrev pub range_from : ℕ → ℕ → List ℕ
range_from start zero = []
range_from start (suc n) = start ∷ range_from (suc start) n

module _ {A S : Type 0} where
  unfoldable pub for_each : (A → S → Result S) → List A → S → Result S
  for_each body [] s = ok s
  for_each body (x ∷ xs) s = body x s >>= for_each body xs

  -- What the body appends to a trace for each item, the loop appends for all of them in order.
  pub for_each_trace :
      {X : Type 0} (trace : S → List X) (out : A → List X) (body : A → S → Result S)
      → ((x : A) (s s' : S) → body x s ≡ ok s' → trace s' ≡ trace s ++ out x)
      → (xs : List A) (s s' : S) → for_each body xs s ≡ ok s'
      → trace s' ≡ trace s ++ flat_map out xs
  unfolding for_each flat_map
  for_each_trace trace out body step [] s s' h =
      ap trace (sym (ok_inj h)) ∙ sym (append-nil (trace s))
  for_each_trace trace out body step (x ∷ xs) s s' h =
      let (m, p, q) = >>=-eq-ok (body x s) (for_each body xs) h in
      for_each_trace trace out body step xs m s' q
      ∙ (ap (λ t. t ++ flat_map out xs) (step x s m p)
          ∙ append_assoc (trace s) (out x) (flat_map out xs))

  -- An invariant of the body is one of the loop.
  pub for_each_keeps :
      (P : S → Type 0) (body : A → S → Result S)
      → ((x : A) (s s' : S) → body x s ≡ ok s' → P s → P s')
      → (xs : List A) (s s' : S) → for_each body xs s ≡ ok s'
      → P s
      → P s'
  unfolding for_each
  for_each_keeps P body step [] s s' h p = subst P (ok_inj h) p
  for_each_keeps P body step (x ∷ xs) s s' h p =
      let (m, e, q) = >>=-eq-ok (body x s) (for_each body xs) h in
      for_each_keeps P body step xs m s' q (step x s m e p)

  -- A body that returns from every state that satisfies the invariant lets the loop return.
  pub for_each_total :
      (P : S → Type 0) (body : A → S → Result S)
      → ((x : A) (s : S) → P s → (s' : S) × (body x s ≡ ok s') × P s')
      → (xs : List A) (s : S) → P s
      → (s' : S) × (for_each body xs s ≡ ok s') × P s'
  unfolding for_each
  for_each_total P body step [] s p = (s, refl, p)
  for_each_total P body step (x ∷ xs) s p =
      let (m, e, q) = step x s p in
      let (s', f, r) = for_each_total P body step xs m q in (s', rw e f, r)

pub range_from-suc : (k n : ℕ) → range_from k (suc n) ≡ range_from k n ++ (k + n) ∷ []
range_from-suc k zero = ap (λ t. t ∷ []) (omega arith)
range_from-suc k (suc n) =
    ap (λ t. k ∷ t)
      (range_from-suc (suc k) n ∙ ap (λ (t : ℕ). range_from (suc k) n ++ t ∷ []) (omega arith))
