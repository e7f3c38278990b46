-- ===== src/Rag/Unique.antt =====
-- That `_unique_ordered` drops the repetitions and nothing else.
use eval_ops.Prelude.{
  String, ◌≡◌, refl, true, not, ◌&&◌, List, [], ◌∷◌, arith, string_eq, contains, distinct,
  Bool-cases, inl, inr,
}
use eval_ops.Rag.Words.{unique_from, unique_ordered}

contains-unique_from :
    (seen ids : List String) (a : String)
    → contains (unique_from seen ids) a ≡ (contains ids a && not (contains seen a))
unfolding unique_from
contains-unique_from seen [] a = refl
contains-unique_from seen (v ∷ ids) a = elim (Bool-cases (contains seen v)) [
  | inl h ↦ ground (arith, contains-unique_from seen ids a, string_eq.beq_iff v a, h)
  | inr h ↦ ground (arith, contains-unique_from (v ∷ seen) ids a, string_eq.beq_iff v a, h)
]

distinct-unique_from : (seen ids : List String) → distinct (unique_from seen ids) ≡ true
unfolding unique_from
distinct-unique_from seen [] = refl
distinct-unique_from seen (v ∷ ids) = ground (
  arith,
  distinct-unique_from seen ids,
  distinct-unique_from (v ∷ seen) ids,
  contains-unique_from (v ∷ seen) ids v,
  string_eq.beq_iff v v,
)

-- No id is left twice, and the ids that are left are those given.
pub unique_ordered_lem :
    (ids : List String)
    → (distinct (unique_ordered ids) ≡ true)
      × ((a : String) → contains (unique_ordered ids) a ≡ contains ids a)
unfolding unique_ordered
unique_ordered_lem ids =
    (distinct-unique_from [] ids, λ a. ground (arith, contains-unique_from [] ids a))
