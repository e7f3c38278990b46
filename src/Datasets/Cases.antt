-- ===== src/Datasets/Cases.antt =====
-- That a dataset that has been loaded holds one authored case for each line that is not blank.
use eval_ops.Prelude.{
  ℕ, suc, String, ◌≡◌, refl, sym, ap, subst, not, Option, none, some, List, [], ◌∷◌, All, arith,
  length, count_if, any, string_eq, Bool-cases, inl, inr,
}
use eval_ops.Result.{
  Result, ok, err, ok_inj, config_error, domain_error, map_ok-inv, >>=-eq-ok, >>-eq-ok, raise_if,
  traverse,
}
use eval_ops.Dict.{Dict}
use eval_ops.Text.{is_blank}
use eval_ops.Domain.Enums.{authored}
use eval_ops.Domain.Values.{
  Value, null, boolean, nonneg, negative, float, text, array, object, require_non_empty,
}
use eval_ops.Domain.Entities.{
  DatasetCase, new_dataset_case, require_origin, Dataset, new_dataset, is_empty,
}
use eval_ops.Persist.Json.{field_get}
use eval_ops.Datasets.Jsonl.{
  allowed_keys, visible_text, text_if_given, list_if_given, only_keys, parse_expected_tool_calls,
  case_id_of, parse_object, parse_line, parse_lines, load_jsonl,
}

module _ {W : Type 0} where
  abbrev pub IsAuthored : DatasetCase W → Type 0
  IsAuthored c = (c.origin ≡ authored) × (c.source_trace_id ≡ none)

  pub new_dataset_case-same : (c c' : DatasetCase W) → new_dataset_case c ≡ ok c' → c ≡ c'
  unfolding new_dataset_case
  new_dataset_case-same c c' h = ok_inj (
      >>-eq-ok (require_origin c.origin c.source_trace_id) _ (
        >>-eq-ok
          (raise_if (any is_blank c.expected_retrieval_ids)
            (domain_error "expected_retrieval_ids entries must be non-empty strings"))
          _
          (>>-eq-ok (require_non_empty c.id "DatasetCase.id") _
            (>>-eq-ok (require_non_empty c.input "DatasetCase.input") _ h))))

  pub new_dataset-same : (v v' : Dataset W) → new_dataset v ≡ ok v' → v ≡ v'
  unfolding new_dataset
  new_dataset-same v v' h = ground (arith, h)

module _ {W : Type 0} (new_id : ℕ → String) where
  object-IsAuthored :
      (lineno : ℕ) (v : Value W) (seen : Dict String ℕ) (parsed : DatasetCase W × Dict String ℕ)
      → parse_object new_id lineno v seen ≡ ok parsed
      → IsAuthored parsed.0
  unfolding parse_object
  object-IsAuthored lineno (object obj) seen parsed h =
      let h1 =
        >>-eq-ok (raise_if (not (only_keys allowed_keys obj)) (config_error "unknown field(s)")) _
          h in
      let (input, _, h2) = >>=-eq-ok (visible_text (field_get "input" obj)) _ h1 in
      let (expected, _, h3) = >>=-eq-ok (text_if_given (field_get "expected_output" obj)) _ h2 in
      let (raw_ids, _, h4) =
        >>=-eq-ok (list_if_given (field_get "expected_retrieval_ids" obj)) _ h3 in
      let (ids, _, h5) =
        >>=-eq-ok (traverse (λ (v : Value W). visible_text (some v)) raw_ids) _ h4 in
      let (calls, _, h6) =
        >>=-eq-ok (parse_expected_tool_calls (field_get "expected_tool_calls" obj)) _ h5 in
      let (numbered, _, h7) = >>=-eq-ok (case_id_of new_id lineno obj seen) _ h6 in
      let (case, built, h8) =
        >>=-eq-ok
          (new_dataset_case (record {
            input = input;
            expected_output = expected;
            origin = authored;
            source_trace_id = none;
            expected_retrieval_ids = ids;
            expected_tool_calls = calls;
            id = numbered.0;
          }))
          _ h7 in
      subst (λ (q : DatasetCase W × Dict String ℕ). IsAuthored q.0) (ok_inj h8)
        (subst IsAuthored (new_dataset_case-same _ case built) (refl, refl))
  object-IsAuthored lineno null seen parsed h = cc h
  object-IsAuthored lineno (boolean b) seen parsed h = cc h
  object-IsAuthored lineno (nonneg n) seen parsed h = cc h
  object-IsAuthored lineno (negative n) seen parsed h = cc h
  object-IsAuthored lineno (float x) seen parsed h = cc h
  object-IsAuthored lineno (text s) seen parsed h = cc h
  object-IsAuthored lineno (array vs) seen parsed h = cc h

module _ {W : Type 0} (loads : String → Result (Option (Value W))) (new_id : ℕ → String) where
  line-IsAuthored :
      (lineno : ℕ) (line : String) (seen : Dict String ℕ) (parsed : DatasetCase W × Dict String ℕ)
      → parse_line loads new_id lineno line seen ≡ ok parsed
      → IsAuthored parsed.0
  unfolding parse_line
  line-IsAuthored lineno line seen parsed h = decoded (loads line) refl h
    where
      decoded :
          (o : Result (Option (Value W)))
          → loads line ≡ o
          → parse_line loads new_id lineno line seen ≡ ok parsed
          → IsAuthored parsed.0
      decoded (ok none) p k = cc (rw (parse_line, p) at k)
      decoded (err e) p k = cc (rw (parse_line, p) at k)
      decoded (ok (some v)) p k =
          object-IsAuthored new_id lineno v seen parsed (rw (parse_line, p) at k)

  lines-IsAuthored :
      (lineno : ℕ) (lines : List String) (seen : Dict String ℕ) (cases : List (DatasetCase W))
      → parse_lines loads new_id lineno lines seen ≡ ok cases
      → (length cases ≡ count_if (λ line. not (is_blank line)) lines) × All IsAuthored cases
  unfolding parse_lines
  lines-IsAuthored lineno [] seen cases h =
      subst (λ (cs : List (DatasetCase W)). (length cs ≡ 0) × All IsAuthored cs) (ok_inj h)
        (refl, tt)
  lines-IsAuthored lineno (line ∷ lines) seen cases h = elim (Bool-cases (is_blank line)) [
    | inl blank ↦ rw blank (lines-IsAuthored (suc lineno) lines seen cases (rw blank at h))
    | inr visible ↦
        let (parsed, first, rest) =
          >>=-eq-ok (parse_line loads new_id lineno line seen) _ (rw visible at h) in
        let (more, later, same) =
          map_ok-inv (λ (cs : List (DatasetCase W)). parsed.0 ∷ cs)
            (parse_lines loads new_id (suc lineno) lines parsed.1) cases rest in
        let (size, all) = lines-IsAuthored (suc lineno) lines parsed.1 more later in
        let own = line-IsAuthored lineno line seen parsed first in
        rw visible (
          subst
            (λ (cs : List (DatasetCase W)).
              (length cs ≡ suc (count_if (λ line. not (is_blank line)) lines)) × All IsAuthored cs)
            (sym same) (ap suc size, (own, all)))
  ]

  -- A dataset that has been loaded from the lines of a file has one case for each line that is not
  -- blank, in version 1 of the project, and each case is authored and names no trace.
  pub load_jsonl_lem :
      (stem id : String) (lines : List String) (project_id : String) (name : Option String)
      (v : Dataset W)
      → load_jsonl loads new_id stem id (ok lines) project_id name ≡ ok v
      → (length v.cases ≡ count_if (λ line. not (is_blank line)) lines)
        × All IsAuthored v.cases
        × (v.version ≡ 1)
        × (v.project_id ≡ project_id)
  unfolding load_jsonl
  load_jsonl_lem stem id lines project_id name v h =
      let (cases, parsed, h1) = >>=-eq-ok (parse_lines loads new_id 1 lines []) _ h in
      let h2 =
        >>-eq-ok (raise_if (is_empty cases) (config_error "dataset file contains no cases")) _ h1 in
      let (size, all) = lines-IsAuthored 1 lines [] cases parsed in
      subst
        (λ (v : Dataset W).
          (length v.cases ≡ count_if (λ line. not (is_blank line)) lines)
          × All IsAuthored v.cases
          × (v.version ≡ 1)
          × (v.project_id ≡ project_id))
        (new_dataset-same _ v h2) (size, all, refl, refl)
