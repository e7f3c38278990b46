-- ===== src/Judging/Judgement.antt =====
-- What asking the judge can give.
use eval_ops.Prelude.{
  ℕ, suc, String, ◌≡◌, ◌⊎◌, refl, Bool, true, false, not, Option, none, some, arith, ◌==◌,
  string_eq, if◌then◌else◌, Bool-cases, inl, inr,
}
use eval_ops.Result.{
  Result, ok, err, Error, provider_error, judge_error, other_error, map_ok, ◌>>=◌, ◌>>◌, raise_if,
}
use eval_ops.Double.{Double, IsOrdered, zero_f, one_f}
use eval_ops.Text.{is_blank, strip}
use eval_ops.Domain.Values.{
  Value, null, boolean, nonneg, negative, float, text, array, object, Fields, in_unit,
  require_non_empty,
}
use eval_ops.Domain.Entities.{SystemVersion, new_system_version}
use eval_ops.Persist.Json.{field_get}
use eval_ops.Runner.Exec.{ProviderResponse}
use eval_ops.Calibration.Values.{LabeledJudgeExample}
use eval_ops.Calibration.Judging.{JudgeVerdict}
use eval_ops.Judging.Parse.{object_text}
use eval_ops.Rag.Scores.{one_InUnit, zero_InUnit}
use eval_ops.Judging.Ask.{
  LlmJudge, pass_or_fail, verdict_of, reasoning_of, given_score, score_of, verdict_from,
  extract_json_object, as_object, verdict_in, parse_judge_verdict, ask_judge,
}

module _ {W : Type 0} ⦃d : Double W⦄ (laws : IsOrdered W) where
  -- A score within [0, 1], a JudgeError, or the OverflowError of an int that is too large.
  abbrev IsScore : Result W → Type 0
  IsScore (ok x) = in_unit x ≡ true
  IsScore (err (judge_error message)) = Unit
  IsScore (err e) = e ≡ other_error "OverflowError"

  ranged :
      (x : W)
      → IsScore
          (raise_if (not (in_unit x)) (judge_error "judge 'score' must be within [0, 1]") >> ok x)
  ranged x = elim (Bool-cases (in_unit x)) [ inl h ↦ rw h h | inr h ↦ rw h tt ]

  -- The conversion of an int, and then the check of the range.
  converted :
      (fits : Bool) (x : W)
      → IsScore (
          (raise_if (not fits) (other_error "OverflowError") >> ok x) >>= λ x.
          raise_if (not (in_unit x)) (judge_error "judge 'score' must be within [0, 1]") >> ok x)
  converted true x = ranged x
  converted false x = refl

  -- The same for a negative int, whose sign is put back.
  negated :
      (fits : Bool) (x : W)
      → IsScore (
          map_ok d.neg (raise_if (not fits) (other_error "OverflowError") >> ok x) >>= λ x.
          raise_if (not (in_unit x)) (judge_error "judge 'score' must be within [0, 1]") >> ok x)
  negated true x = ranged (d.neg x)
  negated false x = refl

  given_score-IsScore : (v : Value W) → IsScore (given_score v)
  unfolding given_score
  given_score-IsScore null = tt
  given_score-IsScore (boolean b) = tt
  given_score-IsScore (nonneg n) = converted (d.fits n) (d.of_nat n)
  given_score-IsScore (negative n) = negated (d.fits (suc n)) (d.of_nat (suc n))
  given_score-IsScore (float x) = ranged x
  given_score-IsScore (text s) = tt
  given_score-IsScore (array vs) = tt
  given_score-IsScore (object fs) = tt

  default_score : (passed : Bool) → in_unit {W = W} (if passed then one_f else zero_f) ≡ true
  default_score true = let (low, high) = one_InUnit laws in rw (low, high) refl
  default_score false = let (low, high) = zero_InUnit laws in rw (low, high) refl

  score_of-IsScore : (passed : Bool) (obj : Fields W) → IsScore (score_of passed obj)
  unfolding score_of
  score_of-IsScore passed obj = chosen (field_get "score" obj)
    where
      chosen :
          (o : Option (Value W))
          → IsScore (elim o [
            | none ↦ ok (if passed then one_f else zero_f)
            | some null ↦ ok (if passed then one_f else zero_f)
            | some value ↦ given_score value
          ])
      chosen none = default_score passed
      chosen (some null) = default_score passed
      chosen (some (boolean b)) = given_score-IsScore (boolean b)
      chosen (some (nonneg n)) = given_score-IsScore (nonneg n)
      chosen (some (negative n)) = given_score-IsScore (negative n)
      chosen (some (float x)) = given_score-IsScore (float x)
      chosen (some (text s)) = given_score-IsScore (text s)
      chosen (some (array vs)) = given_score-IsScore (array vs)
      chosen (some (object fs)) = given_score-IsScore (object fs)

  -- What asking a judge gives: a verdict with a score within [0, 1], a ProviderError, a JudgeError,
  -- the OverflowError of a score that is too large an int, or what the reader of JSON raises.
  abbrev pub IsOutcome : (String → Result (Option (Value W))) → Result (JudgeVerdict W) → Type 0
  IsOutcome loads (ok v) = in_unit v.score ≡ true
  IsOutcome loads (err (provider_error class_name message)) = Unit
  IsOutcome loads (err (judge_error message)) = Unit
  IsOutcome loads (err e) = (e ≡ other_error "OverflowError") ⊎ ((s : String) × (loads s ≡ err e))

  other-IsOutcome :
      (loads : String → Result (Option (Value W))) (e : Error)
      → (e ≡ other_error "OverflowError") ⊎ ((s : String) × (loads s ≡ err e))
      → IsOutcome loads (err e)
  other-IsOutcome loads (provider_error k m) h = tt
  other-IsOutcome loads (judge_error m) h = tt
  other-IsOutcome loads e h = h

  scored-IsOutcome :
      (loads : String → Result (Option (Value W))) (passed : Bool) (reasoning : Option String)
      (score : Result W)
      → IsScore score
      → IsOutcome loads
          (score >>= λ s. ok (record { passed = passed; score = s; reasoning = reasoning }))
  scored-IsOutcome loads passed reasoning (ok s) h = h
  scored-IsOutcome loads passed reasoning (err (judge_error message)) h = tt
  scored-IsOutcome loads passed reasoning (err e) h = other-IsOutcome loads e (inl h)

  -- The verdict's field is a verdict or a JudgeError.
  abbrev IsVerdict : Result Bool → Type 0
  IsVerdict (ok b) = Unit
  IsVerdict (err (judge_error message)) = Unit
  IsVerdict (err e) = ⊥

  pass_or_fail-IsVerdict : (word : String) → IsVerdict (pass_or_fail word)
  pass_or_fail-IsVerdict word = elim (Bool-cases (word == "pass")) [
    | inl h ↦ rw h tt
    | inr h ↦ elim (Bool-cases (word == "fail")) [ inl k ↦ rw (h, k) tt | inr k ↦ rw (h, k) tt ]
  ]

  verdict_of-IsVerdict :
      (lower : String → String) (obj : Fields W) → IsVerdict (verdict_of lower obj)
  verdict_of-IsVerdict lower obj = chosen (field_get "verdict" obj)
    where
      chosen :
          (o : Option (Value W))
          → IsVerdict (elim o [
            | some (text verdict) ↦ pass_or_fail (lower (strip verdict))
            | _ ↦ err (judge_error "judge 'verdict' must be 'pass' or 'fail'")
          ])
      chosen none = tt
      chosen (some null) = tt
      chosen (some (boolean b)) = tt
      chosen (some (nonneg n)) = tt
      chosen (some (negative n)) = tt
      chosen (some (float x)) = tt
      chosen (some (text s)) = pass_or_fail-IsVerdict (lower (strip s))
      chosen (some (array vs)) = tt
      chosen (some (object fs)) = tt

  judged :
      (loads : String → Result (Option (Value W))) (verdict : Result Bool) (obj : Fields W)
      → IsVerdict verdict
      → IsOutcome loads (
          verdict >>= λ passed. score_of passed obj >>= λ s.
          ok (record { passed = passed; score = s; reasoning = reasoning_of obj }))
  judged loads (ok passed) obj h =
      scored-IsOutcome loads passed (reasoning_of obj) (score_of passed obj)
        (score_of-IsScore passed obj)
  judged loads (err (judge_error message)) obj h = tt
  judged loads (err e) obj h = ground arith

  verdict_in-IsOutcome :
      (loads : String → Result (Option (Value W))) (lower : String → String)
      (found : Option (Fields W))
      → IsOutcome loads (verdict_in lower found)
  unfolding verdict_from
  verdict_in-IsOutcome loads lower none = tt
  verdict_in-IsOutcome loads lower (some obj) =
      judged loads (verdict_of lower obj) obj (verdict_of-IsVerdict lower obj)

  loaded-IsOutcome :
      (loads : String → Result (Option (Value W))) (lower : String → String) (s : String)
      (answer : Result (Option (Value W)))
      → loads s ≡ answer
      → IsOutcome loads (map_ok as_object answer >>= verdict_in lower)
  loaded-IsOutcome loads lower s (ok found) h = verdict_in-IsOutcome loads lower (as_object found)
  loaded-IsOutcome loads lower s (err e) h = other-IsOutcome loads e (inr (s, h))

  parsed-IsOutcome :
      (loads : String → Result (Option (Value W))) (lower : String → String) (reply : String)
      → IsOutcome loads (parse_judge_verdict loads lower reply)
  unfolding parse_judge_verdict extract_json_object
  parsed-IsOutcome loads lower reply = found (object_text lower reply)
    where
      found :
          (o : Option String)
          → IsOutcome loads (
              (elim o [ none ↦ ok none | some found ↦ map_ok as_object (loads found) ])
              >>= verdict_in lower)
      found none = tt
      found (some s) = loaded-IsOutcome loads lower s (loads s) refl

  -- What `ProviderClient.complete` promises: a response, or a ProviderError.
  abbrev pub IsAnswer : Result (ProviderResponse W) → Type 0
  IsAnswer (ok response) = Unit
  IsAnswer (err (provider_error class_name message)) = Unit
  IsAnswer (err e) = ⊥

  answered :
      (loads : String → Result (Option (Value W))) (lower : String → String)
      (answer : Result (ProviderResponse W))
      → IsAnswer answer
      → IsOutcome loads (answer >>= λ response. parse_judge_verdict loads lower response.text)
  answered loads lower (ok response) h = parsed-IsOutcome loads lower response.text
  answered loads lower (err (provider_error class_name message)) h = tt
  answered loads lower (err e) h = ground arith

  -- A judge with a visible name and model, and fresh ids that are visible, whose provider answers or
  -- fails with a ProviderError, gives for every example a verdict with a score within [0, 1], a
  -- ProviderError or a JudgeError, or else raises the OverflowError of a score that is too large an
  -- int for a float, or an exception that the reader of JSON has raised on some text and that is
  -- not a JSONDecodeError; nothing else can happen, whatever the reply is.
  pub ask_judge-IsOutcome :
      (loads : String → Result (Option (Value W))) (lower : String → String) (j : LlmJudge W)
      → is_blank j.name ≡ false
      → is_blank j.model ≡ false
      → ((call : ℕ) → is_blank (j.new_id call) ≡ false)
      → ((call : ℕ) (prompt : String) (v : SystemVersion W)
          → IsAnswer (j.provider_client.complete call prompt v))
      → (call : ℕ) (x : LabeledJudgeExample) → IsOutcome loads (ask_judge loads lower j call x)
  unfolding ask_judge new_system_version require_non_empty is_blank
  ask_judge-IsOutcome loads lower j named modelled ids answers call x =
      rw (named, modelled, ids call) (answered loads lower _ (answers call _ _))
