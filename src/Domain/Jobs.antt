-- ===== src/Domain/Jobs.antt =====
-- domain/entities.py: AsyncJob
use eval_ops.Prelude.{
  ℕ, String, Bool, false, not, ◌||◌, Option, none, some, is_none, is_some, ltb, ◌==◌, string_eq,
}
use eval_ops.Result.{Result, ok, domain_error, ◌>>◌, raise_if}
use eval_ops.Domain.Enums.{JobStatus, queued, running, completed, failed}
use eval_ops.Domain.Values.{require_non_empty, blank_when_set}

-- Times are timezone-aware instants, on one scale: a `datetime` that is not aware is refused.
pub record AsyncJob : Type 0 where
  pub experiment_id : String
  pub status : JobStatus
  pub celery_task_id : Option String
  pub evaluation_result_id : Option String
  pub error : Option String
  pub id : String
  pub created_at : ℕ
  pub started_at : Option ℕ
  pub completed_at : Option ℕ

-- `a is not None and b is not None and a < b`
abbrev pub before : Option ℕ → Option ℕ → Bool
before (some a) (some b) = ltb a b
before (some a) none = false
before none b = false

-- The truth value of an optional text: `None` and the empty text are false.
abbrev pub truthy : Option String → Bool
truthy none = false
truthy (some s) = not (s == "")

-- The checks that tie the status to the fields that are set.
unfoldable pub check_status : AsyncJob → JobStatus → Result (Unit {0})
check_status j queued =
    raise_if
      (is_some j.started_at
        || is_some j.completed_at
        || truthy j.error
        || truthy j.evaluation_result_id)
      (domain_error "a queued AsyncJob has no start/completion/error/result")
check_status j running = do
  raise_if (is_none j.started_at) (domain_error "a running AsyncJob has started_at")
  raise_if (is_some j.completed_at || truthy j.error || truthy j.evaluation_result_id)
      (domain_error "a running AsyncJob has no completion/error/result")
check_status j completed = do
  raise_if (is_none j.started_at || is_none j.completed_at || is_none j.evaluation_result_id)
      (domain_error "a completed AsyncJob has started_at, completed_at and evaluation_result_id")
  raise_if (is_some j.error) (domain_error "a completed AsyncJob has no error")
check_status j failed = do
  raise_if (is_none j.completed_at || is_none j.error)
      (domain_error "a failed AsyncJob has completed_at and an error message")
  raise_if (is_some j.evaluation_result_id)
      (domain_error "a failed AsyncJob has no evaluation_result_id")

unfoldable pub new_async_job : AsyncJob → Result AsyncJob
unfolding require_non_empty check_status
new_async_job j = do
  require_non_empty j.experiment_id "AsyncJob.experiment_id"
  require_non_empty j.id "AsyncJob.id"
  raise_if (before j.started_at (some j.created_at))
      (domain_error "AsyncJob.started_at is before created_at")
  raise_if (before j.completed_at j.started_at)
      (domain_error "AsyncJob.completed_at is before started_at")
  raise_if (blank_when_set j.error) (domain_error "AsyncJob.error must be non-blank when set")
  check_status j j.status
  ok j
