-- ===== src/Jobs/Rows.antt =====
-- The rows that the transitions write pass the entity's own checks.
use eval_ops.Prelude.{ℕ, ◌≤◌, String, ◌≡◌, Option, none, some, arith, string_eq}
use eval_ops.Result.{ok}
use eval_ops.Domain.Enums.{queued, running, completed, failed}
use eval_ops.Domain.Jobs.{AsyncJob, new_async_job}
use eval_ops.Jobs.Repository.{bound_error}
use eval_ops.Jobs.Bounded.{bound_error-is_blank}

abbrev pub started : AsyncJob → Option String → ℕ → AsyncJob
started row task now = record row {
  status = running;
  started_at = some now;
  celery_task_id = elim task [ none ↦ row.celery_task_id | some t ↦ some t ];
}

abbrev pub completed_as : AsyncJob → String → ℕ → AsyncJob
completed_as row result now = record row {
  status = completed;
  evaluation_result_id = some result;
  error = none;
  completed_at = some now;
}

abbrev pub failed_as : AsyncJob → String → ℕ → AsyncJob
failed_as row error now = record row {
  status = failed;
  error = some (bound_error error);
  evaluation_result_id = none;
  completed_at = some now;
}

pub started_valid :
    (row : AsyncJob) (task : Option String) (now : ℕ)
    → new_async_job row ≡ ok row
    → row.status ≡ queued
    → row.created_at ≤ now
    → new_async_job (started row task now) ≡ ok (started row task now)
unfolding new_async_job
started_valid row task now v q le = ground arith

pub completed_valid :
    (row : AsyncJob) (result : String) (start now : ℕ)
    → new_async_job row ≡ ok row
    → row.status ≡ running
    → row.started_at ≡ some start
    → start ≤ now
    → new_async_job (completed_as row result now) ≡ ok (completed_as row result now)
unfolding new_async_job
completed_valid row result start now v q s le = ground arith

pub failed_valid :
    (row : AsyncJob) (error : String) (start now : ℕ)
    → new_async_job row ≡ ok row
    → row.started_at ≡ some start
    → start ≤ now
    → new_async_job (failed_as row error now) ≡ ok (failed_as row error now)
unfolding new_async_job
failed_valid row error start now v s le = ground (arith, bound_error-is_blank error)
