-- ===== src/Jobs/Worker.antt =====
-- worker/tasks.py: `enqueue_experiment_run` and `execute_experiment_task`. Log events and the
-- correlation context are left out. The times are those that the calls of `utcnow` return.
use Prim.Native.String.{◌++◌}
use eval_ops.Prelude.{ℕ, String, Bool, Option, none, some, string_eq}
use eval_ops.Result.{Result, ok, err, Error, record_not_found, other_error}
use eval_ops.Dict.{get}
use eval_ops.Domain.Enums.{queued}
use eval_ops.Domain.Jobs.{AsyncJob, new_async_job}
use eval_ops.Jobs.Repository.{
  Table, Session, unit_of_work, add, mark_running, mark_completed, mark_failed,
}

-- Go on with `answer`, unless the unit of work has raised.
abbrev pub relay : {A B : Type 0} → Result B → Result A × Table → Result B × Table
relay answer (ok _, table) = (answer, table)
relay answer (err e, table) = (err e, table)

-- The text of an exception, `f"{type(exc).__name__}: {exc}"`, is an argument.
module _ (integrity : AsyncJob → Bool) (describe : Error → String) where
  -- `AsyncJob(experiment_id=experiment_id)`
  abbrev pub fresh_job : String → String → ℕ → AsyncJob
  fresh_job id experiment_id now = record {
    experiment_id = experiment_id;
    status = queued;
    celery_task_id = none;
    evaluation_result_id = none;
    error = none;
    id = id;
    created_at = now;
    started_at = none;
    completed_at = none;
  }

  -- What follows the commit of the queued job: the answer of the broker.
  unfoldable pub dispatched : AsyncJob → Result (Unit {0}) → ℕ → Session AsyncJob
  dispatched job (ok _) now table = (ok job, table)
  dispatched job (err e) now table =
      relay (err (other_error "DispatchError: recorded but could not be dispatched")) (
        unit_of_work
          (mark_failed integrity job.id ("dispatch to the task broker failed: " ++ describe e) none
            now)
          table)

  unfoldable pub enqueue_job : AsyncJob → Result (Unit {0}) → ℕ → Session AsyncJob
  unfolding dispatched
  enqueue_job job broker later table =
      let (added, table') = unit_of_work (add integrity job) table in
      elim added [ ok _ ↦ dispatched job broker later table' | err e ↦ (err e, table') ]

  unfoldable pub enqueue_experiment_run :
      String → String → Result (Unit {0}) → ℕ → ℕ → Session AsyncJob
  unfolding enqueue_job
  enqueue_experiment_run id experiment_id broker now later table =
      elim (new_async_job (fresh_job id experiment_id now)) [
        | ok job ↦ enqueue_job job broker later table
        | err e ↦ (err e, table)
      ]

  -- `jobs.get(job_id)`, then `jobs.mark_running(...)`, in one unit of work; gives the experiment.
  unfoldable pub start_job : String → Option String → ℕ → Session AsyncJob
  start_job job_id celery_task_id now table = elim (get job_id table) [
    | none ↦ (err (record_not_found "async job not found"), table)
    | some row ↦ elim (new_async_job row) [
      | ok job ↦ mark_running integrity job_id celery_task_id none now table
      | err e ↦ (err e, table)
    ]
  ]

  -- What follows the evaluation: its result's id, or the exception that it raised.
  unfoldable pub finish_job : String → Result String → ℕ → Session String
  finish_job job_id (ok result_id) now table =
      relay (ok result_id) (unit_of_work (mark_completed integrity job_id result_id none now) table)
  finish_job job_id (err e) now table =
      relay (err e) (unit_of_work (mark_failed integrity job_id (describe e) none now) table)

  -- `evaluate` stands for `ExecutionOptions.model_validate(...)` and `execute_experiment_in_uow`,
  -- which work on other tables: from the experiment's id, the id of the stored result.
  module _ (evaluate : String → Result String) (job_id : String) where
    -- What follows the unit of work that has set the job running.
    abbrev pub evaluate_job : ℕ → Result AsyncJob × Table → Result String × Table
    evaluate_job later (ok job, table) = finish_job job_id (evaluate job.experiment_id) later table
    evaluate_job later (err e, table) = (err e, table)

    unfoldable pub execute_experiment_task : Option String → ℕ → ℕ → Session String
    unfolding start_job finish_job
    execute_experiment_task celery_task_id now later table =
        evaluate_job later (unit_of_work (start_job job_id celery_task_id now) table)
