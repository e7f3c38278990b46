-- ===== src/Jobs/Repository.antt =====
-- db/repositories.py: AsyncJobRepository; db/session.py: unit_of_work; mapping.py: async_job_*_orm,
-- which copy every field, so that a row is an AsyncJob that need not be valid.
use Prim.Native.String.{[], ◌∷◌, ◌++◌, count}
use eval_ops.Prelude.{
  ℕ, zero, suc, String, Bool, not, ◌||◌, Option, none, some, ◌==◌, string_eq, if◌then◌else◌,
  contains, ltb,
}
use eval_ops.Result.{Result, ok, err, record_not_found, record_conflict}
use eval_ops.Dict.{Dict, get, set, keys}
use eval_ops.Text.{strip}
use eval_ops.Domain.Enums.{queued, running, completed, failed}
use eval_ops.Domain.Jobs.{AsyncJob, new_async_job}

-- The table of jobs, by id.
abbrev pub Table : Type 0
Table = Dict String AsyncJob

-- Work on an open session: what was written before an exception is still in the session.
abbrev pub Session : Type 0 → Type 0
Session A = Table → Result A × Table

-- `with unit_of_work(factory) as session`: commit on a clean exit, roll back on any exception.
abbrev pub settle : {A : Type 0} → Table → Result A × Table → Result A × Table
settle before (ok a, after) = (ok a, after)
settle before (err e, after) = (err e, before)

unfoldable pub unit_of_work : {A : Type 0} → Session A → Session A
unit_of_work body table = settle table (body table)

-- `text[:n]`
unfoldable pub take_chars : ℕ → String → String
take_chars zero s = []
take_chars (suc n) [] = []
take_chars (suc n) (c ∷ s) = c ∷ take_chars n s

abbrev pub max_error_len : ℕ
max_error_len = 2000

unfoldable pub shorten : String → String
unfolding take_chars
shorten s = if ltb max_error_len (count s) then take_chars 1999 s ++ "…" else s

unfoldable pub bound_error : String → String
unfolding shorten
bound_error text =
    let cleaned = shorten (strip text) in if cleaned == "" then "unknown error" else cleaned

abbrev pub or_else : Option ℕ → ℕ → ℕ
or_else none now = now
or_else (some at) now = at

-- `_row`, and what is done with the row.
unfoldable pub with_row : String → (AsyncJob → Session AsyncJob) → Session AsyncJob
with_row job_id body table = elim (get job_id table) [
  | none ↦ (err (record_not_found "async job not found"), table)
  | some row ↦ body row table
]

-- `integrity` is the database's verdict on a row at a flush: its foreign keys and constraints.
module _ (integrity : AsyncJob → Bool) where
  -- `_flush` of a changed row, and the way back through the mapping, which validates it.
  unfoldable pub flush : AsyncJob → Table → Result AsyncJob × Table
  flush row table = (
    if integrity row then new_async_job row else err (record_conflict "AsyncJob conflicts"),
    set row.id row table,
  )

  unfoldable pub add : AsyncJob → Session AsyncJob
  add job table =
      if contains (keys table) job.id || not (integrity job)
      then (err (record_conflict "AsyncJob conflicts with an existing record"), table)
      else (ok job, set job.id job table)

  unfoldable pub start_row : Option String → Option ℕ → ℕ → AsyncJob → Session AsyncJob
  unfolding flush
  start_row celery_task_id at now row table = elim row.status [
    | queued ↦
        flush
          (record row {
            status = running;
            started_at = some (or_else at now);
            celery_task_id = elim celery_task_id [
              | none ↦ row.celery_task_id
              | some task ↦ some task
            ];
          })
          table
    | _ ↦ (err (record_conflict "only a queued job can start"), table)
  ]

  unfoldable pub complete_row : String → Option ℕ → ℕ → AsyncJob → Session AsyncJob
  unfolding flush
  complete_row evaluation_result_id at now row table = elim row.status [
    | running ↦
        flush
          (record row {
            status = completed;
            evaluation_result_id = some evaluation_result_id;
            error = none;
            completed_at = some (or_else at now);
          })
          table
    | _ ↦ (err (record_conflict "only a running job can complete"), table)
  ]

  unfoldable pub fail_row : String → Option ℕ → ℕ → AsyncJob → Session AsyncJob
  unfolding flush bound_error
  fail_row error at now row table = elim row.status [
    | completed ↦ (err (record_conflict "async job is already terminal"), table)
    | failed ↦ (err (record_conflict "async job is already terminal"), table)
    | _ ↦
        flush
          (record row {
            status = failed;
            error = some (bound_error error);
            evaluation_result_id = none;
            completed_at = some (or_else at now);
          })
          table
  ]

  unfoldable pub mark_running : String → Option String → Option ℕ → ℕ → Session AsyncJob
  unfolding with_row
  mark_running job_id celery_task_id at now = with_row job_id (start_row celery_task_id at now)

  unfoldable pub mark_completed : String → String → Option ℕ → ℕ → Session AsyncJob
  unfolding with_row
  mark_completed job_id evaluation_result_id at now =
      with_row job_id (complete_row evaluation_result_id at now)

  unfoldable pub mark_failed : String → String → Option ℕ → ℕ → Session AsyncJob
  unfolding with_row
  mark_failed job_id error at now = with_row job_id (fail_row error at now)
