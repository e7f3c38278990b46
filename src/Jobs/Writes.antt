-- ===== src/Jobs/Writes.antt =====
-- What the transitions write, and what they give when the database refuses the row.
use eval_ops.Prelude.{ℕ, String, ◌≡◌, Bool, true, false, Option, none, arith, string_eq}
use eval_ops.Result.{ok, err, Error, record_conflict}
use eval_ops.Dict.{set}
use eval_ops.Domain.Enums.{queued, running}
use eval_ops.Domain.Jobs.{AsyncJob, new_async_job}
use eval_ops.Jobs.Repository.{Table, start_row, complete_row, fail_row}
use eval_ops.Jobs.Rows.{started, completed_as, failed_as}

-- What a flush raises when the database refuses the row.
abbrev pub refusal : Error
refusal = record_conflict "AsyncJob conflicts"

module _ (integrity : AsyncJob → Bool) where
  pub start_writes :
      (row : AsyncJob) (task : Option String) (now : ℕ) (table : Table)
      → row.status ≡ queued
      → integrity (started row task now) ≡ true
      → new_async_job (started row task now) ≡ ok (started row task now)
      → start_row integrity task none now row table
        ≡ (ok (started row task now), set row.id (started row task now) table)
  unfolding start_row
  start_writes row task now table q a v = ground (arith, a)

  pub start_refused :
      (row : AsyncJob) (task : Option String) (now : ℕ) (table : Table)
      → row.status ≡ queued
      → integrity (started row task now) ≡ false
      → start_row integrity task none now row table
        ≡ (err refusal, set row.id (started row task now) table)
  unfolding start_row
  start_refused row task now table q a = ground (arith, a)

  pub complete_writes :
      (row : AsyncJob) (result : String) (now : ℕ) (table : Table)
      → row.status ≡ running
      → integrity (completed_as row result now) ≡ true
      → new_async_job (completed_as row result now) ≡ ok (completed_as row result now)
      → complete_row integrity result none now row table
        ≡ (ok (completed_as row result now), set row.id (completed_as row result now) table)
  unfolding complete_row
  complete_writes row result now table q a v = ground (arith, a)

  pub complete_refused :
      (row : AsyncJob) (result : String) (now : ℕ) (table : Table)
      → row.status ≡ running
      → integrity (completed_as row result now) ≡ false
      → complete_row integrity result none now row table
        ≡ (err refusal, set row.id (completed_as row result now) table)
  unfolding complete_row
  complete_refused row result now table q a = ground (arith, a)

  pub fail_writes :
      (row : AsyncJob) (error : String) (now : ℕ) (table : Table)
      → row.status ≡ running
      → integrity (failed_as row error now) ≡ true
      → new_async_job (failed_as row error now) ≡ ok (failed_as row error now)
      → fail_row integrity error none now row table
        ≡ (ok (failed_as row error now), set row.id (failed_as row error now) table)
  unfolding fail_row
  fail_writes row error now table q a v = ground (arith, a)

  pub fail_refused :
      (row : AsyncJob) (error : String) (now : ℕ) (table : Table)
      → row.status ≡ running
      → integrity (failed_as row error now) ≡ false
      → fail_row integrity error none now row table
        ≡ (err refusal, set row.id (failed_as row error now) table)
  unfolding fail_row
  fail_refused row error now table q a = ground (arith, a)
