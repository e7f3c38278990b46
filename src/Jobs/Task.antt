-- ===== src/Jobs/Task.antt =====
-- What becomes of a queued job that a worker takes up.
use eval_ops.Prelude.{
  ℕ, ◌≤◌, String, ◌≡◌, refl, Bool, true, false, Option, none, some, string_eq, sym, ap, ◌∙◌, subst,
  ◌⊎◌, inl, inr, Bool-cases,
}
use text.Mathlib.TextPositions.{eq_refl}
use eval_ops.Result.{Result, ok, err, Error}
use eval_ops.Dict.{get, set, get-set}
use eval_ops.Domain.Enums.{queued, running, completed, failed}
use eval_ops.Domain.Jobs.{AsyncJob, new_async_job}
use eval_ops.Jobs.Repository.{Table, settle, unit_of_work, start_row, mark_running, bound_error}
use eval_ops.Jobs.Worker.{relay, start_job, finish_job, evaluate_job, execute_experiment_task}
use eval_ops.Jobs.Rows.{
  started, completed_as, failed_as, started_valid, completed_valid, failed_valid,
}
use eval_ops.Jobs.Writes.{
  refusal, start_writes, start_refused, complete_writes, complete_refused, fail_writes,
  fail_refused,
}
use eval_ops.Jobs.Lifecycle.{found_row}
use eval_ops.Jobs.Transitions.{run, finish, give_up}

stored :
    (id : String) (row job : AsyncJob) (table : Table)
    → row.id ≡ id
    → get id (set row.id job table) ≡ some job
stored id row job table e = get-set row.id id job table ∙ rw (e, eq_refl id)

module _ (integrity : AsyncJob → Bool) (describe : Error → String) where
  start_steps :
      (id : String) (row : AsyncJob) (task : Option String) (now : ℕ) (table : Table)
      → get id table ≡ some row
      → new_async_job row ≡ ok row
      → start_job integrity describe id task now table
        ≡ mark_running integrity id task none now table
  unfolding start_job
  start_steps id row task now table e v = rw (e, start_job, v)

  begun :
      (id : String) (row : AsyncJob) (task : Option String) (now : ℕ) (table : Table)
      (written : Result AsyncJob × Table)
      → get id table ≡ some row
      → new_async_job row ≡ ok row
      → start_row integrity task none now row table ≡ written
      → unit_of_work (start_job integrity describe id task now) table ≡ settle table written
  unfolding unit_of_work
  begun id row task now table written e v w = ap (settle table) (
      start_steps id row task now table e v
      ∙ (found_row integrity (run task none now) id row table e ∙ w))

  -- The row that the task writes at its end.
  abbrev pub finished : AsyncJob → Result String → ℕ → AsyncJob
  finished row (ok result) now = completed_as row result now
  finished row (err e) now = failed_as row (describe e) now

  -- The job has ended as the evaluation has: completed and linked to its result, or failed with its
  -- error, in bounded form, and the evaluation's own exception raised again.
  abbrev pub Ended : String → Result String → Result String × Table → Type 0
  Ended id (ok result) (answer, table) =
      (job : AsyncJob) × (answer ≡ ok result)
      × (get id table ≡ some job)
      × (job.status ≡ completed)
      × (job.evaluation_result_id ≡ some result)
  Ended id (err e) (answer, table) =
      (job : AsyncJob) × (answer ≡ err e)
      × (get id table ≡ some job)
      × (job.status ≡ failed)
      × (job.error ≡ some (bound_error (describe e)))

  -- From a running row: the job has ended, or, if the database refuses the row written at the end,
  -- it is left as it was.
  abbrev pub Closed : String → AsyncJob → Result String → ℕ → Table → Result String × Table → Type 0
  Closed id row answer later table end =
      ((integrity (finished row answer later) ≡ true) × Ended id answer end)
      ⊎ ((integrity (finished row answer later) ≡ false) × (end ≡ (err refusal, table)))

  ended :
      (id : String) (row : AsyncJob) (answer : Result String) (begin now : ℕ) (table : Table)
      → get id table ≡ some row
      → row.id ≡ id
      → new_async_job row ≡ ok row
      → row.status ≡ running
      → row.started_at ≡ some begin
      → begin ≤ now
      → Closed id row answer now table (finish_job integrity describe id answer now table)
  unfolding finish_job unit_of_work
  ended id row (ok result) begin now table e i v q s le =
      elim (Bool-cases (integrity (completed_as row result now))) [
        | inl a ↦
            let valid = completed_valid row result begin now v q s le in
            let done =
              found_row integrity (finish result none now) id row table e
              ∙ complete_writes integrity row result now table q a valid in
            inl (
              a,
              subst (Ended id (ok result)) (sym (ap (relay (ok result)) (ap (settle table) done))) (
                completed_as row result now,
                refl,
                stored id row (completed_as row result now) table i,
                refl,
                refl,
              ),
            )
        | inr a ↦
            let done =
              found_row integrity (finish result none now) id row table e
              ∙ complete_refused integrity row result now table q a in
            inr (a, ap (relay (ok result)) (ap (settle table) done))
      ]
  ended id row (err e') begin now table e i v q s le =
      elim (Bool-cases (integrity (failed_as row (describe e') now))) [
        | inl a ↦
            let valid = failed_valid row (describe e') begin now v s le in
            let done =
              found_row integrity (give_up (describe e') none now) id row table e
              ∙ fail_writes integrity row (describe e') now table q a valid in
            inl (
              a,
              subst (Ended id (err e')) (sym (ap (relay (err e')) (ap (settle table) done))) (
                failed_as row (describe e') now,
                refl,
                stored id row (failed_as row (describe e') now) table i,
                refl,
                refl,
              ),
            )
        | inr a ↦
            let done =
              found_row integrity (give_up (describe e') none now) id row table e
              ∙ fail_refused integrity row (describe e') now table q a in
            inr (a, ap (relay (err e')) (ap (settle table) done))
      ]

  -- A queued job that a worker takes up, on a clock that does not run backwards: if the database
  -- accepts the row that sets it running and the row written at the end, it ends as the evaluation
  -- does, completed and linked to the result, or failed with the error in bounded form and the
  -- evaluation's own exception raised again. If the database refuses the first row, the task raises
  -- that conflict and the table is as it was; if it refuses the last, the task raises that conflict
  -- and the job is left running.
  pub task_ends :
      (evaluate : String → Result String) (id : String) (row : AsyncJob) (task : Option String)
      (now later : ℕ) (table : Table)
      → get id table ≡ some row
      → row.id ≡ id
      → new_async_job row ≡ ok row
      → row.status ≡ queued
      → row.created_at ≤ now
      → now ≤ later
      → ((integrity (started row task now) ≡ true)
          × Closed id
              (started row task now)
              (evaluate row.experiment_id)
              later
              (set row.id (started row task now) table)
              (execute_experiment_task integrity describe evaluate id task now later table))
        ⊎ ((integrity (started row task now) ≡ false)
            × (execute_experiment_task integrity describe evaluate id task now later table
                ≡ (err refusal, table)))
  unfolding execute_experiment_task
  task_ends evaluate id row task now later table e i v q le le' =
      elim (Bool-cases (integrity (started row task now))) [
        | inl a ↦
            let row' = started row task now in
            let table' = set row.id row' table in
            let valid = started_valid row task now v q le in
            let start = start_writes integrity row task now table q a valid in
            inl (
              a,
              subst (Closed id row' (evaluate row.experiment_id) later table')
                  (sym (
                    ap (evaluate_job integrity describe evaluate id later)
                      (begun id row task now table (ok row', table') e v start)))
                  (ended id row' (evaluate row.experiment_id) now later table'
                    (stored id row row' table i) i valid refl refl le'),
            )
        | inr a ↦
            let start = start_refused integrity row task now table q a in
            inr (
              a,
              ap (evaluate_job integrity describe evaluate id later) (
                  begun id row task now table (err refusal, set row.id (started row task now) table)
                    e v start),
            )
      ]
