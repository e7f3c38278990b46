-- ===== src/Jobs/Lifecycle.antt =====
-- A job that has ended never changes.
use eval_ops.Prelude.{String, ◌≡◌, ◌⊎◌, inl, inr, Bool, Option, none, some, string_eq, ap, ◌∙◌}
use eval_ops.Result.{err, record_conflict, record_not_found}
use eval_ops.Dict.{get}
use eval_ops.Domain.Enums.{JobStatus, completed, failed}
use eval_ops.Domain.Jobs.{AsyncJob}
use eval_ops.Jobs.Repository.{
  Table, Session, settle, unit_of_work, start_row, complete_row, fail_row, mark_running,
  mark_completed, mark_failed, with_row,
}
use eval_ops.Jobs.Transitions.{Mark, run, finish, give_up, apply, apply_row}

abbrev pub IsTerminal : JobStatus → Type 0
IsTerminal s = (s ≡ completed) ⊎ (s ≡ failed)

with_row_found :
    (id : String) (body : AsyncJob → Session AsyncJob) (row : AsyncJob) (table : Table)
    → get id table ≡ some row
    → with_row id body table ≡ body row table
unfolding with_row
with_row_found id body row table e = go (get id table) e
  where
    go :
        (o : Option AsyncJob)
        → o ≡ some row
        → elim o [
          | none ↦ (err (record_not_found "async job not found"), table)
          | some r ↦ body r table
        ]
          ≡ body row table
    go o h = rw h

module _ (integrity : AsyncJob → Bool) where
  refused_row :
      (m : Mark) (row : AsyncJob) (table : Table)
      → IsTerminal row.status
      → (msg : String) × (apply_row integrity m row table ≡ (err (record_conflict msg), table))
  unfolding start_row complete_row fail_row
  refused_row (run task at now) row table (inl e) = ("only a queued job can start", rw e)
  refused_row (run task at now) row table (inr e) = ("only a queued job can start", rw e)
  refused_row (finish result at now) row table (inl e) = ("only a running job can complete", rw e)
  refused_row (finish result at now) row table (inr e) = ("only a running job can complete", rw e)
  refused_row (give_up error at now) row table (inl e) = ("async job is already terminal", rw e)
  refused_row (give_up error at now) row table (inr e) = ("async job is already terminal", rw e)

  pub found_row :
      (m : Mark) (id : String) (row : AsyncJob) (table : Table)
      → get id table ≡ some row
      → apply integrity m id table ≡ apply_row integrity m row table
  unfolding mark_running mark_completed mark_failed
  found_row (run task at now) id row table =
      with_row_found id (start_row integrity task at now) row table
  found_row (finish result at now) id row table =
      with_row_found id (complete_row integrity result at now) row table
  found_row (give_up error at now) id row table =
      with_row_found id (fail_row integrity error at now) row table

  -- A job that is completed or failed stays as it is: each transition raises RecordConflict and
  -- leaves the whole table unchanged.
  pub terminal_absorbs :
      (m : Mark) (id : String) (row : AsyncJob) (table : Table)
      → get id table ≡ some row
      → IsTerminal row.status
      → (msg : String) × (unit_of_work (apply integrity m id) table
          ≡ (err (record_conflict msg), table))
  unfolding unit_of_work
  terminal_absorbs m id row table e t =
      let (msg, r) = refused_row m row table t in
      (msg, ap (settle table) (found_row m id row table e ∙ r))
