-- ===== src/Tests/Jobs.antt =====
-- Runs of the lifecycle of a job.
use eval_ops.Prelude.{
  ◌⊎◌, false, String, ◌≡◌, refl, Bool, true, false, some, none, [], ◌∷◌, ◌==◌, string_eq,
  if◌then◌else◌, arith, inl,
}
use eval_ops.Result.{Result, ok, err, Error, other_error, record_conflict}
use eval_ops.Dict.{get, set}
use eval_ops.Text.{is_blank}
use eval_ops.Domain.Enums.{queued, running, completed}
use eval_ops.Domain.Jobs.{AsyncJob, new_async_job}
use eval_ops.Jobs.Repository.{
  Table, unit_of_work, bound_error, start_row, mark_running, with_row, flush,
}
use eval_ops.Jobs.Worker.{execute_experiment_task}
use eval_ops.Jobs.Transitions.{◌⟶◌, run, give_up, apply, mark_is_step}
use eval_ops.Jobs.Lifecycle.{terminal_absorbs}
use eval_ops.Jobs.Rows.{started}
use eval_ops.Jobs.Writes.{refusal}
use eval_ops.Jobs.Task.{Closed, task_ends}
use eval_ops.Jobs.Bounded.{bound_error-is_blank}

abbrev accepts : AsyncJob → Bool
accepts row = true

abbrev describe : Error → String
describe e = "ConfigError: no such dataset"

abbrev waiting : AsyncJob
waiting = record {
  experiment_id = "x";
  status = queued;
  celery_task_id = none;
  evaluation_result_id = none;
  error = none;
  id = "j";
  created_at = 3;
  started_at = none;
  completed_at = none;
}

abbrev begun : AsyncJob
begun = record waiting { status = running; started_at = some 5; celery_task_id = some "t" }

abbrev done : AsyncJob
done = record begun { status = completed; evaluation_result_id = some "r"; completed_at = some 7 }

abbrev with_job : AsyncJob → Table
with_job job = ("j", job) ∷ []

waiting_valid : new_async_job waiting ≡ ok waiting
unfolding new_async_job is_blank
waiting_valid = refl

committed :
    unit_of_work (apply accepts (run (some "t") none 5) "j") (with_job waiting)
    ≡ (ok begun, with_job begun)
unfolding unit_of_work mark_running with_row start_row flush new_async_job is_blank
committed = refl

mark_is_step_example :
    (row : AsyncJob) × (get "j" (with_job waiting) ≡ some row)
    × (row.status ⟶ begun.status)
    × (new_async_job begun ≡ ok begun)
    × ((j : String)
        → get j (with_job begun) ≡ (if row.id == j then some begun else get j (with_job waiting)))
mark_is_step_example =
    mark_is_step accepts (run (some "t") none 5) "j" begun (with_job waiting) (with_job begun)
      committed

terminal_absorbs_example :
    (msg : String) × (unit_of_work (apply accepts (give_up "late" none 9) "j") (with_job done)
      ≡ (err (record_conflict msg), with_job done))
terminal_absorbs_example =
    terminal_absorbs accepts (give_up "late" none 9) "j" done (with_job done) refl (inl refl)

abbrev evaluate : String → Result String
evaluate experiment_id = err (other_error "ConfigError")

task_ends_example :
    ((accepts (started waiting (some "t") 5) ≡ true)
      × Closed accepts describe "j"
          (started waiting (some "t") 5)
          (evaluate "x")
          7
          (set "j" (started waiting (some "t") 5) (with_job waiting))
          (execute_experiment_task accepts describe evaluate "j" (some "t") 5 7 (with_job waiting)))
    ⊎ ((accepts (started waiting (some "t") 5) ≡ false)
        × (execute_experiment_task accepts describe evaluate "j" (some "t") 5 7 (with_job waiting)
            ≡ (err refusal, with_job waiting)))
task_ends_example =
    task_ends accepts describe evaluate "j" waiting (some "t") 5 7 (with_job waiting) refl refl
      waiting_valid refl (omega arith) (omega arith)

bound_error-is_blank_example : is_blank (bound_error "   ") ≡ false
bound_error-is_blank_example = bound_error-is_blank "   "
