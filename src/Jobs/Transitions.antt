-- ===== src/Jobs/Transitions.antt =====
-- The lifecycle of a job: queued → running → completed or failed, and queued → failed.
use eval_ops.Prelude.{
  ℕ, String, ◌≡◌, refl, inl, inr, Bool, Option, some, arith, ◌==◌, string_eq, if◌then◌else◌,
  Option-cases, Bool-cases, subst, sym, ap, ◌∙◌,
}
use eval_ops.Result.{Result, ok, err}
use eval_ops.Dict.{get, set, get-set}
use eval_ops.Domain.Enums.{JobStatus, queued, running, completed, failed}
use eval_ops.Domain.Jobs.{AsyncJob, new_async_job}
use eval_ops.Jobs.Repository.{
  Table, Session, unit_of_work, flush, start_row, complete_row, fail_row, mark_running,
  mark_completed, mark_failed, with_row, settle,
}

infix 40 ◌⟶◌
pub data ◌⟶◌ : JobStatus → JobStatus → Type 0 where
  start : queued ⟶ running
  complete : running ⟶ completed
  fail : running ⟶ failed
  fail_early : queued ⟶ failed

pub new_async_job-eq : (j j' : AsyncJob) → new_async_job j ≡ ok j' → j ≡ j'
unfolding new_async_job
new_async_job-eq j j' h = ground arith

-- The three transitions of the repository.
pub data Mark : Type 0 where
  run : Option String → Option ℕ → ℕ → Mark
  finish : String → Option ℕ → ℕ → Mark
  give_up : String → Option ℕ → ℕ → Mark

settled :
    {A : Type 0} (before after : Table) (out : Result A × Table) (a : A)
    → settle before out ≡ (ok a, after)
    → out ≡ (ok a, after)
settled before after (ok b, t) a h = h
settled before after (err e, t) a h = cc (ap (λ p. p.0) h)

with_row_parts :
    (id : String) (body : AsyncJob → Session AsyncJob) (job : AsyncJob) (table table' : Table)
    → with_row id body table ≡ (ok job, table')
    → (row : AsyncJob) × (get id table ≡ some row) × (body row table ≡ (ok job, table'))
unfolding with_row
with_row_parts id body job table table' h = elim (Option-cases (get id table)) [
  | inl e ↦ cc (ap (λ p. p.0) (rw (e, with_row) at h))
  | inr (row, e) ↦ (row, e, rw (e, with_row) at h)
]

module _ (integrity : AsyncJob → Bool) where
  abbrev pub apply_row : Mark → AsyncJob → Session AsyncJob
  apply_row (run task at now) = start_row integrity task at now
  apply_row (finish result at now) = complete_row integrity result at now
  apply_row (give_up error at now) = fail_row integrity error at now

  abbrev pub apply : Mark → String → Session AsyncJob
  apply (run task at now) id = mark_running integrity id task at now
  apply (finish result at now) id = mark_completed integrity id result at now
  apply (give_up error at now) id = mark_failed integrity id error at now

  record Moved (row job : AsyncJob) (table table' : Table) : Type 0 where
    step : row.status ⟶ job.status
    same_id : job.id ≡ row.id
    valid : new_async_job job ≡ ok job
    written : table' ≡ set row.id job table

  flush_parts :
      (row job : AsyncJob) (table table' : Table)
      → flush integrity row table ≡ (ok job, table')
      → (new_async_job row ≡ ok job) × (table' ≡ set row.id row table)
  unfolding flush
  flush_parts row job table table' h = elim (Bool-cases (integrity row)) [
    | inl e ↦ (ap (λ p. p.0) (rw e at h), ap (λ p. p.1) (sym h))
    | inr e ↦ cc (ap (λ p. p.0) (rw e at h))
  ]

  flush-Moved :
      (row job row' : AsyncJob) (table table' : Table)
      → row.status ⟶ row'.status
      → row'.id ≡ row.id
      → flush integrity row' table ≡ (ok job, table')
      → Moved row job table table'
  flush-Moved row job row' table table' s i h =
      let (e, w) = flush_parts row' job table table' h in
      let same = new_async_job-eq row' job e in
      record {
        step = subst (λ r. row.status ⟶ r.status) same s;
        same_id = ap (λ r. r.id) (sym same) ∙ i;
        valid = subst (λ r. new_async_job r ≡ ok job) same e;
        written = w ∙ (ap (λ k. set k row' table) i ∙ ap (λ r. set row.id r table) same);
      }

  start_row-Moved :
      (task : Option String) (at : Option ℕ) (now : ℕ) (row job : AsyncJob) (table table' : Table)
      (s : JobStatus)
      → row.status ≡ s
      → start_row integrity task at now row table ≡ (ok job, table')
      → Moved row job table table'
  unfolding start_row
  start_row-Moved task at now row job table table' queued e h =
      flush-Moved row job _ table table' (subst (λ s. s ⟶ running) (sym e) start) refl (rw e at h)
  start_row-Moved task at now row job table table' _ e h = cc (rw e at h)

  complete_row-Moved :
      (result : String) (at : Option ℕ) (now : ℕ) (row job : AsyncJob) (table table' : Table)
      (s : JobStatus)
      → row.status ≡ s
      → complete_row integrity result at now row table ≡ (ok job, table')
      → Moved row job table table'
  unfolding complete_row
  complete_row-Moved result at now row job table table' queued e h = cc (rw e at h)
  complete_row-Moved result at now row job table table' running e h =
      flush-Moved row job _ table table' (subst (λ s. s ⟶ completed) (sym e) complete) refl
        (rw e at h)
  complete_row-Moved result at now row job table table' _ e h = cc (rw e at h)

  fail_row-Moved :
      (error : String) (at : Option ℕ) (now : ℕ) (row job : AsyncJob) (table table' : Table)
      (s : JobStatus)
      → row.status ≡ s
      → fail_row integrity error at now row table ≡ (ok job, table')
      → Moved row job table table'
  unfolding fail_row
  fail_row-Moved error at now row job table table' queued e h =
      flush-Moved row job _ table table' (subst (λ s. s ⟶ failed) (sym e) fail_early) refl
        (rw e at h)
  fail_row-Moved error at now row job table table' running e h =
      flush-Moved row job _ table table' (subst (λ s. s ⟶ failed) (sym e) fail) refl (rw e at h)
  fail_row-Moved error at now row job table table' completed e h = cc (rw e at h)
  fail_row-Moved error at now row job table table' failed e h = cc (rw e at h)

  apply_row-Moved :
      (m : Mark) (row job : AsyncJob) (table table' : Table)
      → apply_row m row table ≡ (ok job, table')
      → Moved row job table table'
  apply_row-Moved (run task at now) row job table table' =
      start_row-Moved task at now row job table table' row.status refl
  apply_row-Moved (finish result at now) row job table table' =
      complete_row-Moved result at now row job table table' row.status refl
  apply_row-Moved (give_up error at now) row job table table' =
      fail_row-Moved error at now row job table table' row.status refl

  apply_parts :
      (m : Mark) (id : String) (job : AsyncJob) (table table' : Table)
      → apply m id table ≡ (ok job, table')
      → (row : AsyncJob) × (get id table ≡ some row) × (apply_row m row table ≡ (ok job, table'))
  unfolding mark_running mark_completed mark_failed
  apply_parts (run task at now) id job table table' =
      with_row_parts id (start_row integrity task at now) job table table'
  apply_parts (finish result at now) id job table table' =
      with_row_parts id (complete_row integrity result at now) job table table'
  apply_parts (give_up error at now) id job table table' =
      with_row_parts id (fail_row integrity error at now) job table table'

  -- A transition that is committed is a step of the lifecycle: it moves the job along one of the
  -- four arrows, stores a row that passes the entity's own checks, and changes no other row.
  pub mark_is_step :
      (m : Mark) (id : String) (job : AsyncJob) (table table' : Table)
      → unit_of_work (apply m id) table ≡ (ok job, table')
      → (row : AsyncJob) × (get id table ≡ some row)
        × (row.status ⟶ job.status)
        × (new_async_job job ≡ ok job)
        × ((j : String) → get j table' ≡ (if row.id == j then some job else get j table))
  unfolding unit_of_work
  mark_is_step m id job table table' h =
      let (row, found, q) =
        apply_parts m id job table table' (settled table table' (apply m id table) job h) in
      let moved = apply_row-Moved m row job table table' q in
      (
        row,
        found,
        moved.step,
        moved.valid,
        λ j. ap (get j) moved.written ∙ get-set row.id j job table,
      )
