-- ===== src/Tasks/Jobs/Reached.antt =====
-- src/services/image_task_service.rs: what holds after any sequence of calls and of runs of tasks.
use model2api.Common.{String, inl, inr, Bool-cases, Option-cases, ◌==◌, trim, ℤ}
use model2api.Common.Maps.{get}
use model2api.Json.{Value, Host}
use model2api.Tasks.{Times, Clock, task_key, owner_id}
use model2api.Tasks.Stored.{cleanup_tasks}
use model2api.Tasks.Service.{Request, submit, submit_named, list_tasks, cleanup, changed}
use model2api.Tasks.Jobs.{Sys, Step, submits, starts, ends, lists, cleans, Run, here, next, spawned}
use model2api.Tasks.Jobs.Tracked.{
  Fit, cleanup-Fit, start-Fit, end-Fit, submit_new-Fit, changed_tasks,
}

-- Every task that is not finished has its run, in the phase its status tells, and every run has its
-- task.
abbrev pub IsTracked : Sys → Type 0
IsTracked s = Fit s.jobs s.inner.tasks

module _ (h : Host) (times : Times) (fmt_unix : ℤ → String) (retention : ℤ) where
  changed-Fit :
      (k : Clock) (s : Sys)
      → IsTracked s
      → let r = cleanup_tasks times k retention s.inner.tasks in
        Fit s.jobs (changed r.1 r.0 s.inner).tasks
  changed-Fit k s f =
      let r = cleanup_tasks times k retention s.inner.tasks in
      rw (changed_tasks r.1 r.0 s.inner) (cleanup-Fit times k retention s.jobs s.inner.tasks f)

  named-Fit :
      (k : Clock) (identity : Value) (id mode : String) (request : Request) (s : Sys)
      → IsTracked s
      → let r = submit_named h times k retention identity id mode request s.inner in
        Fit (spawned r.1 s.jobs) r.2.tasks
  unfolding submit_named get
  named-Fit k identity id mode request s f =
      let owner = owner_id h times identity in
      let kept = (cleanup_tasks times k retention s.inner.tasks).0 in
      elim (Option-cases (get (task_key owner id) kept)) [
        | inl absent ↦
            rw (submit_named, absent)
              (submit_new-Fit times k identity id owner mode request
                (record s.inner { tasks = kept }) s.jobs
                (cleanup-Fit times k retention s.jobs s.inner.tasks f) absent)
        | inr (old, held) ↦ rw (submit_named, held) (changed-Fit k s f)
      ]

  submit-Fit :
      (k : Clock) (identity : Value) (id mode : String) (request : Request) (s : Sys)
      → IsTracked s
      → let r = submit h times k retention identity id mode request s.inner in
        Fit (spawned r.1 s.jobs) r.2.tasks
  unfolding submit
  submit-Fit k identity id mode request s f = elim (Bool-cases (trim id == "")) [
    | inl blank ↦ rw blank f
    | inr named ↦ rw named (named-Fit k identity (trim id) mode request s f)
  ]

  Step-IsTracked : (s t : Sys) → IsTracked s → Step h times fmt_unix retention s t → IsTracked t
  unfolding list_tasks cleanup
  Step-IsTracked s _ f (submits k identity id mode request) =
      submit-Fit k identity id mode request s f
  Step-IsTracked s _ f (starts k job run) = start-Fit times k job s.inner s.jobs f run
  Step-IsTracked s _ f (ends k job started flow run) =
      end-Fit h times fmt_unix retention k job started flow s.inner s.jobs f run
  Step-IsTracked s _ f (lists k identity ids) = changed-Fit k s f
  Step-IsTracked s _ f (cleans k) = changed-Fit k s f

  -- Where every unfinished task of the service has exactly its run and every run has its task, this
  -- still holds after any interleaving of submissions, starts and ends of runs, listings and
  -- removals of expired tasks: in the end every task is queued with a run that waits, running with a
  -- run that works, or finished with none.
  pub Run-IsTracked : (s t : Sys) → IsTracked s → Run h times fmt_unix retention s t → IsTracked t
  Run-IsTracked s _ f here = f
  Run-IsTracked s _ f (next {t} run step) = Step-IsTracked t _ (Run-IsTracked s t f run) step
