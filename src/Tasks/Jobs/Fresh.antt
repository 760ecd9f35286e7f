-- ===== src/Tasks/Jobs/Fresh.antt =====
-- src/services/image_task_service.rs: `submit` never gives a task a second run.
use model2api.Common.{
  String, ◌≡◌, refl, sym, ap, Option, none, some, inl, inr, Bool-cases, Option-cases, ◌==◌, trim, ℤ,
}
use model2api.Common.Maps.{get}
use model2api.Json.{Value, Host}
use model2api.Tasks.{Times, Clock, task_key, owner_id}
use model2api.Tasks.Stored.{cleanup_tasks}
use model2api.Tasks.Service.{Job, Request, submit, submit_named, submit_new}
use model2api.Tasks.Jobs.{Phase, waiting, working, Sys}
use model2api.Tasks.Jobs.Tracked.{Fits, cleanup-Fit}
use model2api.Tasks.Jobs.Reached.{IsTracked}

abbrev key_of : Option Job → String
key_of o = elim o [ none ↦ "" | some job ↦ job.key ]

no_run : (phase : Option Phase) → Fits phase none → phase ≡ none
no_run none f = refl
no_run (some waiting) f = absurd f
no_run (some working) f = absurd f

module _ (h : Host) (times : Times) (retention : ℤ) where
  named_fresh :
      (k : Clock) (identity : Value) (id mode : String) (request : Request) (s : Sys) (job : Job)
      → IsTracked s
      → (submit_named h times k retention identity id mode request s.inner).1 ≡ some job
      → get job.key s.jobs ≡ none
  unfolding submit_named submit_new get
  named_fresh k identity id mode request s job f e =
      let key = task_key (owner_id h times identity) id in
      let kept = (cleanup_tasks times k retention s.inner.tasks).0 in
      elim (Option-cases (get key kept)) [
        | inl absent ↦
            let fits = (cleanup-Fit times k retention s.jobs s.inner.tasks f).1 key in
            let one = ap key_of (rw (submit_named, absent) at e) in
            rw (sym one) (no_run (get key s.jobs) (rw absent at fits))
        | inr (old, held) ↦ absurd (let two = rw (submit_named, held) at e in cc)
      ]

  -- Where every unfinished task has exactly its run, a submission that spawns a run spawns it for a
  -- task that has none: a second submission with the same owner and id never runs a task twice at
  -- once.
  pub submit-fresh :
      (k : Clock) (identity : Value) (id mode : String) (request : Request) (s : Sys) (job : Job)
      → IsTracked s
      → (submit h times k retention identity id mode request s.inner).1 ≡ some job
      → get job.key s.jobs ≡ none
  unfolding submit
  submit-fresh k identity id mode request s job f e = elim (Bool-cases (trim id == "")) [
    | inl blank ↦ absurd (let two = rw blank at e in cc)
    | inr named ↦ named_fresh k identity (trim id) mode request s job f (rw named at e)
  ]
