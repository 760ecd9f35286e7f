-- ===== src/Tasks/Jobs.antt =====
-- The image tasks with the runs that work on them, over any interleaving of the calls. Each step is
-- one critical section, with its own reading of the clock.
pub mod Tracked
pub mod Reached
pub mod Restarted
pub mod Fresh
use model2api.Common.{String, ◌≡◌, Bool, Option, none, some, List, ℤ}
use model2api.Common.Maps.{Map, get, insert, remove}
use model2api.Json.{Value, Fields, Host}
use model2api.Tasks.{Times, Clock, status_of, is_finished}
use model2api.Tasks.Service.{Inner, Job, Request, Submitted, submit, list_tasks, cleanup}
use model2api.Tasks.Running.{Flow, start_task, end_task}

-- How far the run of a task has come: spawned, or past its first update.
pub data Phase : Type 0 where
  waiting working : Phase

-- The service and the runs that have not ended.
pub record Sys : Type 0 where
  pub inner : Inner
  pub jobs : Map Phase

abbrev pub spawned : Option Job → Map Phase → Map Phase
spawned none jobs = jobs
spawned (some job) jobs = insert job.key waiting jobs

abbrev pub after_submit : Submitted → Map Phase → Sys
after_submit r jobs = record { inner = r.2; jobs = spawned r.1 jobs }

module _ (h : Host) (times : Times) (fmt_unix : ℤ → String) (retention : ℤ) where
  pub data Step (s : Sys) : Sys → Type 0 where
    submits :
        (k : Clock) (identity : Value) (client_task_id mode : String) (request : Request)
        → Step s (
            after_submit
              (submit h times k retention identity client_task_id mode request s.inner)
              s.jobs)
    starts :
        (k : Clock) (job : Job)
        → get job.key s.jobs ≡ some waiting
        → Step s (record {
          inner = start_task times k job s.inner;
          jobs = insert job.key working s.jobs;
        })
    ends :
        (k : Clock) (job : Job) (started : ℤ) (flow : Flow)
        → get job.key s.jobs ≡ some working
        → Step s (record {
          inner = end_task h times fmt_unix k job started flow s.inner;
          jobs = remove job.key s.jobs;
        })
    lists :
        (k : Clock) (identity : Value) (task_ids : List String)
        → Step s (record s { inner = (list_tasks h times k retention identity task_ids s.inner).1 })
    cleans : (k : Clock) → Step s (record s { inner = (cleanup times k retention s.inner).1 })

  pub data Run (s : Sys) : Sys → Type 0 where
    here : Run s s
    next : {t u : Sys} → Run s t → Step t u → Run s u
