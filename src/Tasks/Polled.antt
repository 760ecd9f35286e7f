-- ===== src/Tasks/Polled.antt =====
-- src/services/image_task_service.rs: what `get_task` answers after `submit`.
use model2api.Common.{
  String, ◌≡◌, refl, false, some, inl, inr, Option-cases, ◌==◌, trim, ℤ, arith, eq_iff,
}
use model2api.Common.Maps.{get, insert, get-insert}
use model2api.Json.{Value, Host}
use model2api.Tasks.{Times, Clock, task_key, owner_id}
use model2api.Tasks.Stored.{cleanup_tasks}
use model2api.Tasks.Service.{
  Inner, Request, submit, submit_named, submit_new, queued_task, get_task, save_tasks,
}
use model2api.Tasks.Jobs.Tracked.{changed_tasks}

module _ (h : Host) (times : Times) (retention : ℤ) where
  polled_new :
      (k : Clock) (identity : Value) (client_id mode : String) (request : Request) (inner : Inner)
      → let owner = owner_id h times identity in
        let r = submit_new times k identity (trim client_id) owner mode request inner in
        get_task h times k identity client_id r.2 ≡ r.0
  unfolding submit_new get_task save_tasks
  polled_new k identity client_id mode request inner =
      let owner = owner_id h times identity in
      let key = task_key owner (trim client_id) in
      let task = queued_task k times (trim client_id) owner mode request in
      let here : get key (insert key task inner.tasks) ≡ some task =
        rw (get-insert key key task inner.tasks) (ground (arith, eq_iff key key)) in
      rw (get_task, here) refl

  polled_named :
      (k : Clock) (identity : Value) (client_id mode : String) (request : Request) (inner : Inner)
      → let r = submit_named h times k retention identity (trim client_id) mode request inner in
        get_task h times k identity client_id r.2 ≡ r.0
  unfolding submit_named get_task get save_tasks
  polled_named k identity client_id mode request inner =
      let owner = owner_id h times identity in
      let key = task_key owner (trim client_id) in
      let r = cleanup_tasks times k retention inner.tasks in
      elim (Option-cases (get key r.0)) [
        | inl absent ↦
            rw (submit_named, absent)
              (polled_new k identity client_id mode request (record inner { tasks = r.0 }))
        | inr (old, held) ↦
            rw (submit_named, held, get_task, changed_tasks r.1 r.0 inner, held) refl
      ]

  -- A task that was submitted under an id that is not blank is found under it: `get_task` with the
  -- same identity and id answers what `submit` answered, for a new task as for one that was there.
  pub get_task-submit :
      (k : Clock) (identity : Value) (client_id mode : String) (request : Request) (inner : Inner)
      → (trim client_id == "") ≡ false
      → let r = submit h times k retention identity client_id mode request inner in
        get_task h times k identity client_id r.2 ≡ r.0
  unfolding submit
  get_task-submit k identity client_id mode request inner named =
      rw named (polled_named k identity client_id mode request inner)
