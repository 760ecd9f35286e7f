-- ===== src/Tasks/Jobs/Tracked.antt =====
-- src/services/image_task_service.rs: the runs that fit a table, and what each change of the table
-- does to them.
use model2api.Common.{
  String, ◌≡◌, refl, Bool, true, false, not, Option, none, some, List, [], ◌∷◌, inl, inr,
  Bool-cases, Option-cases, ◌==◌, if◌then◌else◌, trim, ℤ,
}
use model2api.Common.Maps.{
  Map, get, insert, remove, IsDistinct, get-insert, get-remove, insert-IsDistinct,
  retain-IsDistinct, get-retain_passes,
}
use model2api.Json.{Value, Items, Fields, Host, str, nil, cons, set, get_field}
use model2api.Json.Laws.{field_laws}
use model2api.Tasks.{Times, Clock, status_of, is_finished, task_key}
use model2api.Tasks.Stored.{is_expired, cleanup_tasks}
use model2api.Tasks.Service.{Inner, Job, Request, submit_new, queued_task, save_tasks, changed}
use model2api.Tasks.Running.{
  Flow, done, failed, start_task, end_task, end_with, update_task, with_updates, log_call, data_of,
}
use model2api.Tasks.Jobs.{Phase, waiting, working, spawned}

-- What the run of a task tells of its status: there is none for a finished task only.
abbrev pub Fits : Option Phase → Option Fields → Type 0
Fits none none = Unit
Fits none (some task) = is_finished task ≡ true
Fits (some waiting) (some task) = status_of task ≡ "queued"
Fits (some working) (some task) = status_of task ≡ "running"
Fits (some phase) none = ⊥

-- A removal of expired tasks leaves the others.
get-cleanup :
    (times : Times) (k : Clock) (retention : ℤ) (key : String) (tasks : Map Fields)
    → IsDistinct tasks
    → get key (cleanup_tasks times k retention tasks).0 ≡ elim (get key tasks) [
      | none ↦ none
      | some task ↦ if not (is_expired times k retention task) then some task else none
    ]
unfolding cleanup_tasks
get-cleanup times k retention key tasks d =
    get-retain_passes (λ key task. not (is_expired times k retention task)) key tasks d

not_expired :
    (times : Times) (k : Clock) (retention : ℤ) (task : Fields)
    → is_finished task ≡ false
    → is_expired times k retention task ≡ false
unfolding is_expired
not_expired times k retention task h = rw h refl

Fits-cleanup :
    (times : Times) (k : Clock) (retention : ℤ) (phase : Option Phase) (o : Option Fields)
    → Fits phase o
    → Fits phase (elim o [
      | none ↦ none
      | some task ↦ if not (is_expired times k retention task) then some task else none
    ])
Fits-cleanup times k retention phase none f = f
Fits-cleanup times k retention none (some task) f =
    elim (Bool-cases (is_expired times k retention task)) [
      | inl gone ↦ rw gone tt
      | inr kept ↦ rw kept f
    ]
Fits-cleanup times k retention (some waiting) (some task) f =
    rw (not_expired times k retention task (rw f refl)) f
Fits-cleanup times k retention (some working) (some task) f =
    rw (not_expired times k retention task (rw f refl)) f

-- A table in which the runs fit.
abbrev pub Fit : Map Phase → Map Fields → Type 0
Fit jobs tasks = IsDistinct tasks × ((key : String) → Fits (get key jobs) (get key tasks))

pub cleanup-Fit :
    (times : Times) (k : Clock) (retention : ℤ) (jobs : Map Phase) (tasks : Map Fields)
    → Fit jobs tasks
    → Fit jobs (cleanup_tasks times k retention tasks).0
cleanup-Fit times k retention jobs tasks f = (
  (unfold cleanup_tasks in
      retain-IsDistinct (λ key task. not (is_expired times k retention task)) tasks f.0),
  λ key.
      rw (get-cleanup times k retention key tasks f.0)
        (Fits-cleanup times k retention (get key jobs) (get key tasks) (f.1 key)),
)

abbrev dated : Times → Clock → List (String × Value) → Fields → Fields
dated times k updates task =
    set "updated_ts" (times.seconds_value k.now_millis)
      (set "updated_at" (str k.now_iso) (with_updates updates task))

tasks-update_task :
    (times : Times) (k : Clock) (key : String) (updates : List (String × Value)) (inner : Inner)
    (task : Fields)
    → get key inner.tasks ≡ some task
    → (update_task times k key updates inner).tasks
      ≡ insert key (dated times k updates task) inner.tasks
unfolding update_task save_tasks
tasks-update_task times k key updates inner task e = rw (e, update_task) refl

-- A step of the run of one task, which writes the task that belongs to the run.
update-Fit :
    (times : Times) (k : Clock) (key : String) (updates : List (String × Value)) (inner : Inner)
    (jobs next : Map Phase) (phase : Phase) (after : Option Phase)
    → Fit jobs inner.tasks
    → get key jobs ≡ some phase
    → ((j : String) → get j next ≡ (if key == j then after else get j jobs))
    → ((task : Fields) → Fits after (some (dated times k updates task)))
    → Fit next (update_task times k key updates inner).tasks
update-Fit times k key updates inner jobs next phase after f run table fits =
    let mine = rw run at (f.1 key) in
    elim (Option-cases (get key inner.tasks)) [
      | inl gone ↦ absurd (let none_left = rw gone at mine in no_task phase none_left)
      | inr (task, held) ↦ rw (tasks-update_task times k key updates inner task held) (
        insert-IsDistinct key (dated times k updates task) inner.tasks f.0,
        λ j.
            rw (get-insert key j (dated times k updates task) inner.tasks, table j)
              (elim (Bool-cases (key == j)) [
                | inl one ↦ rw one (fits task)
                | inr two ↦ rw two (f.1 j)
              ]),
      )
    ]
  where
    no_task : (p : Phase) → Fits (some p) none → ⊥
    no_task waiting h = h
    no_task working h = h

status_running :
    (times : Times) (k : Clock) (a b c : Value) (task : Fields)
    → status_of (
        dated times k
          (("status", str "running") ∷ ("error", a) ∷ ("started_ts", b) ∷ ("progress", c) ∷ [])
          task)
      ≡ "running"
unfolding with_updates
status_running times k a b c task = simp field_laws

pub start-Fit :
    (times : Times) (k : Clock) (job : Job) (inner : Inner) (jobs : Map Phase)
    → Fit jobs inner.tasks
    → get job.key jobs ≡ some waiting
    → Fit (insert job.key working jobs) (start_task times k job inner).tasks
unfolding start_task
start-Fit times k job inner jobs f run =
    update-Fit times k job.key _ inner jobs (insert job.key working jobs) waiting (some working) f
      run (λ j. get-insert job.key j working jobs)
      (λ task.
        status_running times k (str "") (times.seconds_value k.now_millis) (str "running") task)

finished_success :
    (times : Times) (k : Clock) (a b c : Value) (task : Fields)
    → is_finished (
        dated times k
          (("status", str "success") ∷ ("data", a) ∷ ("error", b) ∷ ("duration_ms", c) ∷ [])
          task)
      ≡ true
unfolding with_updates
finished_success times k a b c task = simp field_laws

finished_error :
    (times : Times) (k : Clock) (a b c : Value) (task : Fields)
    → is_finished (
        dated times k
          (("status", str "error") ∷ ("error", a) ∷ ("data", b) ∷ ("duration_ms", c) ∷ [])
          task)
      ≡ true
unfolding with_updates
finished_error times k a b c task = simp field_laws

finished_error_told :
    (times : Times) (k : Clock) (a b c d : Value) (task : Fields)
    → is_finished (
        dated times k
          (("status", str "error")
            ∷ ("error", a)
            ∷ ("data", b)
            ∷ ("duration_ms", c)
            ∷ ("conversation_id", d)
            ∷ [])
          task)
      ≡ true
unfolding with_updates
finished_error_told times k a b c d task = simp field_laws

-- The end of the run of a task, whatever updates it makes, if they finish the task.
finish-Fit :
    (times : Times) (k : Clock) (key : String) (updates : List (String × Value)) (inner : Inner)
    (jobs : Map Phase)
    → Fit jobs inner.tasks
    → get key jobs ≡ some working
    → ((task : Fields) → is_finished (dated times k updates task) ≡ true)
    → Fit (remove key jobs) (update_task times k key updates inner).tasks
finish-Fit times k key updates inner jobs f run ends =
    update-Fit times k key updates inner jobs (remove key jobs) working none f run
      (λ j. get-remove key j jobs) ends

module _ (h : Host) (times : Times) (fmt_unix : ℤ → String) (retention : ℤ) where
  end_with-Fit :
      (k : Clock) (job : Job) (started : ℤ) (result : Value) (vs : Items) (inner : Inner)
      (jobs : Map Phase)
      → Fit jobs inner.tasks
      → get job.key jobs ≡ some working
      → Fit (remove job.key jobs) (end_with h times fmt_unix k job started result vs inner).tasks
  unfolding end_with log_call
  end_with-Fit k job started result nil inner jobs f run =
      finish-Fit times k job.key _ inner jobs f run (λ task. finished_error times k _ _ _ task)
  end_with-Fit k job started result (cons v vs) inner jobs f run =
      finish-Fit times k job.key _ inner jobs f run (λ task. finished_success times k _ _ _ task)

  pub end-Fit :
      (k : Clock) (job : Job) (started : ℤ) (flow : Flow) (inner : Inner) (jobs : Map Phase)
      → Fit jobs inner.tasks
      → get job.key jobs ≡ some working
      → Fit (remove job.key jobs) (end_task h times fmt_unix k job started flow inner).tasks
  unfolding end_task log_call
  end-Fit k job started (done result) inner jobs f run =
      end_with-Fit k job started result (data_of result) inner jobs f run
  end-Fit k job started (failed e) inner jobs f run =
      elim (Bool-cases (trim e.conversation_id == "")) [
        | inl none_told ↦ rw none_told (
            finish-Fit times k job.key _ inner jobs f run
              (λ task. finished_error times k _ _ _ task))
        | inr told ↦ rw told (
            finish-Fit times k job.key _ inner jobs f run
              (λ task. finished_error_told times k _ _ _ _ task))
      ]

pub submit_new-Fit :
    (times : Times) (k : Clock) (identity : Value) (id owner mode : String) (request : Request)
    (inner : Inner) (jobs : Map Phase)
    → Fit jobs inner.tasks
    → get (task_key owner id) inner.tasks ≡ none
    → let r = submit_new times k identity id owner mode request inner in
      Fit (spawned r.1 jobs) r.2.tasks
unfolding submit_new save_tasks
submit_new-Fit times k identity id owner mode request inner jobs f absent =
    let key = task_key owner id in
    let task = queued_task k times id owner mode request in
    (
      insert-IsDistinct key task inner.tasks f.0,
      λ j.
          rw (get-insert key j task inner.tasks, get-insert key j waiting jobs)
            (elim (Bool-cases (key == j)) [
              | inl one ↦ rw one (unfold queued_task get_field in refl)
              | inr two ↦ rw two (f.1 j)
            ]),
    )

pub changed_tasks :
    (b : Bool) (tasks : Map Fields) (inner : Inner) → (changed b tasks inner).tasks ≡ tasks
unfolding save_tasks
changed_tasks true tasks inner = refl
changed_tasks false tasks inner = refl
