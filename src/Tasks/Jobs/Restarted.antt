-- ===== src/Tasks/Jobs/Restarted.antt =====
-- src/services/image_task_service.rs: what `new` makes of the tasks of an earlier process.
use model2api.Common.{
  String, ◌≡◌, refl, Bool, true, false, ◌||◌, Option, none, some, [], ◌∷◌, inl, inr, Bool-cases,
  Option-cases, ◌==◌, if◌then◌else◌, ℤ, arith,
}
use model2api.Common.Maps.{
  Map, get, IsDistinct, Entries, Entries-insert, Entries-get, insert-IsDistinct,
}
use model2api.Json.{
  Value, Items, Fields, Host, nil, cons, obj, arr, set, get_field, is_array, is_object,
}
use model2api.Json.Laws.{field_laws, branch_laws}
use model2api.Tasks.{
  Times, Clock, status_of, is_valid_status, is_finished, is_unfinished, task_key, clean_value,
}
use model2api.Tasks.Stored.{
  loaded_task, load_one, load_items, load_tasks, tasks_value, recovered, map_tasks,
  recover_unfinished, cleanup_tasks,
}
use model2api.Tasks.Service.{Inner, new}
use model2api.Tasks.Jobs.{Sys, Run}
use model2api.Tasks.Jobs.Tracked.{Fit, cleanup-Fit, changed_tasks}
use model2api.Tasks.Jobs.Reached.{IsTracked, Run-IsTracked}

abbrev IsValid : Fields → Type 0
IsValid task = is_valid_status (status_of task) ≡ true

-- A loaded table: no key stands twice, and every status is one of the four.
abbrev IsSound : Map Fields → Type 0
IsSound tasks = IsDistinct tasks × Entries (λ key task. IsValid task) tasks

valid_or_error : (t : String) → is_valid_status (if is_valid_status t then t else "error") ≡ true
valid_or_error t = elim (Bool-cases (is_valid_status t)) [
  | inl valid ↦ rw valid valid
  | inr other ↦ rw other refl
]

get_field-copied :
    (test : Value → Bool) (o : Option Value) (j key : String) (item : Fields)
    → (key == j) ≡ false
    → get_field j (elim o [ none ↦ item | some v ↦ if test v then set key v item else item ])
      ≡ get_field j item
get_field-copied test none j key item h = refl
get_field-copied test (some v) j key item h = simp (branch_laws, h)

loaded_task-IsValid :
    (h : Host) (times : Times) (k : Clock) (item : Fields) → IsValid (loaded_task h times k item)
unfolding loaded_task get_field
loaded_task-IsValid h times k item = simp (
  branch_laws,
  get_field-copied is_object (get_field "usage" item) "status" "usage",
  get_field-copied is_array (get_field "data" item) "status" "data",
  valid_or_error,
)

load_one-IsSound :
    (h : Host) (times : Times) (k : Clock) (item : Fields) (tasks : Map Fields)
    → IsSound tasks
    → IsSound (load_one h times k item tasks)
unfolding load_one
load_one-IsSound h times k item tasks s =
    let id = clean_value h times (get_field "id" item) "" in
    let owner = clean_value h times (get_field "owner_id" item) "" in
    elim (Bool-cases (id == "" || owner == "")) [
      | inl blank ↦ rw blank s
      | inr whole ↦ rw whole (
        insert-IsDistinct (task_key owner id) (loaded_task h times k item) tasks s.0,
        Entries-insert (λ key task. IsValid task) (task_key owner id) (loaded_task h times k item)
            tasks s.1 (loaded_task-IsValid h times k item),
      )
    ]

load_items-IsSound :
    (h : Host) (times : Times) (k : Clock) (items : Items) (tasks : Map Fields)
    → IsSound tasks
    → IsSound (load_items h times k items tasks)
unfolding load_items
load_items-IsSound h times k nil tasks s = s
load_items-IsSound h times k (cons (obj item) items) tasks s =
    load_items-IsSound h times k items (load_one h times k item tasks)
      (load_one-IsSound h times k item tasks s)
load_items-IsSound h times k (cons _ items) tasks s = load_items-IsSound h times k items tasks s

load_tasks-IsSound :
    (h : Host) (times : Times) (k : Clock) (raw : Option Value) → IsSound (load_tasks h times k raw)
unfolding load_tasks
load_tasks-IsSound h times k none = (tt, tt)
load_tasks-IsSound h times k (some raw) = go (tasks_value raw)
  where
    go :
        (o : Option Value)
        → IsSound (elim o [ some (arr items) ↦ load_items h times k items [] | other ↦ [] ])
    go none = (tt, tt)
    go (some (arr items)) = load_items-IsSound h times k items [] (tt, tt)
    go (some _) = (tt, tt)

get-map_tasks :
    (f : Fields → Fields) (key : String) (tasks : Map Fields)
    → get key (map_tasks f tasks) ≡ elim (get key tasks) [ none ↦ none | some task ↦ some (f task) ]
unfolding get
get-map_tasks f key [] = refl
get-map_tasks f key ((j, task) ∷ tasks) = ground (arith, get-map_tasks f key tasks)

map_tasks-IsDistinct :
    (f : Fields → Fields) (tasks : Map Fields) → IsDistinct tasks → IsDistinct (map_tasks f tasks)
map_tasks-IsDistinct f [] d = tt
map_tasks-IsDistinct f ((j, task) ∷ tasks) d =
    ground (arith, get-map_tasks f j tasks, map_tasks-IsDistinct f tasks d.1)

recovered-is_finished :
    (k : Clock) (task : Fields) → IsValid task → is_finished (recovered k task) ≡ true
unfolding recovered
recovered-is_finished k task v = elim (Bool-cases (is_unfinished task)) [
  | inl cut ↦ rw cut (simp field_laws)
  | inr left ↦ rw left (ground arith)
]

recover_unfinished-Fit :
    (k : Clock) (tasks : Map Fields) → IsSound tasks → Fit [] (recover_unfinished k tasks).0
unfolding recover_unfinished get
recover_unfinished-Fit k tasks s = (
  map_tasks-IsDistinct (recovered k) tasks s.0,
  λ key. rw (get-map_tasks (recovered k) key tasks) (elim (Option-cases (get key tasks)) [
    | inl gone ↦ rw gone tt
    | inr (task, held) ↦ rw held (
        recovered-is_finished k task
          (Entries-get (λ key task. IsValid task) key tasks task s.1 held))
  ]),
)

abbrev pub started_with : Inner → Sys
started_with inner = record { inner = inner; jobs = [] }

new-IsTracked :
    (h : Host) (times : Times) (k : Clock) (retention : ℤ) (raw : Option Value)
    → IsTracked (started_with (new h times k retention raw))
unfolding new
new-IsTracked h times k retention raw =
    let r = recover_unfinished k (load_tasks h times k raw) in
    let c = cleanup_tasks times k retention r.0 in
    let f =
      recover_unfinished-Fit k (load_tasks h times k raw) (load_tasks-IsSound h times k raw) in
    rw (changed_tasks (if c.1 then true else r.1) c.0 (record { tasks = []; effects = [] }))
      (cleanup-Fit times k retention [] r.0 f)

-- From a start of the service on any stored file, whatever it holds, and after any interleaving of
-- submissions, starts and ends of runs, listings and removals of expired tasks, every task is queued
-- with a run that waits, running with a run that works, or finished with none; and every run has its
-- task.
pub Run-new :
    (h : Host) (times : Times) (fmt_unix : ℤ → String) (retention : ℤ) (k : Clock)
    (raw : Option Value) (t : Sys)
    → Run h times fmt_unix retention (started_with (new h times k retention raw)) t
    → IsTracked t
Run-new h times fmt_unix retention k raw t run =
    Run-IsTracked h times fmt_unix retention (started_with (new h times k retention raw)) t
      (new-IsTracked h times k retention raw) run
