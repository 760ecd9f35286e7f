-- ===== src/Tests/Images.antt =====
-- The image tasks: a file with a task that was running, and two submissions.
use model2api.Common.{
  List, All, length, filterb, map, ◌≡◌, refl, Option, none, some, [], ◌∷◌, ◌==◌, trim, ℤ, pos,
  false,
}
use model2api.Common.Maps.{IsDistinct, get, insert, remove, retain, values}
use model2api.Json.{
  Value, Fields, Host, str, int, arr, obj, nil, cons, end, field, get_field, insert_field,
}
use model2api.Tasks.{Times, Clock, task_key, owner_id, clean_value, parse_timestamp, status_of}
use model2api.Tasks.Stored.{
  to_items, load_tasks, load_items, load_one, loaded_task, tasks_value, recover_unfinished,
  recovered, cleanup_tasks,
}
use model2api.Tasks.Service.{
  queued_task, is_owned, list_tasks, Inner, Job, Request, new, submit, submit_named, submit_new,
  get_task, save_tasks,
}
use model2api.Tasks.Running.{done, start_task, end_task}
use model2api.Tasks.Jobs.{
  waiting, working, Sys, Run, here, next, submits, starts, ends, after_submit,
}
use model2api.Tasks.Jobs.Reached.{IsTracked}
use model2api.Tasks.Jobs.Restarted.{started_with, Run-new}
use model2api.Tasks.Jobs.Fresh.{submit-fresh}
use model2api.Tasks.Owned.{IsShown, list_tasks-IsShown}
use model2api.Tasks.Polled.{get_task-submit}

abbrev task_host : Host
task_host = record {
  print = λ v. "x";
  lower = λ t. t;
  sha256_hex = λ t. t;
  parse_rfc3339 = λ t. none;
  parse_naive = λ t. none;
}

abbrev number_of : Value → ℤ
number_of (int i) = i
number_of other = pos 0

abbrev times : Times
times = record {
  seconds_value = int;
  seconds_of = number_of;
  tenths = int;
  parse_local = λ format t. none;
  parse_rfc3339 = λ t. none;
  is_zero_number = λ v. false;
}

abbrev clock : Clock
clock = record { now_iso = "2026-01-02"; now_millis = pos 1000 }

abbrev stored_task : Fields
stored_task =
    field "id" (str "t0") (field "owner_id" (str "u") (field "status" (str "running") end))

abbrev file : Option Value
file = some (obj (field "tasks" (arr (cons (obj stored_task) nil)) end))

abbrev identity : Value
identity = obj (field "id" (str "u") end)

abbrev request : Request
request = record {
  model = "gpt-image-2";
  prompt = "a cat";
  images = none;
  size = none;
  quality = "auto";
  base_url = none;
}

abbrev first : Inner
first = new task_host times clock (pos 3) file

-- The task that was running has failed.
restart_test : map status_of (values first.tasks) ≡ "error" ∷ []
unfolding new load_tasks load_items load_one tasks_value recover_unfinished get get_field insert
    retain loaded_task insert_field recovered parse_timestamp save_tasks cleanup_tasks owner_id
    clean_value task_key trim
restart_test = refl

abbrev job : Job
job = record {
  key = "u:t1";
  mode = "generate";
  request = request;
  identity = identity;
  model = "gpt-image-2";
}

spawn_test :
    (submit task_host times clock (pos 3) identity "t1" "generate" request first).1 ≡ some job
unfolding submit submit_named submit_new new load_tasks load_items load_one tasks_value
    recover_unfinished get get_field insert retain loaded_task insert_field recovered
    parse_timestamp save_tasks cleanup_tasks owner_id clean_value task_key trim
spawn_test = refl

abbrev submitted : Sys
submitted =
    after_submit (submit task_host times clock (pos 3) identity "t1" "generate" request first) []

waits_test : get job.key submitted.jobs ≡ some waiting
unfolding get insert
waits_test = rw spawn_test refl

abbrev started : Sys
started = record {
  inner = start_task times clock job submitted.inner;
  jobs = insert job.key working submitted.jobs;
}

works_test : get job.key started.jobs ≡ some working
unfolding get insert
works_test = rw spawn_test refl

abbrev ended : Sys
ended = record {
  inner = end_task task_host times (λ t. "") clock job (pos 1000) (done (obj end)) started.inner;
  jobs = remove job.key started.jobs;
}

image_made : Run task_host times (λ t. "") (pos 3) (started_with first) ended
image_made =
    next
      (next (next here (submits clock identity "t1" "generate" request))
        (starts clock job waits_test))
      (ends clock job (pos 1000) (done (obj end)) works_test)

named_test : (trim " t1" == "") ≡ false
unfolding trim
named_test = refl

Run-new_example : IsTracked ended
Run-new_example = Run-new task_host times (λ t. "") (pos 3) clock file ended image_made

submit-fresh_example : get job.key (started_with first).jobs ≡ none
submit-fresh_example =
    submit-fresh task_host times (pos 3) clock identity "t1" "generate" request (started_with first)
      job (Run-new task_host times (λ t. "") (pos 3) clock file (started_with first) here)
      spawn_test

get_task-submit_example :
    get_task task_host times clock identity " t1"
      (submit task_host times clock (pos 3) identity " t1" "generate" request first).2
    ≡ (submit task_host times clock (pos 3) identity " t1" "generate" request first).0
get_task-submit_example =
    get_task-submit task_host times (pos 3) clock identity " t1" "generate" request first named_test

abbrev two_owners : Inner
two_owners = record {
  tasks =
      ("u:t1", queued_task clock times "t1" "u" "generate" request)
      ∷ ("v:t1", queued_task clock times "t1" "v" "edit" request)
      ∷ [];
  effects = [];
}

two_owners-IsDistinct : IsDistinct two_owners.tasks
unfolding get
two_owners-IsDistinct = (refl, (refl, tt))

list_tasks-IsShown_example :
    let owner = owner_id task_host times identity in
    let kept = (cleanup_tasks times clock (pos 3) two_owners.tasks).0 in
    (items : List Fields) × ((list_tasks task_host times clock (pos 3) identity [] two_owners).0
      ≡ obj (field "items" (arr (to_items items)) (field "missing_ids" (arr nil) end)))
    × All (IsShown times clock owner kept) items
    × (length items ≡ length (filterb (is_owned owner) (values kept)))
list_tasks-IsShown_example =
    list_tasks-IsShown task_host times clock (pos 3) identity two_owners two_owners-IsDistinct
