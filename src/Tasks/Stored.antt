-- ===== src/Tasks/Stored.antt =====
-- src/services/image_task_service.rs: `load_tasks`, `save_tasks`, `recover_unfinished` and
-- `cleanup_tasks`. The text of JSON is serde_json's, so that a file is the value in it.
use model2api.Common.{
  String, Bool, false, not, ◌&&◌, ◌||◌, Option, some, List, [], ◌∷◌, ◌==◌, if◌then◌else◌, ℤ, pos,
  negsuc, ltb_ℤ, max_ℤ, pos_part, ◌+◌, ◌*◌, option_or,
}
use model2api.Common.Maps.{Map, insert, retain, values}
use model2api.Common.Sorting.{sort_by, text_lt}
use model2api.Json.{
  Value, Items, Fields, Host, null, str, arr, obj, nil, cons, end, field, get_field, bind_option,
  set, text_at, is_array, is_object,
}
use model2api.Tasks.{
  Times, Clock, since, clean_value, task_key, parse_timestamp, copy_if, is_valid_status,
  is_unfinished, is_finished,
}

-- A task as it is read from the file; one without id or owner is left out.
unfoldable pub loaded_task : Host → Times → Clock → Fields → Fields
loaded_task h times k item =
    let text =
      λ (key : String) (default : String). clean_value h times (get_field key item) default in
    let kept = λ (key : String). option_or null (get_field key item) in
    let status = if is_valid_status (text "status" "") then text "status" "" else "error" in
    let mode = if text_at "mode" item == "edit" then "edit" else "generate" in
    let created_at = text "created_at" k.now_iso in
    let task = field "id" (str (text "id" "")) (
      field "owner_id" (str (text "owner_id" "")) (
        field "status" (str status) (
          field "mode" (str mode) (
            field "model" (str (text "model" "gpt-image-2")) (
              field "size" (str (text "size" "")) (
                field "quality" (str (text "quality" "auto")) (
                  field "created_at" (str created_at) (
                    field "updated_at" (str (text "updated_at" created_at)) (
                      field "created_ts" (kept "created_ts") (
                        field "updated_ts" (kept "updated_ts") (
                          field "started_ts" (kept "started_ts")
                            (field "duration_ms" (kept "duration_ms") end)))))))))))) in
    let full = copy_if is_object item "usage" (copy_if is_array item "data" task) in
    let error = text "error" "" in if error == "" then full else set "error" (str error) full

unfoldable pub load_one : Host → Times → Clock → Fields → Map Fields → Map Fields
load_one h times k item tasks =
    let task_id = clean_value h times (get_field "id" item) "" in
    let owner = clean_value h times (get_field "owner_id" item) "" in
    if task_id == "" || owner == ""
    then tasks
    else insert (task_key owner task_id) (loaded_task h times k item) tasks

unfoldable pub load_items : Host → Times → Clock → Items → Map Fields → Map Fields
unfolding load_one
load_items h times k nil tasks = tasks
load_items h times k (cons v items) tasks =
    load_items h times k items (elim v [ obj item ↦ load_one h times k item tasks | other ↦ tasks ])

unfoldable pub tasks_value : Value → Option Value
tasks_value (obj m) = get_field "tasks" m
tasks_value other = some other

-- `raw` is what serde_json reads in the file; `none` where there is none.
unfoldable pub load_tasks : Host → Times → Clock → Option Value → Map Fields
unfolding load_items tasks_value
load_tasks h times k raw = elim (bind_option raw tasks_value) [
  | some (arr items) ↦ load_items h times k items []
  | other ↦ []
]

newer : Fields → Fields → Bool
newer a b = text_lt (text_at "updated_at" b) (text_at "updated_at" a)

pub to_items : List Fields → Items
to_items [] = nil
to_items (m ∷ ms) = cons (obj m) (to_items ms)

-- What is written to the file: the tasks, the newest first.
unfoldable pub saved_payload : Map Fields → Value
unfolding newer to_items
saved_payload tasks = obj (field "tasks" (arr (to_items (sort_by newer (values tasks)))) end)

unfoldable pub recovered : Clock → Fields → Fields
recovered k task =
    if is_unfinished task
    then set "updated_at" (str k.now_iso)
        (set "error" (str "服务已重启，未完成的图片任务已中断") (set "status" (str "error") task))
    else task

abbrev pub any_task : (Fields → Bool) → Map Fields → Bool
any_task test [] = false
any_task test ((k, task) ∷ tasks) = test task || any_task test tasks

abbrev pub map_tasks : (Fields → Fields) → Map Fields → Map Fields
map_tasks f [] = []
map_tasks f ((k, task) ∷ tasks) = (k, f task) ∷ map_tasks f tasks

unfoldable pub recover_unfinished : Clock → Map Fields → Map Fields × Bool
unfolding recovered
recover_unfinished k tasks = (map_tasks (recovered k) tasks, any_task is_unfinished tasks)

-- A finished task that was last changed before the retention began. A day has 86,400 seconds.
unfoldable pub is_expired : Times → Clock → ℤ → Fields → Bool
is_expired times k retention_days task =
    is_finished task
    && ltb_ℤ (in_millis (parse_timestamp times (get_field "updated_at" task)))
        (since k.now_millis (pos (pos_part (max_ℤ retention_days (pos 1)) * 86_400_000)))
  where
    in_millis : ℤ → ℤ
    in_millis (pos n) = pos (n * 1000)
    in_millis (negsuc n) = negsuc (n * 1000 + 999)

-- The tasks that are left, and whether one was removed.
unfoldable pub cleanup_tasks : Times → Clock → ℤ → Map Fields → Map Fields × Bool
unfolding is_expired
cleanup_tasks times k retention_days tasks = (
  retain (λ key task. not (is_expired times k retention_days task)) tasks,
  any_task (is_expired times k retention_days) tasks,
)
