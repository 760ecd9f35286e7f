-- ===== src/Tasks/Running.antt =====
-- src/services/image_task_service.rs: `update_task`, `log_call` and `run_task`, which is a start and
-- an end with the flow of the image between them.
use model2api.Common.{
  String, none, some, List, [], ◌∷◌, ◌++◌, ◌==◌, if◌then◌else◌, trim, append, ℤ, option_or, elem,
}
use model2api.Common.Maps.{get, insert}
use model2api.Json.{
  Value, Items, Fields, Host, null, int, str, arr, nil, cons, end, field, get_value, as_str,
  bind_option, set,
}
use model2api.Tasks.{Times, Clock, since, clean_value}
use model2api.Tasks.Service.{logged, Inner, Job, emit, save_tasks, texts}

unfoldable pub with_updates : List (String × Value) → Fields → Fields
with_updates [] task = task
with_updates ((key, v) ∷ updates) task = with_updates updates (set key v task)

-- A task that is gone is not written.
unfoldable pub update_task : Times → Clock → String → List (String × Value) → Inner → Inner
unfolding with_updates
update_task times k key updates inner = elim (get key inner.tasks) [
  | none ↦ inner
  | some task ↦
      let dated =
        set "updated_ts" (times.seconds_value k.now_millis)
          (set "updated_at" (str k.now_iso) (with_updates updates task)) in
      save_tasks (record inner { tasks = insert key dated inner.tasks })
]

-- What the flow of the image ends with.
pub record ImageError : Type 0 where
  pub message : String
  pub account_email : String
  pub conversation_id : String

pub data Flow : Type 0 where
  done : Value → Flow
  failed : ImageError → Flow

unfoldable pub start_task : Times → Clock → Job → Inner → Inner
start_task times k job inner =
    update_task times k job.key
      (("status", str "running")
        ∷ ("error", str "")
        ∷ ("started_ts", times.seconds_value k.now_millis)
        ∷ ("progress", str "running")
        ∷ [])
      inner

unfoldable pub data_of : Value → Items
data_of result = elim (get_value "data" result) [
  | none ↦ nil
  | some v ↦ elim v [ arr vs ↦ vs | other ↦ nil ]
]

pub image_urls : Items → List String
image_urls nil = []
image_urls (cons v vs) =
    let rest = image_urls vs in
    elim (bind_option (get_value "url" v) as_str) [
      | none ↦ rest
      | some url ↦ if url == "" then rest else url ∷ rest
    ]

pub dedupe : List String → List String → List String
dedupe seen [] = []
dedupe seen (v ∷ vs) = let rest = dedupe (v ∷ seen) vs in if elem v seen then rest else v ∷ rest

abbrev set_text : String → String → Fields → Fields
set_text key t m = if t == "" then m else set key (str t) m

with_urls : List String → Fields → Fields
unfolding dedupe
with_urls [] m = m
with_urls (u ∷ us) m = set "urls" (arr (texts (dedupe [] (u ∷ us)))) m

-- What a line of the log tells of a run: how it ended.
pub record Ending : Type 0 where
  pub suffix : String
  pub status : String
  pub error : String
  pub urls : List String
  pub account_email : String

-- `fmt_unix` is the local text of a time.
unfoldable pub log_call : (ℤ → String) → Clock → Job → ℤ → Ending → Inner → Inner
unfolding with_urls
log_call fmt_unix k job started e inner =
    let is_edit = job.mode == "edit" in
    let of = λ (key : String). option_or null (get_value key job.identity) in
    let detail = field "key_id" (of "id") (
      field "key_name" (of "name") (
        field "role" (of "role") (
          field "endpoint" (str (if is_edit then "/v1/images/edits" else "/v1/images/generations"))
            (field "model" (str job.model) (
              field "started_at" (str (fmt_unix started)) (
                field "ended_at" (str k.now_iso) (
                  field "duration_ms" (int (since k.now_millis started))
                    (field "status" (str e.status) end)))))))) in
    let told =
      set_text "account_email" e.account_email
        (set_text "error" e.error (set_text "request_text" (trim job.request.prompt) detail)) in
    emit (logged (append (if is_edit then "图生图" else "文生图") e.suffix) (with_urls e.urls told)) inner

abbrev pub failed_updates : Clock → ℤ → String → List (String × Value)
failed_updates k started message =
    ("status", str "error")
    ∷ ("error", str message)
    ∷ ("data", arr nil)
    ∷ ("duration_ms", int (since k.now_millis started))
    ∷ []

abbrev pub fail_task :
    Times → (ℤ → String) → Clock → Job → ℤ → String → String → List (String × Value) → Inner → Inner
fail_task times fmt_unix k job started message email more inner =
    log_call fmt_unix k job started
      (record {
        suffix = "调用失败";
        status = "failed";
        error = message;
        urls = [];
        account_email = email;
      })
      (update_task times k job.key (failed_updates k started message ++ more) inner)

no_account : String
no_account = "号池中没有可用账号或所有账号均被限流，请检查号池状态（账号额度、是否被封禁、是否到达生图上限）"

unfoldable pub end_with :
    Host → Times → (ℤ → String) → Clock → Job → ℤ → Value → Items → Inner → Inner
unfolding image_urls no_account
end_with h times fmt_unix k job started result nil inner =
    let upstream = clean_value h times (get_value "message" result) "" in
    fail_task times fmt_unix k job started (if upstream == "" then no_account else upstream)
      (clean_value h times (get_value "_account_email" result) "") [] inner
end_with h times fmt_unix k job started result (cons v vs) inner =
    log_call fmt_unix k job started
      (record {
        suffix = "调用完成";
        status = "success";
        error = "";
        urls = image_urls (cons v vs);
        account_email = clean_value h times (get_value "_account_email" result) "";
      })
      (update_task times k job.key
        (("status", str "success")
          ∷ ("data", arr (cons v vs))
          ∷ ("error", str "")
          ∷ ("duration_ms", int (since k.now_millis started))
          ∷ [])
        inner)

-- The end of `run_task`. The times of the update and of the log line are read as one.
unfoldable pub end_task : Host → Times → (ℤ → String) → Clock → Job → ℤ → Flow → Inner → Inner
unfolding end_with data_of
end_task h times fmt_unix k job started (done result) inner =
    end_with h times fmt_unix k job started result (data_of result) inner
end_task h times fmt_unix k job started (failed e) inner =
    fail_task times fmt_unix k job started
      (if trim e.message == "" then "image task failed" else e.message) (trim e.account_email)
      (if trim e.conversation_id == ""
        then []
        else ("conversation_id", str (trim e.conversation_id)) ∷ [])
      inner
