-- ===== src/Tasks/Service.antt =====
-- src/services/image_task_service.rs: `ImageTaskService`. A call that holds the lock is a function on
-- the service.

use model2api.Common.{
  String, Bool, true, not, Option, none, some, List, [], ◌∷◌, ◌++◌, map, filterb, ◌==◌,
  if◌then◌else◌, trim, ℤ, option_or,
}
use model2api.Common.Maps.{Map, get, insert, values}
use model2api.Common.Sorting.{sort_by, text_lt}
use model2api.Json.{
  Value, Items, Fields, Host, null, bool, str, arr, obj, nil, cons, end, field, bind_option,
  text_at,
}
use model2api.Tasks.{Times, Clock, owner_id, task_key, public_task}
use model2api.Tasks.Stored.{load_tasks, saved_payload, recover_unfinished, cleanup_tasks, to_items}

-- What the service hands to the file and to the log.
pub data Effect : Type 0 where
  wrote : Value → Effect
  logged : String → Fields → Effect

-- Inner. The settings are arguments of the calls.
pub record Inner : Type 0 where
  pub tasks : Map Fields
  pub effects : List Effect

abbrev pub emit : Effect → Inner → Inner
emit e inner = record inner { effects = inner.effects ++ (e ∷ []) }

unfoldable pub save_tasks : Inner → Inner
save_tasks inner = emit (wrote (saved_payload inner.tasks)) inner

-- The tasks after a change, saved if there was one.
abbrev pub changed : Bool → Map Fields → Inner → Inner
changed b tasks inner =
    if b then save_tasks (record inner { tasks = tasks }) else record inner { tasks = tasks }

unfoldable pub new : Host → Times → Clock → ℤ → Option Value → Inner
new h times k retention raw =
    let (tasks, recovered) = recover_unfinished k (load_tasks h times k raw) in
    let (kept, cleaned) = cleanup_tasks times k retention tasks in
    changed (if cleaned then true else recovered) kept (record { tasks = []; effects = [] })

-- The fields of a ConversationRequest that are set here; `n` is 1 and the response format "url".
pub record Request : Type 0 where
  pub model : String
  pub prompt : String
  pub images : Option (List String)
  pub size : Option String
  pub quality : String
  pub base_url : Option String

abbrev pub not_blank : String → Option String
not_blank t = if trim t == "" then none else some t

abbrev pub or_default : String → String → String
or_default t default = if trim t == "" then default else t

unfoldable pub image_request :
    String → String → Option (List String) → Option String → String → String → Request
image_request prompt model images size quality base_url = record {
  model = model;
  prompt = prompt;
  images = images;
  size = bind_option size not_blank;
  quality = or_default quality "auto";
  base_url = not_blank base_url;
}

-- What `submit` spawns: the run of a task.
pub record Job : Type 0 where
  pub key : String
  pub mode : String
  pub request : Request
  pub identity : Value
  pub model : String

unfoldable pub queued_task : Clock → Times → String → String → String → Request → Fields
queued_task k times task_id owner mode request = field "id" (str task_id) (
    field "owner_id" (str owner) (
      field "status" (str "queued") (
        field "mode" (str mode) (
          field "model" (str (trim (or_default request.model "gpt-image-2"))) (
            field "size" (str (trim (option_or "" request.size))) (
              field "quality" (str (trim (or_default request.quality "auto"))) (
                field "created_at" (str k.now_iso) (
                  field "updated_at" (str k.now_iso)
                    (field "created_ts" (times.seconds_value k.now_millis) end)))))))))

abbrev pub Submitted : Type 0
Submitted = Value × Option Job × Inner

unfoldable pub submit_new :
    Times → Clock → Value → String → String → String → Request → Inner → Submitted
unfolding queued_task
submit_new times k identity task_id owner mode request inner =
    let task = queued_task k times task_id owner mode request in
    let key = task_key owner task_id in
    (
      obj (public_task times k task),
      some (record {
        key = key;
        mode = mode;
        request = request;
        identity = identity;
        model = trim (or_default request.model "gpt-image-2");
      }),
      save_tasks (record inner { tasks = insert key task inner.tasks }),
    )

unfoldable pub submit_named :
    Host → Times → Clock → ℤ → Value → String → String → Request → Inner → Submitted
unfolding submit_new
submit_named h times k retention identity task_id mode request inner =
    let owner = owner_id h times identity in
    let (tasks, cleaned) = cleanup_tasks times k retention inner.tasks in
    elim (get (task_key owner task_id) tasks) [
      | some existing ↦ (obj (public_task times k existing), none, changed cleaned tasks inner)
      | none ↦
          submit_new times k identity task_id owner mode request (record inner { tasks = tasks })
    ]

unfoldable pub submit :
    Host → Times → Clock → ℤ → Value → String → String → Request → Inner → Submitted
unfolding submit_named
submit h times k retention identity client_task_id mode request inner =
    if trim client_task_id == ""
    then (obj (field "error" (str "client_task_id is required") end), none, inner)
    else submit_named h times k retention identity (trim client_task_id) mode request inner

unfoldable pub submit_generation :
    Host
    → Times
    → Clock
    → ℤ
    → Value
    → String
    → String
    → String
    → Option String
    → String
    → String
    → Inner
    → Submitted
submit_generation h times k retention identity client_task_id prompt model size quality base_url =
    submit h times k retention identity client_task_id "generate"
      (image_request prompt model none size quality base_url)

unfoldable pub submit_edit :
    Host
    → Times
    → Clock
    → ℤ
    → Value
    → String
    → String
    → String
    → Option String
    → String
    → String
    → List String
    → Inner
    → Submitted
submit_edit h times k retention identity client_task_id prompt model size quality base_url images =
    submit h times k retention identity client_task_id "edit"
      (image_request prompt model (some images) size quality base_url)

abbrev pub newer_item : Fields → Fields → Bool
newer_item a b = text_lt (text_at "updated_at" b) (text_at "updated_at" a)

abbrev pub is_owned : String → Fields → Bool
is_owned owner task = text_at "owner_id" task == owner

pub found_items : Times → Clock → String → Map Fields → List String → List Fields
found_items times k owner tasks [] = []
found_items times k owner tasks (id ∷ ids) =
    let rest = found_items times k owner tasks ids in
    elim (get (task_key owner id) tasks) [
      | none ↦ rest
      | some task ↦ public_task times k task ∷ rest
    ]

pub missing_ids : String → Map Fields → List String → List String
missing_ids owner tasks [] = []
missing_ids owner tasks (id ∷ ids) =
    let rest = missing_ids owner tasks ids in
    elim (get (task_key owner id) tasks) [ none ↦ id ∷ rest | some task ↦ rest ]

pub texts : List String → Items
texts [] = nil
texts (t ∷ ts) = cons (str t) (texts ts)

abbrev pub all_owned : Times → Clock → String → Map Fields → List Fields
all_owned times k owner tasks =
    sort_by newer_item (map (public_task times k) (filterb (is_owned owner) (values tasks)))

abbrev pub requested : List String → List String
requested task_ids = filterb (λ t. not (t == "")) (map trim task_ids)

unfoldable pub listed : Times → Clock → String → Map Fields → List String → Value
unfolding found_items missing_ids texts
listed times k owner tasks [] = obj (
    field "items" (arr (to_items (all_owned times k owner tasks)))
      (field "missing_ids" (arr nil) end))
listed times k owner tasks (id ∷ ids) = obj (
    field "items" (arr (to_items (found_items times k owner tasks (id ∷ ids))))
      (field "missing_ids" (arr (texts (missing_ids owner tasks (id ∷ ids)))) end))

unfoldable pub list_tasks : Host → Times → Clock → ℤ → Value → List String → Inner → Value × Inner
unfolding listed
list_tasks h times k retention identity task_ids inner =
    let (tasks, cleaned) = cleanup_tasks times k retention inner.tasks in
    (
      listed times k (owner_id h times identity) tasks (requested task_ids),
      changed cleaned tasks inner,
    )

unfoldable pub get_task : Host → Times → Clock → Value → String → Inner → Value
get_task h times k identity task_id inner =
    elim (get (task_key (owner_id h times identity) (trim task_id)) inner.tasks) [
      | none ↦ null
      | some task ↦ obj (public_task times k task)
    ]

unfoldable pub cleanup : Times → Clock → ℤ → Inner → Value × Inner
cleanup times k retention inner =
    let (tasks, cleaned) = cleanup_tasks times k retention inner.tasks in
    (obj (field "removed" (bool cleaned) end), changed cleaned tasks inner)
