-- ===== src/Tasks.antt =====
-- src/services/image_task_service.rs: the table of the image tasks. A time is a whole number of
-- milliseconds, where the source has seconds as a float; what a float becomes in JSON is a
-- parameter, like the reading of dates. A table is listed in the order of its entries, which stands
-- for the order in which the source walks its hash map.
pub mod Stored
pub mod Service
pub mod Running
pub mod Jobs
pub mod Polled
pub mod Owned
use model2api.Common.{
  ℕ, zero, suc, String, Bool, true, false, not, ◌&&◌, ◌||◌, Option, none, some, List, [], ◌∷◌, ◌++◌,
  map, filterb, length, nat_eq, ◌==◌, if◌then◌else◌, trim, append, replace_char, ℤ, pos, negsuc,
  ltb_ℤ, max_ℤ, sub_ℕ, pos_part, neg_part, ◌+◌, option_or, elem, is_some,
}
use model2api.Common.Maps.{Map, get, insert, remove, retain, values}
use model2api.Common.Sorting.{sort_by, text_lt, take_chars}
use model2api.Json.{
  Value, Items, Fields, Host, null, bool, int, str, arr, obj, nil, cons, end, field, get_field,
  get_value, as_bool, as_str, bind_option, set, text_at, is_array, is_object,
}

-- What the code takes from floats and from chrono: the JSON number of a time in seconds, the time
-- that a JSON number tells (0 where it is none), a span in rounded tenths of a second, a date read
-- in a format of local time, and a date with its zone, both in whole seconds.
pub record Times : Type 0 where
  pub seconds_value : ℤ → Value
  pub seconds_of : Value → ℤ
  pub tenths : ℤ → Value
  pub parse_local : String → String → Option ℤ
  pub parse_rfc3339 : String → Option ℤ
  pub is_zero_number : Value → Bool

-- A reading of the clock: as text, and in milliseconds.
pub record Clock : Type 0 where
  pub now_iso : String
  pub now_millis : ℤ

-- The difference of two times.
abbrev pub since : ℤ → ℤ → ℤ
since now then' = sub_ℕ (pos_part now + neg_part then') (neg_part now + pos_part then')

-- `str(value or default).strip()`: null, false and zero give the default.
raw_value : Host → Times → Option Value → String → String
raw_value h times none default = default
raw_value h times (some v) default = elim v [
  | str t ↦ t
  | null ↦ default
  | bool false ↦ default
  | other ↦ if times.is_zero_number other then default else h.print other
]

unfoldable pub clean_value : Host → Times → Option Value → String → String
unfolding raw_value
clean_value h times value default =
    let trimmed = trim (raw_value h times value default) in
    if trimmed == "" then trim default else trimmed

unfoldable pub owner_id : Host → Times → Value → String
owner_id h times identity =
    let id = clean_value h times (get_value "id" identity) "" in
    if id == "" then "anonymous" else id

unfoldable pub task_key : String → String → String
task_key owner task_id = append owner (append ":" task_id)

abbrev pub truthy_str : Value → Bool
truthy_str value = elim (as_str value) [ none ↦ false | some t ↦ not (t == "") ]

-- The formats of a stored date, with the number of characters that are read.
abbrev date_formats : List (String × ℕ)
date_formats =
    ("%Y-%m-%d %H:%M:%S", 19) ∷ ("%Y-%m-%dT%H:%M:%S%.f", 26) ∷ ("%Y-%m-%dT%H:%M:%S", 26) ∷ []

first_format : Times → List (String × ℕ) → String → Option ℤ
first_format times [] s = none
first_format times ((format, n) ∷ formats) s =
    let rest = first_format times formats s in
    elim (times.parse_local format (take_chars n s)) [ none ↦ rest | some at ↦ some at ]

date_of : Times → String → ℤ
unfolding first_format
date_of times s = if s == "" then pos 0 else elim (first_format times date_formats s) [
  | some at ↦ at
  | none ↦ option_or (pos 0) (times.parse_rfc3339 (replace_char b'Z' "+00:00" s))
]

-- In whole seconds; 0 for what is no date.
unfoldable pub parse_timestamp : Times → Option Value → ℤ
unfolding date_of
parse_timestamp times value = elim (bind_option value as_str) [
  | none ↦ pos 0
  | some s ↦ date_of times (trim s)
]

abbrev copy_key : Fields → String → Fields → Fields
copy_key task key item = set key (option_or null (get_field key task)) item

-- A field that is copied where it passes a test.
abbrev pub copy_if : (Value → Bool) → Fields → String → Fields → Fields
copy_if test task key item = elim (get_field key task) [
  | none ↦ item
  | some v ↦ if test v then set key v item else item
]

abbrev not_null : Value → Bool
not_null v = elim v [ null ↦ false | other ↦ true ]

abbrev pub status_of : Fields → String
status_of task = text_at "status" task

abbrev seconds_at : Times → String → Fields → ℤ
seconds_at times key task = elim (get_field key task) [ none ↦ pos 0 | some v ↦ times.seconds_of v ]

base_ts : Times → Fields → ℤ
base_ts times task =
    if status_of task == "running"
    then seconds_at times "started_ts" task
    else if ltb_ℤ (pos 0) (seconds_at times "created_ts" task)
    then seconds_at times "created_ts" task
    else seconds_at times "updated_ts" task

with_elapsed : Times → Clock → Fields → Fields → Fields
unfolding base_ts
with_elapsed times k task item =
    if (status_of task == "running" || status_of task == "queued")
      && ltb_ℤ (pos 0) (base_ts times task)
    then set "elapsed_secs" (times.tenths (since k.now_millis (base_ts times task))) item
    else item

-- The view of a task that its owner sees.
unfoldable pub public_task : Times → Clock → Fields → Fields
unfolding with_elapsed
public_task times k task =
    let item = copy_key task "updated_at" (
      copy_key task "created_at" (
        copy_key task "quality" (
          copy_key task "size" (
            copy_key task "model"
              (copy_key task "mode" (copy_key task "status" (copy_key task "id" end))))))) in
    let told = copy_if truthy_str task "conversation_id" item in
    let made = copy_if not_null task "usage" (copy_if not_null task "data" told) in
    let failed = copy_if truthy_str task "progress" (copy_if truthy_str task "error" made) in
    with_elapsed times k task (copy_if not_null task "duration_ms" failed)

abbrev pub is_valid_status : String → Bool
is_valid_status t = t == "queued" || t == "running" || t == "success" || t == "error"

abbrev pub is_unfinished : Fields → Bool
is_unfinished task = status_of task == "queued" || status_of task == "running"

abbrev pub is_finished : Fields → Bool
is_finished task = status_of task == "success" || status_of task == "error"
