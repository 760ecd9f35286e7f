-- ===== src/Images/Output.antt =====
-- src/services/protocol/conversation.rs: `ImageOutput`. The constructors take the reading of the
-- clock, in seconds, that `now_ts` makes.
use model2api.Common.{String, ℤ, List, [], ◌==◌, if◌then◌else◌, Bool}
use model2api.Json.{Value, Fields, obj, arr, nil, int, str, end, field, set, remove_field}
use model2api.Storage.JsonFile.{items_of}

-- `entries` is the field `data`, a word that is taken.
pub record ImageOutput : Type 0 where
  pub kind : String
  pub model : String
  pub index : ℤ
  pub total : ℤ
  pub created : ℤ
  pub text : String
  pub upstream_event_type : String
  pub entries : List Value
  pub account_email : String
  pub conversation_id : String

unfoldable pub progress : ℤ → String → ℤ → ℤ → String → String → ImageOutput
progress now model index total text upstream = record {
  kind = "progress";
  model = model;
  index = index;
  total = total;
  created = now;
  text = text;
  upstream_event_type = upstream;
  entries = [];
  account_email = "";
  conversation_id = "";
}

unfoldable pub message : ℤ → String → ℤ → ℤ → String → String → ImageOutput
message now model index total text conversation_id = record {
  kind = "message";
  model = model;
  index = index;
  total = total;
  created = now;
  text = text;
  upstream_event_type = "";
  entries = [];
  account_email = "";
  conversation_id = conversation_id;
}

unfoldable pub result : ℤ → String → ℤ → ℤ → List Value → String → ImageOutput
result now model index total entries conversation_id = record {
  kind = "result";
  model = model;
  index = index;
  total = total;
  created = now;
  text = "";
  upstream_event_type = "";
  entries = entries;
  account_email = "";
  conversation_id = conversation_id;
}

abbrev pub is_message : ImageOutput → Bool
is_message o = o.kind == "message"

abbrev pub is_result : ImageOutput → Bool
is_result o = o.kind == "result"

named_fields : ImageOutput → Fields → Fields
named_fields o chunk =
    let with_email =
      if o.account_email == "" then chunk else set "_account_email" (str o.account_email) chunk in
    if o.conversation_id == ""
    then with_email
    else set "_conversation_id" (str o.conversation_id) with_email

without_progress : Fields → Fields
without_progress chunk = remove_field "upstream_event_type" (remove_field "progress_text" chunk)

unfoldable pub to_chunk : ImageOutput → Value
unfolding named_fields without_progress
to_chunk o =
    let chunk = named_fields o (
      field "object" (str "image.generation.chunk") (
        field "created" (int o.created) (
          field "model" (str o.model) (
            field "index" (int o.index) (
              field "total" (int o.total) (
                field "progress_text" (str o.text) (
                  field "upstream_event_type" (str o.upstream_event_type)
                    (field "data" (arr nil) end)))))))) in
    if is_message o
    then obj (
        without_progress
          (set "message" (str o.text) (set "object" (str "image.generation.message") chunk)))
    else if is_result o
    then obj (
        without_progress (
          set "data" (arr (items_of o.entries))
            (set "object" (str "image.generation.result") chunk)))
    else obj chunk
