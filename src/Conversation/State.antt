-- ===== src/Conversation/State.antt =====
-- src/services/protocol/conversation.rs: `ConversationState` and `update_state`.
pub mod Kept
use model2api.Common.{
  String, ◌≡◌, Bool, true, false, not, ◌&&◌, ◌||◌, Option, none, some, List, [], ◌∷◌, ◌++◌, ◌==◌,
  if◌then◌else◌, trim, elem, option_or,
}
use model2api.Common.Prefix.{contains}
use text.Mathlib.Text.{starts_with}
use model2api.Json.{
  Value, Items, Fields, Host, obj, arr, nil, cons, end, field, get_field, get_value, as_str,
  as_bool, bind_option, is_object,
}
use model2api.Conversation.{Patterns, text_of, text_is}

pub record ConversationState : Type 0 where
  pub text : String
  pub raw_text : String
  pub conversation_id : String
  pub file_ids : List String
  pub sediment_ids : List String
  pub blocked : Bool
  pub tool_invoked : Option Bool
  pub turn_use_case : String

abbrev pub default_state : ConversationState
default_state = record {
  text = "";
  raw_text = "";
  conversation_id = "";
  file_ids = [];
  sediment_ids = [];
  blocked = false;
  tool_invoked = none;
  turn_use_case = "";
}

unfoldable pub add_unique : List String → List String → List String
add_unique values [] = values
add_unique values (c ∷ candidates) =
    add_unique (if not (c == "") && not (elem c values) then values ++ (c ∷ []) else values)
      candidates

unfoldable pub extract_conversation_ids : Patterns → String → String × List String × List String
extract_conversation_ids r payload = (
  option_or "" (r.conversation_id payload),
  add_unique (add_unique [] (r.file_service_ids payload)) (r.real_image_file_ids payload),
  r.sediment_ids payload,
)

abbrev nonempty_obj : Value → Option Value
nonempty_obj v = elim v [
  | obj m ↦ elim m [ end ↦ none | field k w n ↦ some (obj (field k w n)) ]
  | other ↦ none
]

unfoldable pub event_message : Fields → Option Value
event_message event = elim (bind_option (get_field "message" event) nonempty_obj) [
  | some m ↦ some m
  | none ↦ bind_option (get_field "v" event) (λ v. bind_option (get_value "message" v) nonempty_obj)
]

abbrev inside : String → String → Value → Option Value
inside outer inner v = bind_option (get_value outer v) (get_value inner)

is_pointer : Value → Bool
is_pointer part =
    is_object part
    && (text_is (get_value "content_type" part) "image_asset_pointer"
        || elim (bind_option (get_value "asset_pointer" part) as_str) [
          | none ↦ false
          | some ap ↦ starts_with ap "file-service://" || starts_with ap "sediment://"
        ])

any_pointer : Items → Bool
unfolding is_pointer
any_pointer nil = false
any_pointer (cons part parts) = is_pointer part || any_pointer parts

is_image_message : Value → Bool
unfolding any_pointer
is_image_message m =
    text_is (inside "author" "role" m) "tool"
    && (text_is (inside "metadata" "async_task_type" m) "image_gen"
        || text_is (inside "content" "content_type" m) "multimodal_text"
          && elim (inside "content" "parts" m) [
            | none ↦ false
            | some v ↦ elim v [ arr parts ↦ any_pointer parts | other ↦ false ]
          ])

unfoldable pub is_image_tool_event : Fields → Bool
unfolding is_image_message
is_image_tool_event event = elim (event_message event) [
  | none ↦ false
  | some m ↦ is_image_message m
]

unfoldable pub is_user_message_event : Host → Fields → Bool
is_user_message_event h event = elim (event_message event) [
  | none ↦ false
  | some m ↦ h.lower (trim (text_of (inside "author" "role" m))) == "user"
]

abbrev is_true : Option Bool → Bool
is_true o = option_or false o

-- Whether the identifiers in a payload are those of an answer, and not of an input.
unfoldable pub image_context : Host → ConversationState → String → Option Fields → Bool
image_context h state payload none = is_true state.tool_invoked
image_context h state payload (some event) =
    let is_user = is_user_message_event h event in
    is_image_tool_event event
    || is_true state.tool_invoked && not is_user
    || text_is (get_field "o" event) "patch"
      && not is_user
      && (contains payload "asset_pointer" || contains payload "file-service://")

abbrev pub first_text : String → String → String
first_text t u = if t == "" then u else t

unfoldable pub with_ids :
    Host → Patterns → String → Option Fields → ConversationState → ConversationState
with_ids h r payload event state =
    let (id, files, sediments) = extract_conversation_ids r payload in
    let named = record state { conversation_id = first_text state.conversation_id id } in
    if image_context h state payload event
    then record named {
      file_ids = add_unique state.file_ids files;
      sediment_ids = add_unique state.sediment_ids sediments;
    }
    else named

unfoldable pub is_blocking : Fields → Bool
is_blocking event =
    text_is (get_field "type" event) "moderation"
    && elim (bind_option (get_field "moderation_response" event) (get_value "blocked")) [
      | none ↦ false
      | some v ↦ is_true (as_bool v)
    ]

-- The metadata of the answer, where the event tells it.
abbrev metadata_of : Fields → Option Value
metadata_of event =
    if text_is (get_field "type" event) "server_ste_metadata"
    then get_field "metadata" event
    else none

abbrev pub or_old : Option Bool → Option Bool → Option Bool
or_old o old = elim o [ some b ↦ some b | none ↦ old ]

unfoldable pub with_event : Fields → ConversationState → ConversationState
with_event event state =
    let outer = text_of (get_field "conversation_id" event) in
    let inner = text_of (bind_option (get_field "v" event) (get_value "conversation_id")) in
    let of = λ (key : String). bind_option (metadata_of event) (get_value key) in
    record state {
      conversation_id = first_text inner (first_text outer state.conversation_id);
      blocked = is_blocking event || state.blocked;
      tool_invoked = or_old (bind_option (of "tool_invoked") as_bool) state.tool_invoked;
      turn_use_case = first_text (text_of (of "turn_use_case")) state.turn_use_case;
    }

unfoldable pub update_state :
    Host → Patterns → String → Option Fields → ConversationState → ConversationState
update_state h r payload none state = with_ids h r payload none state
update_state h r payload (some event) state =
    with_event event (with_ids h r payload (some event) state)
