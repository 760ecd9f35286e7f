-- ===== src/Conversation/Messages.antt =====
-- src/services/protocol/conversation.rs: the messages of a request as they are sent on, and the
-- history that the decoder takes from them.
use model2api.Common.{
  String, ◌≡◌, refl, ◌∙◌, Bool, true, false, ◌||◌, Option, none, some, List, [], ◌∷◌, ◌++◌, ◌==◌,
  if◌then◌else◌, append, option_or, is_some, Bool-cases, inl, inr, eq_iff,
}
use model2api.Json.{
  Value, Items, Fields, null, str, arr, obj, nil, cons, end, field, get_field, as_str, bind_option,
}
use model2api.Conversation.{text_of, assistant_history_text}

is_text_type : String → Bool
is_text_type t = t == "text" || t == "input_text" || t == "output_text"

is_image_type : String → Bool
is_image_type t = t == "image" || t == "image_url" || t == "input_image"

part_text : Value → String
unfolding is_text_type
part_text (str s) = s
part_text (obj m) =
    if is_text_type (text_of (get_field "type" m)) then text_of (get_field "text" m) else ""
part_text other = ""

parts_text : Items → String
unfolding part_text
parts_text nil = ""
parts_text (cons item items) = append (part_text item) (parts_text items)

unfoldable pub message_text : Value → String
unfolding parts_text
message_text (str s) = s
message_text (arr items) = parts_text items
message_text other = ""

is_image_part : Value → Bool
unfolding is_image_type
is_image_part (obj m) =
    is_image_type (text_of (get_field "type" m)) || is_some (get_field "source" m)
is_image_part other = false

image_items : Items → Items
unfolding is_image_part
image_items nil = nil
image_items (cons part items) =
    let rest = image_items items in if is_image_part part then cons part rest else rest

unfoldable pub collect_image_parts : Value → Items
unfolding image_items
collect_image_parts (arr items) = image_items items
collect_image_parts other = nil

abbrev message : String → Value → Value
message role content = obj (field "role" (str role) (field "content" content end))

text_part : String → Items → Items
text_part text parts =
    if text == ""
    then parts
    else cons (obj (field "type" (str "text") (field "text" (str text) end))) parts

content_with : String → Items → Value
unfolding text_part
content_with text nil = str text
content_with text (cons part parts) = arr (text_part text (cons part parts))

abbrev role_in : Fields → String
role_in m = option_or "user" (bind_option (get_field "role" m) as_str)

abbrev content_in : Fields → Value
content_in m = option_or null (get_field "content" m)

normalize_message : Fields → Value
unfolding content_with
normalize_message m = message (role_in m) (
    content_with (message_text (content_in m))
      (if role_in m == "user" then collect_image_parts (content_in m) else nil))

normalize_each : List Value → List Value
unfolding normalize_message
normalize_each [] = []
normalize_each (v ∷ messages) =
    let rest = normalize_each messages in
    elim v [ obj m ↦ normalize_message m ∷ rest | other ↦ rest ]

abbrev system_message : String → List Value
system_message text = if text == "" then [] else message "system" (str text) ∷ []

-- `global` is the configured prompt.
unfoldable pub normalize_messages : String → List Value → Option Value → List Value
unfolding normalize_each
normalize_messages global messages system =
    system_message global
    ++ (system_message (elim system [ none ↦ "" | some v ↦ message_text v ])
        ++ normalize_each messages)

unfoldable pub messages_for_request : Option (List Value) → String → List Value
messages_for_request (some (m ∷ messages)) prompt = m ∷ messages
messages_for_request other prompt = if prompt == "" then [] else message "user" (str prompt) ∷ []

-- What the assistant said in the messages of a request.
abbrev pub spoken : List Value → String
spoken [] = ""
spoken (obj m ∷ messages) =
    if role_in m == "assistant"
    then append (message_text (content_in m)) (spoken messages)
    else spoken messages
spoken (other ∷ messages) = spoken messages

history-system :
    (text : String) (messages : List Value)
    → assistant_history_text (system_message text ++ messages) ≡ assistant_history_text messages
unfolding assistant_history_text get_field
history-system text messages = elim (Bool-cases (text == "")) [
  | inl empty ↦ rw empty refl
  | inr told ↦ rw told refl
]

not_user : (t : String) → (t == "assistant") ≡ true → (t == "user") ≡ false
not_user t h = rw ((eq_iff t "assistant").0 h) refl

history-each :
    (messages : List Value) → assistant_history_text (normalize_each messages) ≡ spoken messages
unfolding assistant_history_text get_field normalize_each normalize_message content_with
history-each [] = refl
history-each (obj m ∷ messages) = elim (Bool-cases (role_in m == "assistant")) [
  | inl mine ↦ rw (mine, not_user (role_in m) mine, history-each messages) refl
  | inr other ↦ rw (other, history-each messages) refl
]
history-each (_ ∷ messages) = history-each messages

-- The history that the decoder strips from an answer is what the assistant said in the request,
-- whatever form its messages have and whatever system prompts are put in front.
pub history-normalize_messages :
    (global : String) (messages : List Value) (system : Option Value)
    → assistant_history_text (normalize_messages global messages system) ≡ spoken messages
unfolding normalize_messages
history-normalize_messages global messages system =
    let told = elim system as (λ x. String) [ none ↦ "" | some v ↦ message_text v ] in
    history-system global (system_message told ++ normalize_each messages)
    ∙ history-system told (normalize_each messages)
    ∙ history-each messages
