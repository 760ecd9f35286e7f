-- ===== src/Conversation/Patches.antt =====
-- src/services/protocol/conversation.rs: the text of the assistant in an event, as a whole message
-- or as patches of the text so far.
pub mod History
pub mod Append
use model2api.Common.{
  ℕ, zero, suc, String, ◌≡◌, refl, Bool, true, false, not, ◌&&◌, Option, none, some, List, [], ◌∷◌,
  ◌==◌, if◌then◌else◌, trim, append, option_or,
}
use model2api.Common.Prefix.{after}
use text.Mathlib.Text.{starts_with}
use Prim.Native.String.{len}
use model2api.Json.{
  Value, Items, Fields, Host, null, bool, int, float, str, arr, obj, nil, cons, end, field,
  get_field, get_value, as_str, bind_option, is_object,
}
use model2api.Conversation.{Patterns, json_falsy, text_of, text_is}

pub strip_from : ℕ → String → String → String
strip_from zero text history = text
strip_from (suc n) text history = elim (starts_with text history) [
  | true ↦ strip_from n (after text history) history
  | false ↦ text
]

-- Every round takes a byte at least, so that the length of the text is fuel enough.
unfoldable pub strip_history : String → String → String
unfolding strip_from
strip_history text history = if history == "" then text else strip_from (len text) text history

texts_in : Items → String
texts_in nil = ""
texts_in (cons v vs) =
    let rest = texts_in vs in elim (as_str v) [ none ↦ rest | some t ↦ append t rest ]

parts_text : Option Value → String
unfolding texts_in
parts_text (some (arr parts)) = texts_in parts
parts_text other = ""

unfoldable pub assistant_message_text : Value → String
unfolding parts_text
assistant_message_text message =
    let content = option_or (obj end) (get_value "content" message) in
    let text = parts_text (get_value "parts" content) in
    if text == "" then text_of (get_value "text" content) else text

patch_text : Host → Option Value → String
patch_text h none = ""
patch_text h (some v) = elim v [
  | str t ↦ t
  | other ↦ if json_falsy other then "" else h.print other
]

unfoldable pub apply_patch_op : Host → Fields → String → String → String
unfolding patch_text
apply_patch_op h operation current history =
    let value = patch_text h (get_field "v" operation) in
    if text_is (get_field "o" operation) "append"
    then append current value
    else (if text_is (get_field "o" operation) "replace"
        then strip_history value history
        else current)

abbrev is_falsy_at : String → Fields → Bool
is_falsy_at key event = elim (get_field key event) [ none ↦ true | some v ↦ json_falsy v ]

-- The text under "v", where it continues the text so far.
abbrev continuation : Fields → String → Option String
continuation event current = elim (bind_option (get_field "v" event) as_str) [
  | none ↦ none
  | some t ↦
      if not (current == "") && is_falsy_at "p" event && is_falsy_at "o" event then some t else none
]

-- The branches of the source, where `listed` is what the list of operations under "v" makes of the
-- text. The source walks it in the same way under "patch" and without an operation.
unfoldable pub patched : Host → Fields → String → String → String → String
patched h event listed current history =
    if text_is (get_field "p" event) "/message/content/parts/0"
    then apply_patch_op h event current history
    else elim (continuation event current) [ some t ↦ append current t | none ↦ listed ]

unfoldable mutual
  pub patch_listed : Host → Fields → String → String → String
  patch_listed h end current history = current
  patch_listed h (field k v m) current history =
      let here = patch_value h v current history in
      let rest = patch_listed h m current history in if k == "v" then here else rest

  pub patch_value : Host → Value → String → String → String
  patch_value h (arr items) current history = patch_items h items current history
  patch_value h _ current history = current

  pub patch_items : Host → Items → String → String → String
  patch_items h nil current history = current
  patch_items h (cons (obj m) items) current history =
      patch_items h items (patched h m (patch_listed h m current history) current history) history
  patch_items h (cons _ items) current history = patch_items h items current history

unfoldable pub apply_text_patch : Host → Fields → String → String → String
apply_text_patch h event current history =
    patched h event (patch_listed h event current history) current history

-- The message of a candidate, where both are objects.
abbrev message_in : Option Value → Option Value
message_in candidate =
    bind_option candidate
      (λ c. bind_option (get_value "message" c) (λ m. if is_object m then some m else none))

abbrev role_of : Value → Option Value
role_of message = bind_option (get_value "author" message) (get_value "role")

whole_text : Host → Option Value → String
whole_text h none = ""
whole_text h (some message) =
    if h.lower (trim (text_of (role_of message))) == "assistant"
    then assistant_message_text message
    else ""

unfoldable pub assistant_raw_text : Host → Fields → String → String → String
unfolding whole_text
assistant_raw_text h event current history =
    let first = whole_text h (message_in (some (obj event))) in
    let second = whole_text h (message_in (get_field "v" event)) in
    if not (first == "")
    then strip_history first history
    else (if not (second == "")
        then strip_history second history
        else apply_text_patch h event current history)

assistant_of : Option Value → Option Value
assistant_of o = bind_option o (λ m. if text_is (role_of m) "assistant" then some m else none)

unfoldable pub event_assistant_text : Fields → String → String
unfolding assistant_of
event_assistant_text event history = elim (assistant_of (message_in (some (obj event)))) [
  | some m ↦ strip_history (assistant_message_text m) history
  | none ↦ elim (assistant_of (message_in (get_field "v" event))) [
    | some m ↦ strip_history (assistant_message_text m) history
    | none ↦ ""
  ]
]
