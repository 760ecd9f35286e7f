-- ===== src/Conversation.antt =====
-- src/services/protocol/conversation.rs: the decoder of the events of a text conversation, and what
-- it needs. This file: the falsy values, the history of the assistant, and `sanitize_output_text`.
pub mod Patches
pub mod Messages
pub mod State
pub mod Decoder
pub mod Rotation
use model2api.Common.{
  ℕ, String, ◌≡◌, refl, Bool, true, false, not, ◌&&◌, ◌||◌, Option, none, some, List, [], ◌∷◌, ◌==◌,
  nat_eq, if◌then◌else◌, trim, append, option_or, pos, negsuc, map,
}
use model2api.Common.Prefix.{split_on}
use text.Mathlib.Text.{starts_with}
use model2api.Json.{
  Value, Items, Fields, Host, null, bool, int, float, str, arr, obj, nil, cons, end, field,
  get_value, as_str, bind_option,
}

-- What the code takes from regex and from serde_json: the first identifier of a conversation in a
-- payload, all identifiers of files and of sediments, the replacements of the three patterns of
-- `sanitize_output_text`, the two tests of an internal annotation, and the reading of a payload.
pub record Patterns : Type 0 where
  pub conversation_id : String → Option String
  pub file_service_ids : String → List String
  pub real_image_file_ids : String → List String
  pub sediment_ids : String → List String
  pub replace_annotations : (String → String) → String → String
  pub cut_annotation_tail : String → String
  pub join_punctuation : String → String
  pub is_internal1 : String → Bool
  pub is_internal2 : String → Bool
  pub parse : String → Option Value

-- A float is zero with either sign.
unfoldable pub json_falsy : Value → Bool
json_falsy null = true
json_falsy (bool b) = not b
json_falsy (int (pos n)) = nat_eq n 0
json_falsy (int (negsuc n)) = false
json_falsy (float bits) = nat_eq bits 0 || nat_eq bits 9_223_372_036_854_775_808
json_falsy (str s) = s == ""
json_falsy (arr nil) = true
json_falsy (arr (cons v vs)) = false
json_falsy (obj end) = true
json_falsy (obj (field k v m)) = false

abbrev pub text_of : Option Value → String
text_of o = option_or "" (bind_option o as_str)

abbrev pub text_is : Option Value → String → Bool
text_is o t = elim (bind_option o as_str) [ none ↦ false | some s ↦ s == t ]

abbrev pub is_assistant : Value → Bool
is_assistant message = text_is (get_value "role" message) "assistant"

unfoldable pub assistant_history_text : List Value → String
assistant_history_text [] = ""
assistant_history_text (item ∷ messages) =
    let rest = assistant_history_text messages in
    if is_assistant item then append (text_of (get_value "content" item)) rest else rest

unfoldable pub assistant_history_messages : List Value → List String
assistant_history_messages [] = []
assistant_history_messages (item ∷ messages) =
    let rest = assistant_history_messages messages in
    let c = text_of (get_value "content" item) in
    if is_assistant item then (if c == "" then rest else c ∷ rest) else rest

is_internal_annotation_part : Host → Patterns → String → Bool
is_internal_annotation_part h r value =
    let v = trim value in
    let lower = h.lower v in
    v == ""
    || r.is_internal1 lower
    || r.is_internal2 lower
    || starts_with lower "turn"
    || starts_with lower "source"

readable_annotation_part : Host → Patterns → List String → String
unfolding is_internal_annotation_part
readable_annotation_part h r [] = ""
readable_annotation_part h r (part ∷ parts) =
    let rest = readable_annotation_part h r parts in
    let value = trim part in
    if not (value == "") && not (is_internal_annotation_part h r value) then value else rest

abbrev first_of : List String → String
first_of ps = elim ps [ [] ↦ "" | p ∷ rest ↦ p ]

abbrev rest_of : List String → List String
rest_of ps = elim ps [ [] ↦ [] | p ∷ rest ↦ rest ]

-- The parts of an annotation are separated by U+E202.
unfoldable pub replace_annotation : Host → Patterns → String → String
unfolding readable_annotation_part
replace_annotation h r payload =
    let parts = map trim (split_on 57_858 payload) in
    let args = rest_of parts in
    let label = first_of args in
    let url = first_of (rest_of args) in
    if h.lower (first_of parts) == "url"
    then (if not (label == "") && (starts_with url "http://" || starts_with url "https://")
        then append label (append " (" (append url ")"))
        else (if label == "" then url else label))
    else readable_annotation_part h r args

unfoldable pub sanitize_output_text : Host → Patterns → String → String
sanitize_output_text h r text =
    r.join_punctuation (r.cut_annotation_tail (r.replace_annotations (replace_annotation h r) text))
