-- ===== src/Conversation/Decoder.antt =====
-- src/services/protocol/conversation.rs: `ConversationDecoder`, and the loop of `run_text_stream`
-- over the payloads of a stream, which ends before them where the receiver is gone.
pub mod Deltas
pub mod Patched
pub mod Keeps
use model2api.Common.{
  ℕ, suc, String, ◌≡◌, Bool, true, false, not, Option, none, some, List, [], ◌∷◌, ◌++◌, ◌==◌,
  if◌then◌else◌, append,
}
use model2api.Common.Prefix.{after}
use text.Mathlib.Text.{starts_with}
use model2api.Json.{
  Value, Items, Fields, Host, null, bool, str, arr, obj, nil, cons, end, field, set, get_field,
  as_str, bind_option, is_object,
}
use model2api.Conversation.{Patterns, text_of, text_is, sanitize_output_text}
use model2api.Conversation.Patches.{assistant_raw_text, event_assistant_text}
use model2api.Conversation.State.{ConversationState, default_state, update_state}

-- The messages of the history that the stream has not repeated yet stand for the index.
pub record ConversationDecoder : Type 0 where
  pub state : ConversationState
  pub history_text : String
  pub history_messages : List String

unfoldable pub new : String → List String → ConversationDecoder
new history_text history_messages = record {
  state = default_state;
  history_text = history_text;
  history_messages = history_messages;
}

texts : List String → Items
texts [] = nil
texts (t ∷ ts) = cons (str t) (texts ts)

abbrev invoked_value : Option Bool → Value
invoked_value o = elim o [ none ↦ null | some b ↦ bool b ]

-- An event as it is handed on: the type, the state, and what the type adds.
unfoldable pub base_event : ConversationState → String → Fields
unfolding texts
base_event s event_type = field "type" (str event_type) (
    field "text" (str s.text) (
      field "conversation_id" (str s.conversation_id) (
        field "file_ids" (arr (texts s.file_ids)) (
          field "sediment_ids" (arr (texts s.sediment_ids)) (
            field "blocked" (bool s.blocked) (
              field "tool_invoked" (invoked_value s.tool_invoked)
                (field "turn_use_case" (str s.turn_use_case) end)))))))

abbrev pub Pushed : Type 0
Pushed = List Fields × ConversationDecoder

-- The part of a new text that was not told yet: all of it, where the text was rewritten.
unfoldable pub delta_of : String → String → String
delta_of old next = if starts_with next old then after next old else next

unfoldable pub push_text : Fields → String → String → ConversationDecoder → Pushed
push_text event raw next d =
    let read = record d.state { raw_text = raw } in
    if next == d.state.text
    then (
      set "raw" (obj event) (base_event read "conversation.event") ∷ [],
      record d { state = read },
    )
    else (let told = record read { text = next } in
        (
          set "delta" (str (delta_of d.state.text next))
                (set "raw" (obj event) (base_event told "conversation.delta"))
              ∷ [],
          record d { state = told },
        ))

unfoldable pub push_answer : Host → Patterns → Fields → ConversationDecoder → Pushed
push_answer h r event d =
    let raw = assistant_raw_text h event d.state.raw_text d.history_text in
    push_text event raw (sanitize_output_text h r raw) d

-- The messages that are left, where the event repeats the first of them.
unfoldable pub repeated : Fields → ConversationDecoder → Option (List String)
repeated event d = elim d.history_messages [
  | [] ↦ none
  | m ∷ ms ↦ if event_assistant_text event d.history_text == m then some ms else none
]

unfoldable pub push_seen : Host → Patterns → Fields → ConversationDecoder → Pushed
push_seen h r event seen = elim (repeated event seen) [
  | some ms ↦ (
    [],
    record seen { state = record seen.state { raw_text = ""; text = "" }; history_messages = ms },
  )
  | none ↦ push_answer h r event seen
]

unfoldable pub push_object : Host → Patterns → String → Fields → ConversationDecoder → Pushed
push_object h r payload event d =
    push_seen h r event (record d { state = update_state h r payload (some event) d.state })

unfoldable pub push_parsed : Host → Patterns → String → Option Value → ConversationDecoder → Pushed
push_parsed h r payload none d =
    let seen = record d { state = update_state h r payload none d.state } in
    (set "payload" (str payload) (base_event seen.state "conversation.raw") ∷ [], seen)
push_parsed h r payload (some (obj event)) d = push_object h r payload event d
push_parsed h r payload (some other) d =
    (set "raw" other (base_event d.state "conversation.event") ∷ [], d)

unfoldable pub push : Host → Patterns → String → ConversationDecoder → Pushed
unfolding push_parsed
push h r payload d =
    if payload == ""
    then ([], d)
    else (if payload == "[DONE]"
        then (set "done" (bool true) (base_event d.state "conversation.done") ∷ [], d)
        else push_parsed h r payload (r.parse payload) d)

-- The deltas that are sent on for the events of one payload.
unfoldable pub deltas : List Fields → List String
deltas [] = []
deltas (ev ∷ evs) =
    let rest = deltas evs in
    let delta = text_of (get_field "delta" ev) in
    if text_is (get_field "type" ev) "conversation.delta"
    then (if delta == "" then rest else delta ∷ rest)
    else rest

-- The loop over the payloads of a stream, which stops behind the mark of its end.
unfoldable pub run_text_stream :
    Host → Patterns → List String → ConversationDecoder → List String × ConversationDecoder
run_text_stream h r [] d = ([], d)
run_text_stream h r (payload ∷ payloads) d =
    let (evs, seen) = push h r payload d in
    let (sent, last) = run_text_stream h r payloads seen in
    if payload == "[DONE]" then (deltas evs, seen) else (deltas evs ++ sent, last)

-- The answer as `collect_text` puts it together.
unfoldable pub collected : List String → String
collected [] = ""
collected (t ∷ ts) = append t (collected ts)
