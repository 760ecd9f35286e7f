-- ===== src/Anthropic/Stream.antt =====
-- src/services/protocol/anthropic_v1_messages.rs: the answer of the Anthropic interface as a stream of
-- events.
pub mod Plain
pub mod Frames
pub mod Phases
use model2api.Common.{
  ℕ, suc, String, Bool, true, false, not, ◌&&◌, Option, none, some, List, [], ◌∷◌, ◌++◌, ℤ, pos,
  ◌==◌, if◌then◌else◌, append, take, option_or,
}
use text.Mathlib.Text.{starts_with}
use model2api.Json.{
  Value, Fields, Host, null, int, str, arr, obj, nil, end, field, get_field, as_str, bind_option,
}
use model2api.Conversation.{json_falsy}
use model2api.Images.{ok, err}
use model2api.Conversation.Rotation.{AppError, Sent}
use model2api.Anthropic.{MessageRequest, tools_active}
use model2api.Anthropic.Content.{
  Markup, streamable_text, Block, text_content, tool_use, content_blocks, usage,
}

-- The events of a stream. A block starts empty; `tool_start` has the identifier and the name.
pub data StreamEvent : Type 0 where
  message_start : (id model : String) → ℤ → StreamEvent
  text_start : ℕ → StreamEvent
  tool_start : ℕ → (id name : String) → StreamEvent
  text_delta : ℕ → String → StreamEvent
  input_json_delta : ℕ → String → StreamEvent
  content_block_stop : ℕ → StreamEvent
  message_delta : String → ℤ → StreamEvent
  message_stop : ℤ → StreamEvent
  error : String → StreamEvent

-- The input of a tool, as one text.
partial_json : Host → Value → String
partial_json h input = h.print (if json_falsy input then obj end else input)

buffered_block : Host → ℕ → Block → List StreamEvent
unfolding partial_json
buffered_block h index (text_content t) =
    text_start index ∷ text_delta index t ∷ content_block_stop index ∷ []
buffered_block h index (tool_use id name input) =
    tool_start index id name
    ∷ input_json_delta index (partial_json h input)
    ∷ content_block_stop index
    ∷ []

unfoldable pub stream_buffered_blocks : Host → List Block → ℕ → List StreamEvent
unfolding buffered_block
stream_buffered_blocks h [] start_index = []
stream_buffered_blocks h (b ∷ content) start_index =
    buffered_block h start_index b ++ stream_buffered_blocks h content (suc start_index)

unfoldable pub error_event : AppError → StreamEvent
error_event e = error (if e.message == "" then "stream failed" else e.message)

index_field : ℕ → Fields → Fields
index_field index m = field "index" (int (pos index)) m

block_start : ℕ → Fields → Fields
unfolding index_field
block_start index block =
    field "type" (str "content_block_start")
      (index_field index (field "content_block" (obj block) end))

block_delta : ℕ → String → String → String → Fields
unfolding index_field
block_delta index kind key piece = field "type" (str "content_block_delta") (
    index_field index
      (field "delta" (obj (field "type" (str kind) (field key (str piece) end))) end))

stop_fields : Value → Fields → Fields
stop_fields reason m = field "stop_reason" reason (field "stop_sequence" null m)

-- An event as it is sent.
unfoldable pub event_value : StreamEvent → Fields
unfolding block_start block_delta index_field usage stop_fields
event_value (message_start id model input_tokens) = field "type" (str "message_start") (
    field "message"
      (obj (
        field "id" (str id) (
          field "type" (str "message") (
            field "role" (str "assistant") (
              field "model" (str model) (
                field "content" (arr nil)
                  (stop_fields null (field "usage" (usage input_tokens (pos 0)) end))))))))
      end)
event_value (text_start index) =
    block_start index (field "type" (str "text") (field "text" (str "") end))
event_value (tool_start index id name) = block_start index (
    field "type" (str "tool_use")
      (field "id" (str id) (field "name" (str name) (field "input" (obj end) end))))
event_value (text_delta index piece) = block_delta index "text_delta" "text" piece
event_value (input_json_delta index piece) =
    block_delta index "input_json_delta" "partial_json" piece
event_value (content_block_stop index) =
    field "type" (str "content_block_stop") (index_field index end)
event_value (message_delta reason output_tokens) = field "type" (str "message_delta") (
    field "delta" (obj (stop_fields (str reason) end))
      (field "usage" (obj (field "output_tokens" (int output_tokens) end)) end))
event_value (message_stop created) =
    field "type" (str "message_stop") (field "created" (int created) end)
event_value (error message) =
    field "type" (str "error")
      (field "error" (obj (field "type" (str "api_error") (field "message" (str message) end))) end)

-- anthropic_sse_event
unfoldable pub anthropic_sse_event : Host → Fields → String
anthropic_sse_event h value =
    let event = option_or "message_delta" (bind_option (get_field "type" value) as_str) in
    append "event: " (append event (append "\ndata: " (append (h.print (obj value)) "\n\n")))

-- What the loop over the deltas keeps.
pub record Streaming : Type 0 where
  pub current_text : String
  pub streamed_text : String
  pub tool_started : Bool
  pub text_open : Bool

-- `chars().skip(streamed.chars().count())`
unfoldable pub skip_chars : String → String → String
skip_chars String.[] t = t
skip_chars (String.◌∷◌ c s) String.[] = ""
skip_chars (String.◌∷◌ c s) (String.◌∷◌ d t) = skip_chars s t

-- The text that can be seen now, where it continues what was streamed.
unfoldable pub show_visible : String → Streaming → List StreamEvent × Streaming
show_visible visible s =
    let new_delta = skip_chars s.streamed_text visible in
    if starts_with visible s.streamed_text && not (new_delta == "")
    then (
      (if s.text_open then [] else text_start 0 ∷ []) ++ text_delta 0 new_delta ∷ [],
      record s { text_open = true; streamed_text = visible },
    )
    else ([], s)

unfoldable pub take_delta : Markup → Bool → String → Streaming → List StreamEvent × Streaming
unfolding show_visible
take_delta m tool_mode delta s =
    let heard = record s { current_text = append s.current_text delta } in
    let visible = if tool_mode then streamable_text m heard.current_text else heard.current_text in
    let (evs, shown) = show_visible visible heard in
    if delta == ""
    then ([], s)
    else if s.tool_started
    then ([], heard)
    else (evs, record shown { tool_started = tool_mode && not (visible == heard.current_text) })

-- The loop over the deltas: the events, and the state at the end where no error ended the stream.
unfoldable pub take_deltas :
    Markup → Bool → List Sent → Streaming → List StreamEvent × Option Streaming
unfolding take_delta error_event
take_deltas m tool_mode [] s = ([], some s)
take_deltas m tool_mode (err e ∷ items) s = (error_event e ∷ [], none)
take_deltas m tool_mode (ok delta ∷ items) s =
    let (evs, next) = take_delta m tool_mode delta s in
    let (later, last) = take_deltas m tool_mode items next in (evs ++ later, last)

-- What is left of the text in front of the calls.
unfoldable pub remaining_events : Bool → String → List StreamEvent
remaining_events text_open remaining =
    if remaining == ""
    then []
    else if text_open
    then text_delta 0 remaining ∷ []
    else text_start 0 ∷ text_delta 0 remaining ∷ content_block_stop 0 ∷ []

unfoldable pub tool_events : Host → Streaming → List Block → List StreamEvent
unfolding remaining_events
tool_events h s (text_content t ∷ content) =
    remaining_events s.text_open (skip_chars s.streamed_text t)
    ++ stream_buffered_blocks h content 1
tool_events h s content = stream_buffered_blocks h content (if s.text_open then 1 else 0)

unfoldable pub finish_events : Host → Markup → Value → ℤ → Streaming → List StreamEvent
unfolding tool_events
finish_events h m tools created s =
    let (content, stop_reason) = content_blocks m s.current_text tools in
    (if s.text_open then content_block_stop 0 ∷ [] else [])
    ++ (if stop_reason == "tool_use" then tool_events h s content else [])
    ++ message_delta stop_reason (m.count_text_tokens s.current_text) ∷ message_stop created ∷ []

abbrev pub finished : Host → Markup → Value → ℤ → Option Streaming → List StreamEvent
finished h m tools created o = elim o [ none ↦ [] | some s ↦ finish_events h m tools created s ]

abbrev pub begun : Bool → Streaming
begun tool_mode = record {
  current_text = "";
  streamed_text = "";
  tool_started = false;
  text_open = not tool_mode;
}

-- The events of a stream, of which the receiver takes as many as there is room.
unfoldable pub messages_stream :
    Host → Markup → String → ℤ → ℤ → MessageRequest → List Sent → ℕ → List StreamEvent
unfolding take_deltas finish_events
messages_stream h m id input_tokens created req deltas room =
    let tool_mode = tools_active req.tools in
    let (evs, last) = take_deltas m tool_mode deltas (begun tool_mode) in
    take room (
      message_start (append "msg_" id) req.model input_tokens
      ∷ ((if tool_mode then [] else text_start 0 ∷ [])
          ++ (evs ++ finished h m req.tools created last)))
