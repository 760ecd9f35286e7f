-- ===== src/Tests/Messages.antt =====
-- Streams of the Anthropic interface, one without tools and one with a call of a tool.
use model2api.Common.{
  String, ◌≡◌, refl, ap, subst, true, none, some, List, [], ◌∷◌, ◌++◌, ◌<◌, ◌==◌, if◌then◌else◌,
  option_or, take, length, pos, trim, trim_end,
}
use model2api.Json.{null, arr, obj, str, cons, nil, field, end}
use model2api.Images.{err}
use model2api.Conversation.Decoder.{collected}
use model2api.Conversation.Rotation.{told, upstream}
use model2api.Anthropic.{MessageRequest, tools_active}
use model2api.Anthropic.Content.{
  Markup, strip_tool_markup, streamable_text, content_blocks, called, tool_blocks,
}
use model2api.Anthropic.Stream.{
  message_start, text_start, tool_start, text_delta, input_json_delta, content_block_stop,
  message_delta, message_stop, Streaming, begun, skip_chars, show_visible, take_delta, take_deltas,
  stream_buffered_blocks, tool_events, remaining_events, finish_events, error_event,
  messages_stream,
}
use model2api.Anthropic.Stream.Plain.{passed, opened, messages_stream-passes}
use model2api.Anthropic.Stream.Phases.{Phase, fresh, done, follow}
use model2api.Anthropic.Stream.Frames.{IsShown, messages_stream-follows}
use model2api.Tests.Streams.{stream_host}

-- The mark of a call is a bracket, and what is behind it is read as a call of `read`.
in_front : String → String
in_front String.[] = ""
in_front (String.◌∷◌ c s) =
    let rest = in_front s in if String.◌∷◌ c "" == "<" then "" else String.◌∷◌ c rest

abbrev markup : Markup
markup = record {
  strip_tool_markup_re = in_front;
  markup_start = λ t. if in_front t == t then none else some (in_front t);
  parse_tool_calls = λ t. if in_front t == t then [] else ("read", obj end) ∷ [];
  new_uuid = λ n. "1";
  count_text_tokens = λ t. pos 7;
}

abbrev plain_request : MessageRequest
plain_request = record { messages = []; model = "auto"; tools = null }

abbrev tool_request : MessageRequest
tool_request = record {
  messages = [];
  model = "auto";
  tools = arr (cons (obj (field "name" (str "read") end)) nil);
}

abbrev deltas : List String
deltas = "Hel" ∷ "" ∷ "lo" ∷ []

abbrev call_deltas : List String
call_deltas = "Look." ∷ "<read>" ∷ []

called_test :
    messages_stream stream_host markup "m" (pos 3) (pos 9) tool_request (told call_deltas) 64
    ≡ message_start "msg_m" "auto" (pos 3)
      ∷ text_start 0
      ∷ text_delta 0 "Look."
      ∷ content_block_stop 0
      ∷ tool_start 1 "toolu_1" "read"
      ∷ input_json_delta 1 "x"
      ∷ content_block_stop 1
      ∷ message_delta "tool_use" (pos 7)
      ∷ message_stop (pos 9)
      ∷ []
unfolding messages_stream take_deltas take_delta trim_end trim show_visible skip_chars finish_events
    content_blocks called tool_blocks strip_tool_markup tool_events remaining_events
    stream_buffered_blocks streamable_text tools_active in_front
called_test = refl

messages_stream-passes_example :
    (messages_stream stream_host markup "m" (pos 3) (pos 9) plain_request (told deltas) 64
      ≡ take 64 (
          opened "m" (pos 3) plain_request (
            passed deltas
            ++ (content_block_stop 0
                ∷ message_delta "end_turn" (markup.count_text_tokens (collected deltas))
                ∷ message_stop (pos 9)
                ∷ []))))
    × (messages_stream stream_host markup "m"
          (pos 3)
          (pos 9)
          plain_request
          (told deltas ++ err (upstream "broken") ∷ [])
          64
        ≡ take 64 (
            opened "m"
              (pos 3)
              plain_request
              (passed deltas ++ error_event (upstream "broken") ∷ [])))
unfolding tools_active
messages_stream-passes_example =
    messages_stream-passes stream_host markup "m" (pos 3) (pos 9) plain_request deltas
      (upstream "broken") 64 refl

call_deltas-IsShown :
    (s : Streaming)
    → (take_deltas markup
        (tools_active tool_request.tools)
        (told call_deltas)
        (begun (tools_active tool_request.tools))).1
      ≡ some s
    → IsShown (strip_tool_markup markup s.current_text) s
unfolding take_deltas take_delta show_visible skip_chars strip_tool_markup streamable_text trim_end
    trim tools_active in_front
call_deltas-IsShown s h =
    subst (λ t. IsShown (strip_tool_markup markup t.current_text) t) (ap (option_or (begun true)) h)
      (λ opened. refl)

messages_stream-follows_example :
    let sent =
      messages_stream stream_host markup "m" (pos 3) (pos 9) tool_request (told call_deltas) 64 in
    (q : Phase) × (follow (some fresh) sent ≡ some q) × (length sent < 64 → q ≡ done)
messages_stream-follows_example =
    messages_stream-follows stream_host markup "m" (pos 3) (pos 9) tool_request (told call_deltas)
      64 call_deltas-IsShown
