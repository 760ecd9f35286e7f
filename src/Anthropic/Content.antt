-- ===== src/Anthropic/Content.antt =====
-- src/services/protocol/anthropic_v1_messages.rs: the content of an answer of the Anthropic interface, and
-- the answer as one object. The reading of the markup of a tool call is a parameter.
use model2api.Common.{
  ℕ, suc, String, Option, none, some, List, [], ◌∷◌, ◌++◌, ℤ, ◌==◌, if◌then◌else◌, trim, trim_end,
  append,
}
use model2api.Json.{Value, null, int, str, arr, obj, end, field}
use model2api.Storage.JsonFile.{items_of}
use model2api.Images.{Result, ok, err}
use model2api.Conversation.Rotation.{AppError, Sent, collect_text}
use model2api.Anthropic.{MessageRequest, tools_active}

-- What the code takes from regex, from uuid and from the token counts, and the calls that
-- `parse_tool_calls` reads in a text. `markup_start` is the text in front of the first mark of a call.
pub record Markup : Type 0 where
  pub strip_tool_markup_re : String → String
  pub markup_start : String → Option String
  pub parse_tool_calls : String → List (String × Value)
  pub new_uuid : ℕ → String
  pub count_text_tokens : String → ℤ

unfoldable pub strip_tool_markup : Markup → String → String
strip_tool_markup m text = trim (m.strip_tool_markup_re text)

unfoldable pub streamable_text : Markup → String → String
streamable_text m text = elim (m.markup_start text) [ none ↦ text | some before ↦ trim_end before ]

-- A block of the content.
pub data Block : Type 0 where
  text_content : String → Block
  tool_use : (id name : String) → Value → Block

-- The calls get their identifiers in order.
unfoldable pub tool_blocks : Markup → ℕ → List (String × Value) → List Block
tool_blocks m n [] = []
tool_blocks m n ((name, args) ∷ calls) =
    tool_use (append "toolu_" (m.new_uuid n)) name args ∷ tool_blocks m (suc n) calls

unfoldable pub called : Markup → String → List (String × Value) → List Block × String
unfolding tool_blocks
called m shown [] = (text_content shown ∷ [], "end_turn")
called m shown (call ∷ calls) = (
  (if shown == "" then [] else text_content shown ∷ []) ++ tool_blocks m 0 (call ∷ calls),
  "tool_use",
)

-- The content and the reason for which it stops.
unfoldable pub content_blocks : Markup → String → Value → List Block × String
unfolding called strip_tool_markup
content_blocks m said tools =
    called m (strip_tool_markup m said) (if tools_active tools then m.parse_tool_calls said else [])

block_value : Block → Value
block_value (text_content t) = obj (field "type" (str "text") (field "text" (str t) end))
block_value (tool_use id name input) = obj (
    field "type" (str "tool_use")
      (field "id" (str id) (field "name" (str name) (field "input" input end))))

block_values : List Block → List Value
unfolding block_value
block_values [] = []
block_values (b ∷ bs) = block_value b ∷ block_values bs

unfoldable pub usage : ℤ → ℤ → Value
usage input_tokens output_tokens =
    obj (field "input_tokens" (int input_tokens) (field "output_tokens" (int output_tokens) end))

-- The answer as one object.
unfoldable pub message_response : Markup → String → String → String → ℤ → ℤ → Value → Value
unfolding block_values usage
message_response m id model said input_tokens output_tokens tools =
    let (content, stop_reason) = content_blocks m said tools in
    obj (
      field "id" (str (append "msg_" id)) (
        field "type" (str "message") (
          field "role" (str "assistant") (
            field "model" (str model) (
              field "content" (arr (items_of (block_values content))) (
                field "stop_reason" (str stop_reason) (
                  field "stop_sequence" null
                    (field "usage" (usage input_tokens output_tokens) end))))))))

-- The answer to a request that is not streamed, from the deltas of the conversation.
unfoldable pub messages_once :
    Markup → String → ℤ → MessageRequest → List Sent → Result AppError Value
unfolding message_response
messages_once m id input_tokens req deltas = elim (collect_text deltas) [
  | err e ↦ err e
  | ok said ↦
      ok (message_response m id req.model said input_tokens (m.count_text_tokens said) req.tools)
]
