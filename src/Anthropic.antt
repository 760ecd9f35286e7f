-- ===== src/Anthropic.antt =====
-- src/services/protocol/anthropic_v1_messages.rs: the requests of the Anthropic interface. This file:
-- the prompt that describes the tools, the system text and the messages.
pub mod Content
pub mod Stream
use model2api.Common.{
  String, Bool, true, false, not, ◌&&◌, ◌||◌, Option, none, some, List, [], ◌∷◌, ◌++◌, ◌==◌,
  if◌then◌else◌, trim, append, option_or,
}
use model2api.Common.Prefix.{contains}
use model2api.Json.{
  Value, Items, Fields, Host, null, str, arr, obj, nil, cons, end, field, get_field, get_value, set,
  as_str, bind_option, text_at,
}
use model2api.Conversation.{json_falsy, text_of}
use model2api.Conversation.Messages.{normalize_messages}

abbrev xml_tool_rule : String
xml_tool_rule =
    "Tool output adapter: when calling tools, output ONLY this XML and no prose/markdown:\n<tool_calls><tool_call><tool_name>TOOL_NAME</tool_name><parameters><PARAM><![CDATA[value]]></PARAM></parameters></tool_call></tool_calls>"

abbrev tool_rules_suffix : String
tool_rules_suffix =
    "Tool use rules:\n- If the user asks to list/read/search files, inspect project state, run a command, or answer from local code, you MUST call a suitable tool first. Do not say you cannot access files.\n- To call tools, output ONLY XML and no prose/markdown:\n<tool_calls><tool_call><tool_name>TOOL_NAME</tool_name><parameters><PARAM><![CDATA[value]]></PARAM></parameters></tool_call></tool_calls>\n- Put parameters under <parameters> using the exact schema names."

unfoldable pub tools_active : Value → Bool
tools_active (arr (cons t ts)) = true
tools_active other = false

truthy_string : Host → Option Value → Option String
truthy_string h none = none
truthy_string h (some (str s)) = if s == "" then none else some s
truthy_string h (some v) = if json_falsy v then none else some (h.print v)

first_truthy : List (Option Value) → Value
first_truthy [] = obj end
first_truthy (none ∷ rest) = first_truthy rest
first_truthy (some v ∷ rest) = let later = first_truthy rest in if json_falsy v then later else v

-- `func_get`: a field of the object `function`.
func_get : String → Value → Option Value
func_get key tool = bind_option (get_value "function" tool) (get_value key)

-- `or_else` of two texts, and none is empty.
either_text : Option String → Option String → String
either_text (some t) other = t
either_text none other = option_or "" other

tool_name : Host → Value → String
unfolding truthy_string func_get either_text
tool_name h tool =
    trim (
      either_text (truthy_string h (get_value "name" tool))
        (truthy_string h (func_get "name" tool)))

tool_description : Host → Value → String
unfolding truthy_string func_get either_text
tool_description h tool = trim (
    either_text (truthy_string h (get_value "description" tool))
      (truthy_string h (func_get "description" tool)))

tool_schema : Value → Value
unfolding first_truthy func_get
tool_schema tool = first_truthy (
    get_value "input_schema" tool
    ∷ get_value "parameters" tool
    ∷ func_get "input_schema" tool
    ∷ func_get "parameters" tool
    ∷ [])

tool_text : Host → Value → String
unfolding tool_name tool_description tool_schema
tool_text h tool = append "Tool: " (
    append (tool_name h tool) (
      append "\nDescription: "
        (append (tool_description h tool) (append "\nParameters: " (h.print (tool_schema tool))))))

-- The blocks of the tools that are objects with a name.
tool_texts : Host → Items → List String
unfolding tool_text tool_name
tool_texts h nil = []
tool_texts h (cons (obj m) tools) =
    let rest = tool_texts h tools in
    if tool_name h (obj m) == "" then rest else tool_text h (obj m) ∷ rest
tool_texts h (cons other tools) = tool_texts h tools

join_lines : List String → String
join_lines [] = ""
join_lines (b ∷ []) = b
join_lines (b ∷ c ∷ bs) = append b (append "\n" (join_lines (c ∷ bs)))

prompt_of : List String → String
unfolding join_lines
prompt_of [] = ""
prompt_of (b ∷ bs) = append "Available tools:\n" (append (join_lines (b ∷ bs)) tool_rules_suffix)

unfoldable pub build_tool_prompt : Host → Value → String
unfolding prompt_of tool_texts
build_tool_prompt h (arr tools) = prompt_of (tool_texts h tools)
build_tool_prompt h other = ""

mentions_claude : Items → Bool
mentions_claude nil = false
mentions_claude (cons item items) =
    contains (text_of (get_value "text" item)) "You are Claude Code" || mentions_claude items

has_claude_code_system : Value → Bool
unfolding mentions_claude
has_claude_code_system (str s) = contains s "You are Claude Code"
has_claude_code_system (arr items) = mentions_claude items
has_claude_code_system other = false

-- A text block has a text.
compact_item : Value → Value
compact_item (obj m) =
    if text_at "type" m == "text" then obj (set "text" (str (text_at "text" m)) m) else obj m
compact_item other = other

compact_items : Items → Items
unfolding compact_item
compact_items nil = nil
compact_items (cons item items) = cons (compact_item item) (compact_items items)

compact_system : Value → Value
unfolding compact_items
compact_system (arr items) = arr (compact_items items)
compact_system other = other

append_item : Items → Value → Items
append_item nil v = cons v nil
append_item (cons w vs) v = cons w (append_item vs v)

with_extra : Value → String → Value
unfolding append_item
with_extra (str s) extra =
    if trim s == "" then str extra else str (append (trim s) (append "\n\n" extra))
with_extra (arr items) extra =
    arr (append_item items (obj (field "type" (str "text") (field "text" (str extra) end))))
with_extra other extra = str extra

unfoldable pub merge_system : Value → String → Value
unfolding with_extra compact_system has_claude_code_system
merge_system system extra =
    let compact = compact_system system in
    let added = if has_claude_code_system compact then xml_tool_rule else extra in
    if added == "" then compact else with_extra compact added

content_to_string : Host → Value → String
content_to_string h (str s) = s
content_to_string h other = if json_falsy other then "" else h.print other

text_block : String → Value
text_block t = obj (field "type" (str "text") (field "text" (str t) end))

object_or_empty : Option Value → Value
object_or_empty o = let v = option_or (obj end) o in if json_falsy v then obj end else v

-- The use and the result of a tool become texts.
preprocess_object : Host → Fields → Value
unfolding text_block object_or_empty content_to_string
preprocess_object h m =
    let t = text_at "type" m in
    if t == "text"
    then obj (set "text" (str (text_at "text" m)) m)
    else if t == "tool_use"
    then text_block (
        append "<tool_calls><tool_call><tool_name>" (
          append (text_at "name" m) (
            append "</tool_name><parameters>" (
              append (h.print (object_or_empty (get_field "input" m)))
                "</parameters></tool_call></tool_calls>"))))
    else if t == "tool_result"
    then text_block (
        append "Tool result " (
          append (text_at "tool_use_id" m)
            (append ": " (content_to_string h (option_or null (get_field "content" m))))))
    else obj m

preprocess_block : Host → Value → Value
unfolding preprocess_object
preprocess_block h (obj m) = preprocess_object h m
preprocess_block h other = other

preprocess_blocks : Host → Items → Items
unfolding preprocess_block
preprocess_blocks h nil = nil
preprocess_blocks h (cons block blocks) =
    cons (preprocess_block h block) (preprocess_blocks h blocks)

preprocess_content : Host → Option Value → Fields → Fields
unfolding preprocess_blocks
preprocess_content h (some (arr blocks)) m = set "content" (arr (preprocess_blocks h blocks)) m
preprocess_content h other m = m

preprocess_each : Host → Items → List Value
unfolding preprocess_content
preprocess_each h nil = []
preprocess_each h (cons (obj m) messages) =
    obj (preprocess_content h (get_field "content" m) m) ∷ preprocess_each h messages
preprocess_each h (cons other messages) = preprocess_each h messages

unfoldable pub preprocess_messages : Host → Value → List Value
unfolding preprocess_each
preprocess_messages h (arr messages) = preprocess_each h messages
preprocess_messages h other = []

pub record MessageRequest : Type 0 where
  pub messages : List Value
  pub model : String
  pub tools : Value

value_at : String → Fields → Value
value_at k m = option_or null (get_field k m)

model_of : Fields → String
model_of body = let m = trim (text_at "model" body) in if m == "" then "auto" else m

unfoldable pub message_request : Host → String → Fields → MessageRequest
unfolding value_at model_of
message_request h global_system_prompt body =
    let tools = value_at "tools" body in
    let system = merge_system (value_at "system" body) (build_tool_prompt h tools) in
    record {
      messages =
          normalize_messages global_system_prompt (preprocess_messages h (value_at "messages" body))
            (some system);
      model = model_of body;
      tools = tools;
    }
