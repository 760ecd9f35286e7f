-- ===== src/Images/Picture.antt =====
-- src/services/protocol/conversation.rs: `stream_image_outputs` and `stream_codex_image_outputs`,
-- one call for an image with one account.
pub mod Shape
use model2api.Common.{
  ℕ, String, Bool, true, false, not, ◌&&◌, ◌||◌, Option, none, some, List, [], ◌∷◌, ◌++◌, ℤ, pos,
  max_ℤ, ◌==◌, if◌then◌else◌, trim, option_or,
}
use model2api.Json.{
  Value, Items, Fields, Host, str, arr, obj, nil, cons, end, field, get_field, get_value, text_at,
  bool_at, bind_option,
}
use model2api.Conversation.{Patterns, text_of}
use model2api.Conversation.Decoder.{ConversationDecoder, new as new_decoder, push}
use model2api.Images.{
  Result, ok, err, ConversationRequest, EngineError, image_poll_timeout, image_content_policy,
  ImgErr, engine, gen, new, Replies, is_model_text_reply_instead_of_image,
}
use model2api.Images.Output.{ImageOutput, progress, message, result}
use model2api.Images.Formats.{
  ImageStorage, prompt_with_global_system, build_image_prompt, codex_response_images,
  format_image_result,
}

-- The settings that the images read, in src/config.rs. A time is in whole seconds.
pub record Settings : Type 0 where
  pub global_system_prompt : String
  pub image_poll_timeout_secs : ℤ
  pub image_parallel_generation : Bool

pub record ConvDeps : Type 0 where
  pub host : Host
  pub patterns : Patterns
  pub replies : Replies
  pub config : Settings
  pub image_storage : ImageStorage

-- What `next_payload` answers before the end of the stream, with the reading of the clock.
pub data Arrival : Type 0 where
  payload : ℤ → String → Arrival
  broken : EngineError → Arrival

-- The answers of src/services/openai_backend_api to the calls for one image with one account, and
-- the readings of the clock at the end. The identifiers are resolved at most twice; the first
-- argument tells the second call.
pub record Backend : Type 0 where
  pub stream_picture_conversation :
      String → String → List String → Result EngineError (List Arrival)
  pub codex_image_response_events :
      String → List String → Option String → String → Result EngineError Items
  pub resolve_conversation_image_urls :
      Bool → String → List String → List String → ℤ → Result EngineError (List String)
  pub download_image_bytes : List String → Result EngineError (List (List ℕ))
  pub now_ts : ℤ

-- What was put out so far, and the error that ended it.
abbrev pub Streamed : Type 0
Streamed = List ImageOutput × Option ImgErr

abbrev images_of : ConversationRequest → List String
images_of request = option_or [] request.images

b64_items : ImageStorage → List (List ℕ) → List Value
b64_items storage [] = []
b64_items storage (b ∷ bytes) =
    obj (field "b64_json" (str (storage.encode b)) end) ∷ b64_items storage bytes

download_and_format :
    ConvDeps → Backend → ConversationRequest → List String → Result EngineError (List Value)
unfolding b64_items
download_and_format deps backend request urls = elim (backend.download_image_bytes urls) [
  | err e ↦ err e
  | ok bytes ↦
      ok
        (format_image_result deps.image_storage (b64_items deps.image_storage bytes) request.prompt
          request.response_format request.base_url backend.now_ts "").1
]

codex_items : String → List String → List Value
codex_items prompt [] = []
codex_items prompt (item ∷ items) =
    obj (field "b64_json" (str item) (field "revised_prompt" (str prompt) end))
    ∷ codex_items prompt items

abbrev no_image : Streamed
no_image = ([], some (gen (new "No image result found in response")))

module _ (deps : ConvDeps) (backend : Backend) (request : ConversationRequest)
    (index total : ℤ) where
  codex_entries : List Value → Streamed
  codex_entries [] = no_image
  codex_entries (entry ∷ entries) =
      (result backend.now_ts request.model index total (entry ∷ entries) "" ∷ [], none)

  codex_found : List String → Streamed
  unfolding codex_items codex_entries
  codex_found [] = no_image
  codex_found (b64 ∷ more) =
      codex_entries
        (format_image_result deps.image_storage (codex_items request.prompt (b64 ∷ more))
          request.prompt request.response_format request.base_url backend.now_ts "").1

  codex_answered : Result EngineError Items → Streamed
  unfolding codex_found
  codex_answered (err e) = ([], some (engine e))
  codex_answered (ok events) = codex_found (codex_response_images (arr events))

  unfoldable pub stream_codex_image_outputs : Streamed
  unfolding codex_answered
  stream_codex_image_outputs = codex_answered (
      backend.codex_image_response_events request.prompt (images_of request) request.size
        request.quality)

raw_type : Fields → String
raw_type ev = text_of (bind_option (get_field "raw" ev) (get_value "type"))

-- What one event puts out.
event_output : ℤ → ConversationRequest → ℤ → ℤ → Fields → List ImageOutput
unfolding raw_type
event_output now request index total ev =
    let t = text_at "type" ev in
    if t == "conversation.delta"
    then progress now request.model index total (text_at "delta" ev) "conversation.delta" ∷ []
    else if t == "conversation.event"
    then progress now request.model index total "" (raw_type ev) ∷ []
    else []

event_outputs : ℤ → ConversationRequest → ℤ → ℤ → List Fields → List ImageOutput
unfolding event_output
event_outputs now request index total [] = []
event_outputs now request index total (ev ∷ evs) =
    event_output now request index total ev ++ event_outputs now request index total evs

last_event : Fields → List Fields → Fields
last_event last [] = last
last_event last (ev ∷ evs) = last_event ev evs

-- The loop over the payloads: what is put out, and the last event or the error of the stream.
unfoldable pub picture_loop :
    ConvDeps
    → ConversationRequest
    → ℤ
    → ℤ
    → List Arrival
    → ConversationDecoder
    → Fields
    → List ImageOutput × Result EngineError Fields
unfolding event_outputs last_event
picture_loop deps request index total [] decoder last = ([], ok last)
picture_loop deps request index total (broken e ∷ later) decoder last = ([], err e)
picture_loop deps request index total (payload now text ∷ later) decoder last =
    let (evs, seen) = push deps.host deps.patterns text decoder in
    let put = event_outputs now request index total evs in
    let (rest, ended) = picture_loop deps request index total later seen (last_event last evs) in
    if text == "[DONE]" then (put, ok (last_event last evs)) else (put ++ rest, ended)

strings_of : Items → List String
strings_of nil = []
strings_of (cons (str s) vs) = s ∷ strings_of vs
strings_of (cons v vs) = strings_of vs

strings_at : String → Fields → List String
unfolding strings_of
strings_at k m = elim (get_field k m) [
  | none ↦ []
  | some v ↦ elim v [ arr vs ↦ strings_of vs | other ↦ [] ]
]

-- What the last event tells of the conversation.
pub record Reply : Type 0 where
  pub conversation_id : String
  pub file_ids : List String
  pub sediment_ids : List String
  pub message : String
  pub blocked : Bool
  pub turn_use_case : String

unfoldable pub read_reply : Fields → Reply
unfolding strings_at
read_reply last = record {
  conversation_id = text_at "conversation_id" last;
  file_ids = strings_at "file_ids" last;
  sediment_ids = strings_at "sediment_ids" last;
  message = trim (text_at "text" last);
  blocked = bool_at "blocked" last;
  turn_use_case = text_at "turn_use_case" last;
}

abbrev is_empty : List String → Bool
is_empty ts = elim ts [ [] ↦ true | t ∷ rest ↦ false ]

abbrev named : String → Bool
named t = not (t == "")

is_text_reply : Replies → Reply → Bool
is_text_reply m reply = named reply.message && is_model_text_reply_instead_of_image m reply.message

retry_timeout : Settings → ℤ
retry_timeout config = max_ℤ config.image_poll_timeout_secs (pos 300)

poll_timeout : ConvDeps → Reply → ℤ
unfolding retry_timeout is_text_reply
poll_timeout deps reply =
    if is_text_reply deps.replies reply && named reply.conversation_id
    then retry_timeout deps.config
    else deps.config.image_poll_timeout_secs

-- An error of the polling is dropped where the answer is a reply in words.
image_urls_of : Bool → Reply → Result EngineError (List String) → Result EngineError (List String)
image_urls_of words reply (ok urls) = ok urls
image_urls_of words reply (err (image_content_policy m)) =
    if words then ok [] else err (image_content_policy m)
image_urls_of words reply (err (image_poll_timeout m conversation_id)) =
    err (image_poll_timeout m conversation_id)
image_urls_of words reply (err e) = if words && named reply.conversation_id then ok [] else err e

module _ (deps : ConvDeps) (backend : Backend) (request : ConversationRequest)
    (index total : ℤ) where
  say : Reply → String → ImageOutput
  say reply text = message backend.now_ts request.model index total text reply.conversation_id

  show : Reply → List Value → Option ImageOutput
  show reply [] = none
  show reply (entry ∷ entries) =
      some (result backend.now_ts request.model index total (entry ∷ entries) reply.conversation_id)

  resolve : Bool → Reply → ℤ → Result EngineError (List String)
  resolve again reply timeout =
      backend.resolve_conversation_image_urls again reply.conversation_id reply.file_ids
        reply.sediment_ids timeout

  -- What is downloaded, where an error is dropped.
  downloaded : Reply → Result EngineError (List Value) → Option ImageOutput
  unfolding show
  downloaded reply (err e) = none
  downloaded reply (ok entries) = show reply entries

  found : Reply → Result EngineError (List String) → Option ImageOutput
  unfolding downloaded download_and_format
  found reply (err e) = none
  found reply (ok []) = none
  found reply (ok (u ∷ us)) = downloaded reply (download_and_format deps backend request (u ∷ us))

  -- The second polling, whose errors are dropped.
  poll_again : Reply → Option ImageOutput
  unfolding found resolve retry_timeout
  poll_again reply = found reply (resolve true reply (retry_timeout deps.config))

  -- Behind a polling that found no image.
  without_urls : Reply → Bool → ImageOutput
  unfolding poll_again is_text_reply say
  without_urls reply should_poll =
      if named reply.message
      then (let said = say reply reply.message in
          if is_text_reply deps.replies reply && named reply.conversation_id
          then option_or said (poll_again reply)
          else said)
      else if should_poll && named reply.conversation_id
      then option_or
          (say reply
            "Image generation completed upstream but the result could not be retrieved. The image may still be processing. Please try again in a moment.")
          (poll_again reply)
      else say reply
          "Image generation started upstream but the response was incomplete. Please try again."

  delivered : Reply → Result EngineError (List Value) → Result ImgErr (Option ImageOutput)
  unfolding show
  delivered reply (err e) = err (engine e)
  delivered reply (ok entries) = ok (show reply entries)

  polled : Reply → Bool → Result EngineError (List String) → Result ImgErr (Option ImageOutput)
  unfolding without_urls delivered download_and_format
  polled reply should_poll (err e) = err (engine e)
  polled reply should_poll (ok []) = ok (some (without_urls reply should_poll))
  polled reply should_poll (ok (u ∷ us)) =
      delivered reply (download_and_format deps backend request (u ∷ us))

  -- What follows the stream: at most one more output, or an error.
  unfoldable pub after_stream : Reply → Result ImgErr (Option ImageOutput)
  unfolding polled say image_urls_of resolve poll_timeout is_text_reply
  after_stream reply =
      let no_ids = is_empty reply.file_ids && is_empty reply.sediment_ids in
      let should_poll = not (is_empty (images_of request)) || reply.turn_use_case == "image gen" in
      if named reply.message && no_ids && reply.blocked
      then ok (some (say reply reply.message))
      else if named reply.message && no_ids && not should_poll
      then ok (some (say reply reply.message))
      else polled reply should_poll (
          image_urls_of (is_text_reply deps.replies reply) reply
            (resolve false reply (poll_timeout deps reply)))

  close : List ImageOutput → Result ImgErr (Option ImageOutput) → Streamed
  close put (err e) = (put, some e)
  close put (ok none) = (put, none)
  close put (ok (some o)) = (put ++ o ∷ [], none)

  finish_stream : List ImageOutput × Result EngineError Fields → Streamed
  unfolding close
  finish_stream (put, err e) = (put, some (engine e))
  finish_stream (put, ok last) = close put (after_stream (read_reply last))

  opened : Result EngineError (List Arrival) → Streamed
  unfolding finish_stream
  opened (err e) = ([], some (engine e))
  opened (ok arrivals) =
      finish_stream (picture_loop deps request index total arrivals (new_decoder "" []) end)

  unfoldable pub stream_image_outputs : Streamed
  unfolding opened
  stream_image_outputs =
      let prompt =
        prompt_with_global_system deps.config.global_system_prompt
          (build_image_prompt request.prompt request.size request.quality) in
      opened (backend.stream_picture_conversation prompt request.model (images_of request))
