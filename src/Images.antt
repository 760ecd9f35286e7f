-- ===== src/Images.antt =====
-- src/services/protocol/conversation.rs: the images of a conversation. This file: the requests, the
-- errors and how they are classified. src/services/openai_backend_api/mod.rs: `EngineError`.
pub mod Names
pub mod Output
pub mod Formats
pub mod Picture
pub mod Single
pub mod Pooled
pub mod Served
use model2api.Common.{
  ℕ, String, Bool, true, false, ◌||◌, Option, none, some, List, [], ◌∷◌, ℤ, ◌==◌, if◌then◌else◌,
  trim, append,
}
use model2api.Common.Prefix.{contains}
use model2api.Json.{Value, Fields, Host, null, str, obj, end, field, set}

-- `Result<T, E>`, the error first.
pub data Result {ℓ κ} (E : Type ℓ) (A : Type κ) : Type (ℓ ⊔ κ) where
  ok : A → Result E A
  err : E → Result E A

-- `Option<Vec<Value>>` of messages is left out: no image reads it.
pub record ConversationRequest : Type 0 where
  pub model : String
  pub prompt : String
  pub images : Option (List String)
  pub n : ℤ
  pub size : Option String
  pub quality : String
  pub response_format : String
  pub base_url : Option String
  pub message_as_error : Bool

-- An upstream error stands by the text that it prints.
pub data EngineError : Type 0 where
  invalid_access_token : String → EngineError
  image_poll_timeout : (message conversation_id : String) → EngineError
  image_content_policy : String → EngineError
  upstream : String → EngineError
  other : String → EngineError

unfoldable pub engine_text : EngineError → String
engine_text (invalid_access_token s) = append "invalid access token: " s
engine_text (image_poll_timeout message conversation_id) = message
engine_text (image_content_policy s) = s
engine_text (upstream s) = s
engine_text (other s) = s

pub record ImageGenerationError : Type 0 where
  pub message : String
  pub status_code : ℕ
  pub error_type : String
  pub code : Option String
  pub account_email : String
  pub conversation_id : String

unfoldable pub new : String → ImageGenerationError
new message = record {
  message = message;
  status_code = 502;
  error_type = "server_error";
  code = some "upstream_error";
  account_email = "";
  conversation_id = "";
}

pub data ImgErr : Type 0 where
  engine : EngineError → ImgErr
  gen : ImageGenerationError → ImgErr

contains_any : String → List String → Bool
contains_any text [] = false
contains_any text (needle ∷ needles) = contains text needle || contains_any text needles

abbrev failed_text : String
failed_text = "The image generation request failed. Please try again later."

unfoldable pub public_image_error_message : Host → String → String
unfolding contains_any
public_image_error_message h message =
    let text = trim message in
    let needles = "backend-api/" ∷ "status=" ∷ "body=" ∷ "chatgpt.com" ∷ "upstreamhttperror" ∷ [] in
    if contains_any (h.lower text) needles
    then failed_text
    else if text == ""
    then failed_text
    else text

unfoldable pub is_token_invalid_error : Host → String → Bool
unfolding contains_any
is_token_invalid_error h message = contains_any (h.lower message) (
    "token_invalidated" ∷ "token_revoked" ∷ "authentication token has been invalidated"
    ∷ "invalidated oauth token" ∷ [])

unfoldable pub is_tls_connection_error : Host → String → Bool
unfolding contains_any
is_tls_connection_error h message = contains_any (h.lower message) (
    "curl: (35)" ∷ "tls connect error" ∷ "openssl_internal" ∷ "ssl: wrong_version_number"
    ∷ "ssl: certificate_verify_failed" ∷ "connection aborted" ∷ "remote disconnected"
    ∷ "connection reset by peer" ∷ [])

unfoldable pub is_connection_timeout_error : Host → String → Bool
unfolding contains_any
is_connection_timeout_error h message = contains_any (h.lower message) (
    "curl: (28)" ∷ "operation timed out" ∷ "connection timed out" ∷ "read timed out"
    ∷ "connect timeout" ∷ [])

unfoldable pub image_stream_error_message : Host → String → String
image_stream_error_message h message =
    if is_token_invalid_error h message
    then "image generation failed"
    else if is_tls_connection_error h message
    then "upstream image connection failed, please retry later"
    else if is_connection_timeout_error h message
    then "upstream connection timed out, please retry later"
    else if message == ""
    then "image generation failed"
    else message

-- The two regular expressions of a reply in words: the identifiers of images that it refers to, and
-- the parameters of a tool.
pub record Replies : Type 0 where
  pub referenced_image_ids : String → Bool
  pub tool_params_json : String → Bool

unfoldable pub is_model_text_reply_instead_of_image : Replies → String → Bool
is_model_text_reply_instead_of_image m message =
    if message == "" then false else m.referenced_image_ids message || m.tool_params_json message

abbrev text_or_null : Option String → Value
text_or_null o = elim o [ none ↦ null | some t ↦ str t ]

-- No error of an image has a `param`.
pub to_openai_error : Host → ImageGenerationError → Value
to_openai_error h e =
    let error = field "message" (str (public_image_error_message h e.message)) (
      field "type" (str e.error_type)
        (field "param" null (field "code" (text_or_null e.code) end))) in
    let named =
      if e.account_email == "" then error else set "account_email" (str e.account_email) error in
    obj (field "error" (obj named) end)
