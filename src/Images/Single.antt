-- ===== src/Images/Single.antt =====
-- src/services/protocol/conversation.rs: `generate_single_image`, over the account service that it
-- calls. The waits between two tries are left out.
pub mod Given
pub mod Ends
pub mod Answers
use model2api.Common.{
  ℕ, zero, suc, ◌+◌, String, Bool, true, false, not, ◌&&◌, Option, none, some, List, [], ◌∷◌, ℤ,
  leb, ◌==◌, if◌then◌else◌, trim, map, is_some,
}
use model2api.Json.{Fields, end, str, text_at}
use model2api.Images.{
  Result, ok, err, ConversationRequest, EngineError, image_poll_timeout, image_content_policy,
  ImgErr, engine, gen, ImageGenerationError, new, engine_text, is_token_invalid_error,
  is_tls_connection_error, is_connection_timeout_error, image_stream_error_message,
  is_model_text_reply_instead_of_image,
}
use model2api.Images.Names.{is_codex_image_model, split_image_model, image_model_plan_types}
use model2api.Images.Output.{ImageOutput, is_message, is_result}
use model2api.Images.Picture.{
  ConvDeps, Backend, Streamed, stream_image_outputs, stream_codex_image_outputs,
}

-- The calls on the account service and on the upstream, each with the state that it leaves. What
-- other tasks do while a call waits is part of what it does to the state.
pub record Accounts (S : Type 0) : Type 0 where
  pub get_available_access_token :
      Option String → Option String → List String → S → Result String String × S
  pub get_account : String → S → Option Fields
  pub open_backend : String → Fields → S → Result EngineError Backend × S
  pub mark_image_result : String → Bool → S → S
  pub refresh_access_token : String → S → String × S
  pub remove_invalid_token : String → S → S

-- The retries so far, of each kind.
pub record Retries : Type 0 where
  pub text_reply_retry : ℕ
  pub tls_retry : ℕ
  pub conn_timeout_retry : ℕ
  pub poll_timeout_retry : ℕ

abbrev pub no_retries : Retries
no_retries = record {
  text_reply_retry = 0;
  tls_retry = 0;
  conn_timeout_retry = 0;
  poll_timeout_retry = 0;
}

abbrev pub max_text_reply_retries : ℕ
max_text_reply_retries = 3

abbrev pub max_tls_retries : ℕ
max_tls_retries = 3

abbrev pub max_conn_timeout_retries : ℕ
max_conn_timeout_retries = 3

abbrev pub max_poll_timeout_retries : ℕ
max_poll_timeout_retries = 4

abbrev pub Answer : Type 0
Answer = Result ImageGenerationError (List ImageOutput)

-- One round of the loop: it returns, goes on after a retry that is counted, or goes on with other
-- tokens after one that the upstream no longer takes, which is not counted.
pub data Turn (S : Type 0) : Type 0 where
  returns : Answer → S → Turn S
  retries : String → Retries → S → Turn S
  renews : String → Retries → S → Turn S

abbrev policy_text : String
policy_text = "Image generation was rejected by upstream policy."

abbrev or_text : String → String → String
or_text default t = if t == "" then default else t

unfoldable pub with_email : String → ImageOutput → ImageOutput
with_email account_email o =
    if not (account_email == "") && o.account_email == ""
    then record o { account_email = account_email }
    else o

bad_request : String → String → String → String → ImageGenerationError
bad_request text code email conversation_id = record {
  message = text;
  status_code = 400;
  error_type = "invalid_request_error";
  code = some code;
  account_email = email;
  conversation_id = conversation_id;
}

server_error : ℕ → String → String → String → String → ImageGenerationError
server_error status text code email conversation_id = record {
  message = text;
  status_code = status;
  error_type = "server_error";
  code = some code;
  account_email = email;
  conversation_id = conversation_id;
}

unfoldable pub first_message : List ImageOutput → Option ImageOutput
first_message [] = none
first_message (o ∷ outputs) =
    let rest = first_message outputs in if is_message o then some o else rest

-- `message_as_error`: a message becomes an error of the content policy.
unfoldable pub outcome_of :
    ConversationRequest → String → List ImageOutput → Option ImgErr → Option ImgErr
unfolding bad_request first_message
outcome_of request email outputs (some e) = some e
outcome_of request email outputs none =
    if request.message_as_error
    then elim (first_message outputs) [
      | none ↦ none
      | some o ↦ some (
          gen (
            bad_request (or_text policy_text o.text) "content_policy_violation" email
              o.conversation_id))
    ]
    else none

unfoldable pub last_output : List ImageOutput → Option ImageOutput
last_output [] = none
last_output (o ∷ []) = some o
last_output (o ∷ p ∷ ps) = last_output (p ∷ ps)

unfoldable pub any_result : List ImageOutput → Bool
any_result [] = false
any_result (o ∷ outputs) = let rest = any_result outputs in if is_result o then true else rest

abbrev ends_in_message : List ImageOutput → Bool
ends_in_message outputs = elim (last_output outputs) [ none ↦ false | some o ↦ is_message o ]

abbrev pub emitted : List ImageOutput → Bool
emitted outputs = elim outputs [ [] ↦ false | o ∷ rest ↦ true ]

-- No output, or an error where there are some and none is an image.
without_result : String → List ImageOutput → Answer
unfolding bad_request
without_result email outputs = elim (last_output outputs) [
  | none ↦ ok outputs
  | some o ↦ err (
      bad_request "upstream completed without generating images" "no_image_generated" email
        o.conversation_id)
]

module _ {S : Type 0} (deps : ConvDeps) (acc : Accounts S) (request : ConversationRequest) where
  completed : String → String → List ImageOutput → S → Turn S
  unfolding without_result last_output any_result
  completed token email outputs s =
      if ends_in_message outputs
      then returns (ok outputs) (acc.mark_image_result token false s)
      else if not (any_result outputs)
      then returns (without_result email outputs) (acc.mark_image_result token false s)
      else returns (ok outputs) (acc.mark_image_result token true s)

  poll_timed_out : String → String → Retries → List ImageOutput → String → String → S → Turn S
  unfolding server_error
  poll_timed_out token email tried outputs text conversation_id s =
      let marked = acc.mark_image_result token false s in
      let next = tried.poll_timeout_retry + 1 in
      if not (emitted outputs) && leb next max_poll_timeout_retries
      then retries email (record tried { poll_timeout_retry = next }) marked
      else returns (err (server_error 504 text "image_poll_timeout" email conversation_id)) marked

  generation_failed :
      String → String → Retries → List ImageOutput → ImageGenerationError → S → Turn S
  unfolding server_error
  generation_failed token email tried outputs e s =
      let marked = acc.mark_image_result token false s in
      let named =
        if not (email == "") && e.account_email == ""
        then record e { account_email = email }
        else e in
      let next = tried.text_reply_retry + 1 in
      if is_model_text_reply_instead_of_image deps.replies e.message && not (emitted outputs)
      then (if leb next max_text_reply_retries
          then retries email (record tried { text_reply_retry = next }) marked
          else returns
              (err (
                server_error 502
                  "Image generation failed: the upstream model returned a text description instead of generating an image. Please try again later."
                  "upstream_text_reply" email e.conversation_id))
              marked)
      else returns (err named) marked

  -- The token is refreshed; where that brings no other, it is removed.
  renew : String → String → Retries → S → Turn S
  renew token email tried s =
      let (refreshed, later) = acc.refresh_access_token token s in
      if not (refreshed == "") && not (refreshed == token)
      then renews email tried later
      else renews email tried (acc.remove_invalid_token token later)

  engine_failed : String → String → Retries → List ImageOutput → String → S → Turn S
  unfolding server_error renew
  engine_failed token email tried outputs last_error s =
      let marked = acc.mark_image_result token false s in
      let silent = not (emitted outputs) in
      let tls = tried.tls_retry + 1 in
      let tls_failed = silent && is_tls_connection_error deps.host last_error in
      let timed_out = silent && is_connection_timeout_error deps.host last_error in
      let after_tls = if tls_failed then record tried { tls_retry = tls } else tried in
      let conn = tried.conn_timeout_retry + 1 in
      if silent && is_token_invalid_error deps.host last_error
      then renew token email tried marked
      else if tls_failed && leb tls max_tls_retries
      then retries email after_tls marked
      else if timed_out && leb conn max_conn_timeout_retries
      then retries email (record after_tls { conn_timeout_retry = conn }) marked
      else returns
          (err (
            server_error 502 (image_stream_error_message deps.host last_error) "upstream_error"
              email ""))
          marked

  failed_with : String → String → Retries → List ImageOutput → ImgErr → S → Turn S
  unfolding poll_timed_out generation_failed engine_failed bad_request engine_text
  failed_with token email tried outputs (engine (image_poll_timeout m conversation_id)) s =
      poll_timed_out token email tried outputs m conversation_id s
  failed_with token email tried outputs (engine (image_content_policy m)) s =
      returns (err (bad_request (or_text policy_text m) "content_policy_violation" email ""))
        (acc.mark_image_result token false s)
  failed_with token email tried outputs (gen e) s = generation_failed token email tried outputs e s
  failed_with token email tried outputs (engine e) s =
      engine_failed token email tried outputs (engine_text e) s

  concluded : String → String → Retries → List ImageOutput → Option ImgErr → S → Turn S
  unfolding completed failed_with
  concluded token email tried outputs none s = completed token email outputs s
  concluded token email tried outputs (some e) s = failed_with token email tried outputs e s

  streamed : ℤ → ℤ → Result EngineError Backend → Streamed
  streamed index total (err e) = ([], some (engine e))
  streamed index total (ok backend) =
      if is_codex_image_model deps.host (str request.model)
      then stream_codex_image_outputs deps backend request index total
      else stream_image_outputs deps backend request index total

  account_of : String → S → Fields
  account_of token s = elim (acc.get_account token s) [ none ↦ end | some account ↦ account ]

  -- The round with a token.
  token_round : ℤ → ℤ → Retries → String → S → Turn S
  unfolding concluded streamed account_of
  token_round index total tried token s =
      let account = account_of token s in
      let email = trim (text_at "email" account) in
      let (answer, later) = acc.open_backend token account s in
      let (put, ended) = streamed index total answer in
      let outputs = map (with_email email) put in
      concluded token email tried outputs (outcome_of request email outputs ended) later

  plan_types : List String
  plan_types =
      if is_codex_image_model deps.host (str request.model)
        && not (is_some (split_image_model deps.host (str request.model)).0)
      then image_model_plan_types
      else []

  source_type : Option String
  source_type = if is_codex_image_model deps.host (str request.model) then some "codex" else none

  -- No token: the error carries the address of the account before.
  answered : ℤ → ℤ → String → Retries → Result String String → S → Turn S
  unfolding token_round new
  answered index total account_email tried (ok token) s = token_round index total tried token s
  answered index total account_email tried (err e) s =
      returns
        (err (record (new (or_text "image generation failed" e)) { account_email = account_email }))
        s

  turn : ℤ → ℤ → String → Retries → S → Turn S
  unfolding answered plan_types source_type
  turn index total account_email tried s =
      let (answer, later) =
        acc.get_available_access_token (split_image_model deps.host (str request.model)).0
          source_type plan_types s in
      answered index total account_email tried answer later

  -- The loop, on fuel: `none` where the rounds are used up.
  unfoldable pub single_loop : ℕ → ℤ → ℤ → String → Retries → S → Option (Answer × S)
  unfolding turn
  single_loop zero index total email tried s = none
  single_loop (suc rounds) index total email tried s = elim (turn index total email tried s) [
    | returns answer t ↦ some (answer, t)
    | retries next counted t ↦ single_loop rounds index total next counted t
    | renews next counted t ↦ single_loop rounds index total next counted t
  ]

  unfoldable pub generate_single_image : ℕ → ℤ → ℤ → S → Option (Answer × S)
  generate_single_image rounds index total s = single_loop rounds index total "" no_retries s
