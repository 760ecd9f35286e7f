-- ===== src/Tests/Pictures.antt =====
-- The images of a conversation: an image that is made at the second try, after a timeout.
use model2api.Common.{
  ℕ, suc, String, ◌≡◌, refl, true, false, Option, none, some, List, [], ◌∷◌, ℤ, pos, arith, ◌⊎◌,
  nat_eq, if◌then◌else◌, trim,
}
use model2api.Json.{Fields, str, arr, obj, field, end, get_field, insert_field}
use model2api.Storage.JsonFile.{items_of}
use model2api.Images.{
  ok, err, ConversationRequest, other, ImageGenerationError, new, is_token_invalid_error,
  is_tls_connection_error, is_connection_timeout_error, engine_text,
}
use model2api.Images.Names.{is_codex_image_model, is_supported_image_model, split_image_model}
use model2api.Conversation.Decoder.{push, base_event, new as new_decoder}
use model2api.Images.Output.{ImageOutput, result}
use model2api.Images.Formats.{ImageStorage, format_image_result, format_items}
use model2api.Images.Picture.{
  ConvDeps, Backend, payload, stream_image_outputs, picture_loop, after_stream, read_reply,
}
use model2api.Images.Single.{
  Accounts, Answer, generate_single_image, no_retries, emitted, single_loop, outcome_of, any_result,
  first_message, last_output, with_email,
}
use model2api.Images.Single.Ends.{renewals, generate_single_image-ends}
use model2api.Images.Single.Answers.{IsAnswer, generate_single_image-IsAnswer}
use model2api.Images.Pooled.{
  Joined, joined, join_error, stream_image_outputs_with_pool, collect_image_outputs, emit_results,
  serial, send_all,
}
use model2api.Images.Pooled.Traced.{
  Call, took, gave, traced, IsPaired, generate_single_image-IsPaired,
  stream_image_outputs_with_pool-IsPaired,
}
use model2api.Images.Pooled.Gathered.{produced, images_in, collect-emit_results}
use model2api.Tests.Streams.{stream_host, patterns}

abbrev pub storage : ImageStorage
storage = record {
  encode = λ b. "aW1n";
  decode = λ t. some (1 ∷ []);
  save = λ b base. "/images/1.png";
}

abbrev pub picture_deps : ConvDeps
picture_deps = record {
  host = stream_host;
  patterns = patterns;
  replies = record { referenced_image_ids = λ t. false; tool_params_json = λ t. false };
  config = record {
    global_system_prompt = "";
    image_poll_timeout_secs = pos 120;
    image_parallel_generation = false;
  };
  image_storage = storage;
}

abbrev pub picture_backend : Backend
picture_backend = record {
  stream_picture_conversation = λ prompt model images. ok (payload (pos 7) "[DONE]" ∷ []);
  codex_image_response_events = λ prompt images size quality. err (other "none");
  resolve_conversation_image_urls = λ again id files sediments timeout. ok ("u" ∷ []);
  download_image_bytes = λ urls. ok ((1 ∷ []) ∷ []);
  now_ts = pos 8;
}

abbrev pub picture_request : ConversationRequest
picture_request = record {
  model = "gpt-image-2";
  prompt = "a cat";
  images = none;
  n = pos 2;
  size = none;
  quality = "auto";
  response_format = "url";
  base_url = none;
  message_as_error = true;
}

-- The calls so far, and the token whose slot is held.
abbrev Ledger : Type 0
Ledger = ℕ × Option String

abbrev ledger_accounts : Accounts Ledger
ledger_accounts = record {
  get_available_access_token = λ plan source plans s. (ok "t", (suc s.0, some "t"));
  get_account = λ token s. none;
  open_backend = λ token account s. (
    if nat_eq s.0 1 then err (other "curl: (28) operation timed out") else ok picture_backend,
    s,
  );
  mark_image_result = λ token success s. (s.0, none);
  refresh_access_token = λ token s. (token, s);
  remove_invalid_token = λ token s. s;
}

abbrev no_tasks : Ledger → List Joined × Ledger
no_tasks s = ([], s)

abbrev picture : ℤ → ImageOutput
picture index = record {
  kind = "result";
  model = "gpt-image-2";
  index = index;
  total = pos 2;
  created = pos 8;
  text = "";
  upstream_event_type = "";
  entries = obj (field "url" (str "/images/1.png") (field "revised_prompt" (str "a cat") end)) ∷ [];
  account_email = "";
  conversation_id = "";
}

-- The second try makes the image.
made_test :
    generate_single_image picture_deps ledger_accounts picture_request 14 (pos 1) (pos 2) (0, none)
    ≡ some (ok (picture (pos 1) ∷ []), (2, none))
unfolding generate_single_image single_loop outcome_of is_token_invalid_error
    is_tls_connection_error is_connection_timeout_error is_codex_image_model split_image_model trim
    stream_image_outputs picture_loop after_stream read_reply get_field push insert_field base_event
    new_decoder format_image_result format_items result any_result first_message last_output
    with_email engine_text
made_test = refl

renewals_test :
    renewals picture_deps ledger_accounts picture_request 14 (pos 1) (pos 2) "" no_retries (0, none)
    ≡ 0
unfolding renewals outcome_of is_token_invalid_error is_tls_connection_error
    is_connection_timeout_error is_codex_image_model split_image_model trim stream_image_outputs
    picture_loop after_stream read_reply get_field push insert_field base_event new_decoder
    format_image_result format_items result any_result first_message last_output with_email
    engine_text
renewals_test = refl

generate_single_image-ends_example :
    (answer : Answer) × (t : Ledger) × (generate_single_image picture_deps ledger_accounts
        picture_request 14
        (pos 1)
        (pos 2)
        (0, none)
      ≡ some (answer, t))
generate_single_image-ends_example =
    generate_single_image-ends picture_deps ledger_accounts picture_request 14 (pos 1) (pos 2)
      (0, none) (omega (arith, renewals_test))

generate_single_image-IsAnswer_example : IsAnswer true (ok (picture (pos 1) ∷ []))
generate_single_image-IsAnswer_example =
    generate_single_image-IsAnswer picture_deps ledger_accounts picture_request 14 (pos 1) (pos 2)
      (0, none) (2, none) (ok (picture (pos 1) ∷ [])) made_test

-- Both images, one after the other.
served_test :
    stream_image_outputs_with_pool picture_deps ledger_accounts picture_request 14 no_tasks 5
      (0, none)
    ≡ some (ok (picture (pos 1)) ∷ ok (picture (pos 2)) ∷ [], (3, none))
unfolding stream_image_outputs_with_pool serial send_all is_supported_image_model
    generate_single_image single_loop outcome_of is_token_invalid_error is_tls_connection_error
    is_connection_timeout_error is_codex_image_model split_image_model trim stream_image_outputs
    picture_loop after_stream read_reply get_field push insert_field base_event new_decoder
    format_image_result format_items result any_result first_message last_output with_email
    engine_text
served_test = refl

abbrev two_rounds : List Call
two_rounds = gave "t" ∷ took "t" ∷ gave "t" ∷ took "t" ∷ []

traced_image_test :
    generate_single_image picture_deps
      (traced ledger_accounts)
      picture_request
      14
      (pos 1)
      (pos 2)
      ((0, none), [])
    ≡ some (ok (picture (pos 1) ∷ []), ((2, none), two_rounds))
unfolding generate_single_image single_loop outcome_of is_token_invalid_error
    is_tls_connection_error is_connection_timeout_error is_codex_image_model split_image_model trim
    stream_image_outputs picture_loop after_stream read_reply get_field push insert_field base_event
    new_decoder format_image_result format_items result any_result first_message last_output
    with_email engine_text
traced_image_test = refl

generate_single_image-IsPaired_example : IsPaired two_rounds
generate_single_image-IsPaired_example =
    generate_single_image-IsPaired picture_deps ledger_accounts picture_request 14 (pos 1) (pos 2)
      (0, none) (2, none) two_rounds (ok (picture (pos 1) ∷ [])) traced_image_test

abbrev no_logged_tasks : Ledger × List Call → List Joined × (Ledger × List Call)
no_logged_tasks t = ([], t)

abbrev calls : List Call
calls = gave "t" ∷ took "t" ∷ gave "t" ∷ took "t" ∷ gave "t" ∷ took "t" ∷ []

-- The first image takes two rounds, the second one.
traced_test :
    stream_image_outputs_with_pool picture_deps
      (traced ledger_accounts)
      picture_request
      14
      no_logged_tasks
      5
      ((0, none), [])
    ≡ some (ok (picture (pos 1)) ∷ ok (picture (pos 2)) ∷ [], ((3, none), calls))
unfolding stream_image_outputs_with_pool serial send_all is_supported_image_model
    generate_single_image single_loop outcome_of is_token_invalid_error is_tls_connection_error
    is_connection_timeout_error is_codex_image_model split_image_model trim stream_image_outputs
    picture_loop after_stream read_reply get_field push insert_field base_event new_decoder
    format_image_result format_items result any_result first_message last_output with_email
    engine_text
traced_test = refl

stream_image_outputs_with_pool-IsPaired_example : IsPaired calls
stream_image_outputs_with_pool-IsPaired_example =
    stream_image_outputs_with_pool-IsPaired picture_deps ledger_accounts picture_request 14
      no_logged_tasks 5 (0, none) (3, none) calls (ok (picture (pos 1)) ∷ ok (picture (pos 2)) ∷ [])
      refl traced_test

abbrev outcomes : List Joined
outcomes =
    joined (err (new "no slot")) ∷ joined (ok (picture (pos 2) ∷ [])) ∷ join_error "panicked" ∷ []

collect-emit_results_example :
    ((emitted (produced outcomes) ≡ true)
      × (m : Fields) × (collect_image_outputs (pos 9) (emit_results stream_host 3 false "" outcomes)
          ≡ ok m)
      × (get_field "data" m ≡ some (arr (items_of (images_in (produced outcomes))))))
    ⊎ ((emitted (produced outcomes) ≡ false)
        × (e : ImageGenerationError) × (collect_image_outputs
              (pos 9)
              (emit_results stream_host 3 false "" outcomes)
            ≡ err e))
collect-emit_results_example = collect-emit_results stream_host (pos 9) 3 outcomes (omega arith)
