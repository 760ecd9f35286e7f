-- ===== src/Tests/Streams.antt =====
-- The streams of text conversations: an answer in two pieces.
use model2api.Common.{
  String, ◌≡◌, refl, false, Option, none, some, List, [], ◌∷◌, append, ◌==◌, ◌≢◌, Bool-cases, inl,
  inr, eq_iff,
}
use model2api.Json.{Value, Host, obj}
use model2api.Conversation.{
  Patterns, sanitize_output_text, assistant_history_text, assistant_history_messages,
}
use model2api.Conversation.Patches.{strip_history}
use model2api.Conversation.Patches.History.{Stripped, strip_history-Stripped}
use model2api.Conversation.Patches.Append.{append_event}
use model2api.Conversation.State.Kept.{Kept}
use model2api.Conversation.Decoder.{ConversationDecoder, new, collected, run_text_stream}
use model2api.Conversation.Decoder.Deltas.{collected-run_text_stream}
use model2api.Conversation.Decoder.Patched.{
  IsEncoding, IsPlain, At, growing, stream, collected-stream,
}
use model2api.Conversation.Decoder.Keeps.{run_text_stream-Kept}

abbrev pub stream_host : Host
stream_host = record {
  print = λ v. "x";
  lower = λ t. t;
  sha256_hex = λ t. t;
  parse_rfc3339 = λ t. none;
  parse_naive = λ t. none;
}

-- A payload of the tests is a piece behind a mark.
abbrev encode : String → String
encode c = String.◌∷◌ "+" c

abbrev pub read : String → Option Value
read String.[] = none
read (String.◌∷◌ d c) = some (obj (append_event c))

abbrev pub patterns : Patterns
patterns = record {
  conversation_id = λ t. none;
  file_service_ids = λ t. [];
  real_image_file_ids = λ t. [];
  sediment_ids = λ t. [];
  replace_annotations = λ f t. t;
  cut_annotation_tail = λ t. t;
  join_punctuation = λ t. t;
  is_internal1 = λ t. false;
  is_internal2 = λ t. false;
  parse = read;
}

differs : (c t : String) → encode c ≢ t → (encode c == t) ≡ false
differs c t h = elim (Bool-cases (encode c == t)) [
  | inl same ↦ absurd (h ((eq_iff (encode c) t).0 same))
  | inr other ↦ other
]

encode-IsEncoding : IsEncoding patterns encode
encode-IsEncoding = record {
  parsed = λ c. refl;
  named = λ c. differs c "" (λ e. absurd (cc));
  goes = λ c. differs c "[DONE]" (λ e. absurd (cc));
}

abbrev pieces : List String
pieces = "Hel" ∷ "lo" ∷ []

pieces-IsPlain : IsPlain stream_host patterns "" pieces
unfolding sanitize_output_text
pieces-IsPlain = (refl, (refl, tt))

collected-stream_example :
    collected
      (run_text_stream stream_host patterns
        (stream encode pieces)
        (new (assistant_history_text []) (assistant_history_messages []))).0
    ≡ collected pieces
collected-stream_example =
    collected-stream stream_host patterns encode encode-IsEncoding [] pieces pieces-IsPlain

abbrev started : ConversationDecoder
started = new "" []

started-At : At "" started
unfolding new
started-At = record { text = refl; raw_text = refl; messages = tt }

collected-run_text_stream_example :
    append started.state.text
      (collected (run_text_stream stream_host patterns (stream encode pieces) started).0)
    ≡ (run_text_stream stream_host patterns (stream encode pieces) started).1.state.text
collected-run_text_stream_example =
    collected-run_text_stream stream_host patterns (stream encode pieces) started (
      growing stream_host patterns encode encode-IsEncoding "" pieces started started-At
        pieces-IsPlain)

strip_history-Stripped_example : Stripped "ababc" "ab" (strip_history "ababc" "ab")
strip_history-Stripped_example = strip_history-Stripped "ab" refl "ababc"

run_text_stream-Kept_example :
    Kept started.state (run_text_stream stream_host patterns (stream encode pieces) started).1.state
run_text_stream-Kept_example =
    run_text_stream-Kept stream_host patterns (stream encode pieces) started
