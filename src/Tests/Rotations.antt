-- ===== src/Tests/Rotations.antt =====
-- A text conversation that goes to a second account, since the first one's token is revoked.
use model2api.Common.{
  ℕ, String, ◌≡◌, refl, true, some, List, [], ◌∷◌, ◌==◌, elem, if◌then◌else◌, arith, Bool-cases,
  inl, inr,
}
use model2api.Json.{Value, get_field, insert_field, obj, str, field, end}
use model2api.Images.{ok, is_token_invalid_error}
use model2api.Conversation.Rotation.{
  TextAccounts, payload, broken, Sent, told, stream_text_deltas, text_loop, run_events,
}
use model2api.Conversation.Rotation.Rounds.{Round, is_unique}
use model2api.Conversation.Rotation.Whole.{IsWhole, stream_text_deltas-IsWhole}
use model2api.Conversation.Rotation.Ends.{IsKnown, IsKnown-IsAmong, stream_text_deltas-ends}
use model2api.Conversation.Decoder.{
  push, deltas, push_object, push_seen, repeated, new, push_answer, push_text, delta_of, base_event,
}
use model2api.Conversation.{
  assistant_history_messages, assistant_history_text, sanitize_output_text,
}
use model2api.Conversation.Messages.{normalize_messages}
use model2api.Conversation.Patches.{
  assistant_raw_text, apply_text_patch, patched, apply_patch_op, strip_history,
  event_assistant_text,
}
use model2api.Conversation.State.{
  update_state, with_event, with_ids, image_context, is_image_tool_event, event_message,
}
use model2api.Common.Prefix.{after}
use model2api.Tests.Streams.{stream_host, patterns}

abbrev two_tokens : TextAccounts ℕ
two_tokens = record {
  get_text_access_token = λ attempted s. (if elem "a" attempted then "b" else "a", s);
  converse = λ token messages s. (
    ok (
        if token == "a"
        then broken "token_revoked" ∷ []
        else payload "+Hel" ∷ payload "+lo" ∷ payload "[DONE]" ∷ []),
    s,
  );
  mark_text_used = λ token s. s;
  refresh_access_token = λ token s. ("", s);
  remove_invalid_token = λ token s. s;
}

abbrev asked : List Value
asked = obj (field "role" (str "user") (field "content" (str "Hi") end)) ∷ []

rotated_test :
    stream_text_deltas stream_host patterns two_tokens "" asked 5 3 0
    ≡ some (told ("Hel" ∷ "lo" ∷ []), 0)
unfolding stream_text_deltas text_loop is_token_invalid_error run_events deltas push push_object
    push_seen repeated new assistant_history_messages assistant_history_text normalize_messages
    get_field push_answer push_text sanitize_output_text assistant_raw_text apply_text_patch patched
    apply_patch_op delta_of base_event insert_field strip_history after event_assistant_text
    update_state with_event with_ids image_context is_image_tool_event event_message
rotated_test = refl

stream_text_deltas-IsWhole_example :
    IsWhole stream_host patterns two_tokens "" asked 5 0 (told ("Hel" ∷ "lo" ∷ []))
stream_text_deltas-IsWhole_example =
    stream_text_deltas-IsWhole stream_host patterns two_tokens "" asked 5 3 0 0
      (told ("Hel" ∷ "lo" ∷ [])) rotated_test

abbrev both : List String
both = "a" ∷ "b" ∷ []

two_tokens-IsKnown : IsKnown stream_host patterns two_tokens "" asked 5 0 both
two_tokens-IsKnown = record {
  chosen = λ attempted s n. elim (Bool-cases (elem "a" attempted)) [
    | inl again ↦ rw again refl
    | inr first ↦ rw first refl
  ];
  refreshed = λ token s n. absurd cc;
}

stream_text_deltas-ends_example :
    ((items : List Sent) × (t : ℕ) × (stream_text_deltas stream_host patterns two_tokens "" asked 5
          3 0
        ≡ some (items, t)))
    × ((attempted : List String) (token : String) (before : List String) (s : ℕ)
        → Round stream_host patterns two_tokens "" asked 5 0 attempted token before s
        → is_unique attempted ≡ true)
stream_text_deltas-ends_example =
    stream_text_deltas-ends stream_host patterns two_tokens "" asked 5 0 both 3
      (IsKnown-IsAmong stream_host patterns two_tokens "" asked 5 0 both two_tokens-IsKnown)
      (omega arith)
