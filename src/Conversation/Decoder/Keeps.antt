-- ===== src/Conversation/Decoder/Keeps.antt =====
-- src/services/protocol/conversation.rs: the identifiers of a conversation over a whole stream.
use model2api.Common.{
  String, Option, none, some, List, [], ◌∷◌, ◌==◌, Bool-cases, Option-cases, inl, inr,
}
use model2api.Json.{Value, Fields, Host, obj}
use model2api.Conversation.{Patterns, sanitize_output_text}
use model2api.Conversation.Patches.{assistant_raw_text}
use model2api.Conversation.State.{update_state}
use model2api.Conversation.State.Kept.{Kept, Kept-trans, Kept-refl, update_state-Kept}
use model2api.Conversation.Decoder.{
  ConversationDecoder, push, push_parsed, push_object, push_seen, push_answer, push_text, repeated,
  run_text_stream,
}

push_text-Kept :
    (event : Fields) (raw next : String) (d : ConversationDecoder)
    → Kept d.state (push_text event raw next d).1.state
unfolding push_text
push_text-Kept event raw next d = elim (Bool-cases (next == d.state.text)) [
  | inl same ↦ rw (push_text, same) (Kept-refl d.state)
  | inr new ↦ rw (push_text, new) (Kept-refl d.state)
]

push_seen-Kept :
    (h : Host) (r : Patterns) (event : Fields) (seen : ConversationDecoder)
    → Kept seen.state (push_seen h r event seen).1.state
unfolding push_seen push_answer
push_seen-Kept h r event seen =
    let raw = assistant_raw_text h event seen.state.raw_text seen.history_text in
    elim (Option-cases (repeated event seen)) [
      | inl answer ↦
          rw (push_seen, answer) (push_text-Kept event raw (sanitize_output_text h r raw) seen)
      | inr (ms, again) ↦ rw (push_seen, again) (Kept-refl seen.state)
    ]

push_parsed-Kept :
    (h : Host) (r : Patterns) (payload : String) (o : Option Value) (d : ConversationDecoder)
    → Kept d.state (push_parsed h r payload o d).1.state
unfolding push_parsed push_object
push_parsed-Kept h r payload none d = update_state-Kept h r payload none d.state
push_parsed-Kept h r payload (some (obj event)) d =
    let next = update_state h r payload (some event) d.state in
    let seen = record d { state = next } in
    Kept-trans d.state next (push_seen h r event seen).1.state
      (update_state-Kept h r payload (some event) d.state) (push_seen-Kept h r event seen)
push_parsed-Kept h r payload (some _) d = Kept-refl d.state

push-Kept :
    (h : Host) (r : Patterns) (payload : String) (d : ConversationDecoder)
    → Kept d.state (push h r payload d).1.state
unfolding push
push-Kept h r payload d = elim (Bool-cases (payload == "")) [
  | inl empty ↦ rw (push, empty) (Kept-refl d.state)
  | inr more ↦ elim (Bool-cases (payload == "[DONE]")) [
    | inl done ↦ rw (push, more, done) (Kept-refl d.state)
    | inr goes ↦ rw (push, more, goes) (push_parsed-Kept h r payload (r.parse payload) d)
  ]
]

-- Whatever payloads a stream has, a conversation that has its identifier keeps one, a block by
-- moderation is never taken back, and the identifiers of files and of sediments are only added to;
-- where none was empty or stood twice before, none is or does afterwards.
pub run_text_stream-Kept :
    (h : Host) (r : Patterns) (payloads : List String) (d : ConversationDecoder)
    → Kept d.state (run_text_stream h r payloads d).1.state
unfolding run_text_stream
run_text_stream-Kept h r [] d = Kept-refl d.state
run_text_stream-Kept h r (payload ∷ payloads) d =
    let seen = (push h r payload d).1 in
    elim (Bool-cases (payload == "[DONE]")) [
      | inl done ↦ rw done (push-Kept h r payload d)
      | inr goes ↦ rw goes (
          Kept-trans d.state seen.state (run_text_stream h r payloads seen).1.state
            (push-Kept h r payload d) (run_text_stream-Kept h r payloads seen))
    ]
