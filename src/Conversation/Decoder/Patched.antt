-- ===== src/Conversation/Decoder/Patched.antt =====
-- src/services/protocol/conversation.rs: an answer that arrives in pieces is passed on as it is.
use model2api.Common.{
  String, ◌≡◌, refl, sym, ◌∙◌, ap, subst, true, false, Option, none, some, List, [], ◌∷◌, ◌++◌, map,
  ◌==◌, if◌then◌else◌, append, All, eq_iff, Bool-cases, inl, inr,
}
use text.Mathlib.Text.{starts_with}
use text.Mathlib.TextPositions.{starts_with-append}
use text.Mathlib.TextLemmas.{append_assoc, append-nil, nil-append}
use model2api.Json.{Value, Fields, Host, obj, get_value}
use model2api.Conversation.{
  Patterns, sanitize_output_text, is_assistant, text_of, assistant_history_text,
  assistant_history_messages,
}
use model2api.Conversation.Patches.{assistant_raw_text, event_assistant_text}
use model2api.Conversation.Patches.Append.{
  append_event, raw_text-append_event, assistant_text-append_event,
}
use model2api.Conversation.State.{update_state}
use model2api.Conversation.Decoder.{
  ConversationDecoder, new, push, push_parsed, push_object, push_seen, push_answer, push_text,
  repeated, collected, run_text_stream,
}
use model2api.Conversation.Decoder.Deltas.{
  IsGrowing, collected-run_text_stream, text-update_state, raw_text-update_state,
}

-- The payloads that tell a piece of the text, and are no end of the stream.
pub record IsEncoding (r : Patterns) (encode : String → String) : Type 0 where
  pub parsed : (c : String) → r.parse (encode c) ≡ some (obj (append_event c))
  pub named : (c : String) → (encode c == "") ≡ false
  pub goes : (c : String) → (encode c == "[DONE]") ≡ false

-- The text so far and the pieces have none of the marks that `sanitize_output_text` replaces.
abbrev pub IsPlain : Host → Patterns → String → List String → Type 0
IsPlain h r t [] = Unit
IsPlain h r t (c ∷ cs) =
    (sanitize_output_text h r (append t c) ≡ append t c) × IsPlain h r (append t c) cs

-- The decoder has read the text, and waits for no empty message of the history.
pub record At (t : String) (d : ConversationDecoder) : Type 0 where
  pub text : d.state.text ≡ t
  pub raw_text : d.state.raw_text ≡ t
  pub messages : All (λ m. (m == "") ≡ false) d.history_messages

not_blank : (m : String) → (m == "") ≡ false → ("" == m) ≡ false
not_blank m h = elim (Bool-cases ("" == m)) [
  | inl same ↦ absurd (let one = (eq_iff m "").1 (sym ((eq_iff "" m).0 same)) in cc)
  | inr other ↦ other
]

not_repeated :
    (c : String) (d : ConversationDecoder)
    → All (λ m. (m == "") ≡ false) d.history_messages
    → repeated (append_event c) d ≡ none
unfolding repeated
not_repeated c d all = go d.history_messages all
  where
    go :
        (ms : List String)
        → All (λ m. (m == "") ≡ false) ms
        → elim ms as (λ x. Option (List String)) [
          | [] ↦ none
          | m ∷ ms ↦
              if event_assistant_text (append_event c) d.history_text == m then some ms else none
        ]
          ≡ none
    go [] all = refl
    go (m ∷ ms) all = rw (assistant_text-append_event c d.history_text, not_blank m all.0) refl

push_text-At :
    (event : Fields) (raw next t : String) (d : ConversationDecoder)
    → raw ≡ t
    → next ≡ t
    → All (λ m. (m == "") ≡ false) d.history_messages
    → At t (push_text event raw next d).1
unfolding push_text
push_text-At event raw next t d read shown all = elim (Bool-cases (next == d.state.text)) [
  | inl same ↦
      rw (push_text, same)
        (record {
          text = sym ((eq_iff next d.state.text).0 same) ∙ shown;
          raw_text = read;
          messages = all;
        })
  | inr new ↦ rw (push_text, new) (record { text = shown; raw_text = read; messages = all })
]

push_seen-At :
    (h : Host) (r : Patterns) (t c : String) (seen : ConversationDecoder)
    → At t seen
    → sanitize_output_text h r (append t c) ≡ append t c
    → At (append t c) (push_seen h r (append_event c) seen).1
unfolding push_seen push_answer
push_seen-At h r t c seen at plain =
    let raw = assistant_raw_text h (append_event c) seen.state.raw_text seen.history_text in
    let read : raw ≡ append t c =
      raw_text-append_event h c seen.state.raw_text seen.history_text
      ∙ ap (λ x. append x c) at.raw_text in
    rw (push_seen, not_repeated c seen at.messages)
      (push_text-At (append_event c) raw (sanitize_output_text h r raw) (append t c) seen read
        (ap (sanitize_output_text h r) read ∙ plain) at.messages)

all_named :
    (messages : List Value) → All (λ m. (m == "") ≡ false) (assistant_history_messages messages)
unfolding assistant_history_messages
all_named [] = tt
all_named (item ∷ messages) = elim (Bool-cases (is_assistant item)) [
  | inl mine ↦ elim (Bool-cases (text_of (get_value "content" item) == "")) [
    | inl blank ↦ rw (mine, blank) (all_named messages)
    | inr told ↦ rw (mine, told) (told, all_named messages)
  ]
  | inr other ↦ rw other (all_named messages)
]

starts_with_self : (t : String) → starts_with t t ≡ true
starts_with_self t = subst (λ v. starts_with v t ≡ true) (append-nil t) (starts_with-append t "")

-- The payloads of the pieces, and the end of the stream.
abbrev pub stream : (String → String) → List String → List String
stream encode cs = map encode cs ++ ("[DONE]" ∷ [])

done_push : (h : Host) (r : Patterns) (d : ConversationDecoder) → (push h r "[DONE]" d).1 ≡ d
unfolding push
done_push h r d = refl

module _ (h : Host) (r : Patterns) (encode : String → String) (coded : IsEncoding r encode) where
  push-At :
      (t c : String) (d : ConversationDecoder)
      → At t d
      → sanitize_output_text h r (append t c) ≡ append t c
      → At (append t c) (push h r (encode c) d).1
  unfolding push push_parsed push_object
  push-At t c d at plain =
      let event = some (append_event c) in
      let seen = record d { state = update_state h r (encode c) event d.state } in
      rw (push, coded.named c, coded.goes c, coded.parsed c)
        (push_seen-At h r t c seen
          (record {
            text = text-update_state h r (encode c) event d.state ∙ at.text;
            raw_text = raw_text-update_state h r (encode c) event d.state ∙ at.raw_text;
            messages = at.messages;
          })
          plain)

  pub growing :
      (t : String) (cs : List String) (d : ConversationDecoder)
      → At t d
      → IsPlain h r t cs
      → IsGrowing h r (stream encode cs) d
  unfolding push
  growing t [] d at plain = (starts_with_self d.state.text, λ never. absurd (never refl))
  growing t (c ∷ cs) d at plain =
      let next = push-At t c d at plain.0 in
      (
        rw (next.text, at.text) (starts_with-append t c),
        λ goes. growing (append t c) cs (push h r (encode c) d).1 next plain.1,
      )

  ends :
      (t : String) (cs : List String) (d : ConversationDecoder)
      → At t d
      → IsPlain h r t cs
      → (run_text_stream h r (stream encode cs) d).1.state.text ≡ append t (collected cs)
  unfolding run_text_stream collected
  ends t [] d at plain = rw (done_push h r d) (at.text ∙ sym (append-nil t))
  ends t (c ∷ cs) d at plain = rw (coded.goes c) (
      ends (append t c) cs (push h r (encode c) d).1 (push-At t c d at plain.0) plain.1
      ∙ append_assoc t c (collected cs))

  -- An answer that arrives in pieces, each to be appended to the text, and that has no marks to
  -- replace, is passed on unchanged: whatever the history of the conversation, the deltas that are
  -- sent on add up to the pieces.
  pub collected-stream :
      (messages : List Value) (cs : List String)
      → IsPlain h r "" cs
      → collected
          (run_text_stream h r
            (stream encode cs)
            (new (assistant_history_text messages) (assistant_history_messages messages))).0
        ≡ collected cs
  unfolding new
  collected-stream messages cs plain =
      let d = new (assistant_history_text messages) (assistant_history_messages messages) in
      let at : At "" d = record { text = refl; raw_text = refl; messages = all_named messages } in
      sym (nil-append (collected (run_text_stream h r (stream encode cs) d).0))
      ∙ collected-run_text_stream h r (stream encode cs) d (growing "" cs d at plain)
      ∙ ends "" cs d at plain
      ∙ nil-append (collected cs)
