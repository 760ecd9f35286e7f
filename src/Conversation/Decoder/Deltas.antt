-- ===== src/Conversation/Decoder/Deltas.antt =====
-- src/services/protocol/conversation.rs: what the deltas of a stream add up to.
use model2api.Common.{
  String, ◌≡◌, refl, sym, ◌∙◌, ap, subst, ◌≢◌, true, false, Option, none, some, List, [], ◌∷◌, ◌++◌,
  ◌==◌, if◌then◌else◌, append, Bool-cases, Option-cases, inl, inr, eq_iff,
}
use model2api.Common.Prefix.{after, append-after}
use text.Mathlib.Text.{starts_with}
use Prim.Native.String.append
use text.Mathlib.TextLemmas.{append_assoc, append-nil, nil-append}
use model2api.Json.{Value, Fields, Host, obj, get_field, insert_field}
use model2api.Conversation.{Patterns, sanitize_output_text}
use model2api.Conversation.Patches.{assistant_raw_text}
use model2api.Conversation.State.{
  ConversationState, update_state, with_ids, with_event, image_context,
}
use model2api.Conversation.Decoder.{
  ConversationDecoder, Pushed, push, push_parsed, push_seen, push_object, push_answer, push_text,
  repeated, delta_of, deltas, collected, run_text_stream, base_event,
}

text-with_ids :
    (h : Host) (r : Patterns) (payload : String) (event : Option Fields) (s : ConversationState)
    → (with_ids h r payload event s).text ≡ s.text
unfolding with_ids
text-with_ids h r payload event s = elim (Bool-cases (image_context h s payload event)) [
  | inl mine ↦ rw (with_ids, mine) refl
  | inr other ↦ rw (with_ids, other) refl
]

pub text-update_state :
    (h : Host) (r : Patterns) (payload : String) (event : Option Fields) (s : ConversationState)
    → (update_state h r payload event s).text ≡ s.text
unfolding update_state with_event
text-update_state h r payload none s = text-with_ids h r payload none s
text-update_state h r payload (some event) s = text-with_ids h r payload (some event) s

raw_text-with_ids :
    (h : Host) (r : Patterns) (payload : String) (event : Option Fields) (s : ConversationState)
    → (with_ids h r payload event s).raw_text ≡ s.raw_text
unfolding with_ids
raw_text-with_ids h r payload event s = elim (Bool-cases (image_context h s payload event)) [
  | inl mine ↦ rw (with_ids, mine) refl
  | inr other ↦ rw (with_ids, other) refl
]

pub raw_text-update_state :
    (h : Host) (r : Patterns) (payload : String) (event : Option Fields) (s : ConversationState)
    → (update_state h r payload event s).raw_text ≡ s.raw_text
unfolding update_state with_event
raw_text-update_state h r payload none s = raw_text-with_ids h r payload none s
raw_text-update_state h r payload (some event) s = raw_text-with_ids h r payload (some event) s

-- What is sent on for one payload, behind the text so far, is the new text.
abbrev pub Told : String → Pushed → Type 0
Told old r = append old (collected (deltas r.0)) ≡ r.1.state.text

abbrev pub Grows : String → Pushed → Type 0
Grows old r = starts_with r.1.state.text old ≡ true

collected_one : (t : String) → collected (if t == "" then [] else t ∷ []) ≡ t
unfolding collected
collected_one t = elim (Bool-cases (t == "")) [
  | inl none_new ↦ rw none_new (sym ((eq_iff t "").0 none_new))
  | inr some_new ↦ rw some_new (append-nil t)
]

delta_of-grows :
    (old next : String) → starts_with next old ≡ true → append old (delta_of old next) ≡ next
unfolding delta_of
delta_of-grows old next g = rw g (append-after next old g)

push_text-Told :
    (event : Fields) (raw next : String) (d : ConversationDecoder)
    → Grows d.state.text (push_text event raw next d)
    → Told d.state.text (push_text event raw next d)
unfolding push_text deltas collected base_event get_field insert_field
push_text-Told event raw next d g = elim (Bool-cases (next == d.state.text)) [
  | inl same ↦ rw (push_text, same) (append-nil d.state.text)
  | inr new ↦
      rw (push_text, new, collected_one (delta_of d.state.text next))
        (delta_of-grows d.state.text next (rw (push_text, new) at g))
]

starts_empty : (old : String) → starts_with "" old ≡ true → append old "" ≡ ""
starts_empty String.[] g = nil-append ""
starts_empty (String.◌∷◌ c t) g =
    let rest = after "" (String.◌∷◌ c t) in
    absurd (
      let e : String.◌∷◌ c (append t rest) ≡ "" =
        sym (append.cons c t rest) ∙ append-after "" (String.◌∷◌ c t) g in
      cc)

push_seen-Told :
    (h : Host) (r : Patterns) (event : Fields) (seen : ConversationDecoder)
    → Grows seen.state.text (push_seen h r event seen)
    → Told seen.state.text (push_seen h r event seen)
unfolding push_seen push_answer deltas collected
push_seen-Told h r event seen g =
    let raw = assistant_raw_text h event seen.state.raw_text seen.history_text in
    elim (Option-cases (repeated event seen)) [
      | inl answer ↦
          rw (push_seen, answer)
            (push_text-Told event raw (sanitize_output_text h r raw) seen
              (rw (push_seen, answer) at g))
      | inr (ms, again) ↦
          rw (push_seen, again) (starts_empty seen.state.text (rw (push_seen, again) at g))
    ]

push_object-Told :
    (h : Host) (r : Patterns) (payload : String) (event : Fields) (d : ConversationDecoder)
    → Grows d.state.text (push_object h r payload event d)
    → Told d.state.text (push_object h r payload event d)
unfolding push_object
push_object-Told h r payload event d =
    let seen = record d { state = update_state h r payload (some event) d.state } in
    subst (λ old. Grows old (push_seen h r event seen) → Told old (push_seen h r event seen))
      (text-update_state h r payload (some event) d.state) (push_seen-Told h r event seen)

push_parsed-Told :
    (h : Host) (r : Patterns) (payload : String) (o : Option Value) (d : ConversationDecoder)
    → Grows d.state.text (push_parsed h r payload o d)
    → Told d.state.text (push_parsed h r payload o d)
unfolding push_parsed deltas collected base_event get_field insert_field
push_parsed-Told h r payload none d g =
    rw (text-update_state h r payload none d.state) (append-nil d.state.text)
push_parsed-Told h r payload (some (obj event)) d g = push_object-Told h r payload event d g
push_parsed-Told h r payload (some _) d g = append-nil d.state.text

pub push-Told :
    (h : Host) (r : Patterns) (payload : String) (d : ConversationDecoder)
    → Grows d.state.text (push h r payload d)
    → Told d.state.text (push h r payload d)
unfolding push deltas collected base_event get_field insert_field
push-Told h r payload d g = elim (Bool-cases (payload == "")) [
  | inl empty ↦ rw empty (append-nil d.state.text)
  | inr more ↦ elim (Bool-cases (payload == "[DONE]")) [
    | inl done ↦ rw (push, more, done) (append-nil d.state.text)
    | inr goes ↦
        rw (push, more, goes)
          (push_parsed-Told h r payload (r.parse payload) d (rw (push, more, goes) at g))
  ]
]

-- Every payload up to the end of the stream leaves the text or continues it.
abbrev pub IsGrowing : Host → Patterns → List String → ConversationDecoder → Type 0
IsGrowing h r [] d = Unit
IsGrowing h r (payload ∷ payloads) d =
    Grows d.state.text (push h r payload d)
    × (payload ≢ "[DONE]" → IsGrowing h r payloads (push h r payload d).1)

collected-append :
    (xs ys : List String) → collected (xs ++ ys) ≡ append (collected xs) (collected ys)
unfolding collected
collected-append [] ys = sym (nil-append (collected ys))
collected-append (x ∷ xs) ys =
    ap (append x) (collected-append xs ys) ∙ sym (append_assoc x (collected xs) (collected ys))

not_done : (t : String) → (t == "[DONE]") ≡ false → t ≢ "[DONE]"
not_done t h e = absurd (let one = (eq_iff t "[DONE]").1 e in cc)

-- Where every payload leaves the text of the answer or continues it, the deltas that are sent on add
-- up, behind the text at the start, to the text at the end: none is lost, doubled or out of order.
pub collected-run_text_stream :
    (h : Host) (r : Patterns) (payloads : List String) (d : ConversationDecoder)
    → IsGrowing h r payloads d
    → append d.state.text (collected (run_text_stream h r payloads d).0)
      ≡ (run_text_stream h r payloads d).1.state.text
unfolding run_text_stream collected
collected-run_text_stream h r [] d g = append-nil d.state.text
collected-run_text_stream h r (payload ∷ payloads) d g =
    let told = push-Told h r payload d g.0 in
    elim (Bool-cases (payload == "[DONE]")) [
      | inl done ↦ rw done told
      | inr goes ↦
          let seen = (push h r payload d).1 in
          let sent = (run_text_stream h r payloads seen).0 in
          let now = collected (deltas (push h r payload d).0) in
          let rest = collected-run_text_stream h r payloads seen (g.1 (not_done payload goes)) in
          rw goes (
            ap (append d.state.text) (collected-append (deltas (push h r payload d).0) sent)
            ∙ sym (append_assoc d.state.text now (collected sent))
            ∙ ap (λ t. append t (collected sent)) told
            ∙ rest)
    ]
