-- ===== src/Anthropic/Stream/Plain.antt =====
-- src/services/protocol/anthropic_v1_messages.rs: the stream of a request without tools.
use text.Mathlib.TextLemmas.{append-nil, append_assoc, nil-append, cons-append}
use mathlib.Core.List.{append-nil as list_append_nil}
use text.Mathlib.TextPositions.{starts_with-append}
use text.Mathlib.TextEquality.{eq_iff}
use model2api.Common.{
  ℕ, String, ◌≡◌, refl, true, false, inl, inr, some, List, [], ◌∷◌, ◌++◌, ℤ, ◌==◌, if◌then◌else◌,
  append, take, Bool-cases,
}
use model2api.Json.{Host}
use model2api.Anthropic.{MessageRequest, tools_active}
use model2api.Anthropic.Content.{Markup, called, content_blocks}
use model2api.Anthropic.Stream.{
  StreamEvent, message_start, text_start, text_delta, content_block_stop, message_delta,
  message_stop, Streaming, skip_chars, show_visible, take_delta, take_deltas, finish_events,
  error_event, messages_stream,
}
use model2api.Images.{err}
use model2api.Conversation.Decoder.{collected}
use model2api.Conversation.Rotation.{AppError, Sent, told}

skip_chars-append : (s t : String) → skip_chars s (append s t) ≡ t
unfolding skip_chars
skip_chars-append String.[] t = nil-append t
skip_chars-append (String.◌∷◌ c s) t = rw (cons-append c s t) (skip_chars-append s t)

-- The deltas, one event each; an empty delta has none.
abbrev pub passed : List String → List StreamEvent
passed [] = []
passed (d ∷ ds) = let later = passed ds in if d == "" then later else text_delta 0 d ∷ later

-- All of the text was streamed.
abbrev caught_up : String → Streaming
caught_up t = record { current_text = t; streamed_text = t; tool_started = false; text_open = true }

take_delta-caught_up :
    (m : Markup) (d t : String)
    → take_delta m false d (caught_up t)
      ≡ ((if d == "" then [] else text_delta 0 d ∷ []), caught_up (append t d))
unfolding take_delta show_visible
take_delta-caught_up m d t = elim (Bool-cases (d == "")) [
  | inl empty ↦ rw (empty, (eq_iff d "").0 empty, append-nil t) refl
  | inr full ↦ rw (full, starts_with-append t d, skip_chars-append t d, full) refl
]

passed-step :
    (d : String) (ds : List String) (later : List StreamEvent)
    → (if d == "" then [] else text_delta 0 d ∷ []) ++ (passed ds ++ later)
      ≡ passed (d ∷ ds) ++ later
passed-step d ds later = elim (Bool-cases (d == "")) [
  | inl empty ↦ rw empty refl
  | inr full ↦ rw full refl
]

-- The deltas behind a text are passed on; what comes behind them is taken up from there.
take_deltas-caught_up :
    (m : Markup) (ds : List String) (rest : List Sent) (t : String)
    → take_deltas m false (told ds ++ rest) (caught_up t) ≡ (
      passed ds ++ (take_deltas m false rest (caught_up (append t (collected ds)))).0,
      (take_deltas m false rest (caught_up (append t (collected ds)))).1,
    )
unfolding take_deltas collected
take_deltas-caught_up m [] rest t = rw (append-nil t) refl
take_deltas-caught_up m (d ∷ ds) rest t =
    rw
      (
        take_delta-caught_up m d t,
        take_deltas-caught_up m ds rest (append t d),
        append_assoc t d (collected ds),
      )
      (rw
        (passed-step d ds
          (take_deltas m false rest (caught_up (append t (append d (collected ds))))).0)
        refl)

-- Without tools the content is the text alone.
plain_content :
    (m : Markup) (said : String) (req : MessageRequest)
    → tools_active req.tools ≡ false
    → (content_blocks m said req.tools).1 ≡ "end_turn"
unfolding content_blocks called
plain_content m said req h = rw h refl

take_deltas-told :
    (m : Markup) (ds : List String)
    → take_deltas m false (told ds) (caught_up "") ≡ (passed ds, some (caught_up (collected ds)))
unfolding take_deltas
take_deltas-told m ds =
    rw (list_append_nil (told ds), list_append_nil (passed ds), nil-append (collected ds)) at
      (take_deltas-caught_up m ds [] "")

-- What is sent first.
abbrev pub opened : String → ℤ → MessageRequest → List StreamEvent → List StreamEvent
opened id input_tokens req later =
    message_start (append "msg_" id) req.model input_tokens ∷ text_start 0 ∷ later

-- Without tools each delta is passed on as it came, in one block that is stopped behind the last, and
-- the tokens are those of the deltas taken together; where an error comes behind the deltas, the error
-- is sent behind them, and nothing behind it.
pub messages_stream-passes :
    (h : Host) (m : Markup) (id : String) (input_tokens created : ℤ) (req : MessageRequest)
    (ds : List String) (e : AppError) (room : ℕ)
    → tools_active req.tools ≡ false
    → (messages_stream h m id input_tokens created req (told ds) room
        ≡ take room (
            opened id input_tokens req (
              passed ds
              ++ (content_block_stop 0
                  ∷ message_delta "end_turn" (m.count_text_tokens (collected ds))
                  ∷ message_stop created
                  ∷ []))))
      × (messages_stream h m id input_tokens created req (told ds ++ err e ∷ []) room
          ≡ take room (opened id input_tokens req (passed ds ++ error_event e ∷ [])))
unfolding messages_stream take_deltas finish_events
messages_stream-passes h m id input_tokens created req ds e room no_tools = (
  rw (no_tools, take_deltas-told m ds, plain_content m (collected ds) req no_tools) refl,
  rw
      (
        no_tools,
        take_deltas-caught_up m ds (err e ∷ []) "",
        list_append_nil (passed ds ++ error_event e ∷ []),
      )
      refl,
)
