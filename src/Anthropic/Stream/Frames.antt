-- ===== src/Anthropic/Stream/Frames.antt =====
-- src/services/protocol/anthropic_v1_messages.rs: the order of the events of a stream.
use model2api.Common.{
  ℕ, suc, String, ◌≡◌, refl, Bool, true, false, not, ◌&&◌, inl, inr, Option, none, some, List, [],
  ◌∷◌, ◌++◌, ◌==◌, ℤ, ◌∙◌, zero, arith, ◌<◌, length, take, if◌then◌else◌, nat_eq, nat_eq_iff,
  Bool-cases, append,
}
use text.Mathlib.Text.{starts_with}
use model2api.Json.{Value, Host}
use model2api.Anthropic.{MessageRequest, tools_active}
use mathlib.Core.List.{append-nil}
use model2api.Images.{ok, err}
use model2api.Conversation.Rotation.{AppError, Sent}
use model2api.Anthropic.Content.{
  Markup, Block, text_content, tool_use, streamable_text, called, tool_blocks, content_blocks,
  strip_tool_markup,
}
use model2api.Anthropic.Stream.{
  StreamEvent, message_start, text_start, content_block_stop, message_delta, message_stop,
  Streaming, skip_chars, show_visible, take_delta, take_deltas, error_event, stream_buffered_blocks,
  tool_events, remaining_events, finish_events, messages_stream, begun, finished,
}
use model2api.Anthropic.Stream.Phases.{
  Phase, fresh, between, done, step, follow, follow-append, follow-none, phase_of,
}

-- Nothing was streamed before the text is open.
abbrev IsSilent : Streaming → Type 0
IsSilent s = s.text_open ≡ false → s.streamed_text ≡ ""

-- The events take the stream from one phase of the loop to the next.
abbrev Goes : Streaming → List StreamEvent × Streaming → Type 0
Goes s (evs, next) =
    (follow (some (phase_of s.text_open)) evs ≡ some (phase_of next.text_open)) × IsSilent next

show_visible-Goes :
    (visible : String) (s : Streaming) → IsSilent s → Goes s (show_visible visible s)
unfolding show_visible follow step
show_visible-Goes visible s silent =
    elim (Bool-cases
      (starts_with visible s.streamed_text && not (skip_chars s.streamed_text visible == ""))) [
        | inl new ↦ elim (Bool-cases s.text_open) [
          | inl opened ↦ rw (new, opened) (refl, λ h. cc)
          | inr shut ↦ rw (new, shut) (refl, λ h. cc)
        ]
        | inr old ↦ rw old (refl, silent)
      ]

take_delta-Goes :
    (m : Markup) (tool_mode : Bool) (delta : String) (s : Streaming)
    → IsSilent s
    → Goes s (take_delta m tool_mode delta s)
unfolding take_delta follow
take_delta-Goes m tool_mode delta s silent = elim (Bool-cases (delta == "")) [
  | inl empty ↦ rw empty (refl, silent)
  | inr full ↦ elim (Bool-cases s.tool_started) [
    | inl started ↦ rw (full, started) (refl, silent)
    | inr text ↦
        rw (full, text)
          (show_visible-Goes
            (if tool_mode
              then streamable_text m (append s.current_text delta)
              else append s.current_text delta)
            (record s { current_text = append s.current_text delta; tool_started = false }) silent)
  ]
]

-- The events of the loop end in its last phase, or with an error.
abbrev Left : Streaming → List StreamEvent × Option Streaming → Type 0
Left s (evs, none) = follow (some (phase_of s.text_open)) evs ≡ some done
Left s (evs, some next) = Goes s (evs, next)

ahead :
    (s next : Streaming) (evs : List StreamEvent) (later : List StreamEvent × Option Streaming)
    → Goes s (evs, next)
    → Left next later
    → Left s (evs ++ later.0, later.1)
ahead s next evs (later, none) (g, silent) l =
    rw (follow-append (some (phase_of s.text_open)) evs later, g) l
ahead s next evs (later, some last) (g, silent) l =
    (rw (follow-append (some (phase_of s.text_open)) evs later, g) l.0, l.1)

failed : (b : Bool) (e : AppError) → follow (some (phase_of b)) (error_event e ∷ []) ≡ some done
unfolding follow step error_event
failed true e = refl
failed false e = refl

take_deltas-Left :
    (m : Markup) (tool_mode : Bool) (items : List Sent) (s : Streaming)
    → IsSilent s
    → Left s (take_deltas m tool_mode items s)
unfolding take_deltas follow
take_deltas-Left m tool_mode [] s silent = (refl, silent)
take_deltas-Left m tool_mode (err e ∷ items) s silent = failed s.text_open e
take_deltas-Left m tool_mode (ok d ∷ items) s silent =
    let now = take_delta-Goes m tool_mode d s silent in
    ahead s (take_delta m tool_mode d s).1 (take_delta m tool_mode d s).0
      (take_deltas m tool_mode items (take_delta m tool_mode d s).1) now
      (take_deltas-Left m tool_mode items (take_delta m tool_mode d s).1 now.1)

nat_eq_self : (n : ℕ) → nat_eq n n ≡ true
nat_eq_self n = (nat_eq_iff n n).1 refl

-- Buffered blocks are numbered on.
buffered-follows :
    (h : Host) (blocks : List Block) (n : ℕ)
    → (k : ℕ) × (follow (some (between n)) (stream_buffered_blocks h blocks n) ≡ some (between k))
unfolding stream_buffered_blocks follow step
buffered-follows h [] n = (n, refl)
buffered-follows h (text_content t ∷ blocks) n =
    let (k, later) = buffered-follows h blocks (suc n) in
    (k, rw (nat_eq_self n, nat_eq_self n, nat_eq_self n) later)
buffered-follows h (tool_use id name input ∷ blocks) n =
    let (k, later) = buffered-follows h blocks (suc n) in
    (k, rw (nat_eq_self n, nat_eq_self n, nat_eq_self n) later)

-- The blocks and the reason behind them end the stream.
tools_end :
    (h : Host) (blocks : List Block) (n : ℕ) (reason : String) (tokens created : ℤ)
    → follow (some (between n)) (
        stream_buffered_blocks h blocks n
        ++ message_delta reason tokens ∷ message_stop created ∷ [])
      ≡ some done
unfolding follow step
tools_end h blocks n reason tokens created =
    let (k, blocks_end) = buffered-follows h blocks n in
    rw
      (
        follow-append (some (between n)) (stream_buffered_blocks h blocks n)
            (message_delta reason tokens ∷ message_stop created ∷ []),
        blocks_end,
      )
      refl

-- Nothing is left to say of the text of an answer where the block of the text was open.
abbrev pub IsShown : String → Streaming → Type 0
IsShown shown s = s.text_open ≡ true → skip_chars s.streamed_text shown ≡ ""

abbrev closing : Host → Streaming → List Block × String → ℤ → ℤ → List StreamEvent
closing h s (content, reason) tokens created =
    (if s.text_open then content_block_stop 0 ∷ [] else [])
    ++ (if reason == "tool_use" then tool_events h s content else [])
    ++ message_delta reason tokens ∷ message_stop created ∷ []

called-closing :
    (h : Host) (m : Markup) (shown : String) (calls : List (String × Value)) (s : Streaming)
    (tokens created : ℤ)
    → IsSilent s
    → IsShown shown s
    → follow (some (phase_of s.text_open)) (closing h s (called m shown calls) tokens created)
      ≡ some done
unfolding called tool_blocks follow step tool_events remaining_events skip_chars
called-closing h m shown [] s tokens created silent all = elim (Bool-cases s.text_open) [
  | inl opened ↦ rw opened refl
  | inr shut ↦ rw shut refl
]
called-closing h m shown ((name, args) ∷ calls) s tokens created silent all =
    elim (Bool-cases s.text_open) [
      | inl opened ↦ elim (Bool-cases (shown == "")) [
        | inl blank ↦
            rw (opened, blank)
              (tools_end h (tool_blocks m 0 ((name, args) ∷ calls)) 1 "tool_use" tokens created)
        | inr text ↦
            rw (opened, text, all opened)
              (tools_end h (tool_blocks m 0 ((name, args) ∷ calls)) 1 "tool_use" tokens created)
      ]
      | inr shut ↦ elim (Bool-cases (shown == "")) [
        | inl blank ↦
            rw (shut, blank)
              (tools_end h (tool_blocks m 0 ((name, args) ∷ calls)) 0 "tool_use" tokens created)
        | inr text ↦
            rw (shut, text, silent shut, text)
              (tools_end h (tool_blocks m 0 ((name, args) ∷ calls)) 1 "tool_use" tokens created)
      ]
    ]

-- What is behind the loop ends the stream.
behind :
    (h : Host) (m : Markup) (tools : Value) (created : ℤ) (s : Streaming) (evs : List StreamEvent)
    (last : Option Streaming)
    → Left s (evs, last)
    → ((next : Streaming) → last ≡ some next → IsShown (strip_tool_markup m next.current_text) next)
    → follow (some (phase_of s.text_open)) (evs ++ finished h m tools created last) ≡ some done
unfolding finish_events content_blocks
behind h m tools created s evs none l all = rw (append-nil evs) l
behind h m tools created s evs (some next) l all =
    rw (follow-append (some (phase_of s.text_open)) evs (finish_events h m tools created next), l.0)
      (called-closing h m (strip_tool_markup m next.current_text)
        (if tools_active tools then m.parse_tool_calls next.current_text else []) next
        (m.count_text_tokens next.current_text) created l.1 (all next refl))

opening :
    (tool_mode : Bool) (later : List StreamEvent)
    → follow (some (between 0)) ((if tool_mode then [] else text_start 0 ∷ []) ++ later)
      ≡ follow (some (phase_of (not tool_mode))) later
unfolding follow step
opening true later = refl
opening false later = refl

-- What is left out at the end of a stream.
cut :
    (p : Option Phase) (es : List StreamEvent) (n : ℕ)
    → follow p es ≡ some done
    → (q : Phase) × (follow p (take n es) ≡ some q) × (length (take n es) < n → q ≡ done)
unfolding follow
cut none es n h = let e : none ≡ some done = rw (follow-none es) at h in cc
cut (some p) es zero h = (p, refl, λ l. let absurd : ⊥ = omega (arith, l) in elim absurd [ ])
cut (some p) [] (suc n) h = (done, h, λ l. refl)
cut (some p) (e ∷ es) (suc n) h =
    let (q, f, ended) = cut (step p e) es n h in (q, f, λ l. ended (omega (arith, l)))

-- Each event of a stream may follow those before it: blocks are numbered from 0, a delta goes to the
-- block that is open, and the reason for the stop comes when none is open. A stream that the receiver
-- took whole is ended, by message_stop or by an error. The condition: where the text was open at the
-- end of the deltas, all of the text of the answer was shown.
pub messages_stream-follows :
    (h : Host) (m : Markup) (id : String) (input_tokens created : ℤ) (req : MessageRequest)
    (items : List Sent) (room : ℕ)
    → ((s : Streaming)
        → (take_deltas m (tools_active req.tools) items (begun (tools_active req.tools))).1 ≡ some s
        → IsShown (strip_tool_markup m s.current_text) s)
    → let sent = messages_stream h m id input_tokens created req items room in
      (q : Phase) × (follow (some fresh) sent ≡ some q) × (length sent < room → q ≡ done)
unfolding messages_stream follow step
messages_stream-follows h m id input_tokens created req items room all =
    let b = tools_active req.tools in
    let run = take_deltas m b items (begun b) in
    cut (some fresh)
      (message_start (append "msg_" id) req.model input_tokens
        ∷ ((if b then [] else text_start 0 ∷ [])
            ++ (run.0 ++ finished h m req.tools created run.1)))
      room
      (opening b (run.0 ++ finished h m req.tools created run.1)
        ∙ behind h m req.tools created (begun b) run.0 run.1
            (take_deltas-Left m b items (begun b) (λ h. refl)) all)
