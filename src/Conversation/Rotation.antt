-- ===== src/Conversation/Rotation.antt =====
-- src/services/protocol/conversation.rs: `run_text_stream` with the errors of a stream, and
-- `stream_text_deltas`, which goes from account to account, with `collect_text`. The receiver of the
-- deltas takes as many as there is room, and is gone then.
pub mod Rounds
pub mod Whole
pub mod Ends
pub mod Served
use model2api.Common.{
  ℕ, zero, suc, String, Bool, true, false, not, ◌&&◌, Option, none, some, List, [], ◌∷◌, ◌++◌, ◌==◌,
  ◌-◌, if◌then◌else◌, append, elem, ltb, length,
}
use model2api.Json.{Value, Host}
use model2api.Conversation.{Patterns, assistant_history_text, assistant_history_messages}
use model2api.Conversation.Messages.{normalize_messages}
use model2api.Conversation.Decoder.{ConversationDecoder, new, push, deltas}
use model2api.Images.{Result, ok, err, is_token_invalid_error}

-- src/error.rs: the errors that a text conversation tells.
pub record AppError : Type 0 where
  pub status : ℕ
  pub message : String

abbrev pub upstream : String → AppError
upstream msg = record { status = 502; message = msg }

abbrev pub internal : String → AppError
internal msg = record { status = 500; message = msg }

-- What `next_payload` answers before the end of a stream.
pub data Event : Type 0 where
  payload : String → Event
  broken : String → Event

-- What was sent of some deltas, and the room behind them: `none` where the receiver is gone.
send_deltas : ℕ → List String → List String × Option ℕ
send_deltas room [] = ([], some room)
send_deltas zero (t ∷ ts) = ([], none)
send_deltas (suc room) (t ∷ ts) = let (sent, left) = send_deltas room ts in (t ∷ sent, left)

-- A run for one token: the deltas that were sent, and the error that it failed with.
pub record Ran : Type 0 where
  pub sent : List String
  pub failure : Option String

after_payload : List String → Option ℕ → Bool → (ℕ → Ran) → Ran
after_payload sent none done rest = record { sent = sent; failure = none }
after_payload sent (some room) done rest =
    if done
    then record { sent = sent; failure = none }
    else record { sent = sent ++ (rest room).sent; failure = (rest room).failure }

unfoldable pub run_events : Host → Patterns → ℕ → List Event → ConversationDecoder → Ran
unfolding after_payload send_deltas
run_events h r room [] d = record { sent = []; failure = none }
run_events h r room (broken e ∷ events) d = record { sent = []; failure = some e }
run_events h r room (payload text ∷ events) d =
    let (evs, seen) = push h r text d in
    let (sent, left) = send_deltas room (deltas evs) in
    after_payload sent left (text == "[DONE]") (λ later. run_events h r later events seen)

-- The calls on the account service and on the upstream. `converse` answers the events of the stream
-- that is opened for a token, or the error that opening it fails with. What other tasks do while a
-- call waits is part of what it does to the state.
pub record TextAccounts (S : Type 0) : Type 0 where
  pub get_text_access_token : List String → S → String × S
  pub converse : String → List Value → S → Result String (List Event) × S
  pub mark_text_used : String → S → S
  pub refresh_access_token : String → S → String × S
  pub remove_invalid_token : String → S → S

abbrev pub Sent : Type 0
Sent = Result AppError String

abbrev pub told : List String → List Sent
told [] = []
told (t ∷ ts) = ok t ∷ told ts

-- An error behind what was sent, which the receiver takes where there is room.
pub send_failure : ℕ → List String → AppError → List Sent
send_failure room sent e = if ltb (length sent) room then told sent ++ err e ∷ [] else told sent

-- One round of the loop: it is over, with all that was sent, or goes on with another token, behind the
-- deltas that were sent so far.
pub data Turn (S : Type 0) : Type 0 where
  over : List Sent → S → Turn S
  turns_to : List String → String → S → Turn S

abbrev is_silent : List String → Bool
is_silent sent = elim sent [ [] ↦ true | t ∷ ts ↦ false ]

abbrev pub named : String → Bool
named t = not (t == "")

-- The request, as the stream is opened with it.
module _ {S : Type 0} (h : Host) (r : Patterns) (acc : TextAccounts S)
    (global_system_prompt : String) (messages : List Value) (room : ℕ) where
  normalized : List Value
  normalized = normalize_messages global_system_prompt messages none

  run_opened : ℕ → Result String (List Event) → Ran
  unfolding normalized
  run_opened left (err e) = record { sent = []; failure = some e }
  run_opened left (ok events) =
      run_events h r left events
        (new (assistant_history_text normalized) (assistant_history_messages normalized))

  -- A run for a token, with the room that is left.
  pub run_text_stream : ℕ → String → S → Ran × S
  unfolding run_opened normalized
  run_text_stream left token s =
      let (answer, later) = acc.converse token normalized s in (run_opened left answer, later)

  -- A token that was tried already, or that the upstream rejects, makes way for another one.
  other_token : List String → String → S → String × S
  other_token attempted token s =
      let (refreshed, later) = acc.refresh_access_token token s in
      if named refreshed && not (refreshed == token) && not (elem refreshed attempted)
      then (refreshed, later)
      else acc.get_text_access_token attempted (acc.remove_invalid_token token later)

  turned : List String → String → String × S → Turn S
  unfolding send_failure
  turned sent e (token, s) =
      if named token then turns_to sent token s else over (send_failure room sent (upstream e)) s

  -- `sent` is all that was sent, by this run and by those before it: `emitted` tells whether it is
  -- empty.
  ran : List String → String → List String → Option String → S → Turn S
  unfolding turned other_token send_failure
  ran attempted token sent none s = over (told sent) (acc.mark_text_used token s)
  ran attempted token sent (some e) s =
      if named token && is_silent sent && is_token_invalid_error h e
      then turned sent e (other_token attempted token s)
      else over (send_failure room sent (upstream e)) s

  abbrev pub tried : List String → String → List String
  tried attempted token = if named token then token ∷ attempted else attempted

  pub turn : List String → String → List String → S → Turn S
  unfolding ran run_text_stream send_failure
  turn attempted token before s =
      if named token && elem token attempted
      then over (send_failure room before (internal "no available text account")) s
      else (let (ended, later) = run_text_stream (room - length before) token s in
          ran (tried attempted token) token (before ++ ended.sent) ended.failure later)

  -- The loop, on fuel: `none` where the rounds are used up.
  unfoldable pub text_loop : ℕ → List String → String → List String → S → Option (List Sent × S)
  unfolding turn
  text_loop zero attempted token before s = none
  text_loop (suc rounds) attempted token before s = elim (turn attempted token before s) [
    | over items t ↦ some (items, t)
    | turns_to sent next t ↦ text_loop rounds (tried attempted token) next sent t
  ]

  unfoldable pub stream_text_deltas : ℕ → S → Option (List Sent × S)
  stream_text_deltas rounds s =
      text_loop rounds [] (acc.get_text_access_token [] s).0 [] (acc.get_text_access_token [] s).1

unfoldable pub collect_text : List Sent → Result AppError String
collect_text [] = ok ""
collect_text (err e ∷ items) = err e
collect_text (ok t ∷ items) = elim (collect_text items) [
  | err e ↦ err e
  | ok rest ↦ ok (append t rest)
]
