-- ===== src/Images/Pooled.antt =====
-- src/services/protocol/conversation.rs: `stream_image_outputs_with_pool`, `collect_image_outputs`
-- and `stream_image_chunks`. A channel is the list of what its receiver takes. The receiver takes as
-- many items as there is room, and is gone then.
pub mod Gathered
pub mod Given
pub mod Traced
use model2api.Common.{
  ℕ, zero, suc, ◌+◌, String, Bool, true, false, not, ◌||◌, Option, none, some, List, [], ◌∷◌, ◌++◌,
  ℤ, pos, pos_part, ltb_ℤ, ◌==◌, if◌then◌else◌, trim, append, option_or, map,
}
use model2api.Json.{Value, Fields, Host, str, int, arr, end, field, set}
use model2api.Storage.JsonFile.{items_of}
use model2api.Images.{
  Result, ok, err, ConversationRequest, ImageGenerationError, new, image_stream_error_message,
}
use model2api.Images.Names.{is_supported_image_model, supported_image_models_listing}
use model2api.Images.Output.{ImageOutput, is_message, is_result, to_chunk}
use model2api.Images.Picture.{ConvDeps}
use model2api.Images.Single.{Accounts, Answer, emitted, generate_single_image}

abbrev pub Item : Type 0
Item = Result ImageGenerationError ImageOutput

-- What was taken of some outputs, and the room behind them: `none` where the receiver is gone.
unfoldable pub send_all : ℕ → List ImageOutput → List Item × Option ℕ
send_all room [] = ([], some room)
send_all zero (o ∷ outputs) = ([], none)
send_all (suc room) (o ∷ outputs) = let (sent, left) = send_all room outputs in (ok o ∷ sent, left)

unfoldable pub send_error : ℕ → ImageGenerationError → List Item
send_error zero e = []
send_error (suc room) e = err e ∷ []

-- The outcome of the task of one image: its answer, or the error of a task that did not end.
pub data Joined : Type 0 where
  joined : Answer → Joined
  join_error : String → Joined

-- What is handed on behind the tasks, in the order of the images. An error is told where nothing
-- else is.
unfoldable pub emit_results : Host → ℕ → Bool → String → List Joined → List Item
emit_results h room told last_error [] =
    if told
    then []
    else send_error room (
        new (
          image_stream_error_message h (
            if last_error == ""
            then "no account in the pool could generate images — check account quota and rate-limit status"
            else last_error)))
emit_results h room told last_error (join_error t ∷ rest) = emit_results h room told t rest
emit_results h room told last_error (joined (err e) ∷ rest) =
    emit_results h room told e.message rest
emit_results h room told last_error (joined (ok outputs) ∷ rest) =
    let (sent, left) = send_all room outputs in
    elim left [
      | none ↦ sent
      | some later ↦ sent ++ emit_results h later (told || emitted outputs) last_error rest
    ]

-- `rounds` is the fuel of each image. The tasks of a parallel generation are a parameter: what they
-- answer, and the state that they leave behind all of their rounds.
module _ {S : Type 0} (deps : ConvDeps) (acc : Accounts S) (request : ConversationRequest)
    (rounds : ℕ) (tasks : S → List Joined × S) where
  -- One image alone.
  single : ℕ → Option (Answer × S) → Option (List Item × S)
  unfolding send_all send_error
  single room none = none
  single room (some (err e, s)) = some (send_error room e, s)
  single room (some (ok outputs, s)) = some ((send_all room outputs).0, s)

  behind : List Item → Option (List Item × S) → Option (List Item × S)
  behind sent none = none
  behind sent (some (rest, s)) = some (sent ++ rest, s)

  -- What an image of several puts out, and what follows it where the receiver is still there.
  served : ℕ → (ℕ → S → Option (List Item × S)) → Option (Answer × S) → Option (List Item × S)
  unfolding behind send_all send_error
  served room rest none = none
  served room rest (some (err e, s)) = some (send_error room e, s)
  served room rest (some (ok outputs, s)) = elim ((send_all room outputs).1) [
    | none ↦ some ((send_all room outputs).0, s)
    | some later ↦ behind (send_all room outputs).0 (rest later s)
  ]

  -- One image after the other, the given number of them from an index on. The images behind an error,
  -- and those that no receiver waits for, are not made.
  unfoldable pub serial : ℕ → ℕ → ℕ → S → Option (List Item × S)
  unfolding served
  serial zero index room s = some ([], s)
  serial (suc count) index room s =
      served room (λ later t. serial count (suc index) later t)
        (generate_single_image deps acc request rounds (pos index) request.n s)

  unfoldable pub stream_image_outputs_with_pool : ℕ → S → Option (List Item × S)
  unfolding single serial emit_results send_error
  stream_image_outputs_with_pool room s =
      if not (is_supported_image_model deps.host (str request.model))
      then some (
        send_error room (
            new
              (append "unsupported image model,supported models: " supported_image_models_listing)),
        s,
      )
      else if not (ltb_ℤ (pos 1) request.n)
      then single room (generate_single_image deps acc request rounds (pos 1) (pos 1) s)
      else if not deps.config.image_parallel_generation
      then serial (pos_part request.n) 1 room s
      else some (emit_results deps.host room false "" (tasks s).0, (tasks s).1)

-- What `collect_image_outputs` has read so far; the parts of the progress stand joined.
pub record Collected : Type 0 where
  pub created : Option ℤ
  pub entries : List Value
  pub message : String
  pub progress_parts : String
  pub account_email : String

abbrev pub nothing_read : Collected
nothing_read = record {
  created = none;
  entries = [];
  message = "";
  progress_parts = "";
  account_email = "";
}

unfoldable pub read_kind : ImageOutput → Collected → Collected
read_kind o c =
    if o.kind == "progress"
    then record c { progress_parts = append c.progress_parts o.text }
    else if is_message o
    then record c { message = o.text }
    else if is_result o
    then record c { entries = c.entries ++ o.entries }
    else c

unfoldable pub read_output : ImageOutput → Collected → Collected
unfolding read_kind
read_output o c = read_kind o (record c {
  created = some (option_or o.created c.created);
  account_email = if c.account_email == "" then o.account_email else c.account_email;
})

unfoldable pub collect_from : Collected → List Item → Result ImageGenerationError Collected
unfolding read_output
collect_from c [] = ok c
collect_from c (err e ∷ items) = err e
collect_from c (ok o ∷ items) = collect_from (read_output o c) items

-- A text stands only where there is no image.
with_message : List Value → Collected → Fields → Fields
with_message [] c result =
    let text = if c.message == "" then trim c.progress_parts else c.message in
    if text == "" then result else set "message" (str text) result
with_message (entry ∷ entries) c result = result

unfoldable pub collected_value : ℤ → Collected → Fields
unfolding with_message
collected_value now c =
    let result = with_message c.entries c (
      field "created" (int (option_or now c.created))
        (field "data" (arr (items_of c.entries)) end)) in
    if c.account_email == "" then result else set "_account_email" (str c.account_email) result

value_of : ℤ → Result ImageGenerationError Collected → Result ImageGenerationError Fields
value_of now (ok c) = ok (collected_value now c)
value_of now (err e) = err e

unfoldable pub collect_image_outputs : ℤ → List Item → Result ImageGenerationError Fields
unfolding value_of collected_value
collect_image_outputs now items = value_of now (collect_from nothing_read items)

unfoldable pub stream_image_chunks : ℕ → List Item → List (Result ImageGenerationError Value)
stream_image_chunks room [] = []
stream_image_chunks zero (item ∷ items) = []
stream_image_chunks (suc room) (err e ∷ items) = err e ∷ []
stream_image_chunks (suc room) (ok o ∷ items) = ok (to_chunk o) ∷ stream_image_chunks room items
