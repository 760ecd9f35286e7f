-- ===== src/Images/Picture/Shape.antt =====
-- src/services/protocol/conversation.rs: the order of what `stream_image_outputs` and
-- `stream_codex_image_outputs` put out.
use model2api.Common.{
  String, ◌≡◌, ◌≢◌, refl, Bool, true, false, ◌⊎◌, inl, inr, Option, none, some, List, [], ◌∷◌, ◌++◌,
  ℤ, ◌==◌, if◌then◌else◌, All, Bool-cases, option_or,
}
use model2api.Json.{Value, Items, Fields, end, text_at}
use model2api.Conversation.Decoder.{ConversationDecoder, new as new_decoder, push}
use model2api.Images.{Result, ok, err, ConversationRequest, EngineError, ImgErr}
use model2api.Images.Output.{ImageOutput, progress, message, result}
use model2api.Images.Picture.{
  ConvDeps, Backend, Arrival, payload, broken, stream_codex_image_outputs, event_output,
  event_outputs, last_event, picture_loop, Reply, read_reply, say, show, downloaded, found,
  poll_again, without_urls, delivered, polled, after_stream, close, finish_stream, opened,
  codex_entries, codex_found, codex_answered, stream_image_outputs,
}

-- An output that tells of the progress.
pub record IsProgress (o : ImageOutput) : Type 0 where
  pub kind : o.kind ≡ "progress"

-- A message, or an image that was stored.
pub record IsFinal (o : ImageOutput) : Type 0 where
  pub kind : (o.kind ≡ "message") ⊎ ((o.kind ≡ "result") × (o.entries ≢ []))

-- Progress, and behind it at most one output that is final.
abbrev pub Ordered : List ImageOutput → Type 0
Ordered [] = Unit
Ordered (o ∷ outputs) = (IsProgress o × Ordered outputs) ⊎ (IsFinal o × (outputs ≡ []))

Ordered-append : (ps qs : List ImageOutput) → All IsProgress ps → Ordered qs → Ordered (ps ++ qs)
Ordered-append [] qs a o = o
Ordered-append (p ∷ ps) qs a o = inl (a.0, Ordered-append ps qs a.1 o)

Ordered-IsProgress : (ps : List ImageOutput) → All IsProgress ps → Ordered ps
Ordered-IsProgress [] a = tt
Ordered-IsProgress (p ∷ ps) a = inl (a.0, Ordered-IsProgress ps a.1)

All-append :
    (ps qs : List ImageOutput) → All IsProgress ps → All IsProgress qs → All IsProgress (ps ++ qs)
All-append [] qs a c = c
All-append (p ∷ ps) qs a c = (a.0, All-append ps qs a.1 c)

All-either :
    (b : Bool) (ps qs : List ImageOutput)
    → All IsProgress ps
    → All IsProgress qs
    → All IsProgress (if b then ps else qs)
All-either true ps qs a c = a
All-either false ps qs a c = c

progress-IsProgress :
    (now : ℤ) (model : String) (index total : ℤ) (text upstream : String)
    → IsProgress (progress now model index total text upstream)
unfolding progress
progress-IsProgress now model index total text upstream = record { kind = refl }

message-IsFinal :
    (now : ℤ) (model : String) (index total : ℤ) (text conversation_id : String)
    → IsFinal (message now model index total text conversation_id)
unfolding message
message-IsFinal now model index total text conversation_id = record { kind = inl refl }

result-IsFinal :
    (now : ℤ) (model : String) (index total : ℤ) (entry : Value) (entries : List Value)
    (conversation_id : String)
    → IsFinal (result now model index total (entry ∷ entries) conversation_id)
unfolding result
result-IsFinal now model index total entry entries conversation_id = record {
  kind = inr (refl, λ e. absurd cc);
}

event_outputs-IsProgress :
    (now : ℤ) (request : ConversationRequest) (index total : ℤ) (evs : List Fields)
    → All IsProgress (event_outputs now request index total evs)
unfolding event_outputs event_output
event_outputs-IsProgress now request index total [] = tt
event_outputs-IsProgress now request index total (ev ∷ evs) =
    let rest = event_outputs-IsProgress now request index total evs in
    All-append (event_output now request index total ev) _
      (All-either (text_at "type" ev == "conversation.delta") _ _
        (progress-IsProgress _ _ _ _ _ _, tt)
        (All-either (text_at "type" ev == "conversation.event") _ _
          (progress-IsProgress _ _ _ _ _ _, tt) tt))
      rest

picture_loop-IsProgress :
    (deps : ConvDeps) (request : ConversationRequest) (index total : ℤ) (arrivals : List Arrival)
    (decoder : ConversationDecoder) (last : Fields)
    → All IsProgress (picture_loop deps request index total arrivals decoder last).0
unfolding picture_loop
picture_loop-IsProgress deps request index total [] decoder last = tt
picture_loop-IsProgress deps request index total (broken e ∷ later) decoder last = tt
picture_loop-IsProgress deps request index total (payload now text ∷ later) decoder last =
    let evs = (push deps.host deps.patterns text decoder).0 in
    let put = event_outputs-IsProgress now request index total evs in
    let rest =
      picture_loop-IsProgress deps request index total later
        (push deps.host deps.patterns text decoder).1 (last_event last evs) in
    elim (Bool-cases (text == "[DONE]")) [
      | inl done ↦ rw done put
      | inr goes ↦ rw goes (All-append _ _ put rest)
    ]

abbrev FinalOption : Option ImageOutput → Type 0
FinalOption none = Unit
FinalOption (some o) = IsFinal o

abbrev FinalResult : Result ImgErr (Option ImageOutput) → Type 0
FinalResult (err e) = Unit
FinalResult (ok o) = FinalOption o

FinalResult-either :
    (b : Bool) (x y : Result ImgErr (Option ImageOutput))
    → FinalResult x
    → FinalResult y
    → FinalResult (if b then x else y)
FinalResult-either true x y a c = a
FinalResult-either false x y a c = c

IsFinal-either :
    (b : Bool) (x y : ImageOutput) → IsFinal x → IsFinal y → IsFinal (if b then x else y)
IsFinal-either true x y a c = a
IsFinal-either false x y a c = c

IsFinal-or :
    (o : ImageOutput) (p : Option ImageOutput) → IsFinal o → FinalOption p → IsFinal (option_or o p)
IsFinal-or o none a c = a
IsFinal-or o (some p) a c = c

module _ (deps : ConvDeps) (backend : Backend) (request : ConversationRequest)
    (index total : ℤ) where
  say-IsFinal :
      (reply : Reply) (text : String) → IsFinal (say deps backend request index total reply text)
  unfolding say
  say-IsFinal reply text = message-IsFinal _ _ _ _ _ _

  show-Final :
      (reply : Reply) (entries : List Value)
      → FinalOption (show deps backend request index total reply entries)
  unfolding show
  show-Final reply [] = tt
  show-Final reply (entry ∷ entries) = result-IsFinal _ _ _ _ _ _ _

  downloaded-Final :
      (reply : Reply) (r : Result EngineError (List Value))
      → FinalOption (downloaded deps backend request index total reply r)
  unfolding downloaded
  downloaded-Final reply (err e) = tt
  downloaded-Final reply (ok entries) = show-Final reply entries

  found-Final :
      (reply : Reply) (r : Result EngineError (List String))
      → FinalOption (found deps backend request index total reply r)
  unfolding found
  found-Final reply (err e) = tt
  found-Final reply (ok []) = tt
  found-Final reply (ok (u ∷ us)) = search downloaded-Final

  poll_again-Final :
      (reply : Reply) → FinalOption (poll_again deps backend request index total reply)
  unfolding poll_again
  poll_again-Final reply = search found-Final

  without_urls-IsFinal :
      (reply : Reply) (should_poll : Bool)
      → IsFinal (without_urls deps backend request index total reply should_poll)
  unfolding without_urls
  without_urls-IsFinal reply should_poll =
      search (IsFinal-either, IsFinal-or, say-IsFinal, poll_again-Final)

  delivered-Final :
      (reply : Reply) (r : Result EngineError (List Value))
      → FinalResult (delivered deps backend request index total reply r)
  unfolding delivered
  delivered-Final reply (err e) = tt
  delivered-Final reply (ok entries) = show-Final reply entries

  polled-Final :
      (reply : Reply) (should_poll : Bool) (r : Result EngineError (List String))
      → FinalResult (polled deps backend request index total reply should_poll r)
  unfolding polled
  polled-Final reply should_poll (err e) = tt
  polled-Final reply should_poll (ok []) = without_urls-IsFinal reply should_poll
  polled-Final reply should_poll (ok (u ∷ us)) = search delivered-Final

  after_stream-Final :
      (reply : Reply) → FinalResult (after_stream deps backend request index total reply)
  unfolding after_stream
  after_stream-Final reply = search (FinalResult-either, say-IsFinal, polled-Final)

  close-Ordered :
      (put : List ImageOutput) (r : Result ImgErr (Option ImageOutput))
      → All IsProgress put
      → FinalResult r
      → Ordered (close deps backend request index total put r).0
  unfolding close
  close-Ordered put (err e) a f = Ordered-IsProgress put a
  close-Ordered put (ok none) a f = Ordered-IsProgress put a
  close-Ordered put (ok (some o)) a f = Ordered-append put (o ∷ []) a (inr (f, refl))

  finish_stream-Ordered :
      (put : List ImageOutput) (r : Result EngineError Fields)
      → All IsProgress put
      → Ordered (finish_stream deps backend request index total (put, r)).0
  unfolding finish_stream
  finish_stream-Ordered put (err e) a = Ordered-IsProgress put a
  finish_stream-Ordered put (ok last) a =
      close-Ordered put (after_stream deps backend request index total (read_reply last)) a
        (after_stream-Final (read_reply last))

  opened-Ordered :
      (r : Result EngineError (List Arrival))
      → Ordered (opened deps backend request index total r).0
  unfolding opened
  opened-Ordered (err e) = tt
  opened-Ordered (ok arrivals) =
      finish_stream-Ordered _ _
        (picture_loop-IsProgress deps request index total arrivals (new_decoder "" []) end)

  pub stream_image_outputs-Ordered :
      Ordered (stream_image_outputs deps backend request index total).0
  unfolding stream_image_outputs
  stream_image_outputs-Ordered = search opened-Ordered

  codex_entries-Ordered :
      (entries : List Value) → Ordered (codex_entries deps backend request index total entries).0
  unfolding codex_entries
  codex_entries-Ordered [] = tt
  codex_entries-Ordered (entry ∷ entries) = inr (result-IsFinal _ _ _ _ _ _ _, refl)

  codex_found-Ordered :
      (images : List String) → Ordered (codex_found deps backend request index total images).0
  unfolding codex_found
  codex_found-Ordered [] = tt
  codex_found-Ordered (b64 ∷ more) = search codex_entries-Ordered

  codex_answered-Ordered :
      (r : Result EngineError Items) → Ordered (codex_answered deps backend request index total r).0
  unfolding codex_answered
  codex_answered-Ordered (err e) = tt
  codex_answered-Ordered (ok events) = search codex_found-Ordered

  pub stream_codex_image_outputs-Ordered :
      Ordered (stream_codex_image_outputs deps backend request index total).0
  unfolding stream_codex_image_outputs
  stream_codex_image_outputs-Ordered = search codex_answered-Ordered
