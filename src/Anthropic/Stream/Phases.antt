-- ===== src/Anthropic/Stream/Phases.antt =====
-- The order of the events that a client of the Anthropic interface reads, independent of the code.
use model2api.Common.{
  ℕ, suc, ◌≡◌, refl, Bool, true, false, Option, none, some, List, [], ◌∷◌, ◌++◌, if◌then◌else◌,
  nat_eq,
}
use model2api.Json.{bind_option}
use model2api.Anthropic.Stream.{
  StreamEvent, message_start, text_start, tool_start, text_delta, input_json_delta,
  content_block_stop, message_delta, message_stop, error,
}

-- Where a stream is: before its start, between two blocks, of which the next has the index `n`, in the
-- text or the tool with the index `n`, behind the reason for which it stops, or at its end.
pub data Phase : Type 0 where
  fresh : Phase
  between : ℕ → Phase
  in_text : ℕ → Phase
  in_tool : ℕ → Phase
  counted : Phase
  done : Phase

-- What an event may follow: blocks are numbered from 0, a delta goes to the block that is open, and the
-- reason comes when no block is open. An error ends the stream anywhere, and
-- nothing follows the end.
unfoldable pub step : Phase → StreamEvent → Option Phase
step fresh (message_start id model n) = some (between 0)
step (between n) (text_start k) = if nat_eq k n then some (in_text n) else none
step (between n) (tool_start k id name) = if nat_eq k n then some (in_tool n) else none
step (between n) (message_delta reason tokens) = some counted
step (in_text n) (text_delta k piece) = if nat_eq k n then some (in_text n) else none
step (in_text n) (content_block_stop k) = if nat_eq k n then some (between (suc n)) else none
step (in_tool n) (input_json_delta k piece) = if nat_eq k n then some (in_tool n) else none
step (in_tool n) (content_block_stop k) = if nat_eq k n then some (between (suc n)) else none
step counted (message_stop created) = some done
step done event = none
step phase (error message) = some done
step phase event = none

-- The phase behind the events, if each may follow those before it.
unfoldable pub follow : Option Phase → List StreamEvent → Option Phase
unfolding step
follow p [] = p
follow p (e ∷ es) = follow (bind_option p (λ q. step q e)) es

pub follow-append :
    (p : Option Phase) (xs ys : List StreamEvent) → follow p (xs ++ ys) ≡ follow (follow p xs) ys
unfolding follow
follow-append p [] ys = refl
follow-append p (x ∷ xs) ys = follow-append (bind_option p (λ q. step q x)) xs ys

pub follow-none : (es : List StreamEvent) → follow none es ≡ none
unfolding follow
follow-none [] = refl
follow-none (e ∷ es) = follow-none es

-- The phase of the loop over the deltas.
abbrev pub phase_of : Bool → Phase
phase_of true = in_text 0
phase_of false = between 0
