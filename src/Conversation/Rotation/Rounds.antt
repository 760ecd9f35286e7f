-- ===== src/Conversation/Rotation/Rounds.antt =====
-- src/services/protocol/conversation.rs: the rounds of `stream_text_deltas`.
use model2api.Common.{
  ℕ, String, ◌≡◌, refl, Bool, true, false, not, ◌&&◌, Option, none, some, List, [], ◌∷◌, subst,
  if◌then◌else◌, elem, arith,
}
use model2api.Json.{Value, Host}
use model2api.Conversation.{Patterns}
use model2api.Images.{is_token_invalid_error}
use model2api.Conversation.Rotation.{
  TextAccounts, Turn, over, turns_to, is_silent, named, turned, ran, tried, turn,
}

-- No token stands twice.
abbrev pub is_unique : List String → Bool
is_unique [] = true
is_unique (t ∷ ts) = not (elem t ts) && is_unique ts

-- A round of a conversation from a state on, with the tokens that were tried before it, its own, the
-- deltas that were sent before it, and the state that it finds.
pub data Round {S : Type 0} (h : Host) (r : Patterns) (acc : TextAccounts S)
    (global_system_prompt : String) (messages : List Value) (room : ℕ) (start : S)
    : List String → String → List String → S → Type 0 where
  starts :
      Round h r acc global_system_prompt messages room start []
        (acc.get_text_access_token [] start).0
        []
        (acc.get_text_access_token [] start).1
  goes :
      {attempted before sent : List String} {token next : String} {s t : S}
      → Round h r acc global_system_prompt messages room start attempted token before s
      → turn h r acc global_system_prompt messages room attempted token before s
        ≡ turns_to sent next t
      → Round h r acc global_system_prompt messages room start
          (tried h r acc global_system_prompt messages room attempted token)
          next
          sent
          t

module _ {S : Type 0} (h : Host) (r : Patterns) (acc : TextAccounts S)
    (global_system_prompt : String) (messages : List Value) (room : ℕ) where
  -- A round that goes on had a token that was not tried, and nothing was sent.
  Goes : List String → String → Turn S → Type 0
  Goes attempted token (over items s) = Unit
  Goes attempted token (turns_to sent next s) =
      (named token ≡ true) × (elem token attempted ≡ false) × (sent ≡ [])

  Goes-either :
      (attempted : List String) (token : String) (b : Bool) (x y : Turn S)
      → (b ≡ true → Goes attempted token x)
      → (b ≡ false → Goes attempted token y)
      → Goes attempted token (if b then x else y)
  Goes-either attempted token true x y a c = a refl
  Goes-either attempted token false x y a c = c refl

  turned-Goes :
      (attempted : List String) (token e : String) (sent : List String) (other : String × S)
      → named token ≡ true
      → elem token attempted ≡ false
      → sent ≡ []
      → Goes attempted token (turned h r acc global_system_prompt messages room sent e other)
  unfolding turned Goes
  turned-Goes attempted token e sent (next, s) n a silent =
      Goes-either attempted token (named next) _ _ (λ some_token. (n, a, silent)) (λ no_token. tt)

  silent_empty : (sent : List String) → is_silent sent ≡ true → sent ≡ []
  silent_empty [] h = refl
  silent_empty (d ∷ ds) h = absurd cc

  ran-Goes :
      (attempted now : List String) (token : String) (s : S) (sent : List String)
      (failure : Option String)
      → (named token && elem token attempted) ≡ false
      → Goes attempted token
          (ran h r acc global_system_prompt messages room now token sent failure s)
  unfolding ran Goes
  ran-Goes attempted now token s sent none first = tt
  ran-Goes attempted now token s sent (some e) first =
      Goes-either attempted token (named token && is_silent sent && is_token_invalid_error h e) _ _
        (λ rejected.
          turned-Goes attempted token e sent _ (ground arith) (ground arith)
            (silent_empty sent (ground arith)))
        (λ other. tt)

  turn-Goes :
      (attempted : List String) (token : String) (before : List String) (s : S)
      → Goes attempted token
          (turn h r acc global_system_prompt messages room attempted token before s)
  unfolding turn Goes
  turn-Goes attempted token before s =
      Goes-either attempted token (named token && elem token attempted) _ _ (λ again. tt)
        (λ first. ran-Goes attempted _ token _ _ _ first)

  pub goes_on :
      (attempted : List String) (token : String) (before sent : List String) (next : String)
      (s t : S)
      → turn h r acc global_system_prompt messages room attempted token before s
        ≡ turns_to sent next t
      → (named token ≡ true) × (elem token attempted ≡ false) × (sent ≡ [])
  unfolding Goes
  goes_on attempted token before sent next s t e =
      subst (Goes attempted token) e (turn-Goes attempted token before s)

  -- Before each round nothing was sent, and no token was tried twice.
  pub Round-unique :
      {start s : S} {attempted before : List String} {token : String}
      → Round h r acc global_system_prompt messages room start attempted token before s
      → (before ≡ []) × (is_unique attempted ≡ true)
  Round-unique starts = (refl, refl)
  Round-unique (goes {attempted} {before} {sent} {token} {next} {s} {t} round e) =
      let (n, a, silent) = goes_on attempted token before sent next s t e in
      let (none_before, unique) = Round-unique round in (silent, rw (n, a, unique) refl)
