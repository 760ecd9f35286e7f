-- ===== src/Conversation/Rotation/Whole.antt =====
-- src/services/protocol/conversation.rs: the deltas of `stream_text_deltas` are those of one account.
use model2api.Common.{
  ℕ, zero, suc, ◌-◌, String, ◌≡◌, refl, subst, true, ◌&&◌, ◌⊎◌, inl, inr, Option, none, some, List,
  [], ◌∷◌, Bool-cases, elem, arith,
}
use model2api.Json.{Value, Host}
use model2api.Conversation.{Patterns}
use model2api.Images.{is_token_invalid_error}
use model2api.Conversation.Rotation.{
  TextAccounts, Sent, told, upstream, internal, send_failure, Turn, over, turns_to, named,
  is_silent, run_text_stream, turned, ran, tried, turn, text_loop, stream_text_deltas,
}
use model2api.Conversation.Rotation.Rounds.{Round, starts, goes, is_unique, Round-unique}

module _ {S : Type 0} (h : Host) (r : Patterns) (acc : TextAccounts S)
    (global_system_prompt : String) (messages : List Value) (room : ℕ) where
  -- What was sent and the failure are those of a run, and the items are told of it.
  abbrev IsTold : List String → Option String → List Sent → Type 0
  IsTold sent none items = items ≡ told sent
  IsTold sent (some e) items = items ≡ send_failure room sent (upstream e)

  -- The items tell of the run of one round of the conversation, before which nothing was sent, or only
  -- that there is no account.
  abbrev pub IsWhole : S → List Sent → Type 0
  IsWhole start items =
      ((attempted : List String) × (token : String) × (s : S) × Round h r acc global_system_prompt
          messages room start attempted token [] s
        × (is_unique attempted ≡ true)
        × IsTold (run_text_stream h r acc global_system_prompt messages room room token s).0.sent
            (run_text_stream h r acc global_system_prompt messages room room token s).0.failure
            items)
      ⊎ (items ≡ send_failure room [] (internal "no available text account"))

  abbrev Tells : S → Turn S → Type 0
  Tells start (over items s) = IsWhole start items
  Tells start (turns_to sent token s) = Unit

  abbrev Said : S → Option (List Sent × S) → Type 0
  Said start none = Unit
  Said start (some (items, s)) = IsWhole start items

  proceeds :
      (start : S) (u : Turn S) (rest : String → List String → S → Option (List Sent × S))
      → Tells start u
      → ((sent : List String) (token : String) (s : S)
          → u ≡ turns_to sent token s
          → Said start (rest token sent s))
      → Said start
          (elim u [ over items s ↦ some (items, s) | turns_to sent token s ↦ rest token sent s ])
  proceeds start (over items s) rest w f = w
  proceeds start (turns_to sent token s) rest w f = f sent token s refl

  turned-Tells :
      (start : S) (e : String) (sent : List String) (other : String × S)
      → IsWhole start (send_failure room sent (upstream e))
      → Tells start (turned h r acc global_system_prompt messages room sent e other)
  unfolding turned
  turned-Tells start e sent (token, s) w = elim (Bool-cases (named token)) [
    | inl some_token ↦ rw (turned, some_token) tt
    | inr no_token ↦ rw (turned, no_token) w
  ]

  ran-Tells :
      (start : S) (attempted now : List String) (token : String) (s t : S) (sent : List String)
      (failure : Option String)
      → Round h r acc global_system_prompt messages room start attempted token [] s
      → (run_text_stream h r acc global_system_prompt messages room room token s).0.sent ≡ sent
      → (run_text_stream h r acc global_system_prompt messages room room token s).0.failure
        ≡ failure
      → Tells start (ran h r acc global_system_prompt messages room now token sent failure t)
  unfolding ran
  ran-Tells start attempted now token s t sent none round e f = inl (
    attempted,
    token,
    s,
    round,
    (Round-unique h r acc global_system_prompt messages room round).1,
    rw (e, f) refl,
  )
  ran-Tells start attempted now token s t sent (some error) round e f =
      let whole : IsWhole start (send_failure room sent (upstream error)) = inl (
        attempted,
        token,
        s,
        round,
        (Round-unique h r acc global_system_prompt messages room round).1,
        rw (e, f) refl,
      ) in
      elim (Bool-cases (named token && is_silent sent && is_token_invalid_error h error)) [
        | inl rejected ↦ rw (ran, rejected) (turned-Tells start error sent _ whole)
        | inr other ↦ rw (ran, other) whole
      ]

  turn-Tells :
      (start : S) (attempted : List String) (token : String) (s : S)
      → Round h r acc global_system_prompt messages room start attempted token [] s
      → Tells start (turn h r acc global_system_prompt messages room attempted token [] s)
  unfolding turn
  turn-Tells start attempted token s round =
      elim (Bool-cases (named token && elem token attempted)) [
        | inl again ↦ rw (turn, again) (inr refl)
        | inr fresh ↦
            let all : room - 0 ≡ room = omega arith in
            rw (turn, fresh, all)
              (ran-Tells start attempted
                (tried h r acc global_system_prompt messages room attempted token) token s _ _ _
                round refl refl)
      ]

  Tells-loop :
      (rounds : ℕ) (start : S) (attempted : List String) (token : String) (before : List String)
      (s : S)
      → Round h r acc global_system_prompt messages room start attempted token before s
      → before ≡ []
      → Said start
          (text_loop h r acc global_system_prompt messages room rounds attempted token before s)
  unfolding text_loop
  Tells-loop zero start attempted token before s round e = tt
  Tells-loop (suc rounds) start attempted token [] s round e =
      proceeds start (turn h r acc global_system_prompt messages room attempted token [] s) _
        (turn-Tells start attempted token s round)
        (λ sent next t goes_on.
          let then = goes round goes_on in
          Tells-loop rounds start _ next sent t then
            (Round-unique h r acc global_system_prompt messages room then).0)
  Tells-loop (suc rounds) start attempted token (d ∷ ds) s round e = absurd cc

  -- What is sent on for a text conversation tells of the run of one of its rounds, with one account: its
  -- deltas, and behind them its error where it failed; or it is the error that there is no account. No
  -- round before it sent anything, and the tokens that were tried before it are all different.
  pub stream_text_deltas-IsWhole :
      (rounds : ℕ) (s t : S) (items : List Sent)
      → stream_text_deltas h r acc global_system_prompt messages room rounds s ≡ some (items, t)
      → IsWhole s items
  unfolding stream_text_deltas
  stream_text_deltas-IsWhole rounds s t items e =
      subst (Said s) e (Tells-loop rounds s [] _ [] _ starts refl)
