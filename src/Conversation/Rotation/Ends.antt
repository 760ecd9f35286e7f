-- ===== src/Conversation/Rotation/Ends.antt =====
-- src/services/protocol/conversation.rs: `stream_text_deltas` ends.
use model2api.Common.{
  ℕ, zero, suc, ◌<◌, ◌≤◌, String, ◌≡◌, refl, Bool, true, false, not, ◌&&◌, Option, none, some, List,
  [], ◌∷◌, if◌then◌else◌, subst, Bool-cases, inl, inr, elem, length, filterb, length-filterb-le,
  arith, eq_iff, ==_self, ◌==◌,
}
use model2api.Json.{Value, Host}
use model2api.Conversation.{Patterns}
use model2api.Images.{is_token_invalid_error}
use model2api.Conversation.Rotation.{
  TextAccounts, Sent, Turn, over, turns_to, named, is_silent, tried, turn, ran, turned, other_token,
  text_loop, stream_text_deltas,
}
use model2api.Conversation.Rotation.Rounds.{Round, starts, goes, goes_on, is_unique, Round-unique}

-- The known tokens that were not tried yet.
fresh : List String → List String → ℕ
fresh attempted known = length (filterb (λ t. not (elem t attempted)) known)

fresh_le :
    (token : String) (attempted known : List String)
    → fresh (token ∷ attempted) known ≤ fresh attempted known
unfolding fresh
fresh_le token attempted [] = omega arith
fresh_le token attempted (k ∷ known) = ground (arith, fresh_le token attempted known)

fresh_none : (known : List String) → fresh [] known ≤ length known
unfolding fresh
fresh_none known = length-filterb-le (λ t. not (elem t [])) known

fresh_lt :
    (token : String) (attempted known : List String)
    → elem token known ≡ true
    → elem token attempted ≡ false
    → fresh (token ∷ attempted) known < fresh attempted known
unfolding fresh
fresh_lt token attempted [] k a = absurd cc
fresh_lt token attempted (t ∷ known) k a = elim (Bool-cases (t == token)) [
  | inl same ↦
      let e : t ≡ token = (eq_iff t token).0 same in
      rw e (rw (==_self token, a) (omega (arith, fresh_le token attempted known)))
  | inr other ↦
      let k' : elem token known ≡ true = rw other at k in
      let less = fresh_lt token attempted known k' a in
      ground (arith, less, eq_iff t token, eq_iff token t)
]

module _ {S : Type 0} (h : Host) (r : Patterns) (acc : TextAccounts S)
    (global_system_prompt : String) (messages : List Value) (room : ℕ) (start : S)
    (known : List String) where
  -- Every token that comes up in a round of this conversation is one of the given ones.
  abbrev pub IsAmong : Type 0
  IsAmong =
      (attempted : List String) (token : String) (before : List String) (s : S)
      → Round h r acc global_system_prompt messages room start attempted token before s
      → named token ≡ true
      → elem token known ≡ true

  abbrev Ended : Option (List Sent × S) → Type 0
  Ended o = (items : List Sent) × (t : S) × (o ≡ some (items, t))

  proceeds :
      (u : Turn S) (rest : String → List String → S → Option (List Sent × S))
      → ((sent : List String) (next : String) (s : S)
          → u ≡ turns_to sent next s
          → Ended (rest next sent s))
      → Ended (elim u [ over items s ↦ some (items, s) | turns_to sent next s ↦ rest next sent s ])
  proceeds (over items s) rest f = (items, s, refl)
  proceeds (turns_to sent next s) rest f = f sent next s refl

  text_loop-Ended :
      (rounds : ℕ) (attempted : List String) (token : String) (before : List String) (s : S)
      → IsAmong
      → Round h r acc global_system_prompt messages room start attempted token before s
      → fresh attempted known < rounds
      → Ended (text_loop h r acc global_system_prompt messages room rounds attempted token before s)
  unfolding text_loop
  text_loop-Ended zero attempted token before s law round f = absurd (omega (arith, f))
  text_loop-Ended (suc rounds) attempted token before s law round f =
      proceeds (turn h r acc global_system_prompt messages room attempted token before s) _
        (λ sent next t e.
          let (n, a, silent) =
            goes_on h r acc global_system_prompt messages room attempted token before sent next s t
              e in
          text_loop-Ended rounds (tried h r acc global_system_prompt messages room attempted token)
            next sent t law (goes round e)
            (rw n (
              omega (
                arith,
                f,
                fresh_lt token attempted known (law attempted token before s round n) a,
              ))))

  -- A text conversation in whose rounds only tokens of a given list come up ends within one round more
  -- than the list has, and in none of its rounds a token was tried twice before.
  pub stream_text_deltas-ends :
      (rounds : ℕ)
      → IsAmong
      → length known < rounds
      → ((items : List Sent) × (t : S) × (stream_text_deltas h r acc global_system_prompt messages
              room rounds start
            ≡ some (items, t)))
        × ((attempted : List String) (token : String) (before : List String) (s : S)
            → Round h r acc global_system_prompt messages room start attempted token before s
            → is_unique attempted ≡ true)
  unfolding stream_text_deltas
  stream_text_deltas-ends rounds law few = (
    text_loop-Ended rounds [] _ [] _ law starts (omega (arith, few, fresh_none known)),
    λ attempted token before s round.
        (Round-unique h r acc global_system_prompt messages room round).1,
  )

  -- A condition on the account service that is enough: every token that it answers is one of them.
  pub record IsKnown : Type 0 where
    pub chosen :
        (attempted : List String) (s : S)
        → named (acc.get_text_access_token attempted s).0 ≡ true
        → elem (acc.get_text_access_token attempted s).0 known ≡ true
    pub refreshed :
        (token : String) (s : S)
        → named (acc.refresh_access_token token s).0 ≡ true
        → elem (acc.refresh_access_token token s).0 known ≡ true

  abbrev IsKnownToken : String → Type 0
  IsKnownToken t = named t ≡ true → elem t known ≡ true

  Hands : Turn S → Type 0
  Hands (over items s) = Unit
  Hands (turns_to sent next s) = IsKnownToken next

  known_either :
      (b : Bool) (x y : String × S)
      → IsKnownToken x.0
      → IsKnownToken y.0
      → IsKnownToken (if b then x else y).0
  known_either true x y a c = a
  known_either false x y a c = c

  other_token-known :
      (now : List String) (token : String) (s : S)
      → IsKnown
      → IsKnownToken (other_token h r acc global_system_prompt messages room now token s).0
  unfolding other_token
  other_token-known now token s law =
      let later = acc.refresh_access_token token s in
      known_either (named later.0 && not (later.0 == token) && not (elem later.0 now)) later
        (acc.get_text_access_token now (acc.remove_invalid_token token later.1))
        (law.refreshed token s) (law.chosen now (acc.remove_invalid_token token later.1))

  turned-Hands :
      (sent : List String) (e : String) (other : String × S)
      → IsKnownToken other.0
      → Hands (turned h r acc global_system_prompt messages room sent e other)
  unfolding turned Hands
  turned-Hands sent e (next, s) k = elim (Bool-cases (named next)) [
    | inl some_token ↦ rw (some_token) k
    | inr no_token ↦ rw no_token tt
  ]

  ran-Hands :
      (now : List String) (token : String) (s : S) (sent : List String) (failure : Option String)
      → IsKnown
      → Hands (ran h r acc global_system_prompt messages room now token sent failure s)
  unfolding ran Hands
  ran-Hands now token s sent none law = tt
  ran-Hands now token s sent (some e) law =
      elim (Bool-cases (named token && is_silent sent && is_token_invalid_error h e)) [
        | inl rejected ↦
            rw (ran, rejected) (turned-Hands sent e _ (other_token-known now token s law))
        | inr kept ↦ rw (ran, kept) tt
      ]

  turn-Hands :
      (attempted : List String) (token : String) (before : List String) (s : S)
      → IsKnown
      → Hands (turn h r acc global_system_prompt messages room attempted token before s)
  unfolding turn Hands
  turn-Hands attempted token before s law =
      elim (Bool-cases (named token && elem token attempted)) [
        | inl again ↦ rw (turn, again) tt
        | inr fresh ↦ rw (turn, fresh) (ran-Hands _ token _ _ _ law)
      ]

  pub IsKnown-IsAmong : IsKnown → IsAmong
  unfolding Hands
  IsKnown-IsAmong law _ _ _ _ starts = law.chosen [] start
  IsKnown-IsAmong law _ _ _ _ (goes {attempted} {before} {sent} {token} {next} {s} round e) =
      subst Hands e (turn-Hands attempted token before s law)
