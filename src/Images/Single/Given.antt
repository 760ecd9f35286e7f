-- ===== src/Images/Single/Given.antt =====
-- src/services/protocol/conversation.rs: `generate_single_image` gives every slot back that it takes.
use model2api.Common.{
  ℕ, zero, suc, String, ◌≡◌, refl, subst, Bool, true, false, Option, none, some, List, ◌⊎◌,
  if◌then◌else◌, ℤ, inl, inr,
}
use model2api.Json.{Fields, str}
use model2api.Images.{
  Result, ok, err, ConversationRequest, image_poll_timeout, image_content_policy, ImgErr, engine,
  gen, ImageGenerationError, engine_text,
}
use model2api.Images.Names.{split_image_model}
use model2api.Images.Output.{ImageOutput}
use model2api.Images.Picture.{ConvDeps}
use model2api.Images.Single.{
  Accounts, Retries, Answer, Turn, returns, retries, renews, completed, poll_timed_out,
  generation_failed, renew, engine_failed, failed_with, concluded, token_round, answered,
  plan_types, source_type, turn, single_loop, generate_single_image, no_retries,
}

-- What the calls do to the slot of one image: a token that is handed out comes with a slot, which it
-- keeps while the upstream works, and `mark_image_result` gives the slot back. `Idle` are the states
-- in which the image holds none, `Holds` those in which it holds the slot of a token.
pub record Discipline (S : Type 0) (acc : Accounts S) (Idle : S → Type 0)
    (Holds : String → S → Type 0) : Type 0 where
  pub takes :
      (plan source : Option String) (plans : List String) (s : S) (token : String)
      → (acc.get_available_access_token plan source plans s).0 ≡ ok token
      → Idle s
      → Holds token (acc.get_available_access_token plan source plans s).1
  pub refuses :
      (plan source : Option String) (plans : List String) (s : S) (e : String)
      → (acc.get_available_access_token plan source plans s).0 ≡ err e
      → Idle s
      → Idle (acc.get_available_access_token plan source plans s).1
  pub works :
      (token : String) (account : Fields) (s : S)
      → Holds token s
      → Holds token (acc.open_backend token account s).1
  pub gives :
      (token : String) (success : Bool) (s : S)
      → Holds token s
      → Idle (acc.mark_image_result token success s)
  pub refreshes : (token : String) (s : S) → Idle s → Idle (acc.refresh_access_token token s).1
  pub removes : (token : String) (s : S) → Idle s → Idle (acc.remove_invalid_token token s)

-- A property of the state that a round leaves.
After : {S : Type 0} → (S → Type 0) → Turn S → Type 0
After P (returns answer s) = P s
After P (retries email tried s) = P s
After P (renews email tried s) = P s

-- To split on an answer and keep the equation.
Result-cases : {E A : Type 0} (r : Result E A) → (((a : A) × (r ≡ ok a)) ⊎ ((e : E) × (r ≡ err e)))
Result-cases (ok a) = inl (a, refl)
Result-cases (err e) = inr (e, refl)

module _ {S : Type 0} (P : S → Type 0) where
  After-either : (b : Bool) (x y : Turn S) → After P x → After P y → After P (if b then x else y)
  After-either true x y a c = a
  After-either false x y a c = c

  After-returns : (answer : Answer) (s : S) → P s → After P (returns answer s)
  After-returns answer s v = unfold After in v

  After-retries : (email : String) (tried : Retries) (s : S) → P s → After P (retries email tried s)
  After-retries email tried s v = unfold After in v

  After-renews : (email : String) (tried : Retries) (s : S) → P s → After P (renews email tried s)
  After-renews email tried s v = unfold After in v

-- A property of the state where the loop has an answer.
abbrev Left : {S : Type 0} → (S → Type 0) → Option (Answer × S) → Type 0
Left P none = Unit
Left P (some (answer, s)) = P s

-- The loop, with what a round that goes on is followed by.
proceeds :
    {S : Type 0} (P : S → Type 0) (u : Turn S) (rest : String → Retries → S → Option (Answer × S))
    → After P u
    → ((email : String) (tried : Retries) (s : S) → P s → Left P (rest email tried s))
    → Left P (elim u [
      | returns answer s ↦ some (answer, s)
      | retries email tried s ↦ rest email tried s
      | renews email tried s ↦ rest email tried s
    ])
unfolding After
proceeds P (returns answer s) rest v f = v
proceeds P (retries email tried s) rest v f = f email tried s v
proceeds P (renews email tried s) rest v f = f email tried s v

module _ {S : Type 0} (deps : ConvDeps) (acc : Accounts S) (request : ConversationRequest)
    {Idle : S → Type 0} {Holds : String → S → Type 0} (d : Discipline S acc Idle Holds) where
  completed-After :
      (token email : String) (outputs : List ImageOutput) (s : S)
      → Holds token s
      → After Idle (completed deps acc request token email outputs s)
  unfolding completed
  completed-After token email outputs s v =
      let failed = d.gives token false s v in
      let done = d.gives token true s v in
      search (After-either Idle, After-returns Idle, failed, done)

  poll_timed_out-After :
      (token email : String) (tried : Retries) (outputs : List ImageOutput)
      (text conversation_id : String) (s : S)
      → Holds token s
      → After Idle
          (poll_timed_out deps acc request token email tried outputs text conversation_id s)
  unfolding poll_timed_out
  poll_timed_out-After token email tried outputs text conversation_id s v =
      let given = d.gives token false s v in
      After-either Idle _ _ _ (After-retries Idle _ _ _ given) (After-returns Idle _ _ given)

  generation_failed-After :
      (token email : String) (tried : Retries) (outputs : List ImageOutput)
      (e : ImageGenerationError) (s : S)
      → Holds token s
      → After Idle (generation_failed deps acc request token email tried outputs e s)
  unfolding generation_failed
  generation_failed-After token email tried outputs e s v =
      let given = d.gives token false s v in
      After-either Idle _ _ _
        (After-either Idle _ _ _ (After-retries Idle _ _ _ given) (After-returns Idle _ _ given))
        (After-returns Idle _ _ given)

  renew-After :
      (token email : String) (tried : Retries) (s : S)
      → Idle s
      → After Idle (renew deps acc request token email tried s)
  unfolding renew
  renew-After token email tried s v =
      let later = d.refreshes token s v in
      After-either Idle _ _ _ (After-renews Idle _ _ _ later)
        (After-renews Idle _ _ _ (d.removes token _ later))

  engine_failed-After :
      (token email : String) (tried : Retries) (outputs : List ImageOutput) (last_error : String)
      (s : S)
      → Holds token s
      → After Idle (engine_failed deps acc request token email tried outputs last_error s)
  unfolding engine_failed
  engine_failed-After token email tried outputs last_error s v =
      let given = d.gives token false s v in
      let renewed = renew-After token email tried _ given in
      search (After-either Idle, After-returns Idle, After-retries Idle, renewed, given)

  concluded-After :
      (token email : String) (tried : Retries) (outputs : List ImageOutput) (ended : Option ImgErr)
      (s : S)
      → Holds token s
      → After Idle (concluded deps acc request token email tried outputs ended s)
  unfolding concluded failed_with
  concluded-After token email tried outputs none s v = completed-After token email outputs s v
  concluded-After token email tried outputs (some (gen e)) s v =
      generation_failed-After token email tried outputs e s v
  concluded-After token email tried outputs (some (engine (image_poll_timeout m c))) s v =
      poll_timed_out-After token email tried outputs m c s v
  concluded-After token email tried outputs (some (engine (image_content_policy m))) s v =
      After-returns Idle _ _ (d.gives token false s v)
  concluded-After token email tried outputs (some (engine e)) s v =
      engine_failed-After token email tried outputs (engine_text e) s v

  token_round-After :
      (index total : ℤ) (tried : Retries) (token : String) (s : S)
      → Holds token s
      → After Idle (token_round deps acc request index total tried token s)
  unfolding token_round
  token_round-After index total tried token s v = search (concluded-After, d.works, v)

  turn-After :
      (index total : ℤ) (email : String) (tried : Retries) (s : S)
      → Idle s
      → After Idle (turn deps acc request index total email tried s)
  unfolding turn answered source_type plan_types
  turn-After index total email tried s v =
      let plan = (split_image_model deps.host (str request.model)).0 in
      let source = source_type deps acc request in
      let plans = plan_types deps acc request in
      elim (Result-cases (acc.get_available_access_token plan source plans s).0) [
        | inl (token, e) ↦
            rw (turn, e)
              (token_round-After index total tried token _ (d.takes plan source plans s token e v))
        | inr (text, e) ↦
            rw (turn, e) (After-returns Idle _ _ (d.refuses plan source plans s text e v))
      ]

  single_loop-After :
      (rounds : ℕ) (index total : ℤ) (email : String) (tried : Retries) (s : S)
      → Idle s
      → Left Idle (single_loop deps acc request rounds index total email tried s)
  unfolding single_loop
  single_loop-After zero index total email tried s v = tt
  single_loop-After (suc rounds) index total email tried s v =
      proceeds Idle (turn deps acc request index total email tried s) _
        (turn-After index total email tried s v)
        (λ e c t w. single_loop-After rounds index total e c t w)

  -- Where a token that is handed out comes with a slot, which stays the image's while the upstream
  -- works and which `mark_image_result` gives back, an image that has no slot before has none
  -- afterwards, whatever its rounds answered and however it ended: each slot that it took is given
  -- back, and none is given back that it does not hold.
  pub generate_single_image-gives :
      (rounds : ℕ) (index total : ℤ) (s t : S) (answer : Answer)
      → Idle s
      → generate_single_image deps acc request rounds index total s ≡ some (answer, t)
      → Idle t
  unfolding generate_single_image
  generate_single_image-gives rounds index total s t answer v e =
      subst (Left Idle) e (single_loop-After rounds index total "" no_retries s v)
