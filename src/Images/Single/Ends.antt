-- ===== src/Images/Single/Ends.antt =====
-- src/services/protocol/conversation.rs: the retries of `generate_single_image` are bounded.
use model2api.Common.{
  ℕ, zero, suc, ◌+◌, ◌-◌, ◌<◌, String, ◌≡◌, refl, Bool, true, false, not, ◌&&◌, Option, none, some,
  List, ℤ, leb, if◌then◌else◌, arith,
}
use model2api.Images.{
  Result, ok, err, ConversationRequest, image_poll_timeout, image_content_policy, ImgErr, engine,
  gen, ImageGenerationError, engine_text, is_token_invalid_error, is_tls_connection_error,
  is_connection_timeout_error, is_model_text_reply_instead_of_image,
}
use model2api.Images.Output.{ImageOutput}
use model2api.Images.Picture.{ConvDeps}
use model2api.Images.Single.{
  Accounts, Retries, Answer, Turn, returns, retries, renews, emitted, completed, poll_timed_out,
  generation_failed, renew, engine_failed, failed_with, concluded, token_round, answered, turn,
  single_loop, generate_single_image, no_retries, max_text_reply_retries, max_tls_retries,
  max_conn_timeout_retries, max_poll_timeout_retries,
}

-- The retries that are left.
abbrev left : Retries → ℕ
left tried =
    (max_text_reply_retries - tried.text_reply_retry)
    + (max_tls_retries - tried.tls_retry)
    + (max_conn_timeout_retries - tried.conn_timeout_retry)
    + (max_poll_timeout_retries - tried.poll_timeout_retry)

-- What a round does to the retries.
Counted : {S : Type 0} → Retries → Turn S → Type 0
Counted tried (returns answer s) = Unit
Counted tried (retries email next s) = left next < left tried
Counted tried (renews email next s) = left next ≡ left tried

module _ {S : Type 0} (tried : Retries) where
  Counted-either :
      (b : Bool) (x y : Turn S)
      → (b ≡ true → Counted tried x)
      → (b ≡ false → Counted tried y)
      → Counted tried (if b then x else y)
  Counted-either true x y a c = a refl
  Counted-either false x y a c = c refl

  Counted-returns : (answer : Answer) (s : S) → Counted tried (returns answer s)
  Counted-returns answer s = unfold Counted in tt

  Counted-renews : (email : String) (s : S) → Counted tried (renews email tried s)
  Counted-renews email s = unfold Counted in refl

  Counted-retries :
      (email : String) (next : Retries) (s : S)
      → left next < left tried
      → Counted tried (retries email next s)
  Counted-retries email next s h = unfold Counted in h

module _ {S : Type 0} (deps : ConvDeps) (acc : Accounts S) (request : ConversationRequest) where
  completed-Counted :
      (token email : String) (tried : Retries) (outputs : List ImageOutput) (s : S)
      → Counted tried (completed deps acc request token email outputs s)
  unfolding completed
  completed-Counted token email tried outputs s =
      search (Counted-either tried, Counted-returns tried)

  poll_timed_out-Counted :
      (token email : String) (tried : Retries) (outputs : List ImageOutput)
      (text conversation_id : String) (s : S)
      → Counted tried
          (poll_timed_out deps acc request token email tried outputs text conversation_id s)
  unfolding poll_timed_out
  poll_timed_out-Counted token email tried outputs text conversation_id s =
      let next = record tried { poll_timeout_retry = tried.poll_timeout_retry + 1 } in
      Counted-either tried
        (not (emitted outputs) && leb next.poll_timeout_retry max_poll_timeout_retries) _ _
        (λ e. Counted-retries tried email next _ (ground arith)) (λ e. Counted-returns tried _ _)

  generation_failed-Counted :
      (token email : String) (tried : Retries) (outputs : List ImageOutput)
      (e : ImageGenerationError) (s : S)
      → Counted tried (generation_failed deps acc request token email tried outputs e s)
  unfolding generation_failed
  generation_failed-Counted token email tried outputs e s =
      let next = record tried { text_reply_retry = tried.text_reply_retry + 1 } in
      Counted-either tried
        (is_model_text_reply_instead_of_image deps.replies e.message && not (emitted outputs)) _ _
        (λ words.
          Counted-either tried (leb next.text_reply_retry max_text_reply_retries) _ _
            (λ e. Counted-retries tried email next _ (ground arith))
            (λ e. Counted-returns tried _ _))
        (λ other. Counted-returns tried _ _)

  renew-Counted :
      (token email : String) (tried : Retries) (s : S)
      → Counted tried (renew deps acc request token email tried s)
  unfolding renew
  renew-Counted token email tried s = search (Counted-either tried, Counted-renews tried)

  -- A retry after a failed connection, and one after a timeout.
  fewer_tls :
      (tried : Retries) (silent broken : Bool)
      → (silent && broken && leb (tried.tls_retry + 1) max_tls_retries) ≡ true
      → left (if silent && broken then record tried { tls_retry = tried.tls_retry + 1 } else tried)
        < left tried
  fewer_tls tried silent broken h = ground arith

  fewer_timeouts :
      (tried : Retries) (broken late : Bool)
      → (late && leb (tried.conn_timeout_retry + 1) max_conn_timeout_retries) ≡ true
      → left (record (if broken then record tried { tls_retry = tried.tls_retry + 1 } else tried) {
        conn_timeout_retry = tried.conn_timeout_retry + 1;
      })
        < left tried
  fewer_timeouts tried broken late h = ground arith

  engine_failed-Counted :
      (token email : String) (tried : Retries) (outputs : List ImageOutput) (last_error : String)
      (s : S)
      → Counted tried (engine_failed deps acc request token email tried outputs last_error s)
  unfolding engine_failed
  engine_failed-Counted token email tried outputs last_error s =
      let silent = not (emitted outputs) in
      let broken = is_tls_connection_error deps.host last_error in
      let late = is_connection_timeout_error deps.host last_error in
      Counted-either tried (silent && is_token_invalid_error deps.host last_error) _ _
        (λ e. renew-Counted token email tried _)
        (λ e.
          Counted-either tried (silent && broken && leb (tried.tls_retry + 1) max_tls_retries) _ _
            (λ e. Counted-retries tried email _ _ (fewer_tls tried silent broken e))
            (λ e.
              Counted-either tried
                (silent && late && leb (tried.conn_timeout_retry + 1) max_conn_timeout_retries) _ _
                (λ e.
                  Counted-retries tried email _ _
                    (fewer_timeouts tried (silent && broken) (silent && late) e))
                (λ e. Counted-returns tried _ _)))

  concluded-Counted :
      (token email : String) (tried : Retries) (outputs : List ImageOutput) (ended : Option ImgErr)
      (s : S)
      → Counted tried (concluded deps acc request token email tried outputs ended s)
  unfolding concluded failed_with
  concluded-Counted token email tried outputs none s = completed-Counted token email tried outputs s
  concluded-Counted token email tried outputs (some (gen e)) s =
      generation_failed-Counted token email tried outputs e s
  concluded-Counted token email tried outputs (some (engine (image_poll_timeout m c))) s =
      poll_timed_out-Counted token email tried outputs m c s
  concluded-Counted token email tried outputs (some (engine (image_content_policy m))) s =
      Counted-returns tried _ _
  concluded-Counted token email tried outputs (some (engine e)) s =
      engine_failed-Counted token email tried outputs (engine_text e) s

  answered-Counted :
      (index total : ℤ) (email : String) (tried : Retries) (r : Result String String) (s : S)
      → Counted tried (answered deps acc request index total email tried r s)
  unfolding answered token_round
  answered-Counted index total email tried (ok token) s = search concluded-Counted
  answered-Counted index total email tried (err e) s = Counted-returns tried _ _

  turn-Counted :
      (index total : ℤ) (email : String) (tried : Retries) (s : S)
      → Counted tried (turn deps acc request index total email tried s)
  unfolding turn
  turn-Counted index total email tried s = search answered-Counted

  -- How many of the rounds end with a token that the upstream no longer takes.
  unfoldable pub renewals : ℕ → ℤ → ℤ → String → Retries → S → ℕ
  unfolding turn
  renewals zero index total email tried s = 0
  renewals (suc rounds) index total email tried s =
      elim (turn deps acc request index total email tried s) [
        | returns answer t ↦ 0
        | retries next counted t ↦ renewals rounds index total next counted t
        | renews next counted t ↦ suc (renewals rounds index total next counted t)
      ]

abbrev Ended : {S : Type 0} → Option (Answer × S) → Type 0
Ended {S} r = (answer : Answer) × (t : S) × (r ≡ some (answer, t))

round_ends :
    {S : Type 0} (tried : Retries) (u : Turn S) (rounds : ℕ)
    (rest : String → Retries → S → Option (Answer × S)) (renewed : String → Retries → S → ℕ)
    → Counted tried u
    → ((email : String) (next : Retries) (s : S)
        → left next + renewed email next s < rounds
        → Ended (rest email next s))
    → left tried + (elim u [
      | returns answer s ↦ 0
      | retries email next s ↦ renewed email next s
      | renews email next s ↦ suc (renewed email next s)
    ])
      < suc rounds
    → Ended (elim u [
      | returns answer s ↦ some (answer, s)
      | retries email next s ↦ rest email next s
      | renews email next s ↦ rest email next s
    ])
unfolding Counted
round_ends tried (returns answer s) rounds rest renewed c f h = (answer, s, refl)
round_ends tried (retries email next s) rounds rest renewed c f h = f email next s (omega arith)
round_ends tried (renews email next s) rounds rest renewed c f h = f email next s (omega (arith, c))

module _ {S : Type 0} (deps : ConvDeps) (acc : Accounts S) (request : ConversationRequest) where
  single_loop-Ended :
      (rounds : ℕ) (index total : ℤ) (email : String) (tried : Retries) (s : S)
      → left tried + renewals deps acc request rounds index total email tried s < rounds
      → Ended (single_loop deps acc request rounds index total email tried s)
  unfolding single_loop renewals
  single_loop-Ended zero index total email tried s h = absurd (omega (arith, h))
  single_loop-Ended (suc rounds) index total email tried s h =
      round_ends tried (turn deps acc request index total email tried s) rounds _ _
        (turn-Counted deps acc request index total email tried s)
        (λ e next t. single_loop-Ended rounds index total e next t) h

  -- Of the rounds for one image at most thirteen are retries: besides them only those with a token
  -- that the upstream no longer takes go on. More rounds than these thirteen and those renewals end
  -- with an answer.
  pub generate_single_image-ends :
      (rounds : ℕ) (index total : ℤ) (s : S)
      → 13 + renewals deps acc request rounds index total "" no_retries s < rounds
      → (answer : Answer) × (t : S) × (generate_single_image deps acc request rounds index total s
          ≡ some (answer, t))
  unfolding generate_single_image
  generate_single_image-ends rounds index total s h =
      single_loop-Ended rounds index total "" no_retries s h
