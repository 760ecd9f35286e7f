-- ===== src/Images/Single/Answers.antt =====
-- src/services/protocol/conversation.rs: what `generate_single_image` answers.
use model2api.Common.{
  ℕ, zero, suc, String, ◌≡◌, refl, sym, ◌∙◌, subst, Bool, true, false, not, ◌&&◌, ◌⊎◌, inl, inr,
  Option, none, some, List, [], ◌∷◌, ℤ, ◌==◌, if◌then◌else◌, map, Bool-cases, Option-cases,
}
use model2api.Json.{str}
use model2api.Images.{
  Result, ok, err, ConversationRequest, EngineError, image_poll_timeout, image_content_policy,
  ImgErr, engine, gen, ImageGenerationError, engine_text,
}
use model2api.Images.Names.{is_codex_image_model}
use model2api.Images.Output.{ImageOutput}
use model2api.Images.Picture.{ConvDeps, Backend}
use model2api.Images.Picture.Shape.{
  IsProgress, IsFinal, Ordered, stream_image_outputs-Ordered, stream_codex_image_outputs-Ordered,
}
use model2api.Images.Single.{
  Accounts, Retries, Answer, Turn, returns, retries, renews, with_email, first_message, outcome_of,
  last_output, any_result, ends_in_message, without_result, completed, poll_timed_out,
  generation_failed, renew, engine_failed, failed_with, concluded, streamed, token_round, answered,
  turn, single_loop, generate_single_image, no_retries,
}

-- Progress and then one final output, which is an image where a message counts as an error.
abbrev pub Closed : Bool → List ImageOutput → Type 0
Closed strict [] = ⊥
Closed strict (o ∷ outputs) =
    (IsProgress o × Closed strict outputs)
    ⊎ (IsFinal o × (outputs ≡ []) × (strict ≡ true → o.kind ≡ "result"))

-- An answer is empty, or its progress is followed by one final output.
abbrev pub IsAnswer : Bool → Answer → Type 0
IsAnswer strict (ok outputs) = (outputs ≡ []) ⊎ Closed strict outputs
IsAnswer strict (err e) = Unit

with_email-kind :
    (email : String) (o : ImageOutput)
    → ((with_email email o).kind ≡ o.kind) × ((with_email email o).entries ≡ o.entries)
unfolding with_email
with_email-kind email o = elim (Bool-cases (not (email == "") && o.account_email == "")) [
  | inl new ↦ rw new (refl, refl)
  | inr same ↦ rw same (refl, refl)
]

with_email-IsFinal : (email : String) (o : ImageOutput) → IsFinal o → IsFinal (with_email email o)
with_email-IsFinal email o f =
    let (kind, entries) = with_email-kind email o in
    record {
      kind = elim f.kind [
        | inl m ↦ inl (kind ∙ m)
        | inr (r, more) ↦ inr (kind ∙ r, λ e. more (sym entries ∙ e))
      ];
    }

Ordered-with_email :
    (email : String) (outputs : List ImageOutput)
    → Ordered outputs
    → Ordered (map (with_email email) outputs)
Ordered-with_email email [] o = tt
Ordered-with_email email (p ∷ ps) (inl (a, o)) =
    inl (record { kind = (with_email-kind email p).0 ∙ a.kind }, Ordered-with_email email ps o)
Ordered-with_email email (p ∷ ps) (inr (f, e)) = inr (with_email-IsFinal email p f, rw e refl)

-- A list that is closed by a message, where a message is no error.
Closed-message :
    (strict : Bool) (outputs : List ImageOutput)
    → Ordered outputs
    → (strict ≡ true → first_message outputs ≡ none)
    → ends_in_message outputs ≡ true
    → Closed strict outputs
unfolding first_message last_output
Closed-message strict [] o h e = absurd cc
Closed-message strict (p ∷ []) (inl (a, o)) h e = let w : false ≡ true = rw a.kind at e in absurd cc
Closed-message strict (p ∷ q ∷ ps) (inl (a, o)) h e =
    inl (a, Closed-message strict (q ∷ ps) o (λ s. rw a.kind at h s) e)
Closed-message strict (p ∷ []) (inr (f, o)) h e =
    inr (f, refl, λ s. let w : some p ≡ none = rw e at h s in absurd cc)
Closed-message strict (p ∷ q ∷ ps) (inr (f, o)) h e = absurd cc

Closed-result :
    (strict : Bool) (outputs : List ImageOutput)
    → Ordered outputs
    → any_result outputs ≡ true
    → Closed strict outputs
unfolding any_result
Closed-result strict [] o e = absurd cc
Closed-result strict (p ∷ ps) (inl (a, o)) e = inl (a, Closed-result strict ps o (rw a.kind at e))
Closed-result strict (p ∷ ps) (inr (f, o)) e = inr (
  f,
  o,
  λ s. elim f.kind [
    | inl m ↦ let w : false ≡ true = rw (m, o) at e in absurd cc
    | inr (r, more) ↦ r
  ],
)

last_output-some :
    (o : ImageOutput) (outputs : List ImageOutput)
    → (l : ImageOutput) × (last_output (o ∷ outputs) ≡ some l)
unfolding last_output
last_output-some o [] = (o, refl)
last_output-some o (p ∷ ps) = last_output-some p ps

without_result-IsAnswer :
    (strict : Bool) (email : String) (outputs : List ImageOutput)
    → IsAnswer strict (without_result email outputs)
unfolding without_result last_output
without_result-IsAnswer strict email [] = inl refl
without_result-IsAnswer strict email (o ∷ outputs) =
    let (l, e) = last_output-some o outputs in rw (without_result, e) tt

-- No message is left where a message counts as an error and none is reported.
no_message :
    (request : ConversationRequest) (email : String) (outputs : List ImageOutput)
    → outcome_of request email outputs none ≡ none
    → request.message_as_error ≡ true
    → first_message outputs ≡ none
unfolding outcome_of
no_message request email outputs e strict = elim (Option-cases (first_message outputs)) [
  | inl nothing ↦ nothing
  | inr (o, found) ↦ let w = rw (strict, found) at e in absurd cc
]

-- An answer, where a round gives one.
Right : {S : Type 0} → Bool → Turn S → Type 0
Right strict (returns answer s) = IsAnswer strict answer
Right strict (retries email next s) = Unit
Right strict (renews email next s) = Unit

module _ {S : Type 0} (strict : Bool) where
  Right-either :
      (b : Bool) (x y : Turn S)
      → Right strict x
      → Right strict y
      → Right strict (if b then x else y)
  Right-either true x y a c = a
  Right-either false x y a c = c

  Right-err : (e : ImageGenerationError) (s : S) → Right strict (returns (err e) s)
  Right-err e s = unfold Right in tt

  Right-renews : (email : String) (tried : Retries) (s : S) → Right strict (renews email tried s)
  Right-renews email tried s = unfold Right in tt

  Right-retries : (email : String) (tried : Retries) (s : S) → Right strict (retries email tried s)
  Right-retries email tried s = unfold Right in tt

abbrev Given : {S : Type 0} → Bool → Option (Answer × S) → Type 0
Given strict none = Unit
Given strict (some (answer, s)) = IsAnswer strict answer

proceeds :
    {S : Type 0} (strict : Bool) (u : Turn S) (rest : String → Retries → S → Option (Answer × S))
    → Right strict u
    → ((email : String) (tried : Retries) (s : S) → Given strict (rest email tried s))
    → Given strict (elim u [
      | returns answer s ↦ some (answer, s)
      | retries email tried s ↦ rest email tried s
      | renews email tried s ↦ rest email tried s
    ])
unfolding Right
proceeds strict (returns answer s) rest r f = r
proceeds strict (retries email tried s) rest r f = f email tried s
proceeds strict (renews email tried s) rest r f = f email tried s

module _ {S : Type 0} (deps : ConvDeps) (acc : Accounts S) (request : ConversationRequest) where
  completed-Right :
      (token email : String) (outputs : List ImageOutput) (s : S)
      → Ordered outputs
      → outcome_of request email outputs none ≡ none
      → Right request.message_as_error (completed deps acc request token email outputs s)
  unfolding completed Right
  completed-Right token email outputs s o e = elim (Bool-cases (ends_in_message outputs)) [
    | inl m ↦ rw m (
        inr (
          Closed-message request.message_as_error outputs o (no_message request email outputs e) m))
    | inr n ↦ elim (Bool-cases (any_result outputs)) [
      | inl r ↦ rw (n, r) (inr (Closed-result request.message_as_error outputs o r))
      | inr none_made ↦
          rw (n, none_made) (without_result-IsAnswer request.message_as_error email outputs)
    ]
  ]

  poll_timed_out-Right :
      (token email : String) (tried : Retries) (outputs : List ImageOutput)
      (text conversation_id : String) (s : S)
      → Right request.message_as_error
          (poll_timed_out deps acc request token email tried outputs text conversation_id s)
  unfolding poll_timed_out
  poll_timed_out-Right token email tried outputs text conversation_id s =
      let strict = request.message_as_error in
      search (Right-either strict, Right-err strict, Right-retries strict)

  generation_failed_with-Right :
      (token email : String) (tried : Retries) (outputs : List ImageOutput)
      (e : ImageGenerationError) (s : S)
      → Right request.message_as_error
          (generation_failed deps acc request token email tried outputs e s)
  unfolding generation_failed
  generation_failed_with-Right token email tried outputs e s =
      let strict = request.message_as_error in
      search (Right-either strict, Right-err strict, Right-retries strict)

  engine_failed_with-Right :
      (token email : String) (tried : Retries) (outputs : List ImageOutput) (last_error : String)
      (s : S)
      → Right request.message_as_error
          (engine_failed deps acc request token email tried outputs last_error s)
  unfolding engine_failed renew
  engine_failed_with-Right token email tried outputs last_error s =
      let strict = request.message_as_error in
      search (Right-either strict, Right-err strict, Right-retries strict, Right-renews strict)

  failed_with-Right :
      (token email : String) (tried : Retries) (outputs : List ImageOutput) (e : ImgErr) (s : S)
      → Right request.message_as_error (failed_with deps acc request token email tried outputs e s)
  unfolding failed_with
  failed_with-Right token email tried outputs (gen e) s =
      generation_failed_with-Right token email tried outputs e s
  failed_with-Right token email tried outputs (engine (image_poll_timeout m c)) s =
      poll_timed_out-Right token email tried outputs m c s
  failed_with-Right token email tried outputs (engine (image_content_policy m)) s =
      Right-err request.message_as_error _ _
  failed_with-Right token email tried outputs (engine e) s =
      engine_failed_with-Right token email tried outputs (engine_text e) s

  concluded-Right :
      (token email : String) (tried : Retries) (outputs : List ImageOutput) (ended : Option ImgErr)
      (s : S)
      → Ordered outputs
      → Right request.message_as_error (
          concluded deps acc request token email tried outputs
            (outcome_of request email outputs ended)
            s)
  unfolding concluded outcome_of
  concluded-Right token email tried outputs (some e) s o =
      failed_with-Right token email tried outputs e s
  concluded-Right token email tried outputs none s o =
      elim (Option-cases (outcome_of request email outputs none)) [
        | inl fine ↦ rw (outcome_of, fine) (completed-Right token email outputs s o fine)
        | inr (e, broken) ↦
            rw (outcome_of, broken) (failed_with-Right token email tried outputs e s)
      ]

  streamed-Ordered :
      (index total : ℤ) (r : Result EngineError Backend)
      → Ordered (streamed deps acc request index total r).0
  unfolding streamed
  streamed-Ordered index total (err e) = tt
  streamed-Ordered index total (ok backend) =
      elim (Bool-cases (is_codex_image_model deps.host (str request.model))) [
        | inl codex ↦ rw codex (stream_codex_image_outputs-Ordered deps backend request index total)
        | inr plain ↦ rw plain (stream_image_outputs-Ordered deps backend request index total)
      ]

  answered-Right :
      (index total : ℤ) (email : String) (tried : Retries) (r : Result String String) (s : S)
      → Right request.message_as_error (answered deps acc request index total email tried r s)
  unfolding answered token_round
  answered-Right index total email tried (ok token) s =
      concluded-Right token _ tried _ _ _ (Ordered-with_email _ _ (streamed-Ordered index total _))
  answered-Right index total email tried (err e) s = Right-err request.message_as_error _ _

  turn-Right :
      (index total : ℤ) (email : String) (tried : Retries) (s : S)
      → Right request.message_as_error (turn deps acc request index total email tried s)
  unfolding turn
  turn-Right index total email tried s = search answered-Right

  single_loop-IsAnswer :
      (rounds : ℕ) (index total : ℤ) (email : String) (tried : Retries) (s : S)
      → Given request.message_as_error
          (single_loop deps acc request rounds index total email tried s)
  unfolding single_loop
  single_loop-IsAnswer zero index total email tried s = tt
  single_loop-IsAnswer (suc rounds) index total email tried s =
      proceeds request.message_as_error (turn deps acc request index total email tried s) _
        (turn-Right index total email tried s)
        (λ e c t. single_loop-IsAnswer rounds index total e c t)

  -- Whatever the account service and the upstream answer, an image that is made without an error is
  -- answered by no output at all, or by outputs that tell of the progress and behind them exactly one
  -- that is final: a message, or an image that was stored. Where the request takes a message for an
  -- error, the final output is an image.
  pub generate_single_image-IsAnswer :
      (rounds : ℕ) (index total : ℤ) (s t : S) (answer : Answer)
      → generate_single_image deps acc request rounds index total s ≡ some (answer, t)
      → IsAnswer request.message_as_error answer
  unfolding generate_single_image
  generate_single_image-IsAnswer rounds index total s t answer e =
      subst (Given request.message_as_error) e
        (single_loop-IsAnswer rounds index total "" no_retries s)
