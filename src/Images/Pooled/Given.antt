-- ===== src/Images/Pooled/Given.antt =====
-- src/services/protocol/conversation.rs: `stream_image_outputs_with_pool` gives every slot back.
use model2api.Common.{
  ℕ, zero, suc, ◌≡◌, refl, subst, Bool, true, false, not, Option, none, some, List, ℤ, pos,
  pos_part, if◌then◌else◌, Option-cases, inl, inr, String,
}
use model2api.Images.{ok, err, ConversationRequest}
use model2api.Images.Picture.{ConvDeps}
use model2api.Images.Single.{Accounts, Answer, generate_single_image}
use model2api.Images.Single.Given.{Discipline, generate_single_image-gives}
use model2api.Images.Pooled.{
  Item, send_all, Joined, single, behind, served, serial, emit_results,
  stream_image_outputs_with_pool,
}

-- A property of the state that is left, where the rounds suffice.
Leaves : {S A : Type 0} → (S → Type 0) → Option (A × S) → Type 0
Leaves P none = Unit
Leaves P (some (a, s)) = P s

Leaves-either :
    {S A : Type 0} (P : S → Type 0) (b : Bool) (x y : Option (A × S))
    → Leaves P x
    → Leaves P y
    → Leaves P (if b then x else y)
Leaves-either P true x y a c = a
Leaves-either P false x y a c = c

Leaves-first :
    {S A : Type 0} (P : S → Type 0) (b : Bool) (x y : Option (A × S))
    → b ≡ true
    → Leaves P x
    → Leaves P (if b then x else y)
Leaves-first P true x y e a = a
Leaves-first P false x y e a = absurd cc

Leaves-some : {S A : Type 0} (P : S → Type 0) (a : A) (s : S) → P s → Leaves P (some (a, s))
Leaves-some P a s v = unfold Leaves in v

Leaves-of :
    {S A : Type 0} (P : S → Type 0) (r : Option (A × S))
    → ((a : A) (s : S) → r ≡ some (a, s) → P s)
    → Leaves P r
unfolding Leaves
Leaves-of P none f = tt
Leaves-of P (some (a, s)) f = f a s refl

module _ {S : Type 0} (deps : ConvDeps) (acc : Accounts S) (request : ConversationRequest)
    (rounds : ℕ) (tasks : S → List Joined × S) {Idle : S → Type 0} {Holds : String → S → Type 0}
    (d : Discipline S acc Idle Holds) where
  generate-Leaves :
      (index total : ℤ) (s : S)
      → Idle s
      → Leaves Idle (generate_single_image deps acc request rounds index total s)
  generate-Leaves index total s v =
      Leaves-of Idle _ λ answer t e.
        generate_single_image-gives deps acc request d rounds index total s t answer v e

  single-Leaves :
      (room : ℕ) (r : Option (Answer × S))
      → Leaves Idle r
      → Leaves Idle (single deps acc request rounds tasks room r)
  unfolding single Leaves
  single-Leaves room none v = tt
  single-Leaves room (some (err e, s)) v = v
  single-Leaves room (some (ok outputs, s)) v = v

  behind-Leaves :
      (sent : List Item) (r : Option (List Item × S))
      → Leaves Idle r
      → Leaves Idle (behind deps acc request rounds tasks sent r)
  unfolding behind Leaves
  behind-Leaves sent none v = tt
  behind-Leaves sent (some (rest, s)) v = v

  served-Leaves :
      (room : ℕ) (rest : ℕ → S → Option (List Item × S)) (r : Option (Answer × S))
      → ((later : ℕ) (s : S) → Idle s → Leaves Idle (rest later s))
      → Leaves Idle r
      → Leaves Idle (served deps acc request rounds tasks room rest r)
  unfolding served Leaves
  served-Leaves room rest none f v = tt
  served-Leaves room rest (some (err e, s)) f v = v
  served-Leaves room rest (some (ok outputs, s)) f v =
      elim (Option-cases (send_all room outputs).1) [
        | inl gone ↦ rw (served, gone) v
        | inr (later, waits) ↦ rw (served, waits) (behind-Leaves _ _ (f later s v))
      ]

  serial-Leaves :
      (count index room : ℕ) (s : S)
      → Idle s
      → Leaves Idle (serial deps acc request rounds tasks count index room s)
  unfolding serial
  serial-Leaves zero index room s v = Leaves-some Idle _ s v
  serial-Leaves (suc count) index room s v =
      served-Leaves room _ _ (λ later t w. serial-Leaves count (suc index) later t w)
        (generate-Leaves (pos index) request.n s v)

  pool-Leaves :
      ((s : S) → Idle s → Idle (tasks s).1)
      → (room : ℕ) (s : S) → Idle s
      → Leaves Idle (stream_image_outputs_with_pool deps acc request rounds tasks room s)
  unfolding stream_image_outputs_with_pool
  pool-Leaves keeps room s v =
      let together = keeps s v in
      let alone = single-Leaves room _ (generate-Leaves (pos 1) (pos 1) s v) in
      let in_turn = serial-Leaves (pos_part request.n) 1 room s v in
      search (Leaves-either Idle, Leaves-some Idle, together, alone, in_turn, v)

  -- Where a token that is handed out comes with a slot, which stays the image's while the upstream
  -- works and which `mark_image_result` gives back, and where parallel tasks leave no slot behind, a
  -- request for images that starts without a slot leaves none behind, whichever way its images are
  -- made and however they end: alone or one after the other, with errors, and with a receiver that
  -- goes away.
  pub stream_image_outputs_with_pool-gives :
      ((s : S) → Idle s → Idle (tasks s).1)
      → (room : ℕ) (s t : S) (items : List Item) → Idle s
      → stream_image_outputs_with_pool deps acc request rounds tasks room s ≡ some (items, t)
      → Idle t
  unfolding Leaves
  stream_image_outputs_with_pool-gives keeps room s t items v e =
      subst (Leaves Idle) e (pool-Leaves keeps room s v)

  serially-Leaves :
      deps.config.image_parallel_generation ≡ false
      → (room : ℕ) (s : S) → Idle s
      → Leaves Idle (stream_image_outputs_with_pool deps acc request rounds tasks room s)
  unfolding stream_image_outputs_with_pool
  serially-Leaves off room s v =
      let alone = single-Leaves room _ (generate-Leaves (pos 1) (pos 1) s v) in
      let in_turn = serial-Leaves (pos_part request.n) 1 room s v in
      let either =
        Leaves-first Idle (not deps.config.image_parallel_generation)
          (serial deps acc request rounds tasks (pos_part request.n) 1 room s)
          (some (emit_results deps.host room false "" (tasks s).0, (tasks s).1)) (rw off refl)
          in_turn in
      search (Leaves-either Idle, Leaves-some Idle, alone, either, v)

  -- The same without parallel tasks.
  pub stream_image_outputs_with_pool-gives_serially :
      deps.config.image_parallel_generation ≡ false
      → (room : ℕ) (s t : S) (items : List Item) → Idle s
      → stream_image_outputs_with_pool deps acc request rounds tasks room s ≡ some (items, t)
      → Idle t
  unfolding Leaves
  stream_image_outputs_with_pool-gives_serially off room s t items v e =
      subst (Leaves Idle) e (serially-Leaves off room s v)
