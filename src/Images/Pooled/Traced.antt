-- ===== src/Images/Pooled/Traced.antt =====
-- src/services/protocol/conversation.rs: the slots that `stream_image_outputs_with_pool` takes and gives
-- back, as a log of its calls on the account service.
use model2api.Common.{ℕ, String, ◌≡◌, sym, ℤ, false, some, List, [], ◌∷◌, subst}
use model2api.Images.{Result, ok, err, ConversationRequest}
use model2api.Images.Picture.{ConvDeps}
use model2api.Images.Single.{Accounts, Answer, generate_single_image}
use model2api.Images.Single.Given.{Discipline, generate_single_image-gives}
use model2api.Images.Pooled.{Item, Joined, stream_image_outputs_with_pool}
use model2api.Images.Pooled.Given.{stream_image_outputs_with_pool-gives_serially}

-- A token that `get_available_access_token` handed out, with a slot, and a call of
-- `mark_image_result`, which gives the slot of its token back.
pub data Call : Type 0 where
  took : String → Call
  gave : String → Call

abbrev logged : Result String String → List Call → List Call
logged (ok token) calls = took token ∷ calls
logged (err e) calls = calls

-- Any account service, with the log of its calls, the latest first.
abbrev pub traced : {S : Type 0} → Accounts S → Accounts (S × List Call)
traced acc = record {
  get_available_access_token = λ plan source plans t.
      let (answer, s) = acc.get_available_access_token plan source plans t.0 in
      (answer, (s, logged answer t.1));
  get_account = λ token t. acc.get_account token t.0;
  open_backend =
      λ token account t. let (answer, s) = acc.open_backend token account t.0 in (answer, (s, t.1));
  mark_image_result =
      λ token success t. (acc.mark_image_result token success t.0, gave token ∷ t.1);
  refresh_access_token =
      λ token t. let (answer, s) = acc.refresh_access_token token t.0 in (answer, (s, t.1));
  remove_invalid_token = λ token t. (acc.remove_invalid_token token t.0, t.1);
}

-- Each slot that was taken was given back, once and before another one was taken, and no other.
pub data IsPaired : List Call → Type 0 where
  no_calls : IsPaired []
  paired :
      {calls : List Call} (token : String)
      → IsPaired calls
      → IsPaired (gave token ∷ took token ∷ calls)

abbrev Idle : {S : Type 0} → S × List Call → Type 0
Idle t = IsPaired t.1

abbrev Holds : {S : Type 0} → String → S × List Call → Type 0
Holds token t = (calls : List Call) × (t.1 ≡ took token ∷ calls) × IsPaired calls

logged-Holds :
    (answer : Result String String) (token : String) (calls : List Call)
    → answer ≡ ok token
    → IsPaired calls
    → (rest : List Call) × (logged answer calls ≡ took token ∷ rest) × IsPaired rest
logged-Holds (ok t) token calls e v = (calls, cc, v)
logged-Holds (err f) token calls e v = absurd cc

logged-IsPaired :
    (answer : Result String String) (e : String) (calls : List Call)
    → answer ≡ err e
    → IsPaired calls
    → IsPaired (logged answer calls)
logged-IsPaired (ok t) e calls h v = absurd cc
logged-IsPaired (err f) e calls h v = v

traced-Discipline :
    {S : Type 0} (acc : Accounts S)
    → Discipline (S × List Call) (traced acc) (λ t. Idle t) (λ token t. Holds token t)
traced-Discipline acc = record {
  takes = λ plan source plans t token e v. logged-Holds _ token t.1 e v;
  refuses = λ plan source plans t e h v. logged-IsPaired _ e t.1 h v;
  works = λ token account t v. v;
  gives = λ token success t v.
      subst (λ calls. IsPaired (gave token ∷ calls)) (sym v.1) (paired token v.2);
  refreshes = λ token t v. v;
  removes = λ token t v. v;
}

-- Where images are not made in parallel, a request for images on any account service, whichever way
-- its images are made and however they end, alone or one after the other, with retries, with errors,
-- and with a receiver that goes away: it gives each slot that it takes back, once, before it takes
-- another one, and gives none back that it did not take.
pub stream_image_outputs_with_pool-IsPaired :
    {S : Type 0} (deps : ConvDeps) (acc : Accounts S) (request : ConversationRequest) (rounds : ℕ)
    (tasks : S × List Call → List Joined × (S × List Call)) (room : ℕ) (s t : S) (calls : List Call)
    (items : List Item)
    → deps.config.image_parallel_generation ≡ false
    → stream_image_outputs_with_pool deps (traced acc) request rounds tasks room (s, [])
      ≡ some (items, (t, calls))
    → IsPaired calls
stream_image_outputs_with_pool-IsPaired deps acc request rounds tasks room s t calls items off e =
    stream_image_outputs_with_pool-gives_serially deps (traced acc) request rounds tasks
      (traced-Discipline acc) off room (s, []) (t, calls) items no_calls e

-- The same for one image, as each of the parallel tasks makes one.
pub generate_single_image-IsPaired :
    {S : Type 0} (deps : ConvDeps) (acc : Accounts S) (request : ConversationRequest) (rounds : ℕ)
    (index total : ℤ) (s t : S) (calls : List Call) (answer : Answer)
    → generate_single_image deps (traced acc) request rounds index total (s, [])
      ≡ some (answer, (t, calls))
    → IsPaired calls
generate_single_image-IsPaired deps acc request rounds index total s t calls answer e =
    generate_single_image-gives deps (traced acc) request (traced-Discipline acc) rounds index total
      (s, []) (t, calls) answer no_calls e
