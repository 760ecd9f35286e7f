-- ===== src/Account/Fetch/Steps.antt =====
-- src/services/account_service.rs: the calls that talk to the upstream, as runs of the pool's steps.
use model2api.Common.{
  ℕ, zero, suc, String, ◌≡◌, refl, Bool, true, false, Option, none, some, List, inl, inr,
  if◌then◌else◌, append, Option-cases,
}
use model2api.Json.{Fields, Host}
use model2api.Account.State.{Config, Service, with_pool}
use model2api.Account.Matching.{Request}
use model2api.Account.Slots.{Round, failed, took, waits, acquire_round, choose_text_token}
use model2api.Account.Members.{remove_invalid_token}
use model2api.Account.Run.{
  Step, acquires, releases, chooses_text, updates, removes_invalid, refreshes, fails_refresh,
  succeeds, sees_invalid,
}
use model2api.Account.Fetch.{
  Upstream, refresh_answered, refresh_known, refresh_access_token, refresh_chosen,
  get_text_access_token, engine_user_info, reject, accept, second_info, retry_info, first_info,
  fetch_remote_info, acquire, fetched, attempted, attempts, get_available_access_token,
}
use model2api.Images.{Result, ok, err, EngineError, invalid_access_token}

-- A property that every step of the pool keeps, and what other tasks do in the meantime.
pub record IsKept (h : Host) (c : Config) (up : Upstream) (P : Service → Type 0) : Type 0 where
  pub steps : {s t : Service} → Step h c s t → P s → P t
  pub others : (s : Service) → P s → P (up.others s)
  pub outlasts : (r : Request) (s : Service) → P s → P (up.outlasts r s).1

kept_either :
    {A : Type 0} (P : Service → Type 0) (b : Bool) (x y : A × Service)
    → P x.1
    → P y.1
    → P (if b then x else y).1
kept_either P true x y a c = a
kept_either P false x y a c = c

kept_if : (P : Service → Type 0) (b : Bool) (x y : Service) → P x → P y → P (if b then x else y)
kept_if P true x y a c = a
kept_if P false x y a c = c

module _ (h : Host) (c : Config) (up : Upstream) {P : Service → Type 0} (k : IsKept h c up P) where
  refresh_answered-kept :
      (active event : String) (r : Result String Fields) (s : Service)
      → P s
      → P (refresh_answered h c up active event r s).1
  unfolding refresh_answered
  refresh_answered-kept active event (ok answer) s v = k.steps (refreshes _ active answer event) v
  refresh_answered-kept active event (err e) s v = k.steps (fails_refresh _ active event e) v

  refresh_known-kept :
      (access_token : String) (force : Bool) (event : String) (s : Service) (o : Option Fields)
      → P s
      → P (refresh_known h c up access_token force event s o).1
  unfolding refresh_known
  refresh_known-kept access_token force event s none v = v
  refresh_known-kept access_token force event s (some account) v =
      let later = k.others s v in search (kept_either P, refresh_answered-kept, v, later)

  pub refresh_access_token-kept :
      (access_token : String) (force : Bool) (event : String) (s : Service)
      → P s
      → P (refresh_access_token h c up access_token force event s).1
  unfolding refresh_access_token
  refresh_access_token-kept access_token force event s v =
      let later = k.others s v in search (kept_either P, refresh_known-kept, v, later)

  refresh_chosen-kept :
      (excluded : List String) (s : Service)
      → P s
      → P (refresh_chosen h c up (choose_text_token h excluded s.pool) s).1
  unfolding refresh_chosen
  refresh_chosen-kept excluded s v = elim (Option-cases (choose_text_token h excluded s.pool)) [
    | inl nothing ↦ rw (refresh_chosen, nothing) v
    | inr ((token, q), e) ↦
        rw (refresh_chosen, e)
          (refresh_access_token-kept token false "get_text_access_token" (with_pool s q)
            (k.steps (chooses_text excluded token q e) v))
  ]

  pub get_text_access_token-kept :
      (excluded : List String) (s : Service) → P s → P (get_text_access_token h c up excluded s).1
  unfolding get_text_access_token
  get_text_access_token-kept excluded s v = refresh_chosen-kept excluded s v

  remove_invalid_token-kept :
      (t event : String) (s : Service)
      → P s
      → P (remove_invalid_token h c (up.clock s) t event false s).0
  remove_invalid_token-kept t event s v = k.steps (removes_invalid (up.clock s) t event false) v

  reject-kept :
      (token event msg : String) (defer : Bool) (s : Service)
      → P s
      → P (reject h c up token event msg defer s).1
  unfolding reject
  reject-kept token event msg defer s v =
      let seen = k.steps (sees_invalid (up.clock s) token event msg defer) v in
      search (kept_if P, remove_invalid_token-kept, seen)

  accept-kept :
      (token : String) (info : Fields) (s : Service) → P s → P (accept h c up token info s).1
  unfolding accept
  accept-kept token info s v =
      k.steps (updates _ token info false) (k.steps (succeeds (up.clock s) token) v)

  second_info-kept :
      (token event : String) (defer : Bool) (r : Result EngineError Fields) (s : Service)
      → P s
      → P (second_info h c up token event defer r s).1
  unfolding second_info
  second_info-kept token event defer (ok info) s v = accept-kept token info s v
  second_info-kept token event defer (err (invalid_access_token msg)) s v =
      reject-kept token event msg defer s v
  second_info-kept token event defer (err e) s v = v

  retry_info-kept :
      (active event msg : String) (defer : Bool) (r : String × Service)
      → P r.1
      → P (retry_info h c up active event msg defer r).1
  unfolding retry_info engine_user_info
  retry_info-kept active event msg defer (refreshed, s) v =
      let later = k.others s v in search (kept_either P, second_info-kept, reject-kept, later, v)

  first_info-kept :
      (active event : String) (defer : Bool) (r : Result EngineError Fields) (s : Service)
      → P s
      → P (first_info h c up active event defer r s).1
  unfolding first_info
  first_info-kept active event defer (ok info) s v = accept-kept active info s v
  first_info-kept active event defer (err (invalid_access_token msg)) s v =
      retry_info-kept active event msg defer _
        (refresh_access_token-kept active true (append event ":invalid_access_token") s v)
  first_info-kept active event defer (err e) s v = v

  pub fetch_remote_info-kept :
      (access_token event : String) (defer : Bool) (s : Service)
      → P s
      → P (fetch_remote_info h c up access_token event defer s).1
  unfolding fetch_remote_info engine_user_info
  fetch_remote_info-kept access_token event defer s v =
      let ready = refresh_access_token-kept access_token false (append event ":preflight") s v in
      let later = k.others _ ready in search (kept_either P, first_info-kept, later, v)

  round-kept :
      (r : Request) (s : Service) (u : Round) (rest : Result String String × Service)
      → acquire_round h c r s.pool ≡ u
      → P s
      → P rest.1
      → P
          (elim u as (λ x. Result String String × Service) [
            | failed e ↦ (err e, s)
            | took token q ↦ (ok token, with_pool s q)
            | waits ↦ rest
          ]).1
  round-kept r s (failed message) rest e v w = v
  round-kept r s (took token q) rest e v w = k.steps (acquires r token q e) v
  round-kept r s waits rest e v w = w

  acquire-kept : (wakeups : ℕ) (r : Request) (s : Service) → P s → P (acquire h c up wakeups r s).1
  unfolding acquire
  acquire-kept zero r s v = k.outlasts r s v
  acquire-kept (suc wakeups) r s v =
      round-kept r s (acquire_round h c r s.pool) _ refl v
        (acquire-kept wakeups r (up.others s) (k.others s v))

  fetched-kept :
      (rest : Request → Service → Result String String × Service) (r : Request) (token : String)
      (f : Result String (Option Fields) × Service)
      → ((q : Request) (t : Service) → P t → P (rest q t).1)
      → P f.1
      → P (fetched h c up rest r token f).1
  unfolding fetched
  fetched-kept rest r token (err e, s) goes v = goes r _ (k.steps (releases token) v)
  fetched-kept rest r token (ok found, s) goes v =
      let given = k.steps (releases token) v in search (kept_either P, goes, given, v)

  attempted-kept :
      (rest : Request → Service → Result String String × Service) (r : Request)
      (f : Result String String × Service)
      → ((q : Request) (t : Service) → P t → P (rest q t).1)
      → P f.1
      → P (attempted h c up rest r f).1
  unfolding attempted
  attempted-kept rest r (err e, s) goes v = v
  attempted-kept rest r (ok token, s) goes v =
      fetched-kept rest _ token _ goes
        (fetch_remote_info-kept token "get_available_access_token" true s v)

  attempts-kept : (n : ℕ) (r : Request) (s : Service) → P s → P (attempts h c up n r s).1
  unfolding attempts
  attempts-kept zero r s v = v
  attempts-kept (suc n) r s v =
      attempted-kept (λ q t. attempts h c up n q t) r _ (λ q t w. attempts-kept n q t w)
        (acquire-kept up.wakeups r s v)

  pub get_available_access_token-kept :
      (plan source : Option String) (plans : List String) (s : Service)
      → P s
      → P (get_available_access_token h c up plan source plans s).1
  unfolding get_available_access_token
  get_available_access_token-kept plan source plans s v = search (attempts-kept, v)
