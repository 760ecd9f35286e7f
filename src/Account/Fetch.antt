-- ===== src/Account/Fetch.antt =====
-- src/services/account_service.rs: the calls that talk to the upstream: `refresh_access_token`,
-- `get_text_access_token`, `fetch_remote_info`, `engine_user_info` and `get_available_access_token`.
pub mod Steps
pub mod Shared
use model2api.Common.{
  ℕ, zero, suc, String, Bool, true, false, not, ◌&&◌, ◌||◌, Option, none, some, List, [], ◌∷◌, ℤ,
  pos, ◌==◌, if◌then◌else◌, append, option_or, elem, length,
}
use model2api.Json.{Value, int, Fields, end, Host, Clock, s as text_in, s_trim}
use model2api.Account.State.{Config, Pool, Service, with_pool}
use model2api.Account.Resolve.{resolve_access_token, get_account}
use model2api.Account.Matching.{
  Request, is_image_account_available, account_matches_plan_type, account_matches_any_plan_type,
  account_matches_source_type,
}
use model2api.Account.Slots.{
  Round, failed, took, waits, label, acquire_round, release_image_slot, choose_text_token,
}
use model2api.Account.Updates.{update_account}
use model2api.Account.Members.{remove_invalid_token}
use model2api.Account.Refresh.{
  apply_refreshed_tokens, record_token_refresh_error, record_refresh_success,
  record_invalid_token_seen, recent, time_at,
}
use model2api.Images.{Result, ok, err, EngineError, invalid_access_token, engine_text}

-- What the calls take from the clock and from the upstream, in each state of the service. `others` is
-- what other tasks do to the service while a call waits, and `outlasts` what a call for a slot
-- answers that still waits behind the given number of wake-ups.
pub record Upstream : Type 0 where
  pub clock : Service → Clock
  pub expires : String → Service → Bool
  pub request_access_token_refresh : String → Fields → Service → Result String Fields
  pub user_info : String → Fields → Service → Result EngineError Fields
  pub others : Service → Service
  pub wakeups : ℕ
  pub outlasts : Request → Service → Result String String × Service

-- TOKEN_REFRESH_ERROR_BACKOFF_SECONDS, in milliseconds.
abbrev token_refresh_error_backoff : ℤ
token_refresh_error_backoff = pos 300_000

recent_token_refresh_error : Host → Clock → Fields → Bool
recent_token_refresh_error h k account =
    recent token_refresh_error_backoff k.now_millis
      (time_at h "last_token_refresh_error_at" account)

-- The first of three texts that is not empty, or the last.
first_named : String → String → String → String
first_named a b c = if not (a == "") then a else if not (b == "") then b else c

or_given : String → String → String
or_given given t = if t == "" then given else t

module _ (h : Host) (c : Config) (up : Upstream) where
  token_needs_refresh : String → Bool → Service → Bool
  token_needs_refresh token force s = if force then true else up.expires token s

  -- Behind the request for a new token.
  refresh_answered : String → String → Result String Fields → Service → String × Service
  refresh_answered active event (ok answer) s =
      let (later, new) = apply_refreshed_tokens h (up.clock s) active answer event s in (new, later)
  refresh_answered active event (err e) s =
      (active, record_token_refresh_error h (up.clock s) active event e s)

  refresh_known : String → Bool → String → Service → Option Fields → String × Service
  unfolding token_needs_refresh refresh_answered first_named recent_token_refresh_error
  refresh_known access_token force event s none = (access_token, s)
  refresh_known access_token force event s (some account) =
      let active =
        first_named (text_in h account "access_token") (resolve_access_token s.pool access_token)
          access_token in
      let refresh_token = s_trim h account "refresh_token" in
      if not (token_needs_refresh active force s)
      then (active, s)
      else if refresh_token == ""
      then (active, s)
      else if not force && recent_token_refresh_error h (up.clock s) account
      then (active, s)
      else refresh_answered active event (up.request_access_token_refresh refresh_token account s)
          (up.others s)

  -- The lock on the refreshes is waited for first.
  unfoldable pub refresh_access_token : String → Bool → String → Service → String × Service
  unfolding refresh_known
  refresh_access_token access_token force event s =
      let later = up.others s in
      if access_token == ""
      then ("", s)
      else refresh_known access_token force event later (get_account later.pool access_token)

  refresh_chosen : Option (String × Pool) → Service → String × Service
  unfolding or_given
  refresh_chosen none s = ("", s)
  refresh_chosen (some (token, q)) s =
      let (refreshed, later) =
        refresh_access_token token false "get_text_access_token" (with_pool s q) in
      (or_given token refreshed, later)

  unfoldable pub get_text_access_token : List String → Service → String × Service
  unfolding refresh_chosen
  get_text_access_token excluded s = refresh_chosen (choose_text_token h excluded s.pool) s

  engine_user_info : String → Service → Result EngineError Fields × Service
  engine_user_info token s =
      (up.user_info token (option_or end (get_account s.pool token)) s, up.others s)

  -- A token that the upstream rejects is marked or removed, unless that is deferred.
  reject : String → String → String → Bool → Service → Result String (Option Fields) × Service
  reject token event msg defer s =
      let (seen, now) = record_invalid_token_seen h (up.clock s) token event msg defer s in
      (
        err msg,
        if now then (remove_invalid_token h c (up.clock seen) token event false seen).0 else seen,
      )

  accept : String → Fields → Service → Result String (Option Fields) × Service
  accept token info s =
      let good = record_refresh_success h (up.clock s) token s in
      let (later, account) = update_account h c (up.clock good) token info false good in
      (ok account, later)

  second_info :
      String
      → String
      → Bool
      → Result EngineError Fields
      → Service
      → Result String (Option Fields) × Service
  unfolding reject accept
  second_info token event defer (ok info) s = accept token info s
  second_info token event defer (err (invalid_access_token msg)) s = reject token event msg defer s
  second_info token event defer (err e) s = (err (engine_text e), s)

  -- Behind a forced refresh, which brought another token or not.
  retry_info :
      String → String → String → Bool → String × Service → Result String (Option Fields) × Service
  unfolding second_info reject engine_user_info
  retry_info active event msg defer (refreshed, s) =
      let (answer, later) = engine_user_info refreshed s in
      if not (refreshed == "") && not (refreshed == active)
      then second_info refreshed event defer answer later
      else reject active event msg defer s

  first_info :
      String
      → String
      → Bool
      → Result EngineError Fields
      → Service
      → Result String (Option Fields) × Service
  unfolding retry_info accept
  first_info active event defer (ok info) s = accept active info s
  first_info active event defer (err (invalid_access_token msg)) s =
      retry_info active event msg defer
        (refresh_access_token active true (append event ":invalid_access_token") s)
  first_info active event defer (err e) s = (err (engine_text e), s)

  unfoldable pub fetch_remote_info :
      String → String → Bool → Service → Result String (Option Fields) × Service
  unfolding first_info engine_user_info or_given
  fetch_remote_info access_token event defer s =
      let (preflight, ready) =
        refresh_access_token access_token false (append event ":preflight") s in
      let active = or_given access_token preflight in
      let (answer, later) = engine_user_info active ready in
      if access_token == ""
      then (err "access_token is required", s)
      else first_info active event defer answer later

  -- `acquire_next_candidate_token` on the service, which other tasks change before each wake-up.
  acquire : ℕ → Request → Service → Result String String × Service
  acquire zero r s = up.outlasts r s
  acquire (suc wakeups) r s = elim (acquire_round h c r s.pool) [
    | failed e ↦ (err e, s)
    | took token q ↦ (ok token, with_pool s q)
    | waits ↦ acquire wakeups r (up.others s)
  ]

  usable : Request → Fields → Bool
  usable r account =
      is_image_account_available account
      && account_matches_plan_type h account r.plan_type
      && account_matches_any_plan_type h account r.plan_types
      && account_matches_source_type h account r.source_type

  no_image_quota : Request → String
  no_image_quota r =
      let tried = append "(tried " (append (h.print (int (pos (length r.excluded)))) " tokens)") in
      if label r == ""
      then append "no available image quota " tried
      else append "no available " (append (label r) (append " image quota " tried))

  exclude : String → Request → Request
  exclude token r = if elem token r.excluded then r else record r { excluded = token ∷ r.excluded }

  -- What is left of an attempt: the token that the account has now, or the next attempt.
  fetched :
      (Request → Service → Result String String × Service)
      → Request
      → String
      → Result String (Option Fields) × Service
      → Result String String × Service
  unfolding usable exclude or_given
  fetched rest r token (err e, s) = rest r (release_image_slot token s)
  fetched rest r token (ok found, s) =
      let account = option_or end found in
      let resolved = text_in h account "access_token" in
      if usable r account
      then (ok (or_given token resolved), s)
      else rest (if resolved == "" then r else exclude resolved r) (release_image_slot token s)

  attempted :
      (Request → Service → Result String String × Service)
      → Request
      → Result String String × Service
      → Result String String × Service
  unfolding fetched exclude
  attempted rest r (err e, s) = (err e, s)
  attempted rest r (ok token, s) =
      fetched rest (exclude token r) token
        (fetch_remote_info token "get_available_access_token" true s)

  attempts : ℕ → Request → Service → Result String String × Service
  unfolding attempted acquire no_image_quota
  attempts zero r s = (err (no_image_quota r), s)
  attempts (suc n) r s = attempted (λ q t. attempts n q t) r (acquire up.wakeups r s)

  unfoldable pub get_available_access_token :
      Option String → Option String → List String → Service → Result String String × Service
  unfolding attempts
  get_available_access_token plan_type source_type plan_types s =
      attempts 20
        (record {
          excluded = [];
          plan_type = plan_type;
          source_type = source_type;
          plan_types = plan_types;
        })
        s
