-- ===== src/Account/Refresh.antt =====
-- src/services/account_service.rs: `apply_refreshed_tokens`, `record_token_refresh_error`,
-- `record_refresh_success`, `should_defer_invalid_token`, `record_invalid_token_seen`, `parse_time`.
-- A date is read by chrono into milliseconds. The source divides a difference by 1000 as a float
-- before it compares it to a number of seconds; here both are whole milliseconds.
pub mod Keeps
pub mod Rotates
use model2api.Common.{
  String, Bool, true, false, not, ◌&&◌, ◌||◌, Option, none, some, ℤ, pos, negsuc, pos_part,
  neg_part, sub_ℕ, ◌+ℤ◌, ltb_ℤ, ◌+◌, ◌==◌, if◌then◌else◌, replace_char, trim, option_or,
}
use model2api.Common.Maps.{Map, get, insert, remove}
use model2api.Json.{
  Value, null, int, str, bool, Fields, end, field, Host, Clock, set, get_field, as_str, bind_option,
  text_at, int_at,
}
use model2api.Account.State.{
  Config, Pool, Service, log, notify_waiters, emit, with_pool, save_accounts_locked,
}
use model2api.Account.Normalize.{normalize_object}
use model2api.Account.Matching.{inflight}
use model2api.Account.Resolve.{resolve_locked}
use model2api.Account.Updates.{anonymize_token, is_zero, save_changed, put_account}

-- The text of a field of the token answer, if it is not empty, goes into the account, trimmed.
copy_text : String → Fields → Fields → Fields
copy_text key answer next =
    if text_at key answer == "" then next else set key (str (trim (text_at key answer))) next

-- The account after a refresh that succeeded.
pub refreshed_fields : String → String → Fields → Fields → Fields
unfolding copy_text
refreshed_fields now new answer current =
    let tokens =
      copy_text "id_token" answer
        (copy_text "refresh_token" answer (set "access_token" (str new) current)) in
    let dated = set "last_token_refresh_at" (str now) tokens in
    let cleared =
      set "last_token_refresh_error_at" null (set "last_token_refresh_error" null dated) in
    let valid = set "last_invalid_at" null (set "invalid_count" (int (pos 0)) cleared) in
    set "last_refresh_error_at" null (set "last_refresh_error" null valid)

-- The slots of the old token go over to the new one.
pub move_slots : String → String → Map ℤ → Map ℤ
move_slots old new m = elim (get old m) [
  | none ↦ m
  | some n ↦
      if is_zero n
      then remove old m
      else insert new (option_or (pos 0) (get new (remove old m)) +ℤ n) (remove old m)
]

-- The tables after a rotation of the token.
pub rotate : String → String → Fields → Pool → Pool
unfolding move_slots
rotate old new account p = record p {
  accounts = insert new account (remove old p.accounts);
  token_aliases = insert old new p.token_aliases;
  image_inflight = move_slots old new p.image_inflight;
}

abbrev pub refresh_detail : Host → String → String → Bool → Fields
refresh_detail h event new rotated =
    set "rotated" (bool rotated)
      (set "token" (str (anonymize_token h new)) (field "source" (str event) end))

pub store_refreshed : Host → String → String → String → Service → Option Fields → Service × String
store_refreshed h event old new s none = (s, old)
store_refreshed h event old new s (some account) =
    let rotated = not (new == old) in
    let p = if rotated then rotate old new account s.pool else put_account new account s.pool in
    (
      emit (log "refresh_token 已刷新 access_token" (refresh_detail h event new rotated))
          (emit notify_waiters (save_accounts_locked (with_pool s p))),
      new,
    )

-- The new token, which is the old one where the answer has none.
abbrev pub new_token_of : String → Fields → String
new_token_of old answer =
    trim (option_or old (bind_option (get_field "access_token" answer) as_str))

pub refresh_found :
    Host → Clock → String → Fields → String → Service → Option Fields → Service × String
refresh_found h k old answer event s none = (s, old)
refresh_found h k old answer event s (some current) =
    let new = new_token_of old answer in
    if new == ""
    then (s, old)
    else store_refreshed h event old new s
        (normalize_object h k.now_str (refreshed_fields k.now_rfc3339 new answer current))

unfoldable pub apply_refreshed_tokens :
    Host → Clock → String → Fields → String → Service → Service × String
apply_refreshed_tokens h k old_access_token answer event s =
    refresh_found h k (resolve_locked s.pool old_access_token) answer event s
      (get (resolve_locked s.pool old_access_token) s.pool.accounts)

pub or_message : String → String → String
or_message error default = if error == "" then default else error

pub error_found : Host → Clock → String → String → Service → Option Fields → Service
error_found h k t error s none = s
error_found h k t error s (some current) = save_changed t s (
    normalize_object h k.now_str (
      set "last_token_refresh_error_at" (str k.now_rfc3339)
        (set "last_token_refresh_error" (str (or_message error "refresh token failed")) current)))

abbrev pub error_detail : Host → String → String → String → Fields
error_detail h event t error =
    set "error" (str error)
      (set "token" (str (anonymize_token h t)) (field "source" (str event) end))

unfoldable pub record_token_refresh_error :
    Host → Clock → String → String → String → Service → Service
record_token_refresh_error h k access_token event error s =
    emit (log "refresh_token 刷新 access_token 失败" (error_detail h event access_token error)) (
      error_found h k (resolve_locked s.pool access_token) error s
        (get (resolve_locked s.pool access_token) s.pool.accounts))

-- Stored, but not saved: the update that follows in `fetch_remote_info` saves.
pub store_only : String → Service → Option Fields → Service
store_only t s none = s
store_only t s (some account) = with_pool s (put_account t account s.pool)

pub success_found : Host → Clock → String → Service → Option Fields → Service
success_found h k t s none = s
success_found h k t s (some current) = store_only t s (
    normalize_object h k.now_str (
      set "last_refresh_error_at" null (
        set "last_refresh_error" null
          (set "last_invalid_at" null (set "invalid_count" (int (pos 0)) current)))))

unfoldable pub record_refresh_success : Host → Clock → String → Service → Service
record_refresh_success h k access_token s =
    success_found h k (resolve_locked s.pool access_token) s
      (get (resolve_locked s.pool access_token) s.pool.accounts)

-- The text that a date is read from: a string is trimmed, any other value printed.
date_text : Host → Value → String
date_text h (str t) = trim t
date_text h null = ""
date_text h other = h.print other

unfoldable pub parse_time : Host → Value → Option ℤ
unfolding date_text
parse_time h value =
    let raw = date_text h value in
    if raw == "" then none else elim (h.parse_rfc3339 (replace_char b'Z' "+00:00" raw)) [
      | some at ↦ some at
      | none ↦ h.parse_naive raw
    ]

-- Fewer milliseconds than the limit have passed since a date.
abbrev pub within : ℤ → ℤ → ℤ → Bool
within limit now at = ltb_ℤ now (plus at limit)
  where
    plus : ℤ → ℤ → ℤ
    plus a b = sub_ℕ (pos_part a + pos_part b) (neg_part a + neg_part b)

-- NEW_ACCOUNT_INVALID_GRACE_SECONDS and INVALID_CONFIRM_SECONDS, in milliseconds.
abbrev pub new_account_invalid_grace : ℤ
new_account_invalid_grace = pos 600_000

abbrev pub invalid_confirm : ℤ
invalid_confirm = pos 30_000

pub recent : ℤ → ℤ → Option ℤ → Bool
recent limit now none = false
recent limit now (some at) = within limit now at

abbrev pub time_at : Host → String → Fields → Option ℤ
time_at h key m = parse_time h (option_or null (get_field key m))

unfoldable pub should_defer_invalid_token : Host → Fields → ℤ → Bool
unfolding recent
should_defer_invalid_token h account now =
    recent new_account_invalid_grace now (time_at h "created_at" account)
    || not (ltb_ℤ (pos 1) (int_at "invalid_count" account))
    || recent invalid_confirm now (time_at h "last_invalid_at" account)

pub seen_fields : Clock → String → Fields → Fields
seen_fields k error current = set "last_refresh_error_at" (str k.now_rfc3339) (
    set "last_refresh_error" (str (or_message error "invalid access token")) (
      set "last_invalid_at" (str k.now_rfc3339)
        (set "invalid_count" (int (int_at "invalid_count" current +ℤ pos 1)) current)))

-- `true` tells the caller to mark or to remove the account.
pub seen_found :
    Host → Clock → String → String → String → Bool → Service → Option Fields → Service × Bool
seen_found h k t event error defer s none = (s, true)
seen_found h k t event error defer s (some current) =
    let stored = save_changed t s (normalize_object h k.now_str (seen_fields k error current)) in
    if defer && should_defer_invalid_token h current k.now_millis
    then (emit (log "暂缓标记异常账号" (error_detail h event t error)) stored, false)
    else (stored, true)

unfoldable pub record_invalid_token_seen :
    Host → Clock → String → String → String → Bool → Service → Service × Bool
record_invalid_token_seen h k access_token event error defer_invalid_removal s =
    seen_found h k (resolve_locked s.pool access_token) event error defer_invalid_removal s
      (get (resolve_locked s.pool access_token) s.pool.accounts)
