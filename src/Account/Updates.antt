-- ===== src/Account/Updates.antt =====
-- src/services/account_service.rs: `update_account`, `mark_image_result`, `mark_text_used`, and
-- `anonymize_token` of src/utils/helper.rs. A call answers the service that it leaves and its result.
pub mod Keeps
pub mod Outcome
use Prim.Native.String.{slice}
use model2api.Common.{
  String, Bool, true, false, not, ◌&&◌, Option, none, some, [], ◌∷◌, ℤ, pos, negsuc, nat_eq, ◌+ℤ◌,
  ◌-ℤ◌, max_ℤ, ◌==◌, if◌then◌else◌, trim, append, option_or,
}
use model2api.Common.Maps.{get, insert, remove}
use model2api.Json.{
  Value, null, int, str, Fields, end, field, Host, Clock, set, get_field, merge_objects, text_at,
  int_at, bool_at,
}
use model2api.Account.State.{
  Config, Pool, Service, Effect, log, emit, with_pool, save_accounts_locked,
}
use model2api.Account.Normalize.{normalize_object}
use model2api.Account.Resolve.{resolve_locked}
use model2api.Account.Slots.{release_image_slot}

pub anonymize_token : Host → String → String
anonymize_token h token =
    if trim token == ""
    then "token:empty"
    else append "token:" (slice (h.sha256_hex (trim token)) 0 10)

abbrev pub token_detail : Host → String → Fields
token_detail h t = field "token" (str (anonymize_token h t)) end

abbrev pub put_account : String → Fields → Pool → Pool
put_account t account p = record p { accounts = insert t account p.accounts }

abbrev pub drop_account : String → Pool → Pool
drop_account t p = record p { accounts = remove t p.accounts }

abbrev pub is_limited : Fields → Bool
is_limited account = text_at "status" account == "限流"

-- The common end of `update_account` and `mark_image_result`: a rate-limited account is dropped
-- where the settings say so; any other is stored. Either way the accounts are saved.
unfoldable pub store_account :
    Host → Config → String → Service → Option Fields → Service × Option Fields
store_account h c t s none = (s, none)
store_account h c t s (some account) =
    if is_limited account && c.auto_remove_rate_limited_accounts
    then (
      emit (log "自动移除限流账号" (token_detail h t))
          (save_accounts_locked (with_pool s (drop_account t s.pool))),
      none,
    )
    else (save_accounts_locked (with_pool s (put_account t account s.pool)), some account)

-- `quiet` leaves out the last log line.
pub log_update : Host → String → Bool → Service × Option Fields → Service × Option Fields
log_update h t quiet (s, none) = (s, none)
log_update h t quiet (s, some account) = if quiet then (s, some account) else (
  emit (log "更新账号" (set "status" (option_or null (get_field "status" account)) (token_detail h t)))
      s,
  some account,
)

update_found :
    Host
    → Config
    → Clock
    → String
    → Fields
    → Bool
    → Service
    → Option Fields
    → Service × Option Fields
update_found h c k t updates quiet s none = (s, none)
update_found h c k t updates quiet s (some current) = log_update h t quiet (
    store_account h c t s
      (normalize_object h k.now_str (set "access_token" (str t) (merge_objects current updates))))

unfoldable pub update_account :
    Host → Config → Clock → String → Fields → Bool → Service → Service × Option Fields
unfolding update_found
update_account h c k access_token updates quiet s =
    if access_token == ""
    then (s, none)
    else update_found h c k (resolve_locked s.pool access_token) updates quiet s
        (get (resolve_locked s.pool access_token) s.pool.accounts)

-- The status of an account whose image quota is spent, or is there again.
abbrev with_status : String → Fields → Fields
with_status t m = set "status" (str t) m

abbrev pub is_zero : ℤ → Bool
is_zero (pos n) = nat_eq n 0
is_zero (negsuc n) = false

-- The quota that is left, and the status that goes with it.
pub apply_quota : ℤ → Fields → Fields
apply_quota quota next =
    let spent = set "quota" (int quota) next in
    if is_zero quota
    then with_status "限流" spent
    else if is_limited spent
    then with_status "正常" spent
    else spent

pub spend_quota : Fields → Fields
spend_quota next = apply_quota (max_ℤ (int_at "quota" next -ℤ pos 1) (pos 0)) next

unfoldable pub count_result : Bool → Fields → Fields
count_result true next =
    let counted = set "success" (int (int_at "success" next +ℤ pos 1)) next in
    if not (bool_at "image_quota_unknown" next)
    then spend_quota counted
    else if is_limited counted
    then with_status "正常" counted
    else counted
count_result false next = set "fail" (int (int_at "fail" next +ℤ pos 1)) next

mark_found :
    Host → Config → Clock → String → Bool → Service → Option Fields → Service × Option Fields
mark_found h c k t success s none = (s, none)
mark_found h c k t success s (some current) = store_account h c t s (
    normalize_object h k.now_str
      (count_result success (set "last_used_at" (str k.now_local_str) current)))

-- The second critical section of `mark_image_result`, behind the release of the slot.
unfoldable pub record_image_result :
    Host → Config → Clock → String → Bool → Service → Service × Option Fields
unfolding mark_found
record_image_result h c k access_token success s =
    mark_found h c k (resolve_locked s.pool access_token) success s
      (get (resolve_locked s.pool access_token) s.pool.accounts)

-- Without what other tasks do between its two critical sections, which are steps of their own.
unfoldable pub mark_image_result :
    Host → Config → Clock → String → Bool → Service → Service × Option Fields
unfolding record_image_result
mark_image_result h c k access_token success s =
    if access_token == ""
    then (s, none)
    else record_image_result h c k access_token success (release_image_slot access_token s)

-- A changed account is stored and saved, if it is one.
unfoldable pub save_changed : String → Service → Option Fields → Service
save_changed t s none = s
save_changed t s (some account) = save_accounts_locked (with_pool s (put_account t account s.pool))

used_found : Host → Clock → String → Service → Option Fields → Service
unfolding save_changed
used_found h k t s none = s
used_found h k t s (some current) =
    save_changed t s
      (normalize_object h k.now_str (set "last_used_at" (str k.now_local_str) current))

unfoldable pub mark_text_used : Host → Clock → String → Service → Service
unfolding used_found
mark_text_used h k access_token s =
    if access_token == ""
    then s
    else used_found h k (resolve_locked s.pool access_token) s
        (get (resolve_locked s.pool access_token) s.pool.accounts)
