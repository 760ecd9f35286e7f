-- ===== src/Account/Members.antt =====
-- src/services/account_service.rs: `prepare_account_payload`, `add_account_items`, `add_accounts`,
-- `add_account_payloads`, `delete_accounts`, `remove_invalid_token`.
pub mod Adding
pub mod Deleting
use model2api.Common.{
  ℕ, zero, suc, ◌+◌, ◌%◌, ◌<◌, String, Bool, true, false, not, ◌&&◌, ◌||◌, Option, none, some, List,
  [], ◌∷◌, ℤ, pos, ◌+ℤ◌, ltb, nat_eq, ◌==◌, if◌then◌else◌, elem, filterb, length, option_or, trim,
  map, append, is_some,
}
use model2api.Common.Maps.{Map, get, insert, remove, retain}
use model2api.Json.{
  Value, null, int, str, obj, Fields, end, field, Host, Clock, set, get_field, insert_field,
  remove_field, merge_objects, text_at,
}
use model2api.Account.State.{
  Config, Pool, Service, log, save_cumulative_total, emit, with_pool, save_accounts_locked,
}
use model2api.Account.Normalize.{normalize_object, normalize_source_type, token_of}
use model2api.Account.Resolve.{resolve_locked}
use model2api.Account.Updates.{update_account, put_account, token_detail}

abbrev pub account_payload_token : Fields → String
account_payload_token item = trim (token_of item)

abbrev codex_at : Host → String → Fields → Bool
codex_at h key m = h.lower (trim (text_at key m)) == "codex"

-- `type: codex` says where the account comes from, not what plan it has.
codex_payload : Host → Fields → Fields
codex_payload h payload =
    if codex_at h "type" payload
    then remove_field "type"
        (set "source_type" (str "codex") (set "export_type" (str "codex") payload))
    else payload

codex_source : Host → Fields → Fields
codex_source h payload =
    if codex_at h "export_type" payload then set "source_type" (str "codex") payload else payload

plan_payload : Fields → Fields
plan_payload payload =
    if not (trim (text_at "plan_type" payload) == "") && text_at "type" payload == ""
    then set "type" (str (trim (text_at "plan_type" payload))) payload
    else payload

unfoldable pub prepare_account_payload : Host → Value → Option Fields
unfolding codex_payload codex_source plan_payload
prepare_account_payload h (obj item) =
    let token = account_payload_token item in
    let payload = set "access_token" (str token) (remove_field "accessToken" item) in
    if token == "" then none else some (plan_payload (codex_source h (codex_payload h payload)))
prepare_account_payload h _ = none

pub prepare_all : Host → List Value → List Fields
unfolding prepare_account_payload
prepare_all h [] = []
prepare_all h (v ∷ vs) =
    let rest = prepare_all h vs in
    elim (prepare_account_payload h v) [ none ↦ rest | some m ↦ m ∷ rest ]

-- The first loop of `add_account_payloads`: one payload for each token, later fields over earlier.
pub dedupe_payloads : Map Fields → List Fields → Map Fields
dedupe_payloads deduped [] = deduped
dedupe_payloads deduped (payload ∷ payloads) =
    let token = account_payload_token payload in
    dedupe_payloads
      (if token == ""
        then deduped
        else insert token
            (set "access_token" (str token)
              (merge_objects (option_or end (get token deduped)) payload))
            deduped)
      payloads

-- Adding to a count that the answer reports.
pub record Added : Type 0 where
  pub service : Service
  pub added : ℕ
  pub skipped : ℕ

count_base : Clock → String → Option Fields → Added → Added × Fields
count_base k token none a = (
  let total = a.service.pool.cumulative_total +ℤ pos 1 in
      record a {
        added = suc a.added;
        service =
            emit (save_cumulative_total total)
              (with_pool a.service (record (a.service.pool) { cumulative_total = total }));
      },
  field "created_at" (str k.now_str) end,
)
count_base k token (some current) a = (record a { skipped = suc a.skipped }, current)

-- An empty `created_at` does not hide the one that is there.
incoming_fields : Fields → Fields
incoming_fields payload =
    if text_at "created_at" payload == "" then remove_field "created_at" payload else payload

pub combine : String → Fields → Fields → Fields
unfolding incoming_fields
combine token base payload =
    let incoming = incoming_fields payload in
    let kind =
      if not (text_at "type" incoming == "")
      then text_at "type" incoming
      else if not (text_at "type" base == "")
      then text_at "type" base
      else "free" in
    set "type" (str kind) (set "access_token" (str token) (merge_objects base incoming))

abbrev store_added : String → Added → Option Fields → Added
store_added token a none = a
store_added token a (some account) = record a {
  service = with_pool a.service (put_account token account a.service.pool);
}

pub add_one : Host → Clock → String → Fields → Added → Added
unfolding count_base
add_one h k token payload a =
    let counted = count_base k token (get token a.service.pool.accounts) a in
    store_added token counted.0 (normalize_object h k.now_str (combine token counted.1 payload))

pub add_each : Host → Clock → Map Fields → Added → Added
add_each h k [] a = a
add_each h k ((token, payload) ∷ deduped) a = add_each h k deduped (add_one h k token payload a)

abbrev count_detail : ℕ → ℕ → Fields
count_detail added skipped =
    field "added" (int (pos added)) (field "skipped" (int (pos skipped)) end)

added_message : Host → ℕ → ℕ → String
added_message h added skipped = append "新增 " (
    append (h.print (int (pos added)))
      (append " 个账号，跳过 " (append (h.print (int (pos skipped))) " 个")))

pub add_deduped : Host → Clock → Map Fields → Service → Added
unfolding added_message
add_deduped h k [] s = record { service = s; added = 0; skipped = 0 }
add_deduped h k (entry ∷ deduped) s =
    let a = add_each h k (entry ∷ deduped) (record { service = s; added = 0; skipped = 0 }) in
    record a {
      service =
          emit (log (added_message h a.added a.skipped) (count_detail a.added a.skipped))
            (save_accounts_locked a.service);
    }

unfoldable pub add_account_payloads : Host → Clock → List Fields → Service → Added
unfolding dedupe_payloads add_deduped
add_account_payloads h k payloads s = add_deduped h k (dedupe_payloads [] payloads) s

unfoldable pub add_account_items : Host → Clock → List Value → Service → Added
unfolding prepare_all
add_account_items h k items s = add_account_payloads h k (prepare_all h items) s

unique : List String → List String → List String
unique seen [] = []
unique seen (t ∷ ts) =
    let rest = unique (if t == "" then seen else t ∷ seen) ts in
    if t == "" || elem t seen then rest else t ∷ rest

unfoldable pub add_accounts : Host → Clock → List String → String → Service → Added
unfolding unique
add_accounts h k tokens source_type s =
    add_account_payloads h k
      (map
        (λ t.
          field "access_token" (str t)
            (field "source_type" (str (normalize_source_type h (str source_type))) end))
        (unique [] tokens))
      s

-- Removing the accounts of the resolved tokens, with the count of those that were there. A second
-- removal of a token finds nothing, so that the source's set may be a list.
pub remove_each : List String → ℕ × Pool → ℕ × Pool
remove_each [] (n, p) = (n, p)
remove_each (t ∷ ts) (n, p) = remove_each ts (
  if is_some (get t p.accounts) then suc n else n,
  record p { accounts = remove t p.accounts; image_inflight = remove t p.image_inflight },
)

abbrev keeps_alias : List String → String → String → Bool
keeps_alias resolved old new = not (elem old resolved) && not (elem new resolved)

pub delete_resolved : List String → Pool → ℕ × Pool
delete_resolved resolved p =
    let (n, q) = remove_each resolved (0, p) in
    (n, record q { token_aliases = retain (keeps_alias resolved) q.token_aliases })

abbrev pub clamp_index : Pool → Pool
clamp_index p = record p {
  index = if nat_eq (length p.accounts) 0 then 0 else p.index % length p.accounts;
}

pub finish_delete : Host → Service → ℕ × Pool → Service × ℕ
finish_delete h s (zero, q) = (with_pool s q, 0)
finish_delete h s (suc n, q) = (
  emit
      (log (append "删除 " (append (h.print (int (pos (suc n)))) " 个账号"))
        (field "removed" (int (pos (suc n))) end))
      (save_accounts_locked (with_pool s (clamp_index q))),
  suc n,
)

pub delete_targets : Host → List String → Service → Service × ℕ
delete_targets h [] s = (s, 0)
delete_targets h (t ∷ ts) s =
    finish_delete h s (delete_resolved (map (resolve_locked s.pool) (t ∷ ts)) s.pool)

unfoldable pub delete_accounts : Host → List String → Service → Service × ℕ
delete_accounts h tokens s = delete_targets h (filterb (λ t. not (t == "")) tokens) s

-- What an account that is no longer valid becomes, where it is kept.
abbrev pub invalid_update : Fields
invalid_update = field "status" (str "异常") (field "quota" (int (pos 0)) end)

unfoldable pub remove_invalid_token :
    Host → Config → Clock → String → String → Bool → Service → Service × Bool
remove_invalid_token h c k access_token event quiet s =
    if not c.auto_remove_invalid_accounts
    then ((update_account h c k access_token invalid_update quiet s).0, false)
    else (let (q, removed) = delete_accounts h (access_token ∷ []) s in
        if ltb 0 removed
        then (
          emit (log "自动移除异常账号" (field "source" (str event) (token_detail h access_token))) q,
          true,
        )
        else if access_token == ""
        then (q, false)
        else ((update_account h c k access_token invalid_update quiet q).0, false))
