-- ===== src/Account/Progress.antt =====
-- src/services/account_service.rs: the tables of progress of the bulk refresh and of the logins, one
-- object for each id, as init_*, update_*, finish_*, get_* and clean_*_progress keep them. The two
-- tables stand behind locks of their own, so that a call takes the table alone.
use model2api.Common.{
  ℕ, String, true, false, Option, none, some, not, ℤ, pos, ◌+ℤ◌, ltb_ℤ, max_ℤ, option_or, ◌==◌,
  if◌then◌else◌,
}
use model2api.Common.Maps.{Map, get, insert, remove}
use model2api.Json.{
  Value, Items, Fields, Host, null, bool, int, str, arr, obj, nil, cons, end, field, set, s_trim,
  get_field, int_at,
}
use model2api.Account.State.{Pool}
use model2api.Account.Resolve.{get_account}
use model2api.Account.Updates.{anonymize_token}

-- `if let Some(progress) = guard.get_mut(progress_id)`.
pub change_progress : String → (Fields → Fields) → Map Fields → Map Fields
change_progress progress_id change m = elim (get progress_id m) [
  | none ↦ m
  | some progress ↦ insert progress_id (change progress) m
]

abbrev no_counts : Fields
no_counts =
    field "正常" (int (pos 0))
      (field "限流" (int (pos 0)) (field "异常" (int (pos 0)) (field "禁用" (int (pos 0)) end)))

unfoldable pub init_refresh_progress : String → ℕ → Map Fields → Map Fields
init_refresh_progress progress_id total m =
    insert progress_id
      (field "total" (int (pos total)) (
        field "processed" (int (pos 0)) (
          field "done" (bool false) (
            field "error" null
              (field "status_counts" (obj no_counts) (field "total_quota" (int (pos 0)) end))))))
      m

-- An account that is missing counts as normal, with no quota.
pub status_of : Host → Option Fields → String
status_of h none = "正常"
status_of h (some account) =
    if s_trim h account "status" == "" then "正常" else s_trim h account "status"

pub quota_of : Option Fields → ℤ
quota_of none = pos 0
quota_of (some account) = max_ℤ (int_at "quota" account) (pos 0)

-- `init_refresh_progress` puts an object under `status_counts`, and nothing replaces it.
pub count_status : String → Option Value → Value
count_status status (some (obj counts)) =
    obj (set status (int (int_at status counts +ℤ pos 1)) counts)
count_status status other = option_or null other

pub count_refresh : String → ℤ → Fields → Fields
unfolding count_status
count_refresh status quota progress =
    let processed = set "processed" (int (int_at "processed" progress +ℤ pos 1)) progress in
    let counted =
      set "status_counts" (count_status status (get_field "status_counts" processed)) processed in
    set "total_quota" (int (int_at "total_quota" counted +ℤ quota)) counted

unfoldable pub update_refresh_progress : Host → Pool → String → String → Map Fields → Map Fields
unfolding change_progress count_refresh status_of quota_of
update_refresh_progress h p progress_id token m =
    change_progress progress_id
      (count_refresh (status_of h (get_account p token)) (quota_of (get_account p token))) m

-- finish_refresh_progress and finish_relogin_progress
pub end_progress : Option Value → Option String → Fields → Fields
end_progress result error progress =
    let done = set "done" (bool true) progress in
    let told : Fields = elim result [ none ↦ done | some r ↦ set "result" r done ] in
    elim error [ none ↦ told | some e ↦ set "error" (str e) told ]

unfoldable pub finish_refresh_progress :
    String → Option Value → Option String → Map Fields → Map Fields
unfolding change_progress end_progress
finish_refresh_progress progress_id result error m =
    change_progress progress_id (end_progress result error) m

unfoldable pub get_refresh_progress : String → Map Fields → Option Fields
get_refresh_progress progress_id m = get progress_id m

unfoldable pub clean_refresh_progress : String → Map Fields → Map Fields
clean_refresh_progress progress_id m = remove progress_id m

unfoldable pub init_relogin_progress : String → ℕ → Map Fields → Map Fields
init_relogin_progress progress_id total m =
    insert progress_id
      (field "total" (int (pos total)) (
        field "processed" (int (pos 0))
          (field "done" (bool false) (field "error" null (field "results" (arr nil) end)))))
      m

pub push : Value → Items → Items
push v nil = cons v nil
push v (cons w ws) = cons w (push v ws)

abbrev push_result : Value → Fields → Fields
push_result v progress = elim (get_field "results" progress) [
  | none ↦ progress
  | some r ↦ elim r [ arr vs ↦ set "results" (arr (push v vs)) progress | other ↦ progress ]
]

pub count_relogin : Value → Fields → Fields
unfolding push
count_relogin v progress =
    let processed = int_at "processed" progress +ℤ pos 1 in
    let told = push_result v (set "processed" (int processed) progress) in
    if not (ltb_ℤ processed (int_at "total" told)) then set "done" (bool true) told else told

unfoldable pub update_relogin_progress :
    Host → String → String → String → Option String → Map Fields → Map Fields
unfolding change_progress count_relogin
update_relogin_progress h progress_id token status error m =
    change_progress progress_id
      (count_relogin (
        obj (
          field "token" (str (anonymize_token h token)) (
            field "status" (str status)
              (field "error" (elim error [ none ↦ null | some e ↦ str e ]) end)))))
      m

unfoldable pub finish_relogin_progress :
    String → Option Value → Option String → Map Fields → Map Fields
unfolding change_progress end_progress
finish_relogin_progress progress_id result error m =
    change_progress progress_id (end_progress result error) m

unfoldable pub get_relogin_progress : String → Map Fields → Option Fields
get_relogin_progress progress_id m = get progress_id m

unfoldable pub clean_relogin_progress : String → Map Fields → Map Fields
clean_relogin_progress progress_id m = remove progress_id m
