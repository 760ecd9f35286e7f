-- ===== src/Account/Stats.antt =====
-- src/services/account_service.rs: `list_accounts`, `list_tokens`, `list_limited_tokens`,
-- `get_stats` and `account_health`. A sum of `i64`s wraps, as in a release build.
use model2api.Common.{
  String, Bool, List, [], ◌∷◌, not, ◌||◌, ℤ, pos, ◌+ℤ◌, ltb_ℤ, max_ℤ, map, filterb, length,
  option_or, ◌==◌, if◌then◌else◌,
}
use model2api.Common.Maps.{keys, values}
use model2api.Json.{
  Value, Fields, Host, bool, int, str, obj, end, field, set, s, get_field, text_at, int_at, bool_at,
  as_str, bind_option,
}
use model2api.Account.State.{Pool}

unfoldable pub list_accounts : Pool → List Fields
list_accounts p = values p.accounts

unfoldable pub list_tokens : Pool → List String
list_tokens p = keys p.accounts

abbrev pub has_status : String → Fields → Bool
has_status status account = text_at "status" account == status

unfoldable pub list_limited_tokens : Host → Pool → List String
list_limited_tokens h p =
    filterb (λ t. not (t == ""))
      (map (λ a. s h a "access_token") (filterb (has_status "限流") (values p.accounts)))

abbrev pub sum_i64 : (Fields → ℤ) → List Fields → ℤ
sum_i64 f [] = pos 0
sum_i64 f (a ∷ as') = f a +ℤ sum_i64 f as'

abbrev pub count_of : (Fields → Bool) → List Fields → Value
count_of test items = int (pos (length (filterb test items)))

type_in_stats : Fields → String
type_in_stats a = option_or "unknown" (bind_option (get_field "type" a) as_str)

pub count_types : Fields → List Fields → Fields
unfolding type_in_stats
count_types by_type [] = by_type
count_types by_type (a ∷ as') =
    count_types (set (type_in_stats a) (int (int_at (type_in_stats a) by_type +ℤ pos 1)) by_type)
      as'

unfoldable pub get_stats : Pool → Fields
unfolding count_types
get_stats p =
    let items = values p.accounts in
    let normal = filterb (has_status "正常") items in
    field "total" (int (pos (length items))) (
      field "cumulative_total" (int p.cumulative_total) (
        field "active" (count_of (has_status "正常") items) (
          field "limited" (count_of (has_status "限流") items) (
            field "abnormal" (count_of (has_status "异常") items) (
              field "disabled" (count_of (has_status "禁用") items) (
                field "total_quota" (int (sum_i64 (λ a. max_ℤ (int_at "quota" a) (pos 0)) normal)) (
                  field "unlimited_quota_count" (count_of (bool_at "image_quota_unknown") normal) (
                    field "total_success" (int (sum_i64 (int_at "success") items)) (
                      field "total_fail" (int (sum_i64 (int_at "fail") items))
                        (field "by_type" (obj (count_types end items)) end))))))))))

unfoldable pub account_health : Pool → Fields
account_health p =
    let stats = get_stats p in
    let active = ltb_ℤ (pos 0) (int_at "active" stats) in
    let unlimited = ltb_ℤ (pos 0) (int_at "unlimited_quota_count" stats) in
    set "status" (str (if active then "ok" else "degraded"))
      (set "healthy" (bool (active || unlimited)) stats)
