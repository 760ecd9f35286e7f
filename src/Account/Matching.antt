-- ===== src/Account/Matching.antt =====
-- src/services/account_service.rs: which accounts may serve a request.
pub mod Candidates
use model2api.Common.{
  String, Bool, true, false, not, ◌&&◌, ◌||◌, Option, none, some, List, [], ◌∷◌, ℤ, pos, ltb_ℤ,
  max_ℤ, ◌==◌, if◌then◌else◌, elem, filterb, option_or,
}
use model2api.Common.Maps.{Map, get}
use model2api.Json.{Value, null, str, Fields, Host, get_field, text_at, int_at, bool_at, s}
use model2api.Account.Normalize.{normalize_account_type, normalize_source_type}
use model2api.Account.State.{Pool, Config}

unfoldable pub is_image_account_available : Fields → Bool
is_image_account_available account =
    let status = text_at "status" account in
    if status == "禁用" || status == "限流" || status == "异常"
    then false
    else if bool_at "image_quota_unknown" account
    then true
    else ltb_ℤ (pos 0) (int_at "quota" account)

-- `plan_type.filter(|s| !s.is_empty())`
abbrev nonempty : Option String → Option String
nonempty none = none
nonempty (some t) = if t == "" then none else some t

abbrev pub field_or_null : String → Fields → Value
field_or_null key m = option_or null (get_field key m)

abbrev same_plan : Host → Option String → Option String → Bool
same_plan h (some np) (some na) = h.lower np == h.lower na
same_plan h _ _ = false

unfoldable pub account_matches_plan_type : Host → Fields → Option String → Bool
account_matches_plan_type h account plan_type = elim (nonempty plan_type) [
  | none ↦ true
  | some plan ↦
      same_plan h (normalize_account_type h (str plan))
        (normalize_account_type h (field_or_null "type" account))
]

unfoldable pub account_matches_source_type : Host → Fields → Option String → Bool
account_matches_source_type h account source_type = elim (nonempty source_type) [
  | none ↦ true
  | some source ↦
      normalize_source_type h (field_or_null "source_type" account)
      == normalize_source_type h (str source)
]

-- `plan_types.iter().filter_map(normalize_account_type)` contains the account's own type.
some_plan : Host → String → List String → Bool
some_plan h na [] = false
some_plan h na (plan ∷ plans) =
    elim (normalize_account_type h (str plan)) [ none ↦ false | some np ↦ np == na ]
    || some_plan h na plans

unfoldable pub account_matches_any_plan_type : Host → Fields → List String → Bool
unfolding some_plan
account_matches_any_plan_type h account [] = true
account_matches_any_plan_type h account (plan ∷ plans) =
    elim (normalize_account_type h (field_or_null "type" account)) [
      | none ↦ false
      | some na ↦ some_plan h na (plan ∷ plans)
    ]

-- What a request asks of an account.
pub record Request : Type 0 where
  pub excluded : List String
  pub plan_type : Option String
  pub source_type : Option String
  pub plan_types : List String

unfoldable pub matches : Host → Request → Fields → Bool
unfolding is_image_account_available account_matches_plan_type account_matches_any_plan_type
    account_matches_source_type
matches h r item =
    is_image_account_available item
    && account_matches_plan_type h item r.plan_type
    && account_matches_any_plan_type h item r.plan_types
    && account_matches_source_type h item r.source_type

-- The tokens of the accounts that pass a test, less the excluded ones.
unfoldable pub tokens_where : Host → (Fields → Bool) → List String → Map Fields → List String
tokens_where h test excluded [] = []
tokens_where h test excluded ((k, item) ∷ m) =
    let t = s h item "access_token" in
    let rest = tokens_where h test excluded m in
    if test item && not (t == "") && not (elem t excluded) then t ∷ rest else rest

unfoldable pub list_ready_candidate_tokens : Host → Request → Pool → List String
list_ready_candidate_tokens h r p = tokens_where h (matches h r) r.excluded p.accounts

-- The slots in use, 0 where the map has no entry.
abbrev pub inflight : Pool → String → ℤ
inflight p t = option_or (pos 0) (get t p.image_inflight)

abbrev pub max_concurrency : Config → ℤ
max_concurrency c = max_ℤ c.image_account_concurrency (pos 1)

unfoldable pub list_available_candidate_tokens : Host → Config → Request → Pool → List String
list_available_candidate_tokens h c r p =
    filterb (λ t. ltb_ℤ (inflight p t) (max_concurrency c)) (list_ready_candidate_tokens h r p)
