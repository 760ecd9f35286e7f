-- ===== src/Tests/Changes.antt =====
-- The calls that change the accounts, on the pool of the other tests.
use model2api.Common.{
  ℕ, ◌≡◌, refl, true, false, ◌&&◌, some, none, List, [], ◌∷◌, pos, if◌then◌else◌, trim,
}
use model2api.Common.Maps.{get, remove}
use model2api.Json.{int, str, Fields, end, field, Clock, get_field}
use model2api.Account.Invariant.{IsValid}
use model2api.Account.Normalize.{plain_host}
use model2api.Account.Resolve.{resolve_locked}
use model2api.Account.Slots.{release_image_slot, release_slot}
use model2api.Account.Updates.{mark_image_result, is_limited}
use model2api.Account.Updates.Outcome.{Spent, mark_image_result-Spent}
use model2api.Account.Members.{add_account_payloads, delete_accounts}
use model2api.Account.Members.Adding.{
  names, distinct_tokens, Grew, start, add_account_payloads-Grew,
}
use model2api.Account.Members.Deleting.{Deleted, targets, delete_accounts-Deleted}
use model2api.Account.Refresh.{apply_refreshed_tokens, new_token_of}
use model2api.Account.Refresh.Rotates.{HandedOver, apply_refreshed_tokens-HandedOver}
use model2api.Account.Normalize.{normalize_object}
use model2api.Account.Refresh.{refreshed_fields}
use model2api.Account.Invariant.{IsAccount}
use model2api.Account.Updates.{record_image_result}
use model2api.Account.Run
use model2api.Account.Run.{Run-IsValid}
use model2api.Tests.Accounts.{two_accounts, service, config, account_of, two_accounts-IsValid}

abbrev clock : Clock
clock = record {
  now_str = "2026-01-01 00:00:00";
  now_local_str = "2026-01-01 08:00:00";
  now_rfc3339 = "2026-01-01T00:00:00+00:00";
  now_millis = pos 1_767_225_600_000;
}

abbrev answer : Fields
answer = field "access_token" (str "a2") (field "refresh_token" (str "r") end)

resolves_to_a : resolve_locked two_accounts "old" ≡ "a"
unfolding resolve_locked get trim
resolves_to_a = refl

apply_refreshed_tokens-HandedOver_example :
    let r = apply_refreshed_tokens plain_host clock "old" answer "keepalive" service in
    let new = new_token_of (resolve_locked two_accounts "old") answer in
    (account : Fields) × (normalize_object plain_host clock.now_str
        (refreshed_fields clock.now_rfc3339 new answer (account_of "a" 2))
      ≡ some account)
    × IsAccount new account
    × HandedOver two_accounts r.0.pool (resolve_locked two_accounts "old") new account
    × (r.1 ≡ new_token_of (resolve_locked two_accounts "old") answer)
unfolding resolve_locked get trim get_field
apply_refreshed_tokens-HandedOver_example =
    apply_refreshed_tokens-HandedOver plain_host clock "old" answer (account_of "a" 2) "keepalive"
      service two_accounts-IsValid refl refl refl

abbrev payloads : List Fields
payloads =
    field "access_token" (str " c ") end
    ∷ field "accessToken" (str "a") end
    ∷ field "access_token" (str "c") (field "type" (str "plus") end)
    ∷ []

add_account_payloads-Grew_example :
    Grew
      (λ u. names u payloads)
      (distinct_tokens (λ u. false) payloads)
      (start service)
      (add_account_payloads plain_host clock payloads service)
add_account_payloads-Grew_example =
    add_account_payloads-Grew plain_host clock payloads service two_accounts-IsValid

delete_accounts-Deleted_example :
    let r = delete_accounts plain_host ("old" ∷ "" ∷ []) service in
    Deleted (targets ("old" ∷ "" ∷ []) two_accounts) two_accounts r.0.pool r.1
delete_accounts-Deleted_example =
    delete_accounts-Deleted plain_host ("old" ∷ "" ∷ []) service two_accounts-IsValid

mark_image_result-Spent_example :
    let r = release_image_slot "old" service in
    let t = resolve_locked r.pool "old" in
    (account : Fields) × (q : ℕ) × (get_field "quota" (account_of "a" 2) ≡ some (int (pos q)))
    × Spent (account_of "a" 2) account q
    × (let dropped = is_limited account && false in
        let m = mark_image_result plain_host config clock "old" true service in
        (get t m.0.pool.accounts ≡ (if dropped then none else some account))
        × (m.1 ≡ (if dropped then none else some account)))
unfolding resolve_locked release_image_slot release_slot get remove trim get_field
mark_image_result-Spent_example =
    mark_image_result-Spent plain_host config clock "old" (account_of "a" 2) service refl
      two_accounts-IsValid refl refl

Run-IsValid_example :
    IsValid
      (record_image_result plain_host config clock "a" true
        (release_image_slot "a" (delete_accounts plain_host ("b" ∷ []) service).0)).0.pool
Run-IsValid_example = Run-IsValid plain_host config service _ two_accounts-IsValid (
    Run.next (Run.next (Run.next Run.here (Run.deletes ("b" ∷ []))) (Run.releases "a"))
      (Run.records_image clock "a" true))
