-- ===== src/Account/Run.antt =====
-- The account pool over any interleaving of the calls that change it. Each step is one critical
-- section under the pool's lock, with its own reading of the clock: `mark_image_result` is two of them.
use model2api.Common.{
  String, ◌≡◌, Bool, true, false, not, some, List, [], ◌∷◌, ltb, ◌==◌, if◌then◌else◌,
}
use model2api.Json.{Value, Fields, Host, Clock}
use model2api.Account.State.{Pool, Service, Config, with_pool}
use model2api.Account.Invariant.{IsValid}
use model2api.Account.Invariant.Store.{IsValid-accounts}
use model2api.Account.Matching.{Request}
use model2api.Account.Slots.{took, acquire_round, release_image_slot, choose_text_token}
use model2api.Account.Slots.Acquire.{acquire_round-Granted, accounts-choose_text_token}
use model2api.Account.Updates.{update_account, record_image_result, mark_text_used}
use model2api.Account.Updates.Keeps.{
  update_account-IsValid, record_image_result-IsValid, mark_text_used-IsValid, release-IsValid,
}
use model2api.Account.Members.{
  add_account_items, add_accounts, delete_accounts, remove_invalid_token, invalid_update,
}
use model2api.Account.Members.Adding.{add_account_payloads-Grew}
use model2api.Account.Members.Deleting.{delete_accounts-Deleted}
use model2api.Account.Refresh.{
  apply_refreshed_tokens, record_token_refresh_error, record_refresh_success,
  record_invalid_token_seen,
}
use model2api.Account.Refresh.Keeps.{
  apply_refreshed_tokens-IsValid, record_token_refresh_error-IsValid,
  record_refresh_success-IsValid, record_invalid_token_seen-IsValid,
}

pub data Step (h : Host) (c : Config) (s : Service) : Service → Type 0 where
  acquires :
      (r : Request) (t : String) (q : Pool)
      → acquire_round h c r s.pool ≡ took t q
      → Step h c s (with_pool s q)
  releases : (t : String) → Step h c s (release_image_slot t s)
  chooses_text :
      (excluded : List String) (t : String) (q : Pool)
      → choose_text_token h excluded s.pool ≡ some (t, q)
      → Step h c s (with_pool s q)
  uses_text : (k : Clock) (t : String) → Step h c s (mark_text_used h k t s)
  records_image :
      (k : Clock) (t : String) (success : Bool)
      → Step h c s (record_image_result h c k t success s).0
  updates :
      (k : Clock) (t : String) (fields : Fields) (quiet : Bool)
      → Step h c s (update_account h c k t fields quiet s).0
  adds_items : (k : Clock) (items : List Value) → Step h c s (add_account_items h k items s).service
  adds :
      (k : Clock) (tokens : List String) (source : String)
      → Step h c s (add_accounts h k tokens source s).service
  deletes : (tokens : List String) → Step h c s (delete_accounts h tokens s).0
  removes_invalid :
      (k : Clock) (t event : String) (quiet : Bool)
      → Step h c s (remove_invalid_token h c k t event quiet s).0
  refreshes :
      (k : Clock) (t : String) (answer : Fields) (event : String)
      → Step h c s (apply_refreshed_tokens h k t answer event s).0
  fails_refresh :
      (k : Clock) (t event error : String)
      → Step h c s (record_token_refresh_error h k t event error s)
  succeeds : (k : Clock) (t : String) → Step h c s (record_refresh_success h k t s)
  sees_invalid :
      (k : Clock) (t event error : String) (defer : Bool)
      → Step h c s (record_invalid_token_seen h k t event error defer s).0

pub data Run (h : Host) (c : Config) (s : Service) : Service → Type 0 where
  here : Run h c s s
  next : {t u : Service} → Run h c s t → Step h c t u → Run h c s u

IsValid-either :
    (b : Bool) (x y : Service × Bool)
    → IsValid x.0.pool
    → IsValid y.0.pool
    → IsValid (if b then x else y).0.pool
IsValid-either true x y a c = a
IsValid-either false x y a c = c

module _ (h : Host) (c : Config) where
  remove_invalid_token-IsValid :
      (k : Clock) (t event : String) (quiet : Bool) (s : Service)
      → IsValid s.pool
      → IsValid (remove_invalid_token h c k t event quiet s).0.pool
  unfolding remove_invalid_token
  remove_invalid_token-IsValid k t event quiet s v =
      let deleted = (delete_accounts-Deleted h (t ∷ []) s v).without.valid in
      IsValid-either (not c.auto_remove_invalid_accounts) _ _
        (update_account-IsValid h c k t invalid_update quiet s v)
        (IsValid-either (ltb 0 (delete_accounts h (t ∷ []) s).1) _ _ deleted (
          IsValid-either (t == "") _ _ deleted (
            update_account-IsValid h c k t invalid_update quiet (delete_accounts h (t ∷ []) s).0
              deleted)))

  chooses-IsValid :
      (excluded : List String) (t : String) (p q : Pool)
      → choose_text_token h excluded p ≡ some (t, q)
      → IsValid p
      → IsValid q
  chooses-IsValid excluded t p q e v =
      IsValid-accounts p q (accounts-choose_text_token h excluded p q t e) v

  Step-IsValid : {s t : Service} → Step h c s t → IsValid s.pool → IsValid t.pool
  Step-IsValid {s} (acquires r t q e) v =
      IsValid-accounts s.pool q (acquire_round-Granted h c r s.pool q t v e).accounts v
  Step-IsValid {s} (releases t) v = release-IsValid t s v
  Step-IsValid {s} (chooses_text excluded t q e) v = chooses-IsValid excluded t s.pool q e v
  Step-IsValid {s} (uses_text k t) v = mark_text_used-IsValid h k t s v
  Step-IsValid {s} (records_image k t success) v = record_image_result-IsValid h c k t success s v
  Step-IsValid {s} (updates k t fields quiet) v = update_account-IsValid h c k t fields quiet s v
  Step-IsValid {s} (adds_items k items) v =
      unfold add_account_items in (add_account_payloads-Grew h k _ s v).valid
  Step-IsValid {s} (adds k tokens source) v =
      unfold add_accounts in (add_account_payloads-Grew h k _ s v).valid
  Step-IsValid {s} (deletes tokens) v = (delete_accounts-Deleted h tokens s v).without.valid
  Step-IsValid {s} (removes_invalid k t event quiet) v =
      remove_invalid_token-IsValid k t event quiet s v
  Step-IsValid {s} (refreshes k t answer event) v =
      apply_refreshed_tokens-IsValid h k t answer event s v
  Step-IsValid {s} (fails_refresh k t event error) v =
      record_token_refresh_error-IsValid h k t event error s v
  Step-IsValid {s} (succeeds k t) v = record_refresh_success-IsValid h k t s v
  Step-IsValid {s} (sees_invalid k t event error defer) v =
      record_invalid_token_seen-IsValid h k t event error defer s v

  -- Whatever calls are made, in whatever order, a well-formed pool stays well formed: each account
  -- stands once, under its own token, with a status, a type and a quota that is no negative number.
  pub Run-IsValid : (s t : Service) → IsValid s.pool → Run h c s t → IsValid t.pool
  Run-IsValid s t v here = v
  Run-IsValid s t v (next {t = u} run step) = Step-IsValid step (Run-IsValid s u v run)
