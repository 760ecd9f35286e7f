-- ===== src/Account/Refresh/Keeps.antt =====
-- The refreshes keep the pool well formed.
use model2api.Common.{String, ◌≡◌, refl, Bool, ◌&&◌, Option, none, some, inl, inr, Bool-cases, ◌==◌}
use model2api.Common.Maps.{get}
use model2api.Json.{Fields, Host, Clock, str, get_field}
use model2api.Json.Laws.{field_laws, branch_laws}
use model2api.Account.State.{Pool, Service, save_accounts_locked}
use model2api.Account.Invariant.{IsAccount, IsValid}
use model2api.Account.Invariant.Store.{
  put_account-IsValid, drop_account-IsValid, normalize_object-token, save_changed-IsValid,
  IsValid-accounts,
}
use model2api.Account.Normalize.{normalize_object}
use model2api.Account.Resolve.{resolve_locked}
use model2api.Account.Updates.{put_account, drop_account}
use model2api.Account.Updates.Keeps.{changed-IsAccount}
use model2api.Account.Refresh.{
  copy_text, refreshed_fields, rotate, store_refreshed, refresh_found, apply_refreshed_tokens,
  new_token_of, error_found, record_token_refresh_error, success_found, record_refresh_success,
  store_only, seen_fields, seen_found, record_invalid_token_seen, should_defer_invalid_token,
}

pub token-refreshed_fields :
    (now new : String) (answer current : Fields)
    → get_field "access_token" (refreshed_fields now new answer current) ≡ some (str new)
unfolding refreshed_fields copy_text
token-refreshed_fields now new answer current = simp branch_laws

pub rotate-IsValid :
    (old new : String) (account : Fields) (p : Pool)
    → IsAccount new account
    → IsValid p
    → IsValid (rotate old new account p)
unfolding rotate
rotate-IsValid old new account p a v =
    IsValid-accounts (put_account new account (drop_account old p)) _ refl
      (put_account-IsValid new account (drop_account old p) a (drop_account-IsValid old p v))

store_refreshed-IsValid :
    (h : Host) (event old new : String) (s : Service) (o : Option Fields)
    → ((a : Fields) → o ≡ some a → IsAccount new a)
    → IsValid s.pool
    → IsValid (store_refreshed h event old new s o).0.pool
unfolding store_refreshed save_accounts_locked
store_refreshed-IsValid h event old new s none a v = v
store_refreshed-IsValid h event old new s (some account) a v = elim (Bool-cases (new == old)) [
  | inl same ↦ rw same (put_account-IsValid new account s.pool (a account refl) v)
  | inr rotated ↦ rw rotated (rotate-IsValid old new account s.pool (a account refl) v)
]

refresh_found-IsValid :
    (h : Host) (k : Clock) (old : String) (answer : Fields) (event : String) (s : Service)
    (o : Option Fields)
    → IsValid s.pool
    → IsValid (refresh_found h k old answer event s o).0.pool
unfolding refresh_found
refresh_found-IsValid h k old answer event s none v = v
refresh_found-IsValid h k old answer event s (some current) v =
    let new = new_token_of old answer in
    let m = refreshed_fields k.now_rfc3339 new answer current in
    elim (Bool-cases (new == "")) [
      | inl empty ↦ rw empty v
      | inr named ↦ rw named (
          store_refreshed-IsValid h event old new s (normalize_object h k.now_str m)
            (λ a done.
              normalize_object-token h k.now_str new m a
                (token-refreshed_fields k.now_rfc3339 new answer current) named done)
            v)
    ]

pub apply_refreshed_tokens-IsValid :
    (h : Host) (k : Clock) (t : String) (answer : Fields) (event : String) (s : Service)
    → IsValid s.pool
    → IsValid (apply_refreshed_tokens h k t answer event s).0.pool
unfolding apply_refreshed_tokens
apply_refreshed_tokens-IsValid h k t answer event s v =
    refresh_found-IsValid h k (resolve_locked s.pool t) answer event s
      (get (resolve_locked s.pool t) s.pool.accounts) v

error_found-IsValid :
    (h : Host) (k : Clock) (t error : String) (s : Service) (o : Option Fields)
    → get t s.pool.accounts ≡ o
    → IsValid s.pool
    → IsValid (error_found h k t error s o).pool
unfolding error_found
error_found-IsValid h k t error s none e v = v
error_found-IsValid h k t error s (some current) e v =
    save_changed-IsValid t s _
      (changed-IsAccount h k.now_str t s.pool current _ v e (simp field_laws)) v

pub record_token_refresh_error-IsValid :
    (h : Host) (k : Clock) (t event error : String) (s : Service)
    → IsValid s.pool
    → IsValid (record_token_refresh_error h k t event error s).pool
unfolding record_token_refresh_error
record_token_refresh_error-IsValid h k t event error s v =
    error_found-IsValid h k (resolve_locked s.pool t) error s
      (get (resolve_locked s.pool t) s.pool.accounts) refl v

store_only-IsValid :
    (t : String) (s : Service) (o : Option Fields)
    → ((a : Fields) → o ≡ some a → IsAccount t a)
    → IsValid s.pool
    → IsValid (store_only t s o).pool
unfolding store_only
store_only-IsValid t s none a v = v
store_only-IsValid t s (some account) a v = put_account-IsValid t account s.pool (a account refl) v

success_found-IsValid :
    (h : Host) (k : Clock) (t : String) (s : Service) (o : Option Fields)
    → get t s.pool.accounts ≡ o
    → IsValid s.pool
    → IsValid (success_found h k t s o).pool
unfolding success_found
success_found-IsValid h k t s none e v = v
success_found-IsValid h k t s (some current) e v =
    store_only-IsValid t s _
      (changed-IsAccount h k.now_str t s.pool current _ v e (simp field_laws)) v

pub record_refresh_success-IsValid :
    (h : Host) (k : Clock) (t : String) (s : Service)
    → IsValid s.pool
    → IsValid (record_refresh_success h k t s).pool
unfolding record_refresh_success
record_refresh_success-IsValid h k t s v =
    success_found-IsValid h k (resolve_locked s.pool t) s
      (get (resolve_locked s.pool t) s.pool.accounts) refl v

token-seen_fields :
    (k : Clock) (error : String) (m : Fields)
    → get_field "access_token" (seen_fields k error m) ≡ get_field "access_token" m
unfolding seen_fields
token-seen_fields k error m = simp field_laws

seen_found-IsValid :
    (h : Host) (k : Clock) (t event error : String) (defer : Bool) (s : Service) (o : Option Fields)
    → get t s.pool.accounts ≡ o
    → IsValid s.pool
    → IsValid (seen_found h k t event error defer s o).0.pool
unfolding seen_found
seen_found-IsValid h k t event error defer s none e v = v
seen_found-IsValid h k t event error defer s (some current) e v =
    let m = seen_fields k error current in
    let stored =
      save_changed-IsValid t s (normalize_object h k.now_str m)
        (changed-IsAccount h k.now_str t s.pool current m v e (token-seen_fields k error current))
        v in
    elim (Bool-cases (defer && should_defer_invalid_token h current k.now_millis)) [
      | inl deferred ↦ rw deferred stored
      | inr marked ↦ rw marked stored
    ]

pub record_invalid_token_seen-IsValid :
    (h : Host) (k : Clock) (t event error : String) (defer : Bool) (s : Service)
    → IsValid s.pool
    → IsValid (record_invalid_token_seen h k t event error defer s).0.pool
unfolding record_invalid_token_seen
record_invalid_token_seen-IsValid h k t event error defer s v =
    seen_found-IsValid h k (resolve_locked s.pool t) event error defer s
      (get (resolve_locked s.pool t) s.pool.accounts) refl v
