-- ===== src/Account/Updates/Keeps.antt =====
-- The updates keep the pool well formed.
use model2api.Common.{
  String, ◌≡◌, refl, true, false, Bool, ◌&&◌, Option, none, some, inl, inr, Bool-cases, ◌==◌, ◌∙◌,
}
use model2api.Common.Maps.{get}
use model2api.Json.{Fields, Host, Clock, str, set, get_field, merge_objects}
use model2api.Json.Laws.{field_laws, branch_laws}
use model2api.Account.State.{Pool, Service, Config, save_accounts_locked}
use model2api.Account.Invariant.{IsAccount, IsValid}
use model2api.Account.Invariant.Store.{
  put_account-IsValid, drop_account-IsValid, normalize_object-token, get-IsAccount,
  save_changed-IsValid, IsValid-accounts,
}
use model2api.Account.Normalize.{normalize_object}
use model2api.Account.Resolve.{resolve_locked}
use model2api.Account.Slots.Release.{accounts-release_image_slot}
use model2api.Account.Slots.{release_image_slot}
use model2api.Account.Updates.{
  store_account, log_update, update_found, update_account, apply_quota, spend_quota, count_result,
  mark_found, mark_image_result, record_image_result, used_found, mark_text_used, is_limited,
}

store_account-IsValid :
    (h : Host) (c : Config) (t : String) (s : Service) (o : Option Fields)
    → ((a : Fields) → o ≡ some a → IsAccount t a)
    → IsValid s.pool
    → IsValid (store_account h c t s o).0.pool
unfolding store_account save_accounts_locked
store_account-IsValid h c t s none a v = v
store_account-IsValid h c t s (some account) a v =
    elim (Bool-cases (is_limited account && c.auto_remove_rate_limited_accounts)) [
      | inl drop ↦ rw drop (drop_account-IsValid t s.pool v)
      | inr keep ↦ rw keep (put_account-IsValid t account s.pool (a account refl) v)
    ]

pool-log_update :
    (h : Host) (t : String) (quiet : Bool) (r : Service × Option Fields)
    → (log_update h t quiet r).0.pool ≡ r.0.pool
unfolding log_update
pool-log_update h t quiet (s, none) = refl
pool-log_update h t true (s, some a) = refl
pool-log_update h t false (s, some a) = refl

-- What the pool holds under a token, with a change that leaves the token alone, is an account again.
pub changed-IsAccount :
    (h : Host) (now t : String) (p : Pool) (current m : Fields)
    → IsValid p
    → get t p.accounts ≡ some current
    → get_field "access_token" m ≡ get_field "access_token" current
    → (a : Fields) → normalize_object h now m ≡ some a
    → IsAccount t a
changed-IsAccount h now t p current m v e same a done =
    let at = get-IsAccount p t current v e in
    normalize_object-token h now t m a (same ∙ at.token) at.named done

update_found-IsValid :
    (h : Host) (c : Config) (k : Clock) (t : String) (updates : Fields) (quiet : Bool) (s : Service)
    (o : Option Fields)
    → get t s.pool.accounts ≡ o
    → IsValid s.pool
    → IsValid (update_found h c k t updates quiet s o).0.pool
unfolding update_found
update_found-IsValid h c k t updates quiet s none e v = v
update_found-IsValid h c k t updates quiet s (some current) e v =
    let m = set "access_token" (str t) (merge_objects current updates) in
    let at = get-IsAccount s.pool t current v e in
    rw (pool-log_update h t quiet (store_account h c t s (normalize_object h k.now_str m))) (
      store_account-IsValid h c t s (normalize_object h k.now_str m)
        (λ a done. normalize_object-token h k.now_str t m a (simp field_laws) at.named done) v)

pub update_account-IsValid :
    (h : Host) (c : Config) (k : Clock) (access_token : String) (updates : Fields) (quiet : Bool)
    (s : Service)
    → IsValid s.pool
    → IsValid (update_account h c k access_token updates quiet s).0.pool
unfolding update_account
update_account-IsValid h c k access_token updates quiet s v =
    elim (Bool-cases (access_token == "")) [
      | inl empty ↦ rw empty v
      | inr given ↦ rw given (
          update_found-IsValid h c k (resolve_locked s.pool access_token) updates quiet s
            (get (resolve_locked s.pool access_token) s.pool.accounts) refl v)
    ]

pub token-count_result :
    (b : Bool) (m : Fields)
    → get_field "access_token" (count_result b m) ≡ get_field "access_token" m
unfolding count_result spend_quota apply_quota
token-count_result true m = simp branch_laws
token-count_result false m = simp branch_laws

mark_found-IsValid :
    (h : Host) (c : Config) (k : Clock) (t : String) (success : Bool) (s : Service)
    (o : Option Fields)
    → get t s.pool.accounts ≡ o
    → IsValid s.pool
    → IsValid (mark_found h c k t success s o).0.pool
unfolding mark_found
mark_found-IsValid h c k t success s none e v = v
mark_found-IsValid h c k t success s (some current) e v =
    let used = set "last_used_at" (str k.now_local_str) current in
    store_account-IsValid h c t s (normalize_object h k.now_str (count_result success used))
      (changed-IsAccount h k.now_str t s.pool current (count_result success used) v e
        (token-count_result success used ∙ (simp field_laws)))
      v

pub release-IsValid :
    (t : String) (s : Service) → IsValid s.pool → IsValid (release_image_slot t s).pool
release-IsValid t s v =
    IsValid-accounts s.pool (release_image_slot t s).pool (accounts-release_image_slot t s) v

pub record_image_result-IsValid :
    (h : Host) (c : Config) (k : Clock) (access_token : String) (success : Bool) (s : Service)
    → IsValid s.pool
    → IsValid (record_image_result h c k access_token success s).0.pool
unfolding record_image_result
record_image_result-IsValid h c k access_token success s v =
    mark_found-IsValid h c k (resolve_locked s.pool access_token) success s
      (get (resolve_locked s.pool access_token) s.pool.accounts) refl v

mark_image_result-IsValid :
    (h : Host) (c : Config) (k : Clock) (access_token : String) (success : Bool) (s : Service)
    → IsValid s.pool
    → IsValid (mark_image_result h c k access_token success s).0.pool
unfolding mark_image_result
mark_image_result-IsValid h c k access_token success s v = elim (Bool-cases (access_token == "")) [
  | inl empty ↦ rw empty v
  | inr given ↦ rw (given) (
      record_image_result-IsValid h c k access_token success (release_image_slot access_token s)
        (release-IsValid access_token s v))
]

used_found-IsValid :
    (h : Host) (k : Clock) (t : String) (s : Service) (o : Option Fields)
    → get t s.pool.accounts ≡ o
    → IsValid s.pool
    → IsValid (used_found h k t s o).pool
unfolding used_found
used_found-IsValid h k t s none e v = v
used_found-IsValid h k t s (some current) e v =
    let used = set "last_used_at" (str k.now_local_str) current in
    save_changed-IsValid t s (normalize_object h k.now_str used)
      (changed-IsAccount h k.now_str t s.pool current used v e (simp field_laws)) v

pub mark_text_used-IsValid :
    (h : Host) (k : Clock) (access_token : String) (s : Service)
    → IsValid s.pool
    → IsValid (mark_text_used h k access_token s).pool
unfolding mark_text_used
mark_text_used-IsValid h k access_token s v = elim (Bool-cases (access_token == "")) [
  | inl empty ↦ rw empty v
  | inr given ↦ rw given (
      used_found-IsValid h k (resolve_locked s.pool access_token) s
        (get (resolve_locked s.pool access_token) s.pool.accounts) refl v)
]
