-- ===== src/Account/Refresh/Rotates.antt =====
-- What a refresh that brings a new access token does to the pool.
use model2api.Common.{
  String, ◌≡◌, refl, true, false, some, none, inl, inr, Bool-cases, Option-cases, ◌==◌,
  if◌then◌else◌, arith, eq_iff, ℤ, pos, ◌+ℤ◌, option_or,
}
use model2api.Common.Maps.{Map, get, remove, contains_key, get-insert, get-remove}
use model2api.Json.{Fields, Host, Clock}
use model2api.Account.State.{Pool, Service, save_accounts_locked}
use model2api.Account.Invariant.{IsAccount, IsValid}
use model2api.Account.Invariant.Store.{get-IsAccount, normalize_object-total}
use model2api.Account.Normalize.{normalize_object}
use model2api.Account.Matching.{inflight}
use model2api.Account.Resolve.{resolve_locked}
use model2api.Account.Resolve.Rotation.{Rotated, resolve_locked-Rotated}
use model2api.Account.Updates.{is_zero}
use model2api.Account.Refresh.{
  refreshed_fields, move_slots, rotate, store_refreshed, refresh_found, apply_refreshed_tokens,
  new_token_of,
}
use model2api.Account.Refresh.Keeps.{token-refreshed_fields}

rotate-Rotated :
    (old new : String) (account : Fields) (p : Pool)
    → contains_key old p.accounts ≡ true
    → (old == "") ≡ false
    → (new == old) ≡ false
    → Rotated p (rotate old new account p) old new
unfolding rotate
rotate-Rotated old new account p held named differ = record {
  was_account = held;
  removed = ground (
    arith,
    get-insert new old account (remove old p.accounts),
    get-remove old old p.accounts,
    eq_iff old old,
  );
  added = ground (arith, get-insert new new account (remove old p.accounts), eq_iff new new);
  kept = λ t a b.
      ground (arith, get-insert new t account (remove old p.accounts), get-remove old t p.accounts);
  aliased = ground (arith, get-insert old old new p.token_aliases, eq_iff old old);
  alias_kept = λ t a. ground (arith, get-insert old t new p.token_aliases);
  nonempty = named;
}

abbrev slots : String → Map ℤ → ℤ
slots t m = option_or (pos 0) (get t m)

-- The slots after a move: the old token has none, the new one has both, and no other changes.
pub slots-move_slots :
    (old new t : String) (m : Map ℤ)
    → (new == old) ≡ false
    → slots t (move_slots old new m) ≡ (
        if old == t
        then pos 0
        else if new == t
        then (if is_zero (slots old m) then slots new m else slots new m +ℤ slots old m)
        else slots t m)
unfolding move_slots
slots-move_slots old new t m differ = elim (Option-cases (get old m)) [
  | inl absent ↦ rw (absent, move_slots) (ground (arith, absent, eq_iff old t, eq_iff new t))
  | inr (n, held) ↦ elim (Bool-cases (is_zero n)) [
    | inl zero' ↦
        rw (held, move_slots)
          (rw zero' (rw get-remove (ground (arith, held, zero', eq_iff new t, eq_iff old t))))
    | inr some' ↦
        rw (held, move_slots)
          (rw some' (
            rw (get-insert new t _ (remove old m), get-remove old t m, get-remove old new m)
              (ground
                (arith, held, some', eq_iff new t, eq_iff old t, eq_iff old new, eq_iff new old))))
  ]
]

-- The effect of a rotation on the accounts, of which `account` is the one that is stored, on the holders
-- of the old token, on the slots, and on the rest of the pool.
pub record HandedOver (p q : Pool) (old new : String) (account : Fields) : Type 0 where
  pub stored : get new q.accounts ≡ some account
  pub dropped : get old q.accounts ≡ none
  pub untouched :
      (t : String) → (old == t) ≡ false → (new == t) ≡ false → get t q.accounts ≡ get t p.accounts
  pub same_index : q.index ≡ p.index
  pub same_total : q.cumulative_total ≡ p.cumulative_total
  pub rotated : Rotated p q old new
  pub holders : (a : String) → resolve_locked p a ≡ old → resolve_locked q a ≡ new
  pub freed : inflight q old ≡ pos 0
  pub moved :
      inflight q new
      ≡ (if is_zero (inflight p old) then inflight p new else inflight p new +ℤ inflight p old)
  pub others : (t : String) → (old == t) ≡ false → (new == t) ≡ false → inflight q t ≡ inflight p t

rotate-HandedOver :
    (old new : String) (account : Fields) (p : Pool)
    → contains_key old p.accounts ≡ true
    → (old == "") ≡ false
    → (new == old) ≡ false
    → HandedOver p (rotate old new account p) old new account
unfolding rotate
rotate-HandedOver old new account p held named differ =
    let r = rotate-Rotated old new account p held named differ in
    record {
      stored = ground (arith, get-insert new new account (remove old p.accounts), eq_iff new new);
      dropped = ground (
        arith,
        get-insert new old account (remove old p.accounts),
        get-remove old old p.accounts,
        eq_iff old old,
      );
      untouched = λ t a b.
          ground
            (arith, get-insert new t account (remove old p.accounts), get-remove old t p.accounts);
      same_index = refl;
      same_total = refl;
      rotated = r;
      holders = resolve_locked-Rotated p (rotate old new account p) old new r;
      freed =
          rw (slots-move_slots old new old p.image_inflight differ)
            (ground (arith, eq_iff old old));
      moved =
          rw (slots-move_slots old new new p.image_inflight differ)
            (ground (arith, eq_iff new new, eq_iff old new, eq_iff new old));
      others = λ t a b. rw (slots-move_slots old new t p.image_inflight differ) (rw (a, b));
    }

store_refreshed_rotated :
    (h : Host) (event old new : String) (s : Service) (account : Fields)
    → contains_key old s.pool.accounts ≡ true
    → (old == "") ≡ false
    → (new == old) ≡ false
    → let r = store_refreshed h event old new s (some account) in
      HandedOver s.pool r.0.pool old new account × (r.1 ≡ new)
unfolding store_refreshed save_accounts_locked
store_refreshed_rotated h event old new s account held named differ =
    rw (differ) (rotate-HandedOver old new account s.pool held named differ, refl)

-- A refresh that brings another access token for an account of the pool answers the new token and
-- hands everything over: the old token is no account any more and the new one is, with the refreshed
-- fields of the account, normalised, and under its own token; whatever resolved to the old token
-- resolves to the new one; the slots in use count for the new token on top of its own, and the old one
-- has none. No other token's account, alias or slots change, nor the index and the cumulative total.
pub apply_refreshed_tokens-HandedOver :
    (h : Host) (k : Clock) (a : String) (answer current : Fields) (event : String) (s : Service)
    → IsValid s.pool
    → get (resolve_locked s.pool a) s.pool.accounts ≡ some current
    → (new_token_of (resolve_locked s.pool a) answer == "") ≡ false
    → (new_token_of (resolve_locked s.pool a) answer == resolve_locked s.pool a) ≡ false
    → let old = resolve_locked s.pool a in
      let new = new_token_of old answer in
      let r = apply_refreshed_tokens h k a answer event s in
      (account : Fields) × (normalize_object h k.now_str
          (refreshed_fields k.now_rfc3339 new answer current)
        ≡ some account)
      × IsAccount new account
      × HandedOver s.pool r.0.pool old new account
      × (r.1 ≡ new)
unfolding apply_refreshed_tokens refresh_found
apply_refreshed_tokens-HandedOver h k a answer current event s v e named differ =
    let old = resolve_locked s.pool a in
    let new = new_token_of old answer in
    let m = refreshed_fields k.now_rfc3339 new answer current in
    let (account, done, is) =
      normalize_object-total h k.now_str new m
        (token-refreshed_fields k.now_rfc3339 new answer current) named in
    let (handed, answered) =
      store_refreshed_rotated h event old new s account (rw e)
        (get-IsAccount s.pool old current v e).named differ in
    (
      account,
      done,
      is,
      rw (e, refresh_found) (rw (named, done) handed),
      rw (e, refresh_found) (rw (named, done) answered),
    )
