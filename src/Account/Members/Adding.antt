-- ===== src/Account/Members/Adding.antt =====
-- What adding accounts does to the pool: who is in it afterwards, and what is counted.
use model2api.Common.{
  ℕ, ◌+◌, ◌∙◌, String, ◌≡◌, refl, false, Bool, ◌||◌, Option, none, some, List, [], ◌∷◌, inl, inr,
  Bool-cases, ◌==◌, length, suc, not, ◌&&◌, eq_iff, if◌then◌else◌, option_or, arith,
}
use model2api.Common.Maps.{
  Map, get, insert, contains_key, Entries, Entries-insert, get-insert, length-insert,
}
use model2api.Json.{Fields, end, Host, Clock, str, set, merge_objects}
use model2api.Json.Laws.{field_laws}
use model2api.Account.State.{Service, save_accounts_locked}
use model2api.Account.Invariant.{IsAccount, IsValid}
use model2api.Account.Invariant.Store.{
  put_account-IsValid, normalize_object-total, IsValid-accounts,
}
use model2api.Account.Normalize.{normalize_object}
use model2api.Account.Members.{
  Added, count_base, combine, store_added, add_one, add_each, add_deduped, dedupe_payloads,
  add_account_payloads, account_payload_token,
}

-- A payload is kept under a token that is not empty.
abbrev pub IsNamed : String → Fields → Type 0
IsNamed t payload = (t == "") ≡ false

dedupe_payloads-IsNamed :
    (payloads : List Fields) (deduped : Map Fields)
    → Entries IsNamed deduped
    → Entries IsNamed (dedupe_payloads deduped payloads)
unfolding dedupe_payloads
dedupe_payloads-IsNamed [] deduped n = n
dedupe_payloads-IsNamed (payload ∷ payloads) deduped n =
    let t = account_payload_token payload in
    let m = set "access_token" (str t) (merge_objects (option_or end (get t deduped)) payload) in
    elim (Bool-cases (t == "")) [
      | inl empty ↦ rw empty (dedupe_payloads-IsNamed payloads deduped n)
      | inr named ↦ rw named (
          dedupe_payloads-IsNamed payloads (insert t m deduped)
            (Entries-insert IsNamed t m deduped n named))
    ]

-- What one or more additions do to the pool and to the counts, for the tokens `added_key`.
pub record Grew (added_key : String → Bool) (size : ℕ) (a b : Added) : Type 0 where
  pub valid : IsValid b.service.pool
  pub counted : b.added + b.skipped ≡ a.added + a.skipped + size
  pub grown : length b.service.pool.accounts + a.added ≡ length a.service.pool.accounts + b.added
  pub members :
      (u : String)
      → contains_key u b.service.pool.accounts
        ≡ (contains_key u a.service.pool.accounts || added_key u)

combine-IsAccount :
    (h : Host) (now t : String) (base payload : Fields)
    → (t == "") ≡ false
    → (account : Fields) × (normalize_object h now (combine t base payload) ≡ some account)
      × IsAccount t account
unfolding combine
combine-IsAccount h now t base payload named =
    normalize_object-total h now t (combine t base payload) (simp field_laws) named

-- One addition, for what the pool holds under the token.
add_found-Grew :
    (h : Host) (k : Clock) (t : String) (payload : Fields) (a : Added) (o : Option Fields)
    → get t a.service.pool.accounts ≡ o
    → (t == "") ≡ false
    → IsValid a.service.pool
    → Grew
        (λ u. t == u)
        1
        a
        (store_added t
          (count_base k t o a).0
          (normalize_object h k.now_str (combine t (count_base k t o a).1 payload)))
unfolding count_base
add_found-Grew h k t payload a none e named v =
    let base = (count_base k t none a).1 in
    let (account, done, is) = combine-IsAccount h k.now_str t base payload named in
    let p = (count_base k t none a).0.service.pool in
    rw done (record {
      valid = put_account-IsValid t account p is (IsValid-accounts a.service.pool p refl v);
      counted = omega arith;
      grown = ground (arith, length-insert t account a.service.pool.accounts, e);
      members = λ u. ground (arith, get-insert t u account a.service.pool.accounts);
    })
add_found-Grew h k t payload a (some current) e named v =
    let (account, done, is) = combine-IsAccount h k.now_str t current payload named in
    rw done (record {
      valid = put_account-IsValid t account a.service.pool is v;
      counted = omega arith;
      grown = ground (arith, length-insert t account a.service.pool.accounts, e);
      members = λ u. ground (arith, get-insert t u account a.service.pool.accounts);
    })

add_one-Grew :
    (h : Host) (k : Clock) (t : String) (payload : Fields) (a : Added)
    → (t == "") ≡ false
    → IsValid a.service.pool
    → Grew (λ u. t == u) 1 a (add_one h k t payload a)
unfolding add_one
add_one-Grew h k t payload a named v =
    add_found-Grew h k t payload a (get t a.service.pool.accounts) refl named v

add_each-Grew :
    (h : Host) (k : Clock) (deduped : Map Fields) (a : Added)
    → Entries IsNamed deduped
    → IsValid a.service.pool
    → Grew (λ u. contains_key u deduped) (length deduped) a (add_each h k deduped a)
unfolding add_each get
add_each-Grew h k [] a n v = record {
  valid = v;
  counted = omega arith;
  grown = refl;
  members = λ u. ground arith;
}
add_each-Grew h k ((t, payload) ∷ deduped) a n v =
    let b = add_one h k t payload a in
    let one = add_one-Grew h k t payload a n.0 v in
    let rest = add_each-Grew h k deduped b n.1 one.valid in
    record {
      valid = rest.valid;
      counted = omega (arith, one.counted, rest.counted);
      grown = omega (arith, one.grown, rest.grown);
      members = λ u. ground (arith, one.members u, rest.members u);
    }

abbrev pub start : Service → Added
start s = record { service = s; added = 0; skipped = 0 }

add_deduped-Grew :
    (h : Host) (k : Clock) (deduped : Map Fields) (s : Service)
    → Entries IsNamed deduped
    → IsValid s.pool
    → Grew (λ u. contains_key u deduped) (length deduped) (start s) (add_deduped h k deduped s)
unfolding add_deduped get save_accounts_locked
add_deduped-Grew h k [] s n v = record {
  valid = v;
  counted = refl;
  grown = refl;
  members = λ u. ground arith;
}
add_deduped-Grew h k ((t, payload) ∷ deduped) s n v =
    let grew = add_each-Grew h k ((t, payload) ∷ deduped) (start s) n v in
    record {
      valid = grew.valid;
      counted = grew.counted;
      grown = grew.grown;
      members = grew.members;
    }

-- A payload has the token, and none is blank.
abbrev pub names : String → List Fields → Bool
names u [] = false
names u (payload ∷ payloads) =
    not (u == "") && account_payload_token payload == u || names u payloads

-- The number of distinct tokens of the payloads, blank ones and those of `seen` aside.
abbrev pub distinct_tokens : (String → Bool) → List Fields → ℕ
distinct_tokens seen [] = 0
distinct_tokens seen (payload ∷ payloads) =
    let t = account_payload_token payload in
    let again = distinct_tokens seen payloads in
    let first = suc (distinct_tokens (λ u. t == u || seen u) payloads) in
    if t == "" || seen t then again else first

distinct_tokens-eq :
    (a b : String → Bool) (payloads : List Fields)
    → ((u : String) → a u ≡ b u)
    → distinct_tokens a payloads ≡ distinct_tokens b payloads
distinct_tokens-eq a b [] e = refl
distinct_tokens-eq a b (payload ∷ payloads) e =
    let t = account_payload_token payload in
    rw
      (
        e t,
        distinct_tokens-eq a b payloads e,
        distinct_tokens-eq (λ u. t == u || a u) (λ u. t == u || b u) payloads (λ u. rw (e u) refl),
      )
      refl

dedupe_payloads-names :
    (payloads : List Fields) (deduped : Map Fields) (u : String)
    → Entries IsNamed deduped
    → contains_key u (dedupe_payloads deduped payloads)
      ≡ (contains_key u deduped || names u payloads)
unfolding dedupe_payloads
dedupe_payloads-names [] deduped u n = ground arith
dedupe_payloads-names (payload ∷ payloads) deduped u n =
    let t = account_payload_token payload in
    let m = set "access_token" (str t) (merge_objects (option_or end (get t deduped)) payload) in
    elim (Bool-cases (t == "")) [
      | inl blank ↦ rw blank (
          ground (
            arith,
            dedupe_payloads-names payloads deduped u n,
            eq_iff t "",
            eq_iff u "",
            eq_iff t u,
          ))
      | inr named ↦ rw named (
          ground (
            arith,
            dedupe_payloads-names payloads (insert t m deduped) u
                (Entries-insert IsNamed t m deduped n named),
            get-insert t u m deduped,
            eq_iff t u,
            eq_iff u "",
            eq_iff t "",
          ))
    ]

length-dedupe_payloads :
    (payloads : List Fields) (deduped : Map Fields)
    → length (dedupe_payloads deduped payloads)
      ≡ length deduped + distinct_tokens (λ u. contains_key u deduped) payloads
unfolding dedupe_payloads
length-dedupe_payloads [] deduped = omega arith
length-dedupe_payloads (payload ∷ payloads) deduped =
    let t = account_payload_token payload in
    let m = set "access_token" (str t) (merge_objects (option_or end (get t deduped)) payload) in
    let added = insert t m deduped in
    let rest = length-dedupe_payloads payloads added in
    let size = length-insert t m deduped in
    elim (Bool-cases (t == "")) [
      | inl blank ↦ rw blank (length-dedupe_payloads payloads deduped)
      | inr named ↦ elim (Bool-cases (contains_key t deduped)) [
        | inl there ↦
            let same =
              distinct_tokens-eq (λ u. contains_key u added) (λ u. contains_key u deduped) payloads
                (λ u. ground (arith, get-insert t u m deduped, eq_iff t u, there)) in
            rw (named, there) (omega (arith, rest, same, (rw there at size)))
        | inr absent ↦
            let more =
              distinct_tokens-eq (λ u. contains_key u added) (λ u. t == u || contains_key u deduped)
                payloads (λ u. ground (arith, get-insert t u m deduped, eq_iff t u)) in
            rw (named, absent) (omega (arith, rest, more, (rw absent at size)))
      ]
    ]

zero_plus : (n : ℕ) → 0 + n ≡ n
zero_plus n = omega arith

length_deduped :
    (payloads : List Fields)
    → length (dedupe_payloads [] payloads) ≡ distinct_tokens (λ u. false) payloads
unfolding get
length_deduped payloads =
    length-dedupe_payloads payloads [] ∙ zero_plus (distinct_tokens (λ u. false) payloads)

names_deduped :
    (payloads : List Fields) (u : String)
    → contains_key u (dedupe_payloads [] payloads) ≡ names u payloads
unfolding get
names_deduped payloads u = dedupe_payloads-names payloads [] u tt

-- Adding accounts to a well-formed pool leaves it well formed. The pool then holds an account for
-- exactly the tokens that it held before and those, blank ones aside, that a payload has; every distinct
-- token of the payloads is counted once, as added or as skipped, and the pool has grown by the number
-- of those that were added.
pub add_account_payloads-Grew :
    (h : Host) (k : Clock) (payloads : List Fields) (s : Service)
    → IsValid s.pool
    → Grew
        (λ u. names u payloads)
        (distinct_tokens (λ u. false) payloads)
        (start s)
        (add_account_payloads h k payloads s)
unfolding add_account_payloads
add_account_payloads-Grew h k payloads s v =
    let deduped = dedupe_payloads [] payloads in
    let grew = add_deduped-Grew h k deduped s (dedupe_payloads-IsNamed payloads [] tt) v in
    record {
      valid = grew.valid;
      counted = rw (length_deduped payloads) at grew.counted;
      grown = grew.grown;
      members = λ u. rw (names_deduped payloads u) at (grew.members u);
    }
