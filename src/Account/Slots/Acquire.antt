-- ===== src/Account/Slots/Acquire.antt =====
-- What a round of `acquire_next_candidate_token` grants, and when it fails or waits.
use native.Mathlib.Nat.{mod-lt}
use model2api.Common.{
  some, inl, inr, Bool-cases, ℕ, zero, suc, ◌%◌, ◌<◌, String, ◌≡◌, ◌≢◌, refl, sym, subst, true,
  false, Bool, List, [], ◌∷◌, ◌==◌, pos, ltb_ℤ, ◌+ℤ◌, eq_iff, elem, length, get_elem?, option_or,
  filterb, arith,
}
use model2api.Common.Maps.{get-insert}
use model2api.Json.{Host}
use model2api.Account.State.{Pool, Config}
use model2api.Account.Invariant.{IsValid}
use model2api.Account.Matching.{
  Request, matches, tokens_where, inflight, max_concurrency, list_ready_candidate_tokens,
  list_available_candidate_tokens,
}
use model2api.Account.Matching.Candidates.{Serves, list_ready_candidate_tokens_iff}
use model2api.Account.Slots.{
  failed, took, waits, pick, take_slot, acquire_from, acquire_round, no_quota, choose_text_token,
  text_from, serves_text,
}

elem-get_elem? :
    (xs : List String) (i : ℕ) → i < length xs → elem (option_or "" (get_elem? xs i)) xs ≡ true
elem-get_elem? [] i h = elim h [ ]
elem-get_elem? (x ∷ xs) zero h = ground (arith, eq_iff x x)
elem-get_elem? (x ∷ xs) (suc i) h = ground (arith, elem-get_elem? xs i)

-- The index falls into every list that is not empty.
pub pick-elem : (t : String) (ts : List String) (i : ℕ) → elem (pick (t ∷ ts) i) (t ∷ ts) ≡ true
pick-elem t ts i = elem-get_elem? (t ∷ ts) (i % suc (length ts)) (mod-lt i (omega arith))

pub elem-filterb :
    (q : String → Bool) (xs : List String) (t : String)
    → elem t (filterb q xs) ≡ true
    → (elem t xs ≡ true) × (q t ≡ true)
elem-filterb q [] t h = absurd (cc)
elem-filterb q (x ∷ xs) t h = ground (arith, eq_iff x t, elem-filterb q xs t)

-- The slot that a round grants.
pub record Granted (h : Host) (c : Config) (r : Request) (p : Pool) (t : String) (q : Pool)
    : Type 0 where
  pub serves : Serves (matches h r) r.excluded p.accounts t
  pub free : ltb_ℤ (inflight p t) (max_concurrency c) ≡ true
  pub counted : inflight q t ≡ inflight p t +ℤ pos 1
  pub others : (u : String) → (t == u) ≡ false → inflight q u ≡ inflight p u
  pub accounts : q.accounts ≡ p.accounts

took_cases :
    (r : Request) (p : Pool) (ready available : List String) {t : String} {q : Pool}
    → acquire_from r p ready available ≡ took t q
    → (elem t available ≡ true) × (q ≡ take_slot t p)
unfolding acquire_from
took_cases r p [] available e = absurd (cc)
took_cases r p (x ∷ ready) [] e = absurd (cc)
took_cases r p (x ∷ ready) (u ∷ available) {t} {q} e =
    let same : pick (u ∷ available) p.index ≡ t = cc in
    (
      subst (λ x. elem x (u ∷ available) ≡ true) same (pick-elem u available p.index),
      sym (subst (λ x. take_slot x p ≡ q) same (cc)),
    )

take_slot_self : (t : String) (p : Pool) → inflight (take_slot t p) t ≡ inflight p t +ℤ pos 1
unfolding take_slot
take_slot_self t p =
    ground (arith, get-insert t t (inflight p t +ℤ pos 1) p.image_inflight, eq_iff t t)

take_slot_other :
    (t : String) (p : Pool) (u : String)
    → (t == u) ≡ false
    → inflight (take_slot t p) u ≡ inflight p u
unfolding take_slot
take_slot_other t p u e = rw (get-insert t u (inflight p t +ℤ pos 1) p.image_inflight, e)

-- A round that hands out a token takes one of its slots, and one was free.
pub acquire_round-take_slot :
    (h : Host) (c : Config) (r : Request) (p q : Pool) (t : String)
    → acquire_round h c r p ≡ took t q
    → (q ≡ take_slot t p) × (ltb_ℤ (inflight p t) (max_concurrency c) ≡ true)
unfolding acquire_round list_available_candidate_tokens
acquire_round-take_slot h c r p q t e =
    let picked =
      took_cases r p (list_ready_candidate_tokens h r p) (list_available_candidate_tokens h c r p)
        e in
    (
      picked.1,
      (elem-filterb (λ u. ltb_ℤ (inflight p u) (max_concurrency c))
          (list_ready_candidate_tokens h r p) t picked.0).1,
    )

-- A token that a round hands out is that of a matching account which was not excluded and had a free
-- slot; exactly this token's count goes up, by one, and the accounts stay as they are.
pub acquire_round-Granted :
    (h : Host) (c : Config) (r : Request) (p q : Pool) (t : String)
    → IsValid p
    → acquire_round h c r p ≡ took t q
    → Granted h c r p t q
unfolding acquire_round list_available_candidate_tokens
acquire_round-Granted h c r p q t v e =
    let picked =
      took_cases r p (list_ready_candidate_tokens h r p) (list_available_candidate_tokens h c r p)
        e in
    let held =
      elem-filterb (λ u. ltb_ℤ (inflight p u) (max_concurrency c))
        (list_ready_candidate_tokens h r p) t picked.0 in
    rw picked.1 (record {
      serves = (list_ready_candidate_tokens_iff h r p t v).0 held.0;
      free = held.1;
      counted = take_slot_self t p;
      others = take_slot_other t p;
      accounts = unfold take_slot in refl;
    })

failed_cases :
    (r : Request) (p : Pool) (ready available : List String) (m : String)
    → acquire_from r p ready available ≡ failed m
    → (ready ≡ []) × (m ≡ no_quota r)
unfolding acquire_from
failed_cases r p [] available m e = (refl, cc)
failed_cases r p (x ∷ ready) [] m e = absurd (cc)
failed_cases r p (x ∷ ready) (u ∷ available) m e = absurd (cc)

waits_cases :
    (r : Request) (p : Pool) (ready available : List String)
    → acquire_from r p ready available ≡ waits
    → (ready ≢ []) × (available ≡ [])
unfolding acquire_from
waits_cases r p [] available e = absurd (cc)
waits_cases r p (x ∷ ready) [] e = (λ z. cc, refl)
waits_cases r p (x ∷ ready) (u ∷ available) e = absurd (cc)

elem-filterb-intro :
    (q : String → Bool) (xs : List String) (t : String)
    → elem t xs ≡ true
    → q t ≡ true
    → elem t (filterb q xs) ≡ true
elem-filterb-intro q [] t h e = h
elem-filterb-intro q (x ∷ xs) t h e = ground (arith, eq_iff x t, elem-filterb-intro q xs t)

served :
    (r : Request) (p : Pool) (t : String) (ready available : List String)
    → elem t ready ≡ true
    → elem t available ≡ true
    → (u : String) × (q : Pool) × (acquire_from r p ready available ≡ took u q)
unfolding acquire_from
served r p t [] available a b = absurd (cc)
served r p t (x ∷ ready) [] a b = absurd (cc)
served r p t (x ∷ ready) (u ∷ available) a b = (pick (u ∷ available) p.index, _, refl)

-- A round neither fails nor waits where it could serve: if some account matches the request, is not
-- excluded and has a free slot, then the round hands out a token.
pub acquire_round-Serves :
    (h : Host) (c : Config) (r : Request) (p : Pool) (t : String)
    → IsValid p
    → Serves (matches h r) r.excluded p.accounts t
    → ltb_ℤ (inflight p t) (max_concurrency c) ≡ true
    → (u : String) × (q : Pool) × (acquire_round h c r p ≡ took u q)
unfolding acquire_round
acquire_round-Serves h c r p t v serves free =
    served r p t (list_ready_candidate_tokens h r p) (list_available_candidate_tokens h c r p) ready
      available
  where
    ready : elem t (list_ready_candidate_tokens h r p) ≡ true
    ready = (list_ready_candidate_tokens_iff h r p t v).1 serves

    available : elem t (list_available_candidate_tokens h c r p) ≡ true
    available =
        unfold list_available_candidate_tokens in
        elem-filterb-intro (λ u. ltb_ℤ (inflight p u) (max_concurrency c))
          (list_ready_candidate_tokens h r p) t ready free

-- A round fails only where no account in the pool matches the request outside the excluded tokens,
-- and it says so.
pub acquire_round_fails :
    (h : Host) (c : Config) (r : Request) (p : Pool) (m : String)
    → IsValid p
    → acquire_round h c r p ≡ failed m
    → ((t : String) → ¬ Serves (matches h r) r.excluded p.accounts t) × (m ≡ no_quota r)
unfolding acquire_round
acquire_round_fails h c r p m v e =
    let (empty, says) =
      failed_cases r p (list_ready_candidate_tokens h r p) (list_available_candidate_tokens h c r p)
        m e in
    (
      λ t serves.
          let ready = (list_ready_candidate_tokens_iff h r p t v).1 serves in
          let absent : elem t [] ≡ true = rw empty at ready in cc,
      says,
    )

-- A round waits only where accounts match the request and every one of them has all its slots in use.
pub acquire_round_waits :
    (h : Host) (c : Config) (r : Request) (p : Pool)
    → IsValid p
    → acquire_round h c r p ≡ waits
    → ((t : String) × Serves (matches h r) r.excluded p.accounts t)
      × ((t : String)
          → Serves (matches h r) r.excluded p.accounts t
          → ltb_ℤ (inflight p t) (max_concurrency c) ≡ false)
acquire_round_waits h c r p v e = (
  first (list_ready_candidate_tokens h r p) refl,
  λ t serves. elim (Bool-cases (ltb_ℤ (inflight p t) (max_concurrency c))) [
    | inl free ↦ let (u, q, took') = acquire_round-Serves h c r p t v serves free in cc
    | inr full ↦ full
  ],
)
  where
    held : (list_ready_candidate_tokens h r p ≢ []) × (list_available_candidate_tokens h c r p ≡ [])
    held =
        waits_cases r p (list_ready_candidate_tokens h r p)
          (list_available_candidate_tokens h c r p) (unfold acquire_round in e)

    first :
        (xs : List String)
        → list_ready_candidate_tokens h r p ≡ xs
        → (t : String) × Serves (matches h r) r.excluded p.accounts t
    first [] none' = absurd (held.0 none')
    first (x ∷ xs) some' =
        (x, (list_ready_candidate_tokens_iff h r p x v).0 (rw some' (ground (arith, eq_iff x x))))

pub accounts-choose_text_token :
    (h : Host) (excluded : List String) (p q : Pool) (t : String)
    → choose_text_token h excluded p ≡ some (t, q)
    → q.accounts ≡ p.accounts
unfolding choose_text_token text_from
accounts-choose_text_token h excluded p q t e =
    from (tokens_where h serves_text excluded p.accounts) e
  where
    from : (ts : List String) → text_from p ts ≡ some (t, q) → q.accounts ≡ p.accounts
    from [] e = absurd (cc)
    from (u ∷ us) e = ground arith
