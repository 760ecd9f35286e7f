-- ===== src/Account/Slots/Bounds.antt =====
-- The slot counts over any interleaving of requests that take slots and give them back.
use model2api.Common.{suc, ◌<◌, String, ◌≡◌, true, ◌==◌, inl, inr, IsI64, Bool-cases, trim, arith}
use model2api.Common.Maps.{Entries-get, contains_key}
use model2api.Json.{Host}
use model2api.Account.State.{Pool, Config, Service, with_pool}
use model2api.Account.Invariant.{IsValid, IsAccount, IsBounded}
use model2api.Account.Matching.{Request, inflight}
use model2api.Account.Resolve.{resolve_locked}
use model2api.Account.Slots.{took, release_image_slot, acquire_round}
use model2api.Account.Slots.Acquire.{acquire_round-take_slot, acquire_round-Granted}
use model2api.Account.Slots.Release.{
  limit_positive, inflight-bounded, take_slot-InSlots, release_slot-InSlots, release-take,
  resolve_locked-account,
}

-- What a request does to the slots, under the lock.
pub data SlotStep (h : Host) (c : Config) (s : Service) : Service → Type 0 where
  acquires :
      (r : Request) (t : String) (q : Pool)
      → acquire_round h c r s.pool ≡ took t q
      → SlotStep h c s (with_pool s q)
  releases : (t : String) → SlotStep h c s (release_image_slot t s)

pub data SlotRun (h : Host) (c : Config) (s : Service) : Service → Type 0 where
  here : SlotRun h c s s
  next : {t u : Service} → SlotRun h c s t → SlotStep h c t u → SlotRun h c s u

module _ (h : Host) (c : Config) (fits : IsI64 c.image_account_concurrency) where
  acquire-IsBounded :
      (r : Request) (p q : Pool) (t : String)
      → IsBounded c p
      → acquire_round h c r p ≡ took t q
      → IsBounded c q
  acquire-IsBounded r p q t b e =
      let (shape, free) = acquire_round-take_slot h c r p q t e in
      let (k, limit, small) = limit_positive c fits in
      rw (shape, limit) (take_slot-InSlots (suc k) small p t (rw limit at b) (rw limit at free))

  release-IsBounded :
      (t : String) (s : Service) → IsBounded c s.pool → IsBounded c (release_image_slot t s).pool
  unfolding release_image_slot
  release-IsBounded t s b =
      let (k, limit, small) = limit_positive c fits in
      let t' = resolve_locked s.pool t in
      let (n, count, le) = inflight-bounded (suc k) small s.pool t' (rw limit at b) in
      let kept = release_slot-InSlots (suc k) small s.pool t' n count le (rw limit at b) in
      elim (Bool-cases (t == "")) [ inl nothing ↦ rw nothing b | inr one ↦ rw (one, limit) kept ]

  -- However requests that take slots and give them back are interleaved, no token is ever in use
  -- more often than the configured limit, and every count that is kept is at least one.
  pub SlotRun-IsBounded :
      (s u : Service) → IsBounded c s.pool → SlotRun h c s u → IsBounded c u.pool
  SlotRun-IsBounded s u b here = b
  SlotRun-IsBounded s u b (next {t = t} run (acquires r x q e)) =
      acquire-IsBounded r t.pool q x (SlotRun-IsBounded s t b run) e
  SlotRun-IsBounded s u b (next {t = t} run (releases x)) =
      release-IsBounded x t (SlotRun-IsBounded s t b run)

  -- A request that takes a slot and gives it back under the token that it was handed leaves the
  -- count of every token as it was.
  release-acquire :
      (r : Request) (s : Service) (q : Pool) (t : String)
      → IsValid s.pool
      → IsBounded c s.pool
      → acquire_round h c r s.pool ≡ took t q
      → trim t ≡ t
      → (u : String) → inflight (release_image_slot t (with_pool s q)).pool u ≡ inflight s.pool u
  unfolding release_image_slot
  release-acquire r s q t v b e trimmed u =
      let (shape, free) = acquire_round-take_slot h c r s.pool q t e in
      let granted = acquire_round-Granted h c r s.pool q t v e in
      let (k, limit, small) = limit_positive c fits in
      let (n, count, le) = inflight-bounded (suc k) small s.pool t (rw limit at b) in
      let named =
        (Entries-get IsAccount t s.pool.accounts granted.serves.item v.accounts
          granted.serves.account).named in
      let held : contains_key t q.accounts ≡ true = rw (granted.accounts, granted.serves.account) in
      let below : n < suc k = (let f = rw (limit, count) at free in ground arith) in
      rw (named, resolve_locked-account q t held trimmed, shape)
        (release-take (suc k) n s.pool t u small below count)
