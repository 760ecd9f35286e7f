-- ===== src/Account/Slots/Release.antt =====
-- `release_image_slot` gives back what `acquire_next_candidate_token` took, and both keep every slot
-- count between one and the limit.
use model2api.Common.{
  ℕ, zero, suc, ◌<◌, ◌≤◌, String, ◌≡◌, refl, true, ◌==◌, inl, inr, ℤ, pos, negsuc, ltb_ℤ, max_ℤ,
  IsI64, +ℤ-suc, -ℤ-pred, ◌+ℤ◌, ◌-ℤ◌, if◌then◌else◌, Bool-cases, ==_self, Option-cases, eq_iff,
  trim, arith, i64_half,
}
use model2api.Common.Maps.{
  get, Entries, Entries-insert, Entries-remove, Entries-get, get-insert, get-remove, contains_key,
}
use model2api.Account.State.{Pool, Config, Service}
use model2api.Account.Invariant.{InSlots}
use model2api.Account.Matching.{inflight, max_concurrency}
use model2api.Account.Resolve.{resolve_locked}
use model2api.Account.Slots.{take_slot, release_slot, release_image_slot}

-- The limit is a positive number.
pub limit_positive :
    (c : Config)
    → IsI64 c.image_account_concurrency
    → (k : ℕ) × (max_concurrency c ≡ pos (suc k)) × (suc k < i64_half)
limit_positive c h = positive c.image_account_concurrency h
  where
    positive : (z : ℤ) → IsI64 z → (k : ℕ) × (max_ℤ z (pos 1) ≡ pos (suc k)) × (suc k < i64_half)
    positive (pos zero) h = (0, refl, omega arith)
    positive (pos (suc k)) h = (k, ground arith, h)
    positive (negsuc n) h = (0, ground arith, omega arith)

-- A count that the map holds is positive, and within the limit.
held_count :
    (k : ℕ) (t : String) (z : ℤ) → InSlots (pos k) t z → (n : ℕ) × (z ≡ pos (suc n)) × (suc n ≤ k)
held_count k t (pos zero) b = absurd (omega arith)
held_count k t (pos (suc n)) b = (n, refl, omega arith)
held_count k t (negsuc n) b = absurd (omega arith)

module _ (limit : ℕ) (fits : limit < i64_half) (p : Pool) (t : String) where
  pub inflight-bounded :
      Entries (InSlots (pos limit)) p.image_inflight
      → (n : ℕ) × (inflight p t ≡ pos n) × (n ≤ limit)
  inflight-bounded b = elim (Option-cases (get t p.image_inflight)) [
    | inl absent ↦ (0, rw absent, omega arith)
    | inr (z, held) ↦
        let (n, same, le) =
          held_count limit t z (Entries-get (InSlots (pos limit)) t p.image_inflight z b held) in
        (suc n, rw held same, le)
  ]

  pub take_slot-InSlots :
      Entries (InSlots (pos limit)) p.image_inflight
      → ltb_ℤ (inflight p t) (pos limit) ≡ true
      → Entries (InSlots (pos limit)) (take_slot t p).image_inflight
  unfolding take_slot
  take_slot-InSlots b free =
      let (n, count, le) = inflight-bounded b in
      Entries-insert (InSlots (pos limit)) t (inflight p t +ℤ pos 1) p.image_inflight b
        (rw count (rw (+ℤ-suc n (ground arith)) (ground arith)))

  pub release_slot-InSlots :
      (n : ℕ)
      → inflight p t ≡ pos n
      → n ≤ limit
      → Entries (InSlots (pos limit)) p.image_inflight
      → Entries (InSlots (pos limit)) (release_slot t p).image_inflight
  unfolding release_slot
  release_slot-InSlots zero count le b =
      rw (count, release_slot) (Entries-remove (InSlots (pos limit)) t p.image_inflight b)
  release_slot-InSlots (suc zero) count le b =
      rw (count, release_slot) (Entries-remove (InSlots (pos limit)) t p.image_inflight b)
  release_slot-InSlots (suc (suc n)) count le b =
      let more : ltb_ℤ (pos 1) (pos (suc (suc n))) ≡ true = ground arith in
      rw (count, release_slot)
        (rw more (
          Entries-insert (InSlots (pos limit)) t (pos (suc (suc n)) -ℤ pos 1) p.image_inflight b
            (rw (-ℤ-pred (suc n) (omega arith)) (ground arith))))

pub inflight-take_slot :
    (t u : String) (p : Pool)
    → inflight (take_slot t p) u ≡ (if t == u then inflight p t +ℤ pos 1 else inflight p u)
unfolding take_slot
inflight-take_slot t u p = rw get-insert (ground arith)

pub inflight-release_slot :
    (t u : String) (p : Pool)
    → inflight (release_slot t p) u ≡ (
        if t == u
        then (if ltb_ℤ (pos 1) (inflight p t) then inflight p t -ℤ pos 1 else pos 0)
        else inflight p u)
unfolding release_slot
inflight-release_slot t u p = elim (Bool-cases (ltb_ℤ (pos 1) (inflight p t))) [
  | inl more ↦ rw (more) (rw get-insert (ground arith))
  | inr last ↦ rw (last) (rw get-remove (ground arith))
]

-- One more and one less.
up_down :
    (n limit : ℕ)
    → n < limit
    → limit < i64_half
    → (if ltb_ℤ (pos 1) (pos n +ℤ pos 1) then pos n +ℤ pos 1 -ℤ pos 1 else pos 0) ≡ pos n
up_down n limit a b = rw (+ℤ-suc n (omega arith)) (rw (-ℤ-pred n (omega arith)) (ground arith))

pub release-take :
    (limit n : ℕ) (p : Pool) (t u : String)
    → limit < i64_half
    → n < limit
    → inflight p t ≡ pos n
    → inflight (release_slot t (take_slot t p)) u ≡ inflight p u
release-take limit n p t u fits le count =
    rw
      (
        inflight-release_slot t u (take_slot t p),
        inflight-take_slot t t p,
        inflight-take_slot t u p,
        ==_self t,
      )
      (elim (Bool-cases (t == u)) [
        | inl same ↦ rw same (rw (← (eq_iff t u).0 same, count) (up_down n limit le fits))
        | inr other ↦ rw (other)
      ])

-- An account's own token, written with no space around it, resolves to itself.
pub resolve_locked-account :
    (p : Pool) (t : String) → contains_key t p.accounts ≡ true → trim t ≡ t → resolve_locked p t ≡ t
unfolding resolve_locked
resolve_locked-account p t held trimmed = rw trimmed (ground (arith))

pub accounts-release_image_slot :
    (t : String) (s : Service) → (release_image_slot t s).pool.accounts ≡ s.pool.accounts
unfolding release_image_slot release_slot
accounts-release_image_slot t s = ground arith

pub aliases-release_image_slot :
    (t : String) (s : Service) → (release_image_slot t s).pool.token_aliases ≡ s.pool.token_aliases
unfolding release_image_slot release_slot
aliases-release_image_slot t s = ground arith
