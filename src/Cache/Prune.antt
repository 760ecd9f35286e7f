-- ===== src/Cache/Prune.antt =====
-- The pruning of the table of cached answers.
use model2api.Common.{
  ℕ, zero, suc, ◌≤◌, ◌<◌, String, ◌≡◌, refl, ◌∙◌, Bool, true, false, none, some, [], ◌∷◌, inl, inr,
  ltb, ◌==◌, if◌then◌else◌, Bool-cases, Option-cases, length, arith, eq_iff,
}
use model2api.Common.Maps.{
  Map, get, remove, IsDistinct, get-remove, remove-IsDistinct, length-remove, retain_absent,
  retain-IsDistinct, get-retain_passes, length-retain-le,
}
use model2api.Cache.{Entry, Inner, oldest, evict, live, prune_locked}

-- What the first entry to expire is: an entry, which expires no later than any other.
pub record Oldest (m : Map Entry) (k : String) (at : ℕ) : Type 0 where
  pub entry : Entry
  pub held : get k m ≡ some entry
  pub expires : entry.expires_at ≡ at
  pub first : (j : String) (f : Entry) → get j m ≡ some f → at ≤ f.expires_at

oldest-Oldest :
    (m : Map Entry)
    → IsDistinct m
    → 0 < length m
    → (k : String) × (at : ℕ) × (oldest m ≡ some (k, at)) × Oldest m k at
unfolding oldest get
oldest-Oldest [] d h = absurd (omega (arith, h))
oldest-Oldest ((i, x) ∷ []) d h = (
  i,
  x.expires_at,
  refl,
  record {
    entry = x;
    held = ground (arith, eq_iff i i);
    expires = refl;
    first = λ j f e. ground arith;
  },
)
oldest-Oldest ((i, x) ∷ (y ∷ ys)) d h =
    let (k, at, e, o) = oldest-Oldest (y ∷ ys) d.1 (omega arith) in
    elim (Bool-cases (ltb at x.expires_at)) [
      | inl lt ↦ (
        k,
        at,
        rw (e, lt) refl,
        record {
          entry = o.entry;
          held = (let a = d.0 in let b = o.held in ground (arith, eq_iff i k));
          expires = o.expires;
          first = λ j f g. ground (arith, o.first j f);
        },
      )
      | inr ge ↦ (
        i,
        x.expires_at,
        rw (e, ge) refl,
        record {
          entry = x;
          held = ground (arith, eq_iff i i);
          expires = refl;
          first = λ j f g. ground (arith, o.first j f);
        },
      )
    ]

-- What evictions leave.
pub record Evicted (max_entries : ℕ) (before after : Map Entry) : Type 0 where
  pub bounded : length after ≤ max_entries
  pub kept : (k : String) (e : Entry) → get k after ≡ some e → get k before ≡ some e
  pub earliest :
      (k j : String) (e f : Entry)
      → get k before ≡ some e
      → get k after ≡ none
      → get j after ≡ some f
      → e.expires_at ≤ f.expires_at
  pub spared : length before ≤ max_entries → after ≡ before

Evicted-more :
    (max_entries : ℕ) (m q : Map Entry) (k : String) (at : ℕ)
    → Oldest m k at
    → ltb max_entries (length m) ≡ true
    → Evicted max_entries (remove k m) q
    → Evicted max_entries m q
Evicted-more max_entries m q k at o many rest = record {
  bounded = rest.bounded;
  kept = kept;
  earliest = earliest;
  spared = λ h. absurd (ground arith);
}
  where
    kept : (j : String) (e : Entry) → get j q ≡ some e → get j m ≡ some e
    kept j e h = ground (arith, rest.kept j e h, get-remove k j m)

    earliest :
        (i j : String) (e f : Entry)
        → get i m ≡ some e
        → get i q ≡ none
        → get j q ≡ some f
        → e.expires_at ≤ f.expires_at
    earliest i j e f a b c = elim (Bool-cases (k == i)) [
      | inl same ↦
          let first = o.first j f (kept j f c) in
          let h = o.held in let x = o.expires in ground (arith, eq_iff k i)
      | inr other ↦ rest.earliest i j e f (rw (get-remove k i m, other) a) b c
    ]

evict_enough :
    (fuel max_entries : ℕ) (m : Map Entry)
    → ltb max_entries (length m) ≡ false
    → evict (suc fuel) max_entries m ≡ m
unfolding evict
evict_enough fuel max_entries m few = ground arith

evict_more :
    (fuel max_entries : ℕ) (m : Map Entry) (k : String) (at : ℕ)
    → ltb max_entries (length m) ≡ true
    → oldest m ≡ some (k, at)
    → evict (suc fuel) max_entries m ≡ evict fuel max_entries (remove k m)
unfolding evict
evict_more fuel max_entries m k at many e = ground arith

evict-Evicted :
    (fuel max_entries : ℕ) (m : Map Entry)
    → IsDistinct m
    → length m ≤ fuel
    → Evicted max_entries m (evict fuel max_entries m)
evict-Evicted zero max_entries m d le =
    unfold evict in
    record {
      bounded = omega arith;
      kept = λ k e h. h;
      earliest = λ k j e f a b c. absurd (cc);
      spared = λ h. refl;
    }
evict-Evicted (suc fuel) max_entries m d le = elim (Bool-cases (ltb max_entries (length m))) [
  | inr few ↦ rw (evict_enough fuel max_entries m few) (record {
    bounded = ground arith;
    kept = λ k e h. h;
    earliest = λ k j e f a b c. absurd (cc);
    spared = λ h. refl;
  })
  | inl many ↦
      let (k, at, e, o) = oldest-Oldest m d (ground arith) in
      let one = length-remove k m d in
      let less : length m ≡ suc (length (remove k m)) = rw o.held at one in
      let rest =
        evict-Evicted fuel max_entries (remove k m) (remove-IsDistinct k m d)
          (omega (arith, less)) in
      rw (evict_more fuel max_entries m k at many e) (Evicted-more max_entries m _ k at o many rest)
]

-- What pruning leaves.
pub record Pruned (now max_entries : ℕ) (before after : Map Entry) : Type 0 where
  pub bounded : length after ≤ max_entries
  pub kept :
      (k : String) (e : Entry)
      → get k after ≡ some e
      → (get k before ≡ some e) × (ltb now e.expires_at ≡ true)
  pub earliest :
      (k j : String) (e f : Entry)
      → get k before ≡ some e
      → ltb now e.expires_at ≡ true
      → get k after ≡ none
      → get j after ≡ some f
      → e.expires_at ≤ f.expires_at
  pub spared :
      length before ≤ max_entries
      → (k : String) (e : Entry) → get k before ≡ some e
      → ltb now e.expires_at ≡ true
      → get k after ≡ some e

live-held :
    (now : ℕ) (k : String) (m : Map Entry) (e : Entry)
    → IsDistinct m
    → get k m ≡ some e
    → ltb now e.expires_at ≡ true
    → get k (live now m) ≡ some e
live-held now k m e d h a =
    get-retain_passes (λ k e. ltb now e.expires_at) k m d ∙ (rw h (rw a refl))

live_before :
    (now : ℕ) (k : String) (m : Map Entry) (e : Entry)
    → IsDistinct m
    → get k (live now m) ≡ some e
    → (get k m ≡ some e) × (ltb now e.expires_at ≡ true)
live_before now k m e d h =
    let passes = get-retain_passes (λ k e. ltb now e.expires_at) k m d in
    elim (Option-cases (get k m)) [
      | inl absent ↦
          let gone = retain_absent (λ k e. ltb now e.expires_at) k m absent in absurd (cc)
      | inr (f, held) ↦
          let says : get k (live now m) ≡ (if ltb now f.expires_at then some f else none) =
            passes ∙ (rw held refl) in
          ground (arith, says)
    ]

-- Pruning ends with at most the allowed number of entries, none of them expired and all of them as
-- they were before; an entry that had not expired goes only if no entry that stays expires before
-- it, and none goes where the table was within its limit.
pub prune_locked-Pruned :
    (now max_entries : ℕ) (inner : Inner)
    → IsDistinct inner.entries
    → Pruned now max_entries inner.entries (prune_locked now max_entries inner).entries
unfolding prune_locked
prune_locked-Pruned now max_entries inner d =
    let p : String → Entry → Bool = λ k e. ltb now e.expires_at in
    let m = inner.entries in
    let shorter = length-retain-le p m in
    let ends =
      evict-Evicted (length m) max_entries (live now m) (retain-IsDistinct p m d) shorter in
    record {
      bounded = ends.bounded;
      kept = λ k e h. live_before now k m e d (ends.kept k e h);
      earliest = λ k j e f a b c g. ends.earliest k j e f (live-held now k m e d a b) c g;
      spared =
          λ h k e a b. rw (ends.spared (omega (arith, shorter, h))) (live-held now k m e d a b);
    }
