-- ===== src/Cache/Shared.antt =====
-- The sharing of computations between callers, over any interleaving of calls and results. A
-- caller that owns a computation is a running one until its result is stored.
use model2api.Common.{
  ℕ, zero, suc, ◌<◌, String, ◌≡◌, refl, sym, ap, ◌∙◌, subst, true, false, none, some, List, [], ◌∷◌,
  ◌++◌, inl, inr, ltb, nat_eq, nat_eq_iff, ◌==◌, if◌then◌else◌, Bool-cases, Option-cases, length,
  get_elem?, arith, eq_iff,
}
use model2api.Common.Maps.{
  Map, get, insert, remove, IsDistinct, get-insert, get-remove, remove-IsDistinct,
}
use model2api.Json.{Fields, bool_at}
use model2api.Cache.{
  Inner, InflightState, Result, Begun, ok, err, answers, joins, owns, fresh_state, begin,
  begin_missing, begin_pruned, finish, publish, store_result, read_state, settle, set_state,
  prune_locked, max_entries_of, clear,
}

get_elem?-snoc :
    (xs : List InflightState) (x y : InflightState) (i : ℕ)
    → get_elem? xs i ≡ some y
    → get_elem? (xs ++ (x ∷ [])) i ≡ some y
get_elem?-snoc [] x y i h = absurd (cc)
get_elem?-snoc (z ∷ xs) x y zero h = h
get_elem?-snoc (z ∷ xs) x y (suc i) h = get_elem?-snoc xs x y i h

get_elem?-last :
    (xs : List InflightState) (x : InflightState) → get_elem? (xs ++ (x ∷ [])) (length xs) ≡ some x
get_elem?-last [] x = refl
get_elem?-last (z ∷ xs) x = get_elem?-last xs x

get_elem?-bound :
    (xs : List InflightState) (y : InflightState) (i : ℕ) → get_elem? xs i ≡ some y → i < length xs
get_elem?-bound [] y i h = absurd (cc)
get_elem?-bound (z ∷ xs) y zero h = omega arith
get_elem?-bound (z ∷ xs) y (suc i) h = omega (arith, get_elem?-bound xs y i h)

get_elem?-set :
    (i : ℕ) (x y : InflightState) (xs : List InflightState)
    → get_elem? xs i ≡ some y
    → get_elem? (set_state i x xs) i ≡ some x
unfolding set_state
get_elem?-set i x y [] h = absurd (cc)
get_elem?-set zero x y (z ∷ xs) h = refl
get_elem?-set (suc i) x y (z ∷ xs) h = get_elem?-set i x y xs h

get_elem?-set_other :
    (i j : ℕ) (x : InflightState) (xs : List InflightState)
    → nat_eq i j ≡ false
    → get_elem? (set_state i x xs) j ≡ get_elem? xs j
unfolding set_state
get_elem?-set_other i j x [] h = refl
get_elem?-set_other zero zero x (z ∷ xs) h = absurd (ground arith)
get_elem?-set_other zero (suc j) x (z ∷ xs) h = refl
get_elem?-set_other (suc i) zero x (z ∷ xs) h = refl
get_elem?-set_other (suc i) (suc j) x (z ∷ xs) h = get_elem?-set_other i j x xs (ground arith)

-- The table of computations in flight tells who computes: no key is computed twice, and a state in
-- the table is that of one key and is not settled yet.
pub record IsShared (inflight : Map ℕ) (states : List InflightState) (running : Map ℕ)
    : Type 0 where
  pub distinct : IsDistinct running
  pub same : (k : String) → get k running ≡ get k inflight
  pub pending :
      (k : String) (i : ℕ) → get k inflight ≡ some i → get_elem? states i ≡ some fresh_state
  pub separate : (k j : String) (i : ℕ) → get k inflight ≡ some i → get j inflight ≡ some i → k ≡ j

-- The cache and the computations that run.
pub record Sharing : Type 0 where
  pub inner : Inner
  pub running : Map ℕ

abbrev pub started : String → Begun → Map ℕ → Map ℕ
started key (owns i) running = (key, i) ∷ running
started key (answers v) running = running
started key (joins i) running = running

abbrev pub begun : String → Begun × Inner → Map ℕ → Sharing
begun key (b, inner) running = record { inner = inner; running = started key b running }

-- The table is cleared only where no computation runs: one that runs then would not be shared any more.
pub data Step (settings : Fields) (s : Sharing) : Sharing → Type 0 where
  calls :
      (prune_now now : ℕ) (key : String)
      → Step settings s (begun key (begin settings prune_now now key s.inner) s.running)
  finishes :
      (now prune_now : ℕ) (key : String) (i : ℕ) (r : Result)
      → get key s.running ≡ some i
      → Step settings s (record {
        inner = finish settings now prune_now key i r s.inner;
        running = remove key s.running;
      })
  clears : s.running ≡ [] → Step settings s (record { inner = clear s.inner; running = [] })

pub data Run (settings : Fields) (s : Sharing) : Sharing → Type 0 where
  here : Run settings s s
  next : {t u : Sharing} → Run settings s t → Step settings t u → Run settings s u

abbrev pub Shared : Sharing → Type 0
Shared s = IsShared s.inner.inflight s.inner.states s.running

-- A call that starts a computation enters it under a new state.
new_owner-IsShared :
    (key : String) (inner : Inner) (running : Map ℕ)
    → get key inner.inflight ≡ none
    → IsShared inner.inflight inner.states running
    → IsShared
        (insert key (length inner.states) inner.inflight)
        (inner.states ++ (fresh_state ∷ []))
        ((key, length inner.states) ∷ running)
new_owner-IsShared key inner running alone v = record {
  distinct = (rw (v.same key, alone) refl, v.distinct);
  same = same;
  pending = pending;
  separate = separate;
}
  where
    n : ℕ
    n = length inner.states

    table :
        (k : String)
        → get k (insert key n inner.inflight) ≡ (if key == k then some n else get k inner.inflight)
    table k = get-insert key k n inner.inflight

    same : (k : String) → get k ((key, n) ∷ running) ≡ get k (insert key n inner.inflight)
    same k = unfold get in ground (arith, table k, v.same k)

    old : (k : String) (i : ℕ) → get k inner.inflight ≡ some i → i < n
    old k i h = get_elem?-bound inner.states fresh_state i (v.pending k i h)

    pending :
        (k : String) (i : ℕ)
        → get k (insert key n inner.inflight) ≡ some i
        → get_elem? (inner.states ++ (fresh_state ∷ [])) i ≡ some fresh_state
    pending k i h = elim (Bool-cases (key == k)) [
      | inl one ↦
          let e : some n ≡ some i = rw (table k, one) at h in
          let last = get_elem?-last inner.states fresh_state in
          let is : n ≡ i = ground arith in
          subst (λ j. get_elem? (inner.states ++ (fresh_state ∷ [])) j ≡ some fresh_state) is last
      | inr other ↦
          get_elem?-snoc inner.states fresh_state fresh_state i
            (v.pending k i (rw (table k, other) at h))
    ]

    separate :
        (k j : String) (i : ℕ)
        → get k (insert key n inner.inflight) ≡ some i
        → get j (insert key n inner.inflight) ≡ some i
        → k ≡ j
    separate k j i a b =
        ground
          (arith, table k, table j, eq_iff key k, eq_iff key j, v.separate k j i, old k i, old j i)

begin_joins :
    (key : String) (inner : Inner) (i : ℕ)
    → get key inner.inflight ≡ some i
    → begin_missing true key inner ≡ (joins i, inner)
unfolding begin_missing
begin_joins key inner i h = rw (h, begin_missing) refl

begin_owns :
    (key : String) (inner : Inner)
    → get key inner.inflight ≡ none
    → begin_missing true key inner ≡ (
      owns (length inner.states),
      record inner {
        inflight = insert key (length inner.states) inner.inflight;
        states = inner.states ++ (fresh_state ∷ []);
      },
    )
unfolding begin_missing insert
begin_owns key inner h = rw (h, begin_missing) refl

begin_missing-Shared :
    (key : String) (inner : Inner) (running : Map ℕ)
    → IsShared inner.inflight inner.states running
    → Shared (begun key (begin_missing true key inner) running)
begin_missing-Shared key inner running v = elim (Option-cases (get key inner.inflight)) [
  | inr (i, joined) ↦ rw (begin_joins key inner i joined) v
  | inl alone ↦ rw (begin_owns key inner alone) (new_owner-IsShared key inner running alone v)
]

begin_pruned-Shared :
    (settings : Fields) (now : ℕ) (key : String) (inner : Inner) (running : Map ℕ)
    → bool_at "dedupe_inflight" settings ≡ true
    → IsShared inner.inflight inner.states running
    → Shared (begun key (begin_pruned settings now key inner) running)
unfolding begin_pruned
begin_pruned-Shared settings now key inner running dedupe v =
    let missing = begin_missing-Shared key inner running v in
    elim (Option-cases (get key inner.entries)) [
      | inl absent ↦ rw (absent, begin_pruned, dedupe) missing
      | inr (e, held) ↦ elim (Bool-cases (ltb now e.expires_at)) [
        | inl fresh ↦ rw (held, begin_pruned) (rw fresh v)
        | inr stale ↦ rw (held, begin_pruned) (rw (stale, dedupe) missing)
      ]
    ]

publish-eq :
    (i : ℕ) (r : Result) (q : Inner) (st : InflightState)
    → get_elem? q.states i ≡ some st
    → publish i r q ≡ record q { states = set_state i (settle r st) q.states }
unfolding publish
publish-eq i r q st h = rw (h, publish) refl

-- The table and the states after a result. What it does to the entries is the rest of it.
finish-eq :
    (settings : Fields) (now prune_now : ℕ) (key : String) (i : ℕ) (r : Result) (inner : Inner)
    (st : InflightState)
    → get_elem? inner.states i ≡ some st
    → finish settings now prune_now key i r inner ≡ record {
      entries = (store_result settings now prune_now key r inner).entries;
      inflight = remove key inner.inflight;
      states = set_state i (settle r st) inner.states;
    }
unfolding finish store_result prune_locked
finish-eq settings now prune_now key i (ok x) inner st h =
    publish-eq i (ok x) (store_result settings now prune_now key (ok x) inner) st h
finish-eq settings now prune_now key i (err e) inner st h =
    publish-eq i (err e) (store_result settings now prune_now key (err e) inner) st h

module _ (key : String) (i : ℕ) (x : InflightState) where
  settled-IsShared :
      (inflight : Map ℕ) (states : List InflightState) (running : Map ℕ)
      → get key running ≡ some i
      → IsShared inflight states running
      → IsShared (remove key inflight) (set_state i x states) (remove key running)
  settled-IsShared inflight states running owned v = record {
    distinct = remove-IsDistinct key running v.distinct;
    same = λ k. rw (get-remove key k running, get-remove key k inflight, v.same k) refl;
    pending = pending;
    separate = λ k j n a b.
        ground (arith, get-remove key k inflight, get-remove key j inflight, v.separate k j n);
  }
    where
      pending :
          (k : String) (n : ℕ)
          → get k (remove key inflight) ≡ some n
          → get_elem? (set_state i x states) n ≡ some fresh_state
      pending k n h = elim (Bool-cases (key == k)) [
        | inl one ↦
            let gone : none ≡ some n = rw (get-remove key k inflight, one) at h in absurd (cc)
        | inr other ↦
            let there : get k inflight ≡ some n = rw (get-remove key k inflight, other) at h in
            let mine : get key inflight ≡ some i = sym (v.same key) ∙ owned in
            let apart : nat_eq i n ≡ false = elim (Bool-cases (nat_eq i n)) [
              | inl one ↦
                  let is : i ≡ n = (nat_eq_iff i n).0 one in
                  let k_is = v.separate key k n (mine ∙ ap some is) there in
                  ground (arith, eq_iff key k)
              | inr two ↦ two
            ] in
            get_elem?-set_other i n x states apart ∙ v.pending k n there
      ]

Step-IsShared :
    (settings : Fields) {s t : Sharing}
    → bool_at "dedupe_inflight" settings ≡ true
    → Step settings s t
    → Shared s
    → Shared t
unfolding begin prune_locked clear get
Step-IsShared settings {s} dedupe (calls prune_now now key) v =
    begin_pruned-Shared settings now key (prune_locked prune_now (max_entries_of settings) s.inner)
      s.running dedupe v
Step-IsShared settings {s} dedupe (clears idle) v = record {
  distinct = tt;
  same = λ k. refl;
  pending = λ k i h. absurd cc;
  separate = λ k j i a b. absurd cc;
}
Step-IsShared settings {s} dedupe (finishes now prune_now key i r owned) v =
    let st = v.pending key i (sym (v.same key) ∙ owned) in
    rw (finish-eq settings now prune_now key i r s.inner fresh_state st) (
      settled-IsShared key i (settle r fresh_state) s.inner.inflight s.inner.states s.running owned
        v)

-- Where the settings, the same ones for all calls, share computations, and the table is cleared only
-- while no computation runs: whatever calls and results follow one another, no key is computed twice at
-- the same time, and each computation that runs has its own state, which has no result yet, in the
-- table under its key.
pub Run-IsShared :
    (settings : Fields) (s t : Sharing)
    → bool_at "dedupe_inflight" settings ≡ true
    → Shared s
    → Run settings s t
    → Shared t
Run-IsShared settings s t dedupe v here = v
Run-IsShared settings s t dedupe v (next {t = u} run step) =
    Step-IsShared settings dedupe step (Run-IsShared settings s u dedupe v run)

read-settle : (r : Result) → read_state (settle r fresh_state) ≡ some r
unfolding read_state settle
read-settle (ok v) = refl
read-settle (err e) = refl

-- The result of a computation that runs, an error too, is what every call that waits for it reads
-- from the state it joined; the states of the other computations stay as they are, and the key is
-- free for the next call.
pub finish-delivers :
    (settings : Fields) (now prune_now : ℕ) (key : String) (i : ℕ) (r : Result) (s : Sharing)
    → Shared s
    → get key s.running ≡ some i
    → let q = finish settings now prune_now key i r s.inner in
      ((st : InflightState) × (get_elem? q.states i ≡ some st) × (read_state st ≡ some r))
      × ((j : ℕ) → nat_eq i j ≡ false → get_elem? q.states j ≡ get_elem? s.inner.states j)
      × (get key q.inflight ≡ none)
finish-delivers settings now prune_now key i r s v owned =
    let st = v.pending key i (sym (v.same key) ∙ owned) in
    rw (finish-eq settings now prune_now key i r s.inner fresh_state st) (
      (
        settle r fresh_state,
        get_elem?-set i (settle r fresh_state) fresh_state s.inner.states st,
        read-settle r,
      ),
      (λ j apart. get_elem?-set_other i j (settle r fresh_state) s.inner.states apart),
      rw (get-remove key key s.inner.inflight) (ground (arith, eq_iff key key)),
    )
