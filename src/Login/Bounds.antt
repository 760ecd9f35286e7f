-- ===== src/Login/Bounds.antt =====
-- src/services/oauth_login_service.rs: how many logins are pending.
use Prim.Native.Nat.{ℕ, zero, suc, ◌+◌, ◌-◌, ◌≤◌}
use model2api.Common.{
  String, ◌≡◌, refl, ◌∙◌, Bool, true, false, ◌||◌, [], ◌∷◌, ltb, length, take, ◌==◌, Bool-cases,
  inl, inr, arith, eq_iff,
}
use model2api.Common.Maps.{
  Map, get, remove, retain, contains_key, IsDistinct, length-remove, length-insert, get-remove,
  remove-IsDistinct, retain-IsDistinct, insert-IsDistinct,
}
use model2api.Common.Sorting.{sort_by, insert_sorted}
use model2api.Common.Sorted.{length-sort_by}
use model2api.Login.{
  Session, Ages, Draw, ages, older, remove_each, drop_oldest, purge_expired, max_sessions, is_live,
  new_session, start,
}

has_key : String → Ages → Bool
has_key k [] = false
has_key k ((j, age) ∷ ks) = j == k || has_key k ks

-- The keys are those of entries, and none stands twice.
abbrev Present : Ages → Map Session → Type 0
Present [] m = Unit
Present ((k, age) ∷ ks) m = (contains_key k m ≡ true) × (has_key k ks ≡ false) × Present ks m

Present-remove :
    (k : String) (ks : Ages) (m : Map Session)
    → has_key k ks ≡ false
    → Present ks m
    → Present ks (remove k m)
unfolding has_key
Present-remove k [] m away p = tt
Present-remove k ((j, age) ∷ ks) m away p =
    ground (arith, get-remove k j m, eq_iff j k, eq_iff k j, Present-remove k ks m)

length-remove_each :
    (ks : Ages) (m : Map Session)
    → IsDistinct m
    → Present ks m
    → length (remove_each ks m) + length ks ≡ length m
unfolding remove_each
length-remove_each [] m d p = omega arith
length-remove_each ((k, age) ∷ ks) m d p =
    let rest =
      length-remove_each ks (remove k m) (remove-IsDistinct k m d)
        (Present-remove k ks m p.1 p.2) in
    let one : length m ≡ suc (length (remove k m)) = length-remove k m d ∙ (rw p.0 refl) in
    omega arith

Present-cons :
    (ks : Ages) (k : String) (v : Session) (m : Map Session)
    → Present ks m
    → Present ks ((k, v) ∷ m)
unfolding get
Present-cons [] k v m p = tt
Present-cons ((j, age) ∷ ks) k v m p = ground (arith, Present-cons ks k v m p.2)

has_key-ages :
    (k : String) (m : Map Session) → contains_key k m ≡ false → has_key k (ages m) ≡ false
unfolding has_key get
has_key-ages k [] h = refl
has_key-ages k ((j, v) ∷ m) h = ground (arith, has_key-ages k m)

Present-ages : (m : Map Session) → IsDistinct m → Present (ages m) m
unfolding get
Present-ages [] d = tt
Present-ages ((k, v) ∷ m) d = (
  ground (arith, eq_iff k k),
  has_key-ages k m d.0,
  Present-cons (ages m) k v m (Present-ages m d.1),
)

has_key-insert_sorted :
    (k j : String) (age : ℕ) (ks : Ages)
    → has_key k (insert_sorted older (j, age) ks) ≡ (j == k || has_key k ks)
unfolding has_key insert_sorted
has_key-insert_sorted k j age [] = refl
has_key-insert_sorted k j age ((i, b) ∷ ks) = ground (arith, has_key-insert_sorted k j age ks)

Present-insert_sorted :
    (k : String) (age : ℕ) (ks : Ages) (m : Map Session)
    → contains_key k m ≡ true
    → has_key k ks ≡ false
    → Present ks m
    → Present (insert_sorted older (k, age) ks) m
unfolding has_key insert_sorted
Present-insert_sorted k age [] m c away p = (c, refl, tt)
Present-insert_sorted k age ((i, b) ∷ ks) m c away p = ground (
  arith,
  has_key-insert_sorted i k age ks,
  eq_iff i k,
  eq_iff k i,
  Present-insert_sorted k age ks m c,
)

has_key-sort_by : (k : String) (ks : Ages) → has_key k (sort_by older ks) ≡ has_key k ks
unfolding has_key sort_by
has_key-sort_by k [] = refl
has_key-sort_by k ((j, age) ∷ ks) =
    has_key-insert_sorted k j age (sort_by older ks) ∙ rw (has_key-sort_by k ks) refl

Present-sort_by : (ks : Ages) (m : Map Session) → Present ks m → Present (sort_by older ks) m
unfolding sort_by
Present-sort_by [] m p = tt
Present-sort_by ((k, age) ∷ ks) m p =
    Present-insert_sorted k age (sort_by older ks) m p.0 (has_key-sort_by k ks ∙ p.1)
      (Present-sort_by ks m p.2)

has_key-take :
    (n : ℕ) (k : String) (ks : Ages) → has_key k ks ≡ false → has_key k (take n ks) ≡ false
unfolding has_key
has_key-take zero k ks h = refl
has_key-take (suc n) k [] h = refl
has_key-take (suc n) k ((j, age) ∷ ks) h = ground (arith, has_key-take n k ks)

Present-take : (n : ℕ) (ks : Ages) (m : Map Session) → Present ks m → Present (take n ks) m
Present-take zero ks m p = tt
Present-take (suc n) [] m p = tt
Present-take (suc n) ((k, age) ∷ ks) m p = (p.0, has_key-take n k ks p.1, Present-take n ks m p.2)

length-ages : (m : Map Session) → length (ages m) ≡ length m
length-ages [] = refl
length-ages ((k, v) ∷ m) = rw (length-ages m) refl

length-take : (n : ℕ) (ks : Ages) → n ≤ length ks → length (take n ks) ≡ n
length-take zero ks h = refl
length-take (suc n) [] h = absurd (omega arith)
length-take (suc n) (x ∷ ks) h = rw (length-take n ks (omega arith)) refl

remove_each-IsDistinct :
    (ks : Ages) (m : Map Session) → IsDistinct m → IsDistinct (remove_each ks m)
unfolding remove_each
remove_each-IsDistinct [] m d = d
remove_each-IsDistinct ((k, age) ∷ ks) m d =
    remove_each-IsDistinct ks (remove k m) (remove-IsDistinct k m d)

-- Each key once, and no more logins than the limit.
abbrev pub IsBounded : ℕ → Map Session → Type 0
IsBounded limit m = IsDistinct m × (length m ≤ limit)

drop_oldest-IsBounded : (m : Map Session) → IsDistinct m → IsBounded max_sessions (drop_oldest m)
unfolding drop_oldest
drop_oldest-IsBounded m d = elim (Bool-cases (ltb max_sessions (length m))) [
  | inl many ↦
      let n = length m - max_sessions in
      let all = sort_by older (ages m) in
      let sizes : length all ≡ length m = length-sort_by older (ages m) ∙ length-ages m in
      let taken = length-take n all (omega arith) in
      let left =
        length-remove_each (take n all) m d
          (Present-take n all m (Present-sort_by (ages m) m (Present-ages m d))) in
      rw (drop_oldest, many) (remove_each-IsDistinct (take n all) m d, ground arith)
  | inr few ↦ rw (drop_oldest, few) (d, ground arith)
]

pub purge_expired-IsBounded :
    (now : ℕ) (m : Map Session) → IsDistinct m → IsBounded max_sessions (purge_expired now m)
unfolding purge_expired
purge_expired-IsBounded now m d =
    drop_oldest-IsBounded (retain (λ sid item. is_live now item) m)
      (retain-IsDistinct (λ sid item. is_live now item) m d)

-- However many logins were pending, a start leaves the limit and the new one at most: the old ones
-- are purged before the new one is added.
start-IsBounded :
    (d : Draw) (email_hint : String) (m : Map Session)
    → IsDistinct m
    → IsBounded (suc max_sessions) (start d email_hint m).1
unfolding start
start-IsBounded d email_hint m u =
    let kept = purge_expired d.now m in
    let b = purge_expired-IsBounded d.now m u in
    (
      insert-IsDistinct d.session_id (new_session d) kept b.0,
      ground (arith, length-insert d.session_id (new_session d) kept, b.1),
    )
