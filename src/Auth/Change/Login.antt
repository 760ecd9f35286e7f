-- ===== src/Auth/Change/Login.antt =====
-- Who gets in: the key that was created, and only an enabled key with the hash of what is given.
use model2api.Common.{
  ℕ, suc, String, ◌≡◌, refl, ap, Bool, true, false, Option, none, some, List, [], ◌∷◌, ◌++◌, ◌⊎◌,
  inl, inr, ◌==◌, trim, Bool-cases, Option-cases, arith, eq_iff, length,
}
use model2api.Json.{Value, Host}
use model2api.Storage.{StorageBackend, IsStorage}
use model2api.Auth.{AuthKeyItem, Inner, Draw, public, default_name, any, find}
use model2api.Auth.Create.{created, create_key}
use model2api.Auth.Create.Accepts.{IsNumbered}
use model2api.Auth.Create.Added.{IsFresh, create_key-Added}
use model2api.Auth.Change.{Now, opens, authenticate, authenticate_hash}
use model2api.Auth.Items.{IsHost, Differ, Holds, clashes}

abbrev pub used_at : Now → AuthKeyItem → AuthKeyItem
used_at now item = record item { last_used_at = some now.text }

any-last {ℓ} :
    {A : Type ℓ} (test : A → Bool) (xs : List A) (x : A)
    → any test (xs ++ (x ∷ [])) ≡ false
    → test x ≡ false
any-last test [] x h = ground arith
any-last test (y ∷ xs) x h = any-last test xs x (ground arith)

-- Of keys with different hashes, the last one is found by its hash.
find-last :
    (items : List AuthKeyItem) (new : AuthKeyItem)
    → Differ (items ++ (new ∷ []))
    → new.enabled ≡ true
    → (new.key_hash == "") ≡ false
    → find (opens new.key_hash) (items ++ (new ∷ [])) ≡ some new
find-last [] new d on named = ground (arith, eq_iff new.key_hash new.key_hash)
find-last (i ∷ items) new d on named =
    let apart = any-last (clashes i) items new d.0 in
    let rest = find-last items new d.1 on named in
    let differ : (i.key_hash == new.key_hash) ≡ false = ground arith in
    rw differ (ground (arith, rest))

authenticate_found :
    (b : StorageBackend) (now : Now) (hash : String) (inner : Inner b) (i : AuthKeyItem)
    → find (opens hash) inner.items ≡ some i
    → (authenticate_hash b now hash inner).0 ≡ some (public (used_at now i))
unfolding authenticate_hash
authenticate_found b now hash inner i e = rw (e, authenticate_hash) refl

-- The raw key that `create_key` answers opens the service at once, and the answer shows the new key
-- with the time of this use.
pub authenticate-create_key :
    (b : StorageBackend) (h : Host) (admin_key save_error role name : String) (d : ℕ → Draw)
    (fresh : Draw) (tokens : List String) (inner t : Inner b) (items : List AuthKeyItem)
    (raw : String) (v : Value) (now : Now)
    → IsHost h
    → IsStorage b
    → Holds b inner.stored items
    → IsFresh items fresh
    → (role ≡ "admin") ⊎ (role ≡ "user")
    → IsNumbered h (default_name h role) (suc (length items))
    → create_key b h admin_key d fresh tokens save_error role name inner ≡ (created v raw, t)
    → (new : AuthKeyItem) × (v ≡ public new)
      × (new.role ≡ role)
      × ((authenticate b h now raw t).0 ≡ some (public (used_at now new)))
unfolding authenticate
authenticate-create_key b h admin_key save_error role name d fresh tokens inner t items raw v now is
      st held f r n e =
    let a =
      create_key-Added b h admin_key save_error role name d fresh tokens inner t items raw v is st
        held f r n e in
    let found : find (opens (h.sha256_hex (trim raw))) t.items ≡ some a.new = rw a.memory (
      rw (← a.hash) (
        find-last items a.new a.stored.good.differ a.enabled
          (rw a.hash (is.hash_named (trim raw))))) in
    (
      a.new,
      a.answer,
      a.of_role,
      rw a.named (authenticate_found b now (h.sha256_hex (trim raw)) t a.new found),
    )

-- Some element has a property.
abbrev pub AnyOf {ℓ} : {A : Type ℓ} → (A → Type 0) → List A → Type 0
AnyOf P [] = ⊥
AnyOf P (x ∷ xs) = P x ⊎ AnyOf P xs

found_AnyOf :
    (now : Now) (hash : String) (items : List AuthKeyItem) (i : AuthKeyItem)
    → find (opens hash) items ≡ some i
    → AnyOf
        (λ j.
          (j.enabled ≡ true)
          × (j.key_hash ≡ hash)
          × (public (used_at now i) ≡ public (used_at now j)))
        items
found_AnyOf now hash [] i e = cc
found_AnyOf now hash (j ∷ items) i e = elim (Bool-cases (opens hash j)) [
  | inl opened ↦
      let e' : some j ≡ some i = rw opened at e in
      let same : i ≡ j = cc in
      inl (
        ground arith,
        ground (arith, eq_iff j.key_hash hash),
        ap (λ k. public (used_at now k)) same,
      )
  | inr shut ↦ inr (found_AnyOf now hash items i (rw shut at e))
]

not_found :
    (hash : String) (items : List AuthKeyItem)
    → find (opens hash) items ≡ none
    → any (opens hash) items ≡ false
not_found hash [] e = refl
not_found hash (j ∷ items) e = elim (Bool-cases (opens hash j)) [
  | inl opened ↦ absurd (let e' : some j ≡ none = rw opened at e in cc)
  | inr shut ↦ rw shut (not_found hash items (rw shut at e))
]

-- What an answer of `authenticate` tells.
abbrev pub LetIn : Host → Now → String → List AuthKeyItem → Option Value → Type 0
LetIn h now raw_key items (some v) =
    ((trim raw_key == "") ≡ false)
    × AnyOf
        (λ i.
          (i.enabled ≡ true)
          × (i.key_hash ≡ h.sha256_hex (trim raw_key))
          × (v ≡ public (used_at now i)))
        items
LetIn h now raw_key items none =
    ((trim raw_key == "") ≡ true) ⊎ (any (opens (h.sha256_hex (trim raw_key))) items ≡ false)

-- Whoever is let in gave, but for space around it, a text with the hash of an enabled key, which is
-- the key that is answered; whoever is not let in gave nothing but space, or no enabled key has the
-- hash of what he gave.
pub authenticate-LetIn :
    (b : StorageBackend) (h : Host) (now : Now) (raw_key : String) (inner : Inner b)
    → LetIn h now raw_key inner.items (authenticate b h now raw_key inner).0
unfolding authenticate authenticate_hash
authenticate-LetIn b h now raw_key inner =
    let hash = h.sha256_hex (trim raw_key) in
    elim (Bool-cases (trim raw_key == "")) [
      | inl blank ↦ rw blank (inl blank)
      | inr named ↦ elim (Option-cases (find (opens hash) inner.items)) [
        | inl absent ↦
            rw (named, authenticate)
              (rw (absent, authenticate_hash) (inr (not_found hash inner.items absent)))
        | inr (i, found) ↦
            rw (named, authenticate)
              (rw (found, authenticate_hash) (named, found_AnyOf now hash inner.items i found))
      ]
    ]
