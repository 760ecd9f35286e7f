-- ===== src/Auth/Items.antt =====
-- The keys as they are stored: what is written is what is loaded.
use model2api.Common.{
  ℕ, suc, String, ◌≡◌, refl, subst, Bool, false, not, ◌&&◌, ◌||◌, Option, none, some, List, [], ◌∷◌,
  map, ◌⊎◌, inl, inr, ◌==◌, trim, All, Option-cases,
}
use model2api.Json.{Host, get_field}
use model2api.Storage.{StorageBackend, IsStorage}
use model2api.Auth.{
  AuthKeyItem, Inner, Draw, to_value, clean, nonempty, text_or_null, normalize_item,
  normalize_object, load, load_each, save, any,
}

-- What is used of the lower case of a text and of the hash: it is a text of hexadecimal digits.
pub record IsHost (h : Host) : Type 0 where
  pub lower_admin : h.lower "admin" ≡ "admin"
  pub lower_user : h.lower "user" ≡ "user"
  pub hash_trimmed : (t : String) → trim (h.sha256_hex t) ≡ h.sha256_hex t
  pub hash_named : (t : String) → (h.sha256_hex t == "") ≡ false

-- A text without space at its ends that is not empty.
pub record IsClean (t : String) : Type 0 where
  pub trimmed : trim t ≡ t
  pub named : (t == "") ≡ false

abbrev pub IsDate : Option String → Type 0
IsDate none = Unit
IsDate (some t) = IsClean t

pub record IsItem (i : AuthKeyItem) : Type 0 where
  pub role : (i.role ≡ "admin") ⊎ (i.role ≡ "user")
  pub id : IsClean i.id
  pub name : IsClean i.name
  pub hash : IsClean i.key_hash
  pub created : IsClean i.created_at
  pub used : IsDate i.last_used_at

last_used : (h : Host) (o : Option String) → IsDate o → nonempty (clean h (text_or_null o)) ≡ o
unfolding clean
last_used h none u = refl
last_used h (some t) u = rw u.trimmed (rw u.named refl)

-- The role of a key is stored as it is compared.
known_role :
    (h : Host) (i : AuthKeyItem)
    → IsHost h
    → IsItem i
    → (h.lower (trim i.role) ≡ i.role)
      × ((not (i.role == "admin") && not (i.role == "user")) ≡ false)
unfolding trim
known_role h i is v = elim v.role [
  | inl e ↦ rw e (is.lower_admin, refl)
  | inr e ↦ rw e (is.lower_user, refl)
]

-- A key that is written is loaded as it was, whatever is drawn at random.
normalize_item-to_value :
    (h : Host) (d : Draw) (i : AuthKeyItem)
    → IsHost h
    → IsItem i
    → normalize_item h d (to_value i) ≡ some i
unfolding normalize_item normalize_object to_value get_field clean
normalize_item-to_value h d i is v =
    let (lower, known) = known_role h i is v in
    rw lower (
      rw known (
        rw v.hash.trimmed (
          rw v.hash.named (
            rw (last_used h i.last_used_at v.used) (
              rw v.id.trimmed (
                rw v.id.named (
                  rw v.name.trimmed
                    (rw v.name.named (rw v.created.trimmed (rw v.created.named refl))))))))))

load_each-to_value :
    (h : Host) (d : ℕ → Draw) (n : ℕ) (items : List AuthKeyItem)
    → IsHost h
    → All IsItem items
    → load_each h d n (map to_value items) ≡ items
unfolding load_each
load_each-to_value h d n [] is v = refl
load_each-to_value h d n (i ∷ items) is v =
    rw (normalize_item-to_value h (d n) i is v.0, load_each)
      (rw (load_each-to_value h d (suc n) items is v.1) refl)

-- Two keys are told apart by their ids, their hashes, and their names within a role.
abbrev pub clashes : AuthKeyItem → AuthKeyItem → Bool
clashes i j = i.id == j.id || i.key_hash == j.key_hash || (i.role == j.role && i.name == j.name)

abbrev pub Differ : List AuthKeyItem → Type 0
Differ [] = Unit
Differ (i ∷ items) = (any (clashes i) items ≡ false) × Differ items

pub record IsGood (items : List AuthKeyItem) : Type 0 where
  pub each : All IsItem items
  pub differ : Differ items

-- The keys that the storage holds.
pub record Holds (b : StorageBackend) (stored : b.State) (items : List AuthKeyItem) : Type 0 where
  pub written : b.load_auth_keys stored ≡ map to_value items
  pub good : IsGood items

pub load-Holds :
    (b : StorageBackend) (h : Host) (d : ℕ → Draw) (stored : b.State) (items : List AuthKeyItem)
    → IsHost h
    → Holds b stored items
    → load b h d stored ≡ items
unfolding load
load-Holds b h d stored items is v = rw v.written (load_each-to_value h d 0 items is v.good.each)

-- A write that succeeds leaves the keys of the memory in the storage.
pub save-Holds :
    (b : StorageBackend) (inner t : Inner b)
    → IsStorage b
    → IsGood inner.items
    → save b inner ≡ some t
    → Holds b t.stored inner.items
      × (t.items ≡ inner.items)
      × (t.last_used_flush_at ≡ inner.last_used_flush_at)
unfolding save
save-Holds b inner t is v e =
    elim (Option-cases (b.save_auth_keys (map to_value inner.items) inner.stored)) [
      | inl failed ↦ absurd (let e' : none ≡ some t = rw (failed, save) at e in cc)
      | inr (s, wrote) ↦
          let e' : some (record inner { stored = s }) ≡ some t = rw (wrote, save) at e in
          let is_t : ◌≡◌ {A = Inner b} (record inner { stored = s }) t = cc in
          subst
            (λ u.
              Holds b u.stored inner.items
              × (u.items ≡ inner.items)
              × (u.last_used_flush_at ≡ inner.last_used_flush_at))
            is_t (record { written = is.load-save _ inner.stored s wrote; good = v }, refl, refl)
    ]
