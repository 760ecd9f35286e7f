-- ===== src/Auth/Create/Accepts.antt =====
-- The names and the keys that the checks of auth_service.rs let through.
use model2api.Common.{
  ℕ, zero, suc, String, ◌≡◌, refl, subst, false, ◌&&◌, some, List, [], ◌∷◌, ◌⊎◌, inl, inr, ◌==◌,
  trim, trim_idem, All, Bool-cases, arith, length, append,
}
use model2api.Json.{Host}
use model2api.Auth.{
  AuthKeyItem, Result, ok, err, default_name, any, other_id, has_name, has_key_hash, suffixed,
  try_suffix, build_default_name, build_name, build_key_hash,
}
use model2api.Auth.Create.{draw_key}
use model2api.Auth.Items.{IsClean}
use model2api.Auth.Names.{IsNodup, candidates, build_default_name-free}

abbrev pub tried : Host → String → ℕ → ℕ → List String
tried h base_name suffix zero = []
tried h base_name suffix (suc n) = suffixed h base_name suffix ∷ tried h base_name (suc suffix) n

-- The first numbers from 2 on are printed differently and without space at the end.
pub record IsNumbered (h : Host) (base_name : String) (n : ℕ) : Type 0 where
  pub base : IsClean base_name
  pub differ : IsNodup (candidates h base_name 2 n)
  pub clean : All IsClean (tried h base_name 2 n)

try_suffix-IsClean :
    (h : Host) (fuel : ℕ) (items : List AuthKeyItem) (base_name role exclude_id : String)
    (suffix : ℕ)
    → IsClean base_name
    → All IsClean (tried h base_name suffix fuel)
    → IsClean (try_suffix h fuel items base_name role exclude_id suffix)
unfolding try_suffix
try_suffix-IsClean h zero items base_name role exclude_id suffix b c = b
try_suffix-IsClean h (suc fuel) items base_name role exclude_id suffix b c =
    elim (Bool-cases (has_name items (suffixed h base_name suffix) (some role) exclude_id)) [
      | inl taken ↦
          rw (taken, try_suffix)
            (try_suffix-IsClean h fuel items base_name role exclude_id (suc suffix) b c.1)
      | inr free ↦ rw (free, try_suffix) c.0
    ]

-- A name that a key may take: clean, and no other key of the role has it.
pub record IsFree (items : List AuthKeyItem) (role exclude_id name : String) : Type 0 where
  pub clean : IsClean name
  pub free : any (λ i. other_id exclude_id i && i.role == role && i.name == name) items ≡ false

unheld :
    (items : List AuthKeyItem) (role exclude_id name : String)
    → IsClean name
    → has_name items name (some role) exclude_id ≡ false
    → IsFree items role exclude_id name
unfolding has_name
unheld items role exclude_id name c f = record {
  clean = c;
  free = (let g = f in let g' = rw c.trimmed at g in let g'' = rw c.named at g' in g'');
}

made_clean :
    (h : Host) (items : List AuthKeyItem) (role exclude_id : String)
    → IsNumbered h (default_name h role) (suc (length items))
    → IsClean (build_default_name h items role exclude_id)
unfolding build_default_name
made_clean h items role exclude_id v =
    let base = default_name h role in
    elim (Bool-cases (has_name items base (some role) exclude_id)) [
      | inr free ↦ rw free v.base
      | inl taken ↦
          rw taken
            (try_suffix-IsClean h (suc (length items)) items base role exclude_id 2 v.base v.clean)
    ]

pub build_name-IsFree :
    (h : Host) (items : List AuthKeyItem) (name role exclude_id n : String)
    → IsNumbered h (default_name h role) (suc (length items))
    → build_name h items name role exclude_id ≡ ok n
    → IsFree items role exclude_id n
unfolding build_name
build_name-IsFree h items name role exclude_id n v e =
    let base = default_name h role in
    let made = build_default_name h items role exclude_id in
    elim (Bool-cases (trim name == "")) [
      | inl blank ↦
          let e' : ok made ≡ ok n = rw (blank, build_name) at e in
          let is : made ≡ n = cc in
          subst (IsFree items role exclude_id) is (
            unheld items role exclude_id made (made_clean h items role exclude_id v)
              (build_default_name-free h items role exclude_id v.differ))
      | inr named ↦ elim (Bool-cases (has_name items (trim name) (some role) exclude_id)) [
        | inl taken ↦
            absurd
              (let e' : err "这个名称已经在使用中了，换一个更容易区分的名称吧" ≡ ok n = rw taken at (rw named at e) in cc)
        | inr open' ↦
            let e' : ok (trim name) ≡ ok n = rw open' at (rw named at e) in
            let is : trim name ≡ n = cc in
            subst (IsFree items role exclude_id) is (
              unheld items role exclude_id (trim name)
                (record { trimmed = trim_idem name; named = named }) open')
      ]
    ]

-- A key that may be taken: it is not blank, and no other key has its hash.
pub record IsAccepted (h : Host) (items : List AuthKeyItem) (exclude_id raw_key key_hash : String)
    : Type 0 where
  pub named : (trim raw_key == "") ≡ false
  pub hash : key_hash ≡ h.sha256_hex (trim raw_key)
  pub free : has_key_hash items key_hash exclude_id ≡ false

pub build_key_hash-IsAccepted :
    (h : Host) (admin_key : String) (items : List AuthKeyItem)
    (raw_key exclude_id key_hash : String)
    → build_key_hash h admin_key items raw_key exclude_id ≡ ok key_hash
    → IsAccepted h items exclude_id raw_key key_hash
unfolding build_key_hash
build_key_hash-IsAccepted h admin_key items raw_key exclude_id key_hash e = ground arith

pub Result-cases {ℓ} :
    {A : Type ℓ} (r : Result A) → ((a : A) × (r ≡ ok a)) ⊎ ((e : String) × (r ≡ err e))
Result-cases (ok a) = inl (a, refl)
Result-cases (err e) = inr (e, refl)

pub draw_key-IsAccepted :
    (h : Host) (admin_key : String) (items : List AuthKeyItem) (tokens : List String)
    (raw_key key_hash : String)
    → draw_key h admin_key items tokens ≡ some (raw_key, key_hash)
    → IsAccepted h items "" raw_key key_hash
unfolding draw_key
draw_key-IsAccepted h admin_key items [] raw_key key_hash e = absurd (cc)
draw_key-IsAccepted h admin_key items (token ∷ tokens) raw_key key_hash e =
    elim (Result-cases (build_key_hash h admin_key items (append "sk-" token) "")) [
      | inl (k, accepted) ↦
          let e' : some (append "sk-" token, k) ≡ some (raw_key, key_hash) =
            rw (accepted, draw_key) at e in
          let a = build_key_hash-IsAccepted h admin_key items (append "sk-" token) "" k accepted in
          let r : append "sk-" token ≡ raw_key = cc in
          let s : k ≡ key_hash = cc in
          subst (λ x. IsAccepted h items "" x key_hash) r
            (subst (IsAccepted h items "" (append "sk-" token)) s a)
      | inr (m, refused') ↦
          draw_key-IsAccepted h admin_key items tokens raw_key key_hash
            (rw (refused', draw_key) at e)
    ]
