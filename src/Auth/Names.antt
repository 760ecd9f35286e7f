-- ===== src/Auth/Names.antt =====
-- The loop that looks for a free name ends: there are fewer taken names than it tries.
use model2api.Common.{
  ℕ, zero, suc, ◌≤◌, String, ◌≡◌, refl, true, false, ◌&&◌, Option, some, List, [], ◌∷◌, map, ◌⊎◌,
  inl, inr, ◌==◌, if◌then◌else◌, trim, All, Bool-cases, arith, eq_iff, elem, length,
}
use model2api.Json.{Host}
use model2api.Auth.{
  AuthKeyItem, default_name, any, other_id, role_is, has_name, suffixed, try_suffix,
  build_default_name,
}

abbrev pub IsNodup : List String → Type 0
IsNodup [] = Unit
IsNodup (x ∷ xs) = (elem x xs ≡ false) × IsNodup xs

abbrev without_first : String → List String → List String
without_first x [] = []
without_first x (y ∷ ys) = if y == x then ys else y ∷ without_first x ys

length-without_first :
    (x : String) (ys : List String)
    → elem x ys ≡ true
    → length ys ≡ suc (length (without_first x ys))
length-without_first x [] h = absurd (cc)
length-without_first x (y ∷ ys) h = ground (arith, length-without_first x ys)

elem-without_first :
    (x z : String) (ys : List String)
    → (x == z) ≡ false
    → elem z ys ≡ true
    → elem z (without_first x ys) ≡ true
elem-without_first x z [] apart h = h
elem-without_first x z (y ∷ ys) apart h =
    ground (arith, eq_iff y x, eq_iff x z, eq_iff y z, elem-without_first x z ys)

all_remain :
    (x : String) (xs ys : List String)
    → elem x xs ≡ false
    → All (λ z. elem z ys ≡ true) xs
    → All (λ z. elem z (without_first x ys) ≡ true) xs
all_remain x [] ys apart h = tt
all_remain x (z ∷ xs) ys apart h = (
  elem-without_first x z ys (ground (arith, eq_iff x z, eq_iff z x)) h.0,
  all_remain x xs ys (ground arith) h.1,
)

-- Different texts that all stand in a list are no more than the list has.
length-IsNodup-le :
    (xs ys : List String) → IsNodup xs → All (λ z. elem z ys ≡ true) xs → length xs ≤ length ys
length-IsNodup-le [] ys d h = omega arith
length-IsNodup-le (x ∷ xs) ys d h =
    let rest = length-IsNodup-le xs (without_first x ys) d.1 (all_remain x xs ys d.0 h.1) in
    omega (arith, rest, length-without_first x ys h.0)

-- The names that the loop tries, as they are compared.
abbrev pub candidates : Host → String → ℕ → ℕ → List String
candidates h base_name suffix zero = []
candidates h base_name suffix (suc n) =
    trim (suffixed h base_name suffix) ∷ candidates h base_name (suc suffix) n

length-candidates :
    (h : Host) (base_name : String) (suffix n : ℕ) → length (candidates h base_name suffix n) ≡ n
length-candidates h base_name suffix zero = refl
length-candidates h base_name suffix (suc n) =
    omega (arith, length-candidates h base_name (suc suffix) n)

abbrev names : List AuthKeyItem → List String
names items = map (λ i. i.name) items

length-names : (items : List AuthKeyItem) → length (names items) ≡ length items
length-names [] = refl
length-names (i ∷ items) = omega (arith, length-names items)

elem-names :
    (items : List AuthKeyItem) (t : String) (role : Option String) (exclude_id : String)
    → any (λ i. other_id exclude_id i && role_is role i && i.name == t) items ≡ true
    → elem t (names items) ≡ true
elem-names [] t role exclude_id h = h
elem-names (i ∷ items) t role exclude_id h = elim (Bool-cases (i.name == t)) [
  | inl same ↦ rw same refl
  | inr other ↦ rw other (elem-names items t role exclude_id (ground arith))
]

elem-has_name :
    (items : List AuthKeyItem) (name : String) (role : Option String) (exclude_id : String)
    → has_name items name role exclude_id ≡ true
    → elem (trim name) (names items) ≡ true
unfolding has_name
elem-has_name items name role exclude_id h =
    elem-names items (trim name) role exclude_id (ground arith)

try_suffix-tried :
    (h : Host) (fuel : ℕ) (items : List AuthKeyItem) (base_name role exclude_id : String)
    (suffix : ℕ)
    → (has_name items
          (try_suffix h fuel items base_name role exclude_id suffix)
          (some role)
          exclude_id
        ≡ false)
      ⊎ All (λ z. elem z (names items) ≡ true) (candidates h base_name suffix fuel)
unfolding try_suffix
try_suffix-tried h zero items base_name role exclude_id suffix = inr tt
try_suffix-tried h (suc fuel) items base_name role exclude_id suffix =
    let taken = has_name items (suffixed h base_name suffix) (some role) exclude_id in
    elim (Bool-cases taken) [
      | inr free ↦ inl (rw (free, try_suffix) free)
      | inl taken' ↦ elim (try_suffix-tried h fuel items base_name role exclude_id (suc suffix)) [
        | inl free ↦ inl (rw (taken', try_suffix) free)
        | inr all ↦
            inr
              (elem-has_name items (suffixed h base_name suffix) (some role) exclude_id taken', all)
      ]
    ]

-- A name that is made up is free, where the numbers that are tried are printed differently: no key
-- of the role, but the one that is left out, has it. The loop needs no more rounds than there are
-- keys, and one.
pub build_default_name-free :
    (h : Host) (items : List AuthKeyItem) (role exclude_id : String)
    → IsNodup (candidates h (default_name h role) 2 (suc (length items)))
    → has_name items (build_default_name h items role exclude_id) (some role) exclude_id ≡ false
unfolding build_default_name
build_default_name-free h items role exclude_id d =
    let base = default_name h role in
    elim (Bool-cases (has_name items base (some role) exclude_id)) [
      | inr free ↦ rw free free
      | inl taken ↦
          rw taken (elim (try_suffix-tried h (suc (length items)) items base role exclude_id 2) [
            | inl free ↦ free
            | inr all ↦
                let many =
                  length-IsNodup-le (candidates h base 2 (suc (length items))) (names items) d
                    all in
                absurd (
                  omega (
                    arith,
                    many,
                    length-candidates h base 2 (suc (length items)),
                    length-names items,
                  ))
          ])
    ]
