-- ===== src/Account/Resolve/Ends.antt =====
-- The alias loop ends by its own test, whatever cycles the aliases have: each round marks an alias
-- that was not seen before.
use model2api.Common.{
  ℕ, zero, suc, ◌≤◌, ◌<◌, String, ◌≡◌, refl, true, false, List, [], ◌∷◌, inl, inr, Bool-cases,
  eq_iff, elem, length, if◌then◌else◌, arith,
}
use model2api.Common.Maps.{Map, get, contains_key}
use model2api.Account.State.{Pool}
use model2api.Account.Resolve.{follows, next_token, resolve_loop}

-- How many aliases are not marked.
pub unseen : List String → Map String → ℕ
unseen seen [] = 0
unseen seen ((k, v) ∷ m) = if elem k seen then unseen seen m else suc (unseen seen m)

unseen-le-length : (m : Map String) → unseen [] m ≤ length m
unfolding unseen
unseen-le-length [] = omega arith
unseen-le-length ((k, v) ∷ m) = omega (arith, unseen-le-length m)

unseen_mono :
    (t : String) (seen : List String) (m : Map String) → unseen (t ∷ seen) m ≤ unseen seen m
unfolding unseen
unseen_mono t seen [] = omega arith
unseen_mono t seen ((k, v) ∷ m) = ground (arith, unseen_mono t seen m)

-- Marking an alias that was not marked leaves fewer.
pub unseen-lt :
    (t : String) (seen : List String) (m : Map String)
    → contains_key t m ≡ true
    → elem t seen ≡ false
    → unseen (t ∷ seen) m < unseen seen m
unfolding unseen get
unseen-lt t seen [] c e = ground arith
unseen-lt t seen ((k, v) ∷ m) c e =
    ground (arith, eq_iff t k, eq_iff k t, unseen_mono t seen m, unseen-lt t seen m)

pub follows_facts :
    (p : Pool) (t : String) (seen : List String)
    → follows p t seen ≡ true
    → (contains_key t p.token_aliases ≡ true) × (elem t seen ≡ false)
unfolding follows
follows_facts p t seen h = ground arith

-- More fuel changes nothing.
pub resolve_loop-fuel :
    (p : Pool) (fuel extra : ℕ) (t : String) (seen : List String)
    → unseen seen p.token_aliases < fuel
    → fuel ≤ extra
    → resolve_loop extra p t seen ≡ resolve_loop fuel p t seen
unfolding resolve_loop
resolve_loop-fuel p zero extra t seen h le = absurd (omega arith)
resolve_loop-fuel p (suc fuel) zero t seen h le = absurd (omega arith)
resolve_loop-fuel p (suc fuel) (suc extra) t seen h le = elim (Bool-cases (follows p t seen)) [
  | inl more ↦ rw (more) (
      resolve_loop-fuel p fuel extra (next_token p t) (t ∷ seen)
        (omega (
          arith,
          unseen-lt t seen p.token_aliases (follows_facts p t seen more).0
              (follows_facts p t seen more).1,
        ))
        (omega arith))
  | inr ends ↦ rw ends refl
]

pub enough_fuel : (p : Pool) → unseen [] p.token_aliases < suc (length p.token_aliases)
enough_fuel p = omega (arith, unseen-le-length p.token_aliases)
