-- ===== src/Common/Maps.antt =====
-- Maps with text keys, in insertion order (the program's IndexMap and HashMap): an insertion
-- replaces the value in place or appends, and a removal keeps the order (`shift_remove`).
use Prim.Native.Nat.{suc, ◌≤◌}
use Prim.Native.String.{String}
use mathlib.Core.Path.{◌≡◌, refl}
use mathlib.Core.Bool.{Bool, true, false}
use mathlib.Core.Option.{Option, none, some}
use mathlib.Core.List.{List, [], ◌∷◌}
use mathlib.Core.Logic.{inl, inr}
use native.Mathlib.Omega.{arith}
use text.Mathlib.TextEquality.{eq_iff}
use model2api.Common.Tests.{◌==◌, if◌then◌else◌, Bool-cases}
use model2api.Common.Lists.{length, is_some}

abbrev pub Map {ℓ} : Type ℓ → Type ℓ
Map V = List (String × V)

module _ {ℓ} {V : Type ℓ} where
  unfoldable pub get : String → Map V → Option V
  get k [] = none
  get k ((j, v) ∷ m) = if j == k then some v else get k m

  unfoldable pub insert : String → V → Map V → Map V
  insert k v [] = (k, v) ∷ []
  insert k v ((j, w) ∷ m) = if j == k then (k, v) ∷ m else (j, w) ∷ insert k v m

  unfoldable pub remove : String → Map V → Map V
  remove k [] = []
  remove k ((j, v) ∷ m) = if j == k then remove k m else (j, v) ∷ remove k m

  abbrev pub contains_key : String → Map V → Bool
  contains_key k m = is_some (get k m)

  -- HashMap::retain
  unfoldable pub retain : (String → V → Bool) → Map V → Map V
  retain p [] = []
  retain p ((j, v) ∷ m) = if p j v then (j, v) ∷ retain p m else retain p m

  abbrev pub keys : Map V → List String
  keys [] = []
  keys ((k, v) ∷ m) = k ∷ keys m

  abbrev pub values : Map V → List V
  values [] = []
  values ((k, v) ∷ m) = v ∷ values m

  pub get-insert :
      (k j : String) (v : V) (m : Map V)
      → get j (insert k v m) ≡ (if k == j then some v else get j m)
  unfolding get insert
  get-insert k j v [] = refl
  get-insert k j v ((i, w) ∷ m) =
      ground (arith, eq_iff k j, eq_iff i k, eq_iff i j, get-insert k j v m)

  pub get-remove :
      (k j : String) (m : Map V) → get j (remove k m) ≡ (if k == j then none else get j m)
  unfolding get remove
  get-remove k j [] = ground arith
  get-remove k j ((i, w) ∷ m) = ground (arith, eq_iff k j, eq_iff i k, eq_iff i j, get-remove k j m)

  -- A property of every entry.
  abbrev pub Entries {κ} : (String → V → Type κ) → Map V → Type κ
  Entries P [] = Unit
  Entries P ((k, v) ∷ m) = P k v × Entries P m

  module _ {κ} (P : String → V → Type κ) where
    pub Entries-get : (k : String) (m : Map V) (v : V) → Entries P m → get k m ≡ some v → P k v
    unfolding get
    Entries-get k [] v h e = ground arith
    Entries-get k ((j, w) ∷ m) v h e = ground (arith, eq_iff j k, Entries-get k m v h.1)

    pub Entries-insert :
        (k : String) (v : V) (m : Map V) → Entries P m → P k v → Entries P (insert k v m)
    unfolding insert
    Entries-insert k v [] h p = (p, tt)
    Entries-insert k v ((j, w) ∷ m) h p = ground (arith, Entries-insert k v m h.1 p)

    pub Entries-remove : (k : String) (m : Map V) → Entries P m → Entries P (remove k m)
    unfolding remove
    Entries-remove k [] h = tt
    Entries-remove k ((j, w) ∷ m) h = ground (arith, Entries-remove k m h.1)

  -- No key stands twice.
  abbrev pub IsDistinct : Map V → Type 0
  IsDistinct [] = Unit
  IsDistinct ((k, v) ∷ m) = (contains_key k m ≡ false) × IsDistinct m

  pub insert-IsDistinct :
      (k : String) (v : V) (m : Map V) → IsDistinct m → IsDistinct (insert k v m)
  unfolding insert get
  insert-IsDistinct k v [] d = (refl, tt)
  insert-IsDistinct k v ((j, w) ∷ m) d =
      ground (arith, insert-IsDistinct k v m d.1, get-insert k j v m, eq_iff j k, eq_iff k j)

  pub remove-IsDistinct : (k : String) (m : Map V) → IsDistinct m → IsDistinct (remove k m)
  unfolding remove
  remove-IsDistinct k [] d = tt
  remove-IsDistinct k ((j, w) ∷ m) d = ground (arith, remove-IsDistinct k m d.1, get-remove k j m)

  pub length-insert :
      (k : String) (v : V) (m : Map V)
      → length (insert k v m) ≡ (if contains_key k m then length m else suc (length m))
  unfolding insert get
  length-insert k v [] = refl
  length-insert k v ((j, w) ∷ m) = ground (arith, length-insert k v m)

  -- A removal takes one entry away, where there is one.
  pub length-remove :
      (k : String) (m : Map V)
      → IsDistinct m
      → length m ≡ (if contains_key k m then suc (length (remove k m)) else length (remove k m))
  unfolding remove get
  length-remove k [] d = refl
  length-remove k ((j, w) ∷ m) d = ground (arith, eq_iff j k, length-remove k m d.1)

  -- What is not retained is not there.
  pub get-retain :
      (p : String → V → Bool) (k : String) (m : Map V) (v : V)
      → get k (retain p m) ≡ some v
      → p k v ≡ true
  unfolding retain get
  get-retain p k [] v e = absurd (cc)
  get-retain p k ((j, w) ∷ m) v e = ground (arith, eq_iff j k, get-retain p k m v)

  pub retain_absent :
      (p : String → V → Bool) (k : String) (m : Map V) → get k m ≡ none → get k (retain p m) ≡ none
  unfolding retain get
  retain_absent p k [] h = refl
  retain_absent p k ((i, x) ∷ m) h = ground (arith, retain_absent p k m)

  pub retain-IsDistinct :
      (p : String → V → Bool) (m : Map V) → IsDistinct m → IsDistinct (retain p m)
  unfolding retain
  retain-IsDistinct p [] d = tt
  retain-IsDistinct p ((i, x) ∷ m) d =
      ground (arith, retain_absent p i m, retain-IsDistinct p m d.1)

  pub get-retain_passes :
      (p : String → V → Bool) (k : String) (m : Map V)
      → IsDistinct m
      → get k (retain p m)
        ≡ elim (get k m) [ none ↦ none | some e ↦ if p k e then some e else none ]
  unfolding retain get
  get-retain_passes p k [] d = refl
  get-retain_passes p k ((i, x) ∷ m) d = elim (Bool-cases (i == k)) [
    | inl same ↦ ground (arith, eq_iff i k, retain_absent p i m, d.0)
    | inr other ↦ ground (arith, eq_iff i k, get-retain_passes p k m d.1)
  ]

  pub length-retain-le : (p : String → V → Bool) (m : Map V) → length (retain p m) ≤ length m
  unfolding retain
  length-retain-le p [] = omega arith
  length-retain-le p ((i, x) ∷ m) = ground (arith, length-retain-le p m)

pub ruleset map_laws = (get-insert, get-remove)
