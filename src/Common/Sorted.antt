-- ===== src/Common/Sorted.antt =====
-- What sorting keeps.
use mathlib.Core.Path.{◌≡◌, refl, ◌∙◌}
use mathlib.Core.Bool.{Bool}
use mathlib.Core.List.{List, [], ◌∷◌}
use mathlib.Core.Logic.{inl, inr}
use Prim.Native.Nat.{suc}
use native.Mathlib.Omega.{arith}
use model2api.Common.Tests.{Bool-cases}
use model2api.Common.Lists.{All, length}
use model2api.Common.Sorting.{sort_by, insert_sorted}

module _ {ℓ κ} {A : Type ℓ} (before : A → A → Bool) (P : A → Type κ) where
  All-insert_sorted : (x : A) (xs : List A) → P x → All P xs → All P (insert_sorted before x xs)
  unfolding insert_sorted
  All-insert_sorted x [] p all = (p, tt)
  All-insert_sorted x (y ∷ xs) p all = elim (Bool-cases (before y x)) [
    | inl later ↦ rw later (all.0, All-insert_sorted x xs p all.1)
    | inr first ↦ rw first (p, all)
  ]

  pub All-sort_by : (xs : List A) → All P xs → All P (sort_by before xs)
  unfolding sort_by
  All-sort_by [] all = tt
  All-sort_by (x ∷ xs) all = All-insert_sorted x (sort_by before xs) all.0 (All-sort_by xs all.1)

module _ {ℓ} {A : Type ℓ} (before : A → A → Bool) where
  length-insert_sorted :
      (x : A) (xs : List A) → length (insert_sorted before x xs) ≡ suc (length xs)
  unfolding insert_sorted
  length-insert_sorted x [] = refl
  length-insert_sorted x (y ∷ xs) = ground (arith, length-insert_sorted x xs)

  pub length-sort_by : (xs : List A) → length (sort_by before xs) ≡ length xs
  unfolding sort_by
  length-sort_by [] = refl
  length-sort_by (x ∷ xs) = length-insert_sorted x (sort_by before xs) ∙ rw (length-sort_by xs) refl
