-- ===== src/Tasks/Owned.antt =====
-- src/services/image_task_service.rs: whose tasks `list_tasks` shows.
use model2api.Common.{
  ◌∙◌, length, not, eq_iff, String, ◌≡◌, refl, true, some, List, [], ◌∷◌, map, filterb, inl, inr,
  Bool-cases, All, ℤ, arith,
}
use model2api.Common.Maps.{Map, get, values, IsDistinct, Entries, retain-IsDistinct}
use model2api.Common.Sorted.{All-sort_by, length-sort_by}
use model2api.Json.{Value, Fields, Host, obj, arr, nil, field, end}
use model2api.Tasks.{Times, Clock, public_task, owner_id}
use model2api.Tasks.Stored.{cleanup_tasks, is_expired, to_items}
use model2api.Tasks.Service.{Inner, is_owned, all_owned, newer_item, list_tasks, listed}

length-map : (f : Fields → Fields) (xs : List Fields) → length (map f xs) ≡ length xs
length-map f [] = refl
length-map f (x ∷ xs) = rw (length-map f xs) refl

-- Every entry is what the table has under its key.
held_everywhere :
    (tasks all : Map Fields)
    → IsDistinct tasks
    → ((key : String) (task : Fields) → get key tasks ≡ some task → get key all ≡ some task)
    → Entries (λ key task. get key all ≡ some task) tasks
unfolding get
held_everywhere [] all d held = tt
held_everywhere ((j, t) ∷ tasks) all d held = (
  held j t (ground (arith, eq_iff j j)),
  held_everywhere tasks all d.1
      (λ key task e. held key task (ground (arith, d.0, e, eq_iff j key))),
)

-- The view of a task of the owner that the table has.
abbrev pub IsShown : Times → Clock → String → Map Fields → Fields → Type 0
IsShown times k owner tasks item =
    (key : String) × (task : Fields) × (get key tasks ≡ some task)
    × (is_owned owner task ≡ true)
    × (item ≡ public_task times k task)

owned_views :
    (times : Times) (k : Clock) (owner : String) (all tasks : Map Fields)
    → Entries (λ key task. get key all ≡ some task) tasks
    → All
        (IsShown times k owner all)
        (map (public_task times k) (filterb (is_owned owner) (values tasks)))
owned_views times k owner all [] held = tt
owned_views times k owner all ((j, t) ∷ tasks) held = elim (Bool-cases (is_owned owner t)) [
  | inl mine ↦ rw mine ((j, t, held.0, mine, refl), owned_views times k owner all tasks held.1)
  | inr other ↦ rw other (owned_views times k owner all tasks held.1)
]

-- The list without identifiers: views of tasks of the owner that the table has after the expired
-- ones are removed, as many as there are, and no identifier is missing.
pub list_tasks-IsShown :
    (h : Host) (times : Times) (k : Clock) (retention : ℤ) (identity : Value) (inner : Inner)
    → IsDistinct inner.tasks
    → let owner = owner_id h times identity in
      let kept = (cleanup_tasks times k retention inner.tasks).0 in
      (items : List Fields) × ((list_tasks h times k retention identity [] inner).0
        ≡ obj (field "items" (arr (to_items items)) (field "missing_ids" (arr nil) end)))
      × All (IsShown times k owner kept) items
      × (length items ≡ length (filterb (is_owned owner) (values kept)))
unfolding list_tasks listed cleanup_tasks
list_tasks-IsShown h times k retention identity inner d =
    let owner = owner_id h times identity in
    let kept = (cleanup_tasks times k retention inner.tasks).0 in
    let distinct =
      retain-IsDistinct (λ key task. not (is_expired times k retention task)) inner.tasks d in
    let mine = map (public_task times k) (filterb (is_owned owner) (values kept)) in
    (
      all_owned times k owner kept,
      refl,
      All-sort_by newer_item (IsShown times k owner kept) mine (
          owned_views times k owner kept kept
            (held_everywhere kept kept distinct (λ key task e. e))),
      length-sort_by newer_item mine ∙ length-map (public_task times k) _,
    )
