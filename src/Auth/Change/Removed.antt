-- ===== src/Auth/Change/Removed.antt =====
-- What `delete_key` leaves.
use model2api.Common.{
  ℕ, suc, String, ◌≡◌, ◌≤◌, refl, subst, Bool, true, false, not, Option, some, none, ◌⊎◌, map,
  eq_iff, List, [], ◌∷◌, inl, inr, ◌==◌, trim, All, Bool-cases, Option-cases, arith, length,
  filterb, nat_eq, length-filterb-le,
}
use model2api.Json.{Host}
use model2api.Storage.{StorageBackend, IsStorage}
use model2api.Auth.{AuthKeyItem, Inner, Draw, any, save, reload, to_value}
use model2api.Auth.Change.{doomed, delete_key, delete_loaded}
use model2api.Auth.Items.{IsHost, IsItem, IsGood, Differ, Holds, clashes, load-Holds, save-Holds}

abbrev pub keep : String → Option String → List AuthKeyItem → List AuthKeyItem
keep id role items = filterb (λ item. not (doomed id role item)) items

filterb-Differ :
    (test : AuthKeyItem → Bool) (items : List AuthKeyItem)
    → Differ items
    → Differ (filterb test items)
filterb-Differ test [] d = tt
filterb-Differ test (i ∷ items) d = elim (Bool-cases (test i)) [
  | inl kept ↦ rw kept (any-filterb test i items d.0, filterb-Differ test items d.1)
  | inr gone ↦ rw gone (filterb-Differ test items d.1)
]
  where
    any-filterb :
        (p : AuthKeyItem → Bool) (j : AuthKeyItem) (js : List AuthKeyItem)
        → any (clashes j) js ≡ false
        → any (clashes j) (filterb p js) ≡ false
    any-filterb p j [] h = h
    any-filterb p j (k ∷ ks) h = ground (arith, any-filterb p j ks)

filterb-All :
    (test : AuthKeyItem → Bool) (items : List AuthKeyItem)
    → All IsItem items
    → All IsItem (filterb test items)
filterb-All test [] v = tt
filterb-All test (i ∷ items) v = elim (Bool-cases (test i)) [
  | inl kept ↦ rw kept (v.0, filterb-All test items v.1)
  | inr gone ↦ rw gone (filterb-All test items v.1)
]

length-filterb-all :
    (test : AuthKeyItem → Bool) (items : List AuthKeyItem)
    → any test items ≡ false
    → length (filterb (λ i. not (test i)) items) ≡ length items
length-filterb-all test [] h = refl
length-filterb-all test (i ∷ items) h = ground (arith, length-filterb-all test items)

length-filterb-some :
    (test : AuthKeyItem → Bool) (items : List AuthKeyItem)
    → any test items ≡ true
    → suc (length (filterb (λ i. not (test i)) items)) ≤ length items
length-filterb-some test [] h = absurd (cc)
length-filterb-some test (i ∷ items) h =
    ground (arith, length-filterb-some test items, length-filterb-le {0} (λ i. not (test i)) items)

-- Why nothing is deleted: no key has the id, and the role if one is given, or the storage refuses to
-- save the keys that would be left.
abbrev pub Unchanged :
    (b : StorageBackend) → List AuthKeyItem → String → Option String → b.State → Type 0
Unchanged b items id role stored =
    (any (doomed id role) items ≡ false)
    ⊎ (b.save_auth_keys (map to_value (keep id role items)) stored ≡ none)

-- What the answer of `delete_key` tells: `true` that the keys with the id, and the role if one is
-- given, were there and are gone from the storage, and that the other keys are stored as they were;
-- `false` that nothing stored has changed, with the reason.
abbrev pub Removed :
    (b : StorageBackend)
    → List AuthKeyItem
    → String
    → Option String
    → b.State
    → Bool × Inner b
    → Type 0
Removed b items id role stored (true, t) =
    (any (doomed id role) items ≡ true)
    × Holds b t.stored (keep id role items)
    × (t.items ≡ keep id role items)
Removed b items id role stored (false, t) = (t.stored ≡ stored) × Unchanged b items id role stored

unsaved :
    {b : StorageBackend} (inner : Inner b)
    → save b inner ≡ none
    → b.save_auth_keys (map to_value inner.items) inner.stored ≡ none
unfolding save
unsaved {b} inner failed =
    elim (Option-cases (b.save_auth_keys (map to_value inner.items) inner.stored)) [
      | inl refused ↦ refused
      | inr (stored, done) ↦
          let absurd' : some (record inner { stored = stored }) ≡ none =
            rw (save, done) at failed in
          absurd cc
    ]

delete_loaded-Removed :
    (b : StorageBackend) (id : String) (role : Option String) (inner : Inner b)
    → IsStorage b
    → IsGood inner.items
    → Removed b inner.items id role inner.stored (delete_loaded b id role inner)
unfolding delete_loaded
delete_loaded-Removed b id role inner st g =
    let kept = keep id role inner.items in
    let changed : Inner b = record inner { items = kept } in
    elim (Bool-cases (any (doomed id role) inner.items)) [
      | inr nothing ↦
          let same = length-filterb-all (doomed id role) inner.items nothing in
          let equal : nat_eq (length kept) (length inner.items) ≡ true = ground (arith, same) in
          rw equal (refl, inl nothing)
      | inl some' ↦
          let fewer = length-filterb-some (doomed id role) inner.items some' in
          let less : nat_eq (length kept) (length inner.items) ≡ false = ground (arith, fewer) in
          rw less (elim (Option-cases (save b changed)) [
            | inl failed ↦ rw failed (refl, inr (unsaved changed failed))
            | inr (saved, wrote) ↦
                let good : IsGood kept = record {
                  each = filterb-All (λ i. not (doomed id role i)) inner.items g.each;
                  differ = filterb-Differ (λ i. not (doomed id role i)) inner.items g.differ;
                } in
                let (held, items, flushed) = save-Holds b changed saved st good wrote in
                rw wrote (some', held, items)
          ])
    ]

-- Deleting a key removes from the storage exactly the keys with the id, of the role if one is given,
-- and leaves all others as they were. Where it answers that it did not, nothing stored has changed, and
-- the id is blank, no key has it, or the storage refuses to save the keys that would be left.
pub delete_key-Removed :
    (b : StorageBackend) (h : Host) (d : ℕ → Draw) (key_id : String) (role : Option String)
    (inner : Inner b) (items : List AuthKeyItem)
    → IsHost h
    → IsStorage b
    → Holds b inner.stored items
    → ((trim key_id ≡ "") × (delete_key b h d key_id role inner ≡ (false, inner)))
      ⊎ Removed b items (trim key_id) role inner.stored (delete_key b h d key_id role inner)
unfolding delete_key
delete_key-Removed b h d key_id role inner items is st held =
    elim (Bool-cases (trim key_id == "")) [
      | inl blank ↦ rw blank (inl ((eq_iff (trim key_id) "").0 blank, refl))
      | inr named ↦
          let same = load-Holds b h d inner.stored items is held in
          rw named (
            inr (
              subst
                (λ xs.
                  Removed b xs (trim key_id) role inner.stored
                    (delete_loaded b (trim key_id) role (reload b h d inner)))
                same
                (delete_loaded-Removed b (trim key_id) role (reload b h d inner) st
                  (rw same held.good))))
    ]
