-- ===== src/Json/Laws.antt =====
-- What the accessors of JSON objects answer after insertions, removals and merges.
use model2api.Common.{
  String, ◌≡◌, refl, ap, ◌∙◌, Bool, true, false, Option, none, some, ◌==◌, if◌then◌else◌, eq_iff,
  arith,
}
use model2api.Json.{Value, Fields, end, field, get_field, insert_field, remove_field, merge_objects}

pub get_field-insert_field :
    (k j : String) (v : Value) (m : Fields)
    → get_field j (insert_field k v m) ≡ (if k == j then some v else get_field j m)
unfolding get_field insert_field
get_field-insert_field k j v end = refl
get_field-insert_field k j v (field i w m) =
    ground (arith, eq_iff k j, eq_iff i k, eq_iff i j, get_field-insert_field k j v m)

pub get_field-remove_field :
    (k j : String) (m : Fields)
    → get_field j (remove_field k m) ≡ (if k == j then none else get_field j m)
unfolding get_field remove_field
get_field-remove_field k j end = ground arith
get_field-remove_field k j (field i w m) =
    ground (arith, eq_iff k j, eq_iff i k, eq_iff i j, get_field-remove_field k j m)

pub get_field-if :
    (b : Bool) (j : String) (m n : Fields)
    → get_field j (if b then m else n) ≡ (if b then get_field j m else get_field j n)
get_field-if true j m n = refl
get_field-if false j m n = refl

pub if_same {ℓ} : {A : Type ℓ} (b : Bool) (a : A) → (if b then a else a) ≡ a
if_same true a = refl
if_same false a = refl

-- For a field that both branches of a test leave alone.
pub ruleset branch_laws = (get_field-insert_field, get_field-remove_field, get_field-if, if_same)

pub ruleset field_laws = (get_field-insert_field, get_field-remove_field)

-- The last field of a name wins in a merge: what the incoming object says of a key, if anything.
abbrev pub last_field : String → Fields → Option Value → Option Value
last_field j end found = found
last_field j (field k v m) found = last_field j m (if k == j then some v else found)

pub get_field-merge_objects :
    (j : String) (d m : Fields) → get_field j (merge_objects d m) ≡ last_field j m (get_field j d)
unfolding merge_objects
get_field-merge_objects j d end = refl
get_field-merge_objects j d (field k v m) =
    get_field-merge_objects j (insert_field k v d) m
    ∙ ap (last_field j m) (get_field-insert_field k j v d)
