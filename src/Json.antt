-- ===== src/Json.antt =====
-- The JSON values of serde_json, with the accessors that the program calls on them, and the shared
-- helpers `s`, `s_trim` and `merge_objects` of src/services/account_service.rs.
--
-- A number is an integer (`PosInt` and `NegInt` of serde_json) or a float, kept as its 64 bits. An
-- object is a list of fields. What is modelled never reads the order of an object's fields, so a
-- removal keeps the order of the others.
pub mod Laws
use model2api.Common.{
  ℕ, String, ◌≡◌, Bool, false, true, Option, none, some, List, [], ◌∷◌, ℤ, pos, negsuc, ltb, ◌==◌,
  if◌then◌else◌, i64_half, trim, option_or,
}

mutual
  pub data Fields : Type 0 where
    end : Fields
    field : String → Value → Fields → Fields

  pub data Value : Type 0 where
    null : Value
    bool : Bool → Value
    int : ℤ → Value
    float : ℕ → Value
    str : String → Value
    arr : Items → Value
    obj : Fields → Value

  pub data Items : Type 0 where
    nil : Items
    cons : Value → Items → Items

-- Map::get, Map::insert, Map::remove
unfoldable pub get_field : String → Fields → Option Value
get_field k end = none
get_field k (field j v m) = if j == k then some v else get_field k m

unfoldable pub insert_field : String → Value → Fields → Fields
insert_field k v end = field k v end
insert_field k v (field j w m) = if j == k then field k v m else field j w (insert_field k v m)

unfoldable pub remove_field : String → Fields → Fields
remove_field k end = end
remove_field k (field j v m) = if j == k then remove_field k m else field j v (remove_field k m)

-- Value::get
abbrev pub get_value : String → Value → Option Value
get_value k (obj m) = get_field k m
get_value k _ = none

-- Value::as_str, as_bool and as_i64. An integer of 2^63 or more is a u64, and no i64.
abbrev pub as_str : Value → Option String
as_str (str s) = some s
as_str _ = none

abbrev pub as_bool : Value → Option Bool
as_bool (bool b) = some b
as_bool _ = none

abbrev pub as_i64 : Value → Option ℤ
as_i64 (int (pos n)) = if ltb n i64_half then some (pos n) else none
as_i64 (int (negsuc n)) = if ltb n i64_half then some (negsuc n) else none
as_i64 _ = none

abbrev pub is_object : Value → Bool
is_object (obj m) = true
is_object _ = false

abbrev pub is_array : Value → Bool
is_array (arr xs) = true
is_array _ = false

-- `get(key).and_then(as_…).unwrap_or(default)`
abbrev pub bind_option {ℓ κ} : {A : Type ℓ} {B : Type κ} → Option A → (A → Option B) → Option B
bind_option none f = none
bind_option (some a) f = f a

abbrev pub text_at : String → Fields → String
text_at k m = option_or "" (bind_option (get_field k m) as_str)

abbrev pub int_at : String → Fields → ℤ
int_at k m = option_or (pos 0) (bind_option (get_field k m) as_i64)

abbrev pub bool_at : String → Fields → Bool
bool_at k m = option_or false (bind_option (get_field k m) as_bool)

-- What the program takes from outside its sources: `Value::to_string` of serde_json, the Unicode
-- tables of `str::to_lowercase`, SHA-256 in hex, and chrono's reading of a date, in milliseconds.
pub record Host : Type 0 where
  pub print : Value → String
  pub lower : String → String
  pub sha256_hex : String → String
  pub parse_rfc3339 : String → Option ℤ
  pub parse_naive : String → Option ℤ

-- The readings of the clock that one call makes, in the formats that it asks for.
pub record Clock : Type 0 where
  pub now_str : String
  pub now_local_str : String
  pub now_rfc3339 : String
  pub now_millis : ℤ

-- `value[key] = v` on an object.
abbrev pub set : String → Value → Fields → Fields
set k v m = insert_field k v m

-- s, s_trim
unfoldable pub s : Host → Fields → String → String
s h m key = elim (get_field key m) [
  | none ↦ ""
  | some v ↦ elim v [ str t ↦ t | null ↦ "" | other ↦ h.print other ]
]

unfoldable pub s_trim : Host → Fields → String → String
unfolding s
s_trim h m key = trim (s h m key)

-- merge_objects, on objects: the fields of the second go over those of the first.
unfoldable pub merge_objects : Fields → Fields → Fields
merge_objects d end = d
merge_objects d (field k v m) = merge_objects (insert_field k v d) m
