-- ===== src/Storage/JsonFile.antt =====
-- src/services/storage/json_storage.rs: the back end that keeps each list in a JSON file. The file
-- system and the text of JSON are the parameter `Files`.
use model2api.Common.{◌≡◌, refl, ap, ◌∙◌, Option, some, List, [], ◌∷◌}
use model2api.Json.{Value, Items, arr, obj, nil, cons, end, field, get_field}
use model2api.Storage.{StorageBackend, IsStorage}

-- A file read: missing, unreadable or a text, of which serde_json makes a value, if it can.
pub data Reading : Type 0 where
  missing : Reading
  unreadable : Reading
  text : Option Value → Reading

-- `save` creates the folder, prints the value and writes the file; any of these can fail.
pub record Files : Type 1 where
  pub File : Type 0
  pub load : File → Reading
  pub save : Value → File → Option File

unfoldable pub values_of : Items → List Value
values_of nil = []
values_of (cons v vs) = v ∷ values_of vs

unfoldable pub items_of : List Value → Items
items_of [] = nil
items_of (v ∷ vs) = cons v (items_of vs)

pub list_of : Option Value → List Value
unfolding values_of
list_of (some (arr vs)) = values_of vs
list_of other = []

pub list_in : Reading → List Value
unfolding list_of
list_in (text v) = list_of v
list_in other = []

unfoldable pub load_json_list : (d : Files) → d.File → List Value
unfolding list_in
load_json_list d file = list_in (d.load file)

unfoldable pub save_json_list : (d : Files) → List Value → d.File → Option d.File
unfolding items_of
save_json_list d values file = d.save (arr (items_of values)) file

-- The wrapper form has the list under `items`.
pub unwrapped : Option Value → List Value
unfolding list_of values_of
unwrapped (some (obj m)) = list_of (get_field "items" m)
unwrapped (some (arr vs)) = values_of vs
unwrapped other = []

pub keys_in : Reading → List Value
unfolding unwrapped
keys_in (text v) = unwrapped v
keys_in other = []

unfoldable pub load_auth_keys : (d : Files) → d.File → List Value
unfolding keys_in
load_auth_keys d file = keys_in (d.load file)

unfoldable pub save_auth_keys : (d : Files) → List Value → d.File → Option d.File
unfolding items_of
save_auth_keys d values file = d.save (obj (field "items" (arr (items_of values)) end)) file

abbrev pub json_backend : Files → StorageBackend
json_backend d = record {
  State = d.File;
  load_auth_keys = load_auth_keys d;
  save_auth_keys = save_auth_keys d;
}

-- What the file system and serde_json are taken to do: a file that was written is read back.
pub record IsFiles (d : Files) : Type 0 where
  pub load-save : (v : Value) (f g : d.File) → d.save v f ≡ some g → d.load g ≡ text (some v)

values_of-items_of : (vs : List Value) → values_of (items_of vs) ≡ vs
unfolding values_of items_of
values_of-items_of [] = refl
values_of-items_of (v ∷ vs) = rw (values_of-items_of vs) refl

-- The JSON files keep the promise of a storage back end, whatever list is saved: what is loaded is
-- what was saved, in the wrapper form.
pub json_backend-IsStorage : (d : Files) → IsFiles d → IsStorage (json_backend d)
unfolding load_auth_keys save_auth_keys get_field
json_backend-IsStorage d is = record {
  load-save = λ values s t e.
      ap keys_in (is.load-save (obj (field "items" (arr (items_of values)) end)) s t e)
      ∙ values_of-items_of values;
}
