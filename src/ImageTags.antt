-- ===== src/ImageTags.antt =====
-- src/services/image_tags_service.rs: the tags of the images, in one JSON file. The file system and
-- the text of JSON are the parameter `Disk`. `get_all_tags` is left out: it answers in the order of
-- the fields, which a removal from serde_json's map changes.
pub mod Changes
use model2api.Common.{
  ℕ, zero, suc, String, Bool, true, false, not, ◌||◌, Option, none, some, List, [], ◌∷◌, ◌++◌, ltb,
  ◌==◌, if◌then◌else◌, trim, elem, filterb,
}
use model2api.Json.{
  Value, Items, Fields, str, arr, obj, nil, cons, end, field, as_str, get_field, insert_field,
  remove_field,
}

-- What the code takes from the file system and from serde_json: `ensure` gives the file its first
-- content where it is missing, `load` reads and parses it, `store` prints an object into it.
pub record Disk : Type 1 where
  pub File : Type 0
  pub ensure : File → File
  pub load : File → Option Value
  pub store : Fields → File → File

pub record Inner (d : Disk) : Type 0 where
  pub file : d.File
  pub cache : Fields

pub loaded : Option Value → Fields
loaded (some (obj m)) = m
loaded other = end

-- The map that is read, and the file, which reading may create.
unfoldable pub read_file : (d : Disk) → d.File → Fields × d.File
unfolding loaded
read_file d file = (loaded (d.load (d.ensure file)), d.ensure file)

unfoldable pub write_file : (d : Disk) → Fields → d.File → d.File
write_file d m file = d.store m (d.ensure file)

unfoldable pub strings : Items → List String
strings nil = []
strings (cons v vs) = elim (as_str v) [ some t ↦ t ∷ strings vs | none ↦ strings vs ]

unfoldable pub value_to_tags : Option Value → List String
unfolding strings
value_to_tags (some (arr vs)) = strings vs
value_to_tags other = []

unfoldable pub items_of : List String → Items
items_of [] = nil
items_of (t ∷ ts) = cons (str t) (items_of ts)

unfoldable pub load_tags : (d : Disk) → Inner d → Fields × Inner d
load_tags d inner = let (m, file) = read_file d inner.file in (m, record { file = file; cache = m })

unfoldable pub save_tags : (d : Disk) → Fields → Inner d → Inner d
save_tags d m inner = record { file = write_file d m inner.file; cache = m }

unfoldable pub get_tags : (d : Disk) → String → Inner d → List String × Inner d
get_tags d image_rel inner =
    let (m, file) = read_file d inner.file in
    (value_to_tags (get_field image_rel m), record { file = file; cache = m })

-- The trimmed tags in their order, no blank one and none twice.
pub clean : List String → List String → List String
clean cleaned [] = cleaned
clean cleaned (t ∷ ts) =
    clean (if trim t == "" || elem (trim t) cleaned then cleaned else cleaned ++ (trim t ∷ [])) ts

-- An image without tags has no entry.
pub put_tags : String → List String → Fields → Fields
put_tags image_rel [] m = remove_field image_rel m
put_tags image_rel (t ∷ ts) m = insert_field image_rel (arr (items_of (t ∷ ts))) m

unfoldable pub set_tags : (d : Disk) → String → List String → Inner d → List String × Inner d
unfolding clean put_tags
set_tags d image_rel tags inner =
    let (m, file) = read_file d inner.file in
    let tag_map = put_tags image_rel (clean [] tags) m in
    (clean [] tags, record { file = write_file d tag_map file; cache = tag_map })

removed : (d : Disk) → Option Value → Fields → d.File → Inner d
removed d none tag_map file = record { file = file; cache = tag_map }
removed d (some v) tag_map file = record { file = write_file d tag_map file; cache = tag_map }

unfoldable pub remove_tags : (d : Disk) → String → Inner d → Inner d
unfolding removed
remove_tags d image_rel inner =
    let (m, file) = read_file d inner.file in
    removed d (get_field image_rel m) (remove_field image_rel m) file

pub keys_of : Fields → List String
keys_of end = []
keys_of (field k v m) = k ∷ keys_of m

pub delete_each : String → List String → ℕ × Fields → ℕ × Fields
unfolding put_tags
delete_each tag [] (n, m) = (n, m)
delete_each tag (rel ∷ rels) (n, m) =
    let current = value_to_tags (get_field rel m) in
    delete_each tag rels (
      if elem tag current
      then (suc n, put_tags rel (filterb (λ t. not (t == tag)) current) m)
      else (n, m))

unfoldable pub delete_tag : (d : Disk) → String → Inner d → ℕ × Inner d
unfolding delete_each keys_of
delete_tag d tag inner =
    let (m, file) = read_file d inner.file in
    let (n, tag_map) = delete_each tag (keys_of m) (0, m) in
    (n, record { file = if ltb 0 n then write_file d tag_map file else file; cache = tag_map })
