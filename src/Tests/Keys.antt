-- ===== src/Tests/Keys.antt =====
-- The keys of the API: a file with one key, and a second one that is created.
use model2api.Common.{
  false, ◌⊎◌, String, ◌≡◌, refl, Option, none, some, List, [], ◌∷◌, inl, inr, true, Bool-cases,
  ◌==◌, if◌then◌else◌, trim, nat_eq, pos, map,
}
use model2api.Json.{Value, Host, int, arr, obj, end, field, get_field}
use model2api.Storage.{StorageBackend, IsStorage}
use model2api.Storage.JsonFile
use model2api.Storage.JsonFile.{
  Files, Reading, IsFiles, json_backend, json_backend-IsStorage, missing, text, load_auth_keys,
  save_auth_keys,
}
use model2api.Auth.{
  AuthKeyItem, Inner, Draw, new, public, to_value, default_name, normalize_item, load, save, clean,
  has_name, build_default_name, build_name, build_key_hash, has_key_hash,
}
use model2api.Auth.Create.{created, create_key, draw_key}
use model2api.Auth.Create.Accepts.{IsNumbered}
use model2api.Auth.Create.Added.{Added, IsFresh, create_key-Added}
use model2api.Auth.Change.{Now, authenticate, delete_key}
use model2api.Auth.Change.Login.{used_at, LetIn, authenticate-create_key, authenticate-LetIn}
use model2api.Auth.Change.Removed.{Removed, delete_key-Removed}
use model2api.Auth.Items.{IsHost, IsItem, Holds}

abbrev reading : Option Value → Reading
reading none = missing
reading (some v) = text (some v)

abbrev files : Files
files = record { File = Option Value; load = reading; save = λ v f. some (some v) }

files-IsFiles : IsFiles files
files-IsFiles = record { load-save = λ v f g e. (let same : some v ≡ g = cc in rw (← same) refl) }

abbrev hash_of : String → String
hash_of t = if t == "sk-one" then "aa" else "bb"

abbrev number_text : Value → String
number_text (int (pos n)) = if nat_eq n 2 then "2" else "3"
number_text other = "x"

abbrev key_host : Host
key_host = record {
  print = number_text;
  lower = λ t. t;
  sha256_hex = hash_of;
  parse_rfc3339 = λ t. none;
  parse_naive = λ t. none;
}

key_host-IsHost : IsHost key_host
unfolding trim
key_host-IsHost = record {
  lower_admin = refl;
  lower_user = refl;
  hash_trimmed =
      λ t. elim (Bool-cases (t == "sk-one")) [ inl one ↦ rw one refl | inr two ↦ rw two refl ];
  hash_named =
      λ t. elim (Bool-cases (t == "sk-one")) [ inl one ↦ rw one refl | inr two ↦ rw two refl ];
}

abbrev one_key : AuthKeyItem
one_key = record {
  id = "k1";
  name = "普通用户";
  role = "user";
  key_hash = "aa";
  enabled = true;
  created_at = "2026-01-01";
  last_used_at = none;
}

abbrev new_key : AuthKeyItem
new_key = record one_key { id = "k2"; name = "普通用户 2"; key_hash = "bb" }

abbrev storage : StorageBackend
storage = json_backend files

abbrev stored_keys : List AuthKeyItem → Option Value
stored_keys items = some (obj (field "items" (arr (JsonFile.items_of (map to_value items))) end))

abbrev keys : Inner storage
keys = record { stored = stored_keys (one_key ∷ []); items = []; last_used_flush_at = [] }

abbrev keys_after : Inner storage
keys_after = record {
  stored = stored_keys (one_key ∷ new_key ∷ []);
  items = one_key ∷ new_key ∷ [];
  last_used_flush_at = [];
}

abbrev draw : Draw
draw = record { uuid12 = "k2"; now_iso = "2026-01-01" }

new_test :
    new storage key_host (λ n. draw) (stored_keys (one_key ∷ []))
    ≡ record keys { items = one_key ∷ [] }
unfolding new load load_auth_keys get_field JsonFile.items_of JsonFile.values_of normalize_item
    clean to_value trim
new_test = refl

create_test :
    create_key storage key_host "root" (λ n. draw) draw ("x" ∷ []) "" "user" "" keys
    ≡ (created (public new_key) "sk-x", keys_after)
unfolding create_key build_name trim draw_key build_key_hash has_key_hash load load_auth_keys
    get_field public JsonFile.items_of JsonFile.values_of save save_auth_keys normalize_item clean
    to_value has_name build_default_name
create_test = refl

one_key-IsItem : IsItem one_key
unfolding trim
one_key-IsItem = record {
  role = inr refl;
  id = record { trimmed = refl; named = refl };
  name = record { trimmed = refl; named = refl };
  hash = record { trimmed = refl; named = refl };
  created = record { trimmed = refl; named = refl };
  used = tt;
}

keys-Holds : Holds storage keys.stored (one_key ∷ [])
unfolding load_auth_keys JsonFile.items_of JsonFile.values_of get_field
keys-Holds = record {
  written = refl;
  good = record { each = (one_key-IsItem, tt); differ = (refl, tt) };
}

draw-IsFresh : IsFresh (one_key ∷ []) draw
unfolding trim
draw-IsFresh = record {
  id = record { trimmed = refl; named = refl };
  now = record { trimmed = refl; named = refl };
  unused = refl;
}

two_numbers : IsNumbered key_host (default_name key_host "user") 2
unfolding default_name trim
two_numbers = record {
  base = record { trimmed = refl; named = refl };
  differ = (refl, (refl, tt));
  clean = (record { trimmed = refl; named = refl }, (record { trimmed = refl; named = refl }, tt));
}

create_key-Added_example :
    Added storage key_host (one_key ∷ []) "user" "sk-x" (public new_key) keys_after
create_key-Added_example =
    create_key-Added storage key_host "root" "" "user" "" (λ n. draw) draw ("x" ∷ []) keys
      keys_after (one_key ∷ []) "sk-x" (public new_key) key_host-IsHost
      (json_backend-IsStorage files files-IsFiles) keys-Holds draw-IsFresh (inr refl) two_numbers
      create_test

abbrev now : Now
now = record { millis = pos 0; text = "2026-01-02" }

authenticate-create_key_example :
    (new : AuthKeyItem) × (public new_key ≡ public new)
    × (new.role ≡ "user")
    × ((authenticate storage key_host now "sk-x" keys_after).0 ≡ some (public (used_at now new)))
authenticate-create_key_example =
    authenticate-create_key storage key_host "root" "" "user" "" (λ n. draw) draw ("x" ∷ []) keys
      keys_after (one_key ∷ []) "sk-x" (public new_key) now key_host-IsHost
      (json_backend-IsStorage files files-IsFiles) keys-Holds draw-IsFresh (inr refl) two_numbers
      create_test

authenticate-LetIn_example :
    LetIn key_host now " sk-one"
      (one_key ∷ new_key ∷ [])
      (authenticate storage key_host now " sk-one" keys_after).0
authenticate-LetIn_example = authenticate-LetIn storage key_host now " sk-one" keys_after

delete_key-Removed_example :
    ((trim " k1" ≡ "") × (delete_key storage key_host (λ n. draw) " k1" none keys ≡ (false, keys)))
    ⊎ Removed storage
        (one_key ∷ [])
        (trim " k1")
        none
        keys.stored
        (delete_key storage key_host (λ n. draw) " k1" none keys)
delete_key-Removed_example =
    delete_key-Removed storage key_host (λ n. draw) " k1" none keys (one_key ∷ []) key_host-IsHost
      (json_backend-IsStorage files files-IsFiles) keys-Holds

json_backend-IsStorage_example : IsStorage (json_backend files)
json_backend-IsStorage_example = json_backend-IsStorage files files-IsFiles
