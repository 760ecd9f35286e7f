-- ===== src/Auth/Create.antt =====
-- src/services/auth_service.rs: `create_key`.
pub mod Accepts
pub mod Added
use model2api.Common.{
  ℕ, zero, suc, String, Bool, true, false, not, ◌&&◌, ◌||◌, Option, none, some, List, [], ◌∷◌, ◌++◌,
  map, filterb, length, nat_eq, ◌==◌, if◌then◌else◌, trim, append, ℤ, pos, ltb_ℤ, sub_ℕ, pos_part,
  neg_part, option_or,
}
use model2api.Common.Maps.{Map, get, insert}
use model2api.Json.{
  Value, Fields, Host, null, bool, int, str, obj, end, field, get_field, get_value, as_bool,
  bind_option,
}
use model2api.Storage.{StorageBackend}
use model2api.Auth.{
  AuthKeyItem, Inner, Draw, Result, ok, err, public, clean, reload, save, find, set_first, role_is,
  build_name, build_key_hash,
}

-- The loop that draws keys until one is accepted: the key with its hash.
unfoldable pub draw_key : Host → String → List AuthKeyItem → List String → Option (String × String)
draw_key h admin_key items [] = none
draw_key h admin_key items (token ∷ tokens) =
    let rest = draw_key h admin_key items tokens in
    elim (build_key_hash h admin_key items (append "sk-" token) "") [
      | ok key_hash ↦ some (append "sk-" token, key_hash)
      | err e ↦ rest
    ]

-- What `create_key` ends with; `draws` is left when the given random keys are used up.
pub data Created : Type 0 where
  created : Value → String → Created
  refused : String → Created
  draws : Created

new_item : Draw → String → String → String → AuthKeyItem
new_item d role name key_hash = record {
  id = d.uuid12;
  name = name;
  role = role;
  key_hash = key_hash;
  enabled = true;
  created_at = d.now_iso;
  last_used_at = none;
}

-- The key is kept in memory also where it cannot be saved; the next call loads what is stored.
push_item : (b : StorageBackend) → String → Inner b → AuthKeyItem → String → Created × Inner b
push_item b save_error inner item raw_key =
    let pushed : Inner b = record inner { items = inner.items ++ (item ∷ []) } in
    elim (save b pushed) [
      | none ↦ (refused save_error, pushed)
      | some saved ↦ (created (public item) raw_key, saved)
    ]

create_named :
    (b : StorageBackend)
    → Host
    → String
    → Draw
    → List String
    → String
    → String
    → Inner b
    → String
    → Created × Inner b
unfolding push_item new_item
create_named b h admin_key fresh tokens save_error role inner name =
    elim (draw_key h admin_key inner.items tokens) [
      | none ↦ (draws, inner)
      | some (raw_key, key_hash) ↦
          push_item b save_error inner (new_item fresh role name key_hash) raw_key
    ]

create_loaded :
    (b : StorageBackend)
    → Host
    → String
    → Draw
    → List String
    → String
    → String
    → String
    → Inner b
    → Created × Inner b
unfolding create_named
create_loaded b h admin_key fresh tokens save_error role name inner =
    elim (build_name h inner.items name role "") [
      | err e ↦ (refused e, inner)
      | ok normalized ↦ create_named b h admin_key fresh tokens save_error role inner normalized
    ]

unfoldable pub create_key :
    (b : StorageBackend)
    → Host
    → String
    → (ℕ → Draw)
    → Draw
    → List String
    → String
    → String
    → String
    → Inner b
    → Created × Inner b
unfolding create_loaded
create_key b h admin_key d fresh tokens save_error role name inner =
    create_loaded b h admin_key fresh tokens save_error role name (reload b h d inner)
