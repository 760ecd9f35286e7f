-- ===== src/Auth.antt =====
-- src/services/auth_service.rs: the keys of the API. Random ids and keys, and readings of the clock,
-- are arguments. `ct_eq` compares the bytes of two texts, so that it is their equality.
pub mod Create
pub mod Change
pub mod Items
pub mod Names
use model2api.Common.{
  ℕ, zero, suc, String, Bool, true, false, not, ◌&&◌, ◌||◌, Option, none, some, List, [], ◌∷◌, ◌++◌,
  map, filterb, length, nat_eq, ◌==◌, if◌then◌else◌, trim, append, ℤ, pos, ltb_ℤ, sub_ℕ, pos_part,
  neg_part, option_or,
}
use model2api.Common.Maps.{Map, get, insert}
use model2api.Json.{
  Value, Fields, Host, null, bool, int, str, obj, end, field, get_field, get_value, as_bool,
  bind_option,
}
use model2api.Storage.{StorageBackend}

pub record AuthKeyItem : Type 0 where
  pub id : String
  pub name : String
  pub role : String
  pub key_hash : String
  pub enabled : Bool
  pub created_at : String
  pub last_used_at : Option String

unfoldable pub clean : Host → Value → String
clean h value = elim value [ str t ↦ trim t | null ↦ "" | other ↦ h.print other ]

abbrev pub text_or_null : Option String → Value
text_or_null none = null
text_or_null (some t) = str t

unfoldable pub to_value : AuthKeyItem → Value
to_value i = obj (
    field "id" (str i.id) (
      field "name" (str i.name) (
        field "role" (str i.role) (
          field "key_hash" (str i.key_hash) (
            field "enabled" (bool i.enabled) (
              field "created_at" (str i.created_at)
                (field "last_used_at" (text_or_null i.last_used_at) end)))))))

unfoldable pub public : AuthKeyItem → Value
public i = obj (
    field "id" (str i.id) (
      field "name" (str i.name) (
        field "role" (str i.role) (
          field "enabled" (bool i.enabled) (
            field "created_at" (str i.created_at)
              (field "last_used_at" (text_or_null i.last_used_at) end))))))

unfoldable pub default_name : Host → String → String
default_name h role = if h.lower (trim role) == "admin" then "管理员密钥" else "普通用户"

-- What one item draws while it is loaded: a random id and the time.
pub record Draw : Type 0 where
  pub uuid12 : String
  pub now_iso : String

abbrev pub clean_at : Host → String → Fields → String
clean_at h key m = clean h (option_or null (get_field key m))

abbrev pub or_else : String → String → String
or_else v d = if v == "" then d else v

abbrev pub nonempty : String → Option String
nonempty v = if v == "" then none else some v

normalize_object : Host → Draw → Fields → Option AuthKeyItem
unfolding default_name
normalize_object h d m =
    let role = h.lower (clean_at h "role" m) in
    let key_hash = clean_at h "key_hash" m in
    if not (role == "admin") && not (role == "user")
    then none
    else if key_hash == ""
    then none
    else some (record {
      id = or_else (clean_at h "id" m) d.uuid12;
      name = or_else (clean_at h "name" m) (default_name h role);
      role = role;
      key_hash = key_hash;
      enabled = option_or true (bind_option (get_field "enabled" m) as_bool);
      created_at = or_else (clean_at h "created_at" m) d.now_iso;
      last_used_at = nonempty (clean_at h "last_used_at" m);
    })

unfoldable pub normalize_item : Host → Draw → Value → Option AuthKeyItem
unfolding normalize_object
normalize_item h d (obj m) = normalize_object h d m
normalize_item h d other = none

-- The draws by the position of the value.
pub load_each : Host → (ℕ → Draw) → ℕ → List Value → List AuthKeyItem
load_each h d n [] = []
load_each h d n (v ∷ vs) =
    let rest = load_each h d (suc n) vs in
    elim (normalize_item h (d n) v) [ none ↦ rest | some i ↦ i ∷ rest ]

-- Inner, with the state of the storage back end.
pub record Inner (b : StorageBackend) : Type 0 where
  pub stored : b.State
  pub items : List AuthKeyItem
  pub last_used_flush_at : Map ℤ

unfoldable pub load : (b : StorageBackend) → Host → (ℕ → Draw) → b.State → List AuthKeyItem
unfolding load_each
load b h d stored = load_each h d 0 (b.load_auth_keys stored)

unfoldable pub new : (b : StorageBackend) → Host → (ℕ → Draw) → b.State → Inner b
new b h draws stored = record {
  stored = stored;
  items = load b h draws stored;
  last_used_flush_at = [];
}

abbrev pub reload : (b : StorageBackend) → Host → (ℕ → Draw) → Inner b → Inner b
reload b h d inner = record inner { items = load b h d inner.stored }

abbrev pub find {ℓ} : {A : Type ℓ} → (A → Bool) → List A → Option A
find test [] = none
find test (x ∷ xs) = let rest = find test xs in if test x then some x else rest

-- The write to the place of the first element that passes.
abbrev pub set_first {ℓ} : {A : Type ℓ} → (A → Bool) → A → List A → List A
set_first test y [] = []
set_first test y (x ∷ xs) = let rest = set_first test y xs in if test x then y ∷ xs else x ∷ rest

unfoldable pub save : (b : StorageBackend) → Inner b → Option (Inner b)
save b inner = elim (b.save_auth_keys (map to_value inner.items) inner.stored) [
  | none ↦ none
  | some stored ↦ some (record inner { stored = stored })
]

abbrev pub any {ℓ} : {A : Type ℓ} → (A → Bool) → List A → Bool
any test [] = false
any test (x ∷ xs) = test x || any test xs

abbrev pub other_id : String → AuthKeyItem → Bool
other_id exclude_id item = exclude_id == "" || not (item.id == exclude_id)

unfoldable pub has_key_hash : List AuthKeyItem → String → String → Bool
has_key_hash items key_hash exclude_id =
    any (λ item. other_id exclude_id item && not (item.key_hash == "") && item.key_hash == key_hash)
      items

pub data Result {ℓ} (A : Type ℓ) : Type ℓ where
  ok : A → Result A
  err : String → Result A

-- `admin_key` is the setting `auth_key`.
unfoldable pub build_key_hash : Host → String → List AuthKeyItem → String → String → Result String
build_key_hash h admin_key items raw_key exclude_id =
    let candidate = trim raw_key in
    if candidate == ""
    then err "请输入新的专用密钥"
    else if not (trim admin_key == "") && candidate == trim admin_key
    then err "这个密钥和管理员密钥冲突了，请换一个新的密钥"
    else if has_key_hash items (h.sha256_hex candidate) exclude_id
    then err "这个专用密钥已经存在，请换一个新的密钥"
    else ok (h.sha256_hex candidate)

abbrev pub role_is : Option String → AuthKeyItem → Bool
role_is none item = true
role_is (some r) item = item.role == r

unfoldable pub has_name : List AuthKeyItem → String → Option String → String → Bool
has_name items name role exclude_id =
    not (trim name == "")
    && any (λ item. other_id exclude_id item && role_is role item && item.name == trim name) items

abbrev pub suffixed : Host → String → ℕ → String
suffixed h base_name suffix = append base_name (append " " (h.print (int (pos suffix))))

-- The loop over the suffixes 2, 3, …, on fuel; the base name stands for fuel that is used up.
pub try_suffix : Host → ℕ → List AuthKeyItem → String → String → String → ℕ → String
try_suffix h zero items base_name role exclude_id suffix = base_name
try_suffix h (suc fuel) items base_name role exclude_id suffix =
    elim (has_name items (suffixed h base_name suffix) (some role) exclude_id) [
      | true ↦ try_suffix h fuel items base_name role exclude_id (suc suffix)
      | false ↦ suffixed h base_name suffix
    ]

-- One round more than there are items is enough: a taken name is that of an item.
unfoldable pub build_default_name : Host → List AuthKeyItem → String → String → String
unfolding try_suffix default_name
build_default_name h items role exclude_id =
    if not (has_name items (default_name h role) (some role) exclude_id)
    then default_name h role
    else try_suffix h (suc (length items)) items (default_name h role) role exclude_id 2

unfoldable pub build_name : Host → List AuthKeyItem → String → String → String → Result String
build_name h items name role exclude_id =
    if trim name == ""
    then ok (build_default_name h items role exclude_id)
    else if has_name items (trim name) (some role) exclude_id
    then err "这个名称已经在使用中了，换一个更容易区分的名称吧"
    else ok (trim name)

unfoldable pub list_keys :
    (b : StorageBackend) → Host → (ℕ → Draw) → Option String → Inner b → List Value × Inner b
list_keys b h d role inner =
    let loaded = reload b h d inner in (map public (filterb (role_is role) loaded.items), loaded)
