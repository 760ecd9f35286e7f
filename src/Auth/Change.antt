-- ===== src/Auth/Change.antt =====
-- src/services/auth_service.rs: `update_key`, `delete_key` and `authenticate`.
pub mod Login
pub mod Removed
use model2api.Common.{
  ℕ, zero, suc, ◌+◌, String, Bool, true, false, not, ◌&&◌, ◌||◌, Option, none, some, List, [], ◌∷◌,
  ◌++◌, map, filterb, length, nat_eq, ◌==◌, if◌then◌else◌, trim, append, ℤ, pos, ltb_ℤ, sub_ℕ,
  pos_part, neg_part, option_or,
}
use model2api.Common.Maps.{Map, get, insert}
use model2api.Json.{
  Value, Fields, Host, null, bool, int, str, obj, end, field, get_field, get_value, as_bool,
  bind_option,
}
use model2api.Storage.{StorageBackend}
use model2api.Auth.{
  AuthKeyItem, Inner, Draw, Result, ok, err, public, clean, reload, save, find, set_first, role_is,
  build_name, build_key_hash,
}

abbrev pub has_id : String → AuthKeyItem → Bool
has_id id item = item.id == id

-- A field of the updates that is there and not null.
abbrev pub given : String → Value → Option Value
given key updates = elim (get_value key updates) [
  | none ↦ none
  | some v ↦ elim v [ null ↦ none | other ↦ some other ]
]

next_role : Host → AuthKeyItem → String
next_role h item = if h.lower (trim item.role) == "admin" then "admin" else "user"

-- The result of a check, and what it is written to.
abbrev with_result : (String → AuthKeyItem) → Result String → Option AuthKeyItem
with_result f (ok t) = some (f t)
with_result f (err e) = none

update_name : Host → List AuthKeyItem → Value → AuthKeyItem → Option AuthKeyItem
update_name h items updates next = elim (given "name" updates) [
  | none ↦ some next
  | some v ↦
      with_result (λ n. record next { name = n })
        (build_name h items (clean h v) (next_role h next) next.id)
]

update_enabled : Value → AuthKeyItem → AuthKeyItem
update_enabled updates next = elim (given "enabled" updates) [
  | none ↦ next
  | some v ↦ record next { enabled = option_or next.enabled (as_bool v) }
]

update_hash : Host → String → List AuthKeyItem → Value → AuthKeyItem → Option AuthKeyItem
update_hash h admin_key items updates next = elim (given "key" updates) [
  | none ↦ some next
  | some v ↦
      with_result (λ k. record next { key_hash = k })
        (build_key_hash h admin_key items (clean h v) next.id)
]

-- The name first, then the switch, then the key; a name or a key that is refused ends the call.
pub apply_updates : Host → String → List AuthKeyItem → Value → AuthKeyItem → Option AuthKeyItem
unfolding update_name update_enabled update_hash next_role
apply_updates h admin_key items updates current =
    bind_option (update_name h items updates current)
      (λ named. update_hash h admin_key items updates (update_enabled updates named))

store_item : (b : StorageBackend) → String → Inner b → AuthKeyItem → Option Value × Inner b
store_item b id inner next =
    let changed : Inner b = record inner { items = set_first (has_id id) next inner.items } in
    elim (save b changed) [ none ↦ (none, changed) | some saved ↦ (some (public next), saved) ]

update_found :
    (b : StorageBackend)
    → Host
    → String
    → String
    → Value
    → Option String
    → Inner b
    → AuthKeyItem
    → Option Value × Inner b
unfolding apply_updates store_item
update_found b h admin_key id updates role inner current =
    if not (role_is role current)
    then (none, inner)
    else elim (apply_updates h admin_key inner.items updates current) [
      | none ↦ (none, inner)
      | some next ↦ store_item b id inner next
    ]

update_loaded :
    (b : StorageBackend)
    → Host
    → String
    → String
    → Value
    → Option String
    → Inner b
    → Option Value × Inner b
unfolding update_found
update_loaded b h admin_key id updates role inner = elim (find (has_id id) inner.items) [
  | none ↦ (none, inner)
  | some current ↦ update_found b h admin_key id updates role inner current
]

unfoldable pub update_key :
    (b : StorageBackend)
    → Host
    → String
    → (ℕ → Draw)
    → String
    → Value
    → Option String
    → Inner b
    → Option Value × Inner b
unfolding update_loaded
update_key b h admin_key d key_id updates role inner =
    if trim key_id == ""
    then (none, inner)
    else update_loaded b h admin_key (trim key_id) updates role (reload b h d inner)

abbrev pub doomed : String → Option String → AuthKeyItem → Bool
doomed id role item = item.id == id && role_is role item

delete_loaded : (b : StorageBackend) → String → Option String → Inner b → Bool × Inner b
delete_loaded b id role inner =
    let kept = filterb (λ item. not (doomed id role item)) inner.items in
    let changed : Inner b = record inner { items = kept } in
    if nat_eq (length kept) (length inner.items)
    then (false, changed)
    else elim (save b changed) [ none ↦ (false, changed) | some saved ↦ (true, saved) ]

unfoldable pub delete_key :
    (b : StorageBackend) → Host → (ℕ → Draw) → String → Option String → Inner b → Bool × Inner b
unfolding delete_loaded
delete_key b h d key_id role inner =
    if trim key_id == ""
    then (false, inner)
    else delete_loaded b (trim key_id) role (reload b h d inner)

-- Which key a candidate's hash opens.
abbrev pub opens : String → AuthKeyItem → Bool
opens candidate_hash item =
    item.enabled && not (item.key_hash == "") && item.key_hash == candidate_hash

-- The instant of a use, and its text: whole milliseconds.
pub record Now : Type 0 where
  pub millis : ℤ
  pub text : String

-- Sixty seconds or more since the last flush, or none yet.
abbrev pub flush_is_due : ℤ → Option ℤ → Bool
flush_is_due now none = true
flush_is_due now (some last) = not (ltb_ℤ (less now last) (pos 60_000))
  where
    less : ℤ → ℤ → ℤ
    less a c = sub_ℕ (pos_part a + neg_part c) (neg_part a + pos_part c)

flush : (b : StorageBackend) → Now → String → Inner b → Inner b
flush b now id inner =
    if flush_is_due now.millis (get id inner.last_used_flush_at)
    then elim (save b inner) [
      | none ↦ inner
      | some saved ↦ record saved {
        last_used_flush_at = insert id now.millis saved.last_used_flush_at;
      }
    ]
    else inner

authenticate_hash : (b : StorageBackend) → Now → String → Inner b → Option Value × Inner b
unfolding flush
authenticate_hash b now candidate_hash inner = elim (find (opens candidate_hash) inner.items) [
  | none ↦ (none, inner)
  | some item ↦
      let used = record item { last_used_at = some now.text } in
      (
        some (public used),
        flush b now item.id
            (record inner { items = set_first (opens candidate_hash) used inner.items }),
      )
]

unfoldable pub authenticate :
    (b : StorageBackend) → Host → Now → String → Inner b → Option Value × Inner b
unfolding authenticate_hash
authenticate b h now raw_key inner =
    if trim raw_key == ""
    then (none, inner)
    else authenticate_hash b now (h.sha256_hex (trim raw_key)) inner
