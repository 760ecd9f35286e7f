-- ===== src/Account/Normalize.antt =====
-- src/services/account_service.rs: `normalize_account`, `normalize_account_type`,
-- `normalize_source_type`, `set_or_null`. A clock reading is the argument `now`. The body of
-- `normalize_account` is one function for each group of its statements, in the source's order.
pub mod Normal
use model2api.Common.{
  String, ◌≡◌, refl, Bool, true, false, ◌&&◌, Option, none, some, [], ◌∷◌, pos, ◌==◌, if◌then◌else◌,
  max_ℤ, trim, replace_char, option_or,
}
use model2api.Common.Maps.{Map, get}
use model2api.Json.{
  Value, null, bool, int, str, arr, obj, nil, Fields, end, field, Host, get_field, insert_field,
  remove_field, text_at, int_at, bool_at, is_array, s,
}

-- What a JSON value reads as before it is trimmed.
abbrev pub raw_text : Host → Value → String
raw_text h (str t) = t
raw_text h null = ""
raw_text h other = h.print other

unfoldable pub normalize_source_type : Host → Value → String
normalize_source_type h value =
    let raw = h.lower (trim (raw_text h value)) in if raw == "" then "web" else raw

abbrev aliases : Map String
aliases =
    ("free", "free")
    ∷ ("plus", "Plus")
    ∷ ("pro", "Pro")
    ∷ ("prolite", "ProLite")
    ∷ ("team", "Team")
    ∷ ("business", "Team")
    ∷ ("enterprise", "Enterprise")
    ∷ []

-- The two loops over the aliases: the compact spelling first, then the key.
alias_of : String → String → String → String
unfolding get
alias_of compact key raw = option_or (option_or raw (get key aliases)) (get compact aliases)

-- Only a text is trimmed here.
abbrev trim_text : Host → Value → String
trim_text h (str t) = trim t
trim_text h null = ""
trim_text h other = h.print other

unfoldable pub normalize_account_type : Host → Value → Option String
unfolding alias_of
normalize_account_type h value =
    let raw = trim_text h value in
    let key = replace_char b' ' "_" (replace_char b'-' "_" (h.lower raw)) in
    if raw == "" then none else some (alias_of (replace_char b'_' "" key) key raw)

abbrev or_null : Option Value → Value
or_null none = null
or_null (some (str t)) = if t == "" then null else str t
or_null (some v) = v

pub set_or_null : String → Fields → Fields
set_or_null key n = insert_field key (or_null (get_field key n)) n

with_token : String → Fields → Fields
with_token t o = insert_field "access_token" (str t) (remove_field "accessToken" o)

with_codex : Host → Fields → Fields → Fields
unfolding s
with_codex h item n =
    if h.lower (trim (s h item "type")) == "codex"
    then remove_field "type" (insert_field "export_type" (str "codex") n)
    else n

-- The text of a field, or a default where there is none.
with_default : String → String → Fields → Fields
with_default key default n =
    insert_field key (str (if text_at key n == "" then default else text_at key n)) n

with_quota : Fields → Fields
with_quota n = insert_field "quota" (int (max_ℤ (int_at "quota" n) (pos 0))) n

with_unknown : Fields → Fields
with_unknown n = insert_field "image_quota_unknown" (bool (bool_at "image_quota_unknown" n)) n

with_proxy : Fields → Fields
with_proxy n = insert_field "proxy" (str (trim (text_at "proxy" n))) n

is_blank : Value → Bool
is_blank (str t) = trim t == ""
is_blank _ = true

with_source_type : Host → Fields → Fields
unfolding normalize_source_type is_blank
with_source_type h n = insert_field "source_type" (str (normalize_source_type h source)) n
  where
    st : Value
    st = option_or null (get_field "source_type" n)

    source : Value
    source =
        if is_blank st && h.lower (trim (text_at "export_type" n)) == "codex"
        then str "codex"
        else st

with_limits : Fields → Fields
with_limits n = insert_field "limits_progress" (if is_array limits then limits else arr nil) n
  where
    limits : Value
    limits = option_or null (get_field "limits_progress" n)

with_count : String → Fields → Fields
with_count key n = insert_field key (int (int_at key n)) n

with_times : Fields → Fields
unfolding set_or_null
with_times n = set_or_null "last_token_refresh_error_at" (
    set_or_null "last_token_refresh_error" (
      set_or_null "last_token_refresh_at" (
        set_or_null "last_refresh_error_at" (
          set_or_null "last_refresh_error"
            (set_or_null "last_invalid_at" (set_or_null "last_used_at" n))))))

with_counts : Fields → Fields
unfolding with_count
with_counts n = with_count "invalid_count" (with_count "fail" (with_count "success" n))

-- Everything after the access token is known.
unfoldable pub normalize_fields : Host → String → String → Fields → Fields
unfolding with_token with_codex with_default with_quota with_unknown set_or_null with_proxy
    with_source_type with_limits with_counts with_times
normalize_fields h now t o =
    let typed = with_default "type" "free" (with_codex h o (with_token t o)) in
    let quota = with_unknown (with_quota (with_default "status" "正常" typed)) in
    let user = with_proxy (set_or_null "user_id" (set_or_null "email" quota)) in
    let source = with_limits (with_source_type h user) in
    let restore = set_or_null "restore_at" (set_or_null "default_model_slug" source) in
    with_default "created_at" now (with_times (with_counts restore))

-- The token of an account object, under either name.
abbrev pub token_of : Fields → String
token_of o =
    if text_at "access_token" o == "" then text_at "accessToken" o else text_at "access_token" o

unfoldable pub normalize_object : Host → String → Fields → Option Fields
normalize_object h now o =
    if token_of o == "" then none else some (normalize_fields h now (token_of o) o)

unfoldable pub normalize_account : Host → String → Value → Option Fields
unfolding normalize_object
normalize_account h now (obj o) = normalize_object h now o
normalize_account h now _ = none

abbrev pub plain_host : Host
plain_host = record {
  print = λ v. "?";
  lower = λ t. t;
  sha256_hex = λ t. "0123456789abcdef";
  parse_rfc3339 = λ t. none;
  parse_naive = λ t. none;
}

type_test : normalize_account_type plain_host (str " pro-lite") ≡ some "ProLite"
unfolding normalize_account_type replace_char trim
type_test = refl
