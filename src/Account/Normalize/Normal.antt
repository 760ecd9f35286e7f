-- ===== src/Account/Normalize/Normal.antt =====
-- What `normalize_account` promises of each field.
use model2api.Common.{
  String, ◌≡◌, refl, false, some, pos, max_ℤ, ◌==◌, inl, inr, if◌then◌else◌, Bool-cases, trim,
  arith,
}
use model2api.Json.{int, str, bool, Fields, Host, get_field, text_at, int_at, bool_at, s}
use model2api.Json.Laws.{field_laws}
use model2api.Account.Normalize.{with_token, with_codex, normalize_fields}

-- The Codex spelling touches two fields only.
get_field-with_codex :
    (h : Host) (o n : Fields) (j : String)
    → ("type" == j) ≡ false
    → ("export_type" == j) ≡ false
    → get_field j (with_codex h o n) ≡ get_field j n
unfolding with_codex
get_field-with_codex h o n j a b = elim (Bool-cases (h.lower (trim (s h o "type")) == "codex")) [
  | inl yes' ↦ rw yes' (simp (field_laws, a, b))
  | inr no' ↦ rw no'
]

-- A default that is not empty makes up for an empty text.
pub default-ne-nil :
    (default t : String)
    → (default == "") ≡ false
    → ((if t == "" then default else t) == "") ≡ false
default-ne-nil default t h = ground arith

module _ (h : Host) (now t : String) (o : Fields) where
  pub token-normalize_fields : get_field "access_token" (normalize_fields h now t o) ≡ some (str t)
  unfolding normalize_fields
  token-normalize_fields =
      simp (field_laws, get_field-with_codex h o (with_token t o) "access_token" refl refl)

  pub quota-normalize_fields :
      get_field "quota" (normalize_fields h now t o) ≡ some (int (max_ℤ (int_at "quota" o) (pos 0)))
  unfolding normalize_fields
  quota-normalize_fields =
      simp (field_laws, get_field-with_codex h o (with_token t o) "quota" refl refl)

  pub status-normalize_fields :
      get_field "status" (normalize_fields h now t o)
      ≡ some (str (if text_at "status" o == "" then "正常" else text_at "status" o))
  unfolding normalize_fields
  status-normalize_fields =
      simp (field_laws, get_field-with_codex h o (with_token t o) "status" refl refl)

  pub unknown-normalize_fields :
      get_field "image_quota_unknown" (normalize_fields h now t o)
      ≡ some (bool (bool_at "image_quota_unknown" o))
  unfolding normalize_fields
  unknown-normalize_fields =
      simp (field_laws, get_field-with_codex h o (with_token t o) "image_quota_unknown" refl refl)

  pub success-normalize_fields :
      get_field "success" (normalize_fields h now t o) ≡ some (int (int_at "success" o))
  unfolding normalize_fields
  success-normalize_fields =
      simp (field_laws, get_field-with_codex h o (with_token t o) "success" refl refl)

  pub type-normalize_fields : (text_at "type" (normalize_fields h now t o) == "") ≡ false
  unfolding normalize_fields
  type-normalize_fields =
      simp field_laws
        (default-ne-nil "free" (text_at "type" (with_codex h o (with_token t o))) refl)
