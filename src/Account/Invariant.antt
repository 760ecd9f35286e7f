-- ===== src/Account/Invariant.antt =====
-- The well-formedness of the account pool: each account stands once, under its own access token,
-- with a status, a type and a quota that is no negative number; each slot count is in its bounds.
pub mod Store
use model2api.Common.{
  ℕ, String, ◌<◌, ◌≡◌, refl, false, Option, none, some, ℤ, pos, negsuc, option_or, IsI64, max_ℤ,
  ◌≤ℤ◌, ◌==◌, inl, inr, Bool-cases, ap, ◌∙◌, i64_half, arith,
}
use model2api.Common.Maps.{Entries, IsDistinct}
use model2api.Json.{Value, int, str, Fields, Host, get_field, text_at, int_at, as_i64, bind_option}
use model2api.Account.Normalize.{normalize_object, normalize_fields, token_of}
use model2api.Account.Normalize.Normal.{
  token-normalize_fields, quota-normalize_fields, status-normalize_fields, type-normalize_fields,
  default-ne-nil,
}
use model2api.Account.State.{Pool, Config}
use model2api.Account.Matching.{max_concurrency}

pub record IsAccount (k : String) (item : Fields) : Type 0 where
  pub token : get_field "access_token" item ≡ some (str k)
  pub named : (k == "") ≡ false
  pub quota_value : ℕ
  pub quota : get_field "quota" item ≡ some (int (pos quota_value))
  pub quota_fits : quota_value < i64_half
  pub status : (text_at "status" item == "") ≡ false
  pub kind : (text_at "type" item == "") ≡ false

pub record IsValid (p : Pool) : Type 0 where
  pub distinct : IsDistinct p.accounts
  pub accounts : Entries IsAccount p.accounts

-- Every slot that is counted is in use, and none is used beyond the limit.
abbrev pub InSlots : ℤ → String → ℤ → Type 0
InSlots limit t n = (pos 1 ≤ℤ n) × (n ≤ℤ limit)

abbrev pub IsBounded : Config → Pool → Type 0
IsBounded c p = Entries (InSlots (max_concurrency c)) p.image_inflight

option_or-IsI64 : (o : Option Value) → IsI64 (option_or (pos 0) (bind_option o as_i64))
option_or-IsI64 none = omega arith
option_or-IsI64 (some (int (pos n))) = ground arith
option_or-IsI64 (some (int (negsuc n))) = ground arith
option_or-IsI64 (some v) = omega arith

pub int_at-IsI64 : (k : String) (m : Fields) → IsI64 (int_at k m)
int_at-IsI64 k m = option_or-IsI64 (get_field k m)

clamped : (z : ℤ) → IsI64 z → (q : ℕ) × (max_ℤ z (pos 0) ≡ pos q) × (q < i64_half)
clamped (pos n) h = (n, ground arith, h)
clamped (negsuc n) h = (0, ground arith, omega arith)

-- What `normalize_account` answers is a well-formed account, under the token that it was given.
pub normalize_object-IsAccount :
    (h : Host) (now : String) (o n : Fields)
    → normalize_object h now o ≡ some n
    → IsAccount (token_of o) n
unfolding normalize_object
normalize_object-IsAccount h now o n e = elim (Bool-cases (token_of o == "")) [
  | inl none' ↦ let e' : none ≡ some n = rw none' at e in absurd (cc)
  | inr named ↦
      let e' : normalize_fields h now (token_of o) o ≡ n = (ground arith) in
      let (q, clamp, fits) = clamped (int_at "quota" o) (int_at-IsI64 "quota" o) in
      rw (← e') (record {
        token = token-normalize_fields h now (token_of o) o;
        named = named;
        quota_value = q;
        quota = quota-normalize_fields h now (token_of o) o ∙ ap (λ z. some (int z)) clamp;
        quota_fits = fits;
        status =
            rw (status-normalize_fields h now (token_of o) o)
              (default-ne-nil "正常" (text_at "status" o) refl);
        kind = type-normalize_fields h now (token_of o) o;
      })
]
