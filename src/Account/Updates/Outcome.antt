-- ===== src/Account/Updates/Outcome.antt =====
-- What `mark_image_result` writes into the account of a token.
use model2api.Common.{
  ℕ, zero, suc, ◌-◌, ◌<◌, String, ◌≡◌, refl, ap, ◌∙◌, true, false, ◌&&◌, none, some, inl, inr,
  Bool-cases, ◌==◌, if◌then◌else◌, nat_eq, ℤ, pos, negsuc, ◌+ℤ◌, ◌-ℤ◌, -ℤ-pred, +ℤ-IsI64, IsI64,
  max_ℤ, i64_half, option_or, arith, eq_iff,
}
use model2api.Common.Maps.{get, get-insert, get-remove}
use model2api.Json.{
  Value, Fields, Host, Clock, str, int, set, get_field, int_at, text_at, bool_at, as_str,
  bind_option,
}
use model2api.Json.Laws.{field_laws, branch_laws, get_field-insert_field}
use model2api.Account.State.{Service, Config, save_accounts_locked}
use model2api.Account.Invariant.{IsValid}
use model2api.Account.Invariant.Store.{get-IsAccount, normalize_object-eq}
use model2api.Account.Normalize.{normalize_object, normalize_fields}
use model2api.Account.Normalize.Normal.{
  quota-normalize_fields, status-normalize_fields, success-normalize_fields,
}
use model2api.Account.Resolve.{resolve_locked}
use model2api.Account.Slots.{release_image_slot}
use model2api.Account.Updates.Keeps.{token-count_result, release-IsValid}
use model2api.Account.Updates.{
  store_account, apply_quota, spend_quota, count_result, mark_found, mark_image_result, is_limited,
}

pub int_at-int :
    (k : String) (m : Fields) (z : ℤ) → get_field k m ≡ some (int z) → IsI64 z → int_at k m ≡ z
int_at-int k m (pos n) e h = rw e (ground arith)
int_at-int k m (negsuc n) e h = rw e (ground arith)

-- One image less, and never less than none.
spent : (q : ℕ) → q < i64_half → max_ℤ (pos q -ℤ pos 1) (pos 0) ≡ pos (q - 1)
spent zero h = unfold ◌-ℤ◌ in refl
spent (suc n) h = rw (-ℤ-pred n h) (ground arith)

-- What is left of a known quota.
spend_quota-eq :
    (m : Fields) (q : ℕ)
    → get_field "quota" m ≡ some (int (pos q))
    → q < i64_half
    → max_ℤ (int_at "quota" m -ℤ pos 1) (pos 0) ≡ pos (q - 1)
spend_quota-eq m q e fits =
    ap (λ z. max_ℤ (z -ℤ pos 1) (pos 0)) (int_at-int "quota" m (pos q) e fits) ∙ spent q fits

quota-apply_quota : (z : ℤ) (m : Fields) → get_field "quota" (apply_quota z m) ≡ some (int z)
unfolding apply_quota
quota-apply_quota z m = simp branch_laws

success-apply_quota :
    (z : ℤ) (m : Fields) → get_field "success" (apply_quota z m) ≡ get_field "success" m
unfolding apply_quota
success-apply_quota z m = simp branch_laws

text_at-set :
    (k j : String) (v : Value) (m : Fields) → (k == j) ≡ false → text_at j (set k v m) ≡ text_at j m
text_at-set k j v m e = rw (get_field-insert_field k j v m, e)

status-apply_quota :
    (n : ℕ) (m : Fields)
    → text_at "status" (apply_quota (pos n) m) ≡ (
        if nat_eq n 0
        then "限流"
        else if text_at "status" m == "限流"
        then "正常"
        else text_at "status" m)
unfolding apply_quota
status-apply_quota n m =
    let quota = set "quota" (int (pos n)) m in
    elim (Bool-cases (nat_eq n 0)) [
      | inl none' ↦ rw none' (rw (get_field-insert_field "status" "status" (str "限流") quota))
      | inr left ↦
          rw (left, text_at-set "quota" "status" (int (pos n)) m refl)
            (elim (Bool-cases (text_at "status" m == "限流")) [
              | inl limited ↦
                  rw limited (rw (get_field-insert_field "status" "status" (str "正常") quota))
              | inr other ↦ rw other (text_at-set "quota" "status" (int (pos n)) m refl)
            ])
    ]

-- The account after an image that succeeded, from the account before, where its quota is known.
pub record Spent (current account : Fields) (q : ℕ) : Type 0 where
  pub quota : get_field "quota" account ≡ some (int (pos (q - 1)))
  pub status : text_at "status" account ≡ (
      if nat_eq (q - 1) 0
      then "限流"
      else if is_limited current
      then "正常"
      else text_at "status" current)
  pub success : get_field "success" account ≡ some (int (int_at "success" current +ℤ pos 1))

-- The counted account, before it is normalised.
abbrev succeeded : String → Fields → Fields
succeeded used current =
    set "success" (int (int_at "success" current +ℤ pos 1)) (set "last_used_at" (str used) current)

count_result-eq :
    (used : String) (current : Fields) (q : ℕ)
    → get_field "quota" current ≡ some (int (pos q))
    → q < i64_half
    → bool_at "image_quota_unknown" current ≡ false
    → count_result true (set "last_used_at" (str used) current)
      ≡ apply_quota (pos (q - 1)) (succeeded used current)
unfolding count_result spend_quota
count_result-eq used current q quota fits known =
    simp (field_laws, known)
      (ap (λ z. apply_quota z (succeeded used current))
        (ap (λ z. max_ℤ (z -ℤ pos 1) (pos 0)) (int_at-int "quota" current (pos q) quota fits)
          ∙ spent q fits))

-- The status that a count of images left chooses.
abbrev choice : ℕ → String → String
choice n status = if nat_eq n 0 then "限流" else if status == "限流" then "正常" else status

never_empty :
    (n : ℕ) (status : String)
    → (status == "") ≡ false
    → (if choice n status == "" then "正常" else choice n status) ≡ choice n status
never_empty n status named = elim (Bool-cases (nat_eq n 0)) [
  | inl none' ↦ rw none'
  | inr left ↦ rw left (elim (Bool-cases (status == "限流")) [
    | inl limited ↦ rw limited
    | inr other ↦ rw other (rw named)
  ])
]

counted-Spent :
    (h : Host) (now t used : String) (current m : Fields) (q : ℕ)
    → q < i64_half
    → m ≡ apply_quota (pos (q - 1)) (succeeded used current)
    → (text_at "status" current == "") ≡ false
    → Spent current (normalize_fields h now t m) q
counted-Spent h now t used current m q fits e named = rw e (record {
  quota =
      quota-normalize_fields h now t (apply_quota (pos (q - 1)) n)
      ∙ ap (λ z. some (int (max_ℤ z (pos 0))))
          (int_at-int "quota" (apply_quota (pos (q - 1)) n) (pos (q - 1))
            (quota-apply_quota (pos (q - 1)) n) (omega arith))
      ∙ (ground arith);
  status =
      ap (λ o. option_or "" (bind_option o as_str))
        (status-normalize_fields h now t (apply_quota (pos (q - 1)) n))
      ∙ ap (λ x. if x == "" then "正常" else x) (status-apply_quota (q - 1) n ∙ same_status)
      ∙ never_empty (q - 1) (text_at "status" current) named;
  success =
      success-normalize_fields h now t (apply_quota (pos (q - 1)) n)
      ∙ ap (λ z. some (int z))
          (int_at-int "success" (apply_quota (pos (q - 1)) n) _
            (success-apply_quota (pos (q - 1)) n ∙ (simp field_laws))
            (+ℤ-IsI64 (int_at "success" current) (pos 1)));
})
  where
    n : Fields
    n = succeeded used current

    same_status :
        (if nat_eq (q - 1) 0
          then "限流"
          else if text_at "status" n == "限流"
          then "正常"
          else text_at "status" n)
        ≡ choice (q - 1) (text_at "status" current)
    same_status = simp field_laws

-- Where a stored account is to be found afterwards: nowhere, if it is rate-limited and the settings
-- remove those, and else under its token.
get-store_account :
    (h : Host) (c : Config) (t : String) (s : Service) (account : Fields)
    → let r = store_account h c t s (some account) in
      let dropped = is_limited account && c.auto_remove_rate_limited_accounts in
      (get t r.0.pool.accounts ≡ (if dropped then none else some account))
      × (r.1 ≡ (if dropped then none else some account))
unfolding store_account save_accounts_locked
get-store_account h c t s account =
    elim (Bool-cases (is_limited account && c.auto_remove_rate_limited_accounts)) [
      | inl drop ↦ rw drop (ground (arith, get-remove t t s.pool.accounts, eq_iff t t), refl)
      | inr keep ↦
          rw keep (ground (arith, get-insert t t account s.pool.accounts, eq_iff t t), refl)
    ]

marked :
    (h : Host) (c : Config) (k : Clock) (a : String) (current account : Fields) (s : Service)
    → (a == "") ≡ false
    → let r = release_image_slot a s in
      let t = resolve_locked r.pool a in
      get t r.pool.accounts ≡ some current
      → normalize_object h k.now_str
          (count_result true (set "last_used_at" (str k.now_local_str) current))
        ≡ some account
      → mark_image_result h c k a true s ≡ store_account h c t r (some account)
unfolding mark_image_result mark_found
marked h c k a current account s named held done = rw named (rw (held, mark_found) (rw done))

-- A success is recorded for an account of known quota as follows: the account that results has one
-- image less, and never less than none, one success more (as an `i64`), and the status of a spent
-- quota exactly when no image is left; an account that was rate-limited and has images left is
-- normal again, and any other status stays. The account is stored under its token and answered,
-- unless it is now rate-limited and the settings remove such accounts.
pub mark_image_result-Spent :
    (h : Host) (c : Config) (k : Clock) (a : String) (current : Fields) (s : Service)
    → (a == "") ≡ false
    → IsValid s.pool
    → get (resolve_locked (release_image_slot a s).pool a) (release_image_slot a s).pool.accounts
      ≡ some current
    → bool_at "image_quota_unknown" current ≡ false
    → let t = resolve_locked (release_image_slot a s).pool a in
      (account : Fields) × (q : ℕ) × (get_field "quota" current ≡ some (int (pos q)))
      × Spent current account q
      × (let dropped = is_limited account && c.auto_remove_rate_limited_accounts in
          let m = mark_image_result h c k a true s in
          (get t m.0.pool.accounts ≡ (if dropped then none else some account))
          × (m.1 ≡ (if dropped then none else some account)))
mark_image_result-Spent h c k a current s named before held known =
    let v = release-IsValid a s before in
    let r = release_image_slot a s in
    let t = resolve_locked r.pool a in
    let at = get-IsAccount r.pool t current v held in
    let m = count_result true (set "last_used_at" (str k.now_local_str) current) in
    let shape =
      count_result-eq k.now_local_str current at.quota_value at.quota at.quota_fits known in
    let account = normalize_fields h k.now_str t m in
    let done : normalize_object h k.now_str m ≡ some account =
      normalize_object-eq h k.now_str t m
        (token-count_result true (set "last_used_at" (str k.now_local_str) current)
          ∙ (simp field_laws)
          ∙ at.token)
        at.named in
    let ends : mark_image_result h c k a true s ≡ store_account h c t r (some account) =
      marked h c k a current account s named held done in
    (
      account,
      at.quota_value,
      at.quota,
      counted-Spent h k.now_str t k.now_local_str current m at.quota_value at.quota_fits shape
          at.status,
      rw ends (get-store_account h c t r account),
    )
