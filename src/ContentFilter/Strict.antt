-- ===== src/ContentFilter/Strict.antt =====
-- src/services/content_filter.rs: what the review lets in where it is strict, and what it refuses where it
-- is not.
use model2api.Common.{
  String, ◌≡◌, refl, Bool, true, false, Option, none, some, List, ◌==◌, trim, Bool-cases, eq_iff,
  inl, inr, ◌⊎◌,
}
use model2api.Json.{Value, Host, get_value}
use model2api.Images.{ok, err}
use model2api.ContentFilter.{
  ContentFilterError, Checked, ReviewReply, Reviewer, answered, build_failed, request_failed,
  not_json, truthy, extract_review_decision, is_allow_decision, is_reject_decision,
  resolve_fail_open, on_failure, verdict, judged, asked, incomplete, has_word, refused,
  check_request,
}

-- The reply was read as a decision of the given kind.
abbrev pub IsRead : Host → ReviewReply → (String → Type 0) → Type 0
IsRead h reply P =
    (body : Value) × (decision : String) × (reply ≡ answered body)
    × (extract_review_decision h body ≡ some decision)
    × P decision

abbrev pub IsAllow : String → Type 0
IsAllow decision = is_allow_decision decision ≡ true

abbrev pub IsReject : String → Type 0
IsReject decision = (is_allow_decision decision ≡ false) × (is_reject_decision decision ≡ true)

verdict-IsAllow : (decision : String) → verdict false decision ≡ ok tt → IsAllow decision
unfolding verdict on_failure refused
verdict-IsAllow decision h = elim (Bool-cases (is_allow_decision decision)) [
  | inl allowed ↦ allowed
  | inr not_allowed ↦ elim (Bool-cases (is_reject_decision decision)) [
    | inl reject ↦
        let absurd : refused 400 "AI 审核未通过，拒绝本次任务" ≡ ok tt = rw (not_allowed, reject) at h in cc
    | inr unclear ↦ let absurd : on_failure false ≡ ok tt = rw (not_allowed, unclear) at h in cc
  ]
]

verdict-IsReject :
    (decision : String) (e : ContentFilterError)
    → verdict true decision ≡ err e
    → IsReject decision × (e.status_code ≡ 400)
unfolding verdict on_failure refused
verdict-IsReject decision e h = elim (Bool-cases (is_allow_decision decision)) [
  | inl allowed ↦ let absurd : ok tt ≡ err e = rw allowed at h in cc
  | inr not_allowed ↦ elim (Bool-cases (is_reject_decision decision)) [
    | inl reject ↦
        let same : refused 400 "AI 审核未通过，拒绝本次任务" ≡ err e = rw (not_allowed, reject) at h in
        ((not_allowed, reject), cc)
    | inr unclear ↦ let absurd : ok tt ≡ err e = rw (not_allowed, unclear) at h in cc
  ]
]

-- What is decided where the reply is a body.
abbrev decided : Bool → Option String → Checked
decided fail_open o = elim o [
  | none ↦ on_failure fail_open
  | some decision ↦ verdict fail_open decision
]

decided-IsAllow :
    (h : Host) (body : Value) (o : Option String)
    → extract_review_decision h body ≡ o
    → decided false o ≡ ok tt
    → IsRead h (answered body) IsAllow
unfolding on_failure refused
decided-IsAllow h body none r g = cc
decided-IsAllow h body (some decision) r g = (body, decision, refl, r, verdict-IsAllow decision g)

decided-IsReject :
    (h : Host) (body : Value) (e : ContentFilterError) (o : Option String)
    → extract_review_decision h body ≡ o
    → decided true o ≡ err e
    → IsRead h (answered body) IsReject × (e.status_code ≡ 400)
unfolding on_failure refused
decided-IsReject h body e none r g = cc
decided-IsReject h body e (some decision) r g =
    let (reject, status) = verdict-IsReject decision e g in
    ((body, decision, refl, r, reject), status)

judged-IsAllow :
    (h : Host) (reply : ReviewReply) → judged h false reply ≡ ok tt → IsRead h reply IsAllow
unfolding judged on_failure refused
judged-IsAllow h build_failed g = cc
judged-IsAllow h request_failed g = cc
judged-IsAllow h not_json g = cc
judged-IsAllow h (answered body) g = decided-IsAllow h body (extract_review_decision h body) refl g

judged-IsReject :
    (h : Host) (reply : ReviewReply) (e : ContentFilterError)
    → judged h true reply ≡ err e
    → IsRead h reply IsReject × (e.status_code ≡ 400)
unfolding judged on_failure refused
judged-IsReject h build_failed e g = cc
judged-IsReject h request_failed e g = cc
judged-IsReject h not_json e g = cc
judged-IsReject h (answered body) e g =
    decided-IsReject h body e (extract_review_decision h body) refl g

-- Where a failed review refuses, a request that is let in is blank, or it has no word of the list and either
-- there is no review or the reply to it was read as a decision to allow it.
pub check_request-IsAllow :
    (h : Host) (r : Reviewer) (words : List String) (review : Value) (t : String)
    → resolve_fail_open h review ≡ false
    → check_request h r words review t ≡ ok tt
    → (trim t ≡ "")
      ⊎ (has_word t words ≡ false)
        × ((truthy (get_value "enabled" review) ≡ false) ⊎ IsRead h (asked h r review t) IsAllow)
unfolding check_request refused
check_request-IsAllow h r words review t strict g = elim (Bool-cases (trim t == "")) [
  | inl blank ↦ inl ((eq_iff (trim t) "").0 blank)
  | inr said ↦ elim (Bool-cases (has_word t words)) [
    | inl word ↦ let absurd : refused 400 "检测到敏感词，拒绝本次任务" ≡ ok tt = rw (said, word) at g in cc
    | inr clean ↦ elim (Bool-cases (truthy (get_value "enabled" review))) [
      | inr off ↦ inr (clean, inl off)
      | inl on ↦ elim (Bool-cases (incomplete h review)) [
        | inl missing ↦
            let absurd : refused 400 "ai review config is incomplete" ≡ ok tt =
              rw (said, clean, on, missing) at g in
            cc
        | inr complete ↦ inr (
          clean,
          inr (judged-IsAllow h (asked h r review t) (rw (said, clean, on, complete, strict) at g)),
        )
      ]
    ]
  ]
]

-- Where a failed review lets a request in, one is refused with the status 400 alone, and for a word of the
-- list, for settings that are not complete, or because the reply was read as a decision to refuse it.
pub check_request-IsReject :
    (h : Host) (r : Reviewer) (words : List String) (review : Value) (t : String)
    (e : ContentFilterError)
    → resolve_fail_open h review ≡ true
    → check_request h r words review t ≡ err e
    → (e.status_code ≡ 400)
      × ((has_word t words ≡ true)
          ⊎ (incomplete h review ≡ true)
          ⊎ IsRead h (asked h r review t) IsReject)
unfolding check_request refused
check_request-IsReject h r words review t e lenient g = elim (Bool-cases (trim t == "")) [
  | inl blank ↦ let absurd : ok tt ≡ err e = rw blank at g in cc
  | inr said ↦ elim (Bool-cases (has_word t words)) [
    | inl word ↦
        let same : refused 400 "检测到敏感词，拒绝本次任务" ≡ err e = rw (said, word) at g in (cc, inl word)
    | inr clean ↦ elim (Bool-cases (truthy (get_value "enabled" review))) [
      | inr off ↦ let absurd : ok tt ≡ err e = rw (said, clean, off) at g in cc
      | inl on ↦ elim (Bool-cases (incomplete h review)) [
        | inl missing ↦
            let same : refused 400 "ai review config is incomplete" ≡ err e =
              rw (said, clean, on, missing) at g in
            (cc, inr (inl missing))
        | inr complete ↦
            let (read, status) =
              judged-IsReject h (asked h r review t) e
                (rw (said, clean, on, complete, lenient) at g) in
            (status, inr (inr read))
      ]
    ]
  ]
]
