-- ===== src/Tests/Reviews.antt =====
-- Reviews of a request: one that allows it, one that refuses it, and one that fails.
use Prim.Native.String.{count}
use model2api.Common.{String, ◌≡◌, refl, Bool, true, false, List, [], ◌∷◌, ◌⊎◌, ◌≤◌, trim, trim_end}
use model2api.Json.{Value, bool, str, arr, obj, nil, cons, field, end, get_field, get_value}
use model2api.Images.{ok, err}
use model2api.Conversation.{json_falsy}
use model2api.ContentFilter.{
  Reviewer, answered, request_failed, ContentFilterError, check_request, judged, verdict, refused,
  on_failure, has_word, truthy, incomplete, asked, resolve_fail_open, extract_review_decision,
  is_allow_decision, is_reject_decision, sanitize_for_review, max_review_text_len,
}
use model2api.ContentFilter.Bounded.{count-sanitize_for_review}
use model2api.ContentFilter.Strict.{
  IsRead, IsAllow, IsReject, check_request-IsAllow, check_request-IsReject,
}
use model2api.Tests.Streams.{stream_host}

-- A service that answers with a text.
abbrev says : String → Reviewer
says decision = record {
  strip_data_uris = λ t. t;
  post = λ url api_key model content. answered (
      obj (
        field "choices"
          (arr (cons (obj (field "message" (obj (field "content" (str decision) end)) end)) nil))
          end));
}

abbrev silent : Reviewer
silent = record { strip_data_uris = λ t. t; post = λ url api_key model content. request_failed }

abbrev settings : Bool → Value
settings fail_open = obj (
    field "enabled" (bool true) (
      field "base_url" (str "https://r/") (
        field "api_key" (str "k")
          (field "model" (str "m") (field "fail_open" (bool fail_open) end)))))

abbrev words : List String
words = "bad" ∷ []

abbrev outage : ContentFilterError
outage = record { status_code = 503; detail = "AI 审核服务暂时不可用，请稍后重试" }

abbrev rejection : ContentFilterError
rejection = record { status_code = 400; detail = "AI 审核未通过，拒绝本次任务" }

lenient_test : check_request stream_host silent words (settings true) "Hi" ≡ ok tt
unfolding check_request json_falsy trim trim_end has_word truthy incomplete judged refused
    on_failure get_field asked resolve_fail_open
lenient_test = refl

strict_test : check_request stream_host silent words (settings false) "Hi" ≡ err outage
unfolding check_request json_falsy trim trim_end has_word truthy incomplete judged refused
    on_failure get_field asked resolve_fail_open
strict_test = refl

allows : check_request stream_host (says "allow") words (settings false) "Hi" ≡ ok tt
unfolding check_request json_falsy trim trim_end has_word truthy incomplete judged refused
    on_failure get_field asked resolve_fail_open extract_review_decision verdict is_allow_decision
allows = refl

rejects : check_request stream_host (says "reject") words (settings true) "Hi" ≡ err rejection
unfolding check_request json_falsy trim trim_end has_word truthy incomplete judged refused
    on_failure get_field asked resolve_fail_open extract_review_decision verdict is_allow_decision
    is_reject_decision
rejects = refl

check_request-IsAllow_example :
    (trim "Hi" ≡ "")
    ⊎ (has_word "Hi" words ≡ false)
      × ((truthy (get_value "enabled" (settings false)) ≡ false)
          ⊎ IsRead stream_host (asked stream_host (says "allow") (settings false) "Hi") IsAllow)
unfolding resolve_fail_open get_field
check_request-IsAllow_example =
    check_request-IsAllow stream_host (says "allow") words (settings false) "Hi" refl allows

check_request-IsReject_example :
    (rejection.status_code ≡ 400)
    × ((has_word "Hi" words ≡ true)
        ⊎ (incomplete stream_host (settings true) ≡ true)
        ⊎ IsRead stream_host (asked stream_host (says "reject") (settings true) "Hi") IsReject)
unfolding resolve_fail_open get_field
check_request-IsReject_example =
    check_request-IsReject stream_host (says "reject") words (settings true) "Hi" rejection refl
      rejects

count-sanitize_for_review_example :
    (count (sanitize_for_review silent "Hi") ≤ max_review_text_len)
    × (count (silent.strip_data_uris "Hi") ≤ max_review_text_len
        → sanitize_for_review silent "Hi" ≡ silent.strip_data_uris "Hi")
count-sanitize_for_review_example = count-sanitize_for_review silent "Hi"
