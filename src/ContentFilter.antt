-- ===== src/ContentFilter.antt =====
-- src/services/content_filter.rs: the review of a request before it is served.
pub mod Bounded
pub mod Strict
use Prim.Native.String.{count}
use model2api.Common.{
  ℕ, zero, suc, ◌-◌, ◌/◌, String, Bool, true, false, not, ◌||◌, Option, none, some, List, [], ◌∷◌,
  ◌==◌, if◌then◌else◌, trim, append, option_or, elem, ltb,
}
use model2api.Common.Prefix.{contains}
use model2api.Common.Sorting.{take_chars}
use text.Mathlib.Text.{starts_with}
use model2api.Json.{
  Value, Items, Fields, Host, null, bool, int, float, str, arr, obj, nil, cons, end, field,
  get_value, bind_option,
}
use model2api.Conversation.{json_falsy}
use model2api.Images.{Result, ok, err}

-- `ContentFilterError`.
pub record ContentFilterError : Type 0 where
  pub status_code : ℕ
  pub detail : String

-- What the service of the review answers to a request: there is no client, no response, a body that is no
-- JSON, or a body.
pub data ReviewReply : Type 0 where
  build_failed : ReviewReply
  request_failed : ReviewReply
  not_json : ReviewReply
  answered : Value → ReviewReply

-- The pattern of a data URI with base64, and the service, by its URL, the key, the model and the text.
pub record Reviewer : Type 0 where
  pub strip_data_uris : String → String
  pub post : (url api_key model content : String) → ReviewReply

-- `truthy`
unfoldable pub truthy : Option Value → Bool
truthy none = false
truthy (some v) = not (json_falsy v)

or_empty_str : Host → Option Value → String
or_empty_str h none = ""
or_empty_str h (some (str s)) = s
or_empty_str h (some v) = if json_falsy v then "" else h.print v

-- `chars[n..]`
unfoldable pub drop_chars : ℕ → String → String
drop_chars zero s = s
drop_chars (suc n) String.[] = ""
drop_chars (suc n) (String.◌∷◌ c s) = drop_chars n s

abbrev pub max_review_text_len : ℕ
max_review_text_len = 100_000

abbrev pub truncation_marker : String
truncation_marker = "\n…[truncated]…\n"

-- The text that is sent to the review.
unfoldable pub truncated : ℕ → String → String
unfolding take_chars drop_chars
truncated limit s =
    let half = (limit - count truncation_marker) / 2 in
    if ltb limit (count s)
    then append (take_chars half s) (append truncation_marker (drop_chars (count s - half) s))
    else s

unfoldable pub sanitize_for_review : Reviewer → String → String
unfolding truncated
sanitize_for_review r t = truncated max_review_text_len (r.strip_data_uris t)

first_item : Value → Option Value
first_item (arr (cons v vs)) = some v
first_item other = none

decision_of : Host → Value → Option String
decision_of h null = none
decision_of h (str s) = some (h.lower (trim s))
decision_of h v = some (h.lower (trim (h.print v)))

unfoldable pub extract_review_decision : Host → Value → Option String
unfolding first_item decision_of
extract_review_decision h body = bind_option (get_value "choices" body) (λ choices.
    bind_option (first_item choices) (λ first.
      bind_option (get_value "message" first)
        (λ message. bind_option (get_value "content" message) (decision_of h))))

starts_with_any : String → List String → Bool
starts_with_any t [] = false
starts_with_any t (p ∷ ps) = starts_with t p || starts_with_any t ps

unfoldable pub is_allow_decision : String → Bool
unfolding starts_with_any
is_allow_decision decision =
    starts_with_any decision ("allow" ∷ "pass" ∷ "true" ∷ "yes" ∷ "通过" ∷ "允许" ∷ "安全" ∷ [])

unfoldable pub is_reject_decision : String → Bool
unfolding starts_with_any
is_reject_decision decision =
    starts_with_any decision
      ("reject" ∷ "deny" ∷ "block" ∷ "false" ∷ "no" ∷ "拒绝" ∷ "不允许" ∷ "违规" ∷ "禁止" ∷ [])

fail_open_of : Host → Option Value → Bool
fail_open_of h none = true
fail_open_of h (some null) = true
fail_open_of h (some (bool b)) = b
fail_open_of h (some (str s)) = elem (h.lower (trim s)) ("1" ∷ "true" ∷ "yes" ∷ "on" ∷ [])
fail_open_of h (some v) = not (json_falsy v)

unfoldable pub resolve_fail_open : Host → Value → Bool
unfolding fail_open_of
resolve_fail_open h review = fail_open_of h (get_value "fail_open" review)

abbrev pub Checked : Type 0
Checked = Result ContentFilterError Unit

unfoldable pub refused : ℕ → String → Checked
refused status detail = err (record { status_code = status; detail = detail })

unfoldable pub on_failure : Bool → Checked
unfolding refused
on_failure true = ok tt
on_failure false = refused 503 "AI 审核服务暂时不可用，请稍后重试"

unfoldable pub verdict : Bool → String → Checked
unfolding refused on_failure
verdict fail_open decision =
    if is_allow_decision decision
    then ok tt
    else if is_reject_decision decision
    then refused 400 "AI 审核未通过，拒绝本次任务"
    else on_failure fail_open

-- What follows from the reply of the review.
unfoldable pub judged : Host → Bool → ReviewReply → Checked
unfolding on_failure
judged h fail_open (answered body) = elim (extract_review_decision h body) [
  | none ↦ on_failure fail_open
  | some decision ↦ verdict fail_open decision
]
judged h fail_open other = on_failure fail_open

abbrev default_review_prompt : String
default_review_prompt = "判断用户请求是否允许。只回答 ALLOW 或 REJECT。"

-- `trim_end_matches('/')`
drop_slashes : String → String
drop_slashes String.[] = ""
drop_slashes (String.◌∷◌ c s) =
    let rest = drop_slashes s in if String.◌∷◌ c rest == "/" then "" else String.◌∷◌ c rest

prompt_of : Host → Value → String
unfolding or_empty_str
prompt_of h review =
    let p = or_empty_str h (get_value "prompt" review) in
    trim (if p == "" then default_review_prompt else p)

review_content : Host → Reviewer → Value → String → String
unfolding prompt_of
review_content h r review t =
    append (prompt_of h review)
      (append "\n\n用户请求:\n" (append (sanitize_for_review r t) "\n\n只回答 ALLOW 或 REJECT。"))

setting : Host → Value → String → String
unfolding or_empty_str
setting h review key = trim (or_empty_str h (get_value key review))

-- The request to the review.
unfoldable pub asked : Host → Reviewer → Value → String → ReviewReply
unfolding drop_slashes review_content setting
asked h r review t =
    r.post (append (drop_slashes (setting h review "base_url")) "/v1/chat/completions")
      (setting h review "api_key") (setting h review "model") (review_content h r review t)

unfoldable pub incomplete : Host → Value → Bool
unfolding drop_slashes setting
incomplete h review =
    drop_slashes (setting h review "base_url") == ""
    || setting h review "api_key" == ""
    || setting h review "model" == ""

unfoldable pub has_word : String → List String → Bool
has_word t [] = false
has_word t (word ∷ words) = contains t word || has_word t words

-- `check_request`, with the words and the settings of the review.
unfoldable pub check_request : Host → Reviewer → List String → Value → String → Checked
unfolding refused incomplete has_word judged
check_request h r sensitive_words review t =
    if trim t == ""
    then ok tt
    else if has_word t sensitive_words
    then refused 400 "检测到敏感词，拒绝本次任务"
    else if not (truthy (get_value "enabled" review))
    then ok tt
    else if incomplete h review
    then refused 400 "ai review config is incomplete"
    else judged h (resolve_fail_open h review) (asked h r review t)
