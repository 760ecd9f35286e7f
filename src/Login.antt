-- ===== src/Login.antt =====
-- src/services/oauth_login_service.rs: the pending logins. A time is a whole number of milliseconds,
-- where the source has seconds as a float.

pub mod Bounds
pub mod Picks
use Prim.Native.Nat.{ℕ, zero, suc, ◌+◌, ◌-◌, ◌*◌, ◌/◌, ◌%◌}
use Prim.Native.Char.{code}
use model2api.Common.{
  String, ◌≡◌, Bool, true, false, not, ◌&&◌, ◌||◌, Option, none, some, List, [], ◌∷◌, ◌++◌, map,
  ltb, leb, nat_eq, length, take, ◌==◌, if◌then◌else◌, trim, append, filterb, option_or,
}
use text.Mathlib.Text.{starts_with}
use model2api.Common.Maps.{Map, get, insert, remove, retain}
use model2api.Common.Sorting.{sort_by}
use model2api.Json.{Value, Fields, str, obj, field, end}

pub record Session : Type 0 where
  pub code_verifier : String
  pub state : String
  pub created_at : ℕ
  pub redirect_uri : String

abbrev pub ttl_millis : ℕ
ttl_millis = 600_000

abbrev pub max_sessions : ℕ
max_sessions = 64

abbrev pub is_live : ℕ → Session → Bool
is_live now item = leb now (item.created_at + ttl_millis)

abbrev pub Ages : Type 0
Ages = List (String × ℕ)

abbrev pub ages : Map Session → Ages
ages [] = []
ages ((k, item) ∷ sessions) = (k, item.created_at) ∷ ages sessions

abbrev pub older : String × ℕ → String × ℕ → Bool
older a b = ltb a.1 b.1

unfoldable pub remove_each : Ages → Map Session → Map Session
remove_each [] sessions = sessions
remove_each ((sid, age) ∷ rest) sessions = remove_each rest (remove sid sessions)

-- Of too many, the oldest are removed.
unfoldable pub drop_oldest : Map Session → Map Session
drop_oldest sessions =
    if ltb max_sessions (length sessions)
    then remove_each (take (length sessions - max_sessions) (sort_by older (ages sessions)))
        sessions
    else sessions

unfoldable pub purge_expired : ℕ → Map Session → Map Session
purge_expired now sessions = drop_oldest (retain (λ sid item. is_live now item) sessions)

-- The bytes of a character in UTF-8.
utf8 : ℕ → List ℕ
utf8 c =
    if ltb c 128
    then c ∷ []
    else (if ltb c 2048
        then (192 + c / 64) ∷ (128 + c % 64) ∷ []
        else (if ltb c 65_536
            then (224 + c / 4_096) ∷ (128 + c / 64 % 64) ∷ (128 + c % 64) ∷ []
            else (240 + c / 262_144)
              ∷ (128 + c / 4_096 % 64)
              ∷ (128 + c / 64 % 64)
              ∷ (128 + c % 64)
              ∷ []))

hex_digit : ℕ → String
hex_digit n = elim (get? n digits) [ none ↦ "" | some d ↦ d ]
  where
    digits : List String
    digits =
        "0" ∷ "1" ∷ "2" ∷ "3" ∷ "4" ∷ "5" ∷ "6" ∷ "7" ∷ "8" ∷ "9" ∷ "A" ∷ "B" ∷ "C" ∷ "D" ∷ "E"
        ∷ "F" ∷ []

    get? : ℕ → List String → Option String
    get? n [] = none
    get? zero (d ∷ ds) = some d
    get? (suc n) (d ∷ ds) = get? n ds

percent : List ℕ → String
unfolding hex_digit
percent [] = ""
percent (b ∷ bs) =
    append "%" (append (hex_digit (b / 16)) (append (hex_digit (b % 16)) (percent bs)))

is_unreserved : ℕ → Bool
is_unreserved c =
    leb b'A' c && leb c b'Z'
    || leb b'a' c && leb c b'z'
    || leb b'0' c && leb c b'9'
    || nat_eq c b'-'
    || nat_eq c b'_'
    || nat_eq c b'.'
    || nat_eq c b'~'

unfoldable pub encode_component : String → String
unfolding utf8 percent is_unreserved
encode_component String.[] = ""
encode_component (String.◌∷◌ c s) =
    let rest = encode_component s in
    if is_unreserved (code c) then String.◌∷◌ c rest else append (percent (utf8 (code c))) rest

unfoldable pub urlencode : List (String × String) → String
urlencode [] = ""
urlencode ((k, v) ∷ params) =
    let pair = append (encode_component k) (append "=" (encode_component v)) in
    elim params [ [] ↦ pair | p ∷ ps ↦ append pair (append "&" (urlencode params)) ]

-- What a start draws at random, with the time.
pub record Draw : Type 0 where
  pub verifier : String
  pub challenge : String
  pub nonce : String
  pub device_id : String
  pub session_id : String
  pub token : String
  pub now : ℕ

platform_oauth_redirect_uri : String
platform_oauth_redirect_uri = append "https://platform.openai.com" "/auth/callback"

state_of : Draw → String
state_of d = append d.session_id (append "." d.token)

params_of : Draw → String → List (String × String)
unfolding platform_oauth_redirect_uri state_of
params_of d email_hint =
    let hint = trim email_hint in
    (("issuer", "https://auth.openai.com")
      ∷ ("client_id", "app_2SKx67EdpoN0G6j64rFvigXD")
      ∷ ("audience", "https://api.openai.com/v1")
      ∷ ("redirect_uri", platform_oauth_redirect_uri)
      ∷ ("device_id", d.device_id)
      ∷ ("screen_hint", "login_or_signup")
      ∷ ("max_age", "0")
      ∷ ("scope", "openid profile email offline_access")
      ∷ ("response_type", "code")
      ∷ ("response_mode", "query")
      ∷ ("state", state_of d)
      ∷ ("nonce", d.nonce)
      ∷ ("code_challenge", d.challenge)
      ∷ ("code_challenge_method", "S256")
      ∷ ("auth0Client", "eyJuYW1lIjoiYXV0aDAtc3BhLWpzIiwidmVyc2lvbiI6IjEuMjEuMCJ9")
      ∷ [])
    ++ (if hint == "" then [] else ("login_hint", hint) ∷ [])

unfoldable pub new_session : Draw → Session
unfolding state_of platform_oauth_redirect_uri
new_session d = record {
  code_verifier = d.verifier;
  state = state_of d;
  created_at = d.now;
  redirect_uri = platform_oauth_redirect_uri;
}

unfoldable pub start : Draw → String → Map Session → Value × Map Session
unfolding params_of
start d email_hint sessions = (
  obj (
      field "session_id" (str d.session_id) (
        field "authorize_url"
          (str (
            append "https://auth.openai.com/api/accounts/authorize?"
              (urlencode (params_of d email_hint))))
          (field "expires_in" (str "600")
            (field "redirect_uri_prefix" (str platform_oauth_redirect_uri) end)))),
  insert d.session_id (new_session d) (purge_expired d.now sessions),
)

-- The code and the state of a callback, or why there is none.
pub data Extracted : Type 0 where
  extracted : String → String → Extracted
  unreadable : String → Extracted

-- What the reading of a URL gives: its pairs, or an error.
pub data Query : Type 0 where
  pairs : List (String × String) → Query
  bad_url : String → Query

-- The last value of a name.
unfoldable pub last_of : String → List (String × String) → String
last_of name [] = ""
last_of name ((k, v) ∷ rest) =
    let later = last_of name rest in
    if any_named name rest then later else (if k == name then trim v else "")
  where
    any_named : String → List (String × String) → Bool
    any_named name [] = false
    any_named name ((k, v) ∷ rest) = k == name || any_named name rest

abbrev or_text : String → String → String
or_text t u = if t == "" then u else t

code_in : Query → Extracted
code_in (bad_url e) = unreadable (append "无法解析 callback URL: " e)
code_in (pairs ps) =
    if last_of "code" ps == ""
    then unreadable (
        or_text (last_of "error_description" ps)
          (or_text (last_of "error" ps) "callback URL 中没有 code 参数"))
    else extracted (last_of "code" ps) (last_of "state" ps)

unfoldable pub extract_code_from_callback : (String → Query) → String → Extracted
unfolding code_in
extract_code_from_callback parse value =
    let raw = trim value in
    if raw == ""
    then extracted "" ""
    else (if starts_with raw "http://" || starts_with raw "https://"
        then code_in (parse raw)
        else extracted raw "")

-- The text before the first dot: all of it, where there is none.
before_dot : String → String
before_dot String.[] = ""
before_dot (String.◌∷◌ c s) =
    let rest = before_dot s in if nat_eq (code c) b'.' then "" else String.◌∷◌ c rest

unfoldable pub candidate_sids : String → String → List String
unfolding before_dot
candidate_sids session_id state =
    filterb (λ t. not (t == "")) (before_dot state ∷ trim session_id ∷ [])

unfoldable pub first_session : List String → Map Session → Option (String × Session)
first_session [] sessions = none
first_session (sid ∷ sids) sessions =
    let rest = first_session sids sessions in
    elim (get sid sessions) [ none ↦ rest | some item ↦ some (sid, item) ]

-- The session that a callback belongs to with its code, or the message of the refusal.
pub data Picked : Type 0 where
  picked : String → Session → String → Picked
  refused : String → Picked

abbrev pub states_match : String → Session → Bool
states_match state item = state == "" || item.state == "" || state == item.state

unfoldable pub pick_session : String → String → Option (String × Session) → Picked
pick_session code state none = refused "OAuth 会话已过期或不存在，请回到导入对话框点\"重新生成\"再走一次"
pick_session code state (some (sid, item)) =
    if states_match state item
    then picked sid item code
    else refused "state 不匹配。常见原因：你点过两次\"打开授权页面\"，但浏览器里登录的还是前一次的窗口。请点\"重新生成\"重来。"

unfoldable pub pick_candidate :
    ℕ → String → String → List String → Map Session → Picked × Map Session
unfolding pick_session
pick_candidate now code state [] sessions =
    (refused "既未提供 session_id，callback URL 中也未携带 state", sessions)
pick_candidate now code state (sid ∷ sids) sessions = (
  pick_session code state (first_session (sid ∷ sids) (purge_expired now sessions)),
  purge_expired now sessions,
)

unfoldable pub pick : ℕ → String → Extracted → Map Session → Picked × Map Session
pick now session_id (unreadable e) sessions = (refused e, sessions)
pick now session_id (extracted code state) sessions =
    if code == ""
    then (refused "缺少 code 或 callback URL", sessions)
    else pick_candidate now code state (candidate_sids session_id state) sessions

pub data Finished : Type 0 where
  tokens : Value → Finished
  failed : String → Finished

-- `exchange` is the call of OpenAI with the code, the verifier and the redirect; the lock is free
-- while it lasts, and `later` is the table that the removal finds.
unfoldable pub finish_picked :
    (String → String → String → Finished)
    → (Map Session → Map Session)
    → Picked
    → Map Session
    → Finished × Map Session
finish_picked exchange later (refused e) purged = (failed e, purged)
finish_picked exchange later (picked sid item code) purged =
    elim (exchange code item.code_verifier item.redirect_uri) [
      | failed e ↦ (failed e, later purged)
      | tokens v ↦ (tokens v, remove sid (later purged))
    ]

unfoldable pub finish :
    (String → Query)
    → (String → String → String → Finished)
    → (Map Session → Map Session)
    → ℕ
    → String
    → String
    → Map Session
    → Finished × Map Session
finish parse exchange later now session_id callback sessions =
    let (choice, purged) =
      pick now session_id (extract_code_from_callback parse callback) sessions in
    finish_picked exchange later choice purged
