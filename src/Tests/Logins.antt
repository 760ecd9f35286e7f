-- ===== src/Tests/Logins.antt =====
-- The pending logins: one is started and finished.
use model2api.Common.{String, ◌≡◌, refl, none, [], ◌∷◌, ◌==◌, if◌then◌else◌, trim}
use model2api.Common.Maps.{Map, get, retain, IsDistinct}
use model2api.Json.{str}
use model2api.Login.{
  Session, Draw, Query, pairs, Finished, tokens, failed, new_session, finish, finish_picked, pick,
  pick_candidate, pick_session, candidate_sids, first_session, extract_code_from_callback,
  purge_expired, drop_oldest, last_of, encode_component,
}
use model2api.Login.Picks.{Chosen, finish-Chosen}

encode_test : encode_component "a b/é~" ≡ "a%20b%2F%C3%A9~"
unfolding encode_component
encode_test = refl

abbrev draw : Draw
draw = record {
  verifier = "ver";
  challenge = "cha";
  nonce = "non";
  device_id = "dev";
  session_id = "s1";
  token = "tok";
  now = 1_000;
}

abbrev pending : Map Session
pending = ("s1", new_session draw) ∷ []

abbrev parse : String → Query
parse t = pairs (("code", "c0 ") ∷ ("state", "s1.tok") ∷ [])

abbrev exchange : String → String → String → Finished
exchange code verifier redirect = if code == "c0" then tokens (str verifier) else failed "no"

abbrev ended : Finished × Map Session
ended =
    finish parse exchange (λ m. m) 2_000 "" "https://platform.openai.com/auth/callback?x" pending

ended_test : ended.0 ≡ tokens (str "ver")
unfolding finish finish_picked pick pick_candidate pick_session candidate_sids first_session
    extract_code_from_callback purge_expired drop_oldest retain get last_of trim new_session
ended_test = refl

pending-IsDistinct : IsDistinct pending
unfolding get
pending-IsDistinct = (refl, tt)

finish-Chosen_example :
    (sid : String) × (item : Session) × (code : String) × Chosen 2_000 ""
      (extract_code_from_callback parse "https://platform.openai.com/auth/callback?x")
      pending
      sid
      item
      code
    × (exchange code item.code_verifier item.redirect_uri ≡ tokens (str "ver"))
    × (get sid ended.1 ≡ none)
finish-Chosen_example =
    finish-Chosen parse exchange (λ m. m) 2_000 "" "https://platform.openai.com/auth/callback?x"
      pending (str "ver") pending-IsDistinct ended_test
