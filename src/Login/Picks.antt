-- ===== src/Login/Picks.antt =====
-- src/services/oauth_login_service.rs: which login a callback finishes.
use Prim.Native.Nat.{ℕ}
use model2api.Common.{
  String, ◌≡◌, refl, ap, ◌∙◌, true, false, Option, none, some, List, [], ◌∷◌, ◌==◌, elem, ltb,
  length, Bool-cases, Option-cases, ◌⊎◌, inl, inr, arith, eq_iff,
}
use model2api.Common.Maps.{
  Map, get, remove, retain, IsDistinct, get-remove, get-retain, get-retain_passes,
}
use model2api.Json.{Value}
use model2api.Login.{
  Session, Ages, remove_each, drop_oldest, purge_expired, max_sessions, is_live, Extracted,
  extracted, unreadable, Query, Picked, picked, refused, candidate_sids, first_session,
  states_match, pick_session, pick_candidate, pick, Finished, tokens, failed, finish_picked, finish,
  extract_code_from_callback,
}

get-remove_each :
    (ks : Ages) (k : String) (m : Map Session) (item : Session)
    → get k (remove_each ks m) ≡ some item
    → get k m ≡ some item
unfolding remove_each
get-remove_each [] k m item e = e
get-remove_each ((j, age) ∷ ks) k m item e =
    ground (arith, get-remove j k m, get-remove_each ks k (remove j m) item e)

get-drop_oldest :
    (k : String) (m : Map Session) (item : Session)
    → get k (drop_oldest m) ≡ some item
    → get k m ≡ some item
unfolding drop_oldest
get-drop_oldest k m item e = elim (Bool-cases (ltb max_sessions (length m))) [
  | inl many ↦ get-remove_each _ k m item (rw (drop_oldest, many) at e)
  | inr few ↦ rw (drop_oldest, few) at e
]

-- What a purge leaves was there, and has not expired.
get-purge_expired :
    (now : ℕ) (k : String) (m : Map Session) (item : Session)
    → IsDistinct m
    → get k (purge_expired now m) ≡ some item
    → (get k m ≡ some item) × (is_live now item ≡ true)
unfolding purge_expired
get-purge_expired now k m item d e =
    let kept = get-drop_oldest k (retain (λ sid i. is_live now i) m) item e in
    let live = get-retain (λ sid i. is_live now i) k m item kept in
    let same = get-retain_passes (λ sid i. is_live now i) k m d in
    (ground (arith, kept, same, live), live)

first_session-Found :
    (sids : List String) (m : Map Session) (sid : String) (item : Session)
    → first_session sids m ≡ some (sid, item)
    → (elem sid sids ≡ true) × (get sid m ≡ some item)
unfolding first_session
first_session-Found [] m sid item e = absurd (cc)
first_session-Found (s ∷ sids) m sid item e = elim (Option-cases (get s m)) [
  | inl absent ↦
      let rest = first_session-Found sids m sid item (rw (first_session, absent) at e) in
      (ground (arith, rest.0), rest.1)
  | inr (found, held) ↦
      let same = rw (first_session, held) at e in
      let one : s ≡ sid = ap (λ o. elim o [ none ↦ "" | some p ↦ p.0 ]) same in
      let two : found ≡ item = ap (λ o. elim o [ none ↦ item | some p ↦ p.1 ]) same in
      (rw ((eq_iff s sid).1 one) refl, rw (← one) (held ∙ ap some two))
]

-- The session that is picked: the callback has a code, names the session by its state or the request
-- does, the session is there and has not expired, and the two states do not differ.
abbrev pub Chosen : ℕ → String → Extracted → Map Session → String → Session → String → Type 0
Chosen now session_id e sessions sid item code =
    (state : String) × (e ≡ extracted code state)
    × ((code == "") ≡ false)
    × (elem sid (candidate_sids session_id state) ≡ true)
    × (get sid sessions ≡ some item)
    × (is_live now item ≡ true)
    × (states_match state item ≡ true)

pick_session-Chosen :
    (code state sid code' : String) (o : Option (String × Session)) (item : Session)
    → pick_session code state o ≡ picked sid item code'
    → (o ≡ some (sid, item)) × (code ≡ code') × (states_match state item ≡ true)
unfolding pick_session
pick_session-Chosen code state sid code' none item e = absurd (cc)
pick_session-Chosen code state sid code' (some (s, found)) item e =
    elim (Bool-cases (states_match state found)) [
      | inl good ↦
          let same = rw (pick_session, good) at e in
          let one : s ≡ sid = cc in
          let two : found ≡ item = cc in
          let three : code ≡ code' = cc in (rw (one, two) refl, three, rw (← two) good)
      | inr bad ↦ absurd (let same = rw (pick_session, bad) at e in cc)
    ]

pick_candidate-Chosen :
    (now : ℕ) (code state : String) (sids : List String) (sessions : Map Session) (sid : String)
    (item : Session) (code' : String)
    → IsDistinct sessions
    → (pick_candidate now code state sids sessions).0 ≡ picked sid item code'
    → (code ≡ code')
      × (elem sid sids ≡ true)
      × (get sid sessions ≡ some item)
      × (is_live now item ≡ true)
      × (states_match state item ≡ true)
unfolding pick_candidate
pick_candidate-Chosen now code state [] sessions sid item code' d e = absurd (cc)
pick_candidate-Chosen now code state (s ∷ sids) sessions sid item code' d e =
    let purged = purge_expired now sessions in
    let choice =
      pick_session-Chosen code state sid code' (first_session (s ∷ sids) purged) item e in
    let found = first_session-Found (s ∷ sids) purged sid item choice.0 in
    let held = get-purge_expired now sid sessions item d found.1 in
    (choice.1, found.0, held.0, held.1, choice.2)

pick-Chosen :
    (now : ℕ) (session_id : String) (x : Extracted) (sessions : Map Session) (sid : String)
    (item : Session) (code : String)
    → IsDistinct sessions
    → (pick now session_id x sessions).0 ≡ picked sid item code
    → Chosen now session_id x sessions sid item code
unfolding pick
pick-Chosen now session_id (unreadable m) sessions sid item code d e = absurd (cc)
pick-Chosen now session_id (extracted c state) sessions sid item code d e =
    elim (Bool-cases (c == "")) [
      | inl blank ↦ absurd (let same = rw (pick, blank) at e in cc)
      | inr named ↦
          let (same, listed, held, live, match_) =
            pick_candidate-Chosen now c state (candidate_sids session_id state) sessions sid item
              code d (rw (pick, named) at e) in
          (state, ap (λ t. extracted t state) same, rw (← same) named, listed, held, live, match_)
    ]

Finished-cases : (f : Finished) → ((m : String) × (f ≡ failed m)) ⊎ ((v : Value) × (f ≡ tokens v))
Finished-cases (failed m) = inl (m, refl)
Finished-cases (tokens v) = inr (v, refl)

-- The session that was picked, with the tokens of its exchange, and used up.
abbrev pub Used : (String → String → String → Finished) → Picked → Value → Map Session → Type 0
Used exchange choice v after =
    (sid : String) × (item : Session) × (code : String) × (choice ≡ picked sid item code)
    × (exchange code item.code_verifier item.redirect_uri ≡ tokens v)
    × (get sid after ≡ none)

gone : (k : String) (m : Map Session) → get k (remove k m) ≡ none
gone k m = rw (get-remove k k m) (ground (arith, eq_iff k k))

finish_picked-Used :
    (exchange : String → String → String → Finished) (later : Map Session → Map Session)
    (choice : Picked) (purged : Map Session) (v : Value)
    → (finish_picked exchange later choice purged).0 ≡ tokens v
    → Used exchange choice v (finish_picked exchange later choice purged).1
unfolding finish_picked
finish_picked-Used exchange later (refused m) purged v e = absurd (cc)
finish_picked-Used exchange later (picked sid item code) purged v e =
    elim (Finished-cases (exchange code item.code_verifier item.redirect_uri)) [
      | inl (m, bad) ↦ absurd (let same = rw (finish_picked, bad) at e in cc)
      | inr (w, good) ↦
          let same : tokens w ≡ tokens v = rw (finish_picked, good) at e in
          rw (finish_picked, good) (sid, item, code, refl, good ∙ same, gone sid (later purged))
    ]

-- A login that ends with tokens has them for the code of its callback, from a session that the
-- callback or the request names, that has not expired and whose state the callback does not
-- contradict; the session is used up, whatever other calls did to the table while the exchange
-- lasted.
pub finish-Chosen :
    (parse : String → Query) (exchange : String → String → String → Finished)
    (later : Map Session → Map Session) (now : ℕ) (session_id callback : String)
    (sessions : Map Session) (v : Value)
    → IsDistinct sessions
    → (finish parse exchange later now session_id callback sessions).0 ≡ tokens v
    → (sid : String) × (item : Session) × (code : String) × Chosen now session_id
        (extract_code_from_callback parse callback)
        sessions
        sid
        item
        code
      × (exchange code item.code_verifier item.redirect_uri ≡ tokens v)
      × (get sid (finish parse exchange later now session_id callback sessions).1 ≡ none)
unfolding finish
finish-Chosen parse exchange later now session_id callback sessions v d e =
    let x = extract_code_from_callback parse callback in
    let r = pick now session_id x sessions in
    let (sid, item, code, chosen, good, used) = finish_picked-Used exchange later r.0 r.1 v e in
    (sid, item, code, pick-Chosen now session_id x sessions sid item code d chosen, good, used)
