-- ===== src/Conversation/Rotation/Served.antt =====
-- src/services/protocol/conversation.rs and src/services/account_service.rs: the text flow over the
-- account pool.
use model2api.Common.{
  ℕ, zero, suc, String, ◌≡◌, subst, Bool, true, false, Option, none, some, List, [], if◌then◌else◌,
}
use model2api.Json.{Value, Fields, Host}
use model2api.Conversation.{Patterns}
use model2api.Conversation.Rotation.{
  TextAccounts, Event, Sent, Turn, over, turns_to, run_text_stream, other_token, turned, ran, tried,
  turn, text_loop, stream_text_deltas,
}
use model2api.Account.State.{Config, Service}
use model2api.Account.Resolve.{get_account}
use model2api.Account.Updates.{mark_text_used}
use model2api.Account.Members.{remove_invalid_token}
use model2api.Account.Run.{Run, here, next, uses_text, removes_invalid}
use model2api.Account.Fetch.{Upstream, get_text_access_token, refresh_access_token}
use model2api.Account.Fetch.Steps.{get_text_access_token-kept, refresh_access_token-kept}
use model2api.Account.Fetch.Shared.{IsShared, runs}
use model2api.Images.{Result}

module _ (h : Host) (c : Config) (up : Upstream) where
  -- The calls of `stream_text_deltas`, with what the upstream answers to a text as a parameter.
  abbrev pub text_accounts :
      (String → Option Fields → List Value → Service → Result String (List Event))
      → TextAccounts Service
  text_accounts streams = record {
    get_text_access_token = λ attempted s. get_text_access_token h c up attempted s;
    converse =
        λ token messages s. (streams token (get_account s.pool token) messages s, up.others s);
    mark_text_used = λ token s. mark_text_used h (up.clock s) token s;
    refresh_access_token = λ token s. refresh_access_token h c up token true "text_stream" s;
    remove_invalid_token =
        λ token s. (remove_invalid_token h c (up.clock s) token "text_stream" false s).0;
  }

-- A property of the state that each call keeps.
record Keeps (S : Type 0) (acc : TextAccounts S) (P : S → Type 0) : Type 0 where
  chooses : (attempted : List String) (s : S) → P s → P (acc.get_text_access_token attempted s).1
  converses : (t : String) (m : List Value) (s : S) → P s → P (acc.converse t m s).1
  uses : (t : String) (s : S) → P s → P (acc.mark_text_used t s)
  refreshes : (t : String) (s : S) → P s → P (acc.refresh_access_token t s).1
  removes : (t : String) (s : S) → P s → P (acc.remove_invalid_token t s)

After : {S : Type 0} → (S → Type 0) → Turn S → Type 0
After P (over items s) = P s
After P (turns_to sent token s) = P s

module _ {S : Type 0} (P : S → Type 0) where
  After-either : (b : Bool) (x y : Turn S) → After P x → After P y → After P (if b then x else y)
  After-either true x y a c = a
  After-either false x y a c = c

  After-over : (items : List Sent) (s : S) → P s → After P (over items s)
  After-over items s v = unfold After in v

  After-turns_to :
      (sent : List String) (token : String) (s : S) → P s → After P (turns_to sent token s)
  After-turns_to sent token s v = unfold After in v

  kept_either : (b : Bool) (x y : String × S) → P x.1 → P y.1 → P (if b then x else y).1
  kept_either true x y a c = a
  kept_either false x y a c = c

  abbrev Left : Option (List Sent × S) → Type 0
  Left none = Unit
  Left (some (items, s)) = P s

  proceeds :
      (u : Turn S) (rest : String → List String → S → Option (List Sent × S))
      → After P u
      → ((sent : List String) (token : String) (s : S) → P s → Left (rest token sent s))
      → Left (elim u [ over items s ↦ some (items, s) | turns_to sent token s ↦ rest token sent s ])
  unfolding After
  proceeds (over items s) rest v f = v
  proceeds (turns_to sent token s) rest v f = f sent token s v

module _ {S : Type 0} (h : Host) (r : Patterns) (acc : TextAccounts S)
    (global_system_prompt : String) (messages : List Value) (room : ℕ) (P : S → Type 0)
    (k : Keeps S acc P) where
  other_token-kept :
      (attempted : List String) (token : String) (s : S)
      → P s
      → P (other_token h r acc global_system_prompt messages room attempted token s).1
  unfolding other_token
  other_token-kept attempted token s v =
      let later = k.refreshes token s v in search (kept_either P, k.chooses, k.removes, later)

  turned-After :
      (e : String) (sent : List String) (other : String × S)
      → P other.1
      → After P (turned h r acc global_system_prompt messages room sent e other)
  unfolding turned
  turned-After e sent (token, s) v = search (After-either P, After-turns_to P, After-over P, v)

  ran-After :
      (attempted : List String) (token : String) (sent : List String) (failure : Option String)
      (s : S)
      → P s
      → After P (ran h r acc global_system_prompt messages room attempted token sent failure s)
  unfolding ran
  ran-After attempted token sent none s v = After-over P _ _ (k.uses token s v)
  ran-After attempted token sent (some e) s v =
      search (After-either P, After-over P, turned-After, other_token-kept, v)

  turn-After :
      (attempted : List String) (token : String) (before : List String) (s : S)
      → P s
      → After P (turn h r acc global_system_prompt messages room attempted token before s)
  unfolding turn run_text_stream
  turn-After attempted token before s v =
      search (After-either P, After-over P, ran-After, k.converses, v)

  text_loop-Left :
      (rounds : ℕ) (attempted : List String) (token : String) (before : List String) (s : S)
      → P s
      → Left P
          (text_loop h r acc global_system_prompt messages room rounds attempted token before s)
  unfolding text_loop
  text_loop-Left zero attempted token before s v = tt
  text_loop-Left (suc rounds) attempted token before s v =
      proceeds P (turn h r acc global_system_prompt messages room attempted token before s) _
        (turn-After attempted token before s v)
        (λ sent next t w.
          text_loop-Left rounds (tried h r acc global_system_prompt messages room attempted token)
            next sent t w)

module _ (h : Host) (c : Config) (up : Upstream) (shared : IsShared h c up) where
  text_accounts-Keeps :
      (streams : String → Option Fields → List Value → Service → Result String (List Event))
      (s : Service)
      → Keeps Service (text_accounts h c up streams) (λ t. Run h c s t)
  text_accounts-Keeps streams s = record {
    chooses =
        λ attempted t run. get_text_access_token-kept h c up (runs h c up shared s) attempted t run;
    converses = λ token m t run. (runs h c up shared s).others t run;
    uses = λ token t run. next run (uses_text (up.clock t) token);
    refreshes = λ token t run.
        refresh_access_token-kept h c up (runs h c up shared s) token true "text_stream" t run;
    removes = λ token t run. next run (removes_invalid (up.clock t) token "text_stream" false);
  }

  -- Where what other tasks do to the pool is calls of the pool, all that a text conversation does to
  -- it, whatever accounts it goes through, is a sequence of these calls too.
  pub stream_text_deltas-Run :
      (streams : String → Option Fields → List Value → Service → Result String (List Event))
      (r : Patterns) (global_system_prompt : String) (messages : List Value) (room rounds : ℕ)
      (s t : Service) (items : List Sent)
      → stream_text_deltas h r
          (text_accounts h c up streams)
          global_system_prompt
          messages
          room
          rounds
          s
        ≡ some (items, t)
      → Run h c s t
  unfolding stream_text_deltas
  stream_text_deltas-Run streams r global_system_prompt messages room rounds s t items e =
      let acc = text_accounts h c up streams in
      let k = text_accounts-Keeps streams s in
      subst (Left (λ u. Run h c s u)) e (
        text_loop-Left h r acc global_system_prompt messages room (λ u. Run h c s u) k rounds [] _
          [] _ (k.chooses [] s here))
