-- ===== src/Images/Served.antt =====
-- src/services/protocol/conversation.rs and src/services/account_service.rs: the image flow
-- over the account pool.
use model2api.Common.{ℕ, String, true, false, ◌≡◌, some, List, Bool, Bool-cases, inl, inr, ◌==◌}
use model2api.Json.{Fields, Host, Clock}
use model2api.Account.State.{Config, Service}
use model2api.Account.Resolve.{get_account}
use model2api.Account.Updates.{mark_image_result}
use model2api.Account.Members.{remove_invalid_token}
use model2api.Account.Run.{Run, here, next, releases, records_image, removes_invalid}
use model2api.Account.Fetch.{Upstream, get_available_access_token, refresh_access_token}
use model2api.Account.Fetch.Steps.{get_available_access_token-kept, refresh_access_token-kept}
use model2api.Account.Fetch.Shared.{IsShared, Run-trans, runs}
use model2api.Images.{Result, EngineError, ConversationRequest}
use model2api.Images.Picture.{ConvDeps, Backend}
use model2api.Images.Single.{Accounts}
use model2api.Images.Single.Given.{Discipline}
use model2api.Images.Pooled.{Item, Joined, stream_image_outputs_with_pool}
use model2api.Images.Pooled.Given.{stream_image_outputs_with_pool-gives}

module _ (h : Host) (c : Config) (up : Upstream) where
  -- The calls of `generate_single_image` on the pool. The answers for one image with one account are a
  -- parameter.
  abbrev pub image_accounts :
      (String → Fields → Service → Result EngineError Backend) → Accounts Service
  image_accounts backends = record {
    get_available_access_token = get_available_access_token h c up;
    get_account = λ token s. get_account s.pool token;
    open_backend = λ token account s. (backends token account s, up.others s);
    mark_image_result = λ token success s. (mark_image_result h c (up.clock s) token success s).0;
    refresh_access_token = λ token s. refresh_access_token h c up token true "image_stream" s;
    remove_invalid_token =
        λ token s. (remove_invalid_token h c (up.clock s) token "image_stream" false s).0;
  }

marks-Run :
    (h : Host) (c : Config) (k : Clock) (token : String) (success : Bool) (s t : Service)
    → Run h c s t
    → Run h c s (mark_image_result h c k token success t).0
unfolding mark_image_result
marks-Run h c k token success s t run = elim (Bool-cases (token == "")) [
  | inl empty ↦ rw empty run
  | inr named ↦ rw named (next (next run (releases token)) (records_image k token success))
]

module _ (h : Host) (c : Config) (up : Upstream) (shared : IsShared h c up) where
  image_accounts-Discipline :
      (backends : String → Fields → Service → Result EngineError Backend) (s : Service)
      → Discipline Service
          (image_accounts h c up backends)
          (λ t. Run h c s t)
          (λ token t. Run h c s t)
  image_accounts-Discipline backends s = record {
    takes = λ plan source plans t token e run.
        get_available_access_token-kept h c up (runs h c up shared s) plan source plans t run;
    refuses = λ plan source plans t token e run.
        get_available_access_token-kept h c up (runs h c up shared s) plan source plans t run;
    works = λ token account t run. (runs h c up shared s).others t run;
    gives = λ token success t run. marks-Run h c (up.clock t) token success s t run;
    refreshes = λ token t run.
        refresh_access_token-kept h c up (runs h c up shared s) token true "image_stream" t run;
    removes = λ token t run. next run (removes_invalid (up.clock t) token "image_stream" false);
  }

  -- Where what other tasks do to the pool is calls of the pool, all that a request for images does to
  -- it, with each retry and each refresh of a token, is a sequence of these calls too: the invariants
  -- that they keep hold through every request.
  stream_image_outputs_with_pool-Run :
      (backends : String → Fields → Service → Result EngineError Backend) (deps : ConvDeps)
      (request : ConversationRequest) (rounds : ℕ) (tasks : Service → List Joined × Service)
      → ((t : Service) → Run h c t (tasks t).1)
      → (room : ℕ) (s t : Service) (items : List Item)
      → stream_image_outputs_with_pool deps
          (image_accounts h c up backends)
          request
          rounds
          tasks
          room
          s
        ≡ some (items, t)
      → Run h c s t
  stream_image_outputs_with_pool-Run backends deps request rounds tasks spawned room s t items e =
      stream_image_outputs_with_pool-gives deps (image_accounts h c up backends) request rounds
        tasks (image_accounts-Discipline backends s) (λ u run. Run-trans h c s u _ run (spawned u))
        room s t items here e
