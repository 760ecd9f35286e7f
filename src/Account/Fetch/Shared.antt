-- ===== src/Account/Fetch/Shared.antt =====
-- src/services/account_service.rs: what the calls on the upstream do to the pool, where other tasks
-- make calls of the pool in the meantime.
use model2api.Json.{Host}
use model2api.Account.State.{Config, Service}
use model2api.Account.Matching.{Request}
use model2api.Account.Run.{Run, here, next}
use model2api.Account.Fetch.{Upstream}
use model2api.Account.Fetch.Steps.{IsKept}

module _ (h : Host) (c : Config) where
  pub Run-trans : (s t u : Service) → Run h c s t → Run h c t u → Run h c s u
  Run-trans s t u first here = first
  Run-trans s t u first (next {t = v} run step) = next (Run-trans s t v first run) step

-- What other tasks do to the pool is steps of the pool as well.
pub record IsShared (h : Host) (c : Config) (up : Upstream) : Type 0 where
  pub others : (s : Service) → Run h c s (up.others s)
  pub outlasts : (r : Request) (s : Service) → Run h c s (up.outlasts r s).1

module _ (h : Host) (c : Config) (up : Upstream) (shared : IsShared h c up) where
  pub runs : (s : Service) → IsKept h c up (λ t. Run h c s t)
  runs s = record {
    steps = λ step run. next run step;
    others = λ t run. Run-trans h c s t _ run (shared.others t);
    outlasts = λ r t run. Run-trans h c s t _ run (shared.outlasts r t);
  }
