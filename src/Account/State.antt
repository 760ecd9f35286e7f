-- ===== src/Account/State.antt =====
-- The state of the account pool, and the calls that leave it: what the service hands to its storage,
-- to the file of the cumulative total, to the log and to the tasks that wait for a slot.
use model2api.Common.{ℕ, String, Bool, List, ◌++◌, [], ◌∷◌, ℤ}
use model2api.Common.Maps.{Map, values}
use model2api.Json.{Fields}

-- Pool. The values of `accounts` are objects: each comes from `normalize_account`.
pub record Pool : Type 0 where
  pub accounts : Map Fields
  pub index : ℕ
  pub image_inflight : Map ℤ
  pub token_aliases : Map String
  pub cumulative_total : ℤ

-- The settings that the pool reads, in src/config.rs.
pub record Config : Type 0 where
  pub image_account_concurrency : ℤ
  pub auto_remove_rate_limited_accounts : Bool
  pub auto_remove_invalid_accounts : Bool

pub data Effect : Type 0 where
  save_accounts : List Fields → Effect
  save_cumulative_total : ℤ → Effect
  log : String → Fields → Effect
  notify_waiters : Effect

-- The pool with the effects so far, the latest last.
pub record Service : Type 0 where
  pub pool : Pool
  pub effects : List Effect

abbrev pub emit : Effect → Service → Service
emit e s = record s { effects = s.effects ++ e ∷ [] }

abbrev pub with_pool : Service → Pool → Service
with_pool s p = record s { pool = p }

-- save_accounts_locked: the storage is handed every account, in order. A failure is only logged.
unfoldable pub save_accounts_locked : Service → Service
save_accounts_locked s = emit (save_accounts (values s.pool.accounts)) s
