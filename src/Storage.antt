-- ===== src/Storage.antt =====
-- src/services/storage/mod.rs: what the services ask of a storage back end for the keys of the API,
-- as the trait `StorageBackend` declares it. A write that fails leaves what was stored.
pub mod JsonFile
use model2api.Common.{Option, some, List, ◌≡◌}
use model2api.Json.{Value}

pub record StorageBackend : Type 1 where
  pub State : Type 0
  pub load_auth_keys : State → List Value
  pub save_auth_keys : List Value → State → Option State

-- What is saved is what is loaded afterwards.
pub record IsStorage (b : StorageBackend) : Type 0 where
  pub load-save :
      (values : List Value) (s t : b.State)
      → b.save_auth_keys values s ≡ some t
      → b.load_auth_keys t ≡ values
