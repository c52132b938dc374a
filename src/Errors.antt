-- ===== src/Errors.antt =====
-- Which errors come out of the operator's functions. The sentinels of utils.go and broker_client.go
-- are signals between functions; Reconcile is to turn each into a requeue.
pub mod Clients
pub mod Controllers
pub mod Retries
pub mod Changes
pub mod Run
use undermoon_operator_old.Go.{GoError, failed, free_node_found, migration_running, remote}

-- An error that is no sentinel.
abbrev pub IsForeign : GoError → Type 0
IsForeign (failed message) = Unit
IsForeign (remote e) = Unit
IsForeign _ = ⊥

-- The same, or a request to retry.
abbrev pub IsForeignOrRetry : GoError → Type 0
IsForeignOrRetry migration_running = ⊥
IsForeignOrRetry free_node_found = ⊥
IsForeignOrRetry _ = Unit
