-- ===== src/Reconciler.antt =====
-- Reconcile of undermoon_controller.go.
pub mod Settled
pub mod Open
pub mod Done
pub mod Sticky
use undermoon_operator_old.BrokerController.{broker_ready, create_broker, reconcile_master}
use undermoon_operator_old.Common.{
  [], Bool, false, if◌then◌else◌, List, none, Option, some, String, true, ℕ,
}
use undermoon_operator_old.CoordinatorController.{
  config_set_broker, coordinator_ready, create_coordinator,
}
use undermoon_operator_old.Exec.{Exec, map_error, pure, State, throw, ◌>>=◌, ◌>>◌}
use undermoon_operator_old.Go.{err, GoError, is_not_found, ok, Result, retry_reconciliation}
use undermoon_operator_old.Kube.{NamespacedName, Service, StatefulSet, Undermoon}
use undermoon_operator_old.MetaController.{change_meta, fix_broker_epoch, reconcile_meta}
use undermoon_operator_old.StorageController.{
  create_storage, get_max_epoch, get_server_proxies, scale_down_storage_stateful_set,
  storage_all_ready, storage_all_ready_and_stable,
}
use undermoon_operator_old.World.{ClusterInfo, Env}
use undermoon_operator_old.Api

-- reconcile.Result; the delay is in seconds.
pub record ReconcileResult : Type 0 where
  pub requeue : Bool
  pub requeue_after : ℕ

-- What Reconcile returns.
pub record Exit : Type 0 where
  pub result : ReconcileResult
  pub error : Option GoError

abbrev pub requeue_in : ℕ → Exit
requeue_in seconds = record {
  result = record { requeue = true; requeue_after = seconds };
  error = none;
}

abbrev pub done : Exit
done = record { result = record { requeue = false; requeue_after = 0 }; error = none }

-- `return reconcile.Result{}, err`
abbrev pub propagate : GoError → Exit
propagate e = record done { error = some e }

-- The same, but for `errRetryReconciliation`, which requeues.
abbrev pub retry_or_propagate : GoError → Exit
retry_or_propagate retry_reconciliation = requeue_in 3
retry_or_propagate e = propagate e

abbrev pub done_or_propagate : GoError → Exit
done_or_propagate e = if is_not_found e then done else propagate e

abbrev pub requeue_unless : Bool → ℕ → Exec Exit (Unit {0})
requeue_unless condition seconds = if condition then pure tt else throw (requeue_in seconds)

pub record UmResource : Type 0 where
  pub broker_stateful_set : StatefulSet
  pub coordinator_stateful_set : StatefulSet
  pub storage_stateful_set : StatefulSet
  pub broker_service : Service
  pub coordinator_service : Service
  pub storage_service : Service

module _ (env : Env) where
  unfoldable pub create_resources : Undermoon → Exec GoError UmResource
  create_resources cr = do
    (broker, broker_service) ← create_broker env cr
    (coordinator, coordinator_service) ← create_coordinator env cr
    (storage, storage_service) ← create_storage env cr
    pure (record {
      broker_stateful_set = broker;
      coordinator_stateful_set = coordinator;
      storage_stateful_set = storage;
      broker_service = broker_service;
      coordinator_service = coordinator_service;
      storage_service = storage_service;
    })

  unfoldable pub broker_and_coordinator_ready : UmResource → Exec GoError Bool
  broker_and_coordinator_ready resource = do
    ready ← broker_ready env resource.broker_stateful_set resource.broker_service
    if ready
        then coordinator_ready env resource.coordinator_stateful_set resource.coordinator_service
        else pure false

  -- After changeMeta: the registry once more, without the proxies that are there, and the scaling
  -- down.
  unfoldable pub settle_cluster :
      UmResource → Undermoon → String → List String → Bool → Exec Exit (Unit {0})
  settle_cluster resource cr master replicas all_ready = do
    info ← map_error retry_or_propagate (reconcile_meta env master replicas [] cr all_ready)
    storage ←
        map_error retry_or_propagate
          (scale_down_storage_stateful_set env cr resource.storage_stateful_set info)
    pure tt

  -- From the check for pods that are still terminating on.
  unfoldable pub change_cluster :
      UmResource → Undermoon → String → List String → Bool → ClusterInfo → Exec Exit (Unit {0})
  change_cluster resource cr master replicas all_ready info = do
    stable ←
        map_error propagate (
          storage_all_ready_and_stable env resource.storage_service resource.storage_stateful_set
            cr)
    requeue_unless stable 10
    map_error retry_or_propagate (change_meta env master cr info)
    settle_cluster resource cr master replicas all_ready

  -- From the first registration of the proxies on.
  unfoldable pub scale_cluster :
      UmResource → Undermoon → String → List String → Exec Exit (Unit {0})
  scale_cluster resource cr master replicas = do
    proxies ← map_error propagate (get_server_proxies env resource.storage_service cr)
    all_ready ← map_error propagate (storage_all_ready env resource.storage_service cr)
    info ← map_error retry_or_propagate (reconcile_meta env master replicas proxies cr all_ready)
    change_cluster resource cr master replicas all_ready info

  unfoldable pub reconcile_body : NamespacedName → Exec Exit (Unit {0})
  reconcile_body request = do
    found ← map_error done_or_propagate (Api.get_undermoon env request)
    resource ← map_error retry_or_propagate (create_resources found)
    ready ← map_error propagate (broker_and_coordinator_ready resource)
    requeue_unless ready 3
    (cr, master, replicas) ←
        map_error retry_or_propagate (reconcile_master env found resource.broker_service)
    map_error propagate (config_set_broker env cr resource.coordinator_service master)
    max_epoch ← map_error propagate (get_max_epoch env resource.storage_service cr)
    map_error propagate (fix_broker_epoch env master max_epoch)
    scale_cluster resource cr master replicas

  abbrev pub exit_of : Result Exit (Unit {0}) → Exit
  exit_of (ok _) = done
  exit_of (err e) = e

  unfoldable pub reconcile : NamespacedName → State → Exit × State
  reconcile request s = let (r, s') = reconcile_body request s in (exit_of r, s')
