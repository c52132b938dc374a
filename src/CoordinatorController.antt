-- ===== src/CoordinatorController.antt =====
-- coordinatorController of coordinator_controller.go.
pub mod Broadcast
use undermoon_operator_old.Clients.{set_broker_address}
use undermoon_operator_old.Common.{
  [], Bool, leb, length, List, none, Option, some, String, ℕ, ◌&&◌, ◌∷◌,
}
use undermoon_operator_old.Common.Int.{leb_ℤ, pos}
use undermoon_operator_old.Exec.{attempt, Exec, from_result, pure, throw, ◌>>=◌}
use undermoon_operator_old.Go.{err, GoError, ok, Result}
use undermoon_operator_old.Kube.{EndpointAddress, Service, StatefulSet, Undermoon}
use undermoon_operator_old.Names.Coordinator.{coordinator_num, gen_coordinator_address_from_name}
use undermoon_operator_old.Resources.Coordinator.{
  create_coordinator_service, create_coordinator_stateful_set,
}
use undermoon_operator_old.Utils.{
  create_service_guard, create_stateful_set_guard, get_endpoints, get_or_create_service,
  get_or_create_stateful_set,
}
use undermoon_operator_old.World.{Env}

module _ (env : Env) where
  unfoldable pub get_or_create_coordinator_service : Undermoon → Exec GoError Service
  get_or_create_coordinator_service cr =
      get_or_create_service env cr (create_coordinator_service cr)

  unfoldable pub get_or_create_coordinator_stateful_set : Undermoon → Exec GoError StatefulSet
  get_or_create_coordinator_stateful_set cr =
      get_or_create_stateful_set env cr (create_coordinator_stateful_set cr)

  unfoldable pub create_coordinator : Undermoon → Exec GoError (StatefulSet × Service)
  create_coordinator cr = do
    service ← create_service_guard (get_or_create_coordinator_service cr)
    ss ← create_stateful_set_guard (get_or_create_coordinator_stateful_set cr)
    pure (ss, service)

  unfoldable pub get_service_endpoints_num : Service → Exec GoError ℕ
  get_service_endpoints_num service = do
    endpoints ← get_endpoints env service.metadata.name service.metadata.namespace
    pure (length endpoints)

  unfoldable pub coordinator_ready : StatefulSet → Service → Exec GoError Bool
  coordinator_ready ss service = do
    n ← get_service_endpoints_num service
    pure (leb_ℤ (pos 1) ss.status.ready_replicas && leb 1 n)

  unfoldable pub coordinator_all_ready : StatefulSet → Service → Exec GoError Bool
  coordinator_all_ready ss service = do
    n ← get_service_endpoints_num service
    pure (leb_ℤ (pos coordinator_num) ss.status.ready_replicas && leb coordinator_num n)

  -- The loop assigns to the one variable `err`, so what it returns is the error, or none, of the
  -- last round.
  unfoldable pub set_brokers :
      Undermoon
      → String
      → Result GoError (Unit {0})
      → List EndpointAddress
      → Exec GoError (Unit {0})
  set_brokers cr master last [] = from_result last
  set_brokers cr master last (endpoint ∷ endpoints) = do
    r ←
        attempt
          (set_broker_address env (gen_coordinator_address_from_name endpoint.hostname cr) master)
    set_brokers cr master r endpoints

  unfoldable pub config_set_broker : Undermoon → Service → String → Exec GoError (Unit {0})
  config_set_broker cr service master = do
    endpoints ← get_endpoints env service.metadata.name service.metadata.namespace
    set_brokers cr master (ok tt) endpoints
