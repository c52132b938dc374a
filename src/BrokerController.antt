-- ===== src/BrokerController.antt =====
-- memBrokerController of broker_controller.go: the brokers' objects, and the choice of the master.
pub mod Choice
pub mod Master
pub mod Holders
pub mod Answering
use undermoon_operator_old.BrokerClient.{get_epoch, get_replica_addresses}
use undermoon_operator_old.Common.{
  [], Bool, false, if◌then◌else◌, leb, length, List, map, String, true, ℕ, ◌&&◌, ◌-◌, ◌==◌, ◌||◌,
  ◌∷◌,
}
use undermoon_operator_old.Common.Int.{eqb_ℤ, leb_ℤ, ltb_ℤ, pos, ℤ}
use undermoon_operator_old.Exec.{attempt, Exec, pure, throw, ◌>>=◌}
use undermoon_operator_old.Go.{err, failed, GoError, is_conflict, ok, Result, retry_reconciliation}
use undermoon_operator_old.Kube.{EndpointAddress, Service, StatefulSet, Undermoon}
use undermoon_operator_old.Names.Broker.{broker_num, gen_broker_address_from_name}
use undermoon_operator_old.Resources.Broker.{create_broker_service, create_broker_stateful_set}
use undermoon_operator_old.Utils.{
  create_service_guard, create_stateful_set_guard, get_endpoints, get_or_create_service,
  get_or_create_stateful_set,
}
use undermoon_operator_old.World.{Env}
use undermoon_operator_old.Api

abbrev pub is_empty : List String → Bool
is_empty [] = true
is_empty (a ∷ rest) = false

-- One round of the loop for the highest epoch: the best broker so far and its epoch.
unfoldable pub better : String → ℤ → String → Result GoError ℤ → String × ℤ
better best max address (err e) = (best, max)
better best max address (ok epoch) =
    if best == "" || ltb_ℤ max epoch then (address, epoch) else (best, max)

-- All addresses but the master's.
unfoldable pub replicas_of : String → List String → List String
replicas_of master [] = []
replicas_of master (a ∷ addresses) =
    let rest = replicas_of master addresses in if a == master then rest else a ∷ rest

abbrev pub with_replicas : String → Result GoError (List String) → List String → List String
with_replicas address (err e) masters = masters
with_replicas address (ok replicas) masters =
    if is_empty replicas then masters else address ∷ masters

unfoldable pub status_updated : Result GoError Undermoon → Exec GoError Undermoon
status_updated (ok cr) = pure cr
status_updated (err e) = if is_conflict e then throw retry_reconciliation else throw e

module _ (env : Env) where
  unfoldable pub get_or_create_broker_service : Undermoon → Exec GoError Service
  get_or_create_broker_service cr = get_or_create_service env cr (create_broker_service cr)

  unfoldable pub get_or_create_broker_stateful_set : Undermoon → Exec GoError StatefulSet
  get_or_create_broker_stateful_set cr =
      get_or_create_stateful_set env cr (create_broker_stateful_set cr)

  unfoldable pub create_broker : Undermoon → Exec GoError (StatefulSet × Service)
  create_broker cr = do
    service ← create_service_guard (get_or_create_broker_service cr)
    ss ← create_stateful_set_guard (get_or_create_broker_stateful_set cr)
    pure (ss, service)

  unfoldable pub get_service_endpoints_num : Service → Exec GoError ℕ
  get_service_endpoints_num service = do
    endpoints ← get_endpoints env service.metadata.name service.metadata.namespace
    pure (length endpoints)

  unfoldable pub broker_ready : StatefulSet → Service → Exec GoError Bool
  broker_ready ss service = do
    n ← get_service_endpoints_num service
    pure (leb_ℤ (pos (broker_num - 1)) ss.status.ready_replicas && leb (broker_num - 1) n)

  unfoldable pub broker_all_ready : StatefulSet → Service → Exec GoError Bool
  broker_all_ready ss service = do
    n ← get_service_endpoints_num service
    pure (eqb_ℤ ss.status.ready_replicas (pos broker_num) && leb broker_num n)

  -- The brokers that have replicas; one that does not answer is passed over.
  unfoldable pub master_brokers : List String → Exec GoError (List String)
  master_brokers [] = pure []
  master_brokers (address ∷ addresses) = do
    r ← attempt (get_replica_addresses env address)
    masters ← master_brokers addresses
    pure (with_replicas address r masters)

  unfoldable pub max_epoch_broker : String → ℤ → List String → Exec GoError String
  unfolding better
  max_epoch_broker best max [] = pure best
  max_epoch_broker best max (address ∷ addresses) = do
    r ← attempt (get_epoch env address)
    max_epoch_broker (better best max address r).0 (better best max address r).1 addresses

  -- After the loop over the addresses.
  unfoldable pub choose_master : List String → List String → Exec GoError String
  choose_master addresses (master ∷ []) = pure master
  choose_master addresses [] = max_epoch_broker "" (pos 0) addresses
  choose_master addresses masters = max_epoch_broker "" (pos 0) masters

  unfoldable pub get_current_master : List String → Exec GoError String
  get_current_master [] = throw (failed "broker addresses is empty")
  get_current_master (address ∷ addresses) = do
    masters ← master_brokers (address ∷ addresses)
    choose_master (address ∷ addresses) masters

  -- The resource that the API server returns is the one that the caller goes on with.
  unfoldable pub set_master_broker_status : Undermoon → String → Exec GoError Undermoon
  unfolding status_updated
  set_master_broker_status cr master = do
    r ←
        attempt
          (Api.update_status env (record cr { status = record { master_broker_address = master } }))
    status_updated r

  unfoldable pub reconcile_master :
      Undermoon → Service → Exec GoError (Undermoon × String × List String)
  reconcile_master cr service = do
    endpoints ← get_endpoints env service.metadata.name service.metadata.namespace
    let addresses =
        map (λ (e : EndpointAddress). gen_broker_address_from_name e.hostname cr) endpoints
    master ← get_current_master addresses
    cr' ← set_master_broker_status cr master
    pure (cr', master, replicas_of master addresses)
