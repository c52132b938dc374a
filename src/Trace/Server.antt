-- ===== src/Trace/Server.antt =====
-- Calls of the API server only, and the functions that make no others.
use undermoon_operator_old.BrokerController
use undermoon_operator_old.CoordinatorController
use undermoon_operator_old.BrokerClient.Requests.{request}
use undermoon_operator_old.BrokerController.{
  broker_ready, create_broker, get_or_create_broker_service, get_or_create_broker_stateful_set,
}
use undermoon_operator_old.Common.{String}
use undermoon_operator_old.CoordinatorController.{
  coordinator_ready, create_coordinator, get_or_create_coordinator_service,
  get_or_create_coordinator_stateful_set,
}
use undermoon_operator_old.Exec.{perform, State}
use undermoon_operator_old.Exec.Rules.{Keeps, Keeps-pure, keeps_rules}
use undermoon_operator_old.Go.{err, GoError, ok, RemoteError, Result}
use undermoon_operator_old.Kube.{Service, StatefulSet, Undermoon}
use undermoon_operator_old.Reconciler.{broker_and_coordinator_ready, create_resources, UmResource}
use undermoon_operator_old.StorageController.{
  create_storage, get_or_create_storage_stateful_set, scale_down_storage_stateful_set, scale_out,
  update_storage_stateful_set, updated,
}
use undermoon_operator_old.Trace.Creation.{
  create_service_guard-Keeps, create_stateful_set_guard-Keeps, endpoints_or_none-Keeps,
}
use undermoon_operator_old.Utils.{
  create_service_guard, create_stateful_set_guard, found_or_created_service,
  found_or_created_stateful_set, get_endpoints, get_or_create_service, get_or_create_stateful_set,
}
use undermoon_operator_old.World.{Call, ClusterInfo, Env, History}

abbrev pub IsServer : Call → Type 0
IsServer (Call.http request) = ⊥
IsServer (Call.redis address command) = ⊥
IsServer _ = Unit

-- A predicate that these calls keep.
pub record IsCalm (P : State → Type 0) : Type 1 where
  pub server :
      (A : Type 0) (c : Call) (answer : History → Result RemoteError A)
      → IsServer c
      → Keeps P (perform c answer)

module _ (env : Env) {P : State → Type 0} (calm : IsCalm P) where
  pub server_endpoints-Keeps :
      (name namespace : String) → Keeps P (get_endpoints env name namespace)
  unfolding get_endpoints
  server_endpoints-Keeps name namespace =
      search (keeps_rules, calm.server _ (Call.get_endpoints _) _ tt, endpoints_or_none-Keeps)

  found_service :
      (o : Service) (r : Result GoError Service) → Keeps P (found_or_created_service env o r)
  unfolding found_or_created_service
  found_service o (ok x) = Keeps-pure x
  found_service o (err e) = search (keeps_rules, calm.server _ (Call.create_service _) _ tt)

  found_stateful_set :
      (o : StatefulSet) (r : Result GoError StatefulSet)
      → Keeps P (found_or_created_stateful_set env o r)
  unfolding found_or_created_stateful_set
  found_stateful_set o (ok x) = Keeps-pure x
  found_stateful_set o (err e) =
      search (keeps_rules, calm.server _ (Call.create_stateful_set _) _ tt)

  pub service-Keeps :
      (cr : Undermoon) (o : Service)
      → Keeps P (create_service_guard (get_or_create_service env cr o))
  unfolding get_or_create_service
  service-Keeps cr o =
      create_service_guard-Keeps _
        (search (keeps_rules, calm.server _ (Call.get_service _) _ tt, found_service))

  pub stateful_set-Keeps :
      (cr : Undermoon) (o : StatefulSet)
      → Keeps P (create_stateful_set_guard (get_or_create_stateful_set env cr o))
  unfolding get_or_create_stateful_set
  stateful_set-Keeps cr o =
      create_stateful_set_guard-Keeps _
        (search (keeps_rules, calm.server _ (Call.get_stateful_set _) _ tt, found_stateful_set))

  updated-Keeps : (r : Result GoError StatefulSet) → Keeps P (updated r)
  unfolding updated
  updated-Keeps (ok x) = Keeps-pure x
  updated-Keeps (err e) = search keeps_rules

  pub update-Keeps :
      (cr : Undermoon) (ss : StatefulSet) → Keeps P (update_storage_stateful_set env cr ss)
  unfolding update_storage_stateful_set
  update-Keeps cr ss =
      search (keeps_rules, calm.server _ (Call.update_stateful_set _) _ tt, updated-Keeps)

  pub scale_out-Keeps :
      (cr : Undermoon) (v : Service) (ss : StatefulSet) → Keeps P (scale_out env cr v ss)
  unfolding scale_out
  scale_out-Keeps cr v ss = search (keeps_rules, update-Keeps) depth 8

  create_storage-Keeps : (cr : Undermoon) → Keeps P (create_storage env cr)
  unfolding create_storage scale_out get_or_create_storage_stateful_set
  create_storage-Keeps cr =
      search (keeps_rules, service-Keeps, stateful_set-Keeps, update-Keeps) depth 8

  pub create_broker-Keeps : (cr : Undermoon) → Keeps P (create_broker env cr)
  unfolding create_broker get_or_create_broker_service get_or_create_broker_stateful_set
  create_broker-Keeps cr = search (keeps_rules, service-Keeps, stateful_set-Keeps)

  pub create_coordinator-Keeps : (cr : Undermoon) → Keeps P (create_coordinator env cr)
  unfolding create_coordinator get_or_create_coordinator_service
      get_or_create_coordinator_stateful_set
  create_coordinator-Keeps cr = search (keeps_rules, service-Keeps, stateful_set-Keeps)

  pub resources-Keeps : (cr : Undermoon) → Keeps P (create_resources env cr)
  unfolding create_resources
  resources-Keeps cr =
      search (keeps_rules, create_broker-Keeps, create_coordinator-Keeps, create_storage-Keeps)
        depth 8

  pub ready-Keeps : (resource : UmResource) → Keeps P (broker_and_coordinator_ready env resource)
  unfolding broker_and_coordinator_ready broker_ready coordinator_ready
      BrokerController.get_service_endpoints_num CoordinatorController.get_service_endpoints_num
  ready-Keeps resource = search (keeps_rules, server_endpoints-Keeps) depth 8

  pub scale_down-Keeps :
      (cr : Undermoon) (ss : StatefulSet) (info : ClusterInfo)
      → Keeps P (scale_down_storage_stateful_set env cr ss info)
  unfolding scale_down_storage_stateful_set
  scale_down-Keeps cr ss info = search (keeps_rules, update-Keeps)
