-- ===== src/Progress.antt =====
-- A world in which everything is up, and how Reconcile goes through in it.
pub mod Creation
pub mod Brokers
pub mod Meta
pub mod Pass
pub mod Stability
pub mod Runs
use undermoon_operator_old.Utils
use undermoon_operator_old.BrokerClient.{epoch_url}
use undermoon_operator_old.Common.{List, String, false, leb, length, some, true, ℕ, ◌*◌, ◌-◌, ◌≡◌}
use undermoon_operator_old.Common.Int.{leb_ℤ, pos, ℤ}
use undermoon_operator_old.Go.{ok}
use undermoon_operator_old.Go.ParseInt.{parse_int, value}
use undermoon_operator_old.Kube.{Endpoints, NamespacedName, Service, StatefulSet, Undermoon}
use undermoon_operator_old.Names.Broker.{broker_num}
use undermoon_operator_old.Names.Storage.{chunk_node_number}
use undermoon_operator_old.Resources.Broker.{create_broker_service, create_broker_stateful_set}
use undermoon_operator_old.Resources.Coordinator.{
  create_coordinator_service, create_coordinator_stateful_set,
}
use undermoon_operator_old.Resources.Storage.{create_storage_service, create_storage_stateful_set}
use undermoon_operator_old.StorageController.{is_stable, needs_scale_out, replica_num}
use undermoon_operator_old.Utils.{addresses_of_subsets}
use undermoon_operator_old.World.{ClusterInfo, Env, History, HttpRequest, HttpResponse, empty, get}

-- The object of a service exists, with addresses whose number has `Enough`.
pub record HasService (env : Env) (cr : Undermoon) (object : Service) (Enough : ℕ → Type 0)
    : Type 0 where
  pub referred : Service
  pub service : Service
  pub endpoints : Endpoints
  pub refers : env.refer_service cr object ≡ ok referred
  pub exists : (h : History) → env.on_get_service h (Utils.key referred.metadata) ≡ ok service
  pub serves :
      (h : History)
      → env.on_get_endpoints h
          (record { name = service.metadata.name; namespace = service.metadata.namespace })
        ≡ ok endpoints
  pub enough : Enough (length (addresses_of_subsets endpoints.subsets))

pub record HasStatefulSet (env : Env) (cr : Undermoon) (object : StatefulSet)
    (Fit : StatefulSet → Type 0) : Type 0 where
  pub referred : StatefulSet
  pub ss : StatefulSet
  pub refers : env.refer_stateful_set cr object ≡ ok referred
  pub exists : (h : History) → env.on_get_stateful_set h (Utils.key referred.metadata) ≡ ok ss
  pub fit : Fit ss

-- The pods that the StatefulSet of the storage has are those asked for.
pub record IsFull (cr : Undermoon) (ss : StatefulSet) : Type 0 where
  pub large : needs_scale_out cr ss ≡ false
  pub stable : is_stable ss ≡ true

pub record IsUp (env : Env) (key : NamespacedName) (cr : Undermoon) : Type 0 where
  pub found : (h : History) → env.on_get_undermoon h key ≡ ok cr
  pub stores : (h : History) (x : Undermoon) → env.on_update_status h x ≡ ok x
  pub broker_service :
      HasService env cr (create_broker_service cr) (λ n. leb (broker_num - 1) n ≡ true)
  pub coordinator_service : HasService env cr (create_coordinator_service cr) (λ n. leb 1 n ≡ true)
  pub storage_service :
      HasService env cr (create_storage_service cr) (λ n. leb_ℤ (replica_num cr) (pos n) ≡ true)
  pub broker_set :
      HasStatefulSet env cr
        (create_broker_stateful_set cr)
        (λ ss. leb_ℤ (pos (broker_num - 1)) ss.status.ready_replicas ≡ true)
  pub coordinator_set :
      HasStatefulSet env cr
        (create_coordinator_stateful_set cr)
        (λ ss. leb_ℤ (pos 1) ss.status.ready_replicas ≡ true)
  pub storage_set : HasStatefulSet env cr (create_storage_stateful_set cr) (IsFull cr)
  pub updates :
      (h : History) (ss : StatefulSet)
      → (updated : StatefulSet) × (env.on_update_stateful_set h ss ≡ ok updated)
  -- Each broker answers with the status 200, and the bodies that are read are fit to be read.
  pub answer : History → HttpRequest → HttpResponse
  pub answers : (h : History) (r : HttpRequest) → env.on_http h r ≡ ok (answer h r)
  pub fine : (h : History) (r : HttpRequest) → (answer h r).status_code ≡ 200
  pub epochs :
      (h : History) (address : String)
      → (epoch : ℤ) × (parse_int
            (answer h (record { method = get; url = epoch_url address; payload = empty })).body
          ≡ value epoch)
  pub names : (res : HttpResponse) → (l : List String) × (env.result_names res ≡ some l)
  pub info : ClusterInfo
  pub informs : (res : HttpResponse) → env.result_cluster_info res ≡ some info
  pub settled : info.is_migrating ≡ false
  pub slots : info.node_number_with_slots ≡ pos (cr.spec.chunk_number * chunk_node_number)
  pub commands :
      (h : History) (address : String) (command : List String)
      → (reply : String) × (env.on_redis_string h address command ≡ ok (ok reply))
