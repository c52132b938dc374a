-- ===== src/Trace.antt =====
-- What justifies a call that changes the cluster: an answer that the code looked at just before.
pub mod Carried
pub mod Passage
pub mod Equipment
pub mod Creation
pub mod Fetched
pub mod Held
pub mod Free
pub mod Clients
pub mod Controllers
pub mod Reading
pub mod Scaling
pub mod Preparation
pub mod Run
pub mod Server
pub mod Pools
pub mod Reachable
use undermoon_operator_old.BrokerClient.{info_url, scale_url}
use undermoon_operator_old.Common.{
  [], Bool, false, length, List, none, Option, some, String, ℕ, ◌*◌, ◌∷◌, ◌≡◌, ◌≤◌, ◌⊎◌, inl,
}
use undermoon_operator_old.Common.Int.{pos, ℤ, ◌<ℤ◌, ◌≤ℤ◌}
use undermoon_operator_old.Exec.{State}
use undermoon_operator_old.Go.{err, not_found, ok, RemoteError, Result}
use undermoon_operator_old.Kube.{
  EndpointAddress, Endpoints, NamespacedName, Service, StatefulSet, Undermoon,
}
use undermoon_operator_old.Names.Storage.{chunk_node_number}
use undermoon_operator_old.Resources.Storage.{create_storage_service, create_storage_stateful_set}
use undermoon_operator_old.StorageController.{replica_num, with_replica_num}
use undermoon_operator_old.Utils.{addresses_of_subsets, key}
use undermoon_operator_old.Utils.Creation.{located}
use undermoon_operator_old.World.{
  Call, ClusterInfo, create_service, create_stateful_set, empty, Env, get, History, http,
  HttpRequest, HttpResponse, post, update_stateful_set,
}

-- Now or after fewer calls this held of the history.
abbrev pub Earlier : (History → Type 0) → History → Type 0
Earlier P [] = P []
Earlier P (c ∷ h) = P (c ∷ h) ⊎ Earlier P h

pub Earlier-now : (P : History → Type 0) (h : History) → P h → Earlier P h
Earlier-now P [] p = p
Earlier-now P (c ∷ h) p = inl p

module _ (env : Env) where
  -- The call before was a Get of the same object, which was not there.
  pub record ServiceMissing (service : Service) (h : History) : Type 0 where
    pub before : History
    pub asked : h ≡ Call.get_service (key service.metadata) ∷ before
    pub missing : env.on_get_service before (key service.metadata) ≡ err not_found

  pub record StatefulSetMissing (ss : StatefulSet) (h : History) : Type 0 where
    pub before : History
    pub asked : h ≡ Call.get_stateful_set (key ss.metadata) ∷ before
    pub missing : env.on_get_stateful_set before (key ss.metadata) ≡ err not_found

  -- The call before was the Get or the Create of the manifest `object`, answered with `found`.
  pub data IsFetchedService (object found : Service) (h : History) : Type 0 where
    read_service :
        (before : History)
        → h ≡ Call.get_service (key object.metadata) ∷ before
        → env.on_get_service before (key object.metadata) ≡ ok found
        → IsFetchedService object found h
    created_service :
        (before : History)
        → h ≡ Call.create_service object ∷ before
        → env.on_create_service before object ≡ ok found
        → IsFetchedService object found h

  pub data IsFetched (object found : StatefulSet) (h : History) : Type 0 where
    read :
        (before : History)
        → h ≡ Call.get_stateful_set (key object.metadata) ∷ before
        → env.on_get_stateful_set before (key object.metadata) ≡ ok found
        → IsFetched object found h
    created :
        (before : History)
        → h ≡ Call.create_stateful_set object ∷ before
        → env.on_create_stateful_set before object ≡ ok found
        → IsFetched object found h

  -- The call before read or created the storage's service, or its StatefulSet, of a resource.
  pub record IsStorageService (resource : Undermoon) (found : Service) (h : History) : Type 0 where
    pub object : Service
    pub owned : env.refer_service resource (create_storage_service resource) ≡ ok object
    pub fetched : IsFetchedService object found h

  pub record IsStorageSet (resource : Undermoon) (found : StatefulSet) (h : History) : Type 0 where
    pub object : StatefulSet
    pub owned : env.refer_stateful_set resource (create_storage_stateful_set resource) ≡ ok object
    pub fetched : IsFetched object found h

  -- What a resource's run has as the storage's StatefulSet: the one read or created, or what the
  -- API server returned when that one was updated to the size asked for.
  pub data HasStorageSet (resource : Undermoon) (ss : StatefulSet) (h : History) : Type 0 where
    as_fetched : IsStorageSet resource ss h → HasStorageSet resource ss h
    as_updated :
        (found : StatefulSet) (before : History)
        → IsStorageSet resource found before
        → h ≡ Call.update_stateful_set (with_replica_num resource found) ∷ before
        → env.on_update_stateful_set before (with_replica_num resource found) ≡ ok ss
        → HasStorageSet resource ss h

  -- The call before read the resource.
  pub record IsRead (resource : Undermoon) (h : History) : Type 0 where
    pub k : NamespacedName
    pub before : History
    pub asked : h ≡ Call.get_undermoon k ∷ before
    pub answered : env.on_get_undermoon before k ≡ ok resource

  -- The call before stored a master in the resource's status, and `cr` is the version returned.
  pub record IsStored (resource cr : Undermoon) (h : History) : Type 0 where
    pub master : String
    pub before : History
    pub asked :
        h
        ≡ Call.update_status
            (record resource { status = record { master_broker_address = master } })
          ∷ before
    pub answered :
        env.on_update_status before
          (record resource { status = record { master_broker_address = master } })
        ≡ ok cr

  -- Earlier in the history the resource was read, and the storage's service and StatefulSet came
  -- from the API server, and then the version of the resource that the run goes on with.
  pub record IsEquipped (resource : Undermoon) (service : Service) (ss : StatefulSet) (h : History)
      : Type 0 where
    pub requested : Earlier (IsRead resource) h
    pub served : Earlier (IsStorageService resource service) h
    pub sets : Earlier (HasStorageSet resource ss) h

  pub record IsEquippedFor (resource cr : Undermoon) (service : Service) (ss : StatefulSet)
      (h : History) : Type 0 where
    pub equipped : IsEquipped resource service ss h
    pub stored : Earlier (IsStored resource cr) h

  -- The call before read this information about this cluster from this broker.
  pub record InfoRead (master cluster : String) (info : ClusterInfo) (h : History) : Type 0 where
    pub before : History
    pub response : HttpResponse
    pub asked :
        h ≡ http (record { method = get; url = info_url master cluster; payload = empty }) ∷ before
    pub answered :
        env.on_http before (record { method = get; url = info_url master cluster; payload = empty })
        ≡ ok response
    pub decoded : env.result_cluster_info response ≡ some info

  -- The storage's StatefulSet of a resource changes in its replicas only, in two ways: they are
  -- raised to the size asked for, right after the StatefulSet was read or created, or they are set
  -- to this size, right after a broker said that the slots of the resource's cluster are on just
  -- as many nodes as asked for.
  pub data Resizable (ss : StatefulSet) (h : History) : Type 0 where
    grows :
        (resource : Undermoon) (found : StatefulSet)
        → Earlier (IsRead resource) h
        → IsStorageSet resource found h
        → found.spec.replicas <ℤ replica_num resource
        → ss ≡ with_replica_num resource found
        → Resizable ss h
    settled :
        (resource cr : Undermoon) (service : Service) (held : StatefulSet) (master : String)
        (info : ClusterInfo)
        → IsEquippedFor resource cr service held h
        → InfoRead master cr.spec.cluster_name info h
        → info.node_number_with_slots ≡ pos (cr.spec.chunk_number * chunk_node_number)
        → ss ≡ with_replica_num cr held
        → Resizable ss h

  -- The call before located these pods behind the service; a service without an endpoints object
  -- has none. `R` holds of the calls before that.
  pub record IsLocated (service : Service) (R : History → Type 0) (pods : List EndpointAddress)
      (h : History) : Type 0 where
    pub before : History
    pub asked : h ≡ Call.get_endpoints (key service.metadata) ∷ before
    pub answered : located (env.on_get_endpoints before (key service.metadata)) ≡ ok pods
    pub earlier : R before

  -- The two calls before found the pods behind the storage's service all there, and the broker
  -- that is asked to scale the cluster said that no migration of this cluster runs.
  pub record Scalable (request : HttpRequest) (h : History) : Type 0 where
    pub resource : Undermoon
    pub cr : Undermoon
    pub service : Service
    pub held : StatefulSet
    pub equipped : IsEquippedFor resource cr service held h
    pub info : ClusterInfo
    pub master : String
    pub pods : List EndpointAddress
    pub located : IsLocated service (InfoRead master cr.spec.cluster_name info) pods h
    pub enough : replica_num cr ≤ℤ pos (length pods)
    pub idle : info.is_migrating ≡ false
    pub target :
        request.url
        ≡ scale_url master cr.spec.cluster_name (cr.spec.chunk_number * chunk_node_number)

  -- A POST without a body is the request to scale the cluster.
  abbrev pub JustifiedHttp : HttpRequest → History → Type 0
  JustifiedHttp request h = (request.method ≡ post) → (request.payload ≡ empty) → Scalable request h

  abbrev pub Justified : Call → History → Type 0
  Justified (create_service service) h = ServiceMissing service h
  Justified (create_stateful_set ss) h = StatefulSetMissing ss h
  Justified (update_stateful_set ss) h = Resizable ss h
  Justified (http request) h = JustifiedHttp request h
  Justified _ h = Unit

  -- Every call of the history was justified when it was made.
  abbrev pub ValidHistory : History → Type 0
  ValidHistory [] = Unit
  ValidHistory (c ∷ h) = Justified c h × ValidHistory h

  abbrev pub IsValid : State → Type 0
  IsValid s = ValidHistory s.calls
