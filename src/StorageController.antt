-- ===== src/StorageController.antt =====
-- storageController of storage_controller.go.
pub mod Scaling
pub mod Epochs
pub mod Proxies
pub mod ScaleDown
use undermoon_operator_old.Common.{
  ℕ, ◌*◌, String, Bool, true, false, ◌&&◌, List, [], ◌∷◌, map, length, contains, if◌then◌else◌,
}
use undermoon_operator_old.Common.Int.{ℤ, pos, leb_ℤ, ltb_ℤ, eqb_ℤ}
use undermoon_operator_old.Go.{GoError, Result, ok, err, retry_reconciliation, is_conflict}
use undermoon_operator_old.Go.Int32.{int32, mul2_int32, pred_int32}
use undermoon_operator_old.Go.ParseInt.{parse_int, number, after_last_dash}
use undermoon_operator_old.Kube.{Service, StatefulSet, Undermoon, EndpointAddress}
use undermoon_operator_old.World.{Env, ServerProxyMeta, ClusterInfo}
use undermoon_operator_old.Exec.{Exec, pure, throw, attempt, ◌>>=◌, ◌>>◌}
use undermoon_operator_old.Api
use undermoon_operator_old.Utils.{
  create_service_guard, create_stateful_set_guard, get_endpoints, get_or_create_service,
  get_or_create_stateful_set,
}
use undermoon_operator_old.Names.Storage.{
  chunk_node_number, storage_replicas, gen_storage_fqdn_from_name, gen_storage_address_from_name,
  gen_storage_stateful_set_addrs,
}
use undermoon_operator_old.Resources.Storage.{
  create_storage_service, create_storage_public_service, create_storage_stateful_set,
}
use undermoon_operator_old.BrokerClient.{new_server_proxy_meta}
use undermoon_operator_old.Clients.{get_proxy_epoch}

-- `int32(int(cr.Spec.ChunkNumber) * halfChunkNodeNumber)`
unfoldable pub replica_num : Undermoon → ℤ
unfolding int32
replica_num cr = int32 (pos (storage_replicas cr))

-- One round of the loop of getServerProxies. An index that does not parse is only logged.
unfoldable pub server_proxy_of : Undermoon → EndpointAddress → ServerProxyMeta
server_proxy_of cr endpoint =
    let address = gen_storage_fqdn_from_name endpoint.hostname cr in
    new_server_proxy_meta address address cr.spec.port
      (number (parse_int (after_last_dash endpoint.hostname)))

-- An error of getEpoch is only logged, and the epoch beside it is 0.
unfoldable pub epoch_or_zero : Result GoError ℤ → ℤ
epoch_or_zero (ok epoch) = epoch
epoch_or_zero (err e) = pos 0

unfoldable pub max_ℤ : ℤ → ℤ → ℤ
max_ℤ max epoch = if ltb_ℤ max epoch then epoch else max

unfoldable pub updated : Result GoError StatefulSet → Exec GoError StatefulSet
updated (ok ss) = pure ss
updated (err e) = if is_conflict e then throw retry_reconciliation else throw e

abbrev pub with_replica_num : Undermoon → StatefulSet → StatefulSet
with_replica_num cr ss = record ss { spec = record ss.spec { replicas = replica_num cr } }

-- Whether there are fewer replicas than asked for.
unfoldable pub needs_scale_out : Undermoon → StatefulSet → Bool
needs_scale_out cr storage =
    ltb_ℤ storage.spec.replicas (mul2_int32 (int32 (pos cr.spec.chunk_number)))

-- No pod of an earlier size is left.
unfoldable pub is_stable : StatefulSet → Bool
is_stable ss =
    eqb_ℤ ss.status.current_replicas ss.spec.replicas && eqb_ℤ ss.status.replicas ss.spec.replicas

module _ (env : Env) where
  unfoldable pub get_or_create_storage_stateful_set : Undermoon → Exec GoError StatefulSet
  get_or_create_storage_stateful_set cr =
      get_or_create_stateful_set env cr (create_storage_stateful_set cr)

  unfoldable pub update_storage_stateful_set : Undermoon → StatefulSet → Exec GoError StatefulSet
  unfolding updated
  update_storage_stateful_set cr storage = do
    r ← attempt (Api.update_stateful_set env (with_replica_num cr storage))
    updated r

  -- The replicas are only raised here.
  unfoldable pub scale_out :
      Undermoon → Service → StatefulSet → Exec GoError (StatefulSet × Service)
  scale_out cr service storage =
      if needs_scale_out cr storage
      then (do storage' ← update_storage_stateful_set cr storage; pure (storage', service))
      else pure (storage, service)

  -- The first `err` is declared again by the next line, so a failure of the public service is
  -- dropped.
  unfoldable pub create_storage : Undermoon → Exec GoError (StatefulSet × Service)
  unfolding scale_out
  create_storage cr = do
    dropped ←
        attempt
          (create_service_guard (get_or_create_service env cr (create_storage_public_service cr)))
    service ← create_service_guard (get_or_create_service env cr (create_storage_service cr))
    storage ← create_stateful_set_guard (get_or_create_storage_stateful_set cr)
    scale_out cr service storage

  unfoldable pub scale_down_storage_stateful_set :
      Undermoon → StatefulSet → ClusterInfo → Exec GoError StatefulSet
  scale_down_storage_stateful_set cr storage info =
      let expected = pos (cr.spec.chunk_number * chunk_node_number) in
      if ltb_ℤ expected info.node_number_with_slots
      then throw retry_reconciliation
      else if ltb_ℤ info.node_number_with_slots expected
      then throw retry_reconciliation
      else update_storage_stateful_set cr storage

  unfoldable pub get_service_endpoints_num : Service → Exec GoError ℕ
  get_service_endpoints_num service = do
    endpoints ← get_endpoints env service.metadata.name service.metadata.namespace
    pure (length endpoints)

  unfoldable pub storage_ready : Service → Undermoon → Exec GoError Bool
  storage_ready service cr = do
    n ← get_service_endpoints_num service
    pure (leb_ℤ (pred_int32 (replica_num cr)) (pos n))

  unfoldable pub storage_all_ready : Service → Undermoon → Exec GoError Bool
  storage_all_ready service cr = do
    n ← get_service_endpoints_num service
    pure (leb_ℤ (replica_num cr) (pos n))

  unfoldable pub storage_all_ready_and_stable :
      Service → StatefulSet → Undermoon → Exec GoError Bool
  storage_all_ready_and_stable service ss cr = do
    ready ← storage_all_ready service cr
    pure (ready && is_stable ss)

  unfoldable pub get_server_proxies : Service → Undermoon → Exec GoError (List ServerProxyMeta)
  get_server_proxies service cr = do
    endpoints ← get_endpoints env service.metadata.name service.metadata.namespace
    pure (map (server_proxy_of cr) endpoints)

  -- The loop of getMaxEpoch; `sets` are the addresses of the pods that stay.
  unfoldable pub max_epoch_of : Undermoon → List String → ℤ → List EndpointAddress → Exec GoError ℤ
  max_epoch_of cr sets max [] = pure max
  max_epoch_of cr sets max (endpoint ∷ endpoints) =
      let address = gen_storage_address_from_name endpoint.hostname cr in
      let asked = attempt (get_proxy_epoch env address) >>= λ r.
      max_epoch_of cr sets (max_ℤ max (epoch_or_zero r)) endpoints in
      let passed = max_epoch_of cr sets max endpoints in
      if contains address sets then asked else passed

  unfoldable pub get_max_epoch : Service → Undermoon → Exec GoError ℤ
  get_max_epoch service cr = do
    endpoints ← get_endpoints env service.metadata.name service.metadata.namespace
    max_epoch_of cr (gen_storage_stateful_set_addrs cr) (pos 0) endpoints
