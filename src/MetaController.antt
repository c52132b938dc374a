-- ===== src/MetaController.antt =====
-- metaController of meta_controller.go: the broker's registry of proxies and its cluster.
pub mod Registry
pub mod Refinement
pub mod Elected
pub mod Scaling
pub mod Refusals
pub mod Epochs
use undermoon_operator_old.Common.{
  ℕ, String, Bool, true, false, not, ◌||◌, List, [], ◌∷◌, ◌++◌, map, contains, if◌then◌else◌,
}
use undermoon_operator_old.Common.Int.{ℤ, leb_ℤ}
use undermoon_operator_old.Go.{
  GoError, Result, ok, err, retry_reconciliation, migration_running, free_node_found,
}
use undermoon_operator_old.Kube.{Undermoon}
use undermoon_operator_old.World.{Env, ServerProxyMeta, ClusterInfo}
use undermoon_operator_old.Exec.{Exec, pure, throw, attempt, map_error, ◌>>=◌, ◌>>◌}
use undermoon_operator_old.Names.Storage.{gen_storage_stateful_set_addrs}
use undermoon_operator_old.BrokerClient as Client

-- `migration_running` becomes a retry; any other error stays.
unfoldable pub retry_if_migrating : GoError → GoError
retry_if_migrating migration_running = retry_reconciliation
retry_if_migrating e = e

-- The addresses that deregisterServerProxies does not keep.
unfoldable pub delete_list : List String → List String → List String
delete_list keep_set [] = []
delete_list keep_set (address ∷ existing) =
    let rest = delete_list keep_set existing in
    if contains address keep_set then rest else address ∷ rest

unfoldable pub keep_set : Undermoon → List ServerProxyMeta → List String
keep_set cr proxies =
    gen_storage_stateful_set_addrs cr ++ map (λ (p : ServerProxyMeta). p.proxy_address) proxies

module _ (env : Env) where
  -- The replicas are told that they have none.
  unfoldable pub clear_replicas : List String → Exec GoError (Unit {0})
  clear_replicas [] = pure tt
  clear_replicas (address ∷ addresses) = do
    Client.set_broker_replicas env address []
    clear_replicas addresses

  unfoldable pub set_broker_replicas : String → List String → Exec GoError (Unit {0})
  set_broker_replicas master replicas = do
    Client.set_broker_replicas env master replicas
    clear_replicas replicas

  -- Errors of single proxies are only logged.
  unfoldable pub register_server_proxies : String → List ServerProxyMeta → Exec GoError (Unit {0})
  register_server_proxies master [] = pure tt
  register_server_proxies master (proxy ∷ proxies) = do
    r ← attempt (Client.register_server_proxy env master proxy)
    register_server_proxies master proxies

  unfoldable pub deregister_all : String → List String → Exec GoError (Unit {0})
  deregister_all master [] = pure tt
  deregister_all master (address ∷ addresses) = do
    r ← attempt (Client.deregister_server_proxy env master address)
    deregister_all master addresses

  unfoldable pub deregister_server_proxies :
      String → List ServerProxyMeta → Undermoon → Exec GoError (Unit {0})
  deregister_server_proxies master proxies cr = do
    existing ← Client.get_server_proxies env master
    deregister_all master (delete_list (keep_set cr proxies) existing)

  unfoldable pub reconcile_server_proxy_registry :
      String → List ServerProxyMeta → Undermoon → Exec GoError (Unit {0})
  reconcile_server_proxy_registry master proxies cr = do
    register_server_proxies master proxies
    deregister_server_proxies master proxies cr

  unfoldable pub create_cluster : String → Undermoon → Exec GoError (Unit {0})
  create_cluster master cr = do
    exists ← Client.cluster_exists env master cr.spec.cluster_name
    if exists
        then pure tt
        else Client.create_cluster env master cr.spec.cluster_name cr.spec.chunk_number

  unfoldable pub get_cluster_info : String → Undermoon → Exec GoError ClusterInfo
  get_cluster_info master cr = Client.get_cluster_info env master cr.spec.cluster_name

  unfoldable pub reconcile_meta :
      String → List String → List ServerProxyMeta → Undermoon → Bool → Exec GoError ClusterInfo
  reconcile_meta master replicas proxies cr storage_all_ready = do
    set_broker_replicas master replicas
    reconcile_server_proxy_registry master proxies cr
    if storage_all_ready
        then (do create_cluster master cr; get_cluster_info master cr)
        else throw retry_reconciliation

  -- What changeNodeNumber does after a scale request; the flag is its variable `retry`.
  unfoldable pub remove_nodes : String → Undermoon → Bool → Exec GoError (Unit {0})
  remove_nodes master cr retry = do
    map_error retry_if_migrating (Client.remove_free_nodes env master cr.spec.cluster_name)
    if retry then throw retry_reconciliation else pure tt

  unfoldable pub after_scale :
      String → Undermoon → Result GoError (Unit {0}) → Exec GoError (Unit {0})
  after_scale master cr (ok _) = remove_nodes master cr false
  after_scale master cr (err free_node_found) = remove_nodes master cr true
  after_scale master cr (err e) = throw (retry_if_migrating e)

  unfoldable pub change_node_number : String → Undermoon → Exec GoError (Unit {0})
  unfolding remove_nodes after_scale retry_if_migrating
  change_node_number master cr = do
    r ← attempt (Client.scale_nodes env master cr.spec.cluster_name cr.spec.chunk_number)
    after_scale master cr r

  unfoldable pub change_meta : String → Undermoon → ClusterInfo → Exec GoError (Unit {0})
  unfolding retry_if_migrating
  change_meta master cr info =
      if info.is_migrating
      then throw retry_reconciliation
      else map_error retry_if_migrating (change_node_number master cr)

  unfoldable pub fix_broker_epoch : String → ℤ → Exec GoError (Unit {0})
  fix_broker_epoch master max_epoch = do
    epoch ← Client.get_epoch env master
    if leb_ℤ max_epoch epoch then pure tt else Client.fix_epoch env master
