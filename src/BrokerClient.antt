-- ===== src/BrokerClient.antt =====
-- The broker's HTTP interface: broker_client.go, one function for each method of brokerClient.
pub mod Requests
pub mod Replies
pub mod Creation
pub mod AddressSet
pub mod Effects
use undermoon_operator_old.Common.{
  ℕ, ◌*◌, String, ◌<>◌, ◌==◌, Bool, true, false, ◌||◌, ◌&&◌, Option, none, some, List, [], ◌∷◌, eqb,
  if◌then◌else◌,
}
use undermoon_operator_old.Common.Int.{ℤ, pos}
use undermoon_operator_old.Go.{
  GoError, Result, failed, retry_reconciliation, migration_running, free_node_found,
}
use undermoon_operator_old.Go.Format.{format_nat}
use undermoon_operator_old.Go.ParseInt.{Parsed, value, syntax_error, range_error, parse_int}
use undermoon_operator_old.World.{
  Env, Method, get, post, put, delete, empty, replica_addresses, proxy_meta, node_number,
  HttpResponse, ServerProxyMeta, ClusterInfo,
}
use undermoon_operator_old.Exec.{Exec, pure, throw, ◌>>=◌, ◌>>◌}
use undermoon_operator_old.Api
use undermoon_operator_old.Names.Storage.{chunk_node_number, redis_port1, redis_port2}

-- The URLs, by what they address.
abbrev pub config_url : String → String
config_url address = "http://" <> (address <> "/api/v2/config")

abbrev pub epoch_url : String → String
epoch_url address = "http://" <> (address <> "/api/v2/epoch")

abbrev pub recovery_url : String → String
recovery_url address = "http://" <> (address <> "/api/v2/epoch/recovery")

abbrev pub addresses_url : String → String
addresses_url address = "http://" <> (address <> "/api/v2/proxies/addresses")

abbrev pub proxies_url : String → String
proxies_url address = "http://" <> (address <> "/api/v2/proxies/meta")

abbrev pub proxy_url : String → String → String
proxy_url address proxy = "http://" <> (address <> ("/api/v2/proxies/meta/" <> proxy))

abbrev pub cluster_url : String → String → String
cluster_url address cluster = "http://" <> (address <> ("/api/v2/clusters/meta/" <> cluster))

abbrev pub names_url : String → String
names_url address = "http://" <> (address <> "/api/v2/clusters/names")

abbrev pub scale_url : String → String → ℕ → String
scale_url address cluster nodes =
    "http://"
    <> (address <> ("/api/v2/clusters/migrations/auto/" <> (cluster <> ("/" <> format_nat nodes))))

abbrev pub free_nodes_url : String → String → String
free_nodes_url address cluster =
    "http://" <> (address <> ("/api/v2/clusters/free_nodes/" <> cluster))

abbrev pub info_url : String → String → String
info_url address cluster = "http://" <> (address <> ("/api/v2/clusters/info/" <> cluster))

-- `errors.Errorf` of a response with an unexpected status, without or with its body.
unfoldable pub bad_status : String → HttpResponse → GoError
bad_status what res = failed (what <> (": invalid status code " <> format_nat res.status_code))

unfoldable pub bad_content : String → HttpResponse → GoError
bad_content what res =
    failed
      (what <> (": invalid status code " <> (format_nat res.status_code <> (": " <> res.body))))

-- `res.Error().(*errorResponse)` with the error code that is asked for
unfoldable pub has_error : Option String → String → Bool
has_error none code = false
has_error (some e) code = e == code

unfoldable pub new_server_proxy_meta : String → String → ℕ → ℤ → ServerProxyMeta
new_server_proxy_meta pod_host node_ip port index = record {
  proxy_address = pod_host <> (":" <> format_nat port);
  redis_addresses =
      (pod_host <> (":" <> format_nat redis_port1), pod_host <> (":" <> format_nat redis_port2));
  host = node_ip;
  index = index;
}

unfoldable pub addresses_of : HttpResponse → Option (List String) → Exec GoError (List String)
addresses_of res (some addresses) = pure addresses
addresses_of res none =
    throw (
      failed ("Failed to get replica addresses from broker: invalid response payload " <> res.body))

unfoldable pub epoch_of : HttpResponse → Parsed → Exec GoError ℤ
epoch_of res (value epoch) = pure epoch
epoch_of res _ = throw (failed ("Invalid epoch from broker: " <> res.body))

-- the loop over `response.Names`
unfoldable pub names_have : String → List String → Bool
names_have cluster [] = false
names_have cluster (name ∷ names) = if name == cluster then true else names_have cluster names

unfoldable pub exists_in : String → HttpResponse → Option (List String) → Exec GoError Bool
exists_in cluster res (some names) = pure (names_have cluster names)
exists_in cluster res none =
    throw (failed ("Failed to get cluster names: invalid response payload " <> res.body))

unfoldable pub info_of : HttpResponse → Option ClusterInfo → Exec GoError ClusterInfo
info_of res (some info) = pure info
info_of res none = throw (failed ("failed to get cluster info, invalid content " <> res.body))

unfoldable pub no_info : HttpResponse → Option String → Exec GoError ClusterInfo
no_info res (some code) = throw (failed ("cluster info not found, error code " <> code))
no_info res none = throw (bad_content "Failed to get cluster info" res)

module _ (env : Env) where
  unfoldable pub get_replica_addresses : String → Exec GoError (List String)
  unfolding bad_status addresses_of
  get_replica_addresses address = do
    res ← Api.send env get (config_url address) empty
    if eqb res.status_code 200
        then addresses_of res (env.result_config res)
        else throw (bad_status "Failed to get replica addresses from broker" res)

  unfoldable pub store_replica_addresses : String → List String → Exec GoError (Unit {0})
  unfolding bad_status
  store_replica_addresses address addresses = do
    res ← Api.send env put (config_url address) (replica_addresses addresses)
    if eqb res.status_code 200
        then pure tt
        else throw (bad_status "Failed to store replica addresses to broker" res)

  unfoldable pub get_epoch : String → Exec GoError ℤ
  unfolding bad_status epoch_of
  get_epoch address = do
    res ← Api.send env get (epoch_url address) empty
    if eqb res.status_code 200
        then epoch_of res (parse_int res.body)
        else throw (bad_status "Failed to get broker epoch" res)

  unfoldable pub get_server_proxies : String → Exec GoError (List String)
  unfolding bad_content
  get_server_proxies address = do
    res ← Api.send env get (addresses_url address) empty
    if eqb res.status_code 200
        then pure (env.result_addresses res)
        else throw (bad_content "Failed to register server proxy" res)

  unfoldable pub set_broker_replicas : String → List String → Exec GoError (Unit {0})
  unfolding bad_content
  set_broker_replicas address addresses = do
    res ← Api.send env put (config_url address) (replica_addresses addresses)
    if eqb res.status_code 200
        then pure tt
        else throw (bad_content "Failed to register server proxy" res)

  unfoldable pub register_server_proxy : String → ServerProxyMeta → Exec GoError (Unit {0})
  unfolding bad_content
  register_server_proxy address proxy = do
    res ← Api.send env post (proxies_url address) (proxy_meta proxy)
    if eqb res.status_code 200 || eqb res.status_code 409
        then pure tt
        else throw (bad_content "Failed to register server proxy" res)

  unfoldable pub deregister_server_proxy : String → String → Exec GoError (Unit {0})
  unfolding bad_content
  deregister_server_proxy address proxy_address = do
    res ← Api.send env delete (proxy_url address proxy_address) empty
    if eqb res.status_code 200 || eqb res.status_code 404
        then pure tt
        else throw (bad_content "Failed to deregister server proxy" res)

  unfoldable pub create_cluster : String → String → ℕ → Exec GoError (Unit {0})
  unfolding bad_content has_error
  create_cluster address cluster_name chunk_number = do
    res ←
        Api.send env post (cluster_url address cluster_name)
          (node_number (chunk_number * chunk_node_number))
    if eqb res.status_code 200
        then pure tt
        else if eqb res.status_code 409 && has_error (env.result_error res) "NO_AVAILABLE_RESOURCE"
        then throw retry_reconciliation
        else if eqb res.status_code 409 && has_error (env.result_error res) "ALREADY_EXISTED"
        then pure tt
        else throw (bad_content "Failed to register server proxy" res)

  unfoldable pub cluster_exists : String → String → Exec GoError Bool
  unfolding bad_content exists_in names_have
  cluster_exists address cluster_name = do
    res ← Api.send env get (names_url address) empty
    if eqb res.status_code 200
        then exists_in cluster_name res (env.result_names res)
        else throw (bad_content "Failed to register server proxy" res)

  unfoldable pub scale_nodes : String → String → ℕ → Exec GoError (Unit {0})
  unfolding bad_content has_error
  scale_nodes address cluster_name chunk_number = do
    res ←
        Api.send env post (scale_url address cluster_name (chunk_number * chunk_node_number)) empty
    let refused = eqb res.status_code 409 || eqb res.status_code 400
    if eqb res.status_code 200
        then pure tt
        else if refused && has_error (env.result_error res) "MIGRATION_RUNNING"
        then throw migration_running
        else if refused && has_error (env.result_error res) "FREE_NODE_FOUND"
        then throw free_node_found
        else throw (bad_content "Failed to change node number" res)

  unfoldable pub remove_free_nodes : String → String → Exec GoError (Unit {0})
  unfolding bad_content has_error
  remove_free_nodes address cluster_name = do
    res ← Api.send env delete (free_nodes_url address cluster_name) empty
    let refused = eqb res.status_code 404 || eqb res.status_code 409
    if eqb res.status_code 200
        then pure tt
        else if refused && has_error (env.result_error res) "MIGRATION_RUNNING"
        then throw migration_running
        else if refused && has_error (env.result_error res) "FREE_NODE_NOT_FOUND"
        then pure tt
        else throw (bad_content "Failed to remove free nodes" res)

  unfoldable pub get_cluster_info : String → String → Exec GoError ClusterInfo
  unfolding bad_content info_of no_info
  get_cluster_info address cluster_name = do
    res ← Api.send env get (info_url address cluster_name) empty
    if eqb res.status_code 200
        then info_of res (env.result_cluster_info res)
        else if eqb res.status_code 404
        then no_info res (env.result_error res)
        else throw (bad_content "Failed to get cluster info" res)

  unfoldable pub fix_epoch : String → Exec GoError (Unit {0})
  unfolding bad_content
  fix_epoch address = do
    res ← Api.send env put (recovery_url address) empty
    if eqb res.status_code 200
        then pure tt
        else throw (bad_content "Failed to get cluster info" res)
