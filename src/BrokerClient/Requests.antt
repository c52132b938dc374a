-- ===== src/BrokerClient/Requests.antt =====
-- The one request that each method of brokerClient sends.
use undermoon_operator_old.BrokerClient as Client
use undermoon_operator_old.BrokerClient.{
  addresses_of, addresses_url, cluster_url, config_url, epoch_of, epoch_url, exists_in,
  free_nodes_url, info_of, info_url, names_url, no_info, proxies_url, proxy_url, recovery_url,
  scale_url,
}
use undermoon_operator_old.Common.{List, none, Option, some, String, ℕ, ◌*◌}
use undermoon_operator_old.Exec.Quiet.{Asks, Quiet, Quiet-pure, Quiet-throw, quiet_rules}
use undermoon_operator_old.Go.ParseInt.{Parsed, value}
use undermoon_operator_old.Names.Storage.{chunk_node_number}
use undermoon_operator_old.World.{
  Call, ClusterInfo, delete, empty, Env, get, HttpResponse, Method, node_number, Payload, post,
  proxy_meta, put, replica_addresses, ServerProxyMeta,
}

abbrev pub request : Method → String → Payload → Call
request method url payload = Call.http (record { method = method; url = url; payload = payload })

addresses_of-Quiet : (res : HttpResponse) (o : Option (List String)) → Quiet (addresses_of res o)
unfolding addresses_of
addresses_of-Quiet res (some a) = Quiet-pure _
addresses_of-Quiet res none = Quiet-throw _

epoch_of-Quiet : (res : HttpResponse) (p : Parsed) → Quiet (epoch_of res p)
unfolding epoch_of
epoch_of-Quiet res (value z) = Quiet-pure _
epoch_of-Quiet res _ = Quiet-throw _

exists_in-Quiet :
    (c : String) (res : HttpResponse) (o : Option (List String)) → Quiet (exists_in c res o)
unfolding exists_in
exists_in-Quiet c res (some a) = Quiet-pure _
exists_in-Quiet c res none = Quiet-throw _

info_of-Quiet : (res : HttpResponse) (o : Option ClusterInfo) → Quiet (info_of res o)
unfolding info_of
info_of-Quiet res (some a) = Quiet-pure _
info_of-Quiet res none = Quiet-throw _

no_info-Quiet : (res : HttpResponse) (o : Option String) → Quiet (no_info res o)
unfolding no_info
no_info-Quiet res (some a) = Quiet-throw _
no_info-Quiet res none = Quiet-throw _

module _ (env : Env) (address : String) where
  pub get_replica_addresses-Asks :
      Asks (request get (config_url address) empty) (Client.get_replica_addresses env address)
  unfolding Client.get_replica_addresses
  get_replica_addresses-Asks = search (quiet_rules, addresses_of-Quiet)

  pub get_epoch-Asks : Asks (request get (epoch_url address) empty) (Client.get_epoch env address)
  unfolding Client.get_epoch
  get_epoch-Asks = search (quiet_rules, epoch_of-Quiet)

  pub get_server_proxies-Asks :
      Asks (request get (addresses_url address) empty) (Client.get_server_proxies env address)
  unfolding Client.get_server_proxies
  get_server_proxies-Asks = search quiet_rules

  pub set_broker_replicas-Asks :
      (l : List String)
      → Asks
          (request put (config_url address) (replica_addresses l))
          (Client.set_broker_replicas env address l)
  unfolding Client.set_broker_replicas
  set_broker_replicas-Asks l = search quiet_rules

  pub register_server_proxy-Asks :
      (proxy : ServerProxyMeta)
      → Asks
          (request post (proxies_url address) (proxy_meta proxy))
          (Client.register_server_proxy env address proxy)
  unfolding Client.register_server_proxy
  register_server_proxy-Asks proxy = search quiet_rules

  pub deregister_server_proxy-Asks :
      (proxy : String)
      → Asks
          (request delete (proxy_url address proxy) empty)
          (Client.deregister_server_proxy env address proxy)
  unfolding Client.deregister_server_proxy
  deregister_server_proxy-Asks proxy = search quiet_rules

  pub create_cluster-Asks :
      (c : String) (n : ℕ)
      → Asks
          (request post (cluster_url address c) (node_number (n * chunk_node_number)))
          (Client.create_cluster env address c n)
  unfolding Client.create_cluster
  create_cluster-Asks c n = search quiet_rules depth 8

  pub cluster_exists-Asks :
      (c : String)
      → Asks (request get (names_url address) empty) (Client.cluster_exists env address c)
  unfolding Client.cluster_exists
  cluster_exists-Asks c = search (quiet_rules, exists_in-Quiet)

  pub scale_nodes-Asks :
      (c : String) (n : ℕ)
      → Asks
          (request post (scale_url address c (n * chunk_node_number)) empty)
          (Client.scale_nodes env address c n)
  unfolding Client.scale_nodes
  scale_nodes-Asks c n = search quiet_rules depth 8

  pub remove_free_nodes-Asks :
      (c : String)
      → Asks
          (request delete (free_nodes_url address c) empty)
          (Client.remove_free_nodes env address c)
  unfolding Client.remove_free_nodes
  remove_free_nodes-Asks c = search quiet_rules depth 8

  pub get_cluster_info-Asks :
      (c : String)
      → Asks (request get (info_url address c) empty) (Client.get_cluster_info env address c)
  unfolding Client.get_cluster_info
  get_cluster_info-Asks c = search (quiet_rules, info_of-Quiet, no_info-Quiet) depth 8

  pub fix_epoch-Asks :
      Asks (request put (recovery_url address) empty) (Client.fix_epoch env address)
  unfolding Client.fix_epoch
  fix_epoch-Asks = search quiet_rules
