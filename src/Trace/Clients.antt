-- ===== src/Trace/Clients.antt =====
-- The calls of broker_client.go and of the Redis clients, the scale request aside.
use undermoon_operator_old.BrokerClient as Client
use undermoon_operator_old.Clients.{get_proxy_epoch, set_broker_address}
use undermoon_operator_old.Common.{List, String, ℕ}
use undermoon_operator_old.Exec.{State}
use undermoon_operator_old.Exec.Rules.{Keeps, keeps_rules}
use undermoon_operator_old.Trace.Free.{
  addresses_of-Keeps, epoch_of-Keeps, exists_in-Keeps, info_of-Keeps, IsStable, no_info-Keeps,
  redis_int, redis_string, send_delete, send_get, send_nodes, send_proxy, send_put,
}
use undermoon_operator_old.World.{Env, ServerProxyMeta}

module _ (env : Env) {P : State → Type 0} (stable : IsStable P) where
  pub get_replica_addresses-Keeps : (a : String) → Keeps P (Client.get_replica_addresses env a)
  unfolding Client.get_replica_addresses
  get_replica_addresses-Keeps a =
      search (keeps_rules, send_get env stable, addresses_of-Keeps env stable)

  pub get_epoch-Keeps : (a : String) → Keeps P (Client.get_epoch env a)
  unfolding Client.get_epoch
  get_epoch-Keeps a = search (keeps_rules, send_get env stable, epoch_of-Keeps env stable)

  pub get_server_proxies-Keeps : (a : String) → Keeps P (Client.get_server_proxies env a)
  unfolding Client.get_server_proxies
  get_server_proxies-Keeps a = search (keeps_rules, send_get env stable)

  pub set_replicas-Keeps :
      (a : String) (l : List String) → Keeps P (Client.set_broker_replicas env a l)
  unfolding Client.set_broker_replicas
  set_replicas-Keeps a l = search (keeps_rules, send_put env stable)

  pub register-Keeps :
      (a : String) (p : ServerProxyMeta) → Keeps P (Client.register_server_proxy env a p)
  unfolding Client.register_server_proxy
  register-Keeps a p = search (keeps_rules, send_proxy env stable)

  pub deregister-Keeps : (a p : String) → Keeps P (Client.deregister_server_proxy env a p)
  unfolding Client.deregister_server_proxy
  deregister-Keeps a p = search (keeps_rules, send_delete env stable)

  pub create-Keeps : (a c : String) (n : ℕ) → Keeps P (Client.create_cluster env a c n)
  unfolding Client.create_cluster
  create-Keeps a c n = search (keeps_rules, send_nodes env stable)

  pub exists-Keeps : (a c : String) → Keeps P (Client.cluster_exists env a c)
  unfolding Client.cluster_exists
  exists-Keeps a c = search (keeps_rules, send_get env stable, exists_in-Keeps env stable)

  pub remove-Keeps : (a c : String) → Keeps P (Client.remove_free_nodes env a c)
  unfolding Client.remove_free_nodes
  remove-Keeps a c = search (keeps_rules, send_delete env stable)

  pub info-Keeps : (a c : String) → Keeps P (Client.get_cluster_info env a c)
  unfolding Client.get_cluster_info
  info-Keeps a c =
      search (keeps_rules, send_get env stable, info_of-Keeps env stable, no_info-Keeps env stable)

  pub fix_epoch-Keeps : (a : String) → Keeps P (Client.fix_epoch env a)
  unfolding Client.fix_epoch
  fix_epoch-Keeps a = search (keeps_rules, send_put env stable)

  pub set_broker_address-Keeps : (a b : String) → Keeps P (set_broker_address env a b)
  unfolding set_broker_address
  set_broker_address-Keeps a b = search (keeps_rules, stable.coord, redis_string env stable)

  pub get_proxy_epoch-Keeps : (a : String) → Keeps P (get_proxy_epoch env a)
  unfolding get_proxy_epoch
  get_proxy_epoch-Keeps a = search (keeps_rules, stable.proxy, redis_int env stable)
