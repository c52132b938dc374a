-- ===== src/Trace/Controllers.antt =====
-- What the controllers keep, apart from creations, updates of the StatefulSet and scaling.
use undermoon_operator_old.BrokerController
use undermoon_operator_old.CoordinatorController
use undermoon_operator_old.Trace.Clients
use undermoon_operator_old.BrokerController.{
  better, broker_ready, choose_master, get_current_master, master_brokers, max_epoch_broker,
  reconcile_master, set_master_broker_status, status_updated,
}
use undermoon_operator_old.Clients.{get_proxy_epoch}
use undermoon_operator_old.Common.{[], Bool, contains, List, String, ◌∷◌}
use undermoon_operator_old.Common.Int.{ℤ}
use undermoon_operator_old.CoordinatorController.{config_set_broker, coordinator_ready, set_brokers}
use undermoon_operator_old.Exec.{attempt, State, ◌>>=◌}
use undermoon_operator_old.Exec.Rules.{
  Keeps, Keeps-attempt, Keeps-bind, Keeps-if, Keeps-pure, keeps_rules,
}
use undermoon_operator_old.Go.{err, GoError, ok, Result}
use undermoon_operator_old.Kube.{EndpointAddress, Service, StatefulSet, Undermoon}
use undermoon_operator_old.MetaController.{
  clear_replicas, create_cluster, deregister_all, deregister_server_proxies, fix_broker_epoch,
  get_cluster_info, reconcile_meta, reconcile_server_proxy_registry, register_server_proxies,
  set_broker_replicas,
}
use undermoon_operator_old.Names.Storage.{gen_storage_address_from_name}
use undermoon_operator_old.StorageController.{
  epoch_or_zero, get_max_epoch, get_server_proxies, get_service_endpoints_num, max_epoch_of, max_ℤ,
  storage_all_ready, storage_all_ready_and_stable,
}
use undermoon_operator_old.Trace.Clients.{
  create-Keeps, deregister-Keeps, exists-Keeps, fix_epoch-Keeps, get_epoch-Keeps,
  get_proxy_epoch-Keeps, get_replica_addresses-Keeps, info-Keeps, register-Keeps,
  set_broker_address-Keeps, set_replicas-Keeps,
}
use undermoon_operator_old.Trace.Free.{get_endpoints-Keeps, IsStable, update_status-Keeps}
use undermoon_operator_old.World.{Env, ServerProxyMeta}

module _ (env : Env) {P : State → Type 0} (stable : IsStable P) where
  pub broker_ready-Keeps : (ss : StatefulSet) (v : Service) → Keeps P (broker_ready env ss v)
  unfolding broker_ready BrokerController.get_service_endpoints_num
  broker_ready-Keeps ss v = search (keeps_rules, get_endpoints-Keeps env stable)

  pub coordinator_ready-Keeps :
      (ss : StatefulSet) (v : Service) → Keeps P (coordinator_ready env ss v)
  unfolding coordinator_ready CoordinatorController.get_service_endpoints_num
  coordinator_ready-Keeps ss v = search (keeps_rules, get_endpoints-Keeps env stable)

  master_brokers-Keeps : (l : List String) → Keeps P (master_brokers env l)
  unfolding master_brokers
  master_brokers-Keeps [] = search keeps_rules
  master_brokers-Keeps (a ∷ l) =
      Keeps-bind _ _ (Keeps-attempt _ (get_replica_addresses-Keeps env stable a))
        (λ r. Keeps-bind _ _ (master_brokers-Keeps l) (λ m. Keeps-pure _))

  max_epoch_broker-Keeps :
      (b : String) (m : ℤ) (l : List String) → Keeps P (max_epoch_broker env b m l)
  unfolding max_epoch_broker
  max_epoch_broker-Keeps b m [] = search keeps_rules
  max_epoch_broker-Keeps b m (a ∷ l) =
      Keeps-bind _ _ (Keeps-attempt _ (get_epoch-Keeps env stable a))
        (λ r. max_epoch_broker-Keeps (better b m a r).0 (better b m a r).1 l)

  choose_master-Keeps : (l m : List String) → Keeps P (choose_master env l m)
  unfolding choose_master
  choose_master-Keeps l [] = max_epoch_broker-Keeps _ _ l
  choose_master-Keeps l (a ∷ []) = search keeps_rules
  choose_master-Keeps l (a ∷ b ∷ m) = max_epoch_broker-Keeps _ _ _

  pub get_current_master-Keeps : (l : List String) → Keeps P (get_current_master env l)
  unfolding get_current_master
  get_current_master-Keeps [] = search keeps_rules
  get_current_master-Keeps (a ∷ l) = search (keeps_rules, master_brokers-Keeps, choose_master-Keeps)

  status_updated-Keeps : (r : Result GoError Undermoon) → Keeps P (status_updated r)
  unfolding status_updated
  status_updated-Keeps (ok cr) = search keeps_rules
  status_updated-Keeps (err e) = search keeps_rules

  pub set_status-Keeps : (cr : Undermoon) (m : String) → Keeps P (set_master_broker_status env cr m)
  unfolding set_master_broker_status
  set_status-Keeps cr m = search (keeps_rules, update_status-Keeps env stable, status_updated-Keeps)

  pub reconcile_master-Keeps : (cr : Undermoon) (v : Service) → Keeps P (reconcile_master env cr v)
  unfolding reconcile_master
  reconcile_master-Keeps cr v =
      search
        (keeps_rules, get_endpoints-Keeps env stable, get_current_master-Keeps, set_status-Keeps)

  set_brokers-Keeps :
      (cr : Undermoon) (m : String) (last : Result GoError (Unit {0})) (l : List EndpointAddress)
      → Keeps P (set_brokers env cr m last l)
  unfolding set_brokers
  set_brokers-Keeps cr m last [] = search keeps_rules
  set_brokers-Keeps cr m last (e ∷ l) =
      Keeps-bind _ _ (Keeps-attempt _ (set_broker_address-Keeps env stable _ m))
        (λ r. set_brokers-Keeps cr m r l)

  pub config_set_broker-Keeps :
      (cr : Undermoon) (v : Service) (m : String) → Keeps P (config_set_broker env cr v m)
  unfolding config_set_broker
  config_set_broker-Keeps cr v m =
      search (keeps_rules, get_endpoints-Keeps env stable, set_brokers-Keeps)

  max_epoch_of-Keeps :
      (cr : Undermoon) (sets : List String) (m : ℤ) (l : List EndpointAddress)
      → Keeps P (max_epoch_of env cr sets m l)
  unfolding max_epoch_of
  max_epoch_of-Keeps cr sets m [] = search keeps_rules
  max_epoch_of-Keeps cr sets m (e ∷ l) =
      let address = gen_storage_address_from_name e.hostname cr in
      Keeps-if (contains address sets)
        (attempt (get_proxy_epoch env address) >>= λ r.
          max_epoch_of env cr sets (max_ℤ m (epoch_or_zero r)) l)
        (max_epoch_of env cr sets m l)
        (λ _.
          Keeps-bind _ _ (Keeps-attempt _ (get_proxy_epoch-Keeps env stable address))
            (λ r. max_epoch_of-Keeps cr sets (max_ℤ m (epoch_or_zero r)) l))
        (λ _. max_epoch_of-Keeps cr sets m l)

  pub get_max_epoch-Keeps : (v : Service) (cr : Undermoon) → Keeps P (get_max_epoch env v cr)
  unfolding get_max_epoch
  get_max_epoch-Keeps v cr =
      search (keeps_rules, get_endpoints-Keeps env stable, max_epoch_of-Keeps)

  pub get_server_proxies-Keeps :
      (v : Service) (cr : Undermoon) → Keeps P (get_server_proxies env v cr)
  unfolding get_server_proxies
  get_server_proxies-Keeps v cr = search (keeps_rules, get_endpoints-Keeps env stable)

  pub all_ready-Keeps : (v : Service) (cr : Undermoon) → Keeps P (storage_all_ready env v cr)
  unfolding storage_all_ready get_service_endpoints_num
  all_ready-Keeps v cr = search (keeps_rules, get_endpoints-Keeps env stable)

  pub stable-Keeps :
      (v : Service) (ss : StatefulSet) (cr : Undermoon)
      → Keeps P (storage_all_ready_and_stable env v ss cr)
  unfolding storage_all_ready_and_stable
  stable-Keeps v ss cr = search (keeps_rules, all_ready-Keeps)

  pub fix_broker_epoch-Keeps : (m : String) (z : ℤ) → Keeps P (fix_broker_epoch env m z)
  unfolding fix_broker_epoch
  fix_broker_epoch-Keeps m z =
      search (keeps_rules, get_epoch-Keeps env stable, fix_epoch-Keeps env stable)

  clear_replicas-Keeps : (l : List String) → Keeps P (clear_replicas env l)
  unfolding clear_replicas
  clear_replicas-Keeps [] = search keeps_rules
  clear_replicas-Keeps (a ∷ l) =
      Keeps-bind _ _ (set_replicas-Keeps env stable a []) (λ _. clear_replicas-Keeps l)

  register_all-Keeps :
      (m : String) (l : List ServerProxyMeta) → Keeps P (register_server_proxies env m l)
  unfolding register_server_proxies
  register_all-Keeps m [] = search keeps_rules
  register_all-Keeps m (p ∷ l) =
      Keeps-bind _ _ (Keeps-attempt _ (register-Keeps env stable m p)) (λ _. register_all-Keeps m l)

  deregister_all-Keeps : (m : String) (l : List String) → Keeps P (deregister_all env m l)
  unfolding deregister_all
  deregister_all-Keeps m [] = search keeps_rules
  deregister_all-Keeps m (p ∷ l) =
      Keeps-bind _ _ (Keeps-attempt _ (deregister-Keeps env stable m p))
        (λ _. deregister_all-Keeps m l)

  pub registry-Keeps :
      (m : String) (l : List ServerProxyMeta) (cr : Undermoon)
      → Keeps P (reconcile_server_proxy_registry env m l cr)
  unfolding reconcile_server_proxy_registry deregister_server_proxies
  registry-Keeps m l cr = search (
    keeps_rules,
    register_all-Keeps,
    Clients.get_server_proxies-Keeps env stable,
    deregister_all-Keeps,
  )

  replicas-Keeps : (m : String) (r : List String) → Keeps P (set_broker_replicas env m r)
  unfolding set_broker_replicas
  replicas-Keeps m r = search (keeps_rules, set_replicas-Keeps env stable, clear_replicas-Keeps)

  cluster-Keeps : (m : String) (cr : Undermoon) → Keeps P (create_cluster env m cr)
  unfolding create_cluster
  cluster-Keeps m cr = search (keeps_rules, exists-Keeps env stable, create-Keeps env stable)

  cluster_info-Keeps : (m : String) (cr : Undermoon) → Keeps P (get_cluster_info env m cr)
  unfolding get_cluster_info
  cluster_info-Keeps m cr = info-Keeps env stable m cr.spec.cluster_name

  pub reconcile_meta-Keeps :
      (m : String) (r : List String) (l : List ServerProxyMeta) (cr : Undermoon) (b : Bool)
      → Keeps P (reconcile_meta env m r l cr b)
  unfolding reconcile_meta
  reconcile_meta-Keeps m r l cr b =
      search (keeps_rules, replicas-Keeps, registry-Keeps, cluster-Keeps, cluster_info-Keeps) depth
        8
