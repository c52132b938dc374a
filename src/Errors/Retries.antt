-- ===== src/Errors/Retries.antt =====
-- The errors of the controllers' functions that may ask for a retry.

use undermoon_operator_old.BrokerController.{
  better, choose_master, get_current_master, master_brokers, max_epoch_broker, reconcile_master,
  set_master_broker_status, status_updated,
}
use undermoon_operator_old.Common.{[], Bool, List, String, ◌∷◌}
use undermoon_operator_old.Common.Int.{pos, ℤ}
use undermoon_operator_old.Errors.{IsForeignOrRetry}
use undermoon_operator_old.Errors.Clients.{
  IsForeignOrMigration, IsForeignOrRetry-IsTolerant, IsSignal, IsTolerant, perform-Throws,
}
use undermoon_operator_old.Errors.Controllers.{
  get_endpoints-Throws, service-Throws, stateful_set-Throws,
}
use undermoon_operator_old.Exec.Rules.{
  Throws, Throws-attempt, Throws-bind, Throws-caught, Throws-pure, Throws-throw, throws_rules,
}
use undermoon_operator_old.Go.{GoError}
use undermoon_operator_old.Kube.{Service, StatefulSet, Undermoon}
use undermoon_operator_old.MetaController.{
  clear_replicas, create_cluster, deregister_all, deregister_server_proxies, get_cluster_info,
  reconcile_meta, reconcile_server_proxy_registry, register_server_proxies, set_broker_replicas,
}
use undermoon_operator_old.StorageController.{
  create_storage, get_or_create_storage_stateful_set, scale_down_storage_stateful_set, scale_out,
  update_storage_stateful_set, updated,
}
use undermoon_operator_old.World.{ClusterInfo, Env, ServerProxyMeta}
use undermoon_operator_old.Errors.Clients as Clients

module _ (env : Env) where
  abbrev tolerant : IsTolerant IsForeignOrRetry
  tolerant = IsForeignOrRetry-IsTolerant

  update-Throws :
      (cr : Undermoon) (ss : StatefulSet)
      → Throws IsForeignOrRetry (update_storage_stateful_set env cr ss)
  unfolding update_storage_stateful_set updated
  update-Throws cr ss =
      Throws-caught {R = IsForeignOrRetry} _ _ (perform-Throws env tolerant _ _)
        (λ a. Throws-pure a) (λ e q. search (throws_rules, q, tt))

  pub scale_down-Throws :
      (cr : Undermoon) (ss : StatefulSet) (info : ClusterInfo)
      → Throws IsForeignOrRetry (scale_down_storage_stateful_set env cr ss info)
  unfolding scale_down_storage_stateful_set
  scale_down-Throws cr ss info = search (throws_rules, update-Throws, tt)

  pub create_storage-Throws : (cr : Undermoon) → Throws IsForeignOrRetry (create_storage env cr)
  unfolding create_storage scale_out get_or_create_storage_stateful_set
  create_storage-Throws cr =
      search
        (throws_rules, service-Throws env tolerant, stateful_set-Throws env tolerant, update-Throws)
        depth 8

  pub set_status-Throws :
      (cr : Undermoon) (master : String)
      → Throws IsForeignOrRetry (set_master_broker_status env cr master)
  unfolding set_master_broker_status status_updated
  set_status-Throws cr master =
      Throws-caught {R = IsForeignOrRetry} _ _ (perform-Throws env tolerant _ _)
        (λ a. Throws-pure a) (λ e q. search (throws_rules, q, tt))

  module _ {Q : GoError → Type 0} (t : IsTolerant Q) where
    master_brokers-Throws : (l : List String) → Throws Q (master_brokers env l)
    unfolding master_brokers
    master_brokers-Throws [] = Throws-pure _
    master_brokers-Throws (a ∷ l) =
        Throws-bind _ _ (Throws-attempt _)
          (λ r. Throws-bind _ _ (master_brokers-Throws l) (λ m. Throws-pure _))

    max_epoch_broker-Throws :
        (best : String) (max : ℤ) (l : List String) → Throws Q (max_epoch_broker env best max l)
    unfolding max_epoch_broker
    max_epoch_broker-Throws best max [] = Throws-pure _
    max_epoch_broker-Throws best max (a ∷ l) =
        Throws-bind _ _ (Throws-attempt _)
          (λ r. max_epoch_broker-Throws (better best max a r).0 (better best max a r).1 l)

    choose_master-Throws : (l m : List String) → Throws Q (choose_master env l m)
    unfolding choose_master
    choose_master-Throws l (a ∷ []) = Throws-pure _
    choose_master-Throws l [] = max_epoch_broker-Throws "" (pos 0) l
    choose_master-Throws l (a ∷ b ∷ m) = max_epoch_broker-Throws "" (pos 0) (a ∷ b ∷ m)

    pub get_current_master-Throws : (l : List String) → Throws Q (get_current_master env l)
    unfolding get_current_master
    get_current_master-Throws [] = Throws-throw _ (t.on_failed _)
    get_current_master-Throws (a ∷ l) =
        Throws-bind _ _ (master_brokers-Throws (a ∷ l)) (λ m. choose_master-Throws (a ∷ l) m)

  pub reconcile_master-Throws :
      (cr : Undermoon) (svc : Service) → Throws IsForeignOrRetry (reconcile_master env cr svc)
  unfolding reconcile_master
  reconcile_master-Throws cr svc =
      search
        (
          throws_rules,
          get_endpoints-Throws env tolerant,
          get_current_master-Throws tolerant,
          set_status-Throws,
        )
        depth 8

  clear_replicas-Throws : (l : List String) → Throws IsForeignOrRetry (clear_replicas env l)
  unfolding clear_replicas
  clear_replicas-Throws [] = Throws-pure _
  clear_replicas-Throws (a ∷ l) =
      Throws-bind _ _ (Clients.set_replicas-Throws env tolerant a []) (λ _. clear_replicas-Throws l)

  register-Throws :
      (master : String) (l : List ServerProxyMeta)
      → Throws IsForeignOrRetry (register_server_proxies env master l)
  unfolding register_server_proxies
  register-Throws master [] = Throws-pure _
  register-Throws master (p ∷ l) =
      Throws-bind _ _ (Throws-attempt _) (λ _. register-Throws master l)

  deregister-Throws :
      (master : String) (l : List String) → Throws IsForeignOrRetry (deregister_all env master l)
  unfolding deregister_all
  deregister-Throws master [] = Throws-pure _
  deregister-Throws master (p ∷ l) =
      Throws-bind _ _ (Throws-attempt _) (λ _. deregister-Throws master l)

  registry-Throws :
      (master : String) (l : List ServerProxyMeta) (cr : Undermoon)
      → Throws IsForeignOrRetry (reconcile_server_proxy_registry env master l cr)
  unfolding reconcile_server_proxy_registry deregister_server_proxies
  registry-Throws master l cr = search (
    throws_rules,
    register-Throws,
    Clients.get_server_proxies-Throws env tolerant,
    deregister-Throws,
  )

  set_replicas-Throws :
      (master : String) (l : List String)
      → Throws IsForeignOrRetry (set_broker_replicas env master l)
  unfolding set_broker_replicas
  set_replicas-Throws master l =
      search (throws_rules, Clients.set_replicas-Throws env tolerant, clear_replicas-Throws)

  cluster-Throws :
      (master : String) (cr : Undermoon) → Throws IsForeignOrRetry (create_cluster env master cr)
  unfolding create_cluster
  cluster-Throws master cr =
      search (throws_rules, Clients.exists-Throws env tolerant, Clients.create-Throws env)

  info-Throws :
      (master : String) (cr : Undermoon) → Throws IsForeignOrRetry (get_cluster_info env master cr)
  unfolding get_cluster_info
  info-Throws master cr = Clients.info-Throws env tolerant master _

  pub reconcile_meta-Throws :
      (master : String) (replicas : List String) (l : List ServerProxyMeta) (cr : Undermoon)
      (ready : Bool)
      → Throws IsForeignOrRetry (reconcile_meta env master replicas l cr ready)
  unfolding reconcile_meta
  reconcile_meta-Throws master replicas l cr ready =
      search (throws_rules, set_replicas-Throws, registry-Throws, cluster-Throws, info-Throws) depth
        8
