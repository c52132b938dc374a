-- ===== src/Effort/Meta.antt =====
-- The calls of meta_controller.go.
use undermoon_operator_old.BrokerClient as Client
use undermoon_operator_old.BrokerClient.Requests.{
  cluster_exists-Asks, create_cluster-Asks, deregister_server_proxy-Asks, fix_epoch-Asks,
  get_cluster_info-Asks, get_epoch-Asks, register_server_proxy-Asks, remove_free_nodes-Asks,
  scale_nodes-Asks, set_broker_replicas-Asks,
}
use undermoon_operator_old.Common.{
  [], arith, Bool, eqb, false, length, List, String, true, ℕ, ◌+◌, ◌∷◌, ◌≤◌,
}
use undermoon_operator_old.Common.Int.{leb_ℤ, ℤ}
use undermoon_operator_old.Effort.{IsBounded, IsShort}
use undermoon_operator_old.Exec.Costs.{
  Any, Costs, Costs-Asks, Costs-attempt, Costs-bind, Costs-if, Costs-le, Costs-map_error,
  Costs-perform, Costs-pure, Costs-throw,
}
use undermoon_operator_old.Go.{err, free_node_found, GoError, ok, Result}
use undermoon_operator_old.Kube.{Undermoon}
use undermoon_operator_old.MetaController.{
  after_scale, change_meta, change_node_number, clear_replicas, create_cluster, delete_list,
  deregister_all, deregister_server_proxies, fix_broker_epoch, get_cluster_info, keep_set,
  reconcile_meta, reconcile_server_proxy_registry, register_server_proxies, remove_nodes,
  retry_if_migrating, set_broker_replicas,
}
use undermoon_operator_old.World.{ClusterInfo, Env, ServerProxyMeta}

module _ (env : Env) where
  clear_replicas-Costs : (l : List String) → Costs (length l) (clear_replicas env l) Any
  unfolding clear_replicas
  clear_replicas-Costs [] = Costs-pure tt tt
  clear_replicas-Costs (a ∷ l) =
      Costs-bind 1 (length l) _ _ (Costs-Asks _ _ (set_broker_replicas-Asks env a []) (omega arith))
        (λ r q. clear_replicas-Costs l) (omega arith)

  set_broker_replicas-Costs :
      (master : String) (l : List String)
      → Costs (1 + length l) (set_broker_replicas env master l) Any
  unfolding set_broker_replicas
  set_broker_replicas-Costs master l =
      Costs-bind 1 (length l) _ _
        (Costs-Asks _ _ (set_broker_replicas-Asks env master l) (omega arith))
        (λ r q. clear_replicas-Costs l) (omega arith)

  register-Costs :
      (master : String) (l : List ServerProxyMeta)
      → Costs (length l) (register_server_proxies env master l) Any
  unfolding register_server_proxies
  register-Costs master [] = Costs-pure tt tt
  register-Costs master (p ∷ l) =
      Costs-bind 1 (length l) _ _
        (Costs-attempt _ (Costs-Asks _ _ (register_server_proxy-Asks env master p) (omega arith)))
        (λ r q. register-Costs master l) (omega arith)

  deregister_all-Costs :
      (master : String) (l : List String) → Costs (length l) (deregister_all env master l) Any
  unfolding deregister_all
  deregister_all-Costs master [] = Costs-pure tt tt
  deregister_all-Costs master (a ∷ l) =
      Costs-bind 1 (length l) _ _
        (Costs-attempt _ (Costs-Asks _ _ (deregister_server_proxy-Asks env master a) (omega arith)))
        (λ r q. deregister_all-Costs master l) (omega arith)

  length-delete_list : (keep l : List String) → length (delete_list keep l) ≤ length l
  unfolding delete_list
  length-delete_list keep [] = omega arith
  length-delete_list keep (a ∷ l) = ground (arith, length-delete_list keep l)

  create_cluster-Costs :
      (master : String) (cr : Undermoon) → Costs 2 (create_cluster env master cr) Any
  unfolding create_cluster
  create_cluster-Costs master cr =
      Costs-bind 1 1 _ _ (Costs-Asks _ _ (cluster_exists-Asks env master _) (omega arith))
        (λ found q.
          Costs-if found _ _ (Costs-pure tt tt)
            (Costs-Asks _ _ (create_cluster-Asks env master _ _) (omega arith)))
        (omega arith)

  remove_nodes-Costs :
      (master : String) (cr : Undermoon) (retry : Bool)
      → Costs 1 (remove_nodes env master cr retry) Any
  unfolding remove_nodes
  remove_nodes-Costs master cr retry =
      Costs-bind 1 0 _ _
        (Costs-map_error retry_if_migrating _
          (Costs-Asks _ _ (remove_free_nodes-Asks env master _) (omega arith)))
        (λ r q. Costs-if retry _ _ (Costs-throw _) (Costs-pure tt tt)) (omega arith)

  after_scale-Costs :
      (master : String) (cr : Undermoon) (r : Result GoError (Unit {0}))
      → Costs 1 (after_scale env master cr r) Any
  unfolding after_scale
  after_scale-Costs master cr (ok _) = remove_nodes-Costs master cr false
  after_scale-Costs master cr (err free_node_found) = remove_nodes-Costs master cr true
  after_scale-Costs master cr (err e) = Costs-throw _

  pub change_meta-Costs :
      (master : String) (cr : Undermoon) (info : ClusterInfo)
      → Costs 2 (change_meta env master cr info) Any
  unfolding change_meta change_node_number
  change_meta-Costs master cr info = Costs-if info.is_migrating _ _ (Costs-throw _) (
      Costs-map_error retry_if_migrating _ (
        Costs-bind 1 1 _ _
          (Costs-attempt _ (Costs-Asks _ _ (scale_nodes-Asks env master _ _) (omega arith)))
          (λ r q. after_scale-Costs master cr r) (omega arith)))

  pub fix_broker_epoch-Costs :
      (master : String) (max : ℤ) → Costs 2 (fix_broker_epoch env master max) Any
  unfolding fix_broker_epoch
  fix_broker_epoch-Costs master max =
      Costs-bind 1 1 _ _ (Costs-Asks _ _ (get_epoch-Asks env master) (omega arith))
        (λ epoch q.
          Costs-if (leb_ℤ max epoch) _ _ (Costs-pure tt tt)
            (Costs-Asks _ _ (fix_epoch-Asks env master) (omega arith)))
        (omega arith)

  module _ {pods proxies : ℕ} (bounded : IsBounded env pods proxies) where
    get_server_proxies-IsShort :
        (master : String) → Costs 1 (Client.get_server_proxies env master) (IsShort proxies)
    unfolding Client.get_server_proxies
    get_server_proxies-IsShort master =
        Costs-bind 1 0 _ _ (Costs-perform _ _ (omega arith))
          (λ res q.
            Costs-if (eqb res.status_code 200) _ _ (Costs-pure _ (bounded.listed res))
              (Costs-throw _))
          (omega arith)

    registry-Costs :
        (master : String) (l : List ServerProxyMeta) (cr : Undermoon)
        → Costs (length l + (1 + proxies)) (reconcile_server_proxy_registry env master l cr) Any
    unfolding reconcile_server_proxy_registry deregister_server_proxies
    registry-Costs master l cr =
        Costs-bind (length l) (1 + proxies) _ _ (register-Costs master l)
          (λ r q.
            Costs-bind 1 proxies _ _ (get_server_proxies-IsShort master)
              (λ existing h.
                Costs-le _ _ (deregister_all-Costs master _)
                  (omega (arith, h, length-delete_list (keep_set cr l) existing)))
              (omega arith))
          (omega arith)

    -- With the number of replicas and the number of proxies found.
    pub reconcile_meta-Costs :
        (master : String) (replicas : List String) (l : List ServerProxyMeta) (cr : Undermoon)
        (ready : Bool)
        → Costs
            (5 + length replicas + length l + proxies)
            (reconcile_meta env master replicas l cr ready)
            Any
    unfolding reconcile_meta get_cluster_info
    reconcile_meta-Costs master replicas l cr ready =
        Costs-bind (1 + length replicas) (length l + (1 + proxies) + 3) _ _
          (set_broker_replicas-Costs master replicas)
          (λ r q.
            Costs-bind (length l + (1 + proxies)) 3 _ _ (registry-Costs master l cr)
              (λ r' q'.
                Costs-if ready _ _
                  (Costs-bind 2 1 _ _ (create_cluster-Costs master cr)
                    (λ r'' q''. Costs-Asks _ _ (get_cluster_info-Asks env master _) (omega arith))
                    (omega arith))
                  (Costs-throw _))
              (omega arith))
          (omega arith)
