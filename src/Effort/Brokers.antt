-- ===== src/Effort/Brokers.antt =====
-- The calls of broker_controller.go and coordinator_controller.go after the creations, and those to
-- the server proxies.

use undermoon_operator_old.BrokerClient.Requests.{get_epoch-Asks, get_replica_addresses-Asks}
use undermoon_operator_old.BrokerController.{
  better, broker_ready, choose_master, get_current_master, master_brokers, max_epoch_broker,
  reconcile_master, replicas_of, set_master_broker_status, status_updated, with_replicas,
}
use undermoon_operator_old.Clients.{
  coordinator_client, get_proxy_epoch, server_proxy_client, set_broker_address,
}
use undermoon_operator_old.Common.{
  [], arith, contains, false, length, length-map, List, map, String, ℕ, ◌*◌, ◌+◌, ◌∷◌, ◌≤◌,
}
use undermoon_operator_old.Common.Int.{ℤ}
use undermoon_operator_old.CoordinatorController.{config_set_broker, coordinator_ready, set_brokers}
use undermoon_operator_old.Effort.{get_endpoints-Costs, IsBounded, IsShort}
use undermoon_operator_old.Exec.{pure, throw, ◌>>=◌}
use undermoon_operator_old.Exec.Costs.{
  Any, Costs, Costs-Asks, Costs-attempt, Costs-bind, Costs-from_result, Costs-if, Costs-le,
  Costs-of_remote, Costs-perform, Costs-pure, Costs-throw,
}
use undermoon_operator_old.Go.{err, GoError, is_conflict, ok, Result, retry_reconciliation}
use undermoon_operator_old.Kube.{EndpointAddress, Service, Undermoon}
use undermoon_operator_old.Names.Broker.{gen_broker_address_from_name}
use undermoon_operator_old.Names.Storage.{gen_storage_address_from_name}
use undermoon_operator_old.Reconciler.{broker_and_coordinator_ready, UmResource}
use undermoon_operator_old.StorageController.{
  epoch_or_zero, get_max_epoch, get_server_proxies, max_epoch_of, max_ℤ,
}
use undermoon_operator_old.Utils.{get_endpoints}
use undermoon_operator_old.World.{Env}
use undermoon_operator_old.BrokerController
use undermoon_operator_old.CoordinatorController

module _ (env : Env) where
  with_replicas-IsShort :
      (a : String) (r : Result GoError (List String)) (masters l : List String)
      → length masters ≤ length l
      → length (with_replicas a r masters) ≤ length (a ∷ l)
  with_replicas-IsShort a (err e) masters l h = omega (arith, h)
  with_replicas-IsShort a (ok []) masters l h = omega (arith, h)
  with_replicas-IsShort a (ok (b ∷ bs)) masters l h = omega (arith, h)

  master_brokers-Costs :
      (l : List String) → Costs (length l) (master_brokers env l) (IsShort (length l))
  unfolding master_brokers
  master_brokers-Costs [] = Costs-pure [] (omega arith)
  master_brokers-Costs (a ∷ l) =
      Costs-bind 1 (length l) _ _
        (Costs-attempt _ (Costs-Asks _ _ (get_replica_addresses-Asks env a) (omega arith)))
        (λ r q.
          Costs-bind (length l) 0 _ _ (master_brokers-Costs l)
            (λ masters h. Costs-pure _ (with_replicas-IsShort a r masters l h)) (omega arith))
        (omega arith)

  max_epoch_broker-Costs :
      (best : String) (max : ℤ) (l : List String)
      → Costs (length l) (max_epoch_broker env best max l) Any
  unfolding max_epoch_broker
  max_epoch_broker-Costs best max [] = Costs-pure best tt
  max_epoch_broker-Costs best max (a ∷ l) =
      Costs-bind 1 (length l) _ _
        (Costs-attempt _ (Costs-Asks _ _ (get_epoch-Asks env a) (omega arith)))
        (λ r q. max_epoch_broker-Costs (better best max a r).0 (better best max a r).1 l)
        (omega arith)

  choose_master-Costs :
      (l masters : List String)
      → length masters ≤ length l
      → Costs (length l) (choose_master env l masters) Any
  unfolding choose_master
  choose_master-Costs l (m ∷ []) h = Costs-pure m tt
  choose_master-Costs l [] h = max_epoch_broker-Costs _ _ l
  choose_master-Costs l (a ∷ b ∷ masters) h =
      Costs-le _ _ (max_epoch_broker-Costs _ _ (a ∷ b ∷ masters)) h

  get_current_master-Costs :
      (l : List String) → Costs (length l + length l) (get_current_master env l) Any
  unfolding get_current_master
  get_current_master-Costs [] = Costs-throw _
  get_current_master-Costs (a ∷ l) =
      Costs-bind (length (a ∷ l)) (length (a ∷ l)) _ _ (master_brokers-Costs (a ∷ l))
        (λ masters h. choose_master-Costs (a ∷ l) masters h) (omega arith)

  status_updated-Costs : {n : ℕ} (r : Result GoError Undermoon) → Costs n (status_updated r) Any
  unfolding status_updated
  status_updated-Costs (ok cr) = Costs-pure cr tt
  status_updated-Costs (err e) =
      Costs-if (is_conflict e) (throw retry_reconciliation) (throw e) (Costs-throw _)
        (Costs-throw _)

  set_status-Costs : (cr : Undermoon) (m : String) → Costs 1 (set_master_broker_status env cr m) Any
  unfolding set_master_broker_status
  set_status-Costs cr m =
      Costs-bind 1 0 _ _ (Costs-attempt _ (Costs-perform _ _ (omega arith)))
        (λ r q. status_updated-Costs r) (omega arith)

  length-replicas_of : (m : String) (l : List String) → length (replicas_of m l) ≤ length l
  unfolding replicas_of
  length-replicas_of m [] = omega arith
  length-replicas_of m (a ∷ l) = ground (arith, length-replicas_of m l)

  set_broker_address-Costs : (a b : String) → Costs 1 (set_broker_address env a b) Any
  unfolding set_broker_address coordinator_client
  set_broker_address-Costs a b =
      Costs-bind 0 1 _ _ (record { cost = λ s. omega arith; value = λ s c h. tt })
        (λ c q.
          Costs-bind 1 0 _ _ (Costs-perform _ _ (omega arith))
            (λ r q'.
              Costs-bind 0 0 _ _ (Costs-of_remote r) (λ x q''. Costs-pure tt tt) (omega arith))
            (omega arith))
        (omega arith)

  get_proxy_epoch-Costs : (a : String) → Costs 1 (get_proxy_epoch env a) Any
  unfolding get_proxy_epoch server_proxy_client
  get_proxy_epoch-Costs a =
      Costs-bind 0 1 _ _ (record { cost = λ s. omega arith; value = λ s c h. tt })
        (λ c q.
          Costs-bind 1 0 _ _ (Costs-perform _ _ (omega arith)) (λ r q'. Costs-of_remote r)
            (omega arith))
        (omega arith)

  set_brokers-Costs :
      (cr : Undermoon) (m : String) (last : Result GoError (Unit {0})) (l : List EndpointAddress)
      → Costs (length l) (set_brokers env cr m last l) Any
  unfolding set_brokers
  set_brokers-Costs cr m last [] = Costs-from_result last (λ a. tt)
  set_brokers-Costs cr m last (e ∷ l) =
      Costs-bind 1 (length l) _ _ (Costs-attempt _ (set_broker_address-Costs _ m))
        (λ r q. set_brokers-Costs cr m r l) (omega arith)

  max_epoch_of-Costs :
      (cr : Undermoon) (sets : List String) (max : ℤ) (l : List EndpointAddress)
      → Costs (length l) (max_epoch_of env cr sets max l) Any
  unfolding max_epoch_of
  max_epoch_of-Costs cr sets max [] = Costs-pure max tt
  max_epoch_of-Costs cr sets max (e ∷ l) =
      Costs-if (contains (gen_storage_address_from_name e.hostname cr) sets) _ _
        (Costs-bind 1 (length l) _ _ (Costs-attempt _ (get_proxy_epoch-Costs _))
          (λ r q. max_epoch_of-Costs cr sets (max_ℤ max (epoch_or_zero r)) l) (omega arith))
        (Costs-le _ _ (max_epoch_of-Costs cr sets max l) (omega arith))

  module _ {pods proxies : ℕ} (bounded : IsBounded env pods proxies) where
    pub reconcile_master-Costs :
        (cr : Undermoon) (service : Service)
        → Costs (2 + 2 * pods) (reconcile_master env cr service) (λ (c, m, l). IsShort pods l)
    unfolding reconcile_master
    reconcile_master-Costs cr service =
        Costs-bind 1 (1 + 2 * pods) _ _ (get_endpoints-Costs env bounded _ _ (omega arith))
          (λ endpoints h.
            Costs-bind (2 * pods) 1 _ _
              (Costs-le _ _ (get_current_master-Costs _) (rw length-map (omega (arith, h))))
              (λ master q.
                Costs-bind 1 0 _ _ (set_status-Costs cr master)
                  (λ cr' q'. Costs-pure _ (short endpoints h master)) (omega arith))
              (omega arith))
          (omega arith)
      where
        short :
            (l : List EndpointAddress)
            → IsShort pods l
            → (master : String)
            → IsShort pods (
                replicas_of master
                  (map (λ (e : EndpointAddress). gen_broker_address_from_name e.hostname cr) l))
        short l h master = omega (
          arith,
          h,
          length-replicas_of master
              (map (λ (e : EndpointAddress). gen_broker_address_from_name e.hostname cr) l),
          length-map (λ (e : EndpointAddress). gen_broker_address_from_name e.hostname cr) l,
        )

    -- The two checks of brokerAndCoordinatorReady.
    pub broker_and_coordinator_ready-Costs :
        (r : UmResource) → Costs 2 (broker_and_coordinator_ready env r) Any
    unfolding broker_and_coordinator_ready broker_ready coordinator_ready
        BrokerController.get_service_endpoints_num CoordinatorController.get_service_endpoints_num
    broker_and_coordinator_ready-Costs r =
        Costs-bind {R = Any} 1 1 _ _
          (Costs-bind {R = Any} 1 0 _ _ (counted r.broker_service) (λ n q. Costs-pure _ tt)
            (omega arith))
          (λ ready q.
            Costs-if ready _ _
              (Costs-bind {R = Any} 1 0 _ _ (counted r.coordinator_service)
                (λ n q'. Costs-pure _ tt) (omega arith))
              (Costs-pure false tt))
          (omega arith)
      where
        counted :
            (svc : Service)
            → Costs 1
                (get_endpoints env svc.metadata.name svc.metadata.namespace >>= λ l.
                  pure (length l))
                Any
        counted svc =
            Costs-bind 1 0 _ _ (get_endpoints-Costs env bounded _ _ (omega arith))
              (λ l q. Costs-pure _ tt) (omega arith)

    pub config_set_broker-Costs :
        (cr : Undermoon) (service : Service) (m : String)
        → Costs (1 + pods) (config_set_broker env cr service m) Any
    unfolding config_set_broker
    config_set_broker-Costs cr service m =
        Costs-bind 1 pods _ _ (get_endpoints-Costs env bounded _ _ (omega arith))
          (λ l h. Costs-le _ _ (set_brokers-Costs cr m (ok tt) l) h) (omega arith)

    pub get_max_epoch-Costs :
        (service : Service) (cr : Undermoon) → Costs (1 + pods) (get_max_epoch env service cr) Any
    unfolding get_max_epoch
    get_max_epoch-Costs service cr =
        Costs-bind 1 pods _ _ (get_endpoints-Costs env bounded _ _ (omega arith))
          (λ l h. Costs-le _ _ (max_epoch_of-Costs cr _ _ l) h) (omega arith)

    pub get_server_proxies-Costs :
        (service : Service) (cr : Undermoon)
        → Costs 1 (get_server_proxies env service cr) (IsShort pods)
    unfolding get_server_proxies
    get_server_proxies-Costs service cr =
        Costs-bind 1 0 _ _ (get_endpoints-Costs env bounded _ _ (omega arith))
          (λ l h. Costs-pure _ (rw length-map h)) (omega arith)
