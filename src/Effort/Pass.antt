-- ===== src/Effort/Pass.antt =====
-- The calls of one run of Reconcile.

use undermoon_operator_old.Common.{[], arith, Bool, length, List, String, ℕ, ◌*◌, ◌+◌, ◌≤◌}
use undermoon_operator_old.Common.Int.{ltb_ℤ, pos}
use undermoon_operator_old.CoordinatorController.{config_set_broker}
use undermoon_operator_old.Effort.{IsBounded, IsShort, storage_all_ready-Costs}
use undermoon_operator_old.Effort.Brokers.{
  broker_and_coordinator_ready-Costs, config_set_broker-Costs, get_max_epoch-Costs,
  get_server_proxies-Costs, reconcile_master-Costs,
}
use undermoon_operator_old.Effort.Creation.{
  create_resources-Costs, update_storage_stateful_set-Costs,
}
use undermoon_operator_old.Effort.Meta.{
  change_meta-Costs, fix_broker_epoch-Costs, reconcile_meta-Costs,
}
use undermoon_operator_old.Exec.{Exec, map_error, State, ◌>>=◌}
use undermoon_operator_old.Exec.Costs.{
  Any, Costs, Costs-bind, Costs-if, Costs-le, Costs-map_error, Costs-perform, Costs-pure,
  Costs-throw,
}
use undermoon_operator_old.Kube.{NamespacedName, Service, StatefulSet, Undermoon}
use undermoon_operator_old.MetaController.{fix_broker_epoch}
use undermoon_operator_old.Names.Storage.{chunk_node_number}
use undermoon_operator_old.Reconciler.{
  change_cluster, Exit, propagate, reconcile, reconcile_body, requeue_unless, scale_cluster,
  settle_cluster, UmResource,
}
use undermoon_operator_old.StorageController.{
  get_max_epoch, scale_down_storage_stateful_set, storage_all_ready_and_stable,
}
use undermoon_operator_old.World.{ClusterInfo, Env}

module _ (env : Env) {pods proxies : ℕ} (bounded : IsBounded env pods proxies) where
  requeue_unless-Costs : {n : ℕ} (b : Bool) (k : ℕ) → Costs n (requeue_unless b k) Any
  requeue_unless-Costs b k = Costs-if b _ _ (Costs-pure tt tt) (Costs-throw _)

  -- The outer do block passes an error on in its own form.
  step-Costs :
      {E A B : Type 0} {R : A → Type 0} {Q : B → Type 0} {n : ℕ} (i j : ℕ) (g : E → Exit)
      (m : Exec E A) (f : A → Exec Exit B)
      → Costs i m R
      → ((a : A) → R a → Costs j (f a) Q)
      → i + j ≤ n
      → Costs n (map_error g m >>= f) Q
  step-Costs i j g m f c k l = Costs-bind i j _ _ (Costs-map_error g m c) k l

  scale_down-Costs :
      (cr : Undermoon) (ss : StatefulSet) (info : ClusterInfo)
      → Costs 1 (scale_down_storage_stateful_set env cr ss info) Any
  unfolding scale_down_storage_stateful_set
  scale_down-Costs cr ss info =
      Costs-if (ltb_ℤ (pos (cr.spec.chunk_number * chunk_node_number)) info.node_number_with_slots)
        _ _ (Costs-throw _)
        (Costs-if
          (ltb_ℤ info.node_number_with_slots (pos (cr.spec.chunk_number * chunk_node_number))) _ _
          (Costs-throw _) (update_storage_stateful_set-Costs env cr ss))

  settle-Costs :
      (r : UmResource) (cr : Undermoon) (master : String) (replicas : List String) (ready : Bool)
      → IsShort pods replicas
      → Costs (6 + pods + proxies) (settle_cluster env r cr master replicas ready) Any
  unfolding settle_cluster
  settle-Costs r cr master replicas ready h =
      step-Costs (5 + pods + proxies) 1 _ _ _
        (Costs-le _ _ (reconcile_meta-Costs env bounded master replicas [] cr ready)
          (omega (arith, h)))
        (λ info q.
          step-Costs 1 0 _ _ _ (scale_down-Costs cr _ info) (λ ss q'. Costs-pure tt tt)
            (omega arith))
        (omega arith)

  stable-Costs :
      (service : Service) (ss : StatefulSet) (cr : Undermoon)
      → Costs 1 (storage_all_ready_and_stable env service ss cr) Any
  unfolding storage_all_ready_and_stable
  stable-Costs service ss cr =
      Costs-bind 1 0 _ _ (storage_all_ready-Costs env bounded service cr (omega arith))
        (λ b q. Costs-pure _ tt) (omega arith)

  change-Costs :
      (r : UmResource) (cr : Undermoon) (master : String) (replicas : List String) (ready : Bool)
      (info : ClusterInfo)
      → IsShort pods replicas
      → Costs (9 + pods + proxies) (change_cluster env r cr master replicas ready info) Any
  unfolding change_cluster
  change-Costs r cr master replicas ready info h =
      step-Costs 1 (8 + pods + proxies) _ _ _ (stable-Costs _ _ cr)
        (λ stable q.
          Costs-bind 0 (8 + pods + proxies) _ _ (requeue_unless-Costs stable 10)
            (λ u q'.
              step-Costs 2 (6 + pods + proxies) _ _ _ (change_meta-Costs env master cr info)
                (λ u' q''. settle-Costs r cr master replicas ready h) (omega arith))
            (omega arith))
        (omega arith)

  scale-Costs :
      (r : UmResource) (cr : Undermoon) (master : String) (replicas : List String)
      → IsShort pods replicas
      → Costs (16 + 3 * pods + 2 * proxies) (scale_cluster env r cr master replicas) Any
  unfolding scale_cluster
  scale-Costs r cr master replicas h =
      step-Costs 1 (15 + 3 * pods + 2 * proxies) _ _ _ (get_server_proxies-Costs env bounded _ cr)
        (λ l h'.
          step-Costs 1 (14 + 3 * pods + 2 * proxies) _ _ _
            (storage_all_ready-Costs env bounded _ cr (omega arith))
            (λ ready q.
              step-Costs (5 + 2 * pods + proxies) (9 + pods + proxies) _ _ _
                (Costs-le _ _ (reconcile_meta-Costs env bounded master replicas l cr ready)
                  (omega (arith, h, h')))
                (λ info q'. change-Costs r cr master replicas ready info h) (omega arith))
            (omega arith))
        (omega arith)

  -- What is left once the master is known.
  abbrev after_master : UmResource → Undermoon → String → List String → Exec Exit (Unit {0})
  after_master r cr master replicas =
      map_error propagate (config_set_broker env cr r.coordinator_service master) >>= λ _.
      map_error propagate (get_max_epoch env r.storage_service cr) >>= λ max_epoch.
      map_error propagate (fix_broker_epoch env master max_epoch) >>= λ _.
      scale_cluster env r cr master replicas

  after_master-Costs :
      (r : UmResource) (cr : Undermoon) (master : String) (replicas : List String)
      → IsShort pods replicas
      → Costs (20 + 5 * pods + 2 * proxies) (after_master r cr master replicas) Any
  after_master-Costs r cr master replicas h =
      step-Costs (1 + pods) (19 + 4 * pods + 2 * proxies) _ _ _
        (config_set_broker-Costs env bounded cr _ master)
        (λ u q.
          step-Costs (1 + pods) (18 + 3 * pods + 2 * proxies) _ _ _
            (get_max_epoch-Costs env bounded _ cr)
            (λ max q'.
              step-Costs 2 (16 + 3 * pods + 2 * proxies) _ _ _
                (fix_broker_epoch-Costs env master max)
                (λ u' q''. scale-Costs r cr master replicas h) (omega arith))
            (omega arith))
        (omega arith)

  body-Costs :
      (key : NamespacedName) → Costs (68 + 7 * pods + 2 * proxies) (reconcile_body env key) Any
  unfolding reconcile_body
  body-Costs key =
      step-Costs 1 (67 + 7 * pods + 2 * proxies) _ _ _ (Costs-perform _ _ (omega arith))
        (λ found q.
          step-Costs 43 (24 + 7 * pods + 2 * proxies) _ _ _ (create_resources-Costs env found)
            (λ r q1.
              step-Costs 2 (22 + 7 * pods + 2 * proxies) _ _ _
                (broker_and_coordinator_ready-Costs env bounded r)
                (λ ready q2.
                  Costs-bind 0 (22 + 7 * pods + 2 * proxies) _ _ (requeue_unless-Costs ready 3)
                    (λ u q3.
                      step-Costs (2 + 2 * pods) (20 + 5 * pods + 2 * proxies) _ _ _
                        (reconcile_master-Costs env bounded found _)
                        (λ (cr, master, replicas) h. after_master-Costs r cr master replicas h)
                        (omega arith))
                    (omega arith))
                (omega arith))
            (omega arith))
        (omega arith)

  -- One run of Reconcile makes at most 68 calls, seven more for each address that a service can
  -- have, and two more for each proxy that a broker can list, whatever the outside world answers.
  pub reconcile-calls :
      (key : NamespacedName) (s : State)
      → length (reconcile env key s).1.calls ≤ 68 + 7 * pods + 2 * proxies + length s.calls
  unfolding reconcile
  reconcile-calls key s = (body-Costs key).cost s
