-- ===== src/Progress/Pass.antt =====
-- One run of Reconcile in a world in which everything is up.
use mathlib.Core.Path.{subst⁻¹}
use undermoon_operator_old.Common.{[], ap, arith, false, length, List, refl, String, true, ◌*◌, ◌≡◌}
use undermoon_operator_old.Common.Int.{ltb_ℤ, pos, ℤ}
use undermoon_operator_old.CoordinatorController.{config_set_broker}
use undermoon_operator_old.Exec.{Exec, map_error, State, ◌>>=◌}
use undermoon_operator_old.Exec.Costs.{Any}
use undermoon_operator_old.Exec.Success.{
  Succeeds, Succeeds-attempt, Succeeds-bind, Succeeds-map_error, Succeeds-perform, Succeeds-pure,
  Succeeds-then, Yields, Yields-perform,
}
use undermoon_operator_old.Kube.{EndpointAddress, NamespacedName, Undermoon}
use undermoon_operator_old.MetaController.{fix_broker_epoch}
use undermoon_operator_old.Names.Storage.{chunk_node_number}
use undermoon_operator_old.Progress.{IsUp}
use undermoon_operator_old.Progress.Brokers.{
  broker_and_coordinator_ready-Yields, config_set_broker-Succeeds, get_max_epoch-Succeeds,
  reconcile_master-Succeeds,
}
use undermoon_operator_old.Progress.Creation.{
  create_resources-Yields, get_endpoints-Yields, resources,
}
use undermoon_operator_old.Progress.Meta.{
  change_meta-Succeeds, fix_broker_epoch-Succeeds, reconcile_meta-Yields,
}
use undermoon_operator_old.Reconciler.{
  change_cluster, done, Exit, exit_of, propagate, reconcile, reconcile_body, scale_cluster,
  settle_cluster, UmResource,
}
use undermoon_operator_old.StorageController.{
  get_max_epoch, get_server_proxies, get_service_endpoints_num, replica_num,
  scale_down_storage_stateful_set, storage_all_ready, storage_all_ready_and_stable,
  update_storage_stateful_set, updated,
}
use undermoon_operator_old.Utils.{addresses_of_subsets}
use undermoon_operator_old.World.{Env}

module _ (env : Env) (key : NamespacedName) (cr : Undermoon) (up : IsUp env key cr) where
  abbrev resource : UmResource
  resource = resources env key cr up

  abbrev pods : List EndpointAddress
  pods = addresses_of_subsets up.storage_service.endpoints.subsets

  step :
      {E A B : Type 0} {R : A → Type 0} {Q : B → Type 0} (g : E → Exit) (m : Exec E A)
      (f : A → Exec Exit B)
      → Succeeds m R
      → ((a : A) → R a → Succeeds (f a) Q)
      → Succeeds (map_error g m >>= f) Q
  step g m f c k = Succeeds-bind _ _ (Succeeds-map_error g m c) k

  step_to :
      {E A B : Type 0} {Q : B → Type 0} (a : A) (g : E → Exit) (m : Exec E A) (f : A → Exec Exit B)
      → Yields m a
      → Succeeds (f a) Q
      → Succeeds (map_error g m >>= f) Q
  step_to a g m f c k = Succeeds-then a _ _ (Succeeds-map_error g m c) k

  -- The resource after its status was stored.
  abbrev with_master : String → Undermoon
  with_master master = record cr { status = record { master_broker_address = master } }

  all_ready-Yields :
      (master : String)
      → Yields (storage_all_ready env up.storage_service.service (with_master master)) true
  unfolding storage_all_ready get_service_endpoints_num replica_num
  all_ready-Yields master =
      Succeeds-then (length pods) _ _
        (Succeeds-then _ _ _ (get_endpoints-Yields env up.storage_service) (Succeeds-pure _ refl))
        (Succeeds-pure _ up.storage_service.enough)

  stable-Yields :
      (master : String)
      → Yields
          (storage_all_ready_and_stable env up.storage_service.service up.storage_set.ss
            (with_master master))
          true
  unfolding storage_all_ready_and_stable
  stable-Yields master =
      Succeeds-then true _ _ (all_ready-Yields master) (Succeeds-pure _ up.storage_set.fit.stable)

  scale_down-Succeeds :
      (master : String)
      → Succeeds
          (scale_down_storage_stateful_set env (with_master master) up.storage_set.ss up.info)
          Any
  unfolding scale_down_storage_stateful_set update_storage_stateful_set updated
  scale_down-Succeeds master =
      rw (up.slots, irreflexive (pos (cr.spec.chunk_number * chunk_node_number)))
        (Succeeds-attempt {R = Any} _ _
          (Succeeds-perform _ _ (λ h. let (ss, e) = up.updates h _ in (ss, e, tt)))
          (λ ss q. Succeeds-pure ss tt))
    where
      irreflexive : (a : ℤ) → ltb_ℤ a a ≡ false
      irreflexive a = ground arith

  settle-Succeeds :
      (master : String) (replicas : List String)
      → Succeeds (settle_cluster env resource (with_master master) master replicas true) Any
  unfolding settle_cluster
  settle-Succeeds master replicas =
      step_to up.info _ _ _ (reconcile_meta-Yields env key cr up master replicas [] _)
        (step _ _ _ (scale_down-Succeeds master) (λ ss q. Succeeds-pure tt tt))

  change-Succeeds :
      (master : String) (replicas : List String)
      → Succeeds (change_cluster env resource (with_master master) master replicas true up.info) Any
  unfolding change_cluster
  change-Succeeds master replicas = step_to true _ _ _ (stable-Yields master) (
      Succeeds-then tt _ _ (Succeeds-pure tt refl) (
        step _ _ _ (change_meta-Succeeds env key cr up master _)
          (λ u q. settle-Succeeds master replicas)))

  scale-Succeeds :
      (master : String) (replicas : List String)
      → Succeeds (scale_cluster env resource (with_master master) master replicas) Any
  unfolding scale_cluster get_server_proxies
  scale-Succeeds master replicas =
      step {R = Any} _ _ _
        (Succeeds-then _ _ _ (get_endpoints-Yields env up.storage_service) (Succeeds-pure _ tt))
        (λ proxies q. step_to true _ _ _ (all_ready-Yields master) (
          step_to up.info _ _ _ (reconcile_meta-Yields env key cr up master replicas proxies _)
            (change-Succeeds master replicas)))

  pub body-Succeeds : Succeeds (reconcile_body env key) Any
  unfolding reconcile_body
  body-Succeeds = step_to cr _ _ _ (Yields-perform _ _ cr up.found) (
      step_to resource _ _ _ (create_resources-Yields env key cr up) (
        step_to true _ _ _ (broker_and_coordinator_ready-Yields env key cr up) (
          Succeeds-then tt _ _ (Succeeds-pure tt refl) (
            step _ _ _ (reconcile_master-Succeeds env key cr up)
              (λ (x, master, replicas) same. from_master x master replicas same)))))
    where
      from_master :
          (x : Undermoon) (master : String) (replicas : List String)
          → x ≡ with_master master
          → Succeeds
              (map_error propagate (config_set_broker env x resource.coordinator_service master)
                >>= λ _.
                    map_error propagate (get_max_epoch env resource.storage_service x) >>= λ max.
                    map_error propagate (fix_broker_epoch env master max) >>= λ _.
                    scale_cluster env resource x master replicas)
              Any
      from_master x master replicas same =
          step _ _ _ (config_set_broker-Succeeds env key cr up x master) (λ u q.
            step _ _ _ (get_max_epoch-Succeeds env key cr up x) (λ max q'.
              step _ _ _ (fix_broker_epoch-Succeeds env key cr up master max) (λ u' q''.
                subst⁻¹ (λ y. Succeeds (scale_cluster env resource y master replicas) Any) same
                  (scale-Succeeds master replicas))))

  -- If everything is up (IsUp: the resource exists, with its services and StatefulSets, enough
  -- addresses and ready pods, and a storage of the size asked for; the updates, the coordinators'
  -- commands and all requests to brokers succeed, with bodies that can be read; and the brokers
  -- report no migration and the slots on just the nodes asked for), Reconcile ends without an
  -- error and without asking to be called again, from every state.
  pub reconcile-up : (s : State) → (reconcile env key s).0 ≡ done
  unfolding reconcile
  reconcile-up s = let (u, e, _) = body-Succeeds.at s in ap (exit_of env) e
