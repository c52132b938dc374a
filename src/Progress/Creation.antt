-- ===== src/Progress/Creation.antt =====
-- The creations, where the objects exist.
use undermoon_operator_old.BrokerController.{
  create_broker, get_or_create_broker_service, get_or_create_broker_stateful_set,
}
use undermoon_operator_old.Common.{refl, suc, ℕ}
use undermoon_operator_old.CoordinatorController.{
  create_coordinator, get_or_create_coordinator_service, get_or_create_coordinator_stateful_set,
}
use undermoon_operator_old.Exec.{Exec}
use undermoon_operator_old.Exec.Success.{
  Succeeds-attempt, Succeeds-of_remote, Succeeds-pure, Succeeds-then, Succeeds-tried, Yields,
  Yields-perform,
}
use undermoon_operator_old.Go.{GoError}
use undermoon_operator_old.Kube.{NamespacedName, Service, StatefulSet, Undermoon}
use undermoon_operator_old.Progress.{HasService, HasStatefulSet, IsUp}
use undermoon_operator_old.Reconciler.{create_resources, UmResource}
use undermoon_operator_old.StorageController.{
  create_storage, get_or_create_storage_stateful_set, scale_out,
}
use undermoon_operator_old.Utils.{
  addresses_of_subsets, create_service_guard, create_stateful_set_guard, endpoints_or_none,
  found_or_created_service, found_or_created_stateful_set, get_endpoints, get_or_create_service,
  get_or_create_stateful_set, rounds,
}
use undermoon_operator_old.World.{Env}

rounds-Yields :
    {A : Type 0} (left : ℕ) (create : Exec GoError A) (a : A)
    → Yields create a
    → Yields (rounds (suc left) create) a
unfolding rounds
rounds-Yields left create a c = Succeeds-attempt _ _ c (λ b same. Succeeds-pure b same)

module _ (env : Env) {cr : Undermoon} where
  service-Yields :
      {object : Service} {Enough : ℕ → Type 0} (has : HasService env cr object Enough)
      → Yields (get_or_create_service env cr object) has.service
  unfolding get_or_create_service found_or_created_service
  service-Yields has =
      Succeeds-then has.referred _ _ (Succeeds-of_remote _ has.referred has.refers) (
        Succeeds-attempt _ _ (Yields-perform _ _ has.service has.exists)
          (λ found same. Succeeds-pure found same))

  set-Yields :
      {object : StatefulSet} {Fit : StatefulSet → Type 0} (has : HasStatefulSet env cr object Fit)
      → Yields (get_or_create_stateful_set env cr object) has.ss
  unfolding get_or_create_stateful_set found_or_created_stateful_set
  set-Yields has = Succeeds-then has.referred _ _ (Succeeds-of_remote _ has.referred has.refers) (
      Succeeds-attempt _ _ (Yields-perform _ _ has.ss has.exists)
        (λ found same. Succeeds-pure found same))

  pub get_endpoints-Yields :
      {object : Service} {Enough : ℕ → Type 0} (has : HasService env cr object Enough)
      → Yields
          (get_endpoints env has.service.metadata.name has.service.metadata.namespace)
          (addresses_of_subsets has.endpoints.subsets)
  unfolding get_endpoints endpoints_or_none
  get_endpoints-Yields has =
      Succeeds-attempt _ _
        (Succeeds-then has.endpoints _ _ (Yields-perform _ _ has.endpoints has.serves)
          (Succeeds-pure _ refl))
        (λ l same. Succeeds-pure l same)

module _ (env : Env) (key : NamespacedName) (cr : Undermoon) (up : IsUp env key cr) where
  create_broker-Yields : Yields (create_broker env cr) (up.broker_set.ss, up.broker_service.service)
  unfolding create_broker create_service_guard create_stateful_set_guard
      get_or_create_broker_service get_or_create_broker_stateful_set
  create_broker-Yields =
      Succeeds-then _ _ _ (rounds-Yields 1 _ _ (service-Yields env up.broker_service)) (
        Succeeds-then _ _ _ (rounds-Yields 1 _ _ (set-Yields env up.broker_set))
          (Succeeds-pure _ refl))

  create_coordinator-Yields :
      Yields (create_coordinator env cr) (up.coordinator_set.ss, up.coordinator_service.service)
  unfolding create_coordinator create_service_guard create_stateful_set_guard
      get_or_create_coordinator_service get_or_create_coordinator_stateful_set
  create_coordinator-Yields =
      Succeeds-then _ _ _ (rounds-Yields 1 _ _ (service-Yields env up.coordinator_service)) (
        Succeeds-then _ _ _ (rounds-Yields 1 _ _ (set-Yields env up.coordinator_set))
          (Succeeds-pure _ refl))

  create_storage-Yields :
      Yields (create_storage env cr) (up.storage_set.ss, up.storage_service.service)
  unfolding create_storage create_service_guard create_stateful_set_guard
      get_or_create_storage_stateful_set scale_out
  create_storage-Yields = Succeeds-tried _ _ (λ dropped.
      Succeeds-then _ _ _ (rounds-Yields 1 _ _ (service-Yields env up.storage_service)) (
        Succeeds-then _ _ _ (rounds-Yields 1 _ _ (set-Yields env up.storage_set))
          (rw up.storage_set.fit.large (Succeeds-pure _ refl))))

  abbrev pub resources : UmResource
  resources = record {
    broker_stateful_set = up.broker_set.ss;
    coordinator_stateful_set = up.coordinator_set.ss;
    storage_stateful_set = up.storage_set.ss;
    broker_service = up.broker_service.service;
    coordinator_service = up.coordinator_service.service;
    storage_service = up.storage_service.service;
  }

  pub create_resources-Yields : Yields (create_resources env cr) resources
  unfolding create_resources
  create_resources-Yields = Succeeds-then _ _ _ create_broker-Yields (
      Succeeds-then _ _ _ create_coordinator-Yields
        (Succeeds-then _ _ _ create_storage-Yields (Succeeds-pure _ refl)))
