-- ===== src/Progress/Brokers.antt =====
-- The brokers, the coordinators and the registry.

use undermoon_operator_old.BrokerController
use undermoon_operator_old.CoordinatorController
use undermoon_operator_old.BrokerController.{
  broker_ready, get_current_master, reconcile_master, set_master_broker_status, status_updated,
}
use undermoon_operator_old.BrokerController.Master.{get_current_master-Picks}
use undermoon_operator_old.Clients.{coordinator_client, set_broker_address}
use undermoon_operator_old.Common.{
  [], arith, Bool-cases, contains, inl, inr, leb, length, length-map, List, map, refl, String, true,
  ◌-◌, ◌∷◌, ◌≡◌,
}
use undermoon_operator_old.Common.Int.{ℤ}
use undermoon_operator_old.CoordinatorController.{config_set_broker, coordinator_ready, set_brokers}
use undermoon_operator_old.Exec.{Exec, from_result, pure, ◌>>=◌}
use undermoon_operator_old.Exec.Costs.{Any}
use undermoon_operator_old.Exec.Success.{
  Succeeds, Succeeds-attempt, Succeeds-bind, Succeeds-of_remote, Succeeds-perform, Succeeds-pure,
  Succeeds-then, Succeeds-tried, Yields, Yields-perform,
}
use undermoon_operator_old.Go.{ok}
use undermoon_operator_old.Kube.{EndpointAddress, NamespacedName, Undermoon}
use undermoon_operator_old.Names.Broker.{broker_num, gen_broker_address_from_name}
use undermoon_operator_old.Names.Storage.{gen_storage_address_from_name}
use undermoon_operator_old.Progress.{IsUp}
use undermoon_operator_old.Progress.Creation.{get_endpoints-Yields, resources}
use undermoon_operator_old.Reconciler.{broker_and_coordinator_ready}
use undermoon_operator_old.StorageController.{get_max_epoch, max_epoch_of}
use undermoon_operator_old.Utils.{addresses_of_subsets}
use undermoon_operator_old.World.{Env}

counted :
    {E A : Type 0} {m : Exec E (List A)} {l : List A}
    → Yields m l
    → Yields (m >>= λ l. pure (length l)) (length l)
counted y = Succeeds-then _ _ _ y (Succeeds-pure _ refl)

module _ (env : Env) (key : NamespacedName) (cr : Undermoon) (up : IsUp env key cr) where
  abbrev brokers : List EndpointAddress
  brokers = addresses_of_subsets up.broker_service.endpoints.subsets

  pub broker_and_coordinator_ready-Yields :
      Yields (broker_and_coordinator_ready env (resources env key cr up)) true
  unfolding broker_and_coordinator_ready broker_ready coordinator_ready
      BrokerController.get_service_endpoints_num CoordinatorController.get_service_endpoints_num
  broker_and_coordinator_ready-Yields =
      Succeeds-then true _ _
        (Succeeds-then _ _ _ (counted (get_endpoints-Yields env up.broker_service))
          (Succeeds-pure _ (rw (up.broker_set.fit, up.broker_service.enough) refl)))
        (Succeeds-then _ _ _ (counted (get_endpoints-Yields env up.coordinator_service))
          (Succeeds-pure _ (rw (up.coordinator_set.fit, up.coordinator_service.enough) refl)))

  get_current_master-Succeeds :
      (l : List String)
      → leb (broker_num - 1) (length l) ≡ true
      → Succeeds (get_current_master env l) Any
  get_current_master-Succeeds [] h = absurd (ground (arith, h))
  get_current_master-Succeeds (a ∷ l) h = record {
    at = λ s. let (m, e, _) = get_current_master-Picks env a l s in (m, e, tt);
  }

  pub reconcile_master-Succeeds :
      Succeeds (reconcile_master env cr up.broker_service.service) (λ (cr', master, replicas).
        cr' ≡ record cr { status = record { master_broker_address = master } })
  unfolding reconcile_master set_master_broker_status status_updated
  reconcile_master-Succeeds = Succeeds-then _ _ _ (get_endpoints-Yields env up.broker_service) (
      Succeeds-bind _ _
        (get_current_master-Succeeds
          (map (λ (e : EndpointAddress). gen_broker_address_from_name e.hostname cr) brokers)
          (rw length-map up.broker_service.enough))
        (λ master any.
          Succeeds-bind _ _
            (Succeeds-attempt _ _ (Yields-perform _ _ _ (λ h. up.stores h _))
              (λ cr' same. Succeeds-pure cr' same))
            (λ cr' same. Succeeds-pure _ same)))

  set_broker_address-Succeeds : (a master : String) → Succeeds (set_broker_address env a master) Any
  unfolding set_broker_address coordinator_client
  set_broker_address-Succeeds a master =
      Succeeds-bind {R = Any} _ _ (record { at = λ s. (_, refl, tt) })
        (λ c q.
          Succeeds-bind {R = λ r. (v : String) × (r ≡ ok v)} _ _
            (Succeeds-perform _ _ (λ h. let (v, e) = up.commands h _ _ in (ok v, e, (v, refl))))
            (λ r (v, e). Succeeds-then v _ _ (Succeeds-of_remote r v e) (Succeeds-pure tt tt)))

  set_brokers-Succeeds :
      (x : Undermoon) (master : String) (l : List EndpointAddress)
      → Succeeds (set_brokers env x master (ok tt) l) Any
  unfolding set_brokers from_result
  set_brokers-Succeeds x master [] = record { at = λ s. (tt, refl, tt) }
  set_brokers-Succeeds x master (e ∷ l) =
      Succeeds-attempt _ _ (set_broker_address-Succeeds _ master)
        (λ u q. set_brokers-Succeeds x master l)

  pub config_set_broker-Succeeds :
      (x : Undermoon) (master : String)
      → Succeeds (config_set_broker env x up.coordinator_service.service master) Any
  unfolding config_set_broker
  config_set_broker-Succeeds x master =
      Succeeds-then _ _ _ (get_endpoints-Yields env up.coordinator_service)
        (set_brokers-Succeeds x master _)

  max_epoch_of-Succeeds :
      (x : Undermoon) (sets : List String) (l : List EndpointAddress) (max : ℤ)
      → Succeeds (max_epoch_of env x sets max l) Any
  unfolding max_epoch_of
  max_epoch_of-Succeeds x sets [] max = Succeeds-pure max tt
  max_epoch_of-Succeeds x sets (e ∷ l) max =
      elim (Bool-cases (contains (gen_storage_address_from_name e.hostname x) sets)) [
        | inl inside ↦ rw inside (Succeeds-tried _ _ (λ r. max_epoch_of-Succeeds x sets l _))
        | inr outside ↦ rw outside (max_epoch_of-Succeeds x sets l max)
      ]

  pub get_max_epoch-Succeeds :
      (x : Undermoon) → Succeeds (get_max_epoch env up.storage_service.service x) Any
  unfolding get_max_epoch
  get_max_epoch-Succeeds x =
      Succeeds-then _ _ _ (get_endpoints-Yields env up.storage_service)
        (max_epoch_of-Succeeds x _ _ _)
