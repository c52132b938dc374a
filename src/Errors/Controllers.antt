-- ===== src/Errors/Controllers.antt =====
-- The errors of the guards of utils.go and of the controllers.

use undermoon_operator_old.BrokerController
use undermoon_operator_old.CoordinatorController
use undermoon_operator_old.BrokerController.{
  broker_ready, create_broker, get_or_create_broker_service, get_or_create_broker_stateful_set,
}
use undermoon_operator_old.Clients.{get_proxy_epoch}
use undermoon_operator_old.Common.{[], contains, List, String, suc, zero, ℕ, ◌∷◌, ◌≡◌}
use undermoon_operator_old.Common.Int.{ℤ}
use undermoon_operator_old.CoordinatorController.{
  config_set_broker, coordinator_ready, create_coordinator, get_or_create_coordinator_service,
  get_or_create_coordinator_stateful_set, set_brokers,
}
use undermoon_operator_old.Errors.{IsForeign, IsForeignOrRetry}
use undermoon_operator_old.Errors.Clients.{IsTolerant, perform-Throws}
use undermoon_operator_old.Exec.{attempt, Exec, from_result, ◌>>=◌}
use undermoon_operator_old.Exec.Rules.{
  Throws, Throws-attempt, Throws-bind, Throws-caught, Throws-if, Throws-of_remote, Throws-pure,
  throws_rules,
}
use undermoon_operator_old.Go.{
  err, failed, free_node_found, GoError, migration_running, ok, remote, Result,
  retry_reconciliation,
}
use undermoon_operator_old.Kube.{EndpointAddress, Service, StatefulSet, Undermoon}
use undermoon_operator_old.MetaController.{fix_broker_epoch}
use undermoon_operator_old.Names.Storage.{gen_storage_address_from_name}
use undermoon_operator_old.StorageController.{
  epoch_or_zero, get_max_epoch, get_server_proxies, get_service_endpoints_num, max_epoch_of, max_ℤ,
  storage_all_ready, storage_all_ready_and_stable,
}
use undermoon_operator_old.Utils.{
  create_service_guard, create_stateful_set_guard, endpoints_or_none, found_or_created_service,
  found_or_created_stateful_set, get_endpoints, get_or_create_service, get_or_create_stateful_set,
  rounds,
}
use undermoon_operator_old.World.{Env}
use undermoon_operator_old.Errors.Clients as Clients

-- Every error.
abbrev pub IsAny : GoError → Type 0
IsAny e = Unit

weaken : {A : Type 0} (m : Exec GoError A) → Throws IsForeign m → Throws IsForeignOrRetry m
weaken m t = record { at = λ s e h. foreign e (t.at s e h) }
  where
    foreign : (e : GoError) → IsForeign e → IsForeignOrRetry e
    foreign (failed m) h = tt
    foreign (remote e) h = tt
    foreign retry_reconciliation h = tt
    foreign migration_running h = absurd h
    foreign free_node_found h = absurd h

pub IsAny-Throws : {A : Type 0} (m : Exec GoError A) → Throws IsAny m
IsAny-Throws m = record { at = λ s e h. tt }

module _ (env : Env) {Q : GoError → Type 0} (tolerant : IsTolerant Q) where
  pub get_endpoints-Throws : (n k : String) → Throws Q (get_endpoints env n k)
  unfolding get_endpoints endpoints_or_none
  get_endpoints-Throws n k =
      Throws-caught {R = Q} _ _ (search (throws_rules, tolerant.on_remote))
        (λ a. search throws_rules) (λ e q. search (throws_rules, q))

  rounds-Throws : {A : Type 0} (n : ℕ) (m : Exec GoError A) → Throws Q m → Throws Q (rounds n m)
  unfolding rounds
  rounds-Throws zero m t = t
  rounds-Throws (suc n) m t =
      Throws-caught {R = Q} _ _ t (λ a. Throws-pure a)
        (λ e q. search (throws_rules, q, rounds-Throws n m t))

  get_or_create_service-Throws :
      (cr : Undermoon) (o : Service) → Throws Q (get_or_create_service env cr o)
  unfolding get_or_create_service found_or_created_service
  get_or_create_service-Throws cr o =
      Throws-bind _ _ (Throws-of_remote _ tolerant.on_remote) (λ service.
        Throws-caught {R = Q} _ _ (perform-Throws env tolerant _ _) (λ a. Throws-pure a)
          (λ e q. search (throws_rules, q, tolerant.on_remote)))

  get_or_create_stateful_set-Throws :
      (cr : Undermoon) (o : StatefulSet) → Throws Q (get_or_create_stateful_set env cr o)
  unfolding get_or_create_stateful_set found_or_created_stateful_set
  get_or_create_stateful_set-Throws cr o =
      Throws-bind _ _ (Throws-of_remote _ tolerant.on_remote) (λ ss.
        Throws-caught {R = Q} _ _ (perform-Throws env tolerant _ _) (λ a. Throws-pure a)
          (λ e q. search (throws_rules, q, tolerant.on_remote)))

  pub service-Throws :
      (cr : Undermoon) (o : Service)
      → Throws Q (create_service_guard (get_or_create_service env cr o))
  unfolding create_service_guard
  service-Throws cr o = rounds-Throws 2 _ (get_or_create_service-Throws cr o)

  pub stateful_set-Throws :
      (cr : Undermoon) (o : StatefulSet)
      → Throws Q (create_stateful_set_guard (get_or_create_stateful_set env cr o))
  unfolding create_stateful_set_guard
  stateful_set-Throws cr o = rounds-Throws 2 _ (get_or_create_stateful_set-Throws cr o)

  pub create_broker-Throws : (cr : Undermoon) → Throws Q (create_broker env cr)
  unfolding create_broker get_or_create_broker_service get_or_create_broker_stateful_set
  create_broker-Throws cr = search (throws_rules, service-Throws, stateful_set-Throws)

  pub create_coordinator-Throws : (cr : Undermoon) → Throws Q (create_coordinator env cr)
  unfolding create_coordinator get_or_create_coordinator_service
      get_or_create_coordinator_stateful_set
  create_coordinator-Throws cr = search (throws_rules, service-Throws, stateful_set-Throws)

  pub broker_ready-Throws : (ss : StatefulSet) (svc : Service) → Throws Q (broker_ready env ss svc)
  unfolding broker_ready BrokerController.get_service_endpoints_num
  broker_ready-Throws ss svc = search (throws_rules, get_endpoints-Throws)

  pub coordinator_ready-Throws :
      (ss : StatefulSet) (svc : Service) → Throws Q (coordinator_ready env ss svc)
  unfolding coordinator_ready CoordinatorController.get_service_endpoints_num
  coordinator_ready-Throws ss svc = search (throws_rules, get_endpoints-Throws)

  pub all_ready-Throws : (svc : Service) (cr : Undermoon) → Throws Q (storage_all_ready env svc cr)
  unfolding storage_all_ready get_service_endpoints_num
  all_ready-Throws svc cr = search (throws_rules, get_endpoints-Throws)

  pub stable-Throws :
      (svc : Service) (ss : StatefulSet) (cr : Undermoon)
      → Throws Q (storage_all_ready_and_stable env svc ss cr)
  unfolding storage_all_ready_and_stable
  stable-Throws svc ss cr = search (throws_rules, all_ready-Throws)

  pub get_server_proxies-Throws :
      (svc : Service) (cr : Undermoon) → Throws Q (get_server_proxies env svc cr)
  unfolding get_server_proxies
  get_server_proxies-Throws svc cr = search (throws_rules, get_endpoints-Throws)

  max_epoch_of-Throws :
      (cr : Undermoon) (sets : List String) (max : ℤ) (es : List EndpointAddress)
      → Throws Q (max_epoch_of env cr sets max es)
  unfolding max_epoch_of
  max_epoch_of-Throws cr sets max [] = Throws-pure max
  max_epoch_of-Throws cr sets max (e ∷ es) =
      let address = gen_storage_address_from_name e.hostname cr in
      Throws-if (contains address sets)
        (attempt (get_proxy_epoch env address) >>= λ r.
          max_epoch_of env cr sets (max_ℤ max (epoch_or_zero r)) es)
        (max_epoch_of env cr sets max es)
        (λ _.
          Throws-bind _ _ (Throws-attempt _)
            (λ r. max_epoch_of-Throws cr sets (max_ℤ max (epoch_or_zero r)) es))
        (λ _. max_epoch_of-Throws cr sets max es)

  pub get_max_epoch-Throws : (svc : Service) (cr : Undermoon) → Throws Q (get_max_epoch env svc cr)
  unfolding get_max_epoch
  get_max_epoch-Throws svc cr = search (throws_rules, get_endpoints-Throws, max_epoch_of-Throws)

  pub fix_broker_epoch-Throws :
      (master : String) (max : ℤ) → Throws Q (fix_broker_epoch env master max)
  unfolding fix_broker_epoch
  fix_broker_epoch-Throws master max =
      search
        (throws_rules, Clients.get_epoch-Throws env tolerant, Clients.fix_epoch-Throws env tolerant)

  set_brokers-Throws :
      (cr : Undermoon) (master : String) (last : Result GoError (Unit {0}))
      (es : List EndpointAddress)
      → ((e : GoError) → last ≡ err e → Q e)
      → Throws Q (set_brokers env cr master last es)
  unfolding set_brokers from_result
  set_brokers-Throws cr master last [] h = record { at = λ s e p. h e p }
  set_brokers-Throws cr master last (x ∷ es) h =
      Throws-caught {R = Q} _ _ (Clients.set_broker_address-Throws env tolerant _ master)
        (λ a. set_brokers-Throws cr master (ok a) es (λ e p. cc))
        (λ e q.
          set_brokers-Throws cr master (err e) es (λ y p. let same : e ≡ y = cc in rw same at q))

  pub config_set_broker-Throws :
      (cr : Undermoon) (svc : Service) (master : String)
      → Throws Q (config_set_broker env cr svc master)
  unfolding config_set_broker
  config_set_broker-Throws cr svc master =
      Throws-bind _ _ (get_endpoints-Throws _ _)
        (λ es. set_brokers-Throws cr master (ok tt) es (λ e p. cc))
