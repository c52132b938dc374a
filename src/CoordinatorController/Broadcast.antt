-- ===== src/CoordinatorController/Broadcast.antt =====
-- What configSetBroker sends and returns (coordinator_controller.go).
use undermoon_operator_old.Clients.Addressing.{set_brokers_command, set_broker_address-addressed}
use undermoon_operator_old.Clients.{set_broker_address}
use undermoon_operator_old.Common.{List, String, [], ap, refl, sym, ◌++◌, ◌∙◌, ◌∷◌, ◌≡◌}
use undermoon_operator_old.CoordinatorController.{set_brokers}
use undermoon_operator_old.Exec.{State, from_result, ◌>>=◌}
use undermoon_operator_old.Go.{GoError, Result}
use undermoon_operator_old.Kube.{EndpointAddress, Undermoon}
use undermoon_operator_old.Names.Coordinator.{gen_coordinator_address_from_name}
use undermoon_operator_old.RedisPool.Laws.{IsSound}
use undermoon_operator_old.World.{Call, Env, History}

module _ (env : Env) (cr : Undermoon) (master : String) where
  abbrev coordinator : EndpointAddress → String
  coordinator endpoint = gen_coordinator_address_from_name endpoint.hostname cr

  -- The calls after a CONFIG SET to each of the coordinators, in their order.
  abbrev pub broadcast : List EndpointAddress → History → History
  broadcast [] h = h
  broadcast (endpoint ∷ endpoints) h =
      broadcast endpoints (Call.redis (coordinator endpoint) (set_brokers_command env master) ∷ h)

  next_round :
      (last : Result GoError (Unit {0})) (e : EndpointAddress) (es : List EndpointAddress)
      (s : State)
      → set_brokers env cr master last (e ∷ es) s
        ≡ set_brokers env cr master
            (set_broker_address env (coordinator e) master s).0
            es
            (set_broker_address env (coordinator e) master s).1
  unfolding set_brokers ◌>>=◌
  next_round last e es s = refl

  -- From a sound pool, the loop of configSetBroker sends each coordinator of the list one CONFIG
  -- SET of the master, in the list's order, and calls nothing else, whatever each of them answers.
  pub calls-set_brokers :
      (last : Result GoError (Unit {0})) (es : List EndpointAddress) (s : State)
      → IsSound s.coord_pool
      → (set_brokers env cr master last es s).1.calls ≡ broadcast es s.calls
  unfolding set_brokers from_result
  calls-set_brokers last [] s sound = refl
  calls-set_brokers last (e ∷ es) s sound =
      let (r, s') = set_broker_address env (coordinator e) master s in
      let (sent, sound') = set_broker_address-addressed env (coordinator e) s master sound in
      ap (λ t. t.1.calls) (next_round last e es s)
      ∙ (calls-set_brokers r es s' sound' ∙ ap (broadcast es) sent)

  -- What the loop of configSetBroker returns is what the last coordinator's command returns, so
  -- that an error of an earlier one is lost.
  pub set_brokers-append :
      (last : Result GoError (Unit {0})) (es : List EndpointAddress) (e : EndpointAddress)
      (s : State)
      → (set_brokers env cr master last (es ++ e ∷ []) s).0
        ≡ (set_broker_address env (coordinator e) master (set_brokers env cr master last es s).1).0
  unfolding set_brokers from_result
  set_brokers-append last [] e s = ap (λ t. t.0) (next_round last e [] s)
  set_brokers-append last (x ∷ es) e s =
      let (r, s') = set_broker_address env (coordinator x) master s in
      ap (λ t. t.0) (next_round last x (es ++ e ∷ []) s)
      ∙ (set_brokers-append r es e s'
          ∙ ap (λ t. (set_broker_address env (coordinator e) master t.1).0)
              (sym (next_round last x es s)))
