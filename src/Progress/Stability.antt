-- ===== src/Progress/Stability.antt =====
-- The master broker over any number of runs of Reconcile, in a world in which everything is up.
use mathlib.Core.Path.{subst, subst⁻¹}
use undermoon_operator_old.BrokerClient.Effects.{config_at}
use undermoon_operator_old.BrokerController.{get_current_master, reconcile_master, replicas_of}
use undermoon_operator_old.Common.{List, map, refl, String, true, ◌∙◌, ◌≡◌}
use undermoon_operator_old.CoordinatorController.{config_set_broker}
use undermoon_operator_old.Exec.{Exec, map_error, perform, State, ◌>>=◌}
use undermoon_operator_old.Exec.Rules.{Keeps, Keeps-map_error, Keeps-pure}
use undermoon_operator_old.Exec.Success.{Succeeds-map_error, Succeeds-pure, Yields, Yields-perform}
use undermoon_operator_old.Exec.Triples.{Triple, Triple-bind, Triple-map_error, Triple-pure}
use undermoon_operator_old.Go.{ok, RemoteError, Result}
use undermoon_operator_old.Kube.{EndpointAddress, NamespacedName, Undermoon}
use undermoon_operator_old.MetaController.{fix_broker_epoch}
use undermoon_operator_old.MetaController.Elected.{IsElected}
use undermoon_operator_old.Names.Broker.{gen_broker_address_from_name}
use undermoon_operator_old.Progress.{IsUp}
use undermoon_operator_old.Progress.Brokers.{broker_and_coordinator_ready-Yields}
use undermoon_operator_old.Progress.Creation.{
  create_resources-Yields, get_endpoints-Yields, resources,
}
use undermoon_operator_old.Reconciler.{
  Exit, propagate, reconcile_body, retry_or_propagate, scale_cluster,
}
use undermoon_operator_old.Reconciler.Sticky.{scale-Elects}
use undermoon_operator_old.StorageController.{get_max_epoch}
use undermoon_operator_old.Trace.Server.{
  IsCalm, IsServer, ready-Keeps, resources-Keeps, server_endpoints-Keeps,
}
use undermoon_operator_old.Utils.{addresses_of_subsets}
use undermoon_operator_old.World.{Call, Env, History}

-- A known value, and what is kept on the way to it.
Triple-value :
    {E A B : Type 0} {P : State → Type 0} {Q : B → State → Type 0} (a : A) (m : Exec E A)
    (f : A → Exec E B)
    → Yields m a
    → Keeps P m
    → Triple P (f a) Q
    → Triple P (m >>= f) Q
Triple-value {P} {Q} a m f y k t =
    Triple-bind _ _ {R = λ b s. (b ≡ a) × P s}
      (record { at = λ s p b e. (only (m s).0 b (y.at s) e, k.at s p) })
      (λ b. record { at = λ s (same, p). (subst⁻¹ (λ x. Triple P (f x) Q) same t).at s p })
  where
    only :
        {E A : Type 0} {a : A} (r : Result E A) (b : A)
        → (c : A) × (r ≡ ok c) × (c ≡ a)
        → r ≡ ok b
        → b ≡ a
    only r b (c, e, same) e' = let p : b ≡ c = cc in p ∙ same

-- A part of which nothing is kept.
passes :
    {A B : Type 0} {Q : B → State → Type 0} (m : Exec Exit A) (f : A → Exec Exit B)
    → ((a : A) → Triple (λ _. Unit {0}) (f a) Q)
    → Triple (λ _. Unit {0}) (m >>= f) Q
passes m f h = Triple-bind m f {R = λ _ _. Unit {0}} (record { at = λ s p a e. tt }) h

module _ (env : Env) (key : NamespacedName) (cr : Undermoon) (up : IsUp env key cr) where
  -- The brokers' addresses, as the run reads them.
  abbrev pub broker_addresses : List String
  broker_addresses =
      map (λ (e : EndpointAddress). gen_broker_address_from_name e.hostname cr)
        (addresses_of_subsets up.broker_service.endpoints.subsets)

  -- The broker is the master of the others.
  pub record Leads (master : String) (s : State) : Type 0 where
    pub elected : IsElected master (replicas_of master broker_addresses) s.calls

  pub Leads-IsCalm : (master : String) → IsCalm (Leads master)
  unfolding perform config_at
  Leads-IsCalm master = record {
    server = λ A c answer f. record { at = λ s l. kept c f s l.elected answer };
  }
    where
      kept :
          {A : Type 0} (c : Call)
          → IsServer c
          → (s : State) → IsElected master (replicas_of master broker_addresses) s.calls
          → (answer : History → Result RemoteError A) → Leads master (perform c answer s).1
      kept (Call.http r) f s e answer = absurd f
      kept (Call.redis a l) f s e answer = absurd f
      kept _ f s e answer = record { elected = record { holds = e.holds; cleared = e.cleared } }

  -- Runs whose choice of the master is known to have `Chosen`.
  module _ {P : State → Type 0} (Chosen : String → Type 0) (calm : IsCalm P)
      (choice : Triple P (get_current_master env broker_addresses) (λ m _. Chosen m)) where
    -- The master, and the replicas that go with it.
    abbrev Picked : Undermoon × String × List String → Type 0
    Picked (x, master, replicas) = Chosen master × (replicas ≡ replicas_of master broker_addresses)

    reconcile_master-Picked :
        Triple P (reconcile_master env cr up.broker_service.service) (λ r _. Picked r)
    unfolding reconcile_master
    reconcile_master-Picked =
        Triple-value _ _ _ (get_endpoints-Yields env up.broker_service)
          (server_endpoints-Keeps env calm _ _)
          (Triple-bind _ _ choice (λ master.
            Triple-bind _ _ {R = λ _ _. Chosen master} (record { at = λ s c x e. c })
              (λ x. Triple-pure _ (λ s c. (c, refl)))))

    abbrev pub Led : State → Type 0
    Led s = (master : String) × Chosen master × Leads master s

    from_master :
        (x : Undermoon) (master : String) (replicas : List String)
        → Chosen master
        → replicas ≡ replicas_of master broker_addresses
        → Triple
            (λ _. Unit {0})
            (scale_cluster env (resources env key cr up) x master replicas)
            (λ _ s. Led s)
    from_master x master replicas c same = record {
      at = λ s p u e. (
        master,
        c,
        record {
          elected =
              subst
                (λ l.
                  IsElected master l
                    (scale_cluster env (resources env key cr up) x master replicas s).1.calls)
                same ((scale-Elects env (resources env key cr up) x master replicas).at s tt u e);
        },
      );
    }

    pub body-Led : Triple P (reconcile_body env key) (λ _ s. Led s)
    unfolding reconcile_body
    body-Led =
        Triple-value cr _ _ (Succeeds-map_error _ _ (Yields-perform _ _ cr up.found))
          (Keeps-map_error _ _ (calm.server _ _ _ tt))
          (Triple-value _ _ _ (Succeeds-map_error _ _ (create_resources-Yields env key cr up))
            (Keeps-map_error _ _ (resources-Keeps env calm cr))
            (Triple-value true _ _
              (Succeeds-map_error _ _ (broker_and_coordinator_ready-Yields env key cr up))
              (Keeps-map_error _ _ (ready-Keeps env calm _))
              (Triple-value tt _ _ (Succeeds-pure tt refl) (Keeps-pure tt) (
                Triple-bind _ _ (Triple-map_error retry_or_propagate _ reconcile_master-Picked)
                  (λ (x, master, replicas). record {
                    at = λ s (c, same) u e. (chosen x master replicas c same).at s tt u e;
                  })))))
      where
        chosen :
            (x : Undermoon) (master : String) (replicas : List String)
            → Chosen master
            → replicas ≡ replicas_of master broker_addresses
            → Triple
                (λ _. Unit {0})
                (map_error propagate (config_set_broker env x up.coordinator_service.service master)
                  >>= λ _.
                      map_error propagate (get_max_epoch env up.storage_service.service x)
                      >>= λ max. map_error propagate (fix_broker_epoch env master max) >>= λ _.
                          scale_cluster env (resources env key cr up) x master replicas)
                (λ _ s. Led s)
        chosen x master replicas c same =
            passes _ _
              (λ u. passes _ _ (λ max. passes _ _ (λ u'. from_master x master replicas c same)))
