-- ===== src/Reconciler/Done.antt =====
-- When Reconcile of undermoon_controller.go returns without an error and without a requeue.

use undermoon_operator_old.Trace.{Earlier, Earlier-now, IsStored}
use undermoon_operator_old.Trace.Carried.{Earlier-IsCarried}
use undermoon_operator_old.Trace.Equipment.{master-IsStored}
use undermoon_operator_old.Trace.Passage.{prepared-Keeps}
use undermoon_operator_old.BrokerController.{reconcile_master}
use undermoon_operator_old.Common.{inl, inr, List, refl, String, ◌∷◌, ◌≡◌, ◌⊎◌}
use undermoon_operator_old.CoordinatorController.{config_set_broker}
use undermoon_operator_old.Exec.{convert, Exec, from_result, map_error, perform, State, ◌>>=◌, ◌>>◌}
use undermoon_operator_old.Exec.Rules.{Throws, Throws-bind}
use undermoon_operator_old.Exec.Triples.{Triple, Triple-bind, Triple-map_error}
use undermoon_operator_old.Go.{
  already_exists, conflict, err, not_found, ok, other, remote, RemoteError, Result,
}
use undermoon_operator_old.Kube.{NamespacedName, Undermoon}
use undermoon_operator_old.MetaController.{fix_broker_epoch}
use undermoon_operator_old.Reconciler.{
  broker_and_coordinator_ready, create_resources, done, done_or_propagate, Exit, exit_of, propagate,
  reconcile, reconcile_body, requeue_unless, retry_or_propagate, scale_cluster, UmResource,
}
use undermoon_operator_old.Reconciler.Open.{
  IsOpen, passed, propagate-IsOpen, requeue_unless-IsOpen, retried, scale-IsOpen,
}
use undermoon_operator_old.Reconciler.Settled.{IsShrunk, scale-Ends}
use undermoon_operator_old.StorageController.{get_max_epoch}
use undermoon_operator_old.World.{Call, Env, History}

module _ (env : Env) where
  -- The resource as it was stored asks for the size of the last update.
  pub record IsSettled (found : Undermoon) (h : History) : Type 0 where
    pub cr : Undermoon
    pub stored : Earlier (IsStored env found cr) h
    pub shrunk : IsShrunk env cr h

  -- From the creations on.
  abbrev rest : Undermoon → Exec Exit (Unit {0})
  rest found = do
    resource ← map_error retry_or_propagate (create_resources env found)
    ready ← map_error propagate (broker_and_coordinator_ready env resource)
    requeue_unless ready 3
    (cr, master, replicas) ←
        map_error retry_or_propagate (reconcile_master env found resource.broker_service)
    map_error propagate (config_set_broker env cr resource.coordinator_service master)
    max_epoch ← map_error propagate (get_max_epoch env resource.storage_service cr)
    map_error propagate (fix_broker_epoch env master max_epoch)
    scale_cluster env resource cr master replicas

  abbrev Settles : {A : Type 0} → Undermoon → Exec Exit A → Type 0
  Settles found m = Triple (λ _. Unit {0}) m (λ _ s. IsSettled found s.calls)

  passes :
      {A B : Type 0} {Q : B → State → Type 0} (m : Exec Exit A) (f : A → Exec Exit B)
      → ((a : A) → Triple (λ _. Unit {0}) (f a) Q)
      → Triple (λ _. Unit {0}) (m >>= f) Q
  passes m f h = Triple-bind m f {R = λ _ _. Unit {0}} (record { at = λ s p a e. tt }) h

  -- From the master broker on.
  abbrev prepared : UmResource → Undermoon → String → List String → Exec Exit (Unit {0})
  prepared resource cr master replicas = do
    map_error propagate (config_set_broker env cr resource.coordinator_service master)
    max_epoch ← map_error propagate (get_max_epoch env resource.storage_service cr)
    map_error propagate (fix_broker_epoch env master max_epoch)
    scale_cluster env resource cr master replicas

  shrinks :
      (resource : UmResource) (cr : Undermoon) (master : String) (replicas : List String)
      → Triple
          (λ _. Unit {0})
          (prepared resource cr master replicas)
          (λ _ s. IsShrunk env cr s.calls)
  shrinks resource cr master replicas =
      passes _ _
        (λ _. passes _ _ (λ _. passes _ _ (λ _. scale-Ends env resource cr master replicas)))

  prepared-Settles :
      (found : Undermoon) (resource : UmResource) (cr : Undermoon) (master : String)
      (replicas : List String)
      → Triple
          (λ s. IsStored env found cr s.calls)
          (prepared resource cr master replicas)
          (λ _ s. IsSettled found s.calls)
  prepared-Settles found resource cr master replicas =
      let carried = Earlier-IsCarried (IsStored env found cr) in
      record {
        at = λ s p a e. record {
          cr = cr;
          stored =
              (prepared-Keeps env carried resource cr master replicas).at s
                (Earlier-now (IsStored env found cr) s.calls p);
          shrunk = (shrinks resource cr master replicas).at s tt a e;
        };
      }

  rest-Settles : (found : Undermoon) → Settles found (rest found)
  rest-Settles found = passes _ _ (λ resource. passes _ _ (λ _. passes _ _ (λ _.
      Triple-bind _ _
        (Triple-map_error retry_or_propagate _ (master-IsStored env found resource.broker_service))
        (λ (cr, master, replicas). prepared-Settles found resource cr master replicas))))

  rest-IsOpen : (found : Undermoon) → Throws IsOpen (rest found)
  rest-IsOpen found = Throws-bind _ _ (retried _) (λ resource. Throws-bind _ _ (passed _) (λ ready.
      Throws-bind _ _ (requeue_unless-IsOpen ready 3) (λ _.
        Throws-bind _ _ (retried _) (λ (cr, master, replicas). Throws-bind _ _ (passed _) (λ _.
          Throws-bind _ _ (passed _) (λ _.
            Throws-bind _ _ (passed _) (λ _. scale-IsOpen env resource cr master replicas)))))))

  -- The resource is gone: its Get was the one call.
  pub record IsGone (request : NamespacedName) (s : State) : Type 0 where
    pub missing : env.on_get_undermoon s.calls request ≡ err not_found
    pub traced : (reconcile env request s).1.calls ≡ Call.get_undermoon request ∷ s.calls

  found_end :
      (found : Undermoon) (s : State)
      → exit_of env (rest found s).0 ≡ done
      → IsSettled found (rest found s).1.calls
  found_end found s h = inspect (rest found s).0 refl h
    where
      inspect :
          (r : Result Exit (Unit {0}))
          → (rest found s).0 ≡ r
          → exit_of env r ≡ done
          → IsSettled found (rest found s).1.calls
      inspect (ok a) e h = (rest-Settles found).at s tt a e
      inspect (err x) e h = absurd ((rest-IsOpen found).at s x e h)

  abbrev run_of : Result RemoteError Undermoon → State → Result Exit (Unit {0}) × State
  run_of r s = (from_result (convert done_or_propagate (convert remote r)) >>= rest) s

  finish :
      (request : NamespacedName) (s : State) (r : Result RemoteError Undermoon)
      → let t : State = record s { calls = Call.get_undermoon request ∷ s.calls } in
        exit_of env (run_of r t).0 ≡ done
        → (r ≡ err not_found)
          ⊎ ((found : Undermoon) × (r ≡ ok found) × IsSettled found (run_of r t).1.calls)
  unfolding ◌>>=◌
  finish request s (ok found) h = inr (found, refl, found_end found _ h)
  finish request s (err not_found) h = inl refl
  finish request s (err already_exists) h = absurd (propagate-IsOpen (remote already_exists) tt h)
  finish request s (err conflict) h = absurd (propagate-IsOpen (remote conflict) tt h)
  finish request s (err (other m)) h = absurd (propagate-IsOpen (remote (other m)) tt h)

  -- If Reconcile ends without an error and without asking to be called again, either the API
  -- server did not find the resource and that Get was the one call, or it found one, and the last
  -- call is the update of a StatefulSet to the size that the resource asks for in a version which
  -- the API server returned when, earlier in the history, a master broker was stored in its
  -- status; and the call before that read from a broker that the slots of this version's cluster
  -- are on just the number of nodes that it asks for.
  pub reconcile-done :
      (request : NamespacedName) (s : State)
      → (reconcile env request s).0 ≡ done
      → IsGone request s
        ⊎ ((found : Undermoon) × (env.on_get_undermoon s.calls request ≡ ok found)
            × IsSettled found (reconcile env request s).1.calls)
  unfolding reconcile reconcile_body map_error perform ◌>>=◌
  reconcile-done request s h = elim (finish request s (env.on_get_undermoon s.calls request) h) [
    | inl missing ↦ inl (record { missing = missing; traced = rw missing refl })
    | inr run ↦ inr run
  ]
