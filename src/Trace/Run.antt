-- ===== src/Trace/Run.antt =====
-- The histories of single runs of Reconcile (undermoon_controller.go).

use undermoon_operator_old.Trace.Held.{IsHeld, prepared-IsHeld}
use undermoon_operator_old.BrokerController.{reconcile_master}
use undermoon_operator_old.Common.{Bool, false, refl, true}
use undermoon_operator_old.CoordinatorController.{config_set_broker}
use undermoon_operator_old.Exec.{Exec, map_error, perform, State, ◌>>=◌, ◌>>◌}
use undermoon_operator_old.Exec.Rules.{Keeps, Keeps-map_error, Keeps-pure, Keeps-throw}
use undermoon_operator_old.Exec.Triples.{
  Keeps-of_Safe, ok-convert, Safe, Safe-bind, Safe-map_error, Safe-of_Keeps, Triple,
  Triple-map_error, Triple-of_Keeps,
}
use undermoon_operator_old.Kube.{NamespacedName, Undermoon}
use undermoon_operator_old.MetaController.{fix_broker_epoch}
use undermoon_operator_old.Reconciler.{
  broker_and_coordinator_ready, Exit, propagate, reconcile, reconcile_body, requeue_unless,
  retry_or_propagate, scale_cluster, UmResource,
}
use undermoon_operator_old.StorageController.{get_max_epoch}
use undermoon_operator_old.Trace.{Earlier-now, IsEquipped, IsRead, IsStored, IsValid}
use undermoon_operator_old.Trace.Carried.{stable-carried}
use undermoon_operator_old.Trace.Controllers.{reconcile_master-Keeps}
use undermoon_operator_old.Trace.Equipment.{
  IsEquipped-IsCarried, master-IsStored, resources-IsEquipped,
}
use undermoon_operator_old.Trace.Free.{get_undermoon-Keeps, IsStable, IsValid-IsStable}
use undermoon_operator_old.Trace.Preparation.{create_resources-Begun, waiting-Keeps}
use undermoon_operator_old.Trace.Scaling.{IsBegun}
use undermoon_operator_old.World.{Env}
use undermoon_operator_old.Api

module _ (env : Env) where
  -- The history is valid, and the run has its storage service and StatefulSet.
  abbrev IsReady : Undermoon → UmResource → State → Type 0
  IsReady found r s =
      IsValid env s × IsEquipped env found r.storage_service r.storage_stateful_set s.calls

  IsReady-IsStable : (found : Undermoon) (r : UmResource) → IsStable (IsReady found r)
  IsReady-IsStable found r =
      stable-carried (IsValid-IsStable env)
        (IsEquipped-IsCarried env found r.storage_service r.storage_stateful_set)

  mastered :
      (found : Undermoon) (r : UmResource)
      → Triple
          (IsReady found r)
          (reconcile_master env found r.broker_service)
          (λ x s. IsHeld env found x.0 r s)
  mastered found r = record {
    at = λ s p x e.
        let (v, h) =
          (reconcile_master-Keeps env (IsReady-IsStable found r) found r.broker_service).at s p in
        (
          v,
          record {
            equipped = h;
            stored =
                Earlier-now (IsStored env found x.0) _
                  ((master-IsStored env {P = λ _. Unit {0}} found r.broker_service).at s tt x e);
          },
        );
  }

  step :
      {A B : Type 0} (found : Undermoon) (r : UmResource) (m : Exec Exit A) (f : A → Exec Exit B)
      → Keeps (IsReady found r) m
      → ((a : A) → Safe (IsReady found r) (f a) (IsValid env))
      → Safe (IsReady found r) (m >>= f) (IsValid env)
  step found r m f k h = Safe-bind m f (record { at = λ s p. (k.at s p).0 }) (Triple-of_Keeps m k) h

  waits :
      (found : Undermoon) (r : UmResource) (b : Bool) → Keeps (IsReady found r) (requeue_unless b 3)
  waits found r true = Keeps-pure _
  waits found r false = Keeps-throw _

  equipped-Safe :
      (found : Undermoon) (resource : UmResource)
      → Safe
          (IsReady found resource)
          (do
            ready ← map_error propagate (broker_and_coordinator_ready env resource)
            requeue_unless ready 3
            (cr, master, replicas) ←
                map_error retry_or_propagate (reconcile_master env found resource.broker_service)
            map_error propagate (config_set_broker env cr resource.coordinator_service master)
            max_epoch ← map_error propagate (get_max_epoch env resource.storage_service cr)
            map_error propagate (fix_broker_epoch env master max_epoch)
            scale_cluster env resource cr master replicas)
          (IsValid env)
  equipped-Safe found resource =
      let stable = IsReady-IsStable found resource in
      let master = reconcile_master-Keeps env stable found resource.broker_service in
      step found resource _ _ (Keeps-map_error _ _ (waiting-Keeps env stable resource)) (λ ready.
        step found resource _ _ (waits found resource ready) (λ _.
          Safe-bind _ _ (Safe-map_error _ _ (record { at = λ s p. (master.at s p).0 }))
            (Triple-map_error _ _ (mastered found resource))
            (λ (cr, master, replicas). record {
              at = λ s p. ((prepared-IsHeld env found cr resource master replicas).at s p).0;
            })))

  begun :
      (request : NamespacedName)
      → Triple (IsValid env) (Api.get_undermoon env request) (λ found s. IsBegun env found s)
  unfolding perform
  begun request = record {
    at = λ s v found e. (
      (tt, v),
      Earlier-now (IsRead env found) _
          (record { k = request; before = s.calls; asked = refl; answered = ok-convert _ found e }),
    );
  }

  reconcile_body-IsValid :
      (request : NamespacedName) → Keeps (IsValid env) (reconcile_body env request)
  unfolding reconcile_body
  reconcile_body-IsValid request = Keeps-of_Safe _ (
      Safe-bind _ _
        (Safe-of_Keeps _
          (Keeps-map_error _ _ (get_undermoon-Keeps env (IsValid-IsStable env) request)) (λ s v. v))
        (Triple-map_error _ _ (begun request))
        (λ found.
          let created = create_resources-Begun env found in
          Safe-bind _ _ (Safe-map_error _ _ (record { at = λ s p. (created.at s p).0 }))
            (Triple-map_error _ _ (record {
              at = λ s p r e. ((created.at s p).0, (resources-IsEquipped env found).at s p.1 r e);
            }))
            (λ resource. equipped-Safe found resource)))

  -- From a valid history, Reconcile leaves a valid history, whatever the environment answers. In a
  -- valid history a service or a StatefulSet is created only right after a Get of the same object
  -- that did not find it. A StatefulSet is updated only in its replicas, and only as the storage's
  -- StatefulSet of a resource that was read before: it is raised to the size that the resource
  -- asks for, right after it was read or created for the resource's manifest; or it is set to the
  -- size asked for by the version of the resource that the API server returned when a master
  -- broker was stored in it, right after a broker said that the slots of this version's cluster
  -- are on just as many nodes as it asks for. And a cluster is told to scale only right after the
  -- pods behind the storage's service of such a resource were counted and found to be at least as
  -- many as its stored version asks for, where the broker that is told, asked just before about
  -- this very cluster, said that no migration runs.
  pub reconcile-IsValid :
      (request : NamespacedName) (s : State)
      → IsValid env s
      → IsValid env (reconcile env request s).1
  unfolding reconcile
  reconcile-IsValid request s v = (reconcile_body-IsValid request).at s v
