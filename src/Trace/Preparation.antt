-- ===== src/Trace/Preparation.antt =====
-- The creations of a run of Reconcile, and its wait for the brokers and the coordinators.
use undermoon_operator_old.BrokerController.{
  create_broker, get_or_create_broker_service, get_or_create_broker_stateful_set,
}
use undermoon_operator_old.CoordinatorController.{
  create_coordinator, get_or_create_coordinator_service, get_or_create_coordinator_stateful_set,
}
use undermoon_operator_old.Exec.Rules.{Keeps, keeps_rules}
use undermoon_operator_old.Kube.{Undermoon}
use undermoon_operator_old.Reconciler.{broker_and_coordinator_ready, create_resources, UmResource}
use undermoon_operator_old.Trace.Controllers.{broker_ready-Keeps, coordinator_ready-Keeps}
use undermoon_operator_old.World.{Env}
use undermoon_operator_old.Trace.Scaling.{
  IsBegun, create_storage-Begun, service-Begun, stateful_set-Begun,
}
use undermoon_operator_old.Exec.{State}
use undermoon_operator_old.Trace.Free.{IsStable}

module _ (env : Env) where
  create_broker-Begun :
      (resource cr : Undermoon) → Keeps (IsBegun env resource) (create_broker env cr)
  unfolding create_broker get_or_create_broker_service get_or_create_broker_stateful_set
  create_broker-Begun resource cr =
      search (keeps_rules, service-Begun env resource, stateful_set-Begun env resource)

  create_coordinator-Begun :
      (resource cr : Undermoon) → Keeps (IsBegun env resource) (create_coordinator env cr)
  unfolding create_coordinator get_or_create_coordinator_service
      get_or_create_coordinator_stateful_set
  create_coordinator-Begun resource cr =
      search (keeps_rules, service-Begun env resource, stateful_set-Begun env resource)

  pub create_resources-Begun : (cr : Undermoon) → Keeps (IsBegun env cr) (create_resources env cr)
  unfolding create_resources
  create_resources-Begun cr =
      search
        (keeps_rules, create_broker-Begun cr, create_coordinator-Begun cr, create_storage-Begun env)

  pub waiting-Keeps :
      {P : State → Type 0}
      → IsStable P
      → (resource : UmResource) → Keeps P (broker_and_coordinator_ready env resource)
  unfolding broker_and_coordinator_ready
  waiting-Keeps stable resource =
      search (keeps_rules, broker_ready-Keeps env stable, coordinator_ready-Keeps env stable)
