-- ===== src/Reconciler/Open.antt =====
-- An exit of Reconcile with an error or a requeue (undermoon_controller.go).
use undermoon_operator_old.Common.{ap, Bool, false, List, none, some, String, true, ℕ, ◌≡◌, ◌≢◌}
use undermoon_operator_old.Errors.Controllers.{IsAny-Throws}
use undermoon_operator_old.Exec.{Exec, map_error}
use undermoon_operator_old.Exec.Rules.{
  Throws, Throws-map_error, Throws-pure, Throws-throw, throws_rules,
}
use undermoon_operator_old.Go.{
  failed, free_node_found, GoError, migration_running, remote, retry_reconciliation,
}
use undermoon_operator_old.Kube.{Undermoon}
use undermoon_operator_old.Reconciler.{
  change_cluster, done, Exit, propagate, requeue_in, requeue_unless, retry_or_propagate,
  scale_cluster, settle_cluster, UmResource,
}
use undermoon_operator_old.World.{ClusterInfo, Env}

abbrev pub IsOpen : Exit → Type 0
IsOpen x = x ≢ done

pub propagate-IsOpen : (e : GoError) → Unit {0} → IsOpen (propagate e)
propagate-IsOpen e u h = let g : some e ≡ none = ap (λ (x : Exit). x.error) h in absurd (cc)

requeue_in-IsOpen : (n : ℕ) → IsOpen (requeue_in n)
requeue_in-IsOpen n h = cc

retry_or_propagate-IsOpen : (e : GoError) → Unit {0} → IsOpen (retry_or_propagate e)
retry_or_propagate-IsOpen retry_reconciliation u = requeue_in-IsOpen 3
retry_or_propagate-IsOpen migration_running u = propagate-IsOpen migration_running u
retry_or_propagate-IsOpen free_node_found u = propagate-IsOpen free_node_found u
retry_or_propagate-IsOpen (failed m) u = propagate-IsOpen (failed m) u
retry_or_propagate-IsOpen (remote e) u = propagate-IsOpen (remote e) u

pub passed : {A : Type 0} (m : Exec GoError A) → Throws IsOpen (map_error propagate m)
passed m = Throws-map_error propagate m (IsAny-Throws m) propagate-IsOpen

pub retried : {A : Type 0} (m : Exec GoError A) → Throws IsOpen (map_error retry_or_propagate m)
retried m = Throws-map_error retry_or_propagate m (IsAny-Throws m) retry_or_propagate-IsOpen

pub requeue_unless-IsOpen : (b : Bool) (n : ℕ) → Throws IsOpen (requeue_unless b n)
requeue_unless-IsOpen true n = Throws-pure _
requeue_unless-IsOpen false n = Throws-throw _ (λ h. cc)

ruleset open_rules = (throws_rules, passed, retried, requeue_unless-IsOpen)

module _ (env : Env) where
  settle-IsOpen :
      (r : UmResource) (cr : Undermoon) (master : String) (replicas : List String) (b : Bool)
      → Throws IsOpen (settle_cluster env r cr master replicas b)
  unfolding settle_cluster
  settle-IsOpen r cr master replicas b = search open_rules depth 8

  change-IsOpen :
      (r : UmResource) (cr : Undermoon) (master : String) (replicas : List String) (b : Bool)
      (info : ClusterInfo)
      → Throws IsOpen (change_cluster env r cr master replicas b info)
  unfolding change_cluster
  change-IsOpen r cr master replicas b info = search (open_rules, settle-IsOpen) depth 8

  pub scale-IsOpen :
      (r : UmResource) (cr : Undermoon) (master : String) (replicas : List String)
      → Throws IsOpen (scale_cluster env r cr master replicas)
  unfolding scale_cluster
  scale-IsOpen r cr master replicas = search (open_rules, change-IsOpen) depth 8
