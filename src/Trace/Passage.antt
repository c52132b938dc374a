-- ===== src/Trace/Passage.antt =====
-- What every call keeps is kept by each part of a run of Reconcile (undermoon_controller.go).
use undermoon_operator_old.Common.{Bool, List, String, ℕ}
use undermoon_operator_old.CoordinatorController.{config_set_broker}
use undermoon_operator_old.Exec.{map_error, State, ◌>>=◌, ◌>>◌}
use undermoon_operator_old.Exec.Rules.{Keeps, keeps_rules}
use undermoon_operator_old.Kube.{NamespacedName, Undermoon}
use undermoon_operator_old.MetaController.{fix_broker_epoch}
use undermoon_operator_old.Reconciler.{
  change_cluster, propagate, reconcile_body, requeue_unless, scale_cluster, settle_cluster,
  UmResource,
}
use undermoon_operator_old.StorageController.{get_max_epoch}
use undermoon_operator_old.Trace.Controllers.{
  all_ready-Keeps, config_set_broker-Keeps, fix_broker_epoch-Keeps, get_max_epoch-Keeps,
  get_server_proxies-Keeps, reconcile_master-Keeps, reconcile_meta-Keeps, stable-Keeps,
}
use undermoon_operator_old.Trace.Free.{get_undermoon-Keeps}
use undermoon_operator_old.World.{ClusterInfo, Env}
use undermoon_operator_old.Trace.Carried.{calm_of, change_meta-Keeps, IsCarried, stable_of}
use undermoon_operator_old.Trace.Server.{ready-Keeps, resources-Keeps, scale_down-Keeps}

module _ (env : Env) {P : State → Type 0} (carried : IsCarried P) where
  requeue_unless-Keeps : (b : Bool) (n : ℕ) → Keeps P (requeue_unless b n)
  requeue_unless-Keeps b n = search keeps_rules

  pub settle-Keeps :
      (r : UmResource) (cr : Undermoon) (master : String) (replicas : List String) (b : Bool)
      → Keeps P (settle_cluster env r cr master replicas b)
  unfolding settle_cluster
  settle-Keeps r cr master replicas b =
      search
        (
          keeps_rules,
          reconcile_meta-Keeps env (stable_of carried),
          scale_down-Keeps env (calm_of carried),
        )
        depth 8

  pub change-Keeps :
      (r : UmResource) (cr : Undermoon) (master : String) (replicas : List String) (b : Bool)
      (info : ClusterInfo)
      → Keeps P (change_cluster env r cr master replicas b info)
  unfolding change_cluster
  change-Keeps r cr master replicas b info =
      search
        (
          keeps_rules,
          stable-Keeps env (stable_of carried),
          change_meta-Keeps env carried,
          settle-Keeps,
        )
        depth 8

  pub scale-Keeps :
      (r : UmResource) (cr : Undermoon) (master : String) (replicas : List String)
      → Keeps P (scale_cluster env r cr master replicas)
  unfolding scale_cluster
  scale-Keeps r cr master replicas =
      search
        (
          keeps_rules,
          get_server_proxies-Keeps env (stable_of carried),
          all_ready-Keeps env (stable_of carried),
          reconcile_meta-Keeps env (stable_of carried),
          change-Keeps,
        )
        depth 8

  pub prepared-Keeps :
      (resource : UmResource) (cr : Undermoon) (master : String) (replicas : List String)
      → Keeps P (do
        map_error propagate (config_set_broker env cr resource.coordinator_service master)
        max_epoch ← map_error propagate (get_max_epoch env resource.storage_service cr)
        map_error propagate (fix_broker_epoch env master max_epoch)
        scale_cluster env resource cr master replicas)
  prepared-Keeps resource cr master replicas =
      search
        (
          keeps_rules,
          config_set_broker-Keeps env (stable_of carried),
          get_max_epoch-Keeps env (stable_of carried),
          fix_broker_epoch-Keeps env (stable_of carried),
          scale-Keeps,
        )
        depth 8

  pub body-Keeps : (request : NamespacedName) → Keeps P (reconcile_body env request)
  unfolding reconcile_body
  body-Keeps request =
      search
        (
          keeps_rules,
          get_undermoon-Keeps env (stable_of carried),
          resources-Keeps env (calm_of carried),
          ready-Keeps env (calm_of carried),
          reconcile_master-Keeps env (stable_of carried),
          prepared-Keeps,
        )
        depth 10
