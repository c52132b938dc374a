-- ===== src/Errors/Run.antt =====
-- What Reconcile returns as an error.
use undermoon_operator_old.Common.{Bool, false, List, refl, some, String, true, ℕ, ◌≡◌}
use undermoon_operator_old.CoordinatorController.{config_set_broker}
use undermoon_operator_old.Errors.{IsForeign, IsForeignOrRetry}
use undermoon_operator_old.Errors.Clients.{
  IsForeign-IsTolerant, IsForeignOrRetry-IsTolerant, IsTolerant, perform-Throws,
}
use undermoon_operator_old.Exec.{Exec, map_error, State, ◌>>=◌, ◌>>◌}
use undermoon_operator_old.Exec.Rules.{
  Throws, Throws-bind, Throws-map_error, Throws-pure, Throws-throw, throws_rules,
}
use undermoon_operator_old.Go.{
  err, failed, free_node_found, GoError, migration_running, not_found, ok, remote, Result,
  retry_reconciliation,
}
use undermoon_operator_old.Kube.{NamespacedName, Undermoon}
use undermoon_operator_old.MetaController.{fix_broker_epoch}
use undermoon_operator_old.Reconciler.{
  broker_and_coordinator_ready, change_cluster, create_resources, done_or_propagate, Exit, exit_of,
  propagate, reconcile, reconcile_body, requeue_unless, retry_or_propagate, scale_cluster,
  settle_cluster, UmResource,
}
use undermoon_operator_old.StorageController.{get_max_epoch}
use undermoon_operator_old.World.{ClusterInfo, Env}
use undermoon_operator_old.Errors.Controllers as Controllers
use undermoon_operator_old.Errors.Changes as Changes
use undermoon_operator_old.Errors.Retries as Retries

-- An exit without an error, or with one that is no sentinel.
abbrev pub IsClean : Exit → Type 0
IsClean x = (e : GoError) → x.error ≡ some e → IsForeign e

propagate-IsClean : (e : GoError) → IsForeign e → IsClean (propagate e)
propagate-IsClean e h x p = let same : e ≡ x = cc in rw same at h

retry_or_propagate-IsClean : (e : GoError) → IsForeignOrRetry e → IsClean (retry_or_propagate e)
retry_or_propagate-IsClean retry_reconciliation h x p = cc
retry_or_propagate-IsClean (failed m) h x p = propagate-IsClean (failed m) tt x p
retry_or_propagate-IsClean (remote e) h x p = propagate-IsClean (remote e) tt x p
retry_or_propagate-IsClean migration_running h x p = absurd h
retry_or_propagate-IsClean free_node_found h x p = absurd h

done_or_propagate-IsClean : (e : GoError) → IsForeign e → IsClean (done_or_propagate e)
done_or_propagate-IsClean (failed m) h x p = propagate-IsClean (failed m) tt x p
done_or_propagate-IsClean (remote not_found) h x p = cc
done_or_propagate-IsClean (remote e) h x p = propagate-IsClean (remote e) tt x p
done_or_propagate-IsClean retry_reconciliation h x p = absurd h
done_or_propagate-IsClean migration_running h x p = absurd h
done_or_propagate-IsClean free_node_found h x p = absurd h

abbrev foreign : IsTolerant IsForeign
foreign = IsForeign-IsTolerant

passed :
    {A : Type 0} (m : Exec GoError A) → Throws IsForeign m → Throws IsClean (map_error propagate m)
passed m t = Throws-map_error propagate m t propagate-IsClean

retried :
    {A : Type 0} (m : Exec GoError A)
    → Throws IsForeignOrRetry m
    → Throws IsClean (map_error retry_or_propagate m)
retried m t = Throws-map_error retry_or_propagate m t retry_or_propagate-IsClean

requeue_unless-Throws : (b : Bool) (n : ℕ) → Throws IsClean (requeue_unless b n)
requeue_unless-Throws true n = Throws-pure _
requeue_unless-Throws false n = Throws-throw _ (λ e h. cc)

ruleset run_rules = (throws_rules, passed, retried, requeue_unless-Throws)

module _ (env : Env) where
  resources-Throws : (cr : Undermoon) → Throws IsForeignOrRetry (create_resources env cr)
  unfolding create_resources
  resources-Throws cr =
      search
        (
          throws_rules,
          Controllers.create_broker-Throws env IsForeignOrRetry-IsTolerant,
          Controllers.create_coordinator-Throws env IsForeignOrRetry-IsTolerant,
          Retries.create_storage-Throws env,
        )
        depth 8

  ready-Throws : (r : UmResource) → Throws IsForeign (broker_and_coordinator_ready env r)
  unfolding broker_and_coordinator_ready
  ready-Throws r = search (
    throws_rules,
    Controllers.broker_ready-Throws env foreign,
    Controllers.coordinator_ready-Throws env foreign,
  )

  settle-Throws :
      (r : UmResource) (cr : Undermoon) (master : String) (replicas : List String) (b : Bool)
      → Throws IsClean (settle_cluster env r cr master replicas b)
  unfolding settle_cluster
  settle-Throws r cr master replicas b =
      search (run_rules, Retries.reconcile_meta-Throws env, Retries.scale_down-Throws env) depth 8

  change-Throws :
      (r : UmResource) (cr : Undermoon) (master : String) (replicas : List String) (b : Bool)
      (info : ClusterInfo)
      → Throws IsClean (change_cluster env r cr master replicas b info)
  unfolding change_cluster
  change-Throws r cr master replicas b info =
      search
        (
          run_rules,
          Controllers.stable-Throws env foreign,
          Changes.change_meta-Throws env,
          settle-Throws,
        )
        depth 8

  scale-Throws :
      (r : UmResource) (cr : Undermoon) (master : String) (replicas : List String)
      → Throws IsClean (scale_cluster env r cr master replicas)
  unfolding scale_cluster
  scale-Throws r cr master replicas =
      search
        (
          run_rules,
          Controllers.get_server_proxies-Throws env foreign,
          Controllers.all_ready-Throws env foreign,
          Retries.reconcile_meta-Throws env,
          change-Throws,
        )
        depth 8

  prepared-Throws :
      (resource : UmResource) (cr : Undermoon) (master : String) (replicas : List String)
      → Throws IsClean (do
        map_error propagate (config_set_broker env cr resource.coordinator_service master)
        max_epoch ← map_error propagate (get_max_epoch env resource.storage_service cr)
        map_error propagate (fix_broker_epoch env master max_epoch)
        scale_cluster env resource cr master replicas)
  prepared-Throws resource cr master replicas =
      search
        (
          run_rules,
          Controllers.config_set_broker-Throws env foreign,
          Controllers.get_max_epoch-Throws env foreign,
          Controllers.fix_broker_epoch-Throws env foreign,
          scale-Throws,
        )
        depth 8

  body-Throws : (request : NamespacedName) → Throws IsClean (reconcile_body env request)
  unfolding reconcile_body
  body-Throws request =
      Throws-bind _ _
        (Throws-map_error done_or_propagate _ (perform-Throws env foreign _ _)
          done_or_propagate-IsClean)
        (λ found.
          search
            (
              run_rules,
              resources-Throws,
              ready-Throws,
              Retries.reconcile_master-Throws env,
              prepared-Throws,
            )
            depth 10)

  -- An error that Reconcile returns is none of the sentinels errRetryReconciliation,
  -- errMigrationRunning and errFreeNodeFound: it comes from a call of the environment or is a
  -- message.
  pub error-reconcile :
      (request : NamespacedName) (s : State) (e : GoError)
      → (reconcile env request s).0.error ≡ some e
      → IsForeign e
  unfolding reconcile
  error-reconcile request s e h =
      exit (reconcile_body env request s).0 ((body-Throws request).at s) h
    where
      exit :
          (r : Result Exit (Unit {0}))
          → ((x : Exit) → r ≡ err x → IsClean x)
          → (exit_of env r).error ≡ some e
          → IsForeign e
      exit (ok a) k h = cc
      exit (err x) k h = k x refl e h
