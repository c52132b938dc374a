-- ===== src/Errors/Changes.antt =====
-- The errors of changeMeta and changeNodeNumber of meta_controller.go.

use undermoon_operator_old.Common.{Bool, false, String, true}
use undermoon_operator_old.Errors.{IsForeignOrRetry}
use undermoon_operator_old.Errors.Clients.{
  IsForeignOrMigration, IsForeignOrRetry-IsTolerant, IsSignal, IsTolerant, perform-Throws,
}
use undermoon_operator_old.Exec.Rules.{
  Throws, Throws-caught, Throws-map_error, Throws-throw, throws_rules,
}
use undermoon_operator_old.Go.{
  err, failed, free_node_found, GoError, migration_running, ok, remote, retry_reconciliation,
}
use undermoon_operator_old.Kube.{Undermoon}
use undermoon_operator_old.MetaController.{
  after_scale, change_meta, change_node_number, remove_nodes, retry_if_migrating,
}
use undermoon_operator_old.World.{ClusterInfo, Env}
use undermoon_operator_old.Errors.Clients as Clients

module _ (env : Env) where
  retried : (e : GoError) → IsForeignOrMigration e → IsForeignOrRetry (retry_if_migrating e)
  unfolding retry_if_migrating
  retried migration_running h = tt
  retried free_node_found h = absurd h
  retried retry_reconciliation h = absurd h
  retried (failed m) h = tt
  retried (remote e) h = tt

  remove_nodes-Throws :
      (master : String) (cr : Undermoon) (retry : Bool)
      → Throws IsForeignOrRetry (remove_nodes env master cr retry)
  unfolding remove_nodes
  remove_nodes-Throws master cr retry = search (
    throws_rules,
    Throws-map_error {Q = IsForeignOrRetry} retry_if_migrating _
        (Clients.remove-Throws env master cr.spec.cluster_name) retried,
    tt,
  )

  after_scale-Throws :
      (master : String) (cr : Undermoon) (e : GoError)
      → IsSignal e
      → Throws IsForeignOrRetry (after_scale env master cr (err e))
  unfolding after_scale retry_if_migrating
  after_scale-Throws master cr migration_running h = Throws-throw _ tt
  after_scale-Throws master cr free_node_found h = remove_nodes-Throws master cr true
  after_scale-Throws master cr retry_reconciliation h = absurd h
  after_scale-Throws master cr (failed m) h = Throws-throw _ tt
  after_scale-Throws master cr (remote e) h = Throws-throw _ tt

  removed :
      (master : String) (cr : Undermoon) (a : Unit {0})
      → Throws IsForeignOrRetry (after_scale env master cr (ok a))
  unfolding after_scale
  removed master cr a = remove_nodes-Throws master cr false

  change_node_number-Throws :
      (master : String) (cr : Undermoon)
      → Throws IsForeignOrRetry (change_node_number env master cr)
  unfolding change_node_number
  change_node_number-Throws master cr =
      Throws-caught {R = IsSignal} _ _
        (Clients.scale-Throws env master cr.spec.cluster_name cr.spec.chunk_number)
        (removed master cr) (after_scale-Throws master cr)

  kept : (e : GoError) → IsForeignOrRetry e → IsForeignOrRetry (retry_if_migrating e)
  unfolding retry_if_migrating
  kept migration_running h = tt
  kept free_node_found h = absurd h
  kept retry_reconciliation h = tt
  kept (failed m) h = tt
  kept (remote e) h = tt

  pub change_meta-Throws :
      (master : String) (cr : Undermoon) (info : ClusterInfo)
      → Throws IsForeignOrRetry (change_meta env master cr info)
  unfolding change_meta
  change_meta-Throws master cr info = search (
    throws_rules,
    Throws-map_error {Q = IsForeignOrRetry} retry_if_migrating _
        (change_node_number-Throws master cr) kept,
    tt,
  )
