-- ===== src/Reconciler/Settled.antt =====
-- The last call of a run of Reconcile that goes through (undermoon_controller.go).
use undermoon_operator_old.Common.{[], ap, Bool, inl, inr, List, refl, String, ◌*◌, ◌∷◌, ◌≡◌}
use undermoon_operator_old.Common.Int.{pos}
use undermoon_operator_old.Exec.{Exec, ◌>>=◌}
use undermoon_operator_old.Exec.Triples.{Triple, Triple-bind, Triple-map_error, Triple-pure}
use undermoon_operator_old.Go.{err, retry_reconciliation}
use undermoon_operator_old.Kube.{StatefulSet, Undermoon}
use undermoon_operator_old.Names.Storage.{chunk_node_number}
use undermoon_operator_old.Reconciler.{
  change_cluster, Exit, retry_or_propagate, scale_cluster, settle_cluster, UmResource,
}
use undermoon_operator_old.StorageController.{
  replica_num, scale_down_storage_stateful_set, with_replica_num,
}
use undermoon_operator_old.StorageController.ScaleDown.{scale_down_storage_stateful_set_lem}
use undermoon_operator_old.Trace.{InfoRead}
use undermoon_operator_old.Trace.Reading.{reconcile_meta-InfoRead}
use undermoon_operator_old.World.{Call, ClusterInfo, Env, History}

module _ (env : Env) where
  -- The last call took the size asked for, right after the broker had said that the slots are on
  -- just as many nodes.
  pub record IsShrunk (cr : Undermoon) (h : History) : Type 0 where
    pub ss : StatefulSet
    pub master : String
    pub info : ClusterInfo
    pub before : History
    pub asked : h ≡ Call.update_stateful_set ss ∷ before
    pub sized : ss.spec.replicas ≡ replica_num cr
    pub informed : InfoRead env master cr.spec.cluster_name info before
    pub slots : info.node_number_with_slots ≡ pos (cr.spec.chunk_number * chunk_node_number)

  scaled_down :
      (master : String) (cr : Undermoon) (ss : StatefulSet) (info : ClusterInfo)
      → Triple
          (λ s. InfoRead env master cr.spec.cluster_name info s.calls)
          (scale_down_storage_stateful_set env cr ss info)
          (λ _ s. IsShrunk cr s.calls)
  scaled_down master cr ss info = record {
    at = λ s p a e. elim (scale_down_storage_stateful_set_lem env cr ss info s) [
      | inl (differ, retry) ↦
          let g : (scale_down_storage_stateful_set env cr ss info s).0 ≡ err retry_reconciliation =
            ap (λ t. t.0) retry in
          absurd (cc)
      | inr (slots, asked) ↦ record {
        ss = with_replica_num cr ss;
        master = master;
        info = info;
        before = s.calls;
        asked = asked;
        sized = refl;
        informed = p;
        slots = slots;
      }
    ];
  }

  abbrev Ends : {A : Type 0} → Undermoon → Exec Exit A → Type 0
  Ends cr m = Triple (λ _. Unit {0}) m (λ _ s. IsShrunk cr s.calls)

  Ends-bind :
      {A B : Type 0} (cr : Undermoon) (m : Exec Exit A) (f : A → Exec Exit B)
      → ((a : A) → Ends cr (f a))
      → Ends cr (m >>= f)
  Ends-bind cr m f h = Triple-bind m f {R = λ _ _. Unit {0}} (record { at = λ s p a e. tt }) h

  module _ (resource : UmResource) where
    settle-Ends :
        (cr : Undermoon) (master : String) (replicas : List String) (b : Bool)
        → Ends cr (settle_cluster env resource cr master replicas b)
    unfolding settle_cluster
    settle-Ends cr master replicas b =
        Triple-bind _ _
          (Triple-map_error retry_or_propagate _
            (reconcile_meta-InfoRead env master replicas [] cr b))
          (λ info.
            Triple-bind _ _
              (Triple-map_error retry_or_propagate _
                (scaled_down master cr resource.storage_stateful_set info))
              (λ _. Triple-pure tt (λ s p. p)))

    change-Ends :
        (cr : Undermoon) (master : String) (replicas : List String) (b : Bool) (info : ClusterInfo)
        → Ends cr (change_cluster env resource cr master replicas b info)
    unfolding change_cluster
    change-Ends cr master replicas b info =
        Ends-bind cr _ _
          (λ _. Ends-bind cr _ _ (λ _. Ends-bind cr _ _ (λ _. settle-Ends cr master replicas b)))

    pub scale-Ends :
        (cr : Undermoon) (master : String) (replicas : List String)
        → Ends cr (scale_cluster env resource cr master replicas)
    unfolding scale_cluster
    scale-Ends cr master replicas = Ends-bind cr _ _ (λ _.
        Ends-bind cr _ _ (λ b. Ends-bind cr _ _ (λ info. change-Ends cr master replicas b info)))
