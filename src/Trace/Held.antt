-- ===== src/Trace/Held.antt =====
-- A run of Reconcile from the registration of the proxies on, in a valid history in which it has
-- its storage service and StatefulSet.
use undermoon_operator_old.Common.{
  [], arith, Bool, false, length, List, refl, String, true, ℕ, ◌&&◌, ◌≡◌,
}
use undermoon_operator_old.Common.Int.{leb_ℤ, leb_ℤ_iff, pos, ◌≤ℤ◌}
use undermoon_operator_old.CoordinatorController.{config_set_broker}
use undermoon_operator_old.Exec.{map_error, State, ◌>>=◌, ◌>>◌}
use undermoon_operator_old.Exec.Rules.{Keeps, Keeps-bind, Keeps-map_error, Keeps-pure, keeps_rules}
use undermoon_operator_old.Exec.Triples.{
  Keeps-of_Safe, Safe, Safe-bind, Safe-map_error, Safe-of_Keeps, Triple, Triple-and, Triple-bind,
  Triple-map_error, Triple-of_Keeps, Triple-pure, Triple-throw,
}
use undermoon_operator_old.Kube.{EndpointAddress, Undermoon}
use undermoon_operator_old.MetaController.{change_meta, fix_broker_epoch}
use undermoon_operator_old.Reconciler.{
  change_cluster, propagate, requeue_unless, scale_cluster, settle_cluster, UmResource,
}
use undermoon_operator_old.StorageController.{
  get_max_epoch, get_service_endpoints_num, is_stable, replica_num, scale_down_storage_stateful_set,
  storage_all_ready, storage_all_ready_and_stable,
}
use undermoon_operator_old.Trace.{InfoRead, IsEquippedFor, IsLocated, IsValid}
use undermoon_operator_old.Trace.Carried.{calm_of, change_meta-Keeps, IsCarried, stable-carried}
use undermoon_operator_old.Trace.Controllers.{
  all_ready-Keeps, config_set_broker-Keeps, fix_broker_epoch-Keeps, get_max_epoch-Keeps,
  get_server_proxies-Keeps, reconcile_meta-Keeps, stable-Keeps,
}
use undermoon_operator_old.Trace.Equipment.{IsEquippedFor-IsCarried}
use undermoon_operator_old.Trace.Free.{get_endpoints-Keeps, IsStable, IsValid-IsStable}
use undermoon_operator_old.Trace.Reading.{get_endpoints-IsLocated, reconcile_meta-InfoRead}
use undermoon_operator_old.Trace.Scaling.{change_meta-Safe, scale_down-Safe}
use undermoon_operator_old.Trace.Server.{scale_down-Keeps}
use undermoon_operator_old.World.{ClusterInfo, Env}

module _ (env : Env) (found cr : Undermoon) (resource : UmResource) where
  abbrev Held : State → Type 0
  Held s = IsEquippedFor env found cr resource.storage_service resource.storage_stateful_set s.calls

  Held-IsCarried : IsCarried Held
  Held-IsCarried =
      IsEquippedFor-IsCarried env found cr resource.storage_service resource.storage_stateful_set

  abbrev pub IsHeld : State → Type 0
  IsHeld s = IsValid env s × Held s

  IsHeld-IsStable : IsStable IsHeld
  IsHeld-IsStable = stable-carried (IsValid-IsStable env) Held-IsCarried

  module _ (master : String) where
    abbrev Informed : ClusterInfo → State → Type 0
    Informed info s = InfoRead env master cr.spec.cluster_name info s.calls × IsHeld s

    -- The state after the pods were found all there.
    abbrev AllThere : ClusterInfo → State → Type 0
    AllThere info s =
        (pods : List EndpointAddress) × IsLocated env resource.storage_service
          (InfoRead env master cr.spec.cluster_name info) pods s.calls
        × (replica_num cr ≤ℤ pos (length pods))
        × IsHeld s

    down :
        (info : ClusterInfo)
        → Safe
            (Informed info)
            (scale_down_storage_stateful_set env cr resource.storage_stateful_set info)
            IsHeld
    down info = record {
      at = λ s (i, (v, h)). (
        (scale_down-Safe env found cr resource.storage_service resource.storage_stateful_set master
              info).at
            s (i, h, v),
        (scale_down-Keeps env (calm_of Held-IsCarried) cr resource.storage_stateful_set info).at s
            h,
      );
    }

    settle_cluster-IsHeld :
        (replicas : List String) (all_ready : Bool)
        → Keeps IsHeld (settle_cluster env resource cr master replicas all_ready)
    unfolding settle_cluster
    settle_cluster-IsHeld replicas all_ready =
        let meta = reconcile_meta-Keeps env IsHeld-IsStable master replicas [] cr all_ready in
        Keeps-of_Safe _ (
          Safe-bind _ _ (Safe-of_Keeps _ (Keeps-map_error _ _ meta) (λ s v. v))
            (Triple-map_error _ _ (
              Triple-and _ (reconcile_meta-InfoRead env master replicas [] cr all_ready)
                (Triple-of_Keeps _ meta)))
            (λ info.
              Safe-bind _ _ {R = λ _. IsHeld} (Safe-map_error _ _ (down info))
                (Triple-map_error _ _ (record { at = λ s p a e. (down info).at s p }))
                (λ _. Safe-of_Keeps _ (Keeps-pure _) (λ s v. v))))

    module _ (info : ClusterInfo) where
      located_number :
          Triple (Informed info) (get_service_endpoints_num env resource.storage_service) (λ n s.
            (pods : List EndpointAddress) × IsLocated env resource.storage_service
              (InfoRead env master cr.spec.cluster_name info)
              pods
              s.calls
            × (n ≡ length pods)
            × IsHeld s)
      unfolding get_service_endpoints_num
      located_number =
          let service = resource.storage_service in
          Triple-bind _ _
            (Triple-and _
              (record {
                at = λ s p.
                    (get_endpoints-IsLocated env (InfoRead env master cr.spec.cluster_name info)
                        service).at
                      s p.0;
              })
              (record {
                at = λ s p a e.
                    (get_endpoints-Keeps env IsHeld-IsStable service.metadata.name
                        service.metadata.namespace).at
                      s p.1;
              }))
            (λ pods. Triple-pure (length pods) (λ s p. (pods, p.0, refl, p.1)))

      located_all_ready :
          Triple
            (Informed info)
            (storage_all_ready env resource.storage_service cr)
            (λ b s. b ≡ true → AllThere info s)
      unfolding storage_all_ready
      located_all_ready = Triple-bind _ _ located_number (λ n.
          Triple-pure (leb_ℤ (replica_num cr) (pos n))
            (λ s p e. (p.0, p.1, rw p.2 at ((leb_ℤ_iff (replica_num cr) (pos n)).0 e), p.3)))

      located_stable :
          Triple
            (Informed info)
            (storage_all_ready_and_stable env resource.storage_service resource.storage_stateful_set
              cr)
            (λ b s. b ≡ true → AllThere info s)
      unfolding storage_all_ready_and_stable
      located_stable = Triple-bind _ _ located_all_ready (λ b.
          Triple-pure (b && is_stable resource.storage_stateful_set)
            (λ s there e. there (ground (arith, e))))

      change : Safe (AllThere info) (change_meta env master cr info) IsHeld
      change = record {
        at = λ s (pods, l, enough, (v, h)). (
          (change_meta-Safe env found cr resource.storage_service resource.storage_stateful_set info
                pods master enough).at
              s (l, h, v),
          (change_meta-Keeps env Held-IsCarried master cr info).at s h,
        );
      }

      required :
          (b : Bool)
          → Triple
              (λ s. (b ≡ true → AllThere info s) × IsHeld s)
              (requeue_unless b 10)
              (λ _ s. AllThere info s)
      required true = Triple-pure tt (λ s p. p.0 refl)
      required false = Triple-throw _

      requeue_unless-Keeps : (b : Bool) (n : ℕ) → Keeps IsHeld (requeue_unless b n)
      requeue_unless-Keeps b n = search keeps_rules

      change_cluster-Safe :
          (replicas : List String) (all_ready : Bool)
          → Safe
              (Informed info)
              (change_cluster env resource cr master replicas all_ready info)
              IsHeld
      unfolding change_cluster
      change_cluster-Safe replicas all_ready =
          let stays =
            stable-Keeps env IsHeld-IsStable resource.storage_service resource.storage_stateful_set
              cr in
          Safe-bind _ _ (Safe-map_error _ _ (record { at = λ s p. stays.at s p.1 }))
            (Triple-map_error _ _
              (Triple-and _ located_stable (record { at = λ s p a e. stays.at s p.1 })))
            (λ stable.
              Safe-bind _ _ (record { at = λ s p. (requeue_unless-Keeps stable 10).at s p.1 })
                (required stable)
                (λ _.
                  Safe-bind _ _ {R = λ _. IsHeld} (Safe-map_error _ _ change)
                    (Triple-map_error _ _ (record { at = λ s p a e. change.at s p }))
                    (λ _. Safe-of_Keeps _ (settle_cluster-IsHeld replicas all_ready) (λ s v. v))))

    scale_cluster-IsHeld :
        (replicas : List String) → Keeps IsHeld (scale_cluster env resource cr master replicas)
    unfolding scale_cluster
    scale_cluster-IsHeld replicas =
        Keeps-bind _ _ (Keeps-map_error _ _ (get_server_proxies-Keeps env IsHeld-IsStable _ cr))
          (λ proxies.
            Keeps-bind _ _ (Keeps-map_error _ _ (all_ready-Keeps env IsHeld-IsStable _ cr))
              (λ all_ready.
                let meta =
                  reconcile_meta-Keeps env IsHeld-IsStable master replicas proxies cr all_ready in
                Keeps-of_Safe _ (
                  Safe-bind _ _ (Safe-of_Keeps _ (Keeps-map_error _ _ meta) (λ s v. v))
                    (Triple-map_error _ _ (
                      Triple-and _
                        (reconcile_meta-InfoRead env master replicas proxies cr all_ready)
                        (Triple-of_Keeps _ meta)))
                    (λ info. change_cluster-Safe info replicas all_ready))))

    pub prepared-IsHeld :
        (replicas : List String)
        → Keeps IsHeld (do
          map_error propagate (config_set_broker env cr resource.coordinator_service master)
          max_epoch ← map_error propagate (get_max_epoch env resource.storage_service cr)
          map_error propagate (fix_broker_epoch env master max_epoch)
          scale_cluster env resource cr master replicas)
    prepared-IsHeld replicas =
        search
          (
            keeps_rules,
            config_set_broker-Keeps env IsHeld-IsStable,
            get_max_epoch-Keeps env IsHeld-IsStable,
            fix_broker_epoch-Keeps env IsHeld-IsStable,
            scale_cluster-IsHeld,
          )
          depth 8
