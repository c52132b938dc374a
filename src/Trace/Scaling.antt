-- ===== src/Trace/Scaling.antt =====
-- Updates of the storage's StatefulSet and scale requests (storage_controller.go,
-- meta_controller.go).
use undermoon_operator_old.Api
use undermoon_operator_old.BrokerClient.{bad_content, info_of, info_url, no_info, scale_url}
use undermoon_operator_old.Common.{Bool, false, length, List, refl, String, true, ◌*◌, ◌≡◌}
use undermoon_operator_old.Common.Int.{eq_of_not_lt, ltb_ℤ_iff, pos, ◌<ℤ◌, ◌≤ℤ◌}
use undermoon_operator_old.Exec.{attempt, convert, Exec, perform, State, ◌>>=◌}
use undermoon_operator_old.Exec.Rules.{
  Keeps, Keeps-and, Keeps-attempt, Keeps-bind, Keeps-pure, Keeps-throw, keeps_rules,
}
use undermoon_operator_old.Exec.Triples.{
  Keeps-of_Safe, Safe, Safe-bind, Safe-if, Safe-map_error, Safe-of_Keeps, Triple-and,
  Triple-of_Keeps,
}
use undermoon_operator_old.Go.{err, free_node_found, GoError, ok, RemoteError, Result}
use undermoon_operator_old.Kube.{EndpointAddress, Service, StatefulSet, Undermoon}
use undermoon_operator_old.MetaController.{
  after_scale, change_meta, change_node_number, remove_nodes,
}
use undermoon_operator_old.Names.Storage.{chunk_node_number}
use undermoon_operator_old.StorageController.{
  create_storage, get_or_create_storage_stateful_set, needs_scale_out, replica_num,
  scale_down_storage_stateful_set, scale_out, update_storage_stateful_set, updated,
  with_replica_num,
}
use undermoon_operator_old.StorageController.Scaling.{needs_scale_out_lem}
use undermoon_operator_old.Trace.{
  Earlier, grows, InfoRead, IsEquippedFor, IsLocated, IsRead, IsStorageSet, IsValid, Resizable,
  settled,
}
use undermoon_operator_old.Trace.Carried.{calm_of, Earlier-IsCarried, IsCarried}
use undermoon_operator_old.Trace.Clients.{remove-Keeps}
use undermoon_operator_old.Trace.Creation.{
  create_service_guard-Keeps, create_stateful_set_guard-Keeps, get_or_create_service-IsValid,
  get_or_create_stateful_set-IsValid,
}
use undermoon_operator_old.Trace.Fetched.{guard-IsStorageSet}
use undermoon_operator_old.Trace.Free.{IsValid-IsStable}
use undermoon_operator_old.Trace.Server.{scale_out-Keeps, service-Keeps, stateful_set-Keeps}
use undermoon_operator_old.Utils.{
  create_service_guard, create_stateful_set_guard, get_or_create_service,
  get_or_create_stateful_set,
}
use undermoon_operator_old.World.{ClusterInfo, empty, Env, post}
use undermoon_operator_old.BrokerClient as Client

module _ (env : Env) where
  -- The update itself, where it is justified.
  pub update-Safe :
      (cr : Undermoon) (ss : StatefulSet)
      → Safe
          (λ s. Resizable env (with_replica_num cr ss) s.calls × IsValid env s)
          (update_storage_stateful_set env cr ss)
          (IsValid env)
  unfolding update_storage_stateful_set perform attempt ◌>>=◌
  update-Safe cr ss = record {
    at =
        λ s p. (updated-Keeps (env.on_update_stateful_set s.calls (with_replica_num cr ss))).at _ p;
  }
    where
      updated-Keeps :
          (r : Result RemoteError StatefulSet)
          → Keeps (IsValid env) (updated (convert GoError.remote r))
      updated-Keeps (ok x) = unfold updated in search keeps_rules
      updated-Keeps (err e) = unfold updated in search keeps_rules

  -- The history is valid, and the resource was read earlier.
  abbrev pub IsBegun : Undermoon → State → Type 0
  IsBegun resource s = IsValid env s × Earlier (IsRead env resource) s.calls

  pub IsBegun-Keeps :
      {A : Type 0} (resource : Undermoon) (m : Exec GoError A)
      → Keeps (IsValid env) m
      → Keeps (λ s. Earlier (IsRead env resource) s.calls) m
      → Keeps (IsBegun resource) m
  IsBegun-Keeps resource m v r = Keeps-and m v r

  pub IsRead-IsCarried :
      (resource : Undermoon) → IsCarried (λ s. Earlier (IsRead env resource) s.calls)
  IsRead-IsCarried resource = Earlier-IsCarried (IsRead env resource)

  pub scale_down-Safe :
      (resource cr : Undermoon) (service : Service) (ss : StatefulSet) (master : String)
      (info : ClusterInfo)
      → Safe
          (λ s.
            InfoRead env master cr.spec.cluster_name info s.calls
            × IsEquippedFor env resource cr service ss s.calls
            × IsValid env s)
          (scale_down_storage_stateful_set env cr ss info)
          (IsValid env)
  unfolding scale_down_storage_stateful_set
  scale_down-Safe resource cr service ss master info =
      Safe-if _ _ _ (λ _. Safe-of_Keeps _ (Keeps-throw _) (λ s p. p.2))
        (λ low.
          Safe-if _ _ _ (λ _. Safe-of_Keeps _ (Keeps-throw _) (λ s p. p.2))
            (λ high. record {
              at = λ s p. (update-Safe cr ss).at s (
                settled resource cr service ss master info p.1 p.0 (eq_of_not_lt _ _ low high) refl,
                p.2,
              );
            }))

  scale_out-Safe :
      (cr : Undermoon) (service : Service) (ss : StatefulSet)
      → Safe
          (λ s. IsStorageSet env cr ss s.calls × IsBegun cr s)
          (scale_out env cr service ss)
          (IsValid env)
  unfolding scale_out
  scale_out-Safe cr service ss =
      Safe-if (needs_scale_out cr ss) _ _
        (λ few.
          Safe-bind _ _ {R = λ _. IsValid env}
            (record {
              at = λ s p. (update-Safe cr ss).at s (grows cr ss p.1.1 p.0 (more few) refl, p.1.0);
            })
            (record {
              at = λ s p a e.
                  (update-Safe cr ss).at s (grows cr ss p.1.1 p.0 (more few) refl, p.1.0);
            })
            (λ a. Safe-of_Keeps _ (Keeps-pure _) (λ s v. v)))
        (λ _. Safe-of_Keeps _ (Keeps-pure _) (λ s p. p.1.0))
    where
      more : needs_scale_out cr ss ≡ true → ss.spec.replicas <ℤ replica_num cr
      more few = (ltb_ℤ_iff ss.spec.replicas (replica_num cr)).0 (rw needs_scale_out_lem at few)

  pub service-Begun :
      (resource cr : Undermoon) (object : Service)
      → Keeps (IsBegun resource) (create_service_guard (get_or_create_service env cr object))
  service-Begun resource cr object =
      IsBegun-Keeps resource _
        (create_service_guard-Keeps _ (get_or_create_service-IsValid env cr object))
        (service-Keeps env (calm_of (IsRead-IsCarried resource)) cr object)

  pub stateful_set-Begun :
      (resource cr : Undermoon) (object : StatefulSet)
      → Keeps
          (IsBegun resource)
          (create_stateful_set_guard (get_or_create_stateful_set env cr object))
  stateful_set-Begun resource cr object =
      IsBegun-Keeps resource _
        (create_stateful_set_guard-Keeps _ (get_or_create_stateful_set-IsValid env cr object))
        (stateful_set-Keeps env (calm_of (IsRead-IsCarried resource)) cr object)

  pub create_storage-Begun : (cr : Undermoon) → Keeps (IsBegun cr) (create_storage env cr)
  unfolding create_storage get_or_create_storage_stateful_set
  create_storage-Begun cr = Keeps-bind _ _ (Keeps-attempt _ (service-Begun cr cr _)) (λ _.
      Keeps-bind _ _ (service-Begun cr cr _) (λ v. Keeps-of_Safe _ (
        Safe-bind _ _ (Safe-of_Keeps _ (stateful_set-Begun cr cr _) (λ s p. p))
          (Triple-and _ (guard-IsStorageSet env cr)
            (Triple-of_Keeps _ (stateful_set-Begun cr cr _)))
          (λ ss. record {
            at = λ s p. (
              (scale_out-Safe cr v ss).at s p,
              (scale_out-Keeps env (calm_of (IsRead-IsCarried cr)) cr v ss).at s p.1.1,
            );
          }))))

  -- The pods behind the storage's service were just located, right after the broker's information.
  abbrev pub Ready :
      Undermoon
      → Undermoon
      → Service
      → StatefulSet
      → ClusterInfo
      → List EndpointAddress
      → String
      → State
      → Type 0
  Ready resource cr service held info pods master s =
      IsLocated env service (InfoRead env master cr.spec.cluster_name info) pods s.calls
      × IsEquippedFor env resource cr service held s.calls
      × IsValid env s

  -- Where a scale request is justified, changeMeta keeps the history valid.
  scale_nodes-Safe :
      (resource cr : Undermoon) (service : Service) (held : StatefulSet) (info : ClusterInfo)
      (pods : List EndpointAddress) (master : String)
      → replica_num cr ≤ℤ pos (length pods)
      → info.is_migrating ≡ false
      → Safe
          (Ready resource cr service held info pods master)
          (Client.scale_nodes env master cr.spec.cluster_name cr.spec.chunk_number)
          (IsValid env)
  unfolding Client.scale_nodes
  scale_nodes-Safe resource cr service held info pods master enough idle =
      Safe-bind _ _ {R = λ _. IsValid env} sent (record { at = λ s p a e. sent.at s p })
        (λ res. Safe-of_Keeps _ (search keeps_rules) (λ s v. v))
    where
      sent :
          Safe
            (Ready resource cr service held info pods master)
            (Api.send env post
              (scale_url master cr.spec.cluster_name (cr.spec.chunk_number * chunk_node_number))
              empty)
            (IsValid env)
      sent =
          unfold perform in
          record {
            at = λ s p. (
              (λ _ _. record {
                resource = resource;
                cr = cr;
                service = service;
                held = held;
                equipped = p.1;
                info = info;
                master = master;
                pods = pods;
                located = p.0;
                enough = enough;
                idle = idle;
                target = refl;
              }),
              p.2,
            );
          }

  change_node_number-Safe :
      (resource cr : Undermoon) (service : Service) (held : StatefulSet) (info : ClusterInfo)
      (pods : List EndpointAddress) (master : String)
      → replica_num cr ≤ℤ pos (length pods)
      → info.is_migrating ≡ false
      → Safe
          (Ready resource cr service held info pods master)
          (change_node_number env master cr)
          (IsValid env)
  unfolding change_node_number attempt
  change_node_number-Safe resource cr service held info pods master enough idle =
      Safe-bind _ _ {R = λ _. IsValid env} (record { at = λ s p. scaled.at s p })
        (record { at = λ s p a e. scaled.at s p })
        (λ r. Safe-of_Keeps _ (after_scale-Keeps r) (λ s v. v))
    where
      scaled :
          Safe
            (Ready resource cr service held info pods master)
            (Client.scale_nodes env master cr.spec.cluster_name cr.spec.chunk_number)
            (IsValid env)
      scaled = scale_nodes-Safe resource cr service held info pods master enough idle

      nodes : (b : Bool) → Keeps (IsValid env) (remove_nodes env master cr b)
      nodes b = search (keeps_rules, remove-Keeps env (IsValid-IsStable env))

      after_scale-Keeps :
          (r : Result GoError (Unit {0})) → Keeps (IsValid env) (after_scale env master cr r)
      after_scale-Keeps (ok _) = nodes false
      after_scale-Keeps (err free_node_found) = nodes true
      after_scale-Keeps (err _) = search keeps_rules

  pub change_meta-Safe :
      (resource cr : Undermoon) (service : Service) (held : StatefulSet) (info : ClusterInfo)
      (pods : List EndpointAddress) (master : String)
      → replica_num cr ≤ℤ pos (length pods)
      → Safe
          (Ready resource cr service held info pods master)
          (change_meta env master cr info)
          (IsValid env)
  unfolding change_meta
  change_meta-Safe resource cr service held info pods master enough =
      Safe-if info.is_migrating _ _ (λ _. Safe-of_Keeps _ (Keeps-throw _) (λ s p. p.2))
        (λ idle.
          Safe-map_error _ _
            (change_node_number-Safe resource cr service held info pods master enough idle))
