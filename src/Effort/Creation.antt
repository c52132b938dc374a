-- ===== src/Effort/Creation.antt =====
-- The calls of the creations: a guard makes three rounds at most, of two calls each.
use undermoon_operator_old.Api
use undermoon_operator_old.BrokerController.{
  create_broker, get_or_create_broker_service, get_or_create_broker_stateful_set,
}
use undermoon_operator_old.Common.{arith, suc, zero, ℕ, ◌*◌, ◌+◌, ◌≤◌}
use undermoon_operator_old.CoordinatorController.{
  create_coordinator, get_or_create_coordinator_service, get_or_create_coordinator_stateful_set,
}
use undermoon_operator_old.Exec.{Exec, throw, ◌>>=◌}
use undermoon_operator_old.Exec.Costs.{
  Any, Costs, Costs-attempt, Costs-bind, Costs-if, Costs-imp, Costs-le, Costs-of_remote,
  Costs-perform, Costs-pure, Costs-throw,
}
use undermoon_operator_old.Go.{
  err, GoError, is_already_exists, is_conflict, is_not_found, ok, Result, retry_reconciliation,
}
use undermoon_operator_old.Kube.{Service, StatefulSet, Undermoon}
use undermoon_operator_old.Reconciler.{create_resources}
use undermoon_operator_old.StorageController.{
  create_storage, get_or_create_storage_stateful_set, needs_scale_out, scale_out,
  update_storage_stateful_set, updated,
}
use undermoon_operator_old.Utils.{
  create_service_guard, create_stateful_set_guard, found_or_created_service,
  found_or_created_stateful_set, get_or_create_service, get_or_create_stateful_set, rounds, settle,
}
use undermoon_operator_old.World.{Env}

settle-Costs :
    {A : Type 0} (n : ℕ) (r : Result GoError A) (again : Exec GoError A)
    → Costs n again Any
    → Costs n (settle r again) Any
settle-Costs n (ok a) again c = Costs-pure a tt
settle-Costs n (err e) again c = Costs-if (is_already_exists e) again (throw e) c (Costs-throw e)

-- Each round costs at most `n` calls.
rounds-Costs :
    {A : Type 0} (n left : ℕ) (create : Exec GoError A)
    → Costs n create Any
    → Costs (suc left * n) (rounds left create) Any
unfolding rounds
rounds-Costs n zero create c = Costs-le n create c (omega arith)
rounds-Costs n (suc left) create c =
    Costs-bind n (suc left * n) _ _ (Costs-attempt create c)
      (λ r q. settle-Costs (suc left * n) r (rounds left create) (rounds-Costs n left create c))
      (grind arith)

module _ (env : Env) where
  found_or_created_service-Costs :
      (v : Service) (r : Result GoError Service) → Costs 1 (found_or_created_service env v r) Any
  unfolding found_or_created_service
  found_or_created_service-Costs v (ok found) = Costs-pure found tt
  found_or_created_service-Costs v (err e) =
      Costs-if (is_not_found e) (Api.create_service env v) (throw e)
        (Costs-imp _ (Costs-perform _ _ (omega arith)) (λ a q. tt)) (Costs-throw e)

  get_or_create_service-Costs :
      (cr : Undermoon) (v : Service) → Costs 2 (get_or_create_service env cr v) Any
  unfolding get_or_create_service
  get_or_create_service-Costs cr v =
      Costs-bind 0 2 _ _ (Costs-of_remote _)
        (λ v' q.
          Costs-bind 1 1 _ _ (Costs-attempt _ (Costs-perform _ _ (omega arith)))
            (λ r q'. found_or_created_service-Costs v' r) (omega arith))
        (omega arith)

  found_or_created_stateful_set-Costs :
      (ss : StatefulSet) (r : Result GoError StatefulSet)
      → Costs 1 (found_or_created_stateful_set env ss r) Any
  unfolding found_or_created_stateful_set
  found_or_created_stateful_set-Costs ss (ok found) = Costs-pure found tt
  found_or_created_stateful_set-Costs ss (err e) =
      Costs-if (is_not_found e) (Api.create_stateful_set env ss) (throw e)
        (Costs-imp _ (Costs-perform _ _ (omega arith)) (λ a q. tt)) (Costs-throw e)

  get_or_create_stateful_set-Costs :
      (cr : Undermoon) (ss : StatefulSet) → Costs 2 (get_or_create_stateful_set env cr ss) Any
  unfolding get_or_create_stateful_set
  get_or_create_stateful_set-Costs cr ss =
      Costs-bind 0 2 _ _ (Costs-of_remote _)
        (λ ss' q.
          Costs-bind 1 1 _ _ (Costs-attempt _ (Costs-perform _ _ (omega arith)))
            (λ r q'. found_or_created_stateful_set-Costs ss' r) (omega arith))
        (omega arith)

  -- A guard around one of these, and then the rest.
  service_guard-Costs :
      {A : Type 0} {Q : A → Type 0} {n : ℕ} (j : ℕ) (create : Exec GoError Service)
      (f : Service → Exec GoError A)
      → Costs 2 create Any
      → ((v : Service) → Costs j (f v) Q)
      → 6 + j ≤ n
      → Costs n (create_service_guard create >>= f) Q
  unfolding create_service_guard
  service_guard-Costs j create f c k l =
      Costs-bind 6 j _ f (rounds-Costs 2 2 create c) (λ v q. k v) l

  stateful_set_guard-Costs :
      {A : Type 0} {Q : A → Type 0} {n : ℕ} (j : ℕ) (create : Exec GoError StatefulSet)
      (f : StatefulSet → Exec GoError A)
      → Costs 2 create Any
      → ((ss : StatefulSet) → Costs j (f ss) Q)
      → 6 + j ≤ n
      → Costs n (create_stateful_set_guard create >>= f) Q
  unfolding create_stateful_set_guard
  stateful_set_guard-Costs j create f c k l =
      Costs-bind 6 j _ f (rounds-Costs 2 2 create c) (λ ss q. k ss) l

  create_broker-Costs : (cr : Undermoon) → Costs 12 (create_broker env cr) Any
  unfolding create_broker get_or_create_broker_service get_or_create_broker_stateful_set
  create_broker-Costs cr =
      service_guard-Costs 6 _ _ (get_or_create_service-Costs cr _)
        (λ v.
          stateful_set_guard-Costs 0 _ _ (get_or_create_stateful_set-Costs cr _)
            (λ ss. Costs-pure _ tt) (omega arith))
        (omega arith)

  create_coordinator-Costs : (cr : Undermoon) → Costs 12 (create_coordinator env cr) Any
  unfolding create_coordinator get_or_create_coordinator_service
      get_or_create_coordinator_stateful_set
  create_coordinator-Costs cr =
      service_guard-Costs 6 _ _ (get_or_create_service-Costs cr _)
        (λ v.
          stateful_set_guard-Costs 0 _ _ (get_or_create_stateful_set-Costs cr _)
            (λ ss. Costs-pure _ tt) (omega arith))
        (omega arith)

  updated-Costs : {n : ℕ} (r : Result GoError StatefulSet) → Costs n (updated r) Any
  unfolding updated
  updated-Costs (ok ss) = Costs-pure ss tt
  updated-Costs (err e) =
      Costs-if (is_conflict e) (throw retry_reconciliation) (throw e) (Costs-throw _)
        (Costs-throw _)

  pub update_storage_stateful_set-Costs :
      (cr : Undermoon) (ss : StatefulSet) → Costs 1 (update_storage_stateful_set env cr ss) Any
  unfolding update_storage_stateful_set
  update_storage_stateful_set-Costs cr ss =
      Costs-bind 1 0 _ _ (Costs-attempt _ (Costs-perform _ _ (omega arith)))
        (λ r q. updated-Costs r) (omega arith)

  scale_out-Costs :
      (cr : Undermoon) (v : Service) (ss : StatefulSet) → Costs 1 (scale_out env cr v ss) Any
  unfolding scale_out
  scale_out-Costs cr v ss =
      Costs-if (needs_scale_out cr ss) _ _
        (Costs-bind 1 0 _ _ (update_storage_stateful_set-Costs cr ss) (λ t q. Costs-pure _ tt)
          (omega arith))
        (Costs-pure _ tt)

  create_storage-Costs : (cr : Undermoon) → Costs 19 (create_storage env cr) Any
  unfolding create_storage get_or_create_storage_stateful_set create_service_guard
  create_storage-Costs cr =
      Costs-bind 6 13 _ _ (Costs-attempt _ (rounds-Costs 2 2 _ (get_or_create_service-Costs cr _)))
        (λ r q.
          service_guard-Costs 7 _ _ (get_or_create_service-Costs cr _)
            (λ v.
              stateful_set_guard-Costs 1 _ _ (get_or_create_stateful_set-Costs cr _)
                (λ ss. scale_out-Costs cr v ss) (omega arith))
            (omega arith))
        (omega arith)

  pub create_resources-Costs : (cr : Undermoon) → Costs 43 (create_resources env cr) Any
  unfolding create_resources
  create_resources-Costs cr =
      Costs-bind 12 31 _ _ (create_broker-Costs cr)
        (λ b q.
          Costs-bind 12 19 _ _ (create_coordinator-Costs cr)
            (λ c q'.
              Costs-bind 19 0 _ _ (create_storage-Costs cr) (λ st q''. Costs-pure _ tt)
                (omega arith))
            (omega arith))
        (omega arith)
