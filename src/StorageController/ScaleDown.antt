-- ===== src/StorageController/ScaleDown.antt =====
-- When scaleDownStorageStatefulSet of storage_controller.go changes the StatefulSet.
use undermoon_operator_old.Common.{
  arith, Bool-cases, false, inl, inr, refl, sym, true, ◌*◌, ◌∙◌, ◌∷◌, ◌≡◌, ◌≢◌, ◌⊎◌,
}
use undermoon_operator_old.Common.Int.{eq_of_not_lt, ltb_ℤ, pos, ℤ}
use undermoon_operator_old.Exec.{convert, State, ◌>>=◌}
use undermoon_operator_old.Go.{
  already_exists, conflict, err, not_found, ok, other, remote, RemoteError, Result,
  retry_reconciliation,
}
use undermoon_operator_old.Kube.{StatefulSet, Undermoon}
use undermoon_operator_old.Names.Storage.{chunk_node_number}
use undermoon_operator_old.StorageController.{
  scale_down_storage_stateful_set, update_storage_stateful_set, updated, with_replica_num,
}
use undermoon_operator_old.World.{Call, ClusterInfo, Env}

module _ (env : Env) (cr : Undermoon) (ss : StatefulSet) (info : ClusterInfo) (s : State) where
  abbrev expected : ℤ
  expected = pos (cr.spec.chunk_number * chunk_node_number)

  -- If the slots are on another number of nodes than four a chunk, scaleDownStorageStatefulSet
  -- asks for a retry and calls nothing; if they are on just that many, its one call is the update
  -- of the StatefulSet to the size asked for.
  pub scale_down_storage_stateful_set_lem :
      ((info.node_number_with_slots ≢ expected)
        × (scale_down_storage_stateful_set env cr ss info s ≡ (err retry_reconciliation, s)))
      ⊎ ((info.node_number_with_slots ≡ expected)
          × ((scale_down_storage_stateful_set env cr ss info s).1.calls
              ≡ Call.update_stateful_set (with_replica_num cr ss) ∷ s.calls))
  unfolding scale_down_storage_stateful_set update_storage_stateful_set updated ◌>>=◌
  scale_down_storage_stateful_set_lem =
      elim (Bool-cases (ltb_ℤ expected info.node_number_with_slots)) [
        | inl more ↦ inl (
          (λ same. let g : true ≡ false = sym more ∙ rw same (irrefl expected) in absurd (cc)),
          rw more refl,
        )
        | inr not_more ↦ elim (Bool-cases (ltb_ℤ info.node_number_with_slots expected)) [
          | inl less ↦ inl (
            (λ same. let g : true ≡ false = sym less ∙ rw same (irrefl expected) in absurd (cc)),
            rw (not_more, less) refl,
          )
          | inr not_less ↦ inr (
            eq_of_not_lt expected info.node_number_with_slots not_more not_less,
            rw (not_more, not_less)
                (update (env.on_update_stateful_set s.calls (with_replica_num cr ss))),
          )
        ]
      ]
    where
      irrefl : (a : ℤ) → ltb_ℤ a a ≡ false
      irrefl a = ground arith

      update :
          (r : Result RemoteError StatefulSet)
          → (updated (convert remote r) (record s {
            calls = Call.update_stateful_set (with_replica_num cr ss) ∷ s.calls;
          })).1.calls
            ≡ Call.update_stateful_set (with_replica_num cr ss) ∷ s.calls
      update (ok x) = refl
      update (err conflict) = refl
      update (err not_found) = refl
      update (err already_exists) = refl
      update (err (other m)) = refl
