-- ===== src/MetaController/Refusals.antt =====
-- What changeMeta of meta_controller.go does where the broker still has free nodes.
use undermoon_operator_old.BrokerClient as Client
use undermoon_operator_old.BrokerClient.{bad_content, free_nodes_url, has_error}
use undermoon_operator_old.BrokerClient.Replies.{has_error_iff, IsRefusal, Refused, scale_request}
use undermoon_operator_old.BrokerClient.Requests.{remove_free_nodes-Asks}
use undermoon_operator_old.Common.{
  arith, Bool, eqb, false, if◌then◌else◌, inl, inr, refl, some, String, true, ◌&&◌, ◌||◌, ◌↔◌, ◌∷◌,
  ◌≡◌, ◌≢◌, ◌⊎◌,
}
use undermoon_operator_old.Exec.{Exec, map_error, pure, State, throw, ◌>>=◌}
use undermoon_operator_old.Go.{
  err, failed, free_node_found, GoError, migration_running, ok, Result-cases, retry_reconciliation,
}
use undermoon_operator_old.Kube.{Undermoon}
use undermoon_operator_old.MetaController.{
  after_scale, change_meta, change_node_number, remove_nodes, retry_if_migrating,
}
use undermoon_operator_old.MetaController.Scaling.{remove_call, scale_call}
use undermoon_operator_old.World.{Call, ClusterInfo, delete, empty, Env, HttpRequest, HttpResponse}

-- The tests of scaleNodes on an answer of the code FREE_NODE_FOUND.
found_lem :
    (fine refused running found : Bool) (rest : Exec GoError (Unit {0})) (s : State)
    → fine ≡ false
    → refused ≡ true
    → running ≡ false
    → found ≡ true
    → ((if fine
          then pure tt
          else if refused && running
          then throw migration_running
          else if refused && found
          then throw free_node_found
          else rest)
        s)
      ≡ (err free_node_found, s)
unfolding throw
found_lem fine refused running found rest s p q r t = rw (p, q, r, t) refl

-- The removal is followed by a retry.
abbrev and_retry : Exec GoError (Unit {0}) → Exec GoError (Unit {0})
and_retry m =
    map_error retry_if_migrating
      (map_error retry_if_migrating m >>= λ _. throw retry_reconciliation)

-- The tests of removeFreeNodes on an answer, followed by a retry.
removal_iff :
    (fine refused running absent : Bool) (m : String) (s : State)
    → ((and_retry
          (if fine
            then pure tt
            else if refused && running
            then throw migration_running
            else if refused && absent
            then pure tt
            else throw (failed m))
          s).0
        ≡ err retry_reconciliation)
      ↔ ((fine ≡ true) ⊎ ((refused ≡ true) × ((running ≡ true) ⊎ (absent ≡ true))))
unfolding pure throw map_error ◌>>=◌ retry_if_migrating
removal_iff true refused running absent m s = ((λ h. inl refl), (λ h. refl))
removal_iff false true true absent m s = ((λ h. inr (refl, inl refl)), (λ h. refl))
removal_iff false true false true m s = ((λ h. inr (refl, inr refl)), (λ h. refl))
removal_iff false true false false m s = ((λ h. absurd (cc)), (λ h. absurd (ground (arith, h))))
removal_iff false false running absent m s = ((λ h. absurd (cc)), (λ h. absurd (ground (arith, h))))

and_retry-fails : (m : Exec GoError (Unit {0})) (s : State) → (and_retry m s).0 ≢ ok tt
unfolding throw map_error ◌>>=◌
and_retry-fails m s h = elim (Result-cases (m s).0) [
  | inl (x, e) ↦ let g = rw e at h in cc
  | inr (x, e) ↦ let g = rw e at h in cc
]

and_retry-state : (m : Exec GoError (Unit {0})) (s : State) → (and_retry m s).1 ≡ (m s).1
unfolding throw map_error ◌>>=◌
and_retry-state m s = elim (Result-cases (m s).0) [
  | inl (x, e) ↦ rw e refl
  | inr (x, e) ↦ rw e refl
]

module _ (env : Env) (master : String) (cr : Undermoon) (s : State) where
  abbrev pub remove_request : HttpRequest
  remove_request = record {
    method = delete;
    url = free_nodes_url master cr.spec.cluster_name;
    payload = empty;
  }

  -- The broker refuses to scale because it has free nodes.
  abbrev pub HasFreeNodes : Type 0
  HasFreeNodes =
      Refused env master cr.spec.cluster_name cr.spec.chunk_number s
        (IsRefusal env master cr.spec.cluster_name cr.spec.chunk_number s) "FREE_NODE_FOUND"
        (scale_request env master cr.spec.cluster_name cr.spec.chunk_number s)

  -- What the broker says of the removal that follows: that it went well, that a migration runs, or
  -- that there was nothing to remove.
  abbrev pub IsSettled : HttpResponse → Type 0
  IsSettled res =
      (res.status_code ≡ 200)
      ⊎ (((res.status_code ≡ 404) ⊎ (res.status_code ≡ 409))
          × ((env.result_error res ≡ some "MIGRATION_RUNNING")
              ⊎ (env.result_error res ≡ some "FREE_NODE_NOT_FOUND")))

  abbrev scale : Exec GoError (Unit {0})
  scale = Client.scale_nodes env master cr.spec.cluster_name cr.spec.chunk_number

  abbrev remove : Exec GoError (Unit {0})
  remove = Client.remove_free_nodes env master cr.spec.cluster_name

  abbrev asked : State
  asked = record s { calls = scale_call env master cr ∷ s.calls }

  abbrev sent : State
  sent = record asked { calls = Call.http remove_request ∷ asked.calls }

  abbrev says : String → HttpResponse → Bool
  says code res = has_error (env.result_error res) code

  abbrev absent : HttpResponse → Bool
  absent res = eqb res.status_code 404 || eqb res.status_code 409

  -- What the tests of removeFreeNodes find
  IsSettled-iff :
      (res : HttpResponse)
      → ((eqb res.status_code 200 ≡ true)
          ⊎ ((absent res ≡ true)
              × ((says "MIGRATION_RUNNING" res ≡ true) ⊎ (says "FREE_NODE_NOT_FOUND" res ≡ true))))
        ↔ IsSettled res
  IsSettled-iff res =
      let running = has_error_iff (env.result_error res) "MIGRATION_RUNNING" in
      let none_left = has_error_iff (env.result_error res) "FREE_NODE_NOT_FOUND" in
      (
        elim [
          | inl p ↦ inl (ground (arith, p))
          | inr (p, inl q) ↦ inr (ground (arith, p), inl (running.0 q))
          | inr (p, inr q) ↦ inr (ground (arith, p), inr (none_left.0 q))
        ],
        elim [
          | inl p ↦ inl (ground (arith, p))
          | inr (p, inl q) ↦ inr (ground (arith, p), inl (running.1 q))
          | inr (p, inr q) ↦ inr (ground (arith, p), inr (none_left.1 q))
        ],
      )

  answer_iff :
      (res : HttpResponse)
      → ((and_retry
            (if eqb res.status_code 200
              then pure tt
              else if absent res && says "MIGRATION_RUNNING" res
              then throw migration_running
              else if absent res && says "FREE_NODE_NOT_FOUND" res
              then pure tt
              else throw (bad_content "Failed to remove free nodes" res))
            sent).0
          ≡ err retry_reconciliation)
        ↔ IsSettled res
  unfolding bad_content
  answer_iff res =
      let (to, from) =
        removal_iff (eqb res.status_code 200) (absent res) (says "MIGRATION_RUNNING" res)
          (says "FREE_NODE_NOT_FOUND" res) _ sent in
      ((λ h. (IsSettled-iff res).0 (to h)), (λ h. from ((IsSettled-iff res).1 h)))

  scale-free_node_found : HasFreeNodes → scale s ≡ (err free_node_found, asked)
  unfolding Client.scale_nodes has_error ◌>>=◌
  scale-free_node_found (res, e, b, c) = rw e (
      found_lem (eqb res.status_code 200) (eqb res.status_code 409 || eqb res.status_code 400)
        (says "MIGRATION_RUNNING" res) (says "FREE_NODE_FOUND" res) _ asked (ground (arith, b))
        (ground (arith, b)) (rw c refl)
        ((has_error_iff (env.result_error res) "FREE_NODE_FOUND").1 c))

  remove-IsSettled :
      ((and_retry remove asked).0 ≡ err retry_reconciliation)
      ↔ ((res : HttpResponse) × (env.on_http asked.calls remove_request ≡ ok res) × IsSettled res)
  unfolding Client.remove_free_nodes ◌>>=◌ map_error retry_if_migrating
  remove-IsSettled = (
    λ h. elim (Result-cases (env.on_http asked.calls remove_request)) [
      | inl (res, e) ↦ (res, e, (answer_iff res).0 (rw e at h))
      | inr (x, e) ↦ let g = rw e at h in absurd (cc)
    ],
    λ (res, e, b). rw e ((answer_iff res).1 b),
  )

  refused_lem :
      (info : ClusterInfo)
      → info.is_migrating ≡ false
      → HasFreeNodes
      → change_meta env master cr info s ≡ and_retry remove asked
  unfolding change_meta change_node_number after_scale remove_nodes map_error ◌>>=◌
  refused_lem info idle free = rw (idle, scale-free_node_found free) refl

  -- If no migration runs and the broker refuses to scale with the status 409 or 400 and the error
  -- code FREE_NODE_FOUND, changeMeta makes two calls, to scale and then to remove the free nodes,
  -- and does not succeed: it asks for a retry exactly when the broker answers the removal with the
  -- status 200, or with 404 or 409 and the error code MIGRATION_RUNNING or FREE_NODE_NOT_FOUND.
  pub change_meta-free_nodes :
      (info : ClusterInfo)
      → info.is_migrating ≡ false
      → HasFreeNodes
      → ((change_meta env master cr info s).1.calls
          ≡ remove_call env master cr ∷ scale_call env master cr ∷ s.calls)
        × ((change_meta env master cr info s).0 ≢ ok tt)
        × (((change_meta env master cr info s).0 ≡ err retry_reconciliation) ↔ (
            (res : HttpResponse) × (env.on_http asked.calls remove_request ≡ ok res)
            × IsSettled res))
  change_meta-free_nodes info idle free = rw (refused_lem info idle free) (
    rw
        (
          and_retry-state remove asked,
          (remove_free_nodes-Asks env master cr.spec.cluster_name).at asked,
        )
        refl,
    and_retry-fails remove asked,
    remove-IsSettled,
  )
