-- ===== src/MetaController/Scaling.antt =====
-- When reconcileMeta and changeMeta of meta_controller.go succeed.
use undermoon_operator_old.BrokerClient as Client
use undermoon_operator_old.BrokerClient.{bad_content, free_nodes_url, has_error, scale_url}
use undermoon_operator_old.BrokerClient.Replies.{has_error_iff}
use undermoon_operator_old.BrokerClient.Requests.{remove_free_nodes-Asks, request, scale_nodes-Asks}
use undermoon_operator_old.Common.{
  ap, arith, Bool, Bool-cases, eqb, false, if◌then◌else◌, inl, inr, List, refl, some, String, true,
  ◌&&◌, ◌*◌, ◌||◌, ◌∙◌, ◌∷◌, ◌≡◌, ◌⊎◌,
}
use undermoon_operator_old.Exec.{Exec, map_error, pure, State, throw, ◌>>=◌}
use undermoon_operator_old.Exec.Quiet.{bind-Ran, map_error-Ran}
use undermoon_operator_old.Go.{
  err, failed, free_node_found, GoError, migration_running, ok, remote, Result, Result-cases,
  retry_reconciliation,
}
use undermoon_operator_old.Kube.{Undermoon}
use undermoon_operator_old.MetaController.{
  after_scale, change_meta, change_node_number, reconcile_meta, reconcile_server_proxy_registry,
  remove_nodes, retry_if_migrating, set_broker_replicas,
}
use undermoon_operator_old.Names.Storage.{chunk_node_number}
use undermoon_operator_old.Progress.Runs.{runs}
use undermoon_operator_old.Trace.{InfoRead}
use undermoon_operator_old.Trace.Reading.{reconcile_meta-InfoRead}
use undermoon_operator_old.World.{
  Call, ClusterInfo, delete, empty, Env, HttpRequest, HttpResponse, post, ServerProxyMeta,
}

-- The tests of scaleNodes and removeFreeNodes on an answer.
accepted_lem :
    (fine a b : Bool) (m n k : GoError) (s : State)
    → ((if fine then pure tt else if a then throw m else if b then throw n else throw k) s).0
      ≡ ok tt
    → fine ≡ true
unfolding pure throw
accepted_lem true a b m n k s h = refl
accepted_lem false true b m n k s h = absurd (cc)
accepted_lem false false true m n k s h = absurd (cc)
accepted_lem false false false m n k s h = absurd (cc)

cleared_lem :
    (fine refused a b : Bool) (m k : GoError) (s : State)
    → ((if fine
          then pure tt
          else if refused && a
          then throw m
          else if refused && b
          then pure tt
          else throw k)
        s).0
      ≡ ok tt
    → (fine ≡ true) ⊎ ((refused ≡ true) × (b ≡ true))
unfolding pure throw
cleared_lem true refused a b m k s h = inl refl
cleared_lem false true true b m k s h = absurd (cc)
cleared_lem false true false true m k s h = inr (refl, refl)
cleared_lem false true false false m k s h = absurd (cc)
cleared_lem false false a b m k s h = absurd (cc)

module _ (env : Env) where
  only_ready :
      (ready : Bool) (m : Exec GoError ClusterInfo) (info : ClusterInfo) (s : State)
      → ((if ready then m else throw retry_reconciliation) s).0 ≡ ok info
      → ready ≡ true
  unfolding throw
  only_ready true m info s h = refl
  only_ready false m info s h = cc

  -- If reconcileMeta returns the cluster's information, the storage was said to be all ready, and
  -- the last call asked the master broker for the cluster that the resource names and was answered
  -- with this information.
  pub reconcile_meta-ok :
      (master : String) (replicas : List String) (l : List ServerProxyMeta) (cr : Undermoon)
      (ready : Bool) (info : ClusterInfo) (s : State)
      → (reconcile_meta env master replicas l cr ready s).0 ≡ ok info
      → (ready ≡ true)
        × InfoRead env master cr.spec.cluster_name info
            (reconcile_meta env master replicas l cr ready s).1.calls
  unfolding reconcile_meta
  reconcile_meta-ok master replicas l cr ready info s h =
      let a = bind-Ran (set_broker_replicas env master replicas) _ s info h in
      let b =
        bind-Ran (reconcile_server_proxy_registry env master l cr) _
          (set_broker_replicas env master replicas s).1 info a.rest in
      (
        only_ready ready _ info _ b.rest,
        (reconcile_meta-InfoRead env {P = λ _. Unit {0}} master replicas l cr ready).at s tt info h,
      )

  module _ (master : String) (cr : Undermoon) where
    abbrev scale : Exec GoError (Unit {0})
    scale = Client.scale_nodes env master cr.spec.cluster_name cr.spec.chunk_number

    abbrev remove : Exec GoError (Unit {0})
    remove = Client.remove_free_nodes env master cr.spec.cluster_name

    abbrev pub scale_call : Call
    scale_call =
        request post
          (scale_url master cr.spec.cluster_name (cr.spec.chunk_number * chunk_node_number)) empty

    abbrev pub remove_call : Call
    remove_call = request delete (free_nodes_url master cr.spec.cluster_name) empty

    abbrev scale_request : HttpRequest
    scale_request = record {
      method = post;
      url = scale_url master cr.spec.cluster_name (cr.spec.chunk_number * chunk_node_number);
      payload = empty;
    }

    abbrev remove_request : HttpRequest
    remove_request = record {
      method = delete;
      url = free_nodes_url master cr.spec.cluster_name;
      payload = empty;
    }

    -- The broker removed the free nodes, or said that there were none.
    abbrev pub IsCleared : HttpResponse → Type 0
    IsCleared res =
        (res.status_code ≡ 200)
        ⊎ (((res.status_code ≡ 404) ⊎ (res.status_code ≡ 409))
            × (env.result_error res ≡ some "FREE_NODE_NOT_FOUND"))

    -- The broker accepted to scale, and is left without free nodes; these are the calls made.
    pub record Scaled (m : Exec GoError (Unit {0})) (s : State) : Type 0 where
      pub accepted :
          (res : HttpResponse) × (env.on_http s.calls scale_request ≡ ok res)
          × (res.status_code ≡ 200)
      pub cleared :
          (res : HttpResponse) × (env.on_http (scale_call ∷ s.calls) remove_request ≡ ok res)
          × IsCleared res
      pub traced : (m s).1.calls ≡ remove_call ∷ scale_call ∷ s.calls

    scale-ok :
        (s : State)
        → (scale s).0 ≡ ok tt
        → (res : HttpResponse) × (env.on_http s.calls scale_request ≡ ok res)
          × (res.status_code ≡ 200)
    unfolding Client.scale_nodes ◌>>=◌
    scale-ok s h = elim (Result-cases (env.on_http s.calls scale_request)) [
      | inl (res, e) ↦ (
        res,
        e,
        let refused = eqb res.status_code 409 || eqb res.status_code 400 in
            let f =
              accepted_lem (eqb res.status_code 200)
                (refused && has_error (env.result_error res) "MIGRATION_RUNNING")
                (refused && has_error (env.result_error res) "FREE_NODE_FOUND") migration_running
                free_node_found (bad_content "Failed to change node number" res)
                (record s { calls = scale_call ∷ s.calls }) (rw e at h) in
            ground (arith, f),
      )
      | inr (x, e) ↦ let g = rw e at h in absurd (cc)
    ]

    cleared_of :
        (res : HttpResponse)
        → (eqb res.status_code 200 ≡ true)
          ⊎ ((eqb res.status_code 404 || eqb res.status_code 409 ≡ true)
              × (has_error (env.result_error res) "FREE_NODE_NOT_FOUND" ≡ true))
        → IsCleared res
    cleared_of res (inl p) = inl (ground (arith, p))
    cleared_of res (inr (p, q)) =
        inr (ground (arith, p), (has_error_iff (env.result_error res) "FREE_NODE_NOT_FOUND").0 q)

    remove-ok :
        (s : State)
        → (remove s).0 ≡ ok tt
        → (res : HttpResponse) × (env.on_http s.calls remove_request ≡ ok res) × IsCleared res
    unfolding Client.remove_free_nodes ◌>>=◌
    remove-ok s h = elim (Result-cases (env.on_http s.calls remove_request)) [
      | inl (res, e) ↦ (
        res,
        e,
        let refused = eqb res.status_code 404 || eqb res.status_code 409 in
            cleared_of res (
              cleared_lem (eqb res.status_code 200) refused
                (has_error (env.result_error res) "MIGRATION_RUNNING")
                (has_error (env.result_error res) "FREE_NODE_NOT_FOUND") migration_running
                (bad_content "Failed to remove free nodes" res)
                (record s { calls = remove_call ∷ s.calls }) (rw e at h)),
      )
      | inr (x, e) ↦ let g = rw e at h in absurd (cc)
    ]

    abbrev end : Bool → Exec GoError (Unit {0})
    end retry = if retry then throw retry_reconciliation else pure tt

    end_lem :
        (retry : Bool) (t : State)
        → (end retry t).0 ≡ ok tt
        → (retry ≡ false) × ((end retry t).1.calls ≡ t.calls)
    unfolding pure throw
    end_lem true t h = absurd (cc)
    end_lem false t h = (refl, refl)

    remove_nodes-ok :
        (retry : Bool) (s : State)
        → (remove_nodes env master cr retry s).0 ≡ ok tt
        → (retry ≡ false)
          × ((remove s).0 ≡ ok tt)
          × ((remove_nodes env master cr retry s).1.calls ≡ remove_call ∷ s.calls)
    unfolding remove_nodes
    remove_nodes-ok retry s h =
        let a = bind-Ran (map_error retry_if_migrating remove) (λ _. end retry) s tt h in
        let (kept, quiet) = end_lem retry _ a.rest in
        (
          kept,
          (map_error-Ran retry_if_migrating remove s tt a.first).0,
          ap (λ (t : Result GoError (Unit {0}) × State). t.1.calls) a.whole
              ∙ (quiet
                  ∙ ap (λ (t : State). t.calls)
                      ((map_error-Ran retry_if_migrating remove s tt a.first).1
                        ∙ (remove_free_nodes-Asks env master cr.spec.cluster_name).at s)),
        )

    after_scale-ok :
        (r : Result GoError (Unit {0})) (s : State)
        → (after_scale env master cr r s).0 ≡ ok tt
        → (r ≡ ok tt)
          × ((remove s).0 ≡ ok tt)
          × ((after_scale env master cr r s).1.calls ≡ remove_call ∷ s.calls)
    unfolding after_scale throw
    after_scale-ok (ok x) s h = let (p, q, c) = remove_nodes-ok false s h in (refl, q, c)
    after_scale-ok (err free_node_found) s h =
        let (p, q, c) = remove_nodes-ok true s h in absurd (cc)
    after_scale-ok (err retry_reconciliation) s h = absurd (cc)
    after_scale-ok (err migration_running) s h = absurd (cc)
    after_scale-ok (err (failed m)) s h = absurd (cc)
    after_scale-ok (err (remote e)) s h = absurd (cc)

    change_node_number-ok :
        (s : State)
        → (change_node_number env master cr s).0 ≡ ok tt
        → Scaled (change_node_number env master cr) s
    unfolding change_node_number ◌>>=◌
    change_node_number-ok s h =
        let (r, t) = scale s in
        let asked = (scale_nodes-Asks env master cr.spec.cluster_name cr.spec.chunk_number).at s in
        let (p, q, c) = after_scale-ok r t h in
        record {
          accepted = scale-ok s p;
          cleared = remove-ok (record s { calls = scale_call ∷ s.calls }) (rw asked at q);
          traced = c ∙ ap (λ (u : State). remove_call ∷ u.calls) asked;
        }

    -- If changeMeta succeeds, the information says that no migration is running, the broker
    -- answered first the request to scale to four nodes a chunk with the status 200, and then the
    -- one to remove the free nodes with the status 200, or with 404 or 409 and the error code
    -- FREE_NODE_NOT_FOUND; and these are the two calls made.
    pub change_meta-ok :
        (info : ClusterInfo) (s : State)
        → (change_meta env master cr info s).0 ≡ ok tt
        → (info.is_migrating ≡ false) × Scaled (change_meta env master cr info) s
    unfolding change_meta map_error throw
    change_meta-ok info s h = elim (Bool-cases info.is_migrating) [
      | inl runs ↦ let g = rw runs at h in absurd (cc)
      | inr idle ↦
          let g =
            (map_error-Ran retry_if_migrating (change_node_number env master cr) s tt
              (rw idle at h)).0 in
          let d = change_node_number-ok s g in
          (idle, record { accepted = d.accepted; cleared = d.cleared; traced = rw idle d.traced })
    ]
