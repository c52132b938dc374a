-- ===== src/BrokerClient/Creation.antt =====
-- Which replies make createCluster of broker_client.go ask for a retry.
use undermoon_operator_old.BrokerClient as Client
use undermoon_operator_old.BrokerClient.{bad_content, cluster_url, has_error}
use undermoon_operator_old.BrokerClient.Replies.{has_error_iff, reply, reply_iff}
use undermoon_operator_old.Common.{
  Bool, String, arith, eqb, false, if◌then◌else◌, inl, inr, some, true, ℕ, ◌&&◌, ◌*◌, ◌↔◌, ◌∷◌, ◌≡◌,
  ◌≢◌,
}
use undermoon_operator_old.Exec.{Exec, State, pure, throw, ◌>>=◌}
use undermoon_operator_old.Go.{GoError, Result-cases, err, ok, retry_reconciliation}
use undermoon_operator_old.Names.Storage.{chunk_node_number}
use undermoon_operator_old.World.{Call, Env, HttpRequest, HttpResponse, node_number, post}

module _ (env : Env) (address cluster : String) (n : ℕ) (s : State) where
  abbrev pub create_request : HttpRequest
  create_request = record {
    method = post;
    url = cluster_url address cluster;
    payload = node_number (n * chunk_node_number);
  }

  -- The broker's answer has this status and this error code.
  abbrev pub IsAnswered : ℕ → String → Type 0
  IsAnswered status code =
      (res : HttpResponse) × (env.on_http s.calls create_request ≡ ok res)
      × (res.status_code ≡ status)
      × (env.result_error res ≡ some code)

  abbrev sent : State
  sent = record s { calls = Call.http create_request ∷ s.calls }

  abbrev existed : HttpResponse → Exec GoError (Unit {0})
  existed res =
      if eqb res.status_code 409 && has_error (env.result_error res) "ALREADY_EXISTED"
      then pure tt
      else throw (bad_content "Failed to register server proxy" res)

  no_retry :
      (b : Bool) (res : HttpResponse)
      → ((if b then pure tt else throw (bad_content "Failed to register server proxy" res)) sent).0
        ≢ err retry_reconciliation
  unfolding pure throw bad_content
  no_retry true res h = cc
  no_retry false res h = cc

  answer_iff :
      (res : HttpResponse)
      → ((reply retry_reconciliation
            (eqb res.status_code 200)
            (eqb res.status_code 409 && has_error (env.result_error res) "NO_AVAILABLE_RESOURCE")
            (existed res)
            sent).0
          ≡ err retry_reconciliation)
        ↔ ((res.status_code ≡ 409) × (env.result_error res ≡ some "NO_AVAILABLE_RESOURCE"))
  answer_iff res =
      let (to, from) =
        reply_iff retry_reconciliation (eqb res.status_code 200)
          (eqb res.status_code 409 && has_error (env.result_error res) "NO_AVAILABLE_RESOURCE")
          (existed res) sent
          (no_retry (eqb res.status_code 409 && has_error (env.result_error res) "ALREADY_EXISTED")
            res) in
      let code = has_error_iff (env.result_error res) "NO_AVAILABLE_RESOURCE" in
      (
        (λ h. let (f, g) = to h in (ground (arith, g), code.0 (ground (arith, g)))),
        (λ (b, c). from (ground (arith, b), ground (arith, b, code.1 c))),
      )

  -- createCluster asks for a retry exactly when the broker answers its request with the status 409
  -- and the error code NO_AVAILABLE_RESOURCE.
  pub create_cluster-retry_reconciliation :
      ((Client.create_cluster env address cluster n s).0 ≡ err retry_reconciliation)
      ↔ IsAnswered 409 "NO_AVAILABLE_RESOURCE"
  unfolding Client.create_cluster ◌>>=◌
  create_cluster-retry_reconciliation = (
    λ h. elim (Result-cases (env.on_http s.calls create_request)) [
      | inl (res, e) ↦ let (b, c) = (answer_iff res).0 (rw e at h) in (res, e, b, c)
      | inr (x, e) ↦ let g = rw e at h in absurd (cc)
    ],
    λ (res, e, b, c). rw e ((answer_iff res).1 (b, c)),
  )
