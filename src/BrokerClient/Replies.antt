-- ===== src/BrokerClient/Replies.antt =====
-- Which replies of the broker become the sentinels of broker_client.go.
use undermoon_operator_old.BrokerClient as Client
use undermoon_operator_old.BrokerClient.{bad_content, cluster_url, has_error, scale_url}
use undermoon_operator_old.Common.{
  ap, arith, Bool, eq_iff, eqb, false, if◌then◌else◌, inl, inr, none, Option, refl, some, String,
  true, ℕ, ◌&&◌, ◌*◌, ◌||◌, ◌↔◌, ◌∷◌, ◌≡◌, ◌≢◌, ◌⊎◌,
}
use undermoon_operator_old.Exec.{Exec, pure, State, throw, ◌>>=◌}
use undermoon_operator_old.Go.{Result-cases, err, free_node_found, GoError, migration_running, ok}
use undermoon_operator_old.Names.Storage.{chunk_node_number}
use undermoon_operator_old.World.{Call, empty, Env, HttpRequest, HttpResponse, post}

pub has_error_iff :
    (o : Option String) (code : String) → (has_error o code ≡ true) ↔ (o ≡ some code)
unfolding has_error
has_error_iff none code = ((λ h. cc), (λ h. cc))
has_error_iff (some e) code =
    ((λ h. ap some ((eq_iff e code).0 h)), (λ h. (eq_iff e code).1 (ground (arith, h))))

-- The shape of the tests of a reply: `e` is the sentinel of the signal.
abbrev pub reply : GoError → Bool → Bool → Exec GoError (Unit {0}) → Exec GoError (Unit {0})
reply e fine signal rest = if fine then pure tt else if signal then throw e else rest

pub reply_iff :
    (e : GoError) (fine signal : Bool) (rest : Exec GoError (Unit {0})) (s : State)
    → (rest s).0 ≢ err e
    → ((reply e fine signal rest s).0 ≡ err e) ↔ ((fine ≡ false) × (signal ≡ true))
unfolding pure throw
reply_iff e true signal rest s n = ((λ h. cc), (λ h. cc))
reply_iff e false true rest s n = ((λ h. (refl, refl)), (λ h. refl))
reply_iff e false false rest s n = ((λ h. absurd (n h)), (λ h. cc))

module _ (env : Env) (address cluster : String) (n : ℕ) (s : State) where
  abbrev pub scale_request : HttpRequest
  scale_request = record {
    method = post;
    url = scale_url address cluster (n * chunk_node_number);
    payload = empty;
  }

  -- The broker's answer is a refusal of this code.
  abbrev pub Refused : (HttpResponse → Type 0) → String → HttpRequest → Type 0
  Refused status code request =
      (res : HttpResponse) × (env.on_http s.calls request ≡ ok res)
      × status res
      × (env.result_error res ≡ some code)

  abbrev pub IsRefusal : HttpResponse → Type 0
  IsRefusal res = (res.status_code ≡ 409) ⊎ (res.status_code ≡ 400)

  -- scaleNodes
  abbrev refused : HttpResponse → Bool
  refused res = eqb res.status_code 409 || eqb res.status_code 400

  no_signal :
      (b : Bool) (e : GoError) (t : State)
      → e ≢ migration_running
      → ((if b then throw {A = Unit {0}} free_node_found else throw e) t).0 ≢ err migration_running
  unfolding throw
  no_signal true e t n h = cc
  no_signal false e t n h = n (let p : e ≡ migration_running = cc in p)

  refused_iff :
      (res : HttpResponse)
      → ((eqb res.status_code 200 ≡ false) × (refused res ≡ true)) ↔ IsRefusal res
  refused_iff res = ground arith

  abbrev failure : HttpResponse → GoError
  failure res = bad_content "Failed to change node number" res

  not_migration : (m : String) (res : HttpResponse) → bad_content m res ≢ migration_running
  unfolding bad_content
  not_migration m res h = cc

  abbrev sent : State
  sent = record s { calls = Call.http scale_request ∷ s.calls }

  abbrev answer : HttpResponse → Exec GoError (Unit {0})
  answer res =
      reply migration_running (eqb res.status_code 200)
        (refused res && has_error (env.result_error res) "MIGRATION_RUNNING")
        (if refused res && has_error (env.result_error res) "FREE_NODE_FOUND"
          then throw free_node_found
          else throw (failure res))

  answer_iff :
      (res : HttpResponse)
      → ((answer res sent).0 ≡ err migration_running)
        ↔ (IsRefusal res × (env.result_error res ≡ some "MIGRATION_RUNNING"))
  answer_iff res =
      let signal =
        reply_iff migration_running (eqb res.status_code 200)
          (refused res && has_error (env.result_error res) "MIGRATION_RUNNING")
          (if refused res && has_error (env.result_error res) "FREE_NODE_FOUND"
            then throw free_node_found
            else throw (failure res))
          sent
          (no_signal (refused res && has_error (env.result_error res) "FREE_NODE_FOUND")
            (failure res) sent (not_migration _ res)) in
      let code = has_error_iff (env.result_error res) "MIGRATION_RUNNING" in
      (
        (λ h.
            let (f, g) = signal.0 h in
            ((refused_iff res).0 (f, ground (arith, g)), code.0 (ground (arith, g)))),
        (λ (b, c). let (f, g) = (refused_iff res).1 b in signal.1 (f, ground (arith, g, code.1 c))),
      )

  -- scaleNodes returns errMigrationRunning exactly when the broker answers its request with the
  -- status 409 or 400 and the error code MIGRATION_RUNNING.
  pub scale_nodes-migration_running :
      ((Client.scale_nodes env address cluster n s).0 ≡ err migration_running)
      ↔ Refused IsRefusal "MIGRATION_RUNNING" scale_request
  unfolding Client.scale_nodes ◌>>=◌
  scale_nodes-migration_running = (
    λ h. elim (Result-cases (env.on_http s.calls scale_request)) [
      | inl (res, e) ↦ let (b, c) = (answer_iff res).0 (rw e at h) in (res, e, b, c)
      | inr (x, e) ↦ let g = rw e at h in absurd (cc)
    ],
    λ (res, e, b, c). rw e ((answer_iff res).1 (b, c)),
  )
