-- ===== src/Trace/Creation.antt =====
-- Creations, and the guards of utils.go around them.
use undermoon_operator_old.Common.{List, refl, String, suc, zero, ℕ, ◌∷◌, ◌≡◌}
use undermoon_operator_old.Exec.{attempt, convert, Exec, perform, State, ◌>>=◌}
use undermoon_operator_old.Exec.Rules.{
  Keeps, Keeps-attempt, Keeps-bind, Keeps-of_remote, keeps_rules,
}
use undermoon_operator_old.Exec.Triples.{
  Triple, Triple-attempt, Triple-bind, Triple-if, Triple-pure, Triple-throw,
}
use undermoon_operator_old.Go.{err, GoError, is_already_exists, not_found, ok, RemoteError, Result}
use undermoon_operator_old.Kube.{EndpointAddress, Service, StatefulSet, Undermoon}
use undermoon_operator_old.Trace.{IsValid, Justified}
use undermoon_operator_old.Utils.{
  create_service_guard, create_stateful_set_guard, endpoints_or_none, found_or_created_service,
  found_or_created_stateful_set, get_endpoints, get_or_create_service, get_or_create_stateful_set,
  key, rounds, settle,
}
use undermoon_operator_old.World.{Call, Env, History}

-- A call that needs no justification, or has it whatever came before.
pub perform-IsValid :
    (env : Env) {A : Type 0} (c : Call) (answer : History → Result RemoteError A)
    → ((h : History) → Justified env c h)
    → Keeps (IsValid env) (perform c answer)
unfolding perform
perform-IsValid env c answer j = record { at = λ s v. (j s.calls, v) }

module _ {A : Type 0} {P : State → Type 0} where
  settle-Keeps :
      (r : Result GoError A) (again : Exec GoError A) → Keeps P again → Keeps P (settle r again)
  settle-Keeps (ok a) again k = search keeps_rules
  settle-Keeps (err e) again k = search keeps_rules

  pub rounds-Keeps : (n : ℕ) (create : Exec GoError A) → Keeps P create → Keeps P (rounds n create)
  unfolding rounds
  rounds-Keeps zero create k = k
  rounds-Keeps (suc n) create k =
      Keeps-bind (attempt create) (λ r. settle r (rounds n create)) (Keeps-attempt create k)
        (λ r. settle-Keeps r (rounds n create) (rounds-Keeps n create k))

module _ (env : Env) where
  pub endpoints_or_none-Keeps :
      {P : State → Type 0} (r : Result GoError (List EndpointAddress))
      → Keeps P (endpoints_or_none env r)
  unfolding endpoints_or_none
  endpoints_or_none-Keeps (ok addresses) = search keeps_rules
  endpoints_or_none-Keeps (err e) = search keeps_rules

  found_or_created_service-IsValid :
      (service : Service) (s : State) (r : Result RemoteError Service)
      → IsValid env s
      → env.on_get_service s.calls (key service.metadata) ≡ r
      → IsValid env
          (found_or_created_service env service
            (convert GoError.remote r)
            (record s { calls = Call.get_service (key service.metadata) ∷ s.calls })).1
  unfolding found_or_created_service perform ◌>>=◌
  found_or_created_service-IsValid service s (ok found) v e = (tt, v)
  found_or_created_service-IsValid service s (err not_found) v e =
      (record { before = s.calls; asked = refl; missing = e }, (tt, v))
  found_or_created_service-IsValid service s (err _) v e = (tt, v)

  pub get_or_create_service-IsValid :
      (cr : Undermoon) (object : Service)
      → Keeps (IsValid env) (get_or_create_service env cr object)
  unfolding get_or_create_service
  get_or_create_service-IsValid cr object = Keeps-bind _ _ (Keeps-of_remote _) (λ service. record {
    at = λ s v.
        unfold ◌>>=◌ in
        found_or_created_service-IsValid service s
          (env.on_get_service s.calls (key service.metadata)) v refl;
  })

  found_or_created_stateful_set-IsValid :
      (ss : StatefulSet) (s : State) (r : Result RemoteError StatefulSet)
      → IsValid env s
      → env.on_get_stateful_set s.calls (key ss.metadata) ≡ r
      → IsValid env
          (found_or_created_stateful_set env ss
            (convert GoError.remote r)
            (record s { calls = Call.get_stateful_set (key ss.metadata) ∷ s.calls })).1
  unfolding found_or_created_stateful_set perform ◌>>=◌
  found_or_created_stateful_set-IsValid ss s (ok found) v e = (tt, v)
  found_or_created_stateful_set-IsValid ss s (err not_found) v e =
      (record { before = s.calls; asked = refl; missing = e }, (tt, v))
  found_or_created_stateful_set-IsValid ss s (err _) v e = (tt, v)

  pub get_or_create_stateful_set-IsValid :
      (cr : Undermoon) (object : StatefulSet)
      → Keeps (IsValid env) (get_or_create_stateful_set env cr object)
  unfolding get_or_create_stateful_set
  get_or_create_stateful_set-IsValid cr object = Keeps-bind _ _ (Keeps-of_remote _) (λ ss. record {
    at = λ s v.
        unfold ◌>>=◌ in
        found_or_created_stateful_set-IsValid ss s
          (env.on_get_stateful_set s.calls (key ss.metadata)) v refl;
  })

  pub get_endpoints-IsValid :
      (name namespace : String) → Keeps (IsValid env) (get_endpoints env name namespace)
  unfolding get_endpoints
  get_endpoints-IsValid name namespace =
      search (
        keeps_rules,
        perform-IsValid env (Call.get_endpoints _) _ (λ h. tt),
        endpoints_or_none-Keeps,
      )

module _ {A : Type 0} {Q : A → State → Type 0} where
  settle-Triple :
      {P : State → Type 0} (r : Result GoError A) (again : Exec GoError A)
      → ((s : State) → P s → (a : A) → r ≡ ok a → Q a s)
      → Triple P again Q
      → Triple P (settle r again) Q
  settle-Triple (ok a) again h t = Triple-pure a (λ s p. h s p a refl)
  settle-Triple (err e) again h t =
      Triple-if (is_already_exists e) again _ (λ _. t) (λ _. Triple-throw e)

  -- What every creation ensures, the guarded one ensures.
  pub rounds-Triple :
      (n : ℕ) (P : State → Type 0) (create : Exec GoError A)
      → ((R : State → Type 0) → Triple R create Q)
      → Triple P (rounds n create) Q
  unfolding rounds
  rounds-Triple zero P create t = t P
  rounds-Triple (suc n) P create t = Triple-bind _ _ (Triple-attempt create (t P)) (λ r.
      settle-Triple r (rounds n create) (λ s p. p)
        (rounds-Triple n (λ s. (a : A) → r ≡ ok a → Q a s) create t))

module _ {P : State → Type 0} where
  pub create_service_guard-Keeps :
      (create : Exec GoError Service) → Keeps P create → Keeps P (create_service_guard create)
  unfolding create_service_guard
  create_service_guard-Keeps create k = rounds-Keeps 2 create k

  pub create_stateful_set_guard-Keeps :
      (create : Exec GoError StatefulSet)
      → Keeps P create
      → Keeps P (create_stateful_set_guard create)
  unfolding create_stateful_set_guard
  create_stateful_set_guard-Keeps create k = rounds-Keeps 2 create k
