-- ===== src/Utils/Creation.antt =====
-- What getEndpoints returns, and what the guards of utils.go make of a race.

use undermoon_operator_old.Common.{
  [], ap, arith, Bool, if◌then◌else◌, List, refl, String, suc, ℕ, ◌++◌, ◌+◌, ◌∙◌, ◌∷◌, ◌≡◌,
}
use undermoon_operator_old.Exec.{attempt, convert, from_result, pure, State, ◌>>=◌}
use undermoon_operator_old.Go.{
  already_exists, err, GoError, not_found, ok, remote, RemoteError, Result,
}
use undermoon_operator_old.Kube.{EndpointAddress, Endpoints, NamespacedName, Service, Undermoon}
use undermoon_operator_old.Utils.{
  addresses_of_subsets, create_service_guard, endpoints_or_none, found_or_created_service,
  get_endpoints, get_or_create_service, key, rounds,
}
use undermoon_operator_old.World.{Call, Env, History}

-- No endpoints object is no pods.
abbrev pub located : Result RemoteError Endpoints → Result GoError (List EndpointAddress)
located (ok endpoints) = ok (addresses_of_subsets endpoints.subsets)
located (err not_found) = ok []
located (err e) = err (remote e)

located_lem :
    (env : Env) (r : Result RemoteError Endpoints) (s : State)
    → (attempt (from_result (convert remote r) >>= λ e. pure (addresses_of_subsets e.subsets))
          >>= endpoints_or_none env)
        s
      ≡ (located r, s)
unfolding endpoints_or_none ◌>>=◌
located_lem env (ok endpoints) s = refl
located_lem env (err not_found) s = refl
located_lem env (err _) s = refl

-- getEndpoints makes one call, a Get of the service's endpoints: it returns the addresses of all
-- their subsets, none where the object is not found, and any other error as it is.
pub get_endpoints_lem :
    (env : Env) (name namespace : String) (s : State)
    → let k : NamespacedName = record { name = name; namespace = namespace } in
      get_endpoints env name namespace s ≡ (
        located (env.on_get_endpoints s.calls k),
        record s { calls = Call.get_endpoints k ∷ s.calls },
      )
unfolding get_endpoints ◌>>=◌
get_endpoints_lem env name namespace s = located_lem env (env.on_get_endpoints s.calls _) _

-- How many addresses of a list pass a test, and of all subsets together.
abbrev pub count : (EndpointAddress → Bool) → List EndpointAddress → ℕ
count test [] = 0
count test (e ∷ l) = let rest = count test l in if test e then suc rest else rest

abbrev pub total : (EndpointAddress → Bool) → List (List EndpointAddress) → ℕ
total test [] = 0
total test (subset ∷ subsets) = count test subset + total test subsets

count-append :
    (test : EndpointAddress → Bool) (l m : List EndpointAddress)
    → count test (l ++ m) ≡ count test l + count test m
count-append test [] m = omega arith
count-append test (e ∷ l) m = ground (arith, count-append test l m)

count-addresses_of_subsets :
    (test : EndpointAddress → Bool) (subsets : List (List EndpointAddress))
    → count test (addresses_of_subsets subsets) ≡ total test subsets
unfolding addresses_of_subsets
count-addresses_of_subsets test [] = refl
count-addresses_of_subsets test (subset ∷ subsets) =
    count-append test subset (addresses_of_subsets subsets)
    ∙ ap (λ n. count test subset + n) (count-addresses_of_subsets test subsets)

-- If the Get of the service's endpoints is answered, getEndpoints returns their addresses: of
-- these, any test passes as many as it passes in all subsets together.
pub count-get_endpoints :
    (env : Env) (name namespace : String) (s : State) (endpoints : Endpoints)
    → env.on_get_endpoints s.calls (record { name = name; namespace = namespace }) ≡ ok endpoints
    → (pods : List EndpointAddress) × ((get_endpoints env name namespace s).0 ≡ ok pods)
      × ((test : EndpointAddress → Bool) → count test pods ≡ total test endpoints.subsets)
count-get_endpoints env name namespace s endpoints answered = (
  addresses_of_subsets endpoints.subsets,
  ap (λ t. t.0) (get_endpoints_lem env name namespace s) ∙ ap located answered,
  λ test. count-addresses_of_subsets test endpoints.subsets,
)

module _ (env : Env) (cr : Undermoon) (object service : Service) where
  abbrev asked : History → History
  asked h = Call.get_service (key service.metadata) ∷ h

  abbrev created : History → History
  created h = Call.create_service service ∷ asked h

  service_found :
      (found : Service) (s : State)
      → env.refer_service cr object ≡ ok service
      → env.on_get_service s.calls (key service.metadata) ≡ ok found
      → get_or_create_service env cr object s ≡ (ok found, record s { calls = asked s.calls })
  unfolding get_or_create_service found_or_created_service ◌>>=◌
  service_found found s r g = rw (r, g) refl

  service_lost :
      (e : RemoteError) (s : State)
      → env.refer_service cr object ≡ ok service
      → env.on_get_service s.calls (key service.metadata) ≡ err not_found
      → env.on_create_service (asked s.calls) service ≡ err e
      → get_or_create_service env cr object s
        ≡ (err (remote e), record s { calls = created s.calls })
  unfolding get_or_create_service found_or_created_service ◌>>=◌
  service_lost e s r g c = rw (r, g) (rw c refl)

  -- If the service can be given its owner, is not found, is reported to exist already when it is
  -- created, and is found at the next Get, the guard returns the one found after these three
  -- calls: a client that creates it in between does no harm.
  pub create_service_guard-race :
      (found : Service) (s : State)
      → env.refer_service cr object ≡ ok service
      → env.on_get_service s.calls (key service.metadata) ≡ err not_found
      → env.on_create_service (asked s.calls) service ≡ err already_exists
      → env.on_get_service (created s.calls) (key service.metadata) ≡ ok found
      → create_service_guard (get_or_create_service env cr object) s
        ≡ (ok found, record s { calls = asked (created s.calls) })
  unfolding create_service_guard rounds ◌>>=◌
  create_service_guard-race found s r g c g' =
      let s' : State = record s { calls = created s.calls } in
      rw (service_lost already_exists s r g c) (rw (service_found found s' r g') refl)
