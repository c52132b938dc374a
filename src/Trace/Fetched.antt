-- ===== src/Trace/Fetched.antt =====
-- What the guarded creations of the storage return (utils.go, storage_controller.go).
use undermoon_operator_old.Common.{refl, ◌∷◌, ◌≡◌}
use undermoon_operator_old.Exec.{attempt, convert, of_remote, perform, State, ◌>>=◌}
use undermoon_operator_old.Exec.Triples.{ok-convert, Triple, Triple-bind, Triple-imp}
use undermoon_operator_old.Go.{err, GoError, not_found, ok, RemoteError, Result}
use undermoon_operator_old.Kube.{Service, StatefulSet, Undermoon}
use undermoon_operator_old.Resources.Storage.{create_storage_service, create_storage_stateful_set}
use undermoon_operator_old.Trace.{
  created, created_service, IsFetched, IsFetchedService, IsStorageService, IsStorageSet, read,
  read_service,
}
use undermoon_operator_old.Utils.{
  create_service_guard, create_stateful_set_guard, found_or_created_service,
  found_or_created_stateful_set, get_or_create_service, get_or_create_stateful_set, key,
}
use undermoon_operator_old.World.{Call, Env}
use undermoon_operator_old.Api
use undermoon_operator_old.Trace.Creation.{rounds-Triple}

module _ (env : Env) where
  -- What the code has after a Get and perhaps a Create is what the last of them answered.
  found_or_created_stateful_set-IsFetched :
      (ss found : StatefulSet) (s : State) (r : Result RemoteError StatefulSet)
      → env.on_get_stateful_set s.calls (key ss.metadata) ≡ r
      → let s' = record s { calls = Call.get_stateful_set (key ss.metadata) ∷ s.calls } in
        let end = found_or_created_stateful_set env ss (convert GoError.remote r) s' in
        end.0 ≡ ok found → IsFetched env ss found end.1.calls
  unfolding found_or_created_stateful_set perform ◌>>=◌
  found_or_created_stateful_set-IsFetched ss found s (ok x) e h =
      read s.calls refl (rw e (ok-convert (ok x) found h))
  found_or_created_stateful_set-IsFetched ss found s (err not_found) e h =
      created _ refl (ok-convert _ found h)
  found_or_created_stateful_set-IsFetched ss found s (err _) e h = cc

  found_or_created_service-IsFetched :
      (object found : Service) (s : State) (r : Result RemoteError Service)
      → env.on_get_service s.calls (key object.metadata) ≡ r
      → let s' = record s { calls = Call.get_service (key object.metadata) ∷ s.calls } in
        let end = found_or_created_service env object (convert GoError.remote r) s' in
        end.0 ≡ ok found → IsFetchedService env object found end.1.calls
  unfolding found_or_created_service perform ◌>>=◌
  found_or_created_service-IsFetched object found s (ok x) e h =
      read_service s.calls refl (rw e (ok-convert (ok x) found h))
  found_or_created_service-IsFetched object found s (err not_found) e h =
      created_service _ refl (ok-convert _ found h)
  found_or_created_service-IsFetched object found s (err _) e h = cc

  of_remote-ok :
      {A : Type 0} {P : State → Type 0} (r : Result RemoteError A)
      → Triple P (of_remote r) (λ a _. r ≡ ok a)
  unfolding of_remote
  of_remote-ok r = record { at = λ s p a e. ok-convert r a e }

  fetched_set :
      (object ss : StatefulSet) (cr : Undermoon)
      → Triple
          (λ _. env.refer_stateful_set cr object ≡ ok ss)
          (attempt (Api.get_stateful_set env (key ss.metadata))
            >>= found_or_created_stateful_set env ss)
          (λ found s.
            (o : StatefulSet) × (env.refer_stateful_set cr object ≡ ok o)
            × IsFetched env o found s.calls)
  unfolding ◌>>=◌
  fetched_set object ss cr = record {
    at = λ s p found e. (
      ss,
      p,
      found_or_created_stateful_set-IsFetched ss found s
          (env.on_get_stateful_set s.calls (key ss.metadata)) refl e,
    );
  }

  fetched_service :
      (object service : Service) (cr : Undermoon)
      → Triple
          (λ _. env.refer_service cr object ≡ ok service)
          (attempt (Api.get_service env (key service.metadata))
            >>= found_or_created_service env service)
          (λ found s.
            (o : Service) × (env.refer_service cr object ≡ ok o)
            × IsFetchedService env o found s.calls)
  unfolding ◌>>=◌
  fetched_service object service cr = record {
    at = λ s p found e. (
      service,
      p,
      found_or_created_service-IsFetched service found s
          (env.on_get_service s.calls (key service.metadata)) refl e,
    );
  }

  get_or_create_stateful_set-IsStorageSet :
      {P : State → Type 0} (cr : Undermoon)
      → Triple P
          (get_or_create_stateful_set env cr (create_storage_stateful_set cr))
          (λ found s. IsStorageSet env cr found s.calls)
  unfolding get_or_create_stateful_set
  get_or_create_stateful_set-IsStorageSet cr =
      Triple-imp _
        (Triple-bind _ _ (of_remote-ok _)
          (λ ss. fetched_set (create_storage_stateful_set cr) ss cr))
        (λ found s (o, p, f). record { object = o; owned = p; fetched = f })

  get_or_create_service-IsStorageService :
      {P : State → Type 0} (cr : Undermoon)
      → Triple P
          (get_or_create_service env cr (create_storage_service cr))
          (λ found s. IsStorageService env cr found s.calls)
  unfolding get_or_create_service
  get_or_create_service-IsStorageService cr =
      Triple-imp _
        (Triple-bind _ _ (of_remote-ok _) (λ v. fetched_service (create_storage_service cr) v cr))
        (λ found s (o, p, f). record { object = o; owned = p; fetched = f })

  -- What the guards return was read or created by the last call.
  pub guard-IsStorageSet :
      {P : State → Type 0} (cr : Undermoon)
      → Triple P
          (create_stateful_set_guard
            (get_or_create_stateful_set env cr (create_storage_stateful_set cr)))
          (λ found s. IsStorageSet env cr found s.calls)
  unfolding create_stateful_set_guard
  guard-IsStorageSet {P} cr =
      rounds-Triple 2 P (get_or_create_stateful_set env cr (create_storage_stateful_set cr))
        (λ R. get_or_create_stateful_set-IsStorageSet cr)

  pub guard-IsStorageService :
      {P : State → Type 0} (cr : Undermoon)
      → Triple P
          (create_service_guard (get_or_create_service env cr (create_storage_service cr)))
          (λ found s. IsStorageService env cr found s.calls)
  unfolding create_service_guard
  guard-IsStorageService {P} cr =
      rounds-Triple 2 P (get_or_create_service env cr (create_storage_service cr))
        (λ R. get_or_create_service-IsStorageService cr)
