-- ===== src/Utils.antt =====
-- utils.go: the guards around creations, the endpoints of a service, and the parts of pod
-- templates that the three components share. The pool of Redis clients is in `RedisPool`.
pub mod Creation
use undermoon_operator_old.Common.{
  [], Bool, false, if◌then◌else◌, List, Option, some, String, suc, true, zero, ℕ, ◌++◌, ◌∷◌,
}
use undermoon_operator_old.Exec.{attempt, Exec, of_remote, pure, throw, ◌>>=◌, ◌>>◌}
use undermoon_operator_old.Go.{
  err, GoError, is_already_exists, is_conflict, is_not_found, ok, Result,
}
use undermoon_operator_old.Kube.{
  Affinity, EndpointAddress, EnvVar, field_ref, Labels, NamespacedName, ObjectMeta, Service,
  StatefulSet, Undermoon,
}
use undermoon_operator_old.World.{Env}
use undermoon_operator_old.Api

abbrev pub settle : {A : Type 0} → Result GoError A → Exec GoError A → Exec GoError A
settle (ok a) again = pure a
settle (err e) again = if is_already_exists e then again else throw e

-- A round that is not the last goes on after an `AlreadyExists`; the last returns what it has.
unfoldable pub rounds : {A : Type 0} → ℕ → Exec GoError A → Exec GoError A
rounds zero create = create
rounds (suc left) create = do r ← attempt create; settle r (rounds left create)

-- createServiceGuard and createStatefulSetGuard: three rounds
unfoldable pub create_service_guard : Exec GoError Service → Exec GoError Service
unfolding rounds
create_service_guard create = rounds 2 create

unfoldable pub create_stateful_set_guard : Exec GoError StatefulSet → Exec GoError StatefulSet
unfolding rounds
create_stateful_set_guard create = rounds 2 create

abbrev pub key : ObjectMeta → NamespacedName
key m = record { name = m.name; namespace = m.namespace }

unfoldable pub addresses_of_subsets : List (List EndpointAddress) → List EndpointAddress
addresses_of_subsets [] = []
addresses_of_subsets (subnet ∷ subsets) = subnet ++ addresses_of_subsets subsets

unfoldable pub pod_ip_env : EnvVar
pod_ip_env = record { name = "UM_POD_IP"; source = field_ref "status.podIP" }

unfoldable pub pod_name_env : EnvVar
pod_name_env = record { name = "UM_POD_NAME"; source = field_ref "metadata.name" }

abbrev pub pod_ip_env_str : String
pod_ip_env_str = "$(UM_POD_IP)"

abbrev pub pod_name_str : String
pod_name_str = "$(UM_POD_NAME)"

-- The command that a container runs before it is stopped.
abbrev pub gen_pre_stop_hook_life_cycle : List String → Option (List String)
gen_pre_stop_hook_life_cycle cmd = some cmd

unfoldable pub gen_anti_affinity : Labels → String → String → Affinity
gen_anti_affinity labels namespace topology_key = record {
  weight = 2;
  match_labels = labels;
  namespaces = namespace ∷ [];
  topology_key = topology_key;
}

module _ (env : Env) where
  unfoldable pub endpoints_or_none :
      Result GoError (List EndpointAddress) → Exec GoError (List EndpointAddress)
  endpoints_or_none (ok addresses) = pure addresses
  endpoints_or_none (err e) = if is_not_found e then pure [] else throw e

  -- A service that has no endpoints object counts as one with no address.
  unfoldable pub get_endpoints : String → String → Exec GoError (List EndpointAddress)
  unfolding endpoints_or_none addresses_of_subsets
  get_endpoints service_name namespace = do
    r ← attempt (do
      endpoints ← Api.get_endpoints env (record { name = service_name; namespace = namespace })
      pure (addresses_of_subsets endpoints.subsets))
    endpoints_or_none r

  -- The shape that getOrCreate…Service of the three controllers share.
  unfoldable pub found_or_created_service : Service → Result GoError Service → Exec GoError Service
  found_or_created_service service (ok found) = pure found
  found_or_created_service service (err e) =
      if is_not_found e then Api.create_service env service else throw e

  unfoldable pub get_or_create_service : Undermoon → Service → Exec GoError Service
  unfolding found_or_created_service
  get_or_create_service cr object = do
    service ← of_remote (env.refer_service cr object)
    r ← attempt (Api.get_service env (key service.metadata))
    found_or_created_service service r

  unfoldable pub found_or_created_stateful_set :
      StatefulSet → Result GoError StatefulSet → Exec GoError StatefulSet
  found_or_created_stateful_set ss (ok found) = pure found
  found_or_created_stateful_set ss (err e) =
      if is_not_found e then Api.create_stateful_set env ss else throw e

  unfoldable pub get_or_create_stateful_set : Undermoon → StatefulSet → Exec GoError StatefulSet
  unfolding found_or_created_stateful_set
  get_or_create_stateful_set cr object = do
    ss ← of_remote (env.refer_stateful_set cr object)
    r ← attempt (Api.get_stateful_set env (key ss.metadata))
    found_or_created_stateful_set ss r
