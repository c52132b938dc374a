-- ===== src/Tests/Coordinators.antt =====
-- Redis commands through the pools, and the guard around a creation.
use undermoon_operator_old.Clients.{get_proxy_epoch, set_broker_address}
use undermoon_operator_old.Clients.Addressing.{
  epoch_command, get_proxy_epoch-addressed, set_broker_address-addressed, set_brokers_command,
}
use undermoon_operator_old.Common.{
  [], Bool, eq_iff, eqb, if◌then◌else◌, length, List, refl, some, String, true, ◌++◌, ◌==◌, ◌∷◌,
  ◌≡◌, ◌≢◌,
}
use undermoon_operator_old.CoordinatorController.{set_brokers}
use undermoon_operator_old.CoordinatorController.Broadcast.{
  broadcast, calls-set_brokers, set_brokers-append,
}
use undermoon_operator_old.Go.{already_exists, err, not_found, ok}
use undermoon_operator_old.Kube.{EndpointAddress, Endpoints, Service}
use undermoon_operator_old.Names.Coordinator.{gen_coordinator_address_from_name}
use undermoon_operator_old.RedisPool.{get_client, lookup, new_pool}
use undermoon_operator_old.RedisPool.Laws.{
  get_client-get_client, get_client-IsSound, IsSound, new_pool-IsSound,
}
use undermoon_operator_old.Tests.Samples.{cluster, fresh, pod, service_of, steady}
use undermoon_operator_old.Utils.{create_service_guard, get_endpoints, get_or_create_service, key}
use undermoon_operator_old.Utils.Creation.{
  count, count-get_endpoints, create_service_guard-race, total,
}
use undermoon_operator_old.World.{Call, Env}

abbrev two : List EndpointAddress
two = pod "um-cd-ss-0" ∷ pod "um-cd-ss-1" ∷ []

calls-set_brokers_example :
    (set_brokers steady cluster "b" (ok tt) two fresh).1.calls ≡ broadcast steady cluster "b" two []
calls-set_brokers_example = calls-set_brokers steady cluster "b" (ok tt) two fresh new_pool-IsSound

set_brokers-append_example :
    (set_brokers steady cluster "b" (ok tt) (two ++ pod "um-cd-ss-2" ∷ []) fresh).0
    ≡ (set_broker_address steady
        (gen_coordinator_address_from_name "um-cd-ss-2" cluster)
        "b"
        (set_brokers steady cluster "b" (ok tt) two fresh).1).0
set_brokers-append_example =
    set_brokers-append steady cluster "b" (ok tt) two (pod "um-cd-ss-2") fresh

set_broker_address-addressed_example :
    ((set_broker_address steady "c" "b" fresh).1.calls
      ≡ Call.redis "c" (set_brokers_command steady "b") ∷ [])
    × IsSound (set_broker_address steady "c" "b" fresh).1.coord_pool
set_broker_address-addressed_example =
    set_broker_address-addressed steady "c" fresh "b" new_pool-IsSound

get_proxy_epoch-addressed_example :
    ((get_proxy_epoch steady "p" fresh).1.calls ≡ Call.redis "p" (epoch_command steady) ∷ [])
    × IsSound (get_proxy_epoch steady "p" fresh).1.proxy_pool
get_proxy_epoch-addressed_example = get_proxy_epoch-addressed steady "p" fresh new_pool-IsSound

get_client-IsSound_example : IsSound (get_client new_pool "a").1
get_client-IsSound_example = get_client-IsSound new_pool "a" new_pool-IsSound

abbrev a : String
a = "a"

abbrev b : String
b = "b"

b_differs : b ≢ a
b_differs h = let g : (b == a) ≡ true = (eq_iff b a).1 h in absurd (cc)

get_client-get_client_example :
    (lookup a (get_client new_pool a).1.clients ≡ some (get_client new_pool a).0)
    × (get_client (get_client new_pool a).1 a ≡ get_client new_pool a)
    × (lookup b (get_client new_pool a).1.clients ≡ lookup b new_pool.clients)
get_client-get_client_example = get_client-get_client new_pool a b b_differs

-- Another client creates the service between the Get and the Create.
abbrev service : Service
service = service_of "um-cd-svc"

abbrev racing : Env
racing = record steady {
  on_get_service = λ h k. if eqb (length h) 0 then err not_found else ok service;
  on_create_service = λ h s. err already_exists;
}

create_service_guard-race_example :
    create_service_guard (get_or_create_service racing cluster service) fresh ≡ (
      ok service,
      record fresh {
        calls =
            Call.get_service (key service.metadata)
            ∷ Call.create_service service
            ∷ Call.get_service (key service.metadata)
            ∷ [];
      },
    )
create_service_guard-race_example =
    create_service_guard-race racing cluster service service service fresh refl refl refl refl

-- Endpoints in two subsets.
abbrev split_endpoints : Endpoints
split_endpoints = record {
  subsets = (pod "um-cd-ss-0" ∷ []) ∷ (pod "um-cd-ss-1" ∷ pod "um-cd-ss-2" ∷ []) ∷ [];
}

abbrev split : Env
split = record steady { on_get_endpoints = λ h k. ok split_endpoints }

count-get_endpoints_example :
    (pods : List EndpointAddress) × ((get_endpoints split "um-cd-svc" "ns" fresh).0 ≡ ok pods)
    × ((test : EndpointAddress → Bool) → count test pods ≡ total test split_endpoints.subsets)
count-get_endpoints_example = count-get_endpoints split "um-cd-svc" "ns" fresh split_endpoints refl
