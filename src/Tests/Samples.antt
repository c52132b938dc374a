-- ===== src/Tests/Samples.antt =====
-- A resource with one chunk and an environment in which everything is up.
use undermoon_operator_old.Common.{
  String, false, none, some, List, [], ◌∷◌, ◌==◌, if◌then◌else◌, ℕ, length,
}
use undermoon_operator_old.Common.Int.{ℤ, pos}
use undermoon_operator_old.Go.{ok}
use undermoon_operator_old.Kube.{
  NamespacedName, ObjectMeta, ResourceRequirements, Service, StatefulSet, EndpointAddress,
  Undermoon,
}
use undermoon_operator_old.World.{Env, Call, ClusterInfo}
use undermoon_operator_old.Exec.{State}
use undermoon_operator_old.RedisPool.{new_pool}
use undermoon_operator_old.Reconciler.{Exit, reconcile}

abbrev pub request : NamespacedName
request = record { name = "um"; namespace = "ns" }

abbrev meta : String → ObjectMeta
meta name = record { name = name; namespace = "ns"; labels = []; owners = [] }

abbrev pub resources : ResourceRequirements
resources = record { limits = []; requests = [] }

abbrev pub cluster_of : ℕ → Undermoon
cluster_of chunks = record {
  metadata = meta "um";
  spec = record {
    cluster_name = "c";
    chunk_number = chunks;
    max_memory = 50;
    port = 5299;
    active_redirection = false;
    proxy_threads = 2;
    undermoon_image = "undermoon";
    undermoon_image_pull_policy = "IfNotPresent";
    redis_image = "redis";
    broker_resources = resources;
    coordinator_resources = resources;
    proxy_resources = resources;
    redis_resources = resources;
  };
  status = record { master_broker_address = "" };
}

abbrev pub cluster : Undermoon
cluster = cluster_of 1

abbrev pub service_of : String → Service
service_of name = record {
  metadata = meta name;
  spec = record {
    ports = [];
    cluster_ip = "None";
    selector = [];
    publish_not_ready_addresses = false;
  };
}

abbrev pub stateful_set_of : String → ℤ → StatefulSet
stateful_set_of name n = record {
  kind = "StatefulSet";
  api_version = "apps/v1";
  metadata = meta name;
  spec = record {
    selector = [];
    service_name = name;
    replicas = n;
    template = record {
      labels = [];
      containers = [];
      affinity = record { weight = 2; match_labels = []; namespaces = []; topology_key = "" };
    };
    pod_management_policy = "Parallel";
  };
  status = record { replicas = n; ready_replicas = n; current_replicas = n };
}

abbrev pub pod : String → EndpointAddress
pod name = record { hostname = name }

abbrev endpoints_of : String → List EndpointAddress
endpoints_of name =
    if name == "um-bk-svc"
    then pod "um-bk-ss-0" ∷ pod "um-bk-ss-1" ∷ pod "um-bk-ss-2" ∷ []
    else if name == "um-cd-svc"
    then pod "um-cd-ss-0" ∷ []
    else pod "um-stg-ss-0" ∷ pod "um-stg-ss-1" ∷ []

abbrev pub info : ClusterInfo
info = record {
  name = "c";
  node_number = pos 4;
  node_number_with_slots = pos 4;
  is_migrating = false;
}

-- Every broker is at epoch 7, and the registry still has a proxy that is gone.
abbrev pub steady : Env
steady = record {
  on_get_undermoon = λ h k. ok cluster;
  on_update_status = λ h cr. ok cr;
  on_get_service = λ h k. ok (service_of k.name);
  on_create_service = λ h svc. ok svc;
  on_get_stateful_set =
      λ h k. ok (stateful_set_of k.name (if k.name == "um-stg-ss" then pos 2 else pos 3));
  on_create_stateful_set = λ h ss. ok ss;
  on_update_stateful_set = λ h ss. ok ss;
  on_get_endpoints = λ h k. ok (record { subsets = endpoints_of k.name ∷ [] });
  on_http = λ h r. ok (record { status_code = 200; body = "7" });
  on_redis_string = λ h a c. ok (ok "OK");
  on_redis_int = λ h a c. ok (ok (pos 7));
  refer_service = λ cr svc. ok svc;
  refer_stateful_set = λ cr ss. ok ss;
  result_config = λ res. some [];
  result_addresses = λ res. "um-stg-ss-9.um-stg-svc.ns.svc.cluster.local:5299" ∷ [];
  result_names = λ res. some ("c" ∷ []);
  result_cluster_info = λ res. some info;
  result_error = λ res. none;
}

abbrev pub fresh : State
fresh = record { calls = []; coord_pool = new_pool; proxy_pool = new_pool }

steady_end : Exit × ℕ
steady_end = let (e, s) = reconcile steady request fresh in (e, length s.calls)

steady_calls : List Call
steady_calls = (reconcile steady request fresh).1.calls
