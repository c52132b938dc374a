-- ===== src/Resources/Storage.antt =====
-- The services and the StatefulSet of the storage (storage.go).
use undermoon_operator_old.Common.{ℕ, String, ◌<>◌, Bool, true, false, none, some, List, [], ◌∷◌}
use undermoon_operator_old.Common.Int.{pos}
use undermoon_operator_old.Go.Format.{format_nat}
use undermoon_operator_old.Go.Int32.{int32}
use undermoon_operator_old.Kube.{Labels, Service, EnvVar, text, Container, StatefulSet, Undermoon}
use undermoon_operator_old.Utils.{
  gen_anti_affinity, gen_pre_stop_hook_life_cycle, pod_ip_env, pod_name_env, pod_ip_env_str,
  pod_name_str,
}
use undermoon_operator_old.Names.Storage.{
  redis_port1, redis_port2, storage_service_name, storage_public_service_name,
  storage_stateful_set_name, storage_pod_name, gen_storage_fqdn_from_name,
  gen_storage_address_from_name, storage_replicas,
}

abbrev storage_labels : Undermoon → Labels
storage_labels cr =
    ("undermoonService", "storage")
    ∷ ("undermoonName", cr.metadata.name)
    ∷ ("undermoonClusterName", cr.spec.cluster_name)
    ∷ []

-- It finds the server proxies that are not ready too.
unfoldable pub create_storage_service : Undermoon → Service
create_storage_service cr = record {
  metadata = record {
    name = storage_service_name cr.metadata.name;
    namespace = cr.metadata.namespace;
    labels = storage_labels cr;
    owners = [];
  };
  spec = record {
    ports =
        record { name = "server-proxy-port"; port = int32 (pos cr.spec.port); protocol = "TCP" }
        ∷ [];
    cluster_ip = "None";
    selector = storage_labels cr;
    publish_not_ready_addresses = true;
  };
}

-- The service for the users. `ClusterIP` is left to the API server.
unfoldable pub create_storage_public_service : Undermoon → Service
create_storage_public_service cr = record {
  metadata = record {
    name = storage_public_service_name cr.metadata.name;
    namespace = cr.metadata.namespace;
    labels = storage_labels cr;
    owners = [];
  };
  spec = record {
    ports =
        record {
          name = "server-proxy-public-port";
          port = int32 (pos cr.spec.port);
          protocol = "TCP";
        }
        ∷ [];
    cluster_ip = "";
    selector = storage_labels cr;
    publish_not_ready_addresses = false;
  };
}

abbrev format_bool : Bool → String
format_bool true = "true"
format_bool false = "false"

unfoldable pub first_proxy_address : Undermoon → String
first_proxy_address cr = gen_storage_address_from_name (storage_pod_name cr.metadata.name 0) cr

abbrev var : String → String → EnvVar
var name value = record { name = name; source = text value }

abbrev storage_env : Undermoon → List EnvVar
storage_env cr =
    pod_name_env
    ∷ var "RUST_LOG" "undermoon=info,server_proxy=info"
    ∷ var "UNDERMOON_ADDRESS" ("0.0.0.0:" <> format_nat cr.spec.port)
    ∷ var "UNDERMOON_AUTO_SELECT_CLUSTER" "true"
    ∷ var "UNDERMOON_SLOWLOG_LEN" "1024"
    ∷ var "UNDERMOON_SLOWLOG_LOG_SLOWER_THAN" "10000"
    ∷ var "UNDERMOON_SLOWLOG_SAMPLE_RATE" "1000"
    ∷ var "UNDERMOON_SESSION_CHANNEL_SIZE" "4096"
    ∷ var "UNDERMOON_BACKEND_CHANNEL_SIZE" "4096"
    ∷ var "UNDERMOON_BACKEND_BATCH_MIN_TIME" "20000"
    ∷ var "UNDERMOON_BACKEND_BATCH_MAX_TIME" "400000"
    ∷ var "UNDERMOON_SESSION_BATCH_MIN_TIME" "20000"
    ∷ var "UNDERMOON_SESSION_BATCH_MAX_TIME" "400000"
    ∷ var "UNDERMOON_ACTIVE_REDIRECTION" (format_bool cr.spec.active_redirection)
    ∷ var "UNDERMOON_DEFAULT_REDIRECTION_ADDRESS" (first_proxy_address cr)
    ∷ []

-- `server_proxy` is started with the address of its own pod.
unfoldable pub announce_command : Undermoon → String
announce_command cr =
    "UNDERMOON_ANNOUNCE_ADDRESS=\""
    <> (gen_storage_fqdn_from_name pod_name_str cr
        <> (":" <> (format_nat cr.spec.port <> "\" server_proxy")))

-- Whether `UMCTL READY` returns 1.
unfoldable pub check_command : Undermoon → String
check_command cr =
    "[ \"$(exec 5<>/dev/tcp/localhost/"
    <> (format_nat cr.spec.port
        <> "; printf '*2\r\n$5\r\nUMCTL\r\n$5\r\nREADY\r\n' >&5; head -c 2 <&5)\" == ':1' ]")

abbrev server_proxy_container : Undermoon → Container
server_proxy_container cr = record {
  name = "server-proxy";
  image = cr.spec.undermoon_image;
  image_pull_policy = cr.spec.undermoon_image_pull_policy;
  command = "sh" ∷ "-c" ∷ announce_command cr ∷ [];
  args = [];
  env = storage_env cr;
  resources = cr.spec.proxy_resources;
  pre_stop = gen_pre_stop_hook_life_cycle ("sleep" ∷ "10" ∷ []);
  readiness_probe = some (record {
    command = "bash" ∷ "-c" ∷ check_command cr ∷ [];
    period_seconds = 1;
    success_threshold = 1;
    failure_threshold = 1;
  });
}

unfoldable pub gen_redis_container : ℕ → String → ℕ → ℕ → Undermoon → Container
gen_redis_container index redis_image max_memory port cr = record {
  name = "redis-" <> format_nat index;
  image = redis_image;
  image_pull_policy = "IfNotPresent";
  command = "redis-server" ∷ [];
  args =
      "--maxmemory"
      ∷ (format_nat max_memory <> "MB")
      ∷ "--port"
      ∷ format_nat port
      ∷ "--slave-announce-port"
      ∷ format_nat port
      ∷ "--slave-announce-ip"
      ∷ pod_ip_env_str
      ∷ "--maxmemory-policy"
      ∷ "allkeys-lru"
      ∷ [];
  env = pod_ip_env ∷ [];
  resources = cr.spec.redis_resources;
  pre_stop = gen_pre_stop_hook_life_cycle ("sleep" ∷ "10" ∷ []);
  readiness_probe = none;
}

unfoldable pub create_storage_stateful_set : Undermoon → StatefulSet
create_storage_stateful_set cr = record {
  kind = "StatefulSet";
  api_version = "apps/v1";
  metadata = record {
    name = storage_stateful_set_name cr.metadata.name;
    namespace = cr.metadata.namespace;
    labels = storage_labels cr;
    owners = [];
  };
  spec = record {
    selector = storage_labels cr;
    service_name = storage_service_name cr.metadata.name;
    replicas = int32 (pos (storage_replicas cr));
    template = record {
      labels = storage_labels cr;
      containers =
          server_proxy_container cr
          ∷ gen_redis_container 1 cr.spec.redis_image cr.spec.max_memory redis_port1 cr
          ∷ gen_redis_container 2 cr.spec.redis_image cr.spec.max_memory redis_port2 cr
          ∷ [];
      affinity =
          gen_anti_affinity (storage_labels cr) cr.metadata.namespace
            "undermoon-storage-topology-key";
    };
    pod_management_policy = "Parallel";
  };
  status = record { replicas = pos 0; ready_replicas = pos 0; current_replicas = pos 0 };
}
