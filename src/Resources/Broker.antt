-- ===== src/Resources/Broker.antt =====
-- The service and the StatefulSet of the brokers (broker.go).
use undermoon_operator_old.Common.{String, ◌<>◌, false, none, List, [], ◌∷◌}
use undermoon_operator_old.Common.Int.{pos}
use undermoon_operator_old.Go.Format.{format_nat}
use undermoon_operator_old.Kube.{Labels, Service, EnvVar, text, Container, StatefulSet, Undermoon}
use undermoon_operator_old.Utils.{gen_anti_affinity}
use undermoon_operator_old.Names.Broker.{
  broker_port, broker_num, broker_service_name, broker_stateful_set_name,
}

abbrev broker_labels : Undermoon → Labels
broker_labels cr =
    ("undermoonService", "broker")
    ∷ ("undermoonName", cr.metadata.name)
    ∷ ("undermoonClusterName", cr.spec.cluster_name)
    ∷ []

-- A headless service.
unfoldable pub create_broker_service : Undermoon → Service
create_broker_service cr = record {
  metadata = record {
    name = broker_service_name cr.metadata.name;
    namespace = cr.metadata.namespace;
    labels = broker_labels cr;
    owners = [];
  };
  spec = record {
    ports = record { name = "broker-port"; port = pos broker_port; protocol = "TCP" } ∷ [];
    cluster_ip = "None";
    selector = broker_labels cr;
    publish_not_ready_addresses = false;
  };
}

abbrev var : String → String → EnvVar
var name value = record { name = name; source = text value }

abbrev broker_env : List EnvVar
broker_env =
    var "RUST_LOG" "undermoon=info,mem_broker=info"
    ∷ var "UNDERMOON_ADDRESS" ("0.0.0.0:" <> format_nat broker_port)
    ∷ var "UNDERMOON_FAILURE_TTL" "60"
    ∷ var "UNDERMOON_FAILURE_QUORUM" "2"
    ∷ var "UNDERMOON_MIGRATION_LIMIT" "2"
    ∷ var "UNDERMOON_RECOVER_FROM_META_FILE" "true"
    ∷ var "UNDERMOON_META_FILENAME" "metadata"
    ∷ var "UNDERMOON_AUTO_UPDATE_META_FILE" "true"
    ∷ var "UNDERMOON_UPDATE_META_FILE_INTERVAL" "10"
    ∷ var "UNDERMOON_REPLICA_ADDRESSES" ""
    ∷ var "UNDERMOON_SYNC_META_INTERVAL" "5"
    ∷ var "UNDERMOON_ENABLE_ORDERED_PROXY" "true"
    ∷ var "UNDERMOON_DEBUG" "false"
    ∷ []

abbrev broker_container : Undermoon → Container
broker_container cr = record {
  name = "broker";
  image = cr.spec.undermoon_image;
  image_pull_policy = cr.spec.undermoon_image_pull_policy;
  command = "mem_broker" ∷ [];
  args = [];
  env = broker_env;
  resources = cr.spec.broker_resources;
  pre_stop = none;
  readiness_probe = none;
}

unfoldable pub create_broker_stateful_set : Undermoon → StatefulSet
create_broker_stateful_set cr = record {
  kind = "StatefulSet";
  api_version = "apps/v1";
  metadata = record {
    name = broker_stateful_set_name cr.metadata.name;
    namespace = cr.metadata.namespace;
    labels = broker_labels cr;
    owners = [];
  };
  spec = record {
    selector = broker_labels cr;
    service_name = broker_service_name cr.metadata.name;
    replicas = pos broker_num;
    template = record {
      labels = broker_labels cr;
      containers = broker_container cr ∷ [];
      affinity =
          gen_anti_affinity (broker_labels cr) cr.metadata.namespace
            "undermoon-broker-topology-key";
    };
    pod_management_policy = "Parallel";
  };
  status = record { replicas = pos 0; ready_replicas = pos 0; current_replicas = pos 0 };
}
