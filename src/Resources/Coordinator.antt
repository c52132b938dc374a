-- ===== src/Resources/Coordinator.antt =====
-- The service and the StatefulSet of the coordinators (coordinator.go).
use undermoon_operator_old.Common.{String, ◌<>◌, false, none, List, [], ◌∷◌}
use undermoon_operator_old.Common.Int.{pos}
use undermoon_operator_old.Go.Format.{format_nat}
use undermoon_operator_old.Kube.{
  Labels, Service, EnvVar, text, field_ref, Container, StatefulSet, Undermoon,
}
use undermoon_operator_old.Utils.{gen_anti_affinity}
use undermoon_operator_old.Names.Coordinator.{
  coordinator_port, coordinator_num, coordinator_service_name, coordinator_stateful_set_name,
}

abbrev coordinator_labels : Undermoon → Labels
coordinator_labels cr =
    ("undermoonService", "coordinator")
    ∷ ("undermoonName", cr.metadata.name)
    ∷ ("undermoonClusterName", cr.spec.cluster_name)
    ∷ []

-- A headless service.
unfoldable pub create_coordinator_service : Undermoon → Service
create_coordinator_service cr = record {
  metadata = record {
    name = coordinator_service_name cr.metadata.name;
    namespace = cr.metadata.namespace;
    labels = coordinator_labels cr;
    owners = [];
  };
  spec = record {
    ports =
        record { name = "coordinator-port"; port = pos coordinator_port; protocol = "TCP" } ∷ [];
    cluster_ip = "None";
    selector = coordinator_labels cr;
    publish_not_ready_addresses = false;
  };
}

abbrev var : String → String → EnvVar
var name value = record { name = name; source = text value }

abbrev coordinator_env : List EnvVar
coordinator_env =
    var "RUST_LOG" "undermoon=info,coordinator=info"
    ∷ var "UNDERMOON_ADDRESS" ("0.0.0.0:" <> format_nat coordinator_port)
    ∷ var "UNDERMOON_BROKER_ADDRESS" ""
    ∷ record { name = "UNDERMOON_REPORTER_ID"; source = field_ref "metadata.name" }
    ∷ var "UNDERMOON_THREAD_NUMBER" "2"
    ∷ var "UNDERMOON_PROXY_TIMEOUT" "3"
    ∷ []

abbrev coordinator_container : Undermoon → Container
coordinator_container cr = record {
  name = "coordinator";
  image = cr.spec.undermoon_image;
  image_pull_policy = cr.spec.undermoon_image_pull_policy;
  command = "coordinator" ∷ [];
  args = [];
  env = coordinator_env;
  resources = cr.spec.coordinator_resources;
  pre_stop = none;
  readiness_probe = none;
}

unfoldable pub create_coordinator_stateful_set : Undermoon → StatefulSet
create_coordinator_stateful_set cr = record {
  kind = "StatefulSet";
  api_version = "apps/v1";
  metadata = record {
    name = coordinator_stateful_set_name cr.metadata.name;
    namespace = cr.metadata.namespace;
    labels = coordinator_labels cr;
    owners = [];
  };
  spec = record {
    selector = coordinator_labels cr;
    service_name = coordinator_service_name cr.metadata.name;
    replicas = pos coordinator_num;
    template = record {
      labels = coordinator_labels cr;
      containers = coordinator_container cr ∷ [];
      affinity =
          gen_anti_affinity (coordinator_labels cr) cr.metadata.namespace
            "undermoon-broker-topology-key";
    };
    pod_management_policy = "Parallel";
  };
  status = record { replicas = pos 0; ready_replicas = pos 0; current_replicas = pos 0 };
}
