-- ===== src/Kube.antt =====
-- The Kubernetes objects that the operator reads and writes, with the fields that it uses, and
-- the custom resource of pkg/apis/undermoon/v1alpha1/undermoon_types.go.
use undermoon_operator_old.Common.{ℕ, String, Bool, List, Option}
use undermoon_operator_old.Common.Int.{ℤ}

-- A `map[string]string` of labels, in the order of the literal.
abbrev pub Labels : Type 0
Labels = List (String × String)

pub record NamespacedName : Type 0 where
  pub name : String
  pub namespace : String

-- `owners` is what `SetControllerReference` adds to.
pub record ObjectMeta : Type 0 where
  pub name : String
  pub namespace : String
  pub labels : Labels
  pub owners : List String

pub record ResourceRequirements : Type 0 where
  pub limits : Labels
  pub requests : Labels

pub record ServicePort : Type 0 where
  pub name : String
  pub port : ℤ
  pub protocol : String

pub record ServiceSpec : Type 0 where
  pub ports : List ServicePort
  pub cluster_ip : String
  pub selector : Labels
  pub publish_not_ready_addresses : Bool

pub record Service : Type 0 where
  pub metadata : ObjectMeta
  pub spec : ServiceSpec

-- An environment variable has a text, or the path of a field of its pod.
pub data EnvSource : Type 0 where
  text : String → EnvSource
  field_ref : String → EnvSource

pub record EnvVar : Type 0 where
  pub name : String
  pub source : EnvSource

pub record Probe : Type 0 where
  pub command : List String
  pub period_seconds : ℕ
  pub success_threshold : ℕ
  pub failure_threshold : ℕ

pub record Container : Type 0 where
  pub name : String
  pub image : String
  pub image_pull_policy : String
  pub command : List String
  pub args : List String
  pub env : List EnvVar
  pub resources : ResourceRequirements
  pub pre_stop : Option (List String)
  pub readiness_probe : Option Probe

-- `PodAntiAffinity` with one preferred term.
pub record Affinity : Type 0 where
  pub weight : ℕ
  pub match_labels : Labels
  pub namespaces : List String
  pub topology_key : String

pub record PodTemplate : Type 0 where
  pub labels : Labels
  pub containers : List Container
  pub affinity : Affinity

pub record StatefulSetSpec : Type 0 where
  pub selector : Labels
  pub service_name : String
  pub replicas : ℤ
  pub template : PodTemplate
  pub pod_management_policy : String

pub record StatefulSetStatus : Type 0 where
  pub replicas : ℤ
  pub ready_replicas : ℤ
  pub current_replicas : ℤ

pub record StatefulSet : Type 0 where
  pub kind : String
  pub api_version : String
  pub metadata : ObjectMeta
  pub spec : StatefulSetSpec
  pub status : StatefulSetStatus

-- The hostnames of `Endpoints`, subset by subset.
pub record EndpointAddress : Type 0 where
  pub hostname : String

pub record Endpoints : Type 0 where
  pub subsets : List (List EndpointAddress)

pub record UndermoonSpec : Type 0 where
  pub cluster_name : String
  pub chunk_number : ℕ
  pub max_memory : ℕ
  pub port : ℕ
  pub active_redirection : Bool
  pub proxy_threads : ℕ
  pub undermoon_image : String
  pub undermoon_image_pull_policy : String
  pub redis_image : String
  pub broker_resources : ResourceRequirements
  pub coordinator_resources : ResourceRequirements
  pub proxy_resources : ResourceRequirements
  pub redis_resources : ResourceRequirements

pub record UndermoonStatus : Type 0 where
  pub master_broker_address : String

pub record Undermoon : Type 0 where
  pub metadata : ObjectMeta
  pub spec : UndermoonSpec
  pub status : UndermoonStatus
