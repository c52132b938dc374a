-- ===== src/World.antt =====
-- What lies outside the operator: the API server, the brokers behind HTTP, and the coordinators
-- and server proxies behind Redis. An environment answers each call as a function of the calls made
-- before it, so that it may change in any way between two calls.
use undermoon_operator_old.Common.{ℕ, String, Bool, List, Option}
use undermoon_operator_old.Common.Int.{ℤ}
use undermoon_operator_old.Go.{RemoteError, Result}
use undermoon_operator_old.Kube.{NamespacedName, Service, StatefulSet, Endpoints, Undermoon}

pub data Method : Type 0 where
  get post put delete : Method

-- serverProxyMeta of broker_client.go
pub record ServerProxyMeta : Type 0 where
  pub proxy_address : String
  pub redis_addresses : String × String
  pub host : String
  pub index : ℤ

-- The bodies that broker_client.go sends, before they are written as JSON.
pub data Payload : Type 0 where
  empty : Payload
  replica_addresses : List String → Payload
  proxy_meta : ServerProxyMeta → Payload
  node_number : ℕ → Payload

pub record HttpRequest : Type 0 where
  pub method : Method
  pub url : String
  pub payload : Payload

pub record HttpResponse : Type 0 where
  pub status_code : ℕ
  pub body : String

-- clusterInfo of broker_client.go
pub record ClusterInfo : Type 0 where
  pub name : String
  pub node_number : ℤ
  pub node_number_with_slots : ℤ
  pub is_migrating : Bool

pub data Call : Type 0 where
  get_undermoon : NamespacedName → Call
  update_status : Undermoon → Call
  get_service : NamespacedName → Call
  create_service : Service → Call
  get_stateful_set : NamespacedName → Call
  create_stateful_set : StatefulSet → Call
  update_stateful_set : StatefulSet → Call
  get_endpoints : NamespacedName → Call
  http : HttpRequest → Call
  redis : String → List String → Call

-- The calls made so far, the latest first.
abbrev pub History : Type 0
History = List Call

-- Each answer comes with the calls before it. `result_…` are resty's accessors of a response:
-- the decoded body, or `none` where the type assertion of the code fails. A Redis command has two
-- errors, that of `Process` and that of `Result`.
pub record Env : Type 0 where
  pub on_get_undermoon : History → NamespacedName → Result RemoteError Undermoon
  pub on_update_status : History → Undermoon → Result RemoteError Undermoon
  pub on_get_service : History → NamespacedName → Result RemoteError Service
  pub on_create_service : History → Service → Result RemoteError Service
  pub on_get_stateful_set : History → NamespacedName → Result RemoteError StatefulSet
  pub on_create_stateful_set : History → StatefulSet → Result RemoteError StatefulSet
  pub on_update_stateful_set : History → StatefulSet → Result RemoteError StatefulSet
  pub on_get_endpoints : History → NamespacedName → Result RemoteError Endpoints
  pub on_http : History → HttpRequest → Result RemoteError HttpResponse
  pub on_redis_string :
      History → String → List String → Result RemoteError (Result RemoteError String)
  pub on_redis_int : History → String → List String → Result RemoteError (Result RemoteError ℤ)
  pub refer_service : Undermoon → Service → Result RemoteError Service
  pub refer_stateful_set : Undermoon → StatefulSet → Result RemoteError StatefulSet
  pub result_config : HttpResponse → Option (List String)
  pub result_addresses : HttpResponse → List String
  pub result_names : HttpResponse → Option (List String)
  pub result_cluster_info : HttpResponse → Option ClusterInfo
  pub result_error : HttpResponse → Option String
