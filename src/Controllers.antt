-- ===== src/Controllers.antt =====
-- The four controllers of a reconciler as they are made: newBrokerController, newMetaController,
-- newCoordinatorController and newStorageController of their files, and newBrokerClient.
use undermoon_operator_old.Common.{String}
use undermoon_operator_old.RedisPool.{new_pool, RedisPool}

pub record BrokerClient (Handle : Type 0) : Type 0 where
  pub http_client : Handle

-- The pointer `r` of three of them back to the reconciler, which is only there for its client and
-- its scheme, is left out.
pub record MemBrokerController (Handle : Type 0) : Type 0 where
  pub client : BrokerClient Handle

pub record MetaController (Handle : Type 0) : Type 0 where
  pub client : BrokerClient Handle

pub record CoordinatorController : Type 0 where
  pub coord_pool : RedisPool

pub record StorageController : Type 0 where
  pub proxy_pool : RedisPool

abbrev pub new_coordinator_client_pool : RedisPool
new_coordinator_client_pool = new_pool

abbrev pub new_server_proxy_client_pool : RedisPool
new_server_proxy_client_pool = new_pool

abbrev pub new_coordinator_controller : CoordinatorController
new_coordinator_controller = record { coord_pool = new_coordinator_client_pool }

abbrev pub new_storage_controller : StorageController
new_storage_controller = record { proxy_pool = new_server_proxy_client_pool }

-- `resty.New()` and `SetHeader` of the client that it returns
module _ {Handle : Type 0} (new_resty : Handle)
    (set_header : Handle → String → String → Handle) where
  unfoldable pub new_broker_client : BrokerClient Handle
  new_broker_client = record {
    http_client = set_header new_resty "Content-Type" "application/json";
  }

  abbrev pub new_broker_controller : MemBrokerController Handle
  new_broker_controller = record { client = new_broker_client }

  abbrev pub new_meta_controller : MetaController Handle
  new_meta_controller = record { client = new_broker_client }
