-- ===== src/Clients.antt =====
-- coordinator_client.go and proxy_client.go: Redis commands through the pools of `State`.
pub mod Addressing
use undermoon_operator_old.Common.{String, [], ◌∷◌}
use undermoon_operator_old.Common.Int.{ℤ}
use undermoon_operator_old.Go.{GoError, ok}
use undermoon_operator_old.World.{Env}
use undermoon_operator_old.RedisPool.{RedisClient, get_client}
use undermoon_operator_old.Exec.{Exec, pure, of_remote, ◌>>=◌}
use undermoon_operator_old.Api

-- coordinatorClientPool.getClient
unfoldable pub coordinator_client : String → Exec GoError RedisClient
coordinator_client address s =
    let (client, pool) = get_client s.coord_pool address in
    (ok client, record s { coord_pool = pool })

-- serverProxyClientPool.getClient
unfoldable pub server_proxy_client : String → Exec GoError RedisClient
server_proxy_client address s =
    let (client, pool) = get_client s.proxy_pool address in
    (ok client, record s { proxy_pool = pool })

module _ (env : Env) where
  -- coordinatorClientPool.setBrokerAddress, and coordinatorClient's
  unfoldable pub set_broker_address : String → String → Exec GoError (Unit {0})
  set_broker_address coord_address broker_address = do
    client ← coordinator_client coord_address
    result ← Api.process_string env client.addr ("CONFIG" ∷ "SET" ∷ "brokers" ∷ broker_address ∷ [])
    reply ← of_remote result
    pure tt

  -- serverProxyClientPool.getEpoch, and serverProxyClient's
  unfoldable pub get_proxy_epoch : String → Exec GoError ℤ
  get_proxy_epoch address = do
    client ← server_proxy_client address
    result ← Api.process_int env client.addr ("UMCTL" ∷ "GETEPOCH" ∷ [])
    of_remote result
