-- ===== src/RedisPool.antt =====
-- redisClientPool of utils.go. A client is what `redis.NewClient` returns: an address, and a number
-- that tells one pointer from another.
pub mod Laws
use undermoon_operator_old.Common.{
  ℕ, String, ◌==◌, Option, none, some, List, [], ◌∷◌, suc, if◌then◌else◌,
}

pub record RedisClient : Type 0 where
  pub addr : String
  pub pointer : ℕ

-- The map of clients, of which the latest stands first, and the number of calls of
-- `redis.NewClient`: each returns a pointer of its own, stored or not.
pub record RedisPool : Type 0 where
  pub clients : List (String × RedisClient)
  pub made : ℕ

abbrev pub new_pool : RedisPool
new_pool = record { clients = []; made = 0 }

unfoldable pub lookup : String → List (String × RedisClient) → Option RedisClient
lookup k [] = none
lookup k ((j, c) ∷ m) = if j == k then some c else lookup k m

abbrev pub new_client : RedisPool → String → RedisClient
new_client pool address = record { addr = address; pointer = pool.made }

abbrev pub cached : RedisPool → String → Option RedisClient → RedisClient × RedisPool
cached pool address (some c) = (c, pool)
cached pool address none =
    let c = new_client pool address in
    (c, record { clients = (address, c) ∷ pool.clients; made = suc pool.made })

-- The lock makes a call one step.
unfoldable pub get_client : RedisPool → String → RedisClient × RedisPool
unfolding lookup
get_client pool address = cached pool address (lookup address pool.clients)
