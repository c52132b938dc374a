-- ===== src/RedisPool/Laws.antt =====
-- The pools that getClient of utils.go makes.
use undermoon_operator_old.Common.{◌<◌, ◌≡◌, ◌≢◌, refl, String, eq_iff, Option, none, some, arith}
use undermoon_operator_old.RedisPool.{RedisClient, RedisPool, new_pool, lookup, cached, get_client}

-- Each client goes to the address that it is stored under, and has a pointer of its own.
pub record IsSound (pool : RedisPool) : Type 0 where
  pub addressed : (k : String) (c : RedisClient) → lookup k pool.clients ≡ some c → c.addr ≡ k
  pub numbered :
      (k : String) (c : RedisClient) → lookup k pool.clients ≡ some c → c.pointer < pool.made
  pub distinct :
      (j k : String) (c d : RedisClient)
      → lookup j pool.clients ≡ some c
      → lookup k pool.clients ≡ some d
      → c.pointer ≡ d.pointer
      → j ≡ k

pub new_pool-IsSound : IsSound new_pool
unfolding lookup
new_pool-IsSound = record {
  addressed = λ k c h. ground arith;
  numbered = λ k c h. ground arith;
  distinct = λ j k c d h g e. ground arith;
}

module _ (pool : RedisPool) (address : String) where
  -- getClient keeps a pool sound: each client goes to the address that it is stored under, and no
  -- two addresses share a client.
  pub get_client-IsSound : IsSound pool → IsSound (get_client pool address).1
  unfolding get_client
  get_client-IsSound h = record {
    addressed = λ k c e. ground (arith, h.addressed k c, eq_iff address k);
    numbered = λ k c e. ground (arith, h.numbered k c, eq_iff address k);
    distinct = λ j k c d e g p. ground (
      arith,
      h.distinct j k c d,
      h.numbered j c,
      h.numbered k d,
      eq_iff address j,
      eq_iff address k,
    );
  }

  addressed-cached :
      (found : Option RedisClient)
      → ((c : RedisClient) → found ≡ some c → c.addr ≡ address)
      → (cached pool address found).0.addr ≡ address
  addressed-cached none h = refl
  addressed-cached (some c) h = h c refl

  -- The client that getClient returns from a sound pool goes to the address asked for.
  pub addr-get_client : IsSound pool → (get_client pool address).0.addr ≡ address
  unfolding get_client
  addr-get_client h = addressed-cached (lookup address pool.clients) (h.addressed address)

  -- getClient leaves the client that it returns in the pool, under its address; a second getClient
  -- for the address returns this client, the same pointer, and leaves the pool as it is; and the
  -- client of any other address stays as it was.
  pub get_client-get_client :
      (elsewhere : String)
      → elsewhere ≢ address
      → (lookup address (get_client pool address).1.clients ≡ some (get_client pool address).0)
        × (get_client (get_client pool address).1 address ≡ get_client pool address)
        × (lookup elsewhere (get_client pool address).1.clients ≡ lookup elsewhere pool.clients)
  unfolding get_client
  get_client-get_client elsewhere differ = (
    grind (arith, eq_iff address address),
    grind (arith, eq_iff address address),
    ground (arith, differ, eq_iff address elsewhere),
  )
