-- ===== src/Clients/Addressing.antt =====
-- Which address a Redis command goes to (coordinator_client.go, proxy_client.go).
use mathlib.Core.Path.{subst⁻¹}
use undermoon_operator_old.Clients.{
  coordinator_client, get_proxy_epoch, server_proxy_client, set_broker_address,
}
use undermoon_operator_old.Common.{[], ap, List, refl, String, ◌∙◌, ◌∷◌, ◌≡◌}
use undermoon_operator_old.Common.Int.{ℤ}
use undermoon_operator_old.Exec.{convert, from_result, of_remote, pure, State, ◌>>=◌}
use undermoon_operator_old.Go.{err, ok, remote, RemoteError, Result}
use undermoon_operator_old.RedisPool.{get_client}
use undermoon_operator_old.RedisPool.Laws.{addr-get_client, get_client-IsSound, IsSound}
use undermoon_operator_old.World.{Call, Env}

module _ (env : Env) where
  string_state :
      (r : Result RemoteError (Result RemoteError String)) (s : State)
      → ((from_result (convert remote r) >>= λ x. of_remote x >>= λ y. pure tt) s).1 ≡ s
  unfolding ◌>>=◌
  string_state (ok (ok x)) s = refl
  string_state (ok (err e)) s = refl
  string_state (err e) s = refl

  int_state :
      (r : Result RemoteError (Result RemoteError ℤ)) (s : State)
      → ((from_result (convert remote r) >>= λ x. of_remote x) s).1 ≡ s
  unfolding ◌>>=◌
  int_state (ok (ok x)) s = refl
  int_state (ok (err e)) s = refl
  int_state (err e) s = refl

  abbrev pub set_brokers_command : String → List String
  set_brokers_command broker = "CONFIG" ∷ "SET" ∷ "brokers" ∷ broker ∷ []

  abbrev pub epoch_command : List String
  epoch_command = "UMCTL" ∷ "GETEPOCH" ∷ []

  module _ (address : String) (s : State) where
    -- From a sound pool, the one command of setBrokerAddress goes to the address that it is given,
    -- whatever clients the pool holds and whatever the answer is, and the pool stays sound.
    pub set_broker_address-addressed :
        (broker : String)
        → IsSound s.coord_pool
        → ((set_broker_address env address broker s).1.calls
            ≡ Call.redis address (set_brokers_command broker) ∷ s.calls)
          × IsSound (set_broker_address env address broker s).1.coord_pool
    unfolding set_broker_address coordinator_client ◌>>=◌
    set_broker_address-addressed broker sound =
        let (client, pool) = get_client s.coord_pool address in
        let at : client.addr ≡ address = addr-get_client s.coord_pool address sound in
        let e =
          string_state (env.on_redis_string s.calls client.addr (set_brokers_command broker))
            (record s {
              coord_pool = pool;
              calls = Call.redis client.addr (set_brokers_command broker) ∷ s.calls;
            }) in
        (
          ap (λ (t : State). t.calls) e
              ∙ ap (λ a. Call.redis a (set_brokers_command broker) ∷ s.calls) at,
          subst⁻¹ (λ t. IsSound t.coord_pool) e (get_client-IsSound s.coord_pool address sound),
        )

    -- From a sound pool, the one command of a server proxy's getEpoch goes to the address that it
    -- is given, whatever clients the pool holds and whatever the answer is, and the pool stays
    -- sound.
    pub get_proxy_epoch-addressed :
        IsSound s.proxy_pool
        → ((get_proxy_epoch env address s).1.calls ≡ Call.redis address epoch_command ∷ s.calls)
          × IsSound (get_proxy_epoch env address s).1.proxy_pool
    unfolding get_proxy_epoch server_proxy_client ◌>>=◌
    get_proxy_epoch-addressed sound =
        let (client, pool) = get_client s.proxy_pool address in
        let at : client.addr ≡ address = addr-get_client s.proxy_pool address sound in
        let e = int_state (env.on_redis_int s.calls client.addr epoch_command) (record s {
          proxy_pool = pool;
          calls = Call.redis client.addr epoch_command ∷ s.calls;
        }) in
        (
          ap (λ (t : State). t.calls) e ∙ ap (λ a. Call.redis a epoch_command ∷ s.calls) at,
          subst⁻¹ (λ t. IsSound t.proxy_pool) e (get_client-IsSound s.proxy_pool address sound),
        )
