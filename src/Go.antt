-- ===== src/Go.antt =====
-- What the operator takes from Go: the values of type `error` that it tells apart, a function's
-- pair of a value and an error as one result, and (in the modules below) conversions and texts.
pub mod Int32
pub mod Format
pub mod ParseInt
pub mod RoundTrip
pub mod Split
pub mod Ports
use undermoon_operator_old.Common.{String, Bool, true, false, inl, inr, refl, ◌⊎◌, ◌≡◌}

-- Errors that come from the API server, from HTTP transport and from Redis. The first three are
-- those that `errors.IsNotFound`, `errors.IsAlreadyExists` and `errors.IsConflict` accept.
pub data RemoteError : Type 0 where
  not_found already_exists conflict : RemoteError
  other : String → RemoteError

-- The sentinels of utils.go and broker_client.go are compared by identity; `failed` is
-- `errors.Errorf`.
pub data GoError : Type 0 where
  retry_reconciliation migration_running free_node_found : GoError
  failed : String → GoError
  remote : RemoteError → GoError

pub data Result (E A : Type 0) : Type 0 where
  ok : A → Result E A
  err : E → Result E A

abbrev pub is_not_found : GoError → Bool
is_not_found (remote not_found) = true
is_not_found _ = false

abbrev pub is_already_exists : GoError → Bool
is_already_exists (remote already_exists) = true
is_already_exists _ = false

abbrev pub is_conflict : GoError → Bool
is_conflict (remote conflict) = true
is_conflict _ = false

-- A computed result, split with its equation kept.
pub Result-cases :
    {E A : Type 0} (r : Result E A) → ((a : A) × (r ≡ ok a)) ⊎ ((e : E) × (r ≡ err e))
Result-cases (ok a) = inl (a, refl)
Result-cases (err e) = inr (e, refl)
