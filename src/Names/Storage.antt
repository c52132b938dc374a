-- ===== src/Names/Storage.antt =====
-- Names of the storage's objects and the addresses of its pods (storage.go).
use undermoon_operator_old.Common.{ℕ, zero, suc, ◌+◌, ◌*◌, String, ◌<>◌, List, [], ◌∷◌, map}
use undermoon_operator_old.Kube.{Undermoon}
use undermoon_operator_old.Go.Format.{format_nat}

-- utils.go
abbrev pub chunk_node_number : ℕ
chunk_node_number = 4

abbrev pub half_chunk_node_number : ℕ
half_chunk_node_number = 2

abbrev pub redis_port1 : ℕ
redis_port1 = 7001

abbrev pub redis_port2 : ℕ
redis_port2 = 7002

unfoldable pub storage_service_name : String → String
storage_service_name name = name <> "-stg-svc"

unfoldable pub storage_public_service_name : String → String
storage_public_service_name name = name

unfoldable pub storage_stateful_set_name : String → String
storage_stateful_set_name name = name <> "-stg-ss"

unfoldable pub storage_pod_name : String → ℕ → String
storage_pod_name name index = storage_stateful_set_name name <> ("-" <> format_nat index)

-- The loop from `i`, with the rounds that are left.
unfoldable pub storage_names_from : String → ℕ → ℕ → List String
storage_names_from name i zero = []
storage_names_from name i (suc rounds) =
    storage_pod_name name i ∷ storage_names_from name (i + 1) rounds

unfoldable pub gen_storage_names : String → ℕ → List String
unfolding storage_names_from
gen_storage_names name replicas = storage_names_from name 0 replicas

unfoldable pub gen_storage_fqdn : String → String → String → String
gen_storage_fqdn pod name namespace =
    pod <> ("." <> (storage_service_name name <> ("." <> (namespace <> ".svc.cluster.local"))))

unfoldable pub gen_storage_fqdn_from_name : String → Undermoon → String
unfolding gen_storage_fqdn
gen_storage_fqdn_from_name pod cr = gen_storage_fqdn pod cr.metadata.name cr.metadata.namespace

unfoldable pub gen_storage_address_from_name : String → Undermoon → String
unfolding gen_storage_fqdn_from_name
gen_storage_address_from_name pod cr =
    gen_storage_fqdn_from_name pod cr <> (":" <> format_nat cr.spec.port)

-- In `int`, which has 64 bits: no product of a `uint32` by 2 or 4 wraps.
abbrev pub storage_replicas : Undermoon → ℕ
storage_replicas cr = cr.spec.chunk_number * half_chunk_node_number

unfoldable pub gen_storage_stateful_set_addrs : Undermoon → List String
unfolding gen_storage_names
gen_storage_stateful_set_addrs cr =
    map (λ pod. gen_storage_address_from_name pod cr)
      (gen_storage_names cr.metadata.name (storage_replicas cr))
