-- ===== src/Names/Coordinator.antt =====
-- Names of the coordinators' objects and the addresses of their pods (coordinator.go).
use undermoon_operator_old.Common.{ℕ, zero, suc, ◌+◌, String, ◌<>◌, List, [], ◌∷◌, map}
use undermoon_operator_old.Kube.{Undermoon}
use undermoon_operator_old.Go.Format.{format_nat}

abbrev pub coordinator_port : ℕ
coordinator_port = 6699

abbrev pub coordinator_num : ℕ
coordinator_num = 3

unfoldable pub coordinator_service_name : String → String
coordinator_service_name name = name <> "-cd-svc"

unfoldable pub coordinator_stateful_set_name : String → String
coordinator_stateful_set_name name = name <> "-cd-ss"

-- The loop from `i`, with the rounds that are left.
unfoldable pub coordinator_names_from : String → ℕ → ℕ → List String
coordinator_names_from name i zero = []
coordinator_names_from name i (suc rounds) =
    (coordinator_stateful_set_name name <> ("-" <> format_nat i))
    ∷ coordinator_names_from name (i + 1) rounds

unfoldable pub gen_coordinator_names : String → List String
unfolding coordinator_names_from
gen_coordinator_names name = coordinator_names_from name 0 coordinator_num

unfoldable pub gen_coordinator_fqdn : String → String → String → String
gen_coordinator_fqdn pod name namespace =
    pod <> ("." <> (coordinator_service_name name <> ("." <> (namespace <> ".svc.cluster.local"))))

unfoldable pub gen_coordinator_address_from_name : String → Undermoon → String
unfolding gen_coordinator_fqdn
gen_coordinator_address_from_name pod cr =
    let host = gen_coordinator_fqdn pod cr.metadata.name cr.metadata.namespace in
    host <> (":" <> format_nat coordinator_port)

unfoldable pub gen_coordinator_stateful_set_addrs : Undermoon → List String
unfolding gen_coordinator_names
gen_coordinator_stateful_set_addrs cr =
    map (λ pod. gen_coordinator_address_from_name pod cr) (gen_coordinator_names cr.metadata.name)
