-- ===== src/Names/Broker.antt =====
-- Names of the broker's objects and the addresses of its pods (broker.go).
use undermoon_operator_old.Common.{ℕ, zero, suc, ◌+◌, String, ◌<>◌, List, [], ◌∷◌, map}
use undermoon_operator_old.Kube.{Undermoon}
use undermoon_operator_old.Go.Format.{format_nat}

abbrev pub broker_port : ℕ
broker_port = 7799

abbrev pub broker_num : ℕ
broker_num = 3

unfoldable pub broker_service_name : String → String
broker_service_name name = name <> "-bk-svc"

unfoldable pub broker_stateful_set_name : String → String
broker_stateful_set_name name = name <> "-bk-ss"

-- The loop from `i`, with the rounds that are left.
unfoldable pub broker_names_from : String → ℕ → ℕ → List String
broker_names_from name i zero = []
broker_names_from name i (suc rounds) =
    (broker_stateful_set_name name <> ("-" <> format_nat i)) ∷ broker_names_from name (i + 1) rounds

unfoldable pub gen_broker_names : String → List String
unfolding broker_names_from
gen_broker_names name = broker_names_from name 0 broker_num

unfoldable pub gen_broker_fqdn : String → String → String → String
gen_broker_fqdn pod name namespace =
    pod <> ("." <> (broker_service_name name <> ("." <> (namespace <> ".svc.cluster.local"))))

unfoldable pub gen_broker_address_from_name : String → Undermoon → String
unfolding gen_broker_fqdn
gen_broker_address_from_name pod cr =
    let host = gen_broker_fqdn pod cr.metadata.name cr.metadata.namespace in
    host <> (":" <> format_nat broker_port)

unfoldable pub gen_broker_stateful_set_addrs : Undermoon → List String
unfolding gen_broker_names
gen_broker_stateful_set_addrs cr =
    map (λ pod. gen_broker_address_from_name pod cr) (gen_broker_names cr.metadata.name)
