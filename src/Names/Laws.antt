-- ===== src/Names/Laws.antt =====
-- The addresses of the storage's pods, and a pod's ordinal in its hostname (storage.go).
use text.Mathlib.TextLemmas.{append_cancel_left, append_cancel_right}
use undermoon_operator_old.Common.{
  ℕ, zero, suc, ◌+◌, ◌^◌, ◌<◌, String, ◌≡◌, ◌≢◌, List, [], ◌∷◌, map, arith, All,
}
use undermoon_operator_old.Common.Int.{pos}
use undermoon_operator_old.Go.ParseInt.{value, parse_int, after_last_dash}
use undermoon_operator_old.Go.RoundTrip.{
  parse_int-format_nat, after_last_dash-format_nat, format_nat-injective,
}
use undermoon_operator_old.Kube.{Undermoon}
use undermoon_operator_old.Names.Storage.{
  storage_stateful_set_name, storage_pod_name, storage_names_from, gen_storage_address_from_name,
  storage_replicas, gen_storage_stateful_set_addrs,
}

-- What getServerProxies reads from the hostname of a pod of the StatefulSet is the pod's ordinal.
pub pod_ordinal :
    (name : String) (i : ℕ)
    → i < 2 ^ 63
    → parse_int (after_last_dash (storage_pod_name name i)) ≡ value (pos i)
unfolding storage_pod_name
pod_ordinal name i h = rw after_last_dash-format_nat (parse_int-format_nat i h)

storage_pod_name-injective :
    (name : String) (i j : ℕ)
    → i < 2 ^ 63
    → j < 2 ^ 63
    → storage_pod_name name i ≡ storage_pod_name name j
    → i ≡ j
unfolding storage_pod_name
storage_pod_name-injective name i j hi hj e =
    format_nat-injective i j hi hj
      (append_cancel_left "-" _ _ (append_cancel_left (storage_stateful_set_name name) _ _ e))

-- Two pods with the same address have the same hostname.
pub address-injective :
    (cr : Undermoon) (p q : String)
    → gen_storage_address_from_name p cr ≡ gen_storage_address_from_name q cr
    → p ≡ q
unfolding gen_storage_address_from_name
address-injective cr p q e = append_cancel_right p q _ (append_cancel_right _ _ _ e)

-- No text stands twice in a list.
abbrev pub Distinct : List String → Type 0
Distinct [] = Unit
Distinct (s ∷ ts) = All (λ t. s ≢ t) ts × Distinct ts

module _ (cr : Undermoon) where
  abbrev address : ℕ → String
  address i = gen_storage_address_from_name (storage_pod_name cr.metadata.name i) cr

  abbrev addresses_from : ℕ → ℕ → List String
  addresses_from i rounds =
      map (λ p. gen_storage_address_from_name p cr) (storage_names_from cr.metadata.name i rounds)

  address-ne :
      (i j rounds : ℕ)
      → i < j
      → j + rounds < 2 ^ 63
      → All (λ t. address i ≢ t) (addresses_from j rounds)
  unfolding storage_names_from
  address-ne i j zero h b = tt
  address-ne i j (suc rounds) h b = (
    λ e. absurd (
        omega (
          arith,
          storage_pod_name-injective cr.metadata.name i j (omega arith) (omega arith)
              (address-injective cr _ _ e),
        )),
    address-ne i (j + 1) rounds (omega arith) (omega arith),
  )

  addresses-Distinct_from :
      (i rounds : ℕ) → i + rounds < 2 ^ 63 → Distinct (addresses_from i rounds)
  unfolding storage_names_from
  addresses-Distinct_from i zero b = tt
  addresses-Distinct_from i (suc rounds) b = (
    address-ne i (i + 1) rounds (omega arith) (omega arith),
    addresses-Distinct_from (i + 1) rounds (omega arith),
  )

  -- For a number of chunks that a uint32 holds, no two of the StatefulSet's addresses are the
  -- same.
  pub gen_storage_stateful_set_addrs-Distinct :
      cr.spec.chunk_number < 2 ^ 32 → Distinct (gen_storage_stateful_set_addrs cr)
  unfolding gen_storage_stateful_set_addrs
  gen_storage_stateful_set_addrs-Distinct h =
      addresses-Distinct_from 0 (storage_replicas cr) (omega arith)
