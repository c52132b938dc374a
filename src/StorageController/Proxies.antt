-- ===== src/StorageController/Proxies.antt =====
-- What getServerProxies of storage_controller.go makes of the pods of the StatefulSet.
use mathlib.Core.Path.{subst}
use undermoon_operator_old.BrokerClient.{new_server_proxy_meta}
use undermoon_operator_old.Common.{
  ap, arith, Bool-cases, contains, eq_iff, eqb, eqb_iff, inl, inr, List, map, String, suc, true,
  zero, ℕ, ◌+◌, ◌<◌, ◌^◌, ◌∷◌, ◌≡◌, ◌≤◌, ◌⊎◌,
}
use undermoon_operator_old.Common.Int.{pos}
use undermoon_operator_old.Go.ParseInt.{number}
use undermoon_operator_old.Kube.{Undermoon}
use undermoon_operator_old.Names.Laws.{pod_ordinal}
use undermoon_operator_old.Names.Storage.{
  gen_storage_address_from_name, gen_storage_stateful_set_addrs, storage_names_from,
  storage_pod_name, storage_replicas,
}
use undermoon_operator_old.StorageController.{server_proxy_of}
use undermoon_operator_old.World.{ServerProxyMeta}

module _ (cr : Undermoon) where
  abbrev pub proxy_of_pod : ℕ → ServerProxyMeta
  proxy_of_pod i = server_proxy_of cr (record { hostname = storage_pod_name cr.metadata.name i })

  abbrev pod_address : ℕ → String
  pod_address i = gen_storage_address_from_name (storage_pod_name cr.metadata.name i) cr

  contains-head : (a : String) (l : List String) → contains a (a ∷ l) ≡ true
  contains-head a l = ground (arith, eq_iff a a)

  contains-tail : (a b : String) (l : List String) → contains a l ≡ true → contains a (b ∷ l) ≡ true
  contains-tail a b l h = ground (arith, h)

  abbrev addresses_from : ℕ → ℕ → List String
  addresses_from start n =
      map (λ pod. gen_storage_address_from_name pod cr)
        (storage_names_from cr.metadata.name start n)

  eq_or_later : (a b : ℕ) → a ≤ b → (a ≡ b) ⊎ (a + 1 ≤ b)
  eq_or_later a b h = elim (Bool-cases (eqb a b)) [
    | inl e ↦ inl ((eqb_iff a b).0 e)
    | inr n ↦ inr (ground (arith, n, h))
  ]

  listed :
      (start n i : ℕ)
      → start ≤ i
      → i < start + n
      → contains (pod_address i) (addresses_from start n) ≡ true
  unfolding storage_names_from
  listed start zero i l h = absurd (omega arith)
  listed start (suc n) i l h = elim (eq_or_later start i l) [
    | inl same ↦
        subst
          (λ k. contains (pod_address k) (pod_address start ∷ addresses_from (start + 1) n) ≡ true)
          same (contains-head (pod_address start) (addresses_from (start + 1) n))
    | inr later ↦
        contains-tail (pod_address i) (pod_address start) (addresses_from (start + 1) n)
          (listed (start + 1) n i later (omega arith))
  ]

  -- For a number of chunks that a uint32 holds, the proxy on the pod `i` of a StatefulSet of the
  -- size asked for is given the index `i`, and its address is one of the StatefulSet's addresses.
  pub server_proxy_of-pod :
      (i : ℕ)
      → i < storage_replicas cr
      → cr.spec.chunk_number < 2 ^ 32
      → ((proxy_of_pod i).index ≡ pos i)
        × (contains (proxy_of_pod i).proxy_address (gen_storage_stateful_set_addrs cr) ≡ true)
  unfolding server_proxy_of new_server_proxy_meta gen_storage_stateful_set_addrs
      gen_storage_address_from_name
  server_proxy_of-pod i h small = (
    ap number (pod_ordinal cr.metadata.name i (omega arith)),
    listed 0 (storage_replicas cr) i (omega arith) (omega arith),
  )
