-- ===== src/BrokerClient/Effects.antt =====
-- What the requests of broker_client.go ask a broker to hold: the replicas in its configuration and
-- the addresses in its registry.
use text.Mathlib.TextLemmas.{append_cancel_left, append_cancel_right}
use undermoon_operator_old.BrokerClient.{config_url, proxies_url, proxy_url}
use undermoon_operator_old.BrokerClient.AddressSet.{AddressSet, insert, keep_only}
use undermoon_operator_old.Common.{
  [], ap, Bool, eq_iff, if◌then◌else◌, inl, inr, List, not, refl, String, String-cases, true, ◌==◌,
  ◌∷◌, ◌≡◌,
}
use undermoon_operator_old.World.{
  Call, delete, History, Method, Payload, post, proxy_meta, put, replica_addresses,
}

-- The last PUT of a configuration is the one that counts; before the first there are no replicas.
unfoldable pub put_config : Method → Payload → Bool → List String → List String
put_config put (replica_addresses l) true before = l
put_config _ _ _ before = before

unfoldable pub config_at : History → String → List String
unfolding put_config
config_at [] url = []
config_at (Call.http r ∷ h) url = put_config r.method r.payload (r.url == url) (config_at h url)
config_at (_ ∷ h) url = config_at h url

abbrev pub config : History → String → List String
config h a = config_at h (config_url a)

module _ (master : String) where
  -- A POST adds the proxy's address, and a DELETE removes the address that its URL names.
  unfoldable pub change_registry : Method → String → Payload → AddressSet → AddressSet
  change_registry post url (proxy_meta p) s =
      if url == proxies_url master then insert p.proxy_address s else s
  change_registry delete url payload s = keep_only (λ a. not (url == proxy_url master a)) s
  change_registry _ _ _ s = s

  unfoldable pub registry : AddressSet → History → AddressSet
  unfolding change_registry
  registry start [] = start
  registry start (Call.http r ∷ h) = change_registry r.method r.url r.payload (registry start h)
  registry start (_ ∷ h) = registry start h

-- A test of texts that stands for another one.
test_equal : {s t u v : String} → (s ≡ t → u ≡ v) → (u ≡ v → s ≡ t) → (s == t) ≡ (u == v)
test_equal {s} {t} {u} {v} f g = elim (String-cases u v) [
  | inl (same, p) ↦ rw same ((eq_iff s t).1 (g p))
  | inr (differ, n) ↦ elim (String-cases s t) [
    | inl (same, p) ↦ absurd (n (f p))
    | inr (differ', n') ↦ rw (differ, differ') refl
  ]
]

pub config_url-eq : (a b : String) → (config_url a == config_url b) ≡ (a == b)
config_url-eq a b =
    test_equal (λ p. append_cancel_right a b _ (append_cancel_left "http://" _ _ p))
      (λ (p : a ≡ b). ap (λ c. config_url c) p)

pub proxy_url-eq : (master a b : String) → (proxy_url master a == proxy_url master b) ≡ (a == b)
proxy_url-eq master a b =
    test_equal
      (λ p.
        append_cancel_left "/api/v2/proxies/meta/" a b
          (append_cancel_left master _ _ (append_cancel_left "http://" _ _ p)))
      (λ (p : a ≡ b). ap (λ c. proxy_url master c) p)
