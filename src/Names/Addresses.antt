-- ===== src/Names/Addresses.antt =====
-- Which pods share an address (broker.go, coordinator.go and storage.go).
use Prim.Native.Char.{Char, code}
use text.Mathlib.TextLemmas.{append_assoc, append_cancel_right, cons-append, nil-append}
use undermoon_operator_old.Common.{
  [], All, ap, arith, inl, inr, List, map, none, Option, refl, some, String, sym, ℕ, ◌<>◌, ◌↔◌, ◌∙◌,
  ◌∷◌, ◌≡◌, ◌≢◌, ◌⊎◌,
}
use undermoon_operator_old.Go.Format.{format_nat}
use undermoon_operator_old.Go.Ports.{host-injective}
use undermoon_operator_old.Kube.{EndpointAddress, Undermoon}
use undermoon_operator_old.Names.Broker.{
  broker_port, broker_service_name, gen_broker_address_from_name, gen_broker_fqdn,
}
use undermoon_operator_old.Names.Coordinator.{
  coordinator_port, coordinator_service_name, gen_coordinator_address_from_name,
  gen_coordinator_fqdn,
}
use undermoon_operator_old.Names.Laws.{Distinct}
use undermoon_operator_old.Names.Storage.{
  gen_storage_address_from_name, gen_storage_fqdn, gen_storage_fqdn_from_name, storage_service_name,
}
use undermoon_operator_old.Resources.Laws.{broker, Component, coordinator, storage}

abbrev pub address_of : Component → String → Undermoon → String
address_of broker pod cr = gen_broker_address_from_name pod cr
address_of coordinator pod cr = gen_coordinator_address_from_name pod cr
address_of storage pod cr = gen_storage_address_from_name pod cr

abbrev later : Option ℕ → Char → Option ℕ
later (some d) c = some d
later none c = some (code c)

-- The code of the last character, if there is one.
unfoldable last : String → Option ℕ
last String.[] = none
last (String.◌∷◌ c s) = later (last s) c

last-append : (s : String) (c : Char) → last (s <> String.◌∷◌ c "") ≡ some (code c)
unfolding last
last-append String.[] c = rw nil-append refl
last-append (String.◌∷◌ d s) c = rw (cons-append, last-append s c) refl

-- The host of a pod, where `kind` is the end of its service's name.
abbrev host : String → String → String → String → String
host kind pod name namespace =
    pod <> ("." <> ((name <> kind) <> ("." <> (namespace <> ".svc.cluster.local"))))

-- Services whose names end differently have no host in common.
host-ne :
    (a b : String) (c d : Char) (name namespace p q : String)
    → code c ≢ code d
    → host (a <> (String.◌∷◌ c "" <> "-svc")) p name namespace
      ≢ host (b <> (String.◌∷◌ d "" <> "-svc")) q name namespace
host-ne a b c d name namespace p q n e =
    let h = append_cancel_right _ _ _ (sym (split a c p) ∙ e ∙ split b d q) in
    n (inside (sym (last-append _ c) ∙ ap last h ∙ last-append _ d))
  where
    inside : {m n : ℕ} → some m ≡ some n → m ≡ n
    inside h = cc

    split :
        (a : String) (c : Char) (p : String)
        → host (a <> (String.◌∷◌ c "" <> "-svc")) p name namespace
          ≡ ((p <> ("." <> (name <> a))) <> String.◌∷◌ c "")
            <> ("-svc" <> ("." <> (namespace <> ".svc.cluster.local")))
    split a c p = simp append_assoc

-- The last letter of a component in the name of its service.
abbrev letter : Component → Char
letter broker = "k"
letter coordinator = "d"
letter storage = "g"

abbrev start : Component → String
start broker = "-b"
start coordinator = "-c"
start storage = "-st"

abbrev port : Component → Undermoon → ℕ
port broker cr = broker_port
port coordinator cr = coordinator_port
port storage cr = cr.spec.port

host_of : Component → String → Undermoon → String
host_of c pod cr =
    host (start c <> (String.◌∷◌ (letter c) "" <> "-svc")) pod cr.metadata.name
      cr.metadata.namespace

address_of_lem :
    (c : Component) (p : String) (cr : Undermoon)
    → address_of c p cr ≡ host_of c p cr <> (":" <> format_nat (port c cr))
unfolding gen_broker_address_from_name gen_coordinator_address_from_name
    gen_storage_address_from_name gen_storage_fqdn_from_name gen_broker_fqdn gen_coordinator_fqdn
    gen_storage_fqdn broker_service_name coordinator_service_name storage_service_name host_of
address_of_lem broker p cr = refl
address_of_lem coordinator p cr = refl
address_of_lem storage p cr = refl

differ : (c d : Component) → (c ≡ d) ⊎ (code (letter c) ≢ code (letter d))
differ broker broker = inl refl
differ broker coordinator = inr (λ h. omega (arith, h))
differ broker storage = inr (λ h. omega (arith, h))
differ coordinator broker = inr (λ h. omega (arith, h))
differ coordinator coordinator = inl refl
differ coordinator storage = inr (λ h. omega (arith, h))
differ storage broker = inr (λ h. omega (arith, h))
differ storage coordinator = inr (λ h. omega (arith, h))
differ storage storage = inl refl

host_of-injective :
    (c d : Component) (p q : String) (cr : Undermoon)
    → host_of c p cr ≡ host_of d q cr
    → (c ≡ d) × (p ≡ q)
unfolding host_of
host_of-injective c d p q cr e = elim (differ c d) [
  | inl same ↦ (same, append_cancel_right p q _ (rw same at e))
  | inr n ↦ absurd (host-ne (start c) (start d) (letter c) (letter d) _ _ p q n e)
]

-- Two pods of one resource have the same address just where they belong to the same component and
-- have the same hostname, whatever port the resource gives to its server proxies.
pub address_of_iff :
    (c d : Component) (p q : String) (cr : Undermoon)
    → (address_of c p cr ≡ address_of d q cr) ↔ ((c ≡ d) × (p ≡ q))
address_of_iff c d p q cr = (
  λ e. host_of-injective c d p q cr (
      host-injective _ _ (port c cr) (port d cr)
        (sym (address_of_lem c p cr) ∙ e ∙ address_of_lem d q cr)),
  λ (same, named). rw (same, named) refl,
)

abbrev pub hostname_of : EndpointAddress → String
hostname_of e = e.hostname

module _ (cr : Undermoon) where
  -- The brokers' addresses, by the hostnames of their pods.
  abbrev pub broker_address : EndpointAddress → String
  broker_address e = gen_broker_address_from_name e.hostname cr

  others_differ :
      (e : EndpointAddress) (l : List EndpointAddress)
      → All (λ t. hostname_of e ≢ t) (map hostname_of l)
      → All (λ t. broker_address e ≢ t) (map broker_address l)
  others_differ e [] h = tt
  others_differ e (f ∷ l) (n, h) = (
    λ same. n ((address_of_iff broker broker e.hostname f.hostname cr).0 same).1,
    others_differ e l h,
  )

  pub broker_address-Distinct :
      (l : List EndpointAddress) → Distinct (map hostname_of l) → Distinct (map broker_address l)
  broker_address-Distinct [] d = tt
  broker_address-Distinct (e ∷ l) (n, d) = (others_differ e l n, broker_address-Distinct l d)
