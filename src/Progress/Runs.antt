-- ===== src/Progress/Runs.antt =====
-- Any number of runs of Reconcile in a world in which everything is up.
use mathlib.Core.Path.{subst}
use undermoon_operator_old.BrokerController.{get_current_master, is_empty, replicas_of}
use undermoon_operator_old.BrokerController.Answering.{get_current_master-contains}
use undermoon_operator_old.Common.{
  [], arith, contains, false, inl, inr, length, length-map, List, map, refl, String, String-cases,
  suc, sym, true, zero, ℕ, ◌∙◌, ◌∷◌, ◌≡◌, ◌≤◌,
}
use undermoon_operator_old.Common.Int.{ℤ}
use undermoon_operator_old.Exec.{State}
use undermoon_operator_old.Exec.Triples.{Triple}
use undermoon_operator_old.Go.{ok}
use undermoon_operator_old.Kube.{EndpointAddress, NamespacedName, Undermoon}
use undermoon_operator_old.Names.Addresses.{broker_address-Distinct, hostname_of}
use undermoon_operator_old.Names.Broker.{gen_broker_address_from_name}
use undermoon_operator_old.Names.Laws.{Distinct}
use undermoon_operator_old.Progress.{IsUp}
use undermoon_operator_old.Progress.Meta.{get_epoch-Succeeds}
use undermoon_operator_old.Progress.Pass.{body-Succeeds}
use undermoon_operator_old.Progress.Stability.{body-Led, broker_addresses, Leads, Leads-IsCalm}
use undermoon_operator_old.Reconciler.{reconcile}
use undermoon_operator_old.Reconciler.Sticky.{get_current_master-IsElected, KeepsConfig}
use undermoon_operator_old.Trace.Server.{IsCalm}
use undermoon_operator_old.Utils.{addresses_of_subsets}
use undermoon_operator_old.World.{Env}
use undermoon_operator_old.BrokerClient as Client

-- Of two different brokers one is not the master.
several :
    (l : List String) (m : String) → Distinct l → 2 ≤ length l → is_empty (replicas_of m l) ≡ false
unfolding replicas_of
several [] m d h = absurd (omega (arith, h))
several (a ∷ []) m d h = absurd (omega (arith, h))
several (a ∷ c ∷ l) m d h = elim (String-cases a m) [
  | inr (differ, n) ↦ rw differ refl
  | inl (same, p) ↦ elim (String-cases c m) [
    | inr (differ, n) ↦ rw (same, differ) refl
    | inl (same', q) ↦ absurd (d.0.0 (p ∙ sym q))
  ]
]

module _ (env : Env) (key : NamespacedName) (cr : Undermoon) (up : IsUp env key cr) where
  abbrev addresses : List String
  addresses = broker_addresses env key cr up

  unfoldable pub runs : ℕ → State → State
  runs zero s = s
  runs (suc n) s = (reconcile env key (runs n s)).1

  epochs-answered : (a : String) (s : State) → (z : ℤ) × ((Client.get_epoch env a s).0 ≡ ok z)
  epochs-answered a s = let (z, e, _) = (get_epoch-Succeeds env key cr up a).at s in (z, e)

  enough : 2 ≤ length addresses
  enough = ground (
    arith,
    up.broker_service.enough,
    length-map (λ (e : EndpointAddress). gen_broker_address_from_name e.hostname cr)
        (addresses_of_subsets up.broker_service.endpoints.subsets),
  )

  choice-contains :
      (l : List String)
      → 2 ≤ length l
      → Triple (λ _. Unit {0}) (get_current_master env l) (λ m _. contains m l ≡ true)
  choice-contains [] h = absurd (omega (arith, h))
  choice-contains (a ∷ l) h = record {
    at = λ s p m e.
        let (m', e', c) = get_current_master-contains env epochs-answered a l s in
        let same : m' ≡ m = cc in subst (λ x. contains x (a ∷ l) ≡ true) same c;
  }

  Unit-IsCalm : IsCalm (λ _. Unit {0})
  Unit-IsCalm = record { server = λ A c answer f. record { at = λ s p. tt } }

  -- The first run chooses a master.
  first_run :
      (s : State)
      → (m : String) × (contains m addresses ≡ true) × Leads env key cr up m (reconcile env key s).1
  unfolding reconcile
  first_run s =
      let (u, e, _) = (body-Succeeds env key cr up).at s in
      (body-Led env key cr up (λ m. contains m addresses ≡ true) Unit-IsCalm
          (choice-contains addresses enough)).at
        s tt u e

  -- The hostnames of the brokers' pods
  abbrev pub hostnames : List String
  hostnames = map hostname_of (addresses_of_subsets up.broker_service.endpoints.subsets)

  module _ (b : KeepsConfig env) (unequal : Distinct hostnames) where
    d : Distinct addresses
    d =
        broker_address-Distinct cr (addresses_of_subsets up.broker_service.endpoints.subsets)
          unequal

    choice-same :
        (m : String)
        → contains m addresses ≡ true
        → Triple (Leads env key cr up m) (get_current_master env addresses) (λ x _. x ≡ m)
    choice-same m c = record {
      at = λ s l x e.
          let found =
            get_current_master-IsElected env m addresses s b d c (several addresses m d enough)
              l.elected in
          let same : x ≡ m = cc in same;
    }

    -- A later run chooses the same one.
    later_run :
        (m : String) (s : State)
        → contains m addresses ≡ true
        → Leads env key cr up m s
        → Leads env key cr up m (reconcile env key s).1
    unfolding reconcile
    later_run m s c l =
        let (u, e, _) = (body-Succeeds env key cr up).at s in
        let (x, same, l') =
          (body-Led env key cr up (λ x. x ≡ m) (Leads-IsCalm env key cr up m) (choice-same m c)).at
            s l u e in
        subst (λ y. Leads env key cr up y (reconcile env key s).1) same l'

    runs-Leads :
        (m : String) (n : ℕ) (s : State)
        → contains m addresses ≡ true
        → Leads env key cr up m (reconcile env key s).1
        → Leads env key cr up m (runs (suc n) s)
    unfolding runs
    runs-Leads m zero s c l = l
    runs-Leads m (suc n) s c l = later_run m (runs (suc n) s) c (runs-Leads m n s c l)

    -- If everything is up (IsUp), the brokers answer with the configuration that was put last, and
    -- no two of their pods have the same hostname, then from the first run of Reconcile on,
    -- whatever state that started in, getCurrentMaster finds one and the same broker of the list
    -- after any two numbers of runs.
    pub runs-get_current_master :
        (i j : ℕ) (s : State)
        → (m : String) × (contains m addresses ≡ true)
          × ((get_current_master env addresses (runs (suc i) s)).0 ≡ ok m)
          × ((get_current_master env addresses (runs (suc j) s)).0 ≡ ok m)
    runs-get_current_master i j s =
        let (m, c, l) = first_run s in
        let found = λ (n : ℕ).
          get_current_master-IsElected env m addresses (runs (suc n) s) b d c
            (several addresses m d enough) (runs-Leads m n s c l).elected in
        (m, c, found i, found j)
