-- ===== src/MetaController/Elected.antt =====
-- setBrokerReplicas of meta_controller.go: the master holds the other brokers as its replicas, and
-- they hold none. Nothing later in reconcileMeta changes that.
use undermoon_operator_old.BrokerClient as Client
use undermoon_operator_old.BrokerClient.{config_url}
use undermoon_operator_old.BrokerClient.Effects.{config, config_at, config_url-eq, put_config}
use undermoon_operator_old.BrokerClient.Requests.{
  cluster_exists-Asks, create_cluster-Asks, deregister_server_proxy-Asks, get_cluster_info-Asks,
  get_server_proxies-Asks, register_server_proxy-Asks, request, set_broker_replicas-Asks,
}
use undermoon_operator_old.Common.{
  [], ap, arith, Bool, contains, eq_iff, false, if◌then◌else◌, List, refl, String, true, ◌==◌, ◌∙◌,
  ◌∷◌, ◌≡◌,
}
use undermoon_operator_old.Exec.{Exec, pure, State, ◌>>◌}
use undermoon_operator_old.Exec.Quiet.{Asks, bind-Ran}
use undermoon_operator_old.Exec.Rules.{
  Keeps, Keeps-attempt, Keeps-bind, Keeps-if, Keeps-pure, Keeps-throw,
}
use undermoon_operator_old.Exec.Triples.{Triple, Triple-bind, Triple-of_Keeps}
use undermoon_operator_old.Go.{GoError, ok}
use undermoon_operator_old.Kube.{Undermoon}
use undermoon_operator_old.MetaController.{
  clear_replicas, create_cluster, deregister_all, deregister_server_proxies, get_cluster_info,
  reconcile_meta, reconcile_server_proxy_registry, register_server_proxies, set_broker_replicas,
}
use undermoon_operator_old.World.{Call, Env, History, put, replica_addresses, ServerProxyMeta}

config-put :
    (a b : String) (l : List String) (h : History)
    → config (request put (config_url a) (replica_addresses l) ∷ h) b
      ≡ (if a == b then l else config h b)
unfolding config_at put_config
config-put a b l h = rw (config_url-eq a b) (chosen (a == b))
  where
    chosen :
        (t : Bool)
        → put_config put (replica_addresses l) t (config h b) ≡ (if t then l else config h b)
    chosen true = refl
    chosen false = refl

-- The calls after a PUT of no replicas to each broker of a list.
abbrev cleared : List String → History → History
cleared [] h = h
cleared (a ∷ l) h = cleared l (request put (config_url a) (replica_addresses []) ∷ h)

config-cleared :
    (l : List String) (b : String) (h : History)
    → config (cleared l h) b ≡ (if contains b l then [] else config h b)
config-cleared [] b h = refl
config-cleared (a ∷ l) b h =
    config-cleared l b (request put (config_url a) (replica_addresses []) ∷ h)
    ∙ ground (arith, config-put a b [] h, eq_iff a b, eq_iff b a)

-- The master holds the replicas, and they hold none.
pub record IsElected (master : String) (replicas : List String) (h : History) : Type 0 where
  pub holds : contains master replicas ≡ false → config h master ≡ replicas
  pub cleared : (a : String) → contains a replicas ≡ true → config h a ≡ []

module _ (env : Env) where
  put_calls :
      (a : String) (l : List String) (s : State)
      → (Client.set_broker_replicas env a l s).1.calls
        ≡ request put (config_url a) (replica_addresses l) ∷ s.calls
  put_calls a l s = ap (λ t. t.calls) ((set_broker_replicas-Asks env a l).at s)

  clear_replicas-cleared :
      (l : List String) (s : State)
      → (clear_replicas env l s).0 ≡ ok tt
      → (clear_replicas env l s).1.calls ≡ cleared l s.calls
  unfolding clear_replicas pure
  clear_replicas-cleared [] s h = refl
  clear_replicas-cleared (a ∷ l) s h =
      let ran = bind-Ran (Client.set_broker_replicas env a []) (λ _. clear_replicas env l) s tt h in
      ap (λ t. t.1.calls) ran.whole
      ∙ clear_replicas-cleared l (Client.set_broker_replicas env a [] s).1 ran.rest
      ∙ ap (cleared l) (put_calls a [] s)

  set_broker_replicas-cleared :
      (master : String) (replicas : List String) (s : State)
      → (set_broker_replicas env master replicas s).0 ≡ ok tt
      → (set_broker_replicas env master replicas s).1.calls
        ≡ cleared replicas (request put (config_url master) (replica_addresses replicas) ∷ s.calls)
  unfolding set_broker_replicas
  set_broker_replicas-cleared master replicas s h =
      let ran =
        bind-Ran (Client.set_broker_replicas env master replicas) (λ _. clear_replicas env replicas)
          s tt h in
      ap (λ t. t.1.calls) ran.whole
      ∙ clear_replicas-cleared replicas (Client.set_broker_replicas env master replicas s).1
          ran.rest
      ∙ ap (cleared replicas) (put_calls master replicas s)

  -- What the brokers hold after setBrokerReplicas.
  config_set :
      (master : String) (replicas : List String) (a : String) (h : History)
      → config
          (cleared replicas (request put (config_url master) (replica_addresses replicas) ∷ h))
          a
        ≡ (if contains a replicas then [] else if master == a then replicas else config h a)
  config_set master replicas a h =
      rw
        (
          config-cleared replicas a
              (request put (config_url master) (replica_addresses replicas) ∷ h),
          config-put master a replicas h,
        )
        refl

  -- If setBrokerReplicas succeeds, its PUTs leave these configurations, where each PUT counts as
  -- done: each replica holds no replicas, the master holds the replicas unless it is one of them,
  -- and any other broker holds what it held.
  pub config-set_broker_replicas :
      (master : String) (replicas : List String) (a : String) (s : State)
      → (set_broker_replicas env master replicas s).0 ≡ ok tt
      → config (set_broker_replicas env master replicas s).1.calls a
        ≡ (if contains a replicas then [] else if master == a then replicas else config s.calls a)
  config-set_broker_replicas master replicas a s h =
      ap (λ t. config t a) (set_broker_replicas-cleared master replicas s h)
      ∙ config_set master replicas a s.calls

  module _ (master : String) (replicas : List String) where
    abbrev Elected : State → Type 0
    Elected s = IsElected master replicas s.calls

    set_broker_replicas-IsElected :
        Triple (λ _. Unit {0}) (set_broker_replicas env master replicas) (λ _ s. Elected s)
    set_broker_replicas-IsElected = record {
      at = λ s p a h.
          let at = λ (b : String). config-set_broker_replicas master replicas b s h in
          record {
            holds = λ n. at master ∙ rw n (ground (arith, eq_iff master master));
            cleared = λ b i. at b ∙ rw i refl;
          };
    }

    -- Any request but the PUT of a configuration.
    other-Keeps :
        {A : Type 0} (c : Call) (m : Exec GoError A)
        → Asks c m
        → ((h : History) (a : String) → config (c ∷ h) a ≡ config h a)
        → Keeps Elected m
    other-Keeps c m asks same = record {
      at = λ s e. rw (asks.at s) (record {
        holds = λ n. same s.calls master ∙ e.holds n;
        cleared = λ a i. same s.calls a ∙ e.cleared a i;
      });
    }

    register-Keeps :
        (l : List ServerProxyMeta) → Keeps Elected (register_server_proxies env master l)
    unfolding register_server_proxies config_at put_config
    register-Keeps [] = Keeps-pure tt
    register-Keeps (p ∷ l) =
        Keeps-bind _ _
          (Keeps-attempt _
            (other-Keeps _ _ (register_server_proxy-Asks env master p) (λ h a. refl)))
          (λ r. register-Keeps l)

    deregister_all-Keeps : (l : List String) → Keeps Elected (deregister_all env master l)
    unfolding deregister_all config_at put_config
    deregister_all-Keeps [] = Keeps-pure tt
    deregister_all-Keeps (b ∷ l) =
        Keeps-bind _ _
          (Keeps-attempt _
            (other-Keeps _ _ (deregister_server_proxy-Asks env master b) (λ h a. refl)))
          (λ r. deregister_all-Keeps l)

    registry-Keeps :
        (l : List ServerProxyMeta) (cr : Undermoon)
        → Keeps Elected (reconcile_server_proxy_registry env master l cr)
    unfolding reconcile_server_proxy_registry deregister_server_proxies config_at put_config
    registry-Keeps l cr = Keeps-bind _ _ (register-Keeps l) (λ u.
        Keeps-bind _ _ (other-Keeps _ _ (get_server_proxies-Asks env master) (λ h a. refl))
          (λ existing. deregister_all-Keeps _))

    cluster-Keeps :
        (cr : Undermoon)
        → Keeps Elected (create_cluster env master cr >> get_cluster_info env master cr)
    unfolding create_cluster get_cluster_info config_at put_config
    cluster-Keeps cr =
        Keeps-bind _ _
          (Keeps-bind _ _ (other-Keeps _ _ (cluster_exists-Asks env master _) (λ h a. refl))
            (λ found.
              Keeps-if found _ _ (λ _. Keeps-pure tt)
                (λ _. other-Keeps _ _ (create_cluster-Asks env master _ _) (λ h a. refl))))
          (λ u. other-Keeps _ _ (get_cluster_info-Asks env master _) (λ h a. refl))

    pub reconcile_meta-IsElected :
        (l : List ServerProxyMeta) (cr : Undermoon) (ready : Bool)
        → Triple
            (λ _. Unit {0})
            (reconcile_meta env master replicas l cr ready)
            (λ _ s. IsElected master replicas s.calls)
    unfolding reconcile_meta
    reconcile_meta-IsElected l cr ready = Triple-bind _ _ set_broker_replicas-IsElected (λ u.
        Triple-of_Keeps _ (
          Keeps-bind _ _ (registry-Keeps l cr)
            (λ u'. Keeps-if ready _ _ (λ _. cluster-Keeps cr) (λ _. Keeps-throw _))))
