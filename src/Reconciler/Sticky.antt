-- ===== src/Reconciler/Sticky.antt =====
-- The master broker from one run of Reconcile to the next.
use undermoon_operator_old.BrokerClient.{config_url, get_replica_addresses}
use undermoon_operator_old.BrokerClient.Effects.{config, config_at, put_config}
use undermoon_operator_old.BrokerClient.Requests.{get_replica_addresses-Asks, request}
use undermoon_operator_old.BrokerController.{
  choose_master, get_current_master, is_empty, master_brokers, replicas_of,
}
use undermoon_operator_old.BrokerController.Holders.{holders, holders-one, OnlyAt}
use undermoon_operator_old.BrokerController.Master.{
  contains-head, contains-replicas_of, contains-tail,
}
use undermoon_operator_old.Common.{
  [], All, All-imp, ap, arith, Bool, contains, eq_iff, false, inl, inr, List, refl, some, String,
  true, ◌∙◌, ◌∷◌, ◌≡◌,
}
use undermoon_operator_old.Exec.{Exec, pure, State, ◌>>=◌}
use undermoon_operator_old.Exec.Quiet.{bind-ok}
use undermoon_operator_old.Exec.Rules.{Keeps, Keeps-bind, Keeps-map_error, Keeps-pure}
use undermoon_operator_old.Exec.Triples.{Triple, Triple-bind, Triple-map_error, Triple-of_Keeps}
use undermoon_operator_old.Go.{ok}
use undermoon_operator_old.Kube.{Undermoon}
use undermoon_operator_old.MetaController.Elected.{IsElected, reconcile_meta-IsElected}
use undermoon_operator_old.Names.Laws.{Distinct}
use undermoon_operator_old.Reconciler.{
  change_cluster, Exit, retry_or_propagate, scale_cluster, settle_cluster, UmResource,
}
use undermoon_operator_old.StorageController.{scale_down_storage_stateful_set}
use undermoon_operator_old.StorageController.ScaleDown.{scale_down_storage_stateful_set_lem}
use undermoon_operator_old.World.{ClusterInfo, empty, Env, get, History, HttpResponse}

module _ (env : Env) where
  -- A broker answers the GET of its configuration with the replicas of the last PUT.
  pub record KeepsConfig : Type 0 where
    pub answer : History → String → HttpResponse
    pub answered :
        (h : History) (a : String)
        → env.on_http h (record { method = get; url = config_url a; payload = empty })
          ≡ ok (answer h a)
    pub fine : (h : History) (a : String) → (answer h a).status_code ≡ 200
    pub held : (h : History) (a : String) → env.result_config (answer h a) ≡ some (config h a)

  module _ (b : KeepsConfig) where
    replicas_held :
        (a : String) (s : State) → (get_replica_addresses env a s).0 ≡ ok (config s.calls a)
    unfolding get_replica_addresses ◌>>=◌
    replicas_held a s = rw (b.answered s.calls a, b.held s.calls a, b.fine s.calls a) refl

    master_brokers-holders :
        (l : List String) (s : State) → (master_brokers env l s).0 ≡ ok (holders (config s.calls) l)
    unfolding master_brokers ◌>>=◌ config_at put_config
    master_brokers-holders [] s = refl
    master_brokers-holders (a ∷ l) s =
        let asked : State = record s { calls = request get (config_url a) empty ∷ s.calls } in
        let f = config s.calls in
        rw ((get_replica_addresses-Asks env a).at s, replicas_held a s)
          (ap (λ t. t.0)
            (bind-ok (master_brokers env l) _ asked (master_brokers env l asked).1 (holders f l)
              (master_brokers-holders l asked) refl))

  -- Each broker of the list but the master is a replica.
  OnlyAt-set :
      (master : String) (all l : List String) (f : String → List String)
      → ((a : String) → contains a (replicas_of master all) ≡ true → f a ≡ [])
      → All (λ a. contains a all ≡ true) l
      → OnlyAt master f l
  OnlyAt-set master all [] f h i = tt
  OnlyAt-set master all (a ∷ l) f h i = (
    λ n.
        ap is_empty
          (h a (ground (arith, contains-replicas_of master all a, i.0, eq_iff a master, n))),
    OnlyAt-set master all l f h i.1,
  )

  contains-All : (l : List String) → All (λ a. contains a l ≡ true) l
  contains-All [] = tt
  contains-All (a ∷ l) =
      (contains-head a l, All-imp _ _ l (λ b. contains-tail b a l) (contains-All l))

  get_current_master-one :
      (l : List String) (master : String) (s : State)
      → (master_brokers env l s).0 ≡ ok (master ∷ [])
      → contains master l ≡ true
      → (get_current_master env l s).0 ≡ ok master
  unfolding get_current_master choose_master pure
  get_current_master-one [] master s e c = absurd (cc)
  get_current_master-one (a ∷ l) master s e c =
      ap (λ t. t.0)
        (bind-ok (master_brokers env (a ∷ l)) _ s (master_brokers env (a ∷ l) s).1 (master ∷ []) e
          refl)

  module _ (resource : UmResource) (cr : Undermoon) (master : String) (replicas : List String) where
    abbrev pub Elects : {A : Type 0} → Exec Exit A → Type 0
    Elects m = Triple (λ _. Unit {0}) m (λ _ s. IsElected master replicas s.calls)

    Elects-bind :
        {A B : Type 0} (m : Exec Exit A) (f : A → Exec Exit B)
        → ((a : A) → Elects (f a))
        → Elects (m >>= f)
    Elects-bind m f h = Triple-bind m f {R = λ _ _. Unit {0}} (record { at = λ s p a e. tt }) h

    scale_down-Keeps :
        (info : ClusterInfo)
        → Keeps
            (λ s. IsElected master replicas s.calls)
            (scale_down_storage_stateful_set env cr resource.storage_stateful_set info)
    unfolding config_at
    scale_down-Keeps info = record {
      at = λ s e.
          elim (scale_down_storage_stateful_set_lem env cr resource.storage_stateful_set info s) [
            | inl (differ, retry) ↦ rw retry e
            | inr (slots, asked) ↦ rw asked (record { holds = e.holds; cleared = e.cleared })
          ];
    }

    settle-Elects : (ready : Bool) → Elects (settle_cluster env resource cr master replicas ready)
    unfolding settle_cluster
    settle-Elects ready =
        Triple-bind _ _
          (Triple-map_error retry_or_propagate _
            (reconcile_meta-IsElected env master replicas [] cr ready))
          (λ info. Triple-of_Keeps _ (
            Keeps-bind _ _ (Keeps-map_error retry_or_propagate _ (scale_down-Keeps info))
              (λ ss. Keeps-pure tt)))

    pub scale-Elects : Elects (scale_cluster env resource cr master replicas)
    unfolding scale_cluster change_cluster
    scale-Elects = Elects-bind _ _ (λ proxies. Elects-bind _ _ (λ ready. Elects-bind _ _ (λ info.
        Elects-bind _ _
          (λ stable. Elects-bind _ _ (λ u. Elects-bind _ _ (λ u'. settle-Elects ready))))))

  -- The brokers that hold replicas are the master alone.
  pub get_current_master-IsElected :
      (master : String) (addresses : List String) (s : State)
      → KeepsConfig
      → Distinct addresses
      → contains master addresses ≡ true
      → is_empty (replicas_of master addresses) ≡ false
      → IsElected master (replicas_of master addresses) s.calls
      → (get_current_master env addresses s).0 ≡ ok master
  get_current_master-IsElected master addresses s b d c several elected =
      let n : contains master (replicas_of master addresses) ≡ false =
        ground (arith, contains-replicas_of master addresses master, eq_iff master master) in
      get_current_master-one addresses master s
        (master_brokers-holders b addresses s
          ∙ ap ok (
              holders-one (config s.calls) master addresses d c
                (ap is_empty (elected.holds n) ∙ several)
                (OnlyAt-set master addresses addresses (config s.calls) elected.cleared
                  (contains-All addresses))))
        c

  -- If a run of Reconcile goes through from the first registration of the proxies on, with one of
  -- several different brokers as the master and the others as its replicas, and the brokers answer
  -- with the configuration that was put last, then getCurrentMaster finds the same master in the
  -- state that the run leaves.
  pub scale_cluster-get_current_master :
      (resource : UmResource) (cr : Undermoon) (master : String) (addresses : List String)
      (s : State)
      → KeepsConfig
      → Distinct addresses
      → contains master addresses ≡ true
      → is_empty (replicas_of master addresses) ≡ false
      → (scale_cluster env resource cr master (replicas_of master addresses) s).0 ≡ ok tt
      → (get_current_master env addresses
          (scale_cluster env resource cr master (replicas_of master addresses) s).1).0
        ≡ ok master
  scale_cluster-get_current_master resource cr master addresses s b d c several h =
      let replicas = replicas_of master addresses in
      get_current_master-IsElected master addresses
        (scale_cluster env resource cr master replicas s).1 b d c several
        ((scale-Elects resource cr master replicas).at s tt tt h)
