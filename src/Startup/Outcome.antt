-- ===== src/Startup/Outcome.antt =====
-- What main calls, and in which order: the process starts the manager once everything is set up, or
-- exits with the status 1.
use undermoon_operator_old.Common.{
  [], All, All-append, false, inl, inr, refl, String, true, ℕ, ◌++◌, ◌∷◌, ◌≡◌, ◌⊎◌,
}
use undermoon_operator_old.Go.{err, ok, Result, Result-cases}
use undermoon_operator_old.Startup.{
  add_metrics, add_to_manager, add_to_scheme, become_leader, call, get_config, get_watch_namespace,
  main, manager_options, new_manager, or_exit, Platform, Run, start, status, Steps, ◌>>=◌, ◌>>◌,
}
use undermoon_operator_old.Startup.Metrics.{add_metrics-OnlyMetrics, is_metrics}
use undermoon_operator_old.Startup.Wiring.{add_to_manager-IsWired, is_start, IsWired, wired}

module _ {Handle : Type 0} (p : Platform Handle) where
  -- The process exits with the status 1 and has not started the manager.
  abbrev pub Exits : Result ℕ (Unit {0}) × Steps Handle → Type 0
  Exits outcome = (outcome.0 ≡ err 1) × All (λ x. is_start x ≡ false) outcome.1

  -- After the set-up that ends with `h`, the calls about metrics and the start of the manager,
  -- whose error is the process's.
  abbrev pub Starts : Handle → Result ℕ (Unit {0}) × Steps Handle → Steps Handle → Type 0
  Starts mgr outcome h =
      (l : Steps Handle) × All (λ x. is_metrics x ≡ true) l
      × (outcome ≡ (status (p.on_start (l ++ h) mgr), start mgr ∷ l ++ h))

  abbrev start_manager : Handle → Handle → Run Handle ℕ (Unit {0})
  start_manager cfg mgr = add_metrics p cfg >> or_exit (call (start mgr) λ h. p.on_start h mgr)

  start_manager-Starts :
      (cfg mgr : Handle) (h : Steps Handle) → Starts mgr (start_manager cfg mgr h) h
  unfolding ◌>>=◌
  start_manager-Starts cfg mgr h =
      let (e, (l, e', a)) = add_metrics-OnlyMetrics p cfg h in (l, a, rw (e, e') refl)

  wire-Outcome :
      (cfg mgr : Handle) (h : Steps Handle)
      → All (λ x. is_start x ≡ false) h
      → ((w : IsWired p mgr h) × Starts mgr
            ((or_exit (add_to_manager p mgr) >> start_manager cfg mgr) h)
            (wired p w.controller mgr h))
        ⊎ Exits ((or_exit (add_to_manager p mgr) >> start_manager cfg mgr) h)
  unfolding ◌>>=◌
  wire-Outcome cfg mgr h n = elim (add_to_manager-IsWired p mgr h) [
    | inl (w, e) ↦ inl (w, rw e (start_manager-Starts cfg mgr (wired p w.controller mgr h)))
    | inr (x, e, (l, e', a)) ↦ inr (rw (e, e') (refl, All-append _ l h a n))
  ]

  abbrev elected_steps : Steps Handle
  elected_steps = become_leader "undermoon-operator-lock" ∷ get_config ∷ get_watch_namespace ∷ []

  abbrev managed_steps : String → Handle → Steps Handle
  managed_steps ns cfg = new_manager cfg (manager_options ns) ∷ elected_steps

  abbrev registered_steps : String → Handle → Handle → Steps Handle
  registered_steps ns cfg mgr = add_to_scheme (p.scheme_of mgr) ∷ managed_steps ns cfg

  -- Each call of the set-up goes well, in the order of main: the lock of the leader is taken before
  -- a manager is made, and the manager has the types and the controller before it starts.
  pub record IsReady : Type 0 where
    pub namespace : String
    pub config : Handle
    pub manager : Handle
    pub named : p.on_watch_namespace [] ≡ ok namespace
    pub configured : p.on_config (get_watch_namespace ∷ []) ≡ ok config
    pub elected :
        p.on_leader (get_config ∷ get_watch_namespace ∷ []) "undermoon-operator-lock" ≡ ok tt
    pub managed : p.on_new_manager elected_steps config (manager_options namespace) ≡ ok manager
    pub registered :
        p.on_add_to_scheme (managed_steps namespace config) (p.scheme_of manager) ≡ ok tt
    pub wiring : IsWired p manager (registered_steps namespace config manager)

  abbrev pub ready_steps : IsReady → Steps Handle
  ready_steps r =
      wired p r.wiring.controller r.manager (registered_steps r.namespace r.config r.manager)

  -- The rest of main, from the lock on.
  lead :
      (ns : String) (cfg : Handle)
      → p.on_watch_namespace [] ≡ ok ns
      → p.on_config (get_watch_namespace ∷ []) ≡ ok cfg
      → Exits (main p []) ⊎ ((r : IsReady) × Starts r.manager (main p []) (ready_steps r))
  unfolding main ◌>>=◌
  lead ns cfg named configured =
      let h = get_config ∷ get_watch_namespace ∷ [] in
      elim (Result-cases (p.on_leader h "undermoon-operator-lock")) [
        | inr (x, elected) ↦
            inl (rw (named, configured, elected) (refl, (refl, (refl, (refl, tt)))))
        | inl (_, elected) ↦
            elim (Result-cases (p.on_new_manager elected_steps cfg (manager_options ns))) [
              | inr (x, managed) ↦ inl (
                  rw (named, configured, elected, managed)
                    (refl, (refl, (refl, (refl, (refl, tt))))))
              | inl (mgr, managed) ↦
                  elim (Result-cases
                    (p.on_add_to_scheme (managed_steps ns cfg) (p.scheme_of mgr))) [
                      | inr (x, registered) ↦ inl (
                          rw (named, configured, elected, managed, registered)
                            (refl, (refl, (refl, (refl, (refl, (refl, tt)))))))
                      | inl (_, registered) ↦
                          elim (wire-Outcome cfg mgr (registered_steps ns cfg mgr)
                            (refl, (refl, (refl, (refl, (refl, tt)))))) [
                              | inr exits ↦
                                  inl (rw (named, configured, elected, managed, registered) exits)
                              | inl (w, starts) ↦ inr (
                                record {
                                  namespace = ns;
                                  config = cfg;
                                  manager = mgr;
                                  named = named;
                                  configured = configured;
                                  elected = elected;
                                  managed = managed;
                                  registered = registered;
                                  wiring = w;
                                },
                                rw (named, configured, elected, managed, registered) starts,
                              )
                            ]
                    ]
            ]
      ]

  -- Either the process exits with the status 1 without having started the manager, or each call of
  -- the set-up has gone well in its order; then, whatever the calls about metrics answer, its last
  -- call starts the manager, and it exits with the status 1 just where that call fails.
  pub main-Outcome :
      Exits (main p []) ⊎ ((r : IsReady) × Starts r.manager (main p []) (ready_steps r))
  unfolding main ◌>>=◌
  main-Outcome = elim (Result-cases (p.on_watch_namespace [])) [
    | inr (x, named) ↦ inl (rw named (refl, (refl, tt)))
    | inl (ns, named) ↦ elim (Result-cases (p.on_config (get_watch_namespace ∷ []))) [
      | inr (x, configured) ↦ inl (rw (named, configured) (refl, (refl, (refl, tt))))
      | inl (cfg, configured) ↦ lead ns cfg named configured
    ]
  ]
