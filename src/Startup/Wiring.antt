-- ===== src/Startup/Wiring.antt =====
-- What Add does with the manager (undermoon_controller.go, controller.go and add_undermoon.go).
use undermoon_operator_old.Common.{[], All, Bool, false, inl, inr, refl, true, ◌++◌, ◌∷◌, ◌≡◌, ◌⊎◌}
use undermoon_operator_old.Go.{err, ok, Result-cases}
use undermoon_operator_old.Startup.{
  add, add_reconciler, add_to_manager, add_to_manager_funcs, enqueue_request_for_object,
  enqueue_request_for_owner, Fault, new_controller, new_reconciler, Platform, run_all, start,
  stateful_set, Step, Steps, undermoon, watch, ◌>>=◌,
}

abbrev pub is_start : {Handle : Type 0} → Step Handle → Bool
is_start (start mgr) = true
is_start _ = false

module _ {Handle : Type 0} (p : Platform Handle) where
  abbrev pub controller_step : Handle → Step Handle
  controller_step mgr = new_controller "undermoon-controller" mgr (new_reconciler p mgr)

  abbrev pub undermoon_step : Handle → Step Handle
  undermoon_step c = watch c undermoon enqueue_request_for_object

  abbrev pub stateful_set_step : Handle → Step Handle
  stateful_set_step c = watch c stateful_set (enqueue_request_for_owner undermoon true)

  -- The controller is made, and it watches the resources and the StatefulSets that they own.
  pub record IsWired (mgr : Handle) (h : Steps Handle) : Type 0 where
    pub controller : Handle
    pub created :
        p.on_new_controller h "undermoon-controller" mgr (new_reconciler p mgr) ≡ ok controller
    pub watches_resource :
        p.on_watch (controller_step mgr ∷ h) controller undermoon enqueue_request_for_object ≡ ok tt
    pub watches_sets :
        p.on_watch
          (undermoon_step controller ∷ controller_step mgr ∷ h)
          controller
          stateful_set
          (enqueue_request_for_owner undermoon true)
        ≡ ok tt

  abbrev pub wired : Handle → Handle → Steps Handle → Steps Handle
  wired c mgr h = stateful_set_step c ∷ undermoon_step c ∷ controller_step mgr ∷ h

  -- Calls are added, none of which starts the manager.
  abbrev pub NoStart : Steps Handle → Steps Handle → Type 0
  NoStart h t = (l : Steps Handle) × (t ≡ l ++ h) × All (λ x. is_start x ≡ false) l

  -- AddToManager, with the one function that init of add_undermoon.go adds to its list, makes the
  -- controller and the two watches, or returns an error.
  pub add_to_manager-IsWired :
      (mgr : Handle) (h : Steps Handle)
      → ((w : IsWired mgr h) × (add_to_manager p mgr h ≡ (ok tt, wired w.controller mgr h)))
        ⊎ ((x : Fault) × ((add_to_manager p mgr h).0 ≡ err x)
            × NoStart h (add_to_manager p mgr h).1)
  unfolding add_to_manager run_all add_to_manager_funcs add add_reconciler ◌>>=◌
  add_to_manager-IsWired mgr h =
      let h1 = controller_step mgr ∷ h in
      elim (Result-cases
        (p.on_new_controller h "undermoon-controller" mgr (new_reconciler p mgr))) [
          | inr (x, e) ↦ inr (x, rw e refl, (controller_step mgr ∷ [], rw e refl, (refl, tt)))
          | inl (c, e) ↦
              elim (Result-cases (p.on_watch h1 c undermoon enqueue_request_for_object)) [
                | inr (x, e') ↦ inr (
                  x,
                  rw (e, e') refl,
                  (
                    undermoon_step c ∷ controller_step mgr ∷ [],
                    rw (e, e') refl,
                    (refl, (refl, tt)),
                  ),
                )
                | inl (_, e') ↦
                    elim (Result-cases (
                      p.on_watch (undermoon_step c ∷ h1) c stateful_set
                        (enqueue_request_for_owner undermoon true))) [
                          | inr (x, e'') ↦ inr (
                            x,
                            rw (e, e', e'') refl,
                            (
                              stateful_set_step c ∷ undermoon_step c ∷ controller_step mgr ∷ [],
                              rw (e, e', e'') refl,
                              (refl, (refl, (refl, tt))),
                            ),
                          )
                          | inl (_, e'') ↦ inl (
                            record {
                              controller = c;
                              created = e;
                              watches_resource = e';
                              watches_sets = e'';
                            },
                            rw (e, e', e'') refl,
                          )
                        ]
              ]
        ]
