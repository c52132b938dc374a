-- ===== src/BrokerController/Answering.antt =====
-- getCurrentMaster where each broker answers with its epoch.
use mathlib.Core.Path.{subst⁻¹}
use undermoon_operator_old.BrokerClient.{get_epoch}
use undermoon_operator_old.BrokerController.{
  better, choose_master, get_current_master, master_brokers, max_epoch_broker,
}
use undermoon_operator_old.BrokerController.Master.{
  contains-head, contains-of_All, contains-tail, master_brokers-ok, max_epoch_broker-Picks,
}
use undermoon_operator_old.Common.{
  [], All, ap, contains, inl, inr, List, refl, String, true, ◌∙◌, ◌∷◌, ◌≡◌,
}
use undermoon_operator_old.Common.Int.{pos, ℤ}
use undermoon_operator_old.Exec.{pure, State, ◌>>=◌}
use undermoon_operator_old.Exec.Quiet.{bind-ok}
use undermoon_operator_old.Go.{ok}
use undermoon_operator_old.World.{Env}

module _ (env : Env)
    (answers : (a : String) (s : State) → (z : ℤ) × ((get_epoch env a s).0 ≡ ok z)) where
  first-better : (a : String) (s : State) → (better "" (pos 0) a (get_epoch env a s).0).0 ≡ a
  unfolding better
  first-better a s = let (z, e) = answers a s in rw e refl

  max_epoch_broker-contains :
      (a : String) (l : List String) (s : State)
      → (m : String) × ((max_epoch_broker env "" (pos 0) (a ∷ l) s).0 ≡ ok m)
        × (contains m (a ∷ l) ≡ true)
  unfolding max_epoch_broker ◌>>=◌
  max_epoch_broker-contains a l s =
      let (r, s') = get_epoch env a s in
      let (best, max) = better "" (pos 0) a r in
      let (m, e, c) = max_epoch_broker-Picks env best max l s' in
      (
        m,
        e,
        elim c [
          | inl p ↦
              subst⁻¹ (λ x. contains x (a ∷ l) ≡ true) (p ∙ first-better a s) (contains-head a l)
          | inr i ↦ contains-tail m a l i
        ],
      )

  choose_master-contains :
      (a : String) (l masters : List String) (s : State)
      → All (λ b. contains b (a ∷ l) ≡ true) masters
      → (m : String) × ((choose_master env (a ∷ l) masters s).0 ≡ ok m)
        × (contains m (a ∷ l) ≡ true)
  unfolding choose_master pure
  choose_master-contains a l (m ∷ []) s h = (m, refl, h.0)
  choose_master-contains a l [] s h = max_epoch_broker-contains a l s
  choose_master-contains a l (b ∷ c ∷ masters) s h =
      let (m, e, i) = max_epoch_broker-contains b (c ∷ masters) s in
      (m, e, contains-of_All env (a ∷ l) (b ∷ c ∷ masters) m h i)

  -- Where each broker answers with its epoch, getCurrentMaster returns one of them.
  pub get_current_master-contains :
      (a : String) (l : List String) (s : State)
      → (m : String) × ((get_current_master env (a ∷ l) s).0 ≡ ok m) × (contains m (a ∷ l) ≡ true)
  unfolding get_current_master
  get_current_master-contains a l s =
      let (masters, e, h) = master_brokers-ok env (a ∷ l) s in
      let s' = (master_brokers env (a ∷ l) s).1 in
      let (m, e', c) = choose_master-contains a l masters s' h in
      (m, ap (λ t. t.0) (bind-ok (master_brokers env (a ∷ l)) _ s s' masters e refl) ∙ e', c)
