-- ===== src/BrokerController/Master.antt =====
-- What getCurrentMaster of broker_controller.go returns.
use mathlib.Core.Path.{subst⁻¹}
use undermoon_operator_old.BrokerClient.{get_epoch, get_replica_addresses}
use undermoon_operator_old.BrokerController.{
  better, choose_master, get_current_master, master_brokers, max_epoch_broker, replicas_of,
  with_replicas,
}
use undermoon_operator_old.BrokerController.Choice.{
  Answers, best_of, best_of-IsChoice, IsChoice, IsNamed, round_lem, stays, takes,
}
use undermoon_operator_old.Common.{
  [], All, All-imp, ap, arith, contains, eq_iff, inl, inr, List, not, refl, String, String-cases,
  true, ◌&&◌, ◌==◌, ◌∙◌, ◌∷◌, ◌≡◌, ◌≢◌, ◌⊎◌,
}
use undermoon_operator_old.Common.Int.{pos, ℤ}
use undermoon_operator_old.Exec.{Exec, pure, State, ◌>>=◌}
use undermoon_operator_old.Exec.Quiet.{bind-ok}
use undermoon_operator_old.Go.{err, GoError, ok, Result}
use undermoon_operator_old.World.{Env}

pub contains-head : (a : String) (l : List String) → contains a (a ∷ l) ≡ true
contains-head a l = ground (arith, eq_iff a a)

pub contains-tail :
    (a b : String) (l : List String) → contains a l ≡ true → contains a (b ∷ l) ≡ true
contains-tail a b l h = ground (arith, h)

module _ (env : Env) where
  -- What the brokers answer to the loop for the highest epoch, each in the state that the ones
  -- before it leave.
  unfoldable pub asked : List String → State → Answers
  asked [] s = []
  asked (a ∷ l) s = let (r, s') = get_epoch env a s in (a, r) ∷ asked l s'

  asked-IsNamed : (l : List String) (s : State) → All (λ a. a ≢ "") l → IsNamed (asked l s)
  unfolding asked
  asked-IsNamed [] s h = tt
  asked-IsNamed (a ∷ l) s h = (h.0, asked-IsNamed l (get_epoch env a s).1 h.1)

  max_epoch_broker-best_of :
      (best : String) (max : ℤ) (l : List String) (s : State)
      → (max_epoch_broker env best max l s).0 ≡ ok (best_of (best, max) (asked l s)).0
  unfolding max_epoch_broker asked best_of ◌>>=◌
  max_epoch_broker-best_of best max [] s = refl
  max_epoch_broker-best_of best max (a ∷ l) s =
      let (r, s') = get_epoch env a s in
      let (best', max') = better best max a r in max_epoch_broker-best_of best' max' l s'

  -- For addresses none of which is empty, the loop of getCurrentMaster for the highest epoch never
  -- fails. It returns an address that answered, with an epoch that no other answer exceeds, or,
  -- where no broker answered with an epoch, the empty text.
  pub max_epoch_broker-IsChoice :
      (l : List String) (s : State)
      → All (λ a. a ≢ "") l
      → (d : String × ℤ) × ((max_epoch_broker env "" (pos 0) l s).0 ≡ ok d.0)
        × IsChoice (asked l s) d
  max_epoch_broker-IsChoice l s h = (
    best_of ("", pos 0) (asked l s),
    max_epoch_broker-best_of "" (pos 0) l s,
    best_of-IsChoice (asked l s) (asked-IsNamed l s h),
  )

  -- The code runs without an error and returns `best` or one of the addresses.
  abbrev Picks : String → List String → Exec GoError String → State → Type 0
  Picks best l m s = (a : String) × ((m s).0 ≡ ok a) × ((a ≡ best) ⊎ (contains a l ≡ true))

  better_fst :
      (best : String) (max : ℤ) (a : String) (r : Result GoError ℤ)
      → ((better best max a r).0 ≡ best) ⊎ ((better best max a r).0 ≡ a)
  better_fst best max a r = elim (round_lem (best, max) a r) [
    | stays p q ↦ inl (ap (λ (d : String × ℤ). d.0) p)
    | takes epoch h p l ↦ inr (ap (λ (d : String × ℤ). d.0) p)
  ]

  pub max_epoch_broker-Picks :
      (best : String) (max : ℤ) (l : List String) (s : State)
      → Picks best l (max_epoch_broker env best max l) s
  unfolding max_epoch_broker ◌>>=◌
  max_epoch_broker-Picks best max [] s = (best, refl, inl refl)
  max_epoch_broker-Picks best max (a ∷ l) s =
      let (r, s') = get_epoch env a s in
      let (best', max') = better best max a r in
      let (m, e, c) = max_epoch_broker-Picks best' max' l s' in
      (m, e, from m c (better_fst best max a r))
    where
      from :
          {b : String} (m : String)
          → (m ≡ b) ⊎ (contains m l ≡ true)
          → (b ≡ best) ⊎ (b ≡ a)
          → (m ≡ best) ⊎ (contains m (a ∷ l) ≡ true)
      from m (inr i) x = inr (contains-tail m a l i)
      from m (inl p) (inl q) = inl (p ∙ q)
      from m (inl p) (inr q) =
          inr (subst⁻¹ (λ x. contains x (a ∷ l) ≡ true) (p ∙ q) (contains-head a l))

  -- The brokers with replicas are some of the addresses.
  pub master_brokers-ok :
      (l : List String) (s : State)
      → (masters : List String) × ((master_brokers env l s).0 ≡ ok masters)
        × All (λ a. contains a l ≡ true) masters
  unfolding master_brokers ◌>>=◌
  master_brokers-ok [] s = ([], refl, tt)
  master_brokers-ok (a ∷ l) s =
      let (r, s') = get_replica_addresses env a s in
      let (masters, e, h) = master_brokers-ok l s' in
      (
        with_replicas a r masters,
        rw e refl,
        with_head r masters (All-imp _ _ masters (λ m. contains-tail m a l) h),
      )
    where
      with_head :
          (r : Result GoError (List String)) (masters : List String)
          → All (λ m. contains m (a ∷ l) ≡ true) masters
          → All (λ m. contains m (a ∷ l) ≡ true) (with_replicas a r masters)
      with_head (err e) masters h = h
      with_head (ok []) masters h = h
      with_head (ok (b ∷ l')) masters h = (contains-head a l, h)

  pub contains-of_All :
      (l masters : List String) (m : String)
      → All (λ a. contains a l ≡ true) masters
      → contains m masters ≡ true
      → contains m l ≡ true
  contains-of_All l [] m h c = cc
  contains-of_All l (a ∷ masters) m h c = elim (String-cases m a) [
    | inl (same, p) ↦ subst⁻¹ (λ x. contains x l ≡ true) p h.0
    | inr (differ, n) ↦ contains-of_All l masters m h.1 (ground (arith, differ, c))
  ]

  choose_master-Picks :
      (l masters : List String) (s : State)
      → All (λ a. contains a l ≡ true) masters
      → Picks "" l (choose_master env l masters) s
  unfolding choose_master pure
  choose_master-Picks l (m ∷ []) s h = (m, refl, inr h.0)
  choose_master-Picks l [] s h = max_epoch_broker-Picks "" (pos 0) l s
  choose_master-Picks l (a ∷ b ∷ masters) s h =
      let (m, e, c) = max_epoch_broker-Picks "" (pos 0) (a ∷ b ∷ masters) s in
      (m, e, elim c [ inl p ↦ inl p | inr i ↦ inr (contains-of_All l (a ∷ b ∷ masters) m h i) ])

  -- With at least one address getCurrentMaster never fails, whatever the brokers answer: it
  -- returns one of the addresses or the empty text.
  pub get_current_master-Picks :
      (address : String) (l : List String) (s : State)
      → (m : String) × ((get_current_master env (address ∷ l) s).0 ≡ ok m)
        × ((m ≡ "") ⊎ (contains m (address ∷ l) ≡ true))
  unfolding get_current_master
  get_current_master-Picks address l s =
      let (masters, e, h) = master_brokers-ok (address ∷ l) s in
      let s' = (master_brokers env (address ∷ l) s).1 in
      let (m, e', c) = choose_master-Picks (address ∷ l) masters s' h in
      (m, ap (λ t. t.0) (bind-ok (master_brokers env (address ∷ l)) _ s s' masters e refl) ∙ e', c)

-- An address is among the replicas just where it is one of the brokers' addresses and not the
-- master's.
pub contains-replicas_of :
    (master : String) (l : List String) (a : String)
    → contains a (replicas_of master l) ≡ contains a l && not (a == master)
unfolding replicas_of
contains-replicas_of master [] a = refl
contains-replicas_of master (b ∷ l) a =
    ground (arith, eq_iff a b, eq_iff b master, eq_iff a master, contains-replicas_of master l a)
