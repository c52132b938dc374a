-- ===== src/MetaController/Epochs.antt =====
-- When fixBrokerEpoch of meta_controller.go recovers the broker's epoch.
use undermoon_operator_old.BrokerClient as Client
use undermoon_operator_old.BrokerClient.{epoch_url, recovery_url}
use undermoon_operator_old.BrokerClient.Requests.{fix_epoch-Asks, get_epoch-Asks, request}
use undermoon_operator_old.Common.{
  ap, arith, Bool-cases, false, if◌then◌else◌, inl, inr, refl, String, ◌∙◌, ◌∷◌, ◌≡◌, ◌⊎◌,
}
use undermoon_operator_old.Common.Int.{leb_ℤ, leb_ℤ_iff, ℤ, ◌<ℤ◌, ◌≤ℤ◌}
use undermoon_operator_old.Exec.{Exec, pure, State}
use undermoon_operator_old.Exec.Quiet.{bind-ok}
use undermoon_operator_old.Go.{GoError, ok}
use undermoon_operator_old.MetaController.{fix_broker_epoch}
use undermoon_operator_old.World.{Call, empty, Env, get, put}

abbrev pub epoch_call : String → Call
epoch_call master = request get (epoch_url master) empty

abbrev pub recovery_call : String → Call
recovery_call master = request put (recovery_url master) empty

module _ (env : Env) (master : String) (max : ℤ) (s : State) where
  abbrev after : ℤ → Exec GoError (Unit {0})
  after epoch = if leb_ℤ max epoch then pure tt else Client.fix_epoch env master

  asked :
      (epoch : ℤ)
      → (Client.get_epoch env master s).0 ≡ ok epoch
      → fix_broker_epoch env master max s
        ≡ after epoch (record s { calls = epoch_call master ∷ s.calls })
  unfolding fix_broker_epoch
  asked epoch e =
      bind-ok (Client.get_epoch env master) after s
        (record s { calls = epoch_call master ∷ s.calls }) epoch e
        ((get_epoch-Asks env master).at s)

  -- If the broker answers with its epoch, fixBrokerEpoch succeeds after this one call where the
  -- epoch is at least the highest one of the proxies, and where it is below makes just one more
  -- call, the PUT that recovers the epoch.
  pub fix_broker_epoch-calls :
      (epoch : ℤ)
      → (Client.get_epoch env master s).0 ≡ ok epoch
      → ((max ≤ℤ epoch)
          × (fix_broker_epoch env master max s
              ≡ (ok tt, record s { calls = epoch_call master ∷ s.calls })))
        ⊎ ((epoch <ℤ max)
            × ((fix_broker_epoch env master max s).1.calls
                ≡ recovery_call master ∷ epoch_call master ∷ s.calls))
  unfolding pure
  fix_broker_epoch-calls epoch e =
      let t : State = record s { calls = epoch_call master ∷ s.calls } in
      elim (Bool-cases (leb_ℤ max epoch)) [
        | inl high ↦ inl ((leb_ℤ_iff max epoch).0 high, asked epoch e ∙ rw high refl)
        | inr low ↦ inr (
          below epoch low,
          ap (λ r. r.1.calls) (asked epoch e)
              ∙ rw low (ap (λ (u : State). u.calls) ((fix_epoch-Asks env master).at t)),
        )
      ]
    where
      below : (b : ℤ) → leb_ℤ max b ≡ false → b <ℤ max
      below b h = ground (arith, h)
