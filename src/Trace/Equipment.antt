-- ===== src/Trace/Equipment.antt =====
-- What a run of Reconcile has from the API server before it scales the storage.
use undermoon_operator_old.BrokerController.{
  reconcile_master, set_master_broker_status, status_updated,
}
use undermoon_operator_old.Clients.{coordinator_client, server_proxy_client}
use undermoon_operator_old.Common.{inr, refl, String, ◌≡◌}
use undermoon_operator_old.Exec.{attempt, convert, Exec, perform, pure, State, throw, ◌>>=◌}
use undermoon_operator_old.Exec.Rules.{Keeps, Keeps-attempt}
use undermoon_operator_old.Exec.Triples.{
  ok-convert, Triple, Triple-and, Triple-bind, Triple-if, Triple-pure,
}
use undermoon_operator_old.Go.{
  already_exists, conflict, err, GoError, not_found, ok, other, RemoteError, Result,
}
use undermoon_operator_old.Kube.{Service, StatefulSet, Undermoon}
use undermoon_operator_old.Reconciler.{create_resources}
use undermoon_operator_old.StorageController.{
  create_storage, get_or_create_storage_stateful_set, needs_scale_out, scale_out,
  update_storage_stateful_set, updated, with_replica_num,
}
use undermoon_operator_old.Trace.{
  as_fetched, as_updated, Earlier, Earlier-now, HasStorageSet, IsEquipped, IsEquippedFor, IsRead,
  IsStorageService, IsStorageSet, IsStored,
}
use undermoon_operator_old.Trace.Carried.{calm_of, Earlier-IsCarried, IsCarried}
use undermoon_operator_old.Trace.Fetched.{guard-IsStorageService, guard-IsStorageSet}
use undermoon_operator_old.Trace.Server.{
  create_broker-Keeps, create_coordinator-Keeps, IsCalm, scale_out-Keeps, service-Keeps,
  stateful_set-Keeps,
}
use undermoon_operator_old.World.{Env, History}

updated-ok :
    (r : Result RemoteError StatefulSet) (ss : StatefulSet) (t : State)
    → (updated (convert GoError.remote r) t).0 ≡ ok ss
    → (r ≡ ok ss) × ((updated (convert GoError.remote r) t).1 ≡ t)
unfolding updated pure throw
updated-ok (ok x) ss t e = (ok-convert (ok x) ss e, refl)
updated-ok (err conflict) ss t e = absurd (cc)
updated-ok (err not_found) ss t e = absurd (cc)
updated-ok (err already_exists) ss t e = absurd (cc)
updated-ok (err (other m)) ss t e = absurd (cc)

status_updated-ok :
    (r : Result RemoteError Undermoon) (cr : Undermoon) (t : State)
    → (status_updated (convert GoError.remote r) t).0 ≡ ok cr
    → (r ≡ ok cr) × ((status_updated (convert GoError.remote r) t).1 ≡ t)
unfolding status_updated pure throw
status_updated-ok (ok x) cr t e = (ok-convert (ok x) cr e, refl)
status_updated-ok (err conflict) cr t e = absurd (cc)
status_updated-ok (err not_found) cr t e = absurd (cc)
status_updated-ok (err already_exists) cr t e = absurd (cc)
status_updated-ok (err (other m)) cr t e = absurd (cc)

module _ (env : Env) where
  -- What the run goes on with after an update of the StatefulSet.
  updated-HasStorageSet :
      (resource : Undermoon) (found : StatefulSet)
      → Triple
          (λ s. IsStorageSet env resource found s.calls)
          (update_storage_stateful_set env resource found)
          (λ ss s. HasStorageSet env resource ss s.calls)
  unfolding update_storage_stateful_set perform attempt ◌>>=◌
  updated-HasStorageSet resource found = record {
    at = λ s p ss e.
        let sent = with_replica_num resource found in
        let (answered, same) = updated-ok (env.on_update_stateful_set s.calls sent) ss _ e in
        rw same (as_updated found s.calls p refl answered);
  }

  scale_out-HasStorageSet :
      (resource : Undermoon) (service : Service) (found : StatefulSet)
      → Triple
          (λ s. IsStorageSet env resource found s.calls)
          (scale_out env resource service found)
          (λ r s. (r.1 ≡ service) × HasStorageSet env resource r.0 s.calls)
  unfolding scale_out
  scale_out-HasStorageSet resource service found =
      Triple-if (needs_scale_out resource found) _ _
        (λ _.
          Triple-bind _ _ (updated-HasStorageSet resource found)
            (λ ss. Triple-pure _ (λ s p. (refl, p))))
        (λ _. Triple-pure _ (λ s p. (refl, as_fetched p)))

  status-IsStored :
      {P : State → Type 0} (found : Undermoon) (master : String)
      → Triple P (set_master_broker_status env found master) (λ cr s. IsStored env found cr s.calls)
  unfolding set_master_broker_status status_updated perform attempt ◌>>=◌
  status-IsStored found master = record {
    at = λ s p cr e.
        let sent = record found { status = record { master_broker_address = master } } in
        let (answered, same) = status_updated-ok (env.on_update_status s.calls sent) cr _ e in
        rw same (record { master = master; before = s.calls; asked = refl; answered = answered });
  }

  pub master-IsStored :
      {P : State → Type 0} (found : Undermoon) (service : Service)
      → Triple P (reconcile_master env found service) (λ r s. IsStored env found r.0 s.calls)
  unfolding reconcile_master
  master-IsStored found service =
      Triple-bind _ _ {R = λ _ _. Unit {0}} (record { at = λ s p a e. tt })
        (λ endpoints.
          Triple-bind _ _ {R = λ _ _. Unit {0}} (record { at = λ s p a e. tt })
            (λ master.
              Triple-bind _ _ (status-IsStored found master) (λ cr. Triple-pure _ (λ s p. p))))

  abbrev Known : (History → Type 0) → State → Type 0
  Known P s = Earlier P s.calls

  keep :
      {E A : Type 0} {Q : State → Type 0} (P : History → Type 0) (m : Exec E A)
      → Keeps (Known P) m
      → ((s : State) → Q s → Known P s)
      → Triple Q m (λ _ s. Known P s)
  keep P m k h = record { at = λ s q a e. k.at s (h s q) }

  calm : (P : History → Type 0) → IsCalm (Known P)
  calm P = calm_of (Earlier-IsCarried P)

  storage-IsEquipped :
      (resource : Undermoon)
      → Triple
          (Known (IsRead env resource))
          (create_storage env resource)
          (λ r s. IsEquipped env resource r.1 r.0 s.calls)
  unfolding create_storage get_or_create_storage_stateful_set
  storage-IsEquipped resource =
      Triple-bind _ _ {R = λ _. Known (IsRead env resource)}
        (keep (IsRead env resource) _
          (Keeps-attempt _ (service-Keeps env (calm (IsRead env resource)) resource _)) (λ s r. r))
        (λ _.
          Triple-bind _ _
            (Triple-and _ (guard-IsStorageService env resource) (
              keep (IsRead env resource) _
                (service-Keeps env (calm (IsRead env resource)) resource _) (λ s r. r)))
            (λ v.
              Triple-bind _ _
                (Triple-and _ (guard-IsStorageSet env resource) (
                  Triple-and _
                    (keep (IsStorageService env resource v) _
                      (stateful_set-Keeps env (calm (IsStorageService env resource v)) resource _)
                      (λ s p. Earlier-now (IsStorageService env resource v) s.calls p.0))
                    (keep (IsRead env resource) _
                      (stateful_set-Keeps env (calm (IsRead env resource)) resource _)
                      (λ s p. p.1))))
                (λ ss. equip v ss)))
    where
      equip :
          (v : Service) (ss : StatefulSet)
          → Triple
              (λ s.
                IsStorageSet env resource ss s.calls
                × (Known (IsStorageService env resource v) s × Known (IsRead env resource) s))
              (scale_out env resource v ss)
              (λ r s. IsEquipped env resource r.1 r.0 s.calls)
      equip v ss = record {
        at = λ s (p, (q, i)) r e.
            let (same, has) = (scale_out-HasStorageSet resource v ss).at s p r e in
            rw same (record {
              requested = (scale_out-Keeps env (calm (IsRead env resource)) resource v ss).at s i;
              served =
                  (scale_out-Keeps env (calm (IsStorageService env resource v)) resource v ss).at s
                    q;
              sets = Earlier-now (HasStorageSet env resource r.0) _ has;
            });
      }

  pub resources-IsEquipped :
      (resource : Undermoon)
      → Triple
          (Known (IsRead env resource))
          (create_resources env resource)
          (λ r s. IsEquipped env resource r.storage_service r.storage_stateful_set s.calls)
  unfolding create_resources
  resources-IsEquipped resource =
      Triple-bind _ _ {R = λ _. Known (IsRead env resource)}
        (keep (IsRead env resource) _
          (create_broker-Keeps env (calm (IsRead env resource)) resource) (λ s r. r))
        (λ r.
          Triple-bind _ _ {R = λ _. Known (IsRead env resource)}
            (keep (IsRead env resource) _
              (create_coordinator-Keeps env (calm (IsRead env resource)) resource) (λ s r. r))
            (λ r'. Triple-bind _ _ (storage-IsEquipped resource) (λ r''. Triple-pure _ (λ s p. p))))

  pub IsEquipped-IsCarried :
      (resource : Undermoon) (service : Service) (ss : StatefulSet)
      → IsCarried (λ s. IsEquipped env resource service ss s.calls)
  unfolding perform coordinator_client server_proxy_client
  IsEquipped-IsCarried resource service ss = record {
    any = λ A c answer. record {
      at = λ s h. record { requested = inr h.requested; served = inr h.served; sets = inr h.sets };
    };
    coord = λ a. record { at = λ s h. h };
    proxy = λ a. record { at = λ s h. h };
  }

  pub IsEquippedFor-IsCarried :
      (resource cr : Undermoon) (service : Service) (ss : StatefulSet)
      → IsCarried (λ s. IsEquippedFor env resource cr service ss s.calls)
  IsEquippedFor-IsCarried resource cr service ss =
      let equipped = IsEquipped-IsCarried resource service ss in
      let stored = Earlier-IsCarried (IsStored env resource cr) in
      record {
        any = λ A c answer. record {
          at = λ s h. record {
            equipped = (equipped.any A c answer).at s h.equipped;
            stored = (stored.any A c answer).at s h.stored;
          };
        };
        coord = λ a. record {
          at = λ s h. record {
            equipped = (equipped.coord a).at s h.equipped;
            stored = (stored.coord a).at s h.stored;
          };
        };
        proxy = λ a. record {
          at = λ s h. record {
            equipped = (equipped.proxy a).at s h.equipped;
            stored = (stored.proxy a).at s h.stored;
          };
        };
      }
