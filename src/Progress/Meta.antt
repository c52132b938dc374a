-- ===== src/Progress/Meta.antt =====
-- The requests, all of which are answered with the status 200.
use undermoon_operator_old.Api
use mathlib.Core.Path.{subst⁻¹}
use undermoon_operator_old.BrokerClient.{epoch_of, exists_in, info_of, names_url}
use undermoon_operator_old.Common.{[], Bool-cases, inl, inr, List, refl, String, true, ◌∷◌, ◌≡◌}
use undermoon_operator_old.Common.Int.{leb_ℤ, ℤ}
use undermoon_operator_old.Exec.{Exec, ◌>>=◌}
use undermoon_operator_old.Exec.Costs.{Any}
use undermoon_operator_old.Exec.Success.{
  Succeeds, Succeeds-attempt, Succeeds-bind, Succeeds-map_error, Succeeds-perform, Succeeds-pure,
  Succeeds-tried, Yields,
}
use undermoon_operator_old.Go.{GoError}
use undermoon_operator_old.Kube.{NamespacedName, Undermoon}
use undermoon_operator_old.MetaController.{
  after_scale, change_meta, change_node_number, clear_replicas, create_cluster, deregister_all,
  deregister_server_proxies, fix_broker_epoch, get_cluster_info, reconcile_meta,
  reconcile_server_proxy_registry, register_server_proxies, remove_nodes, retry_if_migrating,
  set_broker_replicas,
}
use undermoon_operator_old.Progress.{IsUp}
use undermoon_operator_old.World.{
  empty, Env, get, History, HttpRequest, HttpResponse, Method, Payload, ServerProxyMeta,
}
use undermoon_operator_old.BrokerClient as Client

module _ (env : Env) (key : NamespacedName) (cr : Undermoon) (up : IsUp env key cr) where
  -- A request whose answer is read by `f`.
  sent :
      {A : Type 0} {Q : A → Type 0} (method : Method) (url : String) (payload : Payload)
      (f : HttpResponse → Exec GoError A)
      → ((h : History)
          → Succeeds (f (up.answer h (record { method = method; url = url; payload = payload }))) Q)
      → Succeeds (Api.send env method url payload >>= f) Q
  sent {A} {Q} method url payload f k =
      Succeeds-bind
        {R = λ res.
          (h : History) × (res
            ≡ up.answer h (record { method = method; url = url; payload = payload }))}
        _ f (Succeeds-perform _ _ (λ h. (_, up.answers h _, (h, refl))))
        (λ res (h, e). subst⁻¹ (λ x. Succeeds (f x) Q) e (k h))

  set_replicas-Succeeds :
      (a : String) (l : List String) → Succeeds (Client.set_broker_replicas env a l) Any
  unfolding Client.set_broker_replicas
  set_replicas-Succeeds a l = sent _ _ _ _ (λ h. rw (up.fine h _) (Succeeds-pure tt tt))

  clear_replicas-Succeeds : (l : List String) → Succeeds (clear_replicas env l) Any
  unfolding clear_replicas
  clear_replicas-Succeeds [] = Succeeds-pure tt tt
  clear_replicas-Succeeds (a ∷ l) =
      Succeeds-bind _ _ (set_replicas-Succeeds a []) (λ u q. clear_replicas-Succeeds l)

  register-Succeeds :
      (master : String) (l : List ServerProxyMeta)
      → Succeeds (register_server_proxies env master l) Any
  unfolding register_server_proxies
  register-Succeeds master [] = Succeeds-pure tt tt
  register-Succeeds master (p ∷ l) = Succeeds-tried _ _ (λ r. register-Succeeds master l)

  deregister_all-Succeeds :
      (master : String) (l : List String) → Succeeds (deregister_all env master l) Any
  unfolding deregister_all
  deregister_all-Succeeds master [] = Succeeds-pure tt tt
  deregister_all-Succeeds master (a ∷ l) =
      Succeeds-tried _ _ (λ r. deregister_all-Succeeds master l)

  registry-Succeeds :
      (master : String) (l : List ServerProxyMeta) (x : Undermoon)
      → Succeeds (reconcile_server_proxy_registry env master l x) Any
  unfolding reconcile_server_proxy_registry deregister_server_proxies Client.get_server_proxies
  registry-Succeeds master l x = Succeeds-bind _ _ (register-Succeeds master l) (λ u q.
      Succeeds-bind {R = Any} _ _ (sent _ _ _ _ (λ h. rw (up.fine h _) (Succeeds-pure _ tt)))
        (λ existing q'. deregister_all-Succeeds master _))

  cluster-Succeeds : (master : String) (x : Undermoon) → Succeeds (create_cluster env master x) Any
  unfolding create_cluster Client.cluster_exists Client.create_cluster exists_in
  cluster-Succeeds master x =
      Succeeds-bind {R = Any} _ _
        (sent _ _ _ _ (λ h.
          let asked : HttpRequest = record {
            method = get;
            url = names_url master;
            payload = empty;
          } in
          let (l, e) = up.names (up.answer h asked) in
          rw (e, up.fine h asked) (Succeeds-pure _ tt)))
        (λ found q. elim (Bool-cases found) [
          | inl there ↦ rw there (Succeeds-pure tt tt)
          | inr missing ↦ rw missing (sent _ _ _ _ (λ h. rw (up.fine h _) (Succeeds-pure tt tt)))
        ])

  info-Yields : (master : String) (x : Undermoon) → Yields (get_cluster_info env master x) up.info
  unfolding get_cluster_info Client.get_cluster_info info_of
  info-Yields master x =
      sent _ _ _ _ (λ h. rw (up.informs (up.answer h _), up.fine h _) (Succeeds-pure up.info refl))

  pub reconcile_meta-Yields :
      (master : String) (replicas : List String) (l : List ServerProxyMeta) (x : Undermoon)
      → Yields (reconcile_meta env master replicas l x true) up.info
  unfolding reconcile_meta set_broker_replicas
  reconcile_meta-Yields master replicas l x =
      Succeeds-bind _ _
        (Succeeds-bind _ _ (set_replicas-Succeeds master replicas)
          (λ u q. clear_replicas-Succeeds replicas))
        (λ u q. Succeeds-bind _ _ (registry-Succeeds master l x) (λ u' q'.
          Succeeds-bind _ _ (cluster-Succeeds master x) (λ u'' q''. info-Yields master x)))

  pub change_meta-Succeeds :
      (master : String) (x : Undermoon) → Succeeds (change_meta env master x up.info) Any
  unfolding change_meta change_node_number after_scale remove_nodes Client.scale_nodes
      Client.remove_free_nodes
  change_meta-Succeeds master x = rw up.settled (
      Succeeds-map_error retry_if_migrating _ (
        Succeeds-attempt {R = Any} _ _ (sent _ _ _ _ (λ h. rw (up.fine h _) (Succeeds-pure tt tt)))
          (λ u q.
            Succeeds-bind {R = Any} _ _
              (Succeeds-map_error retry_if_migrating _
                (sent _ _ _ _ (λ h. rw (up.fine h _) (Succeeds-pure tt tt))))
              (λ u' q'. Succeeds-pure tt tt))))

  pub get_epoch-Succeeds : (a : String) → Succeeds (Client.get_epoch env a) Any
  unfolding Client.get_epoch epoch_of
  get_epoch-Succeeds a =
      sent _ _ _ _ (λ h. let (z, e) = up.epochs h a in rw (e, up.fine h _) (Succeeds-pure z tt))

  pub fix_broker_epoch-Succeeds :
      (master : String) (max : ℤ) → Succeeds (fix_broker_epoch env master max) Any
  unfolding fix_broker_epoch Client.fix_epoch
  fix_broker_epoch-Succeeds master max = Succeeds-bind _ _ (get_epoch-Succeeds master) (λ epoch q.
      elim (Bool-cases (leb_ℤ max epoch)) [
        | inl high ↦ rw high (Succeeds-pure tt tt)
        | inr low ↦ rw low (sent _ _ _ _ (λ h. rw (up.fine h _) (Succeeds-pure tt tt)))
      ])
