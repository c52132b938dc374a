-- ===== src/MetaController/Refinement.antt =====
-- reconcileServerProxyRegistry of meta_controller.go as an operation on the set of addresses.
use undermoon_operator_old.BrokerClient as Client
use undermoon_operator_old.BrokerClient.{addresses_url, proxies_url, proxy_url}
use undermoon_operator_old.BrokerClient.AddressSet.{
  add_all, AddressSet, AddressSet-ext, keep_only, member, member-add_all, member-insert,
  member-keep_only,
}
use undermoon_operator_old.BrokerClient.Effects.{change_registry, proxy_url-eq, registry}
use undermoon_operator_old.BrokerClient.Requests.{request}
use undermoon_operator_old.Common.{
  [], ap, arith, contains, eq_iff, List, map, not, refl, String, sym, ◌&&◌, ◌==◌, ◌||◌, ◌∙◌, ◌∷◌,
  ◌≡◌,
}
use undermoon_operator_old.Exec.{State, ◌>>=◌}
use undermoon_operator_old.Go.{ok}
use undermoon_operator_old.Kube.{Undermoon}
use undermoon_operator_old.MetaController.{delete_list, keep_set, reconcile_server_proxy_registry}
use undermoon_operator_old.MetaController.Registry.{
  contains-append, contains-delete_list, deletions, reconcile_server_proxy_registry-calls,
  registrations,
}
use undermoon_operator_old.Names.Storage.{gen_storage_stateful_set_addrs}
use undermoon_operator_old.World.{
  delete, empty, Env, get, History, HttpResponse, post, proxy_meta, ServerProxyMeta,
}

-- What reconcileServerProxyRegistry is for: the proxies found are registered, and of those that
-- were, the ones of the StatefulSet stay.
abbrev pub sync : Undermoon → List ServerProxyMeta → AddressSet → AddressSet
sync cr proxies s =
    add_all (map (λ (p : ServerProxyMeta). p.proxy_address) proxies)
      (keep_only (λ a. contains a (gen_storage_stateful_set_addrs cr)) s)

sync-sync :
    (cr : Undermoon) (proxies : List ServerProxyMeta) (s : AddressSet)
    → sync cr proxies (sync cr proxies s) ≡ sync cr proxies s
sync-sync cr proxies s =
    let found = map (λ (p : ServerProxyMeta). p.proxy_address) proxies in
    let kept = λ (a : String). contains a (gen_storage_stateful_set_addrs cr) in
    AddressSet-ext _ _ λ a. ground (
      arith,
      member-add_all a found (keep_only kept (sync cr proxies s)),
      member-keep_only kept a (sync cr proxies s),
      member-add_all a found (keep_only kept s),
      member-keep_only kept a s,
    )

module _ (env : Env) (master : String) (first : AddressSet) where
  -- The broker answers the GET of the list, in this state, with the addresses that it holds.
  pub record ListsRegistry (s : State) : Type 0 where
    pub answer : HttpResponse
    pub answered :
        env.on_http s.calls (record { method = get; url = addresses_url master; payload = empty })
        ≡ ok answer
    pub fine : answer.status_code ≡ 200
    pub listed :
        (a : String)
        → contains a (env.result_addresses answer) ≡ member a (registry master first s.calls)

  pub member-posted :
      (a : String) (p : ServerProxyMeta) (h : History)
      → member a (registry master first (request post (proxies_url master) (proxy_meta p) ∷ h))
        ≡ (a == p.proxy_address) || member a (registry master first h)
  unfolding registry change_registry
  member-posted a p h =
      rw ((eq_iff (proxies_url master) (proxies_url master)).1 refl) (member-insert a _ _)

  member-deleted :
      (a b : String) (h : History)
      → member a (registry master first (request delete (proxy_url master b) empty ∷ h))
        ≡ member a (registry master first h) && not (a == b)
  unfolding registry change_registry
  member-deleted a b h =
      member-keep_only _ a (registry master first h)
      ∙ ap (λ t. member a (registry master first h) && not t) (proxy_url-eq master b a ∙ flip)
    where
      flip : (b == a) ≡ (a == b)
      flip = ground (arith, eq_iff a b, eq_iff b a)

  member-registrations :
      (a : String) (l : List ServerProxyMeta) (h : History)
      → member a (registry master first (registrations env master l h))
        ≡ contains a (map (λ (p : ServerProxyMeta). p.proxy_address) l)
          || member a (registry master first h)
  unfolding registry
  member-registrations a [] h = refl
  member-registrations a (p ∷ l) h = ground (
    arith,
    member-registrations a l (request post (proxies_url master) (proxy_meta p) ∷ h),
    member-posted a p h,
  )

  member-deletions :
      (a : String) (l : List String) (h : History)
      → member a (registry master first (deletions env master l h))
        ≡ member a (registry master first h) && not (contains a l)
  unfolding registry
  member-deletions a [] h = ground arith
  member-deletions a (b ∷ l) h = ground (
    arith,
    member-deletions a l (request delete (proxy_url master b) empty ∷ h),
    member-deleted a b h,
  )

  existing_of :
      (s : State) (b : ListsRegistry s)
      → (Client.get_server_proxies env master s).0 ≡ ok (env.result_addresses b.answer)
  unfolding Client.get_server_proxies ◌>>=◌
  existing_of s b = rw (b.answered, b.fine) refl

  -- If the broker, asked after the registrations, lists the addresses that it holds, the calls of
  -- reconcileServerProxyRegistry change the set of the registered addresses as `sync` does: the
  -- proxies found are added, and of the earlier ones those stay that are addresses of the
  -- StatefulSet. A POST or a DELETE counts as done.
  pub reconcile_server_proxy_registry-sync :
      (proxies : List ServerProxyMeta) (cr : Undermoon) (s : State)
      → ListsRegistry (record s { calls = registrations env master proxies s.calls })
      → registry master first (reconcile_server_proxy_registry env master proxies cr s).1.calls
        ≡ sync cr proxies (registry master first s.calls)
  unfolding registry keep_set
  reconcile_server_proxy_registry-sync proxies cr s b =
      let s' : State = record s { calls = registrations env master proxies s.calls } in
      let existing = env.result_addresses b.answer in
      let found = map (λ (p : ServerProxyMeta). p.proxy_address) proxies in
      ap (registry master first)
        (reconcile_server_proxy_registry-calls env master proxies cr s existing (existing_of s' b))
      ∙ AddressSet-ext _ _ λ a.
        member-deletions a (delete_list (keep_set cr proxies) existing)
          (request get (addresses_url master) empty ∷ s'.calls)
        ∙ ground (
          arith,
          contains-delete_list (keep_set cr proxies) existing a,
          contains-append a (gen_storage_stateful_set_addrs cr) found,
          b.listed a,
          member-registrations a proxies s.calls,
          member-add_all a found (
              keep_only (λ c. contains c (gen_storage_stateful_set_addrs cr))
                (registry master first s.calls)),
          member-keep_only (λ c. contains c (gen_storage_stateful_set_addrs cr)) a
              (registry master first s.calls),
        )

  -- If the broker lists the addresses that it holds in both of two successive runs of
  -- reconcileServerProxyRegistry with the same proxies and resource, the second leaves the set of
  -- the registered addresses as the first left it. A POST or a DELETE counts as done.
  pub reconcile_server_proxy_registry-again :
      (proxies : List ServerProxyMeta) (cr : Undermoon) (s : State)
      → let s' = (reconcile_server_proxy_registry env master proxies cr s).1 in
        ListsRegistry (record s { calls = registrations env master proxies s.calls })
        → ListsRegistry (record s' { calls = registrations env master proxies s'.calls })
        → registry master first (reconcile_server_proxy_registry env master proxies cr s').1.calls
          ≡ registry master first s'.calls
  reconcile_server_proxy_registry-again proxies cr s b b' =
      let s' = (reconcile_server_proxy_registry env master proxies cr s).1 in
      let once = reconcile_server_proxy_registry-sync proxies cr s b in
      reconcile_server_proxy_registry-sync proxies cr s' b'
      ∙ ap (sync cr proxies) once
      ∙ sync-sync cr proxies (registry master first s.calls)
      ∙ sym once
