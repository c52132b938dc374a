-- ===== src/MetaController/Registry.antt =====
-- What deregisterServerProxies removes from the broker (meta_controller.go).
use undermoon_operator_old.BrokerClient as Client
use undermoon_operator_old.BrokerClient.{addresses_url, proxies_url, proxy_url}
use undermoon_operator_old.BrokerClient.Requests.{
  deregister_server_proxy-Asks, get_server_proxies-Asks, register_server_proxy-Asks, request,
}
use undermoon_operator_old.Common.{
  [], ap, arith, contains, eq_iff, false, List, map, not, refl, String, true, ◌&&◌, ◌++◌, ◌||◌, ◌∙◌,
  ◌∷◌, ◌≡◌,
}
use undermoon_operator_old.Exec.{State, ◌>>=◌}
use undermoon_operator_old.Exec.Quiet.{bind-ok}
use undermoon_operator_old.Go.{ok}
use undermoon_operator_old.Kube.{Undermoon}
use undermoon_operator_old.MetaController.{
  delete_list, deregister_all, deregister_server_proxies, keep_set, reconcile_server_proxy_registry,
  register_server_proxies,
}
use undermoon_operator_old.Names.Storage.{gen_storage_stateful_set_addrs}
use undermoon_operator_old.World.{
  Call, delete, empty, Env, get, History, post, proxy_meta, ServerProxyMeta,
}

-- An address is on the list if it is registered and not kept.
pub contains-delete_list :
    (keep existing : List String) (a : String)
    → contains a (delete_list keep existing) ≡ contains a existing && not (contains a keep)
unfolding delete_list
contains-delete_list keep [] a = refl
contains-delete_list keep (b ∷ existing) a =
    ground (arith, eq_iff a b, contains-delete_list keep existing a)

module _ (env : Env) (master : String) where
  abbrev registration : ServerProxyMeta → Call
  registration p = request post (proxies_url master) (proxy_meta p)

  -- The calls after a POST for each proxy in order, and those after a DELETE of each address.
  abbrev pub registrations : List ServerProxyMeta → History → History
  registrations [] h = h
  registrations (p ∷ l) h = registrations l (registration p ∷ h)

  abbrev pub deletions : List String → History → History
  deletions [] h = h
  deletions (a ∷ l) h = deletions l (request delete (proxy_url master a) empty ∷ h)

  pub register-calls :
      (l : List ServerProxyMeta) (s : State)
      → register_server_proxies env master l s
        ≡ (ok tt, record s { calls = registrations l s.calls })
  unfolding register_server_proxies ◌>>=◌
  register-calls [] s = refl
  register-calls (p ∷ l) s =
      let s' = record s { calls = registration p ∷ s.calls } in
      ap (λ t. register_server_proxies env master l t)
        ((register_server_proxy-Asks env master p).at s)
      ∙ register-calls l s'

  deregister_all-calls :
      (l : List String) (s : State)
      → (deregister_all env master l s).1 ≡ record s { calls = deletions l s.calls }
  unfolding deregister_all ◌>>=◌
  deregister_all-calls [] s = refl
  deregister_all-calls (a ∷ l) s =
      let s' = record s { calls = request delete (proxy_url master a) empty ∷ s.calls } in
      ap (λ t. (deregister_all env master l t).1) ((deregister_server_proxy-Asks env master a).at s)
      ∙ deregister_all-calls l s'

  -- If the broker, asked after the registrations, lists the proxies `existing`, the calls of
  -- reconcileServerProxyRegistry are a POST for each proxy found, the GET of the list, and a
  -- DELETE for each existing one that is not kept, each in the order of its list, whatever a
  -- single POST or DELETE answers.
  pub reconcile_server_proxy_registry-calls :
      (proxies : List ServerProxyMeta) (cr : Undermoon) (s : State) (existing : List String)
      → (Client.get_server_proxies env master
          (record s { calls = registrations proxies s.calls })).0
        ≡ ok existing
      → (reconcile_server_proxy_registry env master proxies cr s).1.calls
        ≡ deletions
            (delete_list (keep_set cr proxies) existing)
            (request get (addresses_url master) empty ∷ registrations proxies s.calls)
  unfolding reconcile_server_proxy_registry deregister_server_proxies
  reconcile_server_proxy_registry-calls proxies cr s existing e =
      let s' : State = record s { calls = registrations proxies s.calls } in
      let listed : State = record s {
        calls = request get (addresses_url master) empty ∷ s'.calls;
      } in
      ap (λ t. t.1.calls)
        (bind-ok (register_server_proxies env master proxies) _ s s' tt
            (ap (λ t. t.0) (register-calls proxies s)) (ap (λ t. t.1) (register-calls proxies s))
          ∙ bind-ok (Client.get_server_proxies env master) _ s' listed existing e
              ((get_server_proxies-Asks env master).at s'))
      ∙ ap (λ t. t.calls) (deregister_all-calls (delete_list (keep_set cr proxies) existing) listed)

-- An address of the StatefulSet is kept, whatever was found.
pub contains-append :
    (a : String) (l m : List String) → contains a (l ++ m) ≡ contains a l || contains a m
contains-append a [] m = refl
contains-append a (b ∷ l) m = ground (arith, contains-append a l m)

-- An address on the list of those to remove is no address of the StatefulSet's pods and no address
-- of a proxy that was found, and it is among the existing ones.
pub keep_set-contains :
    (cr : Undermoon) (proxies : List ServerProxyMeta) (existing : List String) (a : String)
    → contains a (delete_list (keep_set cr proxies) existing) ≡ true
    → (contains a (gen_storage_stateful_set_addrs cr) ≡ false)
      × (contains a (map (λ (p : ServerProxyMeta). p.proxy_address) proxies) ≡ false)
      × (contains a existing ≡ true)
unfolding keep_set
keep_set-contains cr proxies existing a h =
    let at = contains-delete_list (keep_set cr proxies) existing a in
    ground (
      arith,
      at,
      h,
      contains-append a (gen_storage_stateful_set_addrs cr)
          (map (λ (p : ServerProxyMeta). p.proxy_address) proxies),
    )
