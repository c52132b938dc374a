-- ===== src/Tests/Registry.antt =====
-- The registry as a set, and the number of calls.
use undermoon_operator_old.BrokerClient.AddressSet.{
  AddressSet, AddressSet-ext, keep_only, member, member-add_all, member-insert, member-keep_only,
  of_list,
}
use undermoon_operator_old.BrokerClient.Creation.{create_cluster-retry_reconciliation, IsAnswered}
use undermoon_operator_old.BrokerClient.Effects.{change_registry, registry}
use undermoon_operator_old.Common.{
  [], ap, arith, Bool, contains, eqb, false, if◌then◌else◌, inl, inr, length, refl, String,
  String-cases, sym, true, ◌&&◌, ◌*◌, ◌+◌, ◌==◌, ◌||◌, ◌↔◌, ◌∙◌, ◌∷◌, ◌≡◌, ◌≤◌,
}
use undermoon_operator_old.Common.Int.{pos}
use undermoon_operator_old.Effort.{IsBounded}
use undermoon_operator_old.Effort.Pass.{reconcile-calls}
use undermoon_operator_old.Exec.{State, ◌>>=◌}
use undermoon_operator_old.Go.{err, ok, retry_reconciliation}
use undermoon_operator_old.Go.Format.{format_nat}
use undermoon_operator_old.MetaController.{delete_list, keep_set, reconcile_server_proxy_registry}
use undermoon_operator_old.MetaController.Refinement.{
  ListsRegistry, member-posted, reconcile_server_proxy_registry-again,
  reconcile_server_proxy_registry-sync, sync,
}
use undermoon_operator_old.MetaController.Registry.{
  reconcile_server_proxy_registry-calls, registrations,
}
use undermoon_operator_old.Names.Storage.{
  gen_storage_address_from_name, gen_storage_names, gen_storage_stateful_set_addrs,
  storage_pod_name, storage_service_name, storage_stateful_set_name,
}
use undermoon_operator_old.Reconciler.{reconcile}
use undermoon_operator_old.Tests.Samples.{cluster, fresh, pod, request, steady}
use undermoon_operator_old.Utils.{addresses_of_subsets}
use undermoon_operator_old.World.{Env, ServerProxyMeta}
use undermoon_operator_old.BrokerClient as Client

abbrev proxy : ServerProxyMeta
proxy = record {
  proxy_address = "p:5299";
  redis_addresses = ("p:6379", "p:6380");
  host = "p";
  index = pos 0;
}

-- The broker lists the new proxy and one that is gone.
abbrev listing : Env
listing = record steady { result_addresses = λ res. "p:5299" ∷ "gone:5299" ∷ [] }

abbrev old : AddressSet
old = of_list ("gone:5299" ∷ [])

listing-Lists :
    ListsRegistry listing "b" old
      (record fresh { calls = registrations listing "b" (proxy ∷ []) fresh.calls })
unfolding registry change_registry member
listing-Lists = record {
  answer = record { status_code = 200; body = "7" };
  answered = refl;
  fine = refl;
  listed = λ a. sym (member-insert a "p:5299" old);
}

reconcile_server_proxy_registry-sync_example :
    registry "b" old
      (reconcile_server_proxy_registry listing "b" (proxy ∷ []) cluster fresh).1.calls
    ≡ sync cluster (proxy ∷ []) (registry "b" old fresh.calls)
reconcile_server_proxy_registry-sync_example =
    reconcile_server_proxy_registry-sync listing "b" old (proxy ∷ []) cluster fresh listing-Lists

-- The broker has removed the old proxy when it is asked again.
abbrev truthful : Env
truthful = record steady {
  on_http = λ h r. ok (record { status_code = 200; body = if eqb (length h) 1 then "1" else "2" });
  result_addresses = λ res. if res.body == "1" then "p:5299" ∷ "gone:5299" ∷ [] else "p:5299" ∷ [];
}

truthful-Lists :
    ListsRegistry truthful "b" old
      (record fresh { calls = registrations truthful "b" (proxy ∷ []) fresh.calls })
unfolding registry change_registry member
truthful-Lists = record {
  answer = record { status_code = 200; body = "1" };
  answered = refl;
  fine = refl;
  listed = λ a. sym (member-insert a "p:5299" old);
}

abbrev once : State
once = (reconcile_server_proxy_registry truthful "b" (proxy ∷ []) cluster fresh).1

once_registry : registry "b" old once.calls ≡ of_list ("p:5299" ∷ [])
unfolding registry member gen_storage_stateful_set_addrs gen_storage_names storage_pod_name
    gen_storage_address_from_name format_nat storage_stateful_set_name storage_service_name
once_registry =
    reconcile_server_proxy_registry-sync truthful "b" old (proxy ∷ []) cluster fresh truthful-Lists
    ∙ AddressSet-ext _ _ λ a.
      let kept = λ (c : String). contains c (gen_storage_stateful_set_addrs cluster) in
      member-add_all a ("p:5299" ∷ []) (keep_only kept old)
      ∙ ap (λ t. contains a ("p:5299" ∷ []) || t) (member-keep_only kept a old ∙ gone a)
      ∙ ground arith
  where
    gone :
        (a : String)
        → contains a ("gone:5299" ∷ []) && contains a (gen_storage_stateful_set_addrs cluster)
          ≡ false
    gone a = elim (String-cases a "gone:5299") [
      | inl (same, p) ↦ rw p refl
      | inr (differ, n) ↦ rw differ refl
    ]

again-Lists :
    ListsRegistry truthful "b" old
      (record once { calls = registrations truthful "b" (proxy ∷ []) once.calls })
unfolding member delete_list keep_set gen_storage_stateful_set_addrs gen_storage_names
    storage_pod_name gen_storage_address_from_name format_nat storage_stateful_set_name
    storage_service_name Client.get_server_proxies ◌>>=◌
again-Lists = record {
  answer = record { status_code = 200; body = "2" };
  answered =
      rw
        (reconcile_server_proxy_registry-calls truthful "b" (proxy ∷ []) cluster fresh
          ("p:5299" ∷ "gone:5299" ∷ []) refl)
        refl;
  fine = refl;
  listed = λ a. sym (
      member-posted truthful "b" old a proxy once.calls
      ∙ ap (λ t. (a == "p:5299") || member a t) once_registry
      ∙ ground arith);
}

reconcile_server_proxy_registry-again_example :
    registry "b" old
      (reconcile_server_proxy_registry truthful "b" (proxy ∷ []) cluster once).1.calls
    ≡ registry "b" old once.calls
reconcile_server_proxy_registry-again_example =
    reconcile_server_proxy_registry-again truthful "b" old (proxy ∷ []) cluster fresh truthful-Lists
      again-Lists

create_cluster-retry_reconciliation_example :
    ((Client.create_cluster steady "b" "c" 1 fresh).0 ≡ err retry_reconciliation)
    ↔ IsAnswered steady "b" "c" 1 fresh 409 "NO_AVAILABLE_RESOURCE"
create_cluster-retry_reconciliation_example =
    create_cluster-retry_reconciliation steady "b" "c" 1 fresh

within :
    (a b : Bool)
    → length (
        addresses_of_subsets (
          (if a
            then pod "um-bk-ss-0" ∷ pod "um-bk-ss-1" ∷ pod "um-bk-ss-2" ∷ []
            else if b
            then pod "um-cd-ss-0" ∷ []
            else pod "um-stg-ss-0" ∷ pod "um-stg-ss-1" ∷ [])
          ∷ []))
      ≤ 3
unfolding addresses_of_subsets
within true b = omega arith
within false true = omega arith
within false false = omega arith

steady-IsBounded : IsBounded steady 3 1
steady-IsBounded = record {
  endpoints = λ h key e p.
      let same : record { subsets = _ ∷ [] } ≡ e = cc in
      rw (sym same) (within (key.name == "um-bk-svc") (key.name == "um-cd-svc"));
  listed = λ res. omega arith;
}

reconcile-calls_example :
    length (reconcile steady request fresh).1.calls ≤ 68 + 7 * 3 + 2 * 1 + length fresh.calls
reconcile-calls_example = reconcile-calls steady steady-IsBounded request fresh
