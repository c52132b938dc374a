-- ===== src/Tests/Meta.antt =====
-- The meta controller in the sample environment.
use undermoon_operator_old.BrokerClient.{addresses_url, bad_content, epoch_of, has_error, info_of}
use undermoon_operator_old.BrokerClient.Effects.{config}
use undermoon_operator_old.BrokerClient.Requests.{request}
use undermoon_operator_old.Common.{
  [], contains, false, if◌then◌else◌, List, refl, String, true, ◌==◌, ◌∷◌, ◌≡◌, ◌⊎◌,
}
use undermoon_operator_old.Common.Int.{pos, ◌<ℤ◌, ◌≤ℤ◌}
use undermoon_operator_old.Exec.{perform, ◌>>=◌}
use undermoon_operator_old.Go.{ok}
use undermoon_operator_old.Go.Format.{format_nat}
use undermoon_operator_old.Go.ParseInt.{parse_int}
use undermoon_operator_old.MetaController.{
  change_meta, change_node_number, clear_replicas, create_cluster, delete_list, deregister_all,
  deregister_server_proxies, fix_broker_epoch, get_cluster_info, keep_set, reconcile_meta,
  reconcile_server_proxy_registry, register_server_proxies, set_broker_replicas,
}
use undermoon_operator_old.MetaController.Elected.{config-set_broker_replicas}
use undermoon_operator_old.MetaController.Epochs.{epoch_call, fix_broker_epoch-calls, recovery_call}
use undermoon_operator_old.MetaController.Registry.{
  deletions, keep_set-contains, reconcile_server_proxy_registry-calls, registrations,
}
use undermoon_operator_old.MetaController.Scaling.{change_meta-ok, reconcile_meta-ok, Scaled}
use undermoon_operator_old.Names.Storage.{
  gen_storage_address_from_name, gen_storage_stateful_set_addrs, storage_pod_name,
  storage_service_name, storage_stateful_set_name,
}
use undermoon_operator_old.Tests.Samples.{cluster, fresh, info, steady}
use undermoon_operator_old.Trace.{InfoRead}
use undermoon_operator_old.World.{empty, get, ServerProxyMeta}
use undermoon_operator_old.BrokerClient as Client

abbrev proxy : ServerProxyMeta
proxy = record {
  proxy_address = "um-stg-ss-0.um-stg-svc.ns.svc.cluster.local:5299";
  redis_addresses = ("r:7001", "r:7002");
  host = "h";
  index = pos 0;
}

abbrev registered : List String
registered = "um-stg-ss-9.um-stg-svc.ns.svc.cluster.local:5299" ∷ []

reconcile_server_proxy_registry-calls_example :
    (reconcile_server_proxy_registry steady "b" (proxy ∷ []) cluster fresh).1.calls
    ≡ deletions steady "b"
        (delete_list (keep_set cluster (proxy ∷ [])) registered)
        (request get (addresses_url "b") empty ∷ registrations steady "b" (proxy ∷ []) [])
unfolding Client.get_server_proxies perform ◌>>=◌
reconcile_server_proxy_registry-calls_example =
    reconcile_server_proxy_registry-calls steady "b" (proxy ∷ []) cluster fresh registered refl

keep_set-contains_example :
    (contains "old" (gen_storage_stateful_set_addrs cluster) ≡ false)
    × (contains "old" ("new" ∷ []) ≡ false)
    × (contains "old" ("old" ∷ "new" ∷ []) ≡ true)
unfolding delete_list keep_set gen_storage_stateful_set_addrs storage_pod_name
    gen_storage_address_from_name format_nat storage_stateful_set_name storage_service_name
keep_set-contains_example =
    keep_set-contains cluster (record proxy { proxy_address = "new" } ∷ []) ("old" ∷ "new" ∷ [])
      "old" refl

change_meta-ok_example :
    (false ≡ false) × Scaled steady "b" cluster (change_meta steady "b" cluster info) fresh
unfolding change_meta change_node_number Client.scale_nodes Client.remove_free_nodes ◌>>=◌
change_meta-ok_example = change_meta-ok steady "b" cluster info fresh refl

reconcile_meta-ok_example :
    (true ≡ true)
    × InfoRead steady "b" "c" info
        (reconcile_meta steady "b" ("r" ∷ []) [] cluster true fresh).1.calls
unfolding reconcile_meta set_broker_replicas clear_replicas Client.set_broker_replicas
    reconcile_server_proxy_registry register_server_proxies deregister_server_proxies deregister_all
    Client.get_server_proxies Client.deregister_server_proxy create_cluster Client.cluster_exists
    get_cluster_info Client.get_cluster_info delete_list keep_set gen_storage_stateful_set_addrs
    storage_pod_name gen_storage_address_from_name format_nat storage_stateful_set_name
    storage_service_name ◌>>=◌
reconcile_meta-ok_example = reconcile_meta-ok steady "b" ("r" ∷ []) [] cluster true info fresh refl

fix_broker_epoch-calls_example :
    ((pos 9 ≤ℤ pos 7)
      × (fix_broker_epoch steady "b" (pos 9) fresh
          ≡ (ok tt, record fresh { calls = epoch_call "b" ∷ [] })))
    ⊎ ((pos 7 <ℤ pos 9)
        × ((fix_broker_epoch steady "b" (pos 9) fresh).1.calls
            ≡ recovery_call "b" ∷ epoch_call "b" ∷ []))
unfolding Client.get_epoch epoch_of parse_int ◌>>=◌
fix_broker_epoch-calls_example = fix_broker_epoch-calls steady "b" (pos 9) fresh (pos 7) refl

config-set_broker_replicas_example :
    config (set_broker_replicas steady "b" ("r" ∷ []) fresh).1.calls "b" ≡ (
      if contains "b" ("r" ∷ [])
      then []
      else if "b" == "b"
      then "r" ∷ []
      else config fresh.calls "b")
unfolding set_broker_replicas clear_replicas Client.set_broker_replicas ◌>>=◌
config-set_broker_replicas_example = config-set_broker_replicas steady "b" ("r" ∷ []) "b" fresh refl
