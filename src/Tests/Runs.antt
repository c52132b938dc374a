-- ===== src/Tests/Runs.antt =====
-- Runs of Reconcile, and the parts of one, in the sample environments.
use undermoon_operator_old.Common.{[], refl, ◌≡◌, ◌⊎◌}
use undermoon_operator_old.Errors.{IsForeign}
use undermoon_operator_old.Errors.Run.{error-reconcile}
use undermoon_operator_old.Exec.{map_error, perform, State, ◌>>=◌}
use undermoon_operator_old.Go.{err, not_found, ok, other, remote}
use undermoon_operator_old.Kube.{Undermoon}
use undermoon_operator_old.Reconciler.{done, reconcile, reconcile_body}
use undermoon_operator_old.Reconciler.Done.{IsGone, IsSettled, reconcile-done}
use undermoon_operator_old.Tests.Samples.{fresh, request, steady}
use undermoon_operator_old.Trace.{IsValid}
use undermoon_operator_old.Trace.Pools.{IsPooled}
use undermoon_operator_old.Trace.Reachable.{IsReachable-IsValid, pass, start}
use undermoon_operator_old.Trace.Run.{reconcile-IsValid}
use undermoon_operator_old.World.{Env}

-- The API server is down.
abbrev down : Env
down = record steady { on_get_undermoon = λ h k. err (other "connection refused") }

reconcile-IsValid_example : IsValid steady (reconcile steady request fresh).1
reconcile-IsValid_example = reconcile-IsValid steady request fresh tt

error-reconcile_example : IsForeign (remote (other "connection refused"))
unfolding reconcile reconcile_body map_error perform ◌>>=◌
error-reconcile_example =
    error-reconcile down request fresh (remote (other "connection refused")) refl

-- A whole run, with the scaling and the last update.
steady-done : (reconcile steady request fresh).0 ≡ done
unfolding undermoon_operator_old.BrokerController.better
    undermoon_operator_old.BrokerController.replicas_of
    undermoon_operator_old.BrokerController.status_updated
    undermoon_operator_old.BrokerController.get_or_create_broker_service
    undermoon_operator_old.BrokerController.get_or_create_broker_stateful_set
    undermoon_operator_old.BrokerController.create_broker
    undermoon_operator_old.BrokerController.broker_ready
    undermoon_operator_old.BrokerController.get_service_endpoints_num
    undermoon_operator_old.CoordinatorController.get_service_endpoints_num
    undermoon_operator_old.BrokerController.broker_all_ready
    undermoon_operator_old.BrokerController.master_brokers
    undermoon_operator_old.BrokerController.max_epoch_broker
    undermoon_operator_old.BrokerController.choose_master
    undermoon_operator_old.BrokerController.get_current_master
    undermoon_operator_old.BrokerController.set_master_broker_status
    undermoon_operator_old.BrokerController.reconcile_master
    undermoon_operator_old.BrokerClient.bad_status undermoon_operator_old.BrokerClient.bad_content
    undermoon_operator_old.BrokerClient.has_error
    undermoon_operator_old.BrokerClient.new_server_proxy_meta
    undermoon_operator_old.BrokerClient.addresses_of undermoon_operator_old.BrokerClient.epoch_of
    undermoon_operator_old.BrokerClient.names_have undermoon_operator_old.BrokerClient.exists_in
    undermoon_operator_old.BrokerClient.info_of undermoon_operator_old.BrokerClient.no_info
    undermoon_operator_old.BrokerClient.get_replica_addresses
    undermoon_operator_old.BrokerClient.store_replica_addresses
    undermoon_operator_old.BrokerClient.get_epoch
    undermoon_operator_old.BrokerClient.get_server_proxies
    undermoon_operator_old.BrokerClient.set_broker_replicas
    undermoon_operator_old.BrokerClient.register_server_proxy
    undermoon_operator_old.BrokerClient.deregister_server_proxy
    undermoon_operator_old.BrokerClient.create_cluster
    undermoon_operator_old.BrokerClient.cluster_exists
    undermoon_operator_old.BrokerClient.scale_nodes
    undermoon_operator_old.BrokerClient.remove_free_nodes
    undermoon_operator_old.BrokerClient.get_cluster_info
    undermoon_operator_old.BrokerClient.fix_epoch undermoon_operator_old.Clients.coordinator_client
    undermoon_operator_old.Clients.server_proxy_client
    undermoon_operator_old.Clients.set_broker_address undermoon_operator_old.Clients.get_proxy_epoch
    undermoon_operator_old.RedisPool.lookup undermoon_operator_old.RedisPool.get_client
    undermoon_operator_old.CoordinatorController.get_or_create_coordinator_service
    undermoon_operator_old.CoordinatorController.get_or_create_coordinator_stateful_set
    undermoon_operator_old.CoordinatorController.create_coordinator
    undermoon_operator_old.CoordinatorController.coordinator_ready
    undermoon_operator_old.CoordinatorController.coordinator_all_ready
    undermoon_operator_old.CoordinatorController.set_brokers
    undermoon_operator_old.CoordinatorController.config_set_broker
    undermoon_operator_old.Reconciler.create_resources
    undermoon_operator_old.Reconciler.broker_and_coordinator_ready
    undermoon_operator_old.Reconciler.settle_cluster
    undermoon_operator_old.Reconciler.change_cluster undermoon_operator_old.Reconciler.scale_cluster
    undermoon_operator_old.Reconciler.reconcile_body undermoon_operator_old.Reconciler.reconcile
    undermoon_operator_old.MetaController.retry_if_migrating
    undermoon_operator_old.MetaController.delete_list undermoon_operator_old.MetaController.keep_set
    undermoon_operator_old.MetaController.clear_replicas
    undermoon_operator_old.MetaController.set_broker_replicas
    undermoon_operator_old.MetaController.register_server_proxies
    undermoon_operator_old.MetaController.deregister_all
    undermoon_operator_old.MetaController.deregister_server_proxies
    undermoon_operator_old.MetaController.reconcile_server_proxy_registry
    undermoon_operator_old.MetaController.create_cluster
    undermoon_operator_old.MetaController.get_cluster_info
    undermoon_operator_old.MetaController.reconcile_meta
    undermoon_operator_old.MetaController.remove_nodes
    undermoon_operator_old.MetaController.after_scale
    undermoon_operator_old.MetaController.change_node_number
    undermoon_operator_old.MetaController.change_meta
    undermoon_operator_old.MetaController.fix_broker_epoch
    undermoon_operator_old.StorageController.replica_num
    undermoon_operator_old.StorageController.server_proxy_of
    undermoon_operator_old.StorageController.epoch_or_zero
    undermoon_operator_old.StorageController.max_ℤ undermoon_operator_old.StorageController.updated
    undermoon_operator_old.StorageController.needs_scale_out
    undermoon_operator_old.StorageController.is_stable
    undermoon_operator_old.StorageController.get_or_create_storage_stateful_set
    undermoon_operator_old.StorageController.update_storage_stateful_set
    undermoon_operator_old.StorageController.scale_out
    undermoon_operator_old.StorageController.create_storage
    undermoon_operator_old.StorageController.scale_down_storage_stateful_set
    undermoon_operator_old.StorageController.get_service_endpoints_num
    undermoon_operator_old.StorageController.storage_ready
    undermoon_operator_old.StorageController.storage_all_ready
    undermoon_operator_old.StorageController.storage_all_ready_and_stable
    undermoon_operator_old.StorageController.get_server_proxies
    undermoon_operator_old.StorageController.max_epoch_of
    undermoon_operator_old.StorageController.get_max_epoch undermoon_operator_old.Utils.rounds
    undermoon_operator_old.Utils.create_service_guard
    undermoon_operator_old.Utils.create_stateful_set_guard
    undermoon_operator_old.Utils.addresses_of_subsets undermoon_operator_old.Utils.pod_ip_env
    undermoon_operator_old.Utils.pod_name_env undermoon_operator_old.Utils.gen_anti_affinity
    undermoon_operator_old.Utils.endpoints_or_none undermoon_operator_old.Utils.get_endpoints
    undermoon_operator_old.Utils.found_or_created_service
    undermoon_operator_old.Utils.get_or_create_service
    undermoon_operator_old.Utils.found_or_created_stateful_set
    undermoon_operator_old.Utils.get_or_create_stateful_set undermoon_operator_old.Exec.pure
    undermoon_operator_old.Exec.throw undermoon_operator_old.Exec.attempt
    undermoon_operator_old.Exec.from_result undermoon_operator_old.Exec.map_error
    undermoon_operator_old.Exec.of_remote undermoon_operator_old.Exec.perform
    undermoon_operator_old.Exec.◌>>=◌ undermoon_operator_old.Go.ParseInt.scan
    undermoon_operator_old.Go.ParseInt.magnitude undermoon_operator_old.Go.ParseInt.parse_int
    undermoon_operator_old.Go.ParseInt.behind_dash
    undermoon_operator_old.Go.ParseInt.after_last_dash undermoon_operator_old.Go.Int32.int32
    undermoon_operator_old.Go.Int32.mul2_int32 undermoon_operator_old.Go.Int32.pred_int32
    undermoon_operator_old.Go.Format.digit undermoon_operator_old.Go.Format.digits
    undermoon_operator_old.Go.Format.format_nat
    undermoon_operator_old.Names.Coordinator.coordinator_service_name
    undermoon_operator_old.Names.Coordinator.coordinator_stateful_set_name
    undermoon_operator_old.Names.Coordinator.coordinator_names_from
    undermoon_operator_old.Names.Coordinator.gen_coordinator_names
    undermoon_operator_old.Names.Coordinator.gen_coordinator_fqdn
    undermoon_operator_old.Names.Coordinator.gen_coordinator_address_from_name
    undermoon_operator_old.Names.Coordinator.gen_coordinator_stateful_set_addrs
    undermoon_operator_old.Names.Broker.broker_service_name
    undermoon_operator_old.Names.Broker.broker_stateful_set_name
    undermoon_operator_old.Names.Broker.broker_names_from
    undermoon_operator_old.Names.Broker.gen_broker_names
    undermoon_operator_old.Names.Broker.gen_broker_fqdn
    undermoon_operator_old.Names.Broker.gen_broker_address_from_name
    undermoon_operator_old.Names.Broker.gen_broker_stateful_set_addrs
    undermoon_operator_old.Names.Storage.storage_service_name
    undermoon_operator_old.Names.Storage.storage_public_service_name
    undermoon_operator_old.Names.Storage.storage_stateful_set_name
    undermoon_operator_old.Names.Storage.storage_pod_name
    undermoon_operator_old.Names.Storage.storage_names_from
    undermoon_operator_old.Names.Storage.gen_storage_names
    undermoon_operator_old.Names.Storage.gen_storage_fqdn
    undermoon_operator_old.Names.Storage.gen_storage_fqdn_from_name
    undermoon_operator_old.Names.Storage.gen_storage_address_from_name
    undermoon_operator_old.Names.Storage.gen_storage_stateful_set_addrs
    undermoon_operator_old.Resources.Coordinator.create_coordinator_service
    undermoon_operator_old.Resources.Coordinator.create_coordinator_stateful_set
    undermoon_operator_old.Resources.Broker.create_broker_service
    undermoon_operator_old.Resources.Broker.create_broker_stateful_set
    undermoon_operator_old.Resources.Storage.create_storage_service
    undermoon_operator_old.Resources.Storage.create_storage_public_service
    undermoon_operator_old.Resources.Storage.first_proxy_address
    undermoon_operator_old.Resources.Storage.announce_command
    undermoon_operator_old.Resources.Storage.check_command
    undermoon_operator_old.Resources.Storage.gen_redis_container
    undermoon_operator_old.Resources.Storage.create_storage_stateful_set
steady-done = refl

reconcile-done_example :
    IsGone steady request fresh
    ⊎ ((found : Undermoon) × (steady.on_get_undermoon [] request ≡ ok found)
        × IsSettled steady found (reconcile steady request fresh).1.calls)
reconcile-done_example = reconcile-done steady request fresh steady-done

-- Two runs.
abbrev twice : State
twice = (reconcile steady request (reconcile steady request fresh).1).1

IsReachable-IsValid_example : IsValid steady twice × IsPooled twice
IsReachable-IsValid_example =
    IsReachable-IsValid steady twice
      (pass request (reconcile steady request fresh).1 (pass request fresh start))
