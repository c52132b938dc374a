-- ===== src/Tests/Storages.antt =====
-- The storage controller in the sample environment.
use undermoon_operator_old.Resources.Laws
use undermoon_operator_old.Common.{
  [], arith, contains, refl, String, true, ◌*◌, ◌↔◌, ◌∷◌, ◌≡◌, ◌≢◌, ◌⊎◌,
}
use undermoon_operator_old.Common.Int.{ltb_ℤ, pos, ◌<ℤ◌}
use undermoon_operator_old.Exec.{◌>>=◌}
use undermoon_operator_old.Go.{err, retry_reconciliation}
use undermoon_operator_old.Kube.{Service, StatefulSet}
use undermoon_operator_old.Names.Addresses.{address_of, address_of_iff}
use undermoon_operator_old.Names.Laws.{Distinct, gen_storage_stateful_set_addrs-Distinct}
use undermoon_operator_old.Names.Storage.{gen_storage_stateful_set_addrs}
use undermoon_operator_old.Resources.Laws.{broker, SameNames, selects, selects_iff, storage}
use undermoon_operator_old.StorageController.{
  get_max_epoch, needs_scale_out, replica_num, scale_down_storage_stateful_set, with_replica_num,
}
use undermoon_operator_old.StorageController.Epochs.{Found, get_max_epoch-Found, proxy_answers}
use undermoon_operator_old.StorageController.Proxies.{proxy_of_pod, server_proxy_of-pod}
use undermoon_operator_old.StorageController.ScaleDown.{scale_down_storage_stateful_set_lem}
use undermoon_operator_old.StorageController.Scaling.{needs_scale_out_lem, replica_num_wraps}
use undermoon_operator_old.Tests.Samples.{
  cluster, cluster_of, fresh, info, pod, service_of, stateful_set_of, steady,
}
use undermoon_operator_old.Utils.{get_endpoints}
use undermoon_operator_old.World.{Call}

abbrev storage_service : Service
storage_service = service_of "um-stg-svc"

abbrev two_pods : StatefulSet
two_pods = stateful_set_of "um-stg-ss" (pos 2)

get_max_epoch-Found_example : Found (pos 0) (get_max_epoch steady storage_service cluster fresh).0 (
    proxy_answers steady cluster
      (gen_storage_stateful_set_addrs cluster)
      (pod "um-stg-ss-0" ∷ pod "um-stg-ss-1" ∷ [])
      (get_endpoints steady "um-stg-svc" "ns" fresh).1)
unfolding get_endpoints ◌>>=◌
get_max_epoch-Found_example =
    get_max_epoch-Found steady storage_service cluster fresh
      (pod "um-stg-ss-0" ∷ pod "um-stg-ss-1" ∷ []) refl

scale_down_storage_stateful_set_lem_example :
    ((pos 4 ≢ pos (1 * 4))
      × (scale_down_storage_stateful_set steady cluster two_pods info fresh
          ≡ (err retry_reconciliation, fresh)))
    ⊎ ((pos 4 ≡ pos (1 * 4))
        × ((scale_down_storage_stateful_set steady cluster two_pods info fresh).1.calls
            ≡ Call.update_stateful_set (with_replica_num cluster two_pods) ∷ []))
scale_down_storage_stateful_set_lem_example =
    scale_down_storage_stateful_set_lem steady cluster two_pods info fresh

needs_scale_out_lem_example :
    needs_scale_out (cluster_of 3) two_pods ≡ ltb_ℤ (pos 2) (replica_num (cluster_of 3))
needs_scale_out_lem_example = needs_scale_out_lem (cluster_of 3) two_pods

replica_num_wraps_example : replica_num (cluster_of 1073741824) <ℤ pos 0
replica_num_wraps_example = replica_num_wraps (cluster_of 1073741824) (omega arith) (omega arith)

server_proxy_of-pod_example :
    ((proxy_of_pod (cluster_of 3) 5).index ≡ pos 5)
    × (contains
          (proxy_of_pod (cluster_of 3) 5).proxy_address
          (gen_storage_stateful_set_addrs (cluster_of 3))
        ≡ true)
server_proxy_of-pod_example = server_proxy_of-pod (cluster_of 3) 5 (omega arith) (omega arith)

gen_storage_stateful_set_addrs-Distinct_example :
    Distinct (gen_storage_stateful_set_addrs (cluster_of 3))
gen_storage_stateful_set_addrs-Distinct_example =
    gen_storage_stateful_set_addrs-Distinct (cluster_of 3) (omega arith)

address_of_iff_example :
    (address_of broker "um-bk-ss-0" cluster ≡ address_of storage "um-stg-ss-0" cluster)
    ↔ ((broker ≡ storage) × (Path String "um-bk-ss-0" "um-stg-ss-0"))
address_of_iff_example = address_of_iff broker storage "um-bk-ss-0" "um-stg-ss-0" cluster

selects_iff_example :
    (selects (Laws.service_of broker cluster) (Laws.stateful_set_of storage cluster) ≡ true)
    ↔ ((broker ≡ storage) × SameNames cluster cluster)
selects_iff_example = selects_iff broker storage cluster cluster
