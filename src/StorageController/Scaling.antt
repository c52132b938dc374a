-- ===== src/StorageController/Scaling.antt =====
-- The size that the storage controller asks for, in `int32`.
use undermoon_operator_old.Common.{ap, arith, ◌<◌, ◌^◌, ◌≡◌, ◌≤◌}
use undermoon_operator_old.Common.Int.{ltb_ℤ, pos, ◌<ℤ◌}
use undermoon_operator_old.Go.Int32.{int32_of_small, mul2_int32-int32}
use undermoon_operator_old.Kube.{StatefulSet, Undermoon}
use undermoon_operator_old.Names.Storage.{storage_replicas}
use undermoon_operator_old.StorageController.{needs_scale_out, replica_num}

-- createStorage converts to int32 before it doubles the number of chunks and
-- updateStorageStatefulSet after; createStorage's test is, for every number of chunks, whether the
-- replicas are fewer than the size that the update sets.
pub needs_scale_out_lem :
    (cr : Undermoon) (ss : StatefulSet)
    → needs_scale_out cr ss ≡ ltb_ℤ ss.spec.replicas (replica_num cr)
unfolding needs_scale_out replica_num
needs_scale_out_lem cr ss = ap (ltb_ℤ ss.spec.replicas) (mul2_int32-int32 cr.spec.chunk_number)

-- Below 2 ^ 30 chunks the size of the StatefulSet is two pods a chunk.
replica_num_small :
    (cr : Undermoon) → cr.spec.chunk_number < 2 ^ 30 → replica_num cr ≡ pos (storage_replicas cr)
unfolding replica_num
replica_num_small cr h = int32_of_small (storage_replicas cr) (omega arith)

-- For 2 ^ 30 chunks and more, below 2 ^ 31, the size of the StatefulSet is negative, since twice
-- the number wraps around in an int32.
pub replica_num_wraps :
    (cr : Undermoon)
    → 2 ^ 30 ≤ cr.spec.chunk_number
    → cr.spec.chunk_number < 2 ^ 31
    → replica_num cr <ℤ pos 0
unfolding replica_num
replica_num_wraps cr low high = ground arith
