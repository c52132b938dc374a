-- ===== src/Trace/Reachable.antt =====
-- Any number of runs of Reconcile, one after another, from the operator's start.

use undermoon_operator_old.Common.{[]}
use undermoon_operator_old.Exec.{State}
use undermoon_operator_old.Kube.{NamespacedName}
use undermoon_operator_old.Reconciler.{reconcile}
use undermoon_operator_old.RedisPool.{new_pool}
use undermoon_operator_old.RedisPool.Laws.{new_pool-IsSound}
use undermoon_operator_old.Trace.{IsValid}
use undermoon_operator_old.Trace.Passage.{body-Keeps}
use undermoon_operator_old.Trace.Pools.{IsPooled, IsPooled-IsCarried}
use undermoon_operator_old.Trace.Run.{reconcile-IsValid}
use undermoon_operator_old.World.{Env}

module _ (env : Env) where
  reconcile-IsPooled :
      (request : NamespacedName) (s : State) → IsPooled s → IsPooled (reconcile env request s).1
  unfolding reconcile
  reconcile-IsPooled request s p = (body-Keeps env IsPooled-IsCarried request).at s p

  -- The operator starts with no call made and empty pools; then come runs for any resources.
  pub data IsReachable : State → Type 0 where
    start : IsReachable (record { calls = []; coord_pool = new_pool; proxy_pool = new_pool })
    pass :
        (request : NamespacedName) (s : State)
        → IsReachable s
        → IsReachable (reconcile env request s).1

  -- In each state that the operator reaches from its start, with no call made and empty pools, by
  -- any number of runs of Reconcile for any resources, the history is valid (every creation, every
  -- update of a StatefulSet and every request to scale was justified when it was made, as IsValid
  -- says), and both pools of Redis clients are sound, so that each client goes to the address that
  -- it is stored under.
  pub IsReachable-IsValid : (s : State) → IsReachable s → IsValid env s × IsPooled s
  IsReachable-IsValid _ start = (tt, record { coord = new_pool-IsSound; proxy = new_pool-IsSound })
  IsReachable-IsValid _ (pass request s r) =
      let (valid, pooled) = IsReachable-IsValid s r in
      (reconcile-IsValid env request s valid, reconcile-IsPooled request s pooled)
