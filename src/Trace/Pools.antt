-- ===== src/Trace/Pools.antt =====
-- The pools of Redis clients over the steps of a run of Reconcile.

use undermoon_operator_old.Trace.Carried.{calm_of, change_meta-Keeps, IsCarried, stable_of}
use undermoon_operator_old.Trace.Server.{IsCalm, ready-Keeps, resources-Keeps, scale_down-Keeps}
use undermoon_operator_old.Clients.{coordinator_client, server_proxy_client}
use undermoon_operator_old.Common.{String}
use undermoon_operator_old.Exec.{State, perform}
use undermoon_operator_old.Exec.Rules.{Keeps}
use undermoon_operator_old.Go.{RemoteError, Result}
use undermoon_operator_old.Kube.{StatefulSet, Undermoon}
use undermoon_operator_old.MetaController.{change_meta}
use undermoon_operator_old.Reconciler.{UmResource, broker_and_coordinator_ready, create_resources}
use undermoon_operator_old.RedisPool.Laws.{IsSound, get_client-IsSound}
use undermoon_operator_old.StorageController.{scale_down_storage_stateful_set}
use undermoon_operator_old.Trace.Free.{IsStable}
use undermoon_operator_old.World.{Call, ClusterInfo, Env, History}

-- Both pools are sound.
pub record IsPooled (s : State) : Type 0 where
  pub coord : IsSound s.coord_pool
  pub proxy : IsSound s.proxy_pool

called :
    {A : Type 0} (c : Call) (answer : History → Result RemoteError A)
    → Keeps IsPooled (perform c answer)
unfolding perform
called c answer = record { at = λ s p. record { coord = p.coord; proxy = p.proxy } }

pub IsPooled-IsCarried : IsCarried IsPooled
unfolding coordinator_client server_proxy_client
IsPooled-IsCarried = record {
  any = λ A c answer. called c answer;
  coord = λ a. record {
    at = λ s p. record { coord = get_client-IsSound s.coord_pool a p.coord; proxy = p.proxy };
  };
  proxy = λ a. record {
    at = λ s p. record { coord = p.coord; proxy = get_client-IsSound s.proxy_pool a p.proxy };
  };
}

pub IsPooled-IsStable : IsStable IsPooled
IsPooled-IsStable = stable_of IsPooled-IsCarried

IsPooled-IsCalm : IsCalm IsPooled
IsPooled-IsCalm = calm_of IsPooled-IsCarried

module _ (env : Env) where
  pub resources-IsPooled : (cr : Undermoon) → Keeps IsPooled (create_resources env cr)
  resources-IsPooled cr = resources-Keeps env IsPooled-IsCalm cr

  pub ready-IsPooled :
      (resource : UmResource) → Keeps IsPooled (broker_and_coordinator_ready env resource)
  ready-IsPooled resource = ready-Keeps env IsPooled-IsCalm resource

  pub scale_down-IsPooled :
      (cr : Undermoon) (ss : StatefulSet) (info : ClusterInfo)
      → Keeps IsPooled (scale_down_storage_stateful_set env cr ss info)
  scale_down-IsPooled cr ss info = scale_down-Keeps env IsPooled-IsCalm cr ss info

  pub change_meta-IsPooled :
      (a : String) (cr : Undermoon) (info : ClusterInfo)
      → Keeps IsPooled (change_meta env a cr info)
  change_meta-IsPooled a cr info = change_meta-Keeps env IsPooled-IsCarried a cr info
