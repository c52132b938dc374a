-- ===== src/Trace/Carried.antt =====
-- Predicates that every call keeps, such as what has held earlier in the history.
use undermoon_operator_old.BrokerClient as Client
use undermoon_operator_old.Clients.{coordinator_client, server_proxy_client}
use undermoon_operator_old.Common.{Bool, String, false, inr, true, ℕ}
use undermoon_operator_old.Exec.{State, perform}
use undermoon_operator_old.Exec.Rules.{Keeps-and, Keeps, Keeps-throw, keeps_rules}
use undermoon_operator_old.Go.{
  GoError, RemoteError, Result, err, failed, free_node_found, migration_running, ok, remote,
  retry_reconciliation,
}
use undermoon_operator_old.Kube.{Undermoon}
use undermoon_operator_old.MetaController.{
  after_scale, change_meta, change_node_number, remove_nodes,
}
use undermoon_operator_old.Trace.{Earlier}
use undermoon_operator_old.Trace.Free.{IsStable}
use undermoon_operator_old.Trace.Server.{IsCalm}
use undermoon_operator_old.World.{Call, ClusterInfo, Env, History}

pub record IsCarried (P : State → Type 0) : Type 1 where
  pub any :
      (A : Type 0) (c : Call) (answer : History → Result RemoteError A) → Keeps P (perform c answer)
  pub coord : (address : String) → Keeps P (coordinator_client address)
  pub proxy : (address : String) → Keeps P (server_proxy_client address)

pub Earlier-IsCarried : (P : History → Type 0) → IsCarried (λ s. Earlier P s.calls)
unfolding perform coordinator_client server_proxy_client
Earlier-IsCarried P = record {
  any = λ A c answer. record { at = λ s e. inr e };
  coord = λ a. record { at = λ s e. e };
  proxy = λ a. record { at = λ s e. e };
}

pub stable_of : {P : State → Type 0} → IsCarried P → IsStable P
stable_of carried = record {
  free = λ A c answer f. carried.any A c answer;
  coord = carried.coord;
  proxy = carried.proxy;
}

pub stable-carried : {P Q : State → Type 0} → IsStable P → IsCarried Q → IsStable (λ s. P s × Q s)
stable-carried stable carried = record {
  free = λ A c answer f. Keeps-and _ (stable.free A c answer f) (carried.any A c answer);
  coord = λ a. Keeps-and _ (stable.coord a) (carried.coord a);
  proxy = λ a. Keeps-and _ (stable.proxy a) (carried.proxy a);
}

pub calm_of : {P : State → Type 0} → IsCarried P → IsCalm P
calm_of carried = record { server = λ A c answer f. carried.any A c answer }

module _ (env : Env) {P : State → Type 0} (carried : IsCarried P) where
  scale-Keeps : (a c : String) (n : ℕ) → Keeps P (Client.scale_nodes env a c n)
  unfolding Client.scale_nodes
  scale-Keeps a c n = search (keeps_rules, carried.any) depth 8

  remove-Keeps : (a c : String) → Keeps P (Client.remove_free_nodes env a c)
  unfolding Client.remove_free_nodes
  remove-Keeps a c = search (keeps_rules, carried.any) depth 8

  remove_nodes-Keeps : (a : String) (cr : Undermoon) (b : Bool) → Keeps P (remove_nodes env a cr b)
  unfolding remove_nodes
  remove_nodes-Keeps a cr b = search (keeps_rules, remove-Keeps)

  after_scale-Keeps :
      (a : String) (cr : Undermoon) (r : Result GoError (Unit {0}))
      → Keeps P (after_scale env a cr r)
  unfolding after_scale
  after_scale-Keeps a cr (ok x) = remove_nodes-Keeps a cr false
  after_scale-Keeps a cr (err free_node_found) = remove_nodes-Keeps a cr true
  after_scale-Keeps a cr (err retry_reconciliation) = Keeps-throw _
  after_scale-Keeps a cr (err migration_running) = Keeps-throw _
  after_scale-Keeps a cr (err (failed m)) = Keeps-throw _
  after_scale-Keeps a cr (err (remote e)) = Keeps-throw _

  pub change_meta-Keeps :
      (a : String) (cr : Undermoon) (info : ClusterInfo) → Keeps P (change_meta env a cr info)
  unfolding change_meta change_node_number
  change_meta-Keeps a cr info = search (keeps_rules, scale-Keeps, after_scale-Keeps)
