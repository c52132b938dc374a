-- ===== src/Errors/Clients.antt =====
-- The errors of broker_client.go and of the Redis clients.

use undermoon_operator_old.BrokerClient as Client
use undermoon_operator_old.BrokerClient.{
  addresses_of, bad_content, bad_status, epoch_of, exists_in, info_of, no_info,
}
use undermoon_operator_old.Clients.{coordinator_client, set_broker_address}
use undermoon_operator_old.Common.{List, none, Option, some, String, ℕ}
use undermoon_operator_old.Errors.{IsForeign, IsForeignOrRetry}
use undermoon_operator_old.Exec.{perform, throw}
use undermoon_operator_old.Exec.Rules.{
  Throws, Throws-perform, Throws-pure, Throws-throw, throws_rules,
}
use undermoon_operator_old.Go.{
  failed, free_node_found, GoError, remote, RemoteError, Result, retry_reconciliation,
}
use undermoon_operator_old.Go.ParseInt.{Parsed, value}
use undermoon_operator_old.World.{Call, ClusterInfo, Env, History, HttpResponse}

-- Predicates that hold of what is no sentinel.
pub record IsTolerant (Q : GoError → Type 0) : Type 0 where
  pub on_failed : (message : String) → Q (failed message)
  pub on_remote : (e : RemoteError) → Q (remote e)

pub IsForeign-IsTolerant : IsTolerant IsForeign
IsForeign-IsTolerant = record { on_failed = λ m. tt; on_remote = λ e. tt }

pub IsForeignOrRetry-IsTolerant : IsTolerant IsForeignOrRetry
IsForeignOrRetry-IsTolerant = record { on_failed = λ m. tt; on_remote = λ e. tt }

coordinator_client-Throws : {Q : GoError → Type 0} (a : String) → Throws Q (coordinator_client a)
unfolding coordinator_client
coordinator_client-Throws a = record { at = λ s e h. cc }

module _ (env : Env) {Q : GoError → Type 0} (tolerant : IsTolerant Q) where
  bad_status-Throws :
      {A : Type 0} (m : String) (res : HttpResponse) → Throws Q (throw {A = A} (bad_status m res))
  unfolding bad_status
  bad_status-Throws m res = Throws-throw _ (tolerant.on_failed _)

  bad_content-Throws :
      {A : Type 0} (m : String) (res : HttpResponse) → Throws Q (throw {A = A} (bad_content m res))
  unfolding bad_content
  bad_content-Throws m res = Throws-throw _ (tolerant.on_failed _)

  addresses_of-Throws :
      (res : HttpResponse) (o : Option (List String)) → Throws Q (addresses_of res o)
  unfolding addresses_of
  addresses_of-Throws res (some a) = Throws-pure _
  addresses_of-Throws res none = Throws-throw _ (tolerant.on_failed _)

  epoch_of-Throws : (res : HttpResponse) (p : Parsed) → Throws Q (epoch_of res p)
  unfolding epoch_of
  epoch_of-Throws res (value z) = Throws-pure _
  epoch_of-Throws res _ = Throws-throw _ (tolerant.on_failed _)

  exists_in-Throws :
      (c : String) (res : HttpResponse) (o : Option (List String)) → Throws Q (exists_in c res o)
  unfolding exists_in
  exists_in-Throws c res (some a) = Throws-pure _
  exists_in-Throws c res none = Throws-throw _ (tolerant.on_failed _)

  info_of-Throws : (res : HttpResponse) (o : Option ClusterInfo) → Throws Q (info_of res o)
  unfolding info_of
  info_of-Throws res (some a) = Throws-pure _
  info_of-Throws res none = Throws-throw _ (tolerant.on_failed _)

  no_info-Throws : (res : HttpResponse) (o : Option String) → Throws Q (no_info res o)
  unfolding no_info bad_content
  no_info-Throws res (some a) = Throws-throw _ (tolerant.on_failed _)
  no_info-Throws res none = Throws-throw _ (tolerant.on_failed _)

  pub perform-Throws :
      {A : Type 0} (c : Call) (answer : History → Result RemoteError A)
      → Throws Q (perform c answer)
  perform-Throws c answer = Throws-perform c answer tolerant.on_remote

  pub get_epoch-Throws : (a : String) → Throws Q (Client.get_epoch env a)
  unfolding Client.get_epoch
  get_epoch-Throws a = search (throws_rules, tolerant.on_remote, epoch_of-Throws, bad_status-Throws)

  pub get_server_proxies-Throws : (a : String) → Throws Q (Client.get_server_proxies env a)
  unfolding Client.get_server_proxies
  get_server_proxies-Throws a = search (throws_rules, tolerant.on_remote, bad_content-Throws)

  pub set_replicas-Throws :
      (a : String) (l : List String) → Throws Q (Client.set_broker_replicas env a l)
  unfolding Client.set_broker_replicas
  set_replicas-Throws a l = search (throws_rules, tolerant.on_remote, bad_content-Throws)

  pub exists-Throws : (a c : String) → Throws Q (Client.cluster_exists env a c)
  unfolding Client.cluster_exists
  exists-Throws a c =
      search (throws_rules, tolerant.on_remote, exists_in-Throws, bad_content-Throws)

  pub info-Throws : (a c : String) → Throws Q (Client.get_cluster_info env a c)
  unfolding Client.get_cluster_info
  info-Throws a c =
      search (throws_rules, tolerant.on_remote, info_of-Throws, no_info-Throws, bad_content-Throws)

  pub fix_epoch-Throws : (a : String) → Throws Q (Client.fix_epoch env a)
  unfolding Client.fix_epoch
  fix_epoch-Throws a = search (throws_rules, tolerant.on_remote, bad_content-Throws)

  pub set_broker_address-Throws : (a b : String) → Throws Q (set_broker_address env a b)
  unfolding set_broker_address
  set_broker_address-Throws a b =
      search (throws_rules, tolerant.on_remote, coordinator_client-Throws)

module _ (env : Env) where
  pub create-Throws :
      (a c : String) (n : ℕ) → Throws IsForeignOrRetry (Client.create_cluster env a c n)
  unfolding Client.create_cluster
  create-Throws a c n = search (
    throws_rules,
    IsForeignOrRetry-IsTolerant.on_remote,
    bad_content-Throws env IsForeignOrRetry-IsTolerant,
    tt,
  )

-- The two calls whose sentinels the meta controller turns into a retry.
abbrev pub IsSignal : GoError → Type 0
IsSignal retry_reconciliation = ⊥
IsSignal _ = Unit

pub IsSignal-IsTolerant : IsTolerant IsSignal
IsSignal-IsTolerant = record { on_failed = λ m. tt; on_remote = λ e. tt }

-- What removeFreeNodes returns.
abbrev pub IsForeignOrMigration : GoError → Type 0
IsForeignOrMigration retry_reconciliation = ⊥
IsForeignOrMigration free_node_found = ⊥
IsForeignOrMigration _ = Unit

IsForeignOrMigration-IsTolerant : IsTolerant IsForeignOrMigration
IsForeignOrMigration-IsTolerant = record { on_failed = λ m. tt; on_remote = λ e. tt }

module _ (env : Env) where
  pub scale-Throws : (a c : String) (n : ℕ) → Throws IsSignal (Client.scale_nodes env a c n)
  unfolding Client.scale_nodes
  scale-Throws a c n =
      search
        (
          throws_rules,
          IsSignal-IsTolerant.on_remote,
          bad_content-Throws env IsSignal-IsTolerant,
          tt,
        )
        depth 8

  pub remove-Throws :
      (a c : String) → Throws IsForeignOrMigration (Client.remove_free_nodes env a c)
  unfolding Client.remove_free_nodes
  remove-Throws a c = search (
    throws_rules,
    IsForeignOrMigration-IsTolerant.on_remote,
    bad_content-Throws env IsForeignOrMigration-IsTolerant,
    tt,
  )
