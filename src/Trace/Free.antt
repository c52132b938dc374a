-- ===== src/Trace/Free.antt =====
-- Calls that change nothing that the trace has to justify, and the functions that make no others.
use undermoon_operator_old.Api
use undermoon_operator_old.BrokerClient.{addresses_of, epoch_of, exists_in, info_of, no_info}
use undermoon_operator_old.Clients.{coordinator_client, server_proxy_client}
use undermoon_operator_old.Common.{List, none, Option, some, String, ℕ, ◌≡◌}
use undermoon_operator_old.Exec.{perform, State}
use undermoon_operator_old.Exec.Rules.{Keeps, keeps_rules}
use undermoon_operator_old.Go.{RemoteError, Result}
use undermoon_operator_old.Go.ParseInt.{Parsed, value}
use undermoon_operator_old.Kube.{NamespacedName, Undermoon}
use undermoon_operator_old.Trace.{IsValid, Justified}
use undermoon_operator_old.Trace.Creation.{endpoints_or_none-Keeps}
use undermoon_operator_old.Utils.{get_endpoints}
use undermoon_operator_old.World.{
  Call, ClusterInfo, delete, empty, Env, get, History, HttpResponse, node_number, Payload, post,
  proxy_meta, put, ServerProxyMeta,
}

-- Everything but a creation, an update of a StatefulSet and a scale request.
abbrev pub IsFree : Call → Type 0
IsFree (Call.create_service service) = ⊥
IsFree (Call.create_stateful_set ss) = ⊥
IsFree (Call.update_stateful_set ss) = ⊥
IsFree (Call.http request) = (request.method ≡ post) → (request.payload ≡ empty) → ⊥
IsFree _ = Unit

-- A predicate that free calls and the pools of clients keep.
pub record IsStable (P : State → Type 0) : Type 1 where
  pub free :
      (A : Type 0) (c : Call) (answer : History → Result RemoteError A)
      → IsFree c
      → Keeps P (perform c answer)
  pub coord : (address : String) → Keeps P (coordinator_client address)
  pub proxy : (address : String) → Keeps P (server_proxy_client address)

pub IsValid-IsStable : (env : Env) → IsStable (IsValid env)
unfolding perform coordinator_client server_proxy_client
IsValid-IsStable env = record {
  free = λ A c answer f. record { at = λ s v. (justified c s.calls f, v) };
  coord = λ a. record { at = λ s v. v };
  proxy = λ a. record { at = λ s v. v };
}
  where
    justified : (c : Call) (h : History) → IsFree c → Justified env c h
    justified (Call.create_service service) h f = absurd f
    justified (Call.create_stateful_set ss) h f = absurd f
    justified (Call.update_stateful_set ss) h f = absurd f
    justified (Call.http r) h f = λ p q. absurd (f p q)
    justified _ h f = tt

module _ (env : Env) {P : State → Type 0} (stable : IsStable P) where
  pub get_undermoon-Keeps : (k : NamespacedName) → Keeps P (Api.get_undermoon env k)
  get_undermoon-Keeps k = stable.free _ _ _ tt

  pub update_status-Keeps : (cr : Undermoon) → Keeps P (Api.update_status env cr)
  update_status-Keeps cr = stable.free _ _ _ tt

  pub get_endpoints-Keeps : (name namespace : String) → Keeps P (get_endpoints env name namespace)
  unfolding get_endpoints
  get_endpoints-Keeps name namespace =
      search (keeps_rules, stable.free _ (Call.get_endpoints _) _ tt, endpoints_or_none-Keeps)

  pub send_get : (url : String) (p : Payload) → Keeps P (Api.send env get url p)
  send_get url p = stable.free _ _ _ (λ e _. cc)

  pub send_put : (url : String) (p : Payload) → Keeps P (Api.send env put url p)
  send_put url p = stable.free _ _ _ (λ e _. cc)

  pub send_delete : (url : String) (p : Payload) → Keeps P (Api.send env delete url p)
  send_delete url p = stable.free _ _ _ (λ e _. cc)

  pub send_proxy :
      (url : String) (m : ServerProxyMeta) → Keeps P (Api.send env post url (proxy_meta m))
  send_proxy url m = stable.free _ _ _ (λ _ e. cc)

  pub send_nodes : (url : String) (n : ℕ) → Keeps P (Api.send env post url (node_number n))
  send_nodes url n = stable.free _ _ _ (λ _ e. cc)

  pub redis_string : (a : String) (l : List String) → Keeps P (Api.process_string env a l)
  redis_string a l = stable.free _ _ _ tt

  pub redis_int : (a : String) (l : List String) → Keeps P (Api.process_int env a l)
  redis_int a l = stable.free _ _ _ tt

  pub addresses_of-Keeps :
      (res : HttpResponse) (o : Option (List String)) → Keeps P (addresses_of res o)
  unfolding addresses_of
  addresses_of-Keeps res (some a) = search keeps_rules
  addresses_of-Keeps res none = search keeps_rules

  pub epoch_of-Keeps : (res : HttpResponse) (p : Parsed) → Keeps P (epoch_of res p)
  unfolding epoch_of
  epoch_of-Keeps res (value z) = search keeps_rules
  epoch_of-Keeps res _ = search keeps_rules

  pub exists_in-Keeps :
      (c : String) (res : HttpResponse) (o : Option (List String)) → Keeps P (exists_in c res o)
  unfolding exists_in
  exists_in-Keeps c res (some a) = search keeps_rules
  exists_in-Keeps c res none = search keeps_rules

  pub info_of-Keeps : (res : HttpResponse) (o : Option ClusterInfo) → Keeps P (info_of res o)
  unfolding info_of
  info_of-Keeps res (some a) = search keeps_rules
  info_of-Keeps res none = search keeps_rules

  pub no_info-Keeps : (res : HttpResponse) (o : Option String) → Keeps P (no_info res o)
  unfolding no_info
  no_info-Keeps res (some a) = search keeps_rules
  no_info-Keeps res none = search keeps_rules
