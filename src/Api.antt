-- ===== src/Api.antt =====
-- The calls of the API server's client (`client.Client` of controller-runtime), of resty and of
-- go-redis that the operator makes.
use undermoon_operator_old.Common.{String, List}
use undermoon_operator_old.Common.Int.{ℤ}
use undermoon_operator_old.Go.{RemoteError, GoError, Result}
use undermoon_operator_old.Kube.{NamespacedName, Service, StatefulSet, Endpoints, Undermoon}
use undermoon_operator_old.World.{Env, Call, Method, Payload, HttpRequest, HttpResponse}
use undermoon_operator_old.Exec.{Exec, perform}

module _ (env : Env) where
  -- `client.Get`, by the type of the object
  abbrev pub get_undermoon : NamespacedName → Exec GoError Undermoon
  get_undermoon key = perform (Call.get_undermoon key) λ h. env.on_get_undermoon h key

  abbrev pub get_service : NamespacedName → Exec GoError Service
  get_service key = perform (Call.get_service key) λ h. env.on_get_service h key

  abbrev pub get_stateful_set : NamespacedName → Exec GoError StatefulSet
  get_stateful_set key = perform (Call.get_stateful_set key) λ h. env.on_get_stateful_set h key

  abbrev pub get_endpoints : NamespacedName → Exec GoError Endpoints
  get_endpoints key = perform (Call.get_endpoints key) λ h. env.on_get_endpoints h key

  -- `client.Create` and `client.Update` write the server's answer into the object.
  abbrev pub create_service : Service → Exec GoError Service
  create_service svc = perform (Call.create_service svc) λ h. env.on_create_service h svc

  abbrev pub create_stateful_set : StatefulSet → Exec GoError StatefulSet
  create_stateful_set ss =
      perform (Call.create_stateful_set ss) λ h. env.on_create_stateful_set h ss

  abbrev pub update_stateful_set : StatefulSet → Exec GoError StatefulSet
  update_stateful_set ss =
      perform (Call.update_stateful_set ss) λ h. env.on_update_stateful_set h ss

  -- `client.Status().Update`
  abbrev pub update_status : Undermoon → Exec GoError Undermoon
  update_status cr = perform (Call.update_status cr) λ h. env.on_update_status h cr

  abbrev pub send : Method → String → Payload → Exec GoError HttpResponse
  send method url payload =
      let request : HttpRequest = record { method = method; url = url; payload = payload } in
      perform (Call.http request) λ h. env.on_http h request

  -- `Process`, for a command that returns a text and for one that returns a number
  abbrev pub process_string : String → List String → Exec GoError (Result RemoteError String)
  process_string address command =
      perform (Call.redis address command) λ h. env.on_redis_string h address command

  abbrev pub process_int : String → List String → Exec GoError (Result RemoteError ℤ)
  process_int address command =
      perform (Call.redis address command) λ h. env.on_redis_int h address command
