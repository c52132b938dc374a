-- ===== src/Startup.antt =====
-- The operator's process: cmd/manager/main.go, controller.go and add_undermoon.go of
-- pkg/controller, and Add, newReconciler and add of undermoon_controller.go.
pub mod Metrics
pub mod Wiring
pub mod Outcome
use undermoon_operator_old.Common.{
  Bool, List, Option, String, [], false, if◌then◌else◌, none, some, true, ℕ, ◌<>◌, ◌∷◌,
}
use undermoon_operator_old.Go.{Result, err, ok}
use undermoon_operator_old.Go.Format.{format_nat}
use undermoon_operator_old.Go.Split.{has_comma, split_commas}
use undermoon_operator_old.Controllers.{
  CoordinatorController, MemBrokerController, MetaController, new_broker_controller,
  new_coordinator_controller, new_meta_controller, new_storage_controller, StorageController,
}

-- The errors of the libraries, with the two that main.go tells apart: k8sutil.ErrRunLocal and
-- metrics.ErrServiceMonitorNotPresent.
pub data Fault : Type 0 where
  run_local monitor_not_present : Fault
  fault : String → Fault

-- manager.Options; `new_cache` has the namespaces given to MultiNamespacedCacheBuilder.
pub record ManagerOptions : Type 0 where
  pub namespace : String
  pub metrics_bind_address : String
  pub new_cache : Option (List String)

-- corev1.ServicePort
pub record MetricsPort : Type 0 where
  pub port : ℕ
  pub name : String
  pub protocol : String
  pub target_port : ℕ

pub data Kind : Type 0 where
  undermoon stateful_set : Kind

pub data EventHandler : Type 0 where
  enqueue_request_for_object : EventHandler
  enqueue_request_for_owner : Kind → Bool → EventHandler

-- `Handle` is the type of the objects that the libraries keep to themselves.
pub record ReconcileUndermoon (Handle : Type 0) : Type 0 where
  pub client : Handle
  pub scheme : Handle
  pub broker_con : MemBrokerController Handle
  pub coordinator_con : CoordinatorController
  pub storage_con : StorageController
  pub meta_con : MetaController Handle

-- The calls of the libraries, with their arguments.
pub data Step (Handle : Type 0) : Type 0 where
  get_watch_namespace get_config get_operator_namespace get_gvks : Step Handle
  become_leader : String → Step Handle
  new_manager : Handle → ManagerOptions → Step Handle
  add_to_scheme : Handle → Step Handle
  new_controller : String → Handle → ReconcileUndermoon Handle → Step Handle
  watch : Handle → Kind → EventHandler → Step Handle
  get_metrics_namespaces : String → Step Handle
  serve_metrics : Handle → List String → Handle → String → ℕ → Step Handle
  create_metrics_service : Handle → List MetricsPort → Step Handle
  create_service_monitors : Handle → String → List (Option Handle) → Step Handle
  start : Handle → Step Handle

-- The steps so far, the latest first.
abbrev pub Steps : Type 0 → Type 0
Steps Handle = List (Step Handle)

-- The libraries. A function of Go returns its value beside an error; where main.go goes on with
-- the value all the same, both are here.
pub record Platform (Handle : Type 0) : Type 0 where
  pub on_watch_namespace : Steps Handle → Result Fault String
  pub on_config : Steps Handle → Result Fault Handle
  pub on_leader : Steps Handle → String → Result Fault (Unit {0})
  pub on_new_manager : Steps Handle → Handle → ManagerOptions → Result Fault Handle
  pub on_add_to_scheme : Steps Handle → Handle → Result Fault (Unit {0})
  pub on_new_controller :
      Steps Handle → String → Handle → ReconcileUndermoon Handle → Result Fault Handle
  pub on_watch : Steps Handle → Handle → Kind → EventHandler → Result Fault (Unit {0})
  pub on_operator_namespace : Steps Handle → String × Option Fault
  pub on_gvks : Steps Handle → Result Fault Handle
  pub on_metrics_namespaces : Steps Handle → String → Result Fault (List String)
  pub on_serve_metrics :
      Steps Handle → Handle → List String → Handle → String → ℕ → Result Fault (Unit {0})
  pub on_metrics_service : Steps Handle → Handle → List MetricsPort → Option Handle × Option Fault
  pub on_service_monitors :
      Steps Handle → Handle → String → List (Option Handle) → Result Fault (Unit {0})
  pub on_start : Steps Handle → Handle → Result Fault (Unit {0})
  pub client_of : Handle → Handle
  pub scheme_of : Handle → Handle
  pub new_resty : Handle
  pub set_header : Handle → String → String → Handle
  pub operator_port_name : String
  pub cr_port_name : String

-- A part of the process: the steps so far, to a value or an error and the steps then.
abbrev pub Run : Type 0 → Type 0 → Type 0 → Type 0
Run Handle E A = Steps Handle → Result E A × Steps Handle

abbrev pub status : {E A : Type 0} → Result E A → Result ℕ A
status (ok a) = ok a
status (err e) = err 1

module _ {Handle E A : Type 0} where
  unfoldable pub pure : A → Run Handle E A
  pure a h = (ok a, h)

  unfoldable pub call : Step Handle → (Steps Handle → Result E A) → Run Handle E A
  call step answer h = (answer h, step ∷ h)

  -- A call whose error is looked at in its value.
  unfoldable pub ask : Step Handle → (Steps Handle → A) → Run Handle E A
  ask step answer h = (ok (answer h), step ∷ h)

  -- A part whose error is only logged.
  unfoldable pub logged : {F : Type 0} → Run Handle E A → Run Handle F (Unit {0})
  logged m h = (ok tt, (m h).1)

  -- `if err != nil { os.Exit(1) }`
  unfoldable pub or_exit : Run Handle E A → Run Handle ℕ A
  or_exit m h = let (r, h') = m h in (status r, h')

module _ {Handle E A B : Type 0} where
  abbrev next : Result E A → (A → Run Handle E B) → Run Handle E B
  next (ok a) f h = f a h
  next (err e) f h = (err e, h)

  infixl 10 ◌>>=◌ ◌>>◌
  unfoldable pub ◌>>=◌ : Run Handle E A → (A → Run Handle E B) → Run Handle E B
  unfolding pure call ask logged or_exit
  ◌>>=◌ m f h = let (r, h') = m h in next r f h'

  abbrev pub ◌>>◌ : Run Handle E A → Run Handle E B → Run Handle E B
  m >> n = m >>= λ _. n

abbrev pub metrics_host : String
metrics_host = "0.0.0.0"

abbrev pub metrics_port : ℕ
metrics_port = 8383

abbrev pub operator_metrics_port : ℕ
operator_metrics_port = 8686

unfoldable pub manager_options : String → ManagerOptions
manager_options watch_namespace =
    let options : ManagerOptions = record {
      namespace = watch_namespace;
      metrics_bind_address = metrics_host <> (":" <> format_nat metrics_port);
      new_cache = none;
    } in
    if has_comma watch_namespace
    then record options { namespace = ""; new_cache = some (split_commas watch_namespace) }
    else options

-- `errors.Is(err, k8sutil.ErrRunLocal)`
abbrev pub is_run_local : Option Fault → Bool
is_run_local (some run_local) = true
is_run_local _ = false

module _ {Handle : Type 0} (p : Platform Handle) where
  unfoldable pub new_reconciler : Handle → ReconcileUndermoon Handle
  new_reconciler mgr = record {
    client = p.client_of mgr;
    scheme = p.scheme_of mgr;
    broker_con = new_broker_controller p.new_resty p.set_header;
    coordinator_con = new_coordinator_controller;
    storage_con = new_storage_controller;
    meta_con = new_meta_controller p.new_resty p.set_header;
  }

  abbrev watch_kind : Handle → Kind → EventHandler → Run Handle Fault (Unit {0})
  watch_kind c kind handler = call (watch c kind handler) λ h. p.on_watch h c kind handler

  -- the lower-case add of the source
  unfoldable pub add_reconciler : Handle → ReconcileUndermoon Handle → Run Handle Fault (Unit {0})
  add_reconciler mgr r = do
    c ←
        call (new_controller "undermoon-controller" mgr r)
          λ h. p.on_new_controller h "undermoon-controller" mgr r
    watch_kind c undermoon enqueue_request_for_object
    watch_kind c stateful_set (enqueue_request_for_owner undermoon true)

  unfoldable pub add : Handle → Run Handle Fault (Unit {0})
  add mgr = add_reconciler mgr (new_reconciler mgr)

  unfoldable pub add_to_manager_funcs : List (Handle → Run Handle Fault (Unit {0}))
  add_to_manager_funcs = add ∷ []

  unfoldable pub run_all :
      List (Handle → Run Handle Fault (Unit {0})) → Handle → Run Handle Fault (Unit {0})
  run_all [] mgr = pure tt
  run_all (f ∷ fs) mgr = do f mgr; run_all fs mgr

  unfoldable pub add_to_manager : Handle → Run Handle Fault (Unit {0})
  add_to_manager mgr = run_all add_to_manager_funcs mgr

  unfoldable pub serve_cr_metrics : Handle → String → Run Handle Fault (Unit {0})
  serve_cr_metrics cfg operator_ns = do
    gvks ← call get_gvks p.on_gvks
    ns ← call (get_metrics_namespaces operator_ns) λ h. p.on_metrics_namespaces h operator_ns
    call (serve_metrics cfg ns gvks metrics_host operator_metrics_port)
        λ h. p.on_serve_metrics h cfg ns gvks metrics_host operator_metrics_port

  abbrev pub service_ports : List MetricsPort
  service_ports =
      record {
        port = metrics_port;
        name = p.operator_port_name;
        protocol = "TCP";
        target_port = metrics_port;
      }
      ∷ record {
        port = operator_metrics_port;
        name = p.cr_port_name;
        protocol = "TCP";
        target_port = operator_metrics_port;
      }
      ∷ []

  -- From the call of serveCRMetrics on.
  unfoldable pub create_metrics : Handle → String → Run Handle ℕ (Unit {0})
  create_metrics cfg operator_ns = do
    logged (serve_cr_metrics cfg operator_ns)
    (service, e) ←
        ask (create_metrics_service cfg service_ports) λ h. p.on_metrics_service h cfg service_ports
    r ←
        ask (create_service_monitors cfg operator_ns (service ∷ []))
          λ h. p.on_service_monitors h cfg operator_ns (service ∷ [])
    pure tt

  unfoldable pub add_metrics : Handle → Run Handle ℕ (Unit {0})
  add_metrics cfg = do
    (operator_ns, e) ← ask get_operator_namespace p.on_operator_namespace
    if is_run_local e then pure tt else create_metrics cfg operator_ns

  -- An error is the status that the process exits with.
  unfoldable pub main : Run Handle ℕ (Unit {0})
  main = do
    namespace ← or_exit (call get_watch_namespace p.on_watch_namespace)
    cfg ← or_exit (call get_config p.on_config)
    or_exit (
        call (become_leader "undermoon-operator-lock") λ h. p.on_leader h "undermoon-operator-lock")
    mgr ← or_exit (
        call (new_manager cfg (manager_options namespace))
          λ h. p.on_new_manager h cfg (manager_options namespace))
    or_exit (call (add_to_scheme (p.scheme_of mgr)) λ h. p.on_add_to_scheme h (p.scheme_of mgr))
    or_exit (add_to_manager mgr)
    add_metrics cfg
    or_exit (call (start mgr) λ h. p.on_start h mgr)
