-- ===== src/Tests/Startup.antt =====
-- The start of the process.

use undermoon_operator_old.Common.{[], All, false, none, refl, some, ◌∷◌, ◌≡◌, ◌⊎◌}
use undermoon_operator_old.Go.{err, ok}
use undermoon_operator_old.Go.Split.{has_comma, join_commas, split_commas}
use undermoon_operator_old.Startup.{
  add, add_metrics, add_reconciler, add_to_manager, add_to_manager_funcs, create_metrics, fault,
  main, manager_options, monitor_not_present, Platform, run_all, serve_cr_metrics, ◌>>=◌,
}
use undermoon_operator_old.Startup.Metrics.{watched, watched-manager_options}
use undermoon_operator_old.Startup.Outcome.{Exits, IsReady, main-Outcome, ready_steps, Starts}

-- Everything goes well but the metrics.
abbrev platform : Platform (Unit {0})
platform = record {
  on_watch_namespace = λ h. ok "a,b";
  on_config = λ h. ok tt;
  on_leader = λ h name. ok tt;
  on_new_manager = λ h cfg options. ok tt;
  on_add_to_scheme = λ h scheme. ok tt;
  on_new_controller = λ h name mgr r. ok tt;
  on_watch = λ h c kind handler. ok tt;
  on_operator_namespace = λ h. ("ns", none);
  on_gvks = λ h. err (fault "no kinds");
  on_metrics_namespaces = λ h ns. ok (ns ∷ []);
  on_serve_metrics = λ h cfg ns gvks host port. ok tt;
  on_metrics_service = λ h cfg ports. (none, some (fault "no service"));
  on_service_monitors = λ h cfg ns services. err monitor_not_present;
  on_start = λ h mgr. ok tt;
  client_of = λ mgr. mgr;
  scheme_of = λ mgr. mgr;
  new_resty = tt;
  set_header = λ client key value. client;
  operator_port_name = "http-metrics";
  cr_port_name = "cr-metrics";
}

main-Outcome_example :
    Exits platform (main platform [])
    ⊎ ((r : IsReady platform) × Starts platform r.manager
          (main platform [])
          (ready_steps platform r))
main-Outcome_example = main-Outcome platform

watched-manager_options_example :
    (join_commas (watched (manager_options "a,b")) ≡ "a,b")
    × All (λ n. has_comma n ≡ false) (watched (manager_options "a,b"))
watched-manager_options_example = watched-manager_options "a,b"

started : (main platform []).0 ≡ ok tt
unfolding main add_to_manager run_all add_to_manager_funcs add add_reconciler add_metrics
    create_metrics serve_cr_metrics manager_options has_comma split_commas ◌>>=◌
started = refl
