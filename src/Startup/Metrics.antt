-- ===== src/Startup/Metrics.antt =====
-- What the start-up does about metrics and namespaces.
use mathlib.Core.List.{append_assoc}
use undermoon_operator_old.Common.{
  [], All, All-append, ap, Bool, Bool-cases, false, inl, inr, List, none, refl, some, String, sym,
  true, ◌++◌, ◌∙◌, ◌∷◌, ◌≡◌,
}
use undermoon_operator_old.Go.{ok, Result-cases}
use undermoon_operator_old.Go.Split.{
  has_comma, IsPlain, join_commas, join_commas-split_commas, split_commas-IsPlain,
}
use undermoon_operator_old.Startup.{
  add_metrics, create_metrics, create_metrics_service, create_service_monitors, get_gvks,
  get_metrics_namespaces, get_operator_namespace, is_run_local, manager_options, ManagerOptions,
  metrics_host, operator_metrics_port, Platform, serve_cr_metrics, serve_metrics, service_ports,
  Step, Steps, ◌>>=◌,
}

-- The namespaces that a manager of these options looks at; the empty one stands for all.
abbrev pub watched : ManagerOptions → List String
watched options = elim options.new_cache [ none ↦ options.namespace ∷ [] | some l ↦ l ]

one-IsPlain : (ns : String) → has_comma ns ≡ false → All IsPlain (ns ∷ [])
one-IsPlain ns h = (h, tt)

-- The namespaces of the manager, put together with commas, are the text of the environment, and
-- none of them has a comma.
pub watched-manager_options :
    (ns : String)
    → (join_commas (watched (manager_options ns)) ≡ ns)
      × All (λ n. has_comma n ≡ false) (watched (manager_options ns))
unfolding manager_options join_commas
watched-manager_options ns = elim (Bool-cases (has_comma ns)) [
  | inl several ↦ rw several (join_commas-split_commas ns, split_commas-IsPlain ns)
  | inr single ↦ rw single (refl, one-IsPlain ns single)
]

-- A call that is about metrics.
abbrev pub is_metrics : {Handle : Type 0} → Step Handle → Bool
is_metrics get_operator_namespace = true
is_metrics get_gvks = true
is_metrics (get_metrics_namespaces ns) = true
is_metrics (serve_metrics cfg ns gvks host port) = true
is_metrics (create_metrics_service cfg ports) = true
is_metrics (create_service_monitors cfg ns services) = true
is_metrics _ = false

module _ {Handle : Type 0} (p : Platform Handle) (cfg : Handle) where
  -- A part adds calls to the steps, all of them about metrics.
  abbrev OnlyMetrics : Steps Handle → Steps Handle → Type 0
  OnlyMetrics h t = (l : Steps Handle) × (t ≡ l ++ h) × All (λ x. is_metrics x ≡ true) l

  serve_cr_metrics-OnlyMetrics :
      (ns : String) (h : Steps Handle) → OnlyMetrics h (serve_cr_metrics p cfg ns h).1
  unfolding serve_cr_metrics ◌>>=◌
  serve_cr_metrics-OnlyMetrics ns h = elim (Result-cases (p.on_gvks h)) [
    | inr (x, e) ↦ (get_gvks ∷ [], rw e refl, (refl, tt))
    | inl (gvks, e) ↦ elim (Result-cases (p.on_metrics_namespaces (get_gvks ∷ h) ns)) [
      | inr (x, e') ↦
          (get_metrics_namespaces ns ∷ get_gvks ∷ [], rw (e, e') refl, (refl, (refl, tt)))
      | inl (l, e') ↦ (
        serve_metrics cfg l gvks metrics_host operator_metrics_port
            ∷ get_metrics_namespaces ns
            ∷ get_gvks
            ∷ [],
        rw (e, e') refl,
        (refl, (refl, (refl, tt))),
      )
    ]
  ]

  create_metrics-OnlyMetrics :
      (ns : String) (h : Steps Handle) → OnlyMetrics h (create_metrics p cfg ns h).1
  unfolding create_metrics ◌>>=◌
  create_metrics-OnlyMetrics ns h =
      let (l, e, a) = serve_cr_metrics-OnlyMetrics ns h in
      let service =
        (p.on_metrics_service (serve_cr_metrics p cfg ns h).1 cfg (service_ports p)).0 in
      (
        create_service_monitors cfg ns (service ∷ [])
            ∷ create_metrics_service cfg (service_ports p)
            ∷ l,
        ap
            (λ t.
              create_service_monitors cfg ns (service ∷ [])
              ∷ create_metrics_service cfg (service_ports p)
              ∷ t)
            e,
        (refl, (refl, a)),
      )

  -- addMetrics never fails, and calls nothing but the functions about metrics.
  pub add_metrics-OnlyMetrics :
      (h : Steps Handle) → ((add_metrics p cfg h).0 ≡ ok tt) × OnlyMetrics h (add_metrics p cfg h).1
  unfolding add_metrics create_metrics ◌>>=◌
  add_metrics-OnlyMetrics h = elim (Bool-cases (is_run_local (p.on_operator_namespace h).1)) [
    | inl local ↦ rw local (refl, (get_operator_namespace ∷ [], refl, (refl, tt)))
    | inr cluster ↦
        let (l, e, a) =
          create_metrics-OnlyMetrics (p.on_operator_namespace h).0 (get_operator_namespace ∷ h) in
        rw cluster (
          refl,
          (
            l ++ get_operator_namespace ∷ [],
            e ∙ sym (append_assoc l (get_operator_namespace ∷ []) h),
            All-append _ l (get_operator_namespace ∷ []) a (refl, tt),
          ),
        )
  ]
