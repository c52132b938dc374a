-- ===== src/Tests/Refusals.antt =====
-- A broker that has free nodes.
use undermoon_operator_old.MetaController.{change_meta}
use undermoon_operator_old.MetaController.Refusals.{
  IsSettled, change_meta-free_nodes, remove_request,
}
use undermoon_operator_old.MetaController.Scaling.{remove_call, scale_call}
use undermoon_operator_old.Tests.Samples.{cluster, fresh, info, steady}
use undermoon_operator_old.World.{Env, HttpResponse, Method, post}
use undermoon_operator_old.Common.{[], inl, refl, some, ℕ, ◌↔◌, ◌∷◌, ◌≡◌, ◌≢◌}
use undermoon_operator_old.Go.{err, ok, retry_reconciliation}

-- It refuses to scale and removes the nodes when it is asked to.
abbrev crowded : Env
crowded = record steady {
  on_http = λ h r. ok (record { status_code = status r.method; body = "" });
  result_error = λ res. some "FREE_NODE_FOUND";
}
  where
    status : Method → ℕ
    status post = 409
    status _ = 200

change_meta-free_nodes_example :
    ((change_meta crowded "b" cluster info fresh).1.calls
      ≡ remove_call crowded "b" cluster ∷ scale_call crowded "b" cluster ∷ [])
    × ((change_meta crowded "b" cluster info fresh).0 ≢ ok tt)
    × (((change_meta crowded "b" cluster info fresh).0 ≡ err retry_reconciliation) ↔ (
        (res : HttpResponse) × (crowded.on_http
            (scale_call crowded "b" cluster ∷ [])
            (remove_request crowded "b" cluster fresh)
          ≡ ok res)
        × IsSettled crowded "b" cluster fresh res))
change_meta-free_nodes_example =
    change_meta-free_nodes crowded "b" cluster fresh info refl (_, refl, inl refl, refl)
