-- ===== src/Trace/Reading.antt =====
-- What the operator has read just before: where the pods are, and the cluster's information.

use undermoon_operator_old.BrokerClient.{bad_content, info_of, info_url, no_info, scale_url}
use undermoon_operator_old.Common.{arith, Bool, eqb, List, none, Option, refl, some, String, ◌≡◌}
use undermoon_operator_old.Exec.{pure, State}
use undermoon_operator_old.Exec.Triples.{
  Answered, perform-Answered, Triple, Triple-bind, Triple-if, Triple-imp, Triple-throw,
}
use undermoon_operator_old.Kube.{Service, Undermoon}
use undermoon_operator_old.MetaController.{get_cluster_info, reconcile_meta}
use undermoon_operator_old.Trace.{InfoRead, IsLocated}
use undermoon_operator_old.Utils.{get_endpoints}
use undermoon_operator_old.Utils.Creation.{get_endpoints_lem}
use undermoon_operator_old.World.{
  Call, ClusterInfo, empty, Env, get, History, HttpRequest, HttpResponse, ServerProxyMeta,
}
use undermoon_operator_old.BrokerClient as Client

module _ (env : Env) where
  pub get_endpoints-IsLocated :
      (R : History → Type 0) (service : Service)
      → Triple
          (λ s. R s.calls)
          (get_endpoints env service.metadata.name service.metadata.namespace)
          (λ pods s. IsLocated env service R pods s.calls)
  get_endpoints-IsLocated R service = record {
    at = λ s p pods h. rw get_endpoints_lem (record {
      before = s.calls;
      asked = refl;
      answered = rw get_endpoints_lem at h;
      earlier = p;
    });
  }

  info_of-some :
      {R : State → Type 0} (res : HttpResponse) (o : Option ClusterInfo)
      → Triple R (info_of res o) (λ info s. R s × (o ≡ some info))
  unfolding info_of pure
  info_of-some res (some info) = record { at = λ s p a h. (p, ground (arith, h)) }
  info_of-some res none = Triple-throw _

  no_info-none :
      {R : State → Type 0} {Q : ClusterInfo → State → Type 0} (res : HttpResponse)
      (o : Option String)
      → Triple R (no_info res o) Q
  unfolding no_info
  no_info-none res (some code) = Triple-throw _
  no_info-none res none = Triple-throw _

  pub get_cluster_info-InfoRead :
      {P : State → Type 0} (master : String) (cr : Undermoon)
      → Triple P
          (get_cluster_info env master cr)
          (λ info s. InfoRead env master cr.spec.cluster_name info s.calls)
  unfolding get_cluster_info Client.get_cluster_info
  get_cluster_info-InfoRead {P} master cr = record { at = λ s p info h. read_info.at s tt info h }
    where
      request : HttpRequest
      request = record { method = get; url = info_url master cr.spec.cluster_name; payload = empty }

      known :
          (res : HttpResponse) (info : ClusterInfo) (s : State)
          → Answered (λ _. Unit {0}) (Call.http request) (λ h. env.on_http h request) res s.calls
            × (env.result_cluster_info res ≡ some info)
          → InfoRead env master cr.spec.cluster_name info s.calls
      known res info s (a, d) = record {
        before = a.before;
        response = res;
        asked = a.asked;
        answered = a.answered;
        decoded = d;
      }

      read_info :
          Triple
            (λ s. Unit {0})
            (get_cluster_info env master cr)
            (λ info s. InfoRead env master cr.spec.cluster_name info s.calls)
      read_info =
          Triple-bind _ _
            (perform-Answered (λ _. Unit {0}) (Call.http request) (λ h. env.on_http h request))
            (λ res.
              Triple-if (eqb res.status_code 200) _ _
                (λ _.
                  Triple-imp _ (info_of-some res (env.result_cluster_info res))
                    (λ info s. known res info s))
                (λ _.
                  Triple-if (eqb res.status_code 404) _ _
                    (λ _. no_info-none res (env.result_error res)) (λ _. Triple-throw _)))

  -- What reconcileMeta returns is what the broker has just said.
  pub reconcile_meta-InfoRead :
      {P : State → Type 0} (m : String) (r : List String) (l : List ServerProxyMeta)
      (cr : Undermoon) (b : Bool)
      → Triple P
          (reconcile_meta env m r l cr b)
          (λ info s. InfoRead env m cr.spec.cluster_name info s.calls)
  unfolding reconcile_meta
  reconcile_meta-InfoRead m r l cr b =
      Triple-bind _ _ {R = λ _ _. Unit {0}} (record { at = λ s p a e. tt })
        (λ _.
          Triple-bind _ _ {R = λ _ _. Unit {0}} (record { at = λ s p a e. tt })
            (λ _.
              Triple-if b _ _
                (λ _.
                  Triple-bind _ _ {R = λ _ _. Unit {0}} (record { at = λ s p a e. tt })
                    (λ _. get_cluster_info-InfoRead m cr))
                (λ _. Triple-throw _)))
