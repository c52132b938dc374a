-- ===== src/Effort.antt =====
-- How many calls a run of Reconcile makes at most: the loops end, and each works on a list that
-- came back in a call before it.
pub mod Creation
pub mod Brokers
pub mod Meta
pub mod Pass
use undermoon_operator_old.Common.{[], arith, length, List, refl, String, ℕ, ◌≡◌, ◌≤◌}
use undermoon_operator_old.Exec.{pure, throw}
use undermoon_operator_old.Exec.Costs.{
  Any, Costs, Costs-attempt, Costs-bind, Costs-if, Costs-perform, Costs-pure, Costs-throw,
}
use undermoon_operator_old.Go.{err, GoError, is_not_found, ok, Result}
use undermoon_operator_old.Kube.{EndpointAddress, Endpoints, NamespacedName, Service, Undermoon}
use undermoon_operator_old.StorageController.{get_service_endpoints_num, storage_all_ready}
use undermoon_operator_old.Utils.{addresses_of_subsets, endpoints_or_none, get_endpoints}
use undermoon_operator_old.World.{Env, History, HttpResponse}

abbrev pub IsShort : ℕ → {A : Type 0} → List A → Type 0
IsShort n l = length l ≤ n

-- No service has more than `pods` addresses, and no broker lists more than `proxies` proxies.
pub record IsBounded (env : Env) (pods proxies : ℕ) : Type 0 where
  pub endpoints :
      (h : History) (key : NamespacedName) (e : Endpoints)
      → env.on_get_endpoints h key ≡ ok e
      → length (addresses_of_subsets e.subsets) ≤ pods
  pub listed : (res : HttpResponse) → length (env.result_addresses res) ≤ proxies

endpoints_or_none-Costs :
    (env : Env) (n pods : ℕ) (r : Result GoError (List EndpointAddress))
    → ((l : List EndpointAddress) → r ≡ ok l → IsShort pods l)
    → Costs n (endpoints_or_none env r) (IsShort pods)
unfolding endpoints_or_none
endpoints_or_none-Costs env n pods (ok l) h = Costs-pure l (h l refl)
endpoints_or_none-Costs env n pods (err e) h =
    Costs-if (is_not_found e) (pure []) (throw e) (Costs-pure [] (omega arith)) (Costs-throw e)

module _ (env : Env) {pods proxies : ℕ} (bounded : IsBounded env pods proxies) where
  pub get_endpoints-Costs :
      {n : ℕ} (name namespace : String)
      → 1 ≤ n
      → Costs n (get_endpoints env name namespace) (IsShort pods)
  unfolding get_endpoints
  get_endpoints-Costs {n} name namespace l =
      Costs-bind 1 0 _ _
        (Costs-attempt _ (
          Costs-bind 1 0 _ _ (Costs-perform _ _ (omega arith))
            (λ e (h, p). Costs-pure _ (bounded.endpoints h _ e p)) (omega arith)))
        (λ r q. endpoints_or_none-Costs env 0 pods r q) (omega (arith, l))

  pub get_service_endpoints_num-Costs :
      {n : ℕ} (service : Service) → 1 ≤ n → Costs n (get_service_endpoints_num env service) Any
  unfolding get_service_endpoints_num
  get_service_endpoints_num-Costs service l =
      Costs-bind 1 0 _ _ (get_endpoints-Costs _ _ (omega arith)) (λ e h. Costs-pure _ tt)
        (omega (arith, l))

  pub storage_all_ready-Costs :
      {n : ℕ} (service : Service) (cr : Undermoon)
      → 1 ≤ n
      → Costs n (storage_all_ready env service cr) Any
  unfolding storage_all_ready
  storage_all_ready-Costs service cr l =
      Costs-bind 1 0 _ _ (get_service_endpoints_num-Costs service (omega arith))
        (λ e h. Costs-pure _ tt) (omega (arith, l))
