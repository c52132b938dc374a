-- ===== src/StorageController/Epochs.antt =====
-- The highest epoch that getMaxEpoch of storage_controller.go finds.
use mathlib.Core.Path.{subst⁻¹}
use undermoon_operator_old.Clients.{get_proxy_epoch}
use undermoon_operator_old.Common.{
  [], ap, arith, Bool, Bool-cases, contains, false, if◌then◌else◌, inl, inr, List, refl, String,
  sym, true, ◌∙◌, ◌∷◌, ◌≡◌, ◌⊎◌,
}
use undermoon_operator_old.Common.Int.{ltb_ℤ, pos, ℤ, ◌≤ℤ◌}
use undermoon_operator_old.Exec.{attempt, Exec, State, ◌>>=◌}
use undermoon_operator_old.Exec.Quiet.{bind-ok}
use undermoon_operator_old.Go.{err, GoError, ok, Result}
use undermoon_operator_old.Kube.{EndpointAddress, Service, Undermoon}
use undermoon_operator_old.Names.Storage.{
  gen_storage_address_from_name, gen_storage_stateful_set_addrs,
}
use undermoon_operator_old.StorageController.{epoch_or_zero, get_max_epoch, max_epoch_of, max_ℤ}
use undermoon_operator_old.Utils.{get_endpoints}
use undermoon_operator_old.World.{Env}

-- An answer is below `max`, and one that gave no epoch counts as 0.
abbrev pub IsCeiling : ℤ → List (Result GoError ℤ) → Type 0
IsCeiling max [] = Unit
IsCeiling max (r ∷ rs) = (epoch_or_zero r ≤ℤ max) × IsCeiling max rs

-- One of the answers is the epoch `max`.
abbrev pub IsAmong : ℤ → List (Result GoError ℤ) → Type 0
IsAmong max [] = ⊥
IsAmong max (r ∷ rs) = (r ≡ ok max) ⊎ IsAmong max rs

max_ℤ_left : (a b : ℤ) → a ≤ℤ max_ℤ a b
unfolding max_ℤ
max_ℤ_left a b = ground arith

max_ℤ_right : (a b : ℤ) → b ≤ℤ max_ℤ a b
unfolding max_ℤ
max_ℤ_right a b = ground arith

-- From `max`, the result is at least that and each answer, and one of these.
pub record Found (max : ℤ) (result : Result GoError ℤ) (rs : List (Result GoError ℤ)) : Type 0 where
  pub top : ℤ
  pub returned : result ≡ ok top
  pub above : max ≤ℤ top
  pub ceiling : IsCeiling top rs
  pub source : (top ≡ max) ⊎ IsAmong top rs

le_trans : (a b c : ℤ) → a ≤ℤ b → b ≤ℤ c → a ≤ℤ c
le_trans a b c h k = omega (arith, h, k)

max_ℤ_cases :
    (a : ℤ) (r : Result GoError ℤ)
    → pos 0 ≤ℤ a
    → (max_ℤ a (epoch_or_zero r) ≡ a) ⊎ (r ≡ ok (max_ℤ a (epoch_or_zero r)))
unfolding max_ℤ epoch_or_zero
max_ℤ_cases a (err e) h = inl (ground (arith, h))
max_ℤ_cases a (ok epoch) h = elim (Bool-cases (ltb_ℤ a epoch)) [
  | inl less ↦ inr (rw less refl)
  | inr not_less ↦ inl (rw not_less refl)
]

Found-cons :
    (max : ℤ) (r : Result GoError ℤ) (result : Result GoError ℤ) (rs : List (Result GoError ℤ))
    → pos 0 ≤ℤ max
    → Found (max_ℤ max (epoch_or_zero r)) result rs
    → Found max result (r ∷ rs)
Found-cons max r result rs h f = record {
  top = f.top;
  returned = f.returned;
  above = le_trans max (max_ℤ max z) f.top (max_ℤ_left max z) f.above;
  ceiling = (le_trans z (max_ℤ max z) f.top (max_ℤ_right max z) f.above, f.ceiling);
  source = elim f.source [
    | inl p ↦ elim (max_ℤ_cases max r h) [
      | inl q ↦ inl (p ∙ q)
      | inr q ↦ inr (inl (q ∙ ap ok (sym p)))
    ]
    | inr x ↦ inr (inr x)
  ];
}
  where
    z : ℤ
    z = epoch_or_zero r

Found-if :
    (b : Bool) (max : ℤ) (m n : Exec GoError ℤ) (s : State) (rs ts : List (Result GoError ℤ))
    → Found max (m s).0 rs
    → Found max (n s).0 ts
    → Found max ((if b then m else n) s).0 (if b then rs else ts)
Found-if true max m n s rs ts f g = f
Found-if false max m n s rs ts f g = g

module _ (env : Env) (cr : Undermoon) (sets : List String) where
  -- What the pods that stay answer, in the order in which they are asked.
  unfoldable pub proxy_answers : List EndpointAddress → State → List (Result GoError ℤ)
  proxy_answers [] s = []
  proxy_answers (e ∷ es) s =
      let (r, s') = get_proxy_epoch env (gen_storage_address_from_name e.hostname cr) s in
      let asked = r ∷ proxy_answers es s' in
      let passed = proxy_answers es s in
      if contains (gen_storage_address_from_name e.hostname cr) sets then asked else passed

  max_epoch_of-Found :
      (max : ℤ) (es : List EndpointAddress) (s : State)
      → pos 0 ≤ℤ max
      → Found max (max_epoch_of env cr sets max es s).0 (proxy_answers es s)
  unfolding max_epoch_of proxy_answers ◌>>=◌
  max_epoch_of-Found max [] s h = record {
    top = max;
    returned = refl;
    above = omega arith;
    ceiling = tt;
    source = inl refl;
  }
  max_epoch_of-Found max (e ∷ es) s h =
      let address = gen_storage_address_from_name e.hostname cr in
      let (r, s') = get_proxy_epoch env address s in
      Found-if (contains address sets) max
        (attempt (get_proxy_epoch env address) >>= λ r.
          max_epoch_of env cr sets (max_ℤ max (epoch_or_zero r)) es)
        (max_epoch_of env cr sets max es) s (r ∷ proxy_answers es s') (proxy_answers es s)
        (Found-cons max r (max_epoch_of env cr sets (max_ℤ max (epoch_or_zero r)) es s').0
          (proxy_answers es s') h
          (max_epoch_of-Found (max_ℤ max (epoch_or_zero r)) es s' (
            le_trans (pos 0) max (max_ℤ max (epoch_or_zero r)) h
              (max_ℤ_left max (epoch_or_zero r)))))
        (max_epoch_of-Found max es s h)

-- If the pods behind the service are located, getMaxEpoch returns an epoch, whatever the proxies
-- answer. It is at least 0 and at least the answer of each pod that stays, and it is 0 or one of
-- these answers.
pub get_max_epoch-Found :
    (env : Env) (service : Service) (cr : Undermoon) (s : State) (pods : List EndpointAddress)
    → (get_endpoints env service.metadata.name service.metadata.namespace s).0 ≡ ok pods
    → let s' = (get_endpoints env service.metadata.name service.metadata.namespace s).1 in
      Found
        (pos 0)
        (get_max_epoch env service cr s).0
        (proxy_answers env cr (gen_storage_stateful_set_addrs cr) pods s')
unfolding get_max_epoch
get_max_epoch-Found env service cr s pods e =
    let located = get_endpoints env service.metadata.name service.metadata.namespace in
    let s' = (located s).1 in
    let sets = gen_storage_stateful_set_addrs cr in
    subst⁻¹ (λ t. Found (pos 0) t.0 (proxy_answers env cr sets pods s'))
      (bind-ok located (max_epoch_of env cr sets (pos 0)) s s' pods e refl)
      (max_epoch_of-Found env cr sets (pos 0) pods s' (omega arith))
