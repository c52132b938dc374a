-- ===== src/Resources/Laws.antt =====
-- Which pods the services of broker.go, coordinator.go and storage.go find.
use undermoon_operator_old.Common.{
  [], arith, Bool, eq_iff, false, refl, String, true, ◌&&◌, ◌==◌, ◌||◌, ◌↔◌, ◌∷◌, ◌≡◌,
}
use undermoon_operator_old.Kube.{Labels, Service, StatefulSet, Undermoon}
use undermoon_operator_old.Resources.Broker.{create_broker_service, create_broker_stateful_set}
use undermoon_operator_old.Resources.Coordinator.{
  create_coordinator_service, create_coordinator_stateful_set,
}
use undermoon_operator_old.Resources.Storage.{create_storage_service, create_storage_stateful_set}

pub data Component : Type 0 where
  broker coordinator storage : Component

abbrev pub service_of : Component → Undermoon → Service
service_of broker cr = create_broker_service cr
service_of coordinator cr = create_coordinator_service cr
service_of storage cr = create_storage_service cr

abbrev pub stateful_set_of : Component → Undermoon → StatefulSet
stateful_set_of broker cr = create_broker_stateful_set cr
stateful_set_of coordinator cr = create_coordinator_stateful_set cr
stateful_set_of storage cr = create_storage_stateful_set cr

-- A label is there with this value.
abbrev has_label : String → String → Labels → Bool
has_label k v [] = false
has_label k v ((l, w) ∷ labels) = (k == l && v == w) || has_label k v labels

-- A selector matches the labels that have each of its own.
abbrev has_labels : Labels → Labels → Bool
has_labels [] labels = true
has_labels ((k, v) ∷ selector) labels = has_label k v labels && has_labels selector labels

-- A service selects the pods of a StatefulSet that are in its namespace and have the labels of its
-- selector; the pods are in the namespace of the StatefulSet.
abbrev pub selects : Service → StatefulSet → Bool
selects service ss =
    service.metadata.namespace == ss.metadata.namespace
    && has_labels service.spec.selector ss.spec.template.labels

-- Two resources that are known by the same names.
abbrev pub SameNames : Undermoon → Undermoon → Type 0
SameNames cr cr' =
    (cr.metadata.namespace ≡ cr'.metadata.namespace)
    × (cr.metadata.name ≡ cr'.metadata.name)
    × (cr.spec.cluster_name ≡ cr'.spec.cluster_name)

own :
    (c : Component) (cr cr' : Undermoon)
    → (cr.metadata.namespace == cr'.metadata.namespace
          && ((cr.metadata.name == cr'.metadata.name || false)
              && ((cr.spec.cluster_name == cr'.spec.cluster_name || false) && true))
        ≡ true)
      ↔ ((c ≡ c) × SameNames cr cr')
own c cr cr' =
    let place = eq_iff cr.metadata.namespace cr'.metadata.namespace in
    let name = eq_iff cr.metadata.name cr'.metadata.name in
    let cluster = eq_iff cr.spec.cluster_name cr'.spec.cluster_name in
    (
      (λ h. (
        refl,
        (place.0 (ground (arith, h)), name.0 (ground (arith, h)), cluster.0 (ground (arith, h))),
      )),
      (λ (p, (o, q, r)). ground (arith, place.1 o, name.1 q, cluster.1 r)),
    )

other :
    (c d : Component) (cr cr' : Undermoon) (b : Bool)
    → b ≡ false
    → (c ≡ d → ⊥)
    → (cr.metadata.namespace == cr'.metadata.namespace && b ≡ true) ↔ ((c ≡ d) × SameNames cr cr')
other c d cr cr' b p n = ((λ h. absurd (ground (arith, p, h))), (λ (q, r). absurd (n q)))

-- The service of one component and resource selects the pods of another, which are those in its
-- namespace with the labels of its selector, just where the components are the same and the
-- resources have the same namespace, name and cluster name.
pub selects_iff :
    (c d : Component) (cr cr' : Undermoon)
    → (selects (service_of c cr) (stateful_set_of d cr') ≡ true) ↔ ((c ≡ d) × SameNames cr cr')
unfolding create_broker_service create_broker_stateful_set create_coordinator_service
    create_coordinator_stateful_set create_storage_service create_storage_stateful_set
selects_iff broker broker cr cr' = own broker cr cr'
selects_iff broker coordinator cr cr' = other broker coordinator cr cr' _ refl (λ h. cc)
selects_iff broker storage cr cr' = other broker storage cr cr' _ refl (λ h. cc)
selects_iff coordinator broker cr cr' = other coordinator broker cr cr' _ refl (λ h. cc)
selects_iff coordinator coordinator cr cr' = own coordinator cr cr'
selects_iff coordinator storage cr cr' = other coordinator storage cr cr' _ refl (λ h. cc)
selects_iff storage broker cr cr' = other storage broker cr cr' _ refl (λ h. cc)
selects_iff storage coordinator cr cr' = other storage coordinator cr cr' _ refl (λ h. cc)
selects_iff storage storage cr cr' = own storage cr cr'
