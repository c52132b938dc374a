-- ===== src/Tests/Progress.antt =====
-- Sample environments in which everything is up.
use Prim.Native.Char.{code}
use text.Mathlib.TextLemmas.{cons-append, nil-append}
use undermoon_operator_old.BrokerClient.{epoch_url}
use undermoon_operator_old.BrokerClient.Effects.{config, config_at}
use undermoon_operator_old.BrokerController.{get_current_master}
use undermoon_operator_old.Common.{
  [], ap, contains, eq_iff, eqb, false, if◌then◌else◌, refl, some, String, true, ℕ, ◌<>◌, ◌==◌, ◌∙◌,
  ◌∷◌, ◌≡◌, ◌≢◌,
}
use undermoon_operator_old.Common.Int.{pos, ℤ}
use undermoon_operator_old.Go.{ok}
use undermoon_operator_old.Go.Int32.{mul2_int32}
use undermoon_operator_old.Go.ParseInt.{parse_int, value}
use undermoon_operator_old.Names.Broker.{broker_service_name, broker_stateful_set_name}
use undermoon_operator_old.Names.Coordinator.{
  coordinator_service_name, coordinator_stateful_set_name,
}
use undermoon_operator_old.Names.Laws.{Distinct}
use undermoon_operator_old.Names.Storage.{storage_service_name, storage_stateful_set_name}
use undermoon_operator_old.Progress.{IsUp}
use undermoon_operator_old.Progress.Pass.{reconcile-up}
use undermoon_operator_old.Progress.Runs.{hostnames, runs, runs-get_current_master}
use undermoon_operator_old.Progress.Stability.{broker_addresses}
use undermoon_operator_old.Reconciler.{done, reconcile}
use undermoon_operator_old.Reconciler.Sticky.{KeepsConfig}
use undermoon_operator_old.Resources.Broker.{create_broker_service, create_broker_stateful_set}
use undermoon_operator_old.Resources.Coordinator.{
  create_coordinator_service, create_coordinator_stateful_set,
}
use undermoon_operator_old.Resources.Storage.{create_storage_service, create_storage_stateful_set}
use undermoon_operator_old.StorageController.{is_stable, needs_scale_out, replica_num}
use undermoon_operator_old.Tests.Samples.{
  cluster, fresh, info, pod, request, service_of, stateful_set_of, steady,
}
use undermoon_operator_old.Tests.Sticky.{decode, decode-encode, encode}
use undermoon_operator_old.Utils.{addresses_of_subsets}
use undermoon_operator_old.World.{empty, Env, get, History, HttpRequest}

-- Brokers with these bodies, of which those for an epoch can be read.
abbrev serving : (History → HttpRequest → String) → Env
serving body = record steady {
  on_http = λ h r. ok (record { status_code = 200; body = body h r });
  result_config = λ res. some (decode res.body);
}

abbrev HasEpochs : (History → HttpRequest → String) → Type 0
HasEpochs body =
    (h : History) (a : String)
    → (epoch : ℤ) × (parse_int
          (body h (record { method = get; url = epoch_url a; payload = empty }))
        ≡ value epoch)

serving-IsUp :
    (body : History → HttpRequest → String) → HasEpochs body → IsUp (serving body) request cluster
unfolding create_broker_service create_broker_stateful_set create_coordinator_service
    create_coordinator_stateful_set create_storage_service create_storage_stateful_set
    addresses_of_subsets parse_int broker_service_name coordinator_service_name storage_service_name
    replica_num broker_stateful_set_name coordinator_stateful_set_name storage_stateful_set_name
    needs_scale_out mul2_int32 is_stable
serving-IsUp body readable = record {
  found = λ h. refl;
  stores = λ h x. refl;
  broker_service = record {
    referred = create_broker_service cluster;
    service = service_of "um-bk-svc";
    endpoints = record {
      subsets = (pod "um-bk-ss-0" ∷ pod "um-bk-ss-1" ∷ pod "um-bk-ss-2" ∷ []) ∷ [];
    };
    refers = refl;
    exists = λ h. refl;
    serves = λ h. refl;
    enough = refl;
  };
  coordinator_service = record {
    referred = create_coordinator_service cluster;
    service = service_of "um-cd-svc";
    endpoints = record { subsets = (pod "um-cd-ss-0" ∷ []) ∷ [] };
    refers = refl;
    exists = λ h. refl;
    serves = λ h. refl;
    enough = refl;
  };
  storage_service = record {
    referred = create_storage_service cluster;
    service = service_of "um-stg-svc";
    endpoints = record { subsets = (pod "um-stg-ss-0" ∷ pod "um-stg-ss-1" ∷ []) ∷ [] };
    refers = refl;
    exists = λ h. refl;
    serves = λ h. refl;
    enough = refl;
  };
  broker_set = record {
    referred = create_broker_stateful_set cluster;
    ss = stateful_set_of "um-bk-ss" (pos 3);
    refers = refl;
    exists = λ h. refl;
    fit = refl;
  };
  coordinator_set = record {
    referred = create_coordinator_stateful_set cluster;
    ss = stateful_set_of "um-cd-ss" (pos 3);
    refers = refl;
    exists = λ h. refl;
    fit = refl;
  };
  storage_set = record {
    referred = create_storage_stateful_set cluster;
    ss = stateful_set_of "um-stg-ss" (pos 2);
    refers = refl;
    exists = λ h. refl;
    fit = record { large = refl; stable = refl };
  };
  updates = λ h ss. (ss, refl);
  answer = λ h r. record { status_code = 200; body = body h r };
  answers = λ h r. refl;
  fine = λ h r. refl;
  epochs = readable;
  names = λ res. ("c" ∷ [], refl);
  info = info;
  informs = λ res. refl;
  settled = refl;
  slots = refl;
  commands = λ h address command. ("OK", refl);
}

-- The code of the last character, or `d`.
last : ℕ → String → ℕ
last d String.[] = d
last d (String.◌∷◌ c s) = last (code c) s

last-append : (s t : String) (d : ℕ) → last d (s <> t) ≡ last (last d s) t
unfolding last
last-append String.[] t d = ap (last d) (nil-append t)
last-append (String.◌∷◌ c s) t d = ap (last d) (cons-append c s t) ∙ last-append s t (code c)

last_of_url :
    (a path : String) → last 0 ("http://" <> (a <> path)) ≡ last (last (last 0 "http://") a) path
last_of_url a path = last-append "http://" (a <> path) 0 ∙ last-append a path (last 0 "http://")

-- A configuration for the URLs that end like the one of a configuration.
abbrev body_of : History → HttpRequest → String
body_of h r = if eqb (last 0 r.url) b'g' then encode (config_at h r.url) else "7"

abbrev world : Env
world = serving body_of

readable : HasEpochs body_of
unfolding last parse_int
readable h a = (pos 7, rw (last_of_url a "/api/v2/epoch") refl)

world-KeepsConfig : KeepsConfig world
unfolding last
world-KeepsConfig = record {
  answer = λ h a. record { status_code = 200; body = encode (config h a) };
  answered = λ h a. rw (last_of_url a "/api/v2/config") refl;
  fine = λ h a. refl;
  held = λ h a. ap some (decode-encode (config h a));
}

world-IsUp : IsUp world request cluster
world-IsUp = serving-IsUp body_of readable

reconcile-up_example : (reconcile world request fresh).0 ≡ done
reconcile-up_example = reconcile-up world request cluster world-IsUp fresh

differ : (s t : String) → (s == t) ≡ false → s ≢ t
differ s t n p = let y : (s == t) ≡ true = (eq_iff s t).1 p in cc

distinct : Distinct (hostnames world request cluster world-IsUp)
unfolding addresses_of_subsets world-IsUp serving-IsUp
distinct = ((differ _ _ refl, (differ _ _ refl, tt)), ((differ _ _ refl, tt), (tt, tt)))

runs-get_current_master_example :
    let addresses = broker_addresses world request cluster world-IsUp in
    (m : String) × (contains m addresses ≡ true)
    × ((get_current_master world addresses (runs world request cluster world-IsUp 1 fresh)).0
        ≡ ok m)
    × ((get_current_master world addresses (runs world request cluster world-IsUp 3 fresh)).0
        ≡ ok m)
runs-get_current_master_example =
    runs-get_current_master world request cluster world-IsUp world-KeepsConfig distinct 0 2 fresh
