-- ===== src/Tests/Sticky.antt =====
-- The master broker stays.
use Prim.Native.Char.{code}
use undermoon_operator_old.BrokerClient.Effects.{config, config_at}
use undermoon_operator_old.BrokerController.{get_current_master, replicas_of}
use undermoon_operator_old.Common.{
  [], ap, eq_iff, eqb, false, if◌then◌else◌, List, refl, some, String, true, ◌∙◌, ◌∷◌, ◌≡◌, ◌≢◌,
}
use undermoon_operator_old.Common.Int.{pos}
use undermoon_operator_old.Go.{ok}
use undermoon_operator_old.Go.Split.{on_first}
use undermoon_operator_old.Names.Laws.{Distinct}
use undermoon_operator_old.Reconciler.{scale_cluster, UmResource}
use undermoon_operator_old.Reconciler.Sticky.{KeepsConfig, scale_cluster-get_current_master}
use undermoon_operator_old.Tests.Samples.{cluster, fresh, service_of, stateful_set_of, steady}
use undermoon_operator_old.World.{Env}

-- A list of texts as one text: an `x` before each character, and a `y` behind each text.
encode_text : String → String → String
encode_text String.[] rest = String.◌∷◌ "y" rest
encode_text (String.◌∷◌ c s) rest = String.◌∷◌ "x" (String.◌∷◌ c (encode_text s rest))

pub encode : List String → String
encode [] = ""
encode (s ∷ l) = encode_text s (encode l)

pub decode : String → List String
decode String.[] = []
decode (String.◌∷◌ m String.[]) = if eqb (code m) b'y' then "" ∷ [] else []
decode (String.◌∷◌ m (String.◌∷◌ c s)) =
    let next = decode (String.◌∷◌ c s) in
    let rest = decode s in if eqb (code m) b'y' then "" ∷ next else on_first c rest

decode-end : (rest : String) → decode (String.◌∷◌ "y" rest) ≡ "" ∷ decode rest
unfolding decode
decode-end String.[] = refl
decode-end (String.◌∷◌ c s) = refl

decode-encode_text : (s rest : String) → decode (encode_text s rest) ≡ s ∷ decode rest
unfolding encode_text decode
decode-encode_text String.[] rest = decode-end rest
decode-encode_text (String.◌∷◌ c s) rest = ap (on_first c) (decode-encode_text s rest)

pub decode-encode : (l : List String) → decode (encode l) ≡ l
unfolding encode decode
decode-encode [] = refl
decode-encode (s ∷ l) = decode-encode_text s (encode l) ∙ ap (λ t. s ∷ t) (decode-encode l)

-- Each broker keeps its configuration, and the rest is as in the steady state.
abbrev keeping : Env
keeping = record steady {
  on_http = λ h r. ok (record { status_code = 200; body = encode (config_at h r.url) });
  result_config = λ res. some (decode res.body);
}

keeping-KeepsConfig : KeepsConfig keeping
keeping-KeepsConfig = record {
  answer = λ h a. record { status_code = 200; body = encode (config h a) };
  answered = λ h a. refl;
  fine = λ h a. refl;
  held = λ h a. ap some (decode-encode (config h a));
}

abbrev resource : UmResource
resource = record {
  broker_stateful_set = stateful_set_of "um-bk-ss" (pos 3);
  coordinator_stateful_set = stateful_set_of "um-cd-ss" (pos 3);
  storage_stateful_set = stateful_set_of "um-stg-ss" (pos 2);
  broker_service = service_of "um-bk-svc";
  coordinator_service = service_of "um-cd-svc";
  storage_service = service_of "um-stg-svc";
}

abbrev addresses : List String
addresses = "b" ∷ "r" ∷ []

distinct : Distinct addresses
distinct = ((different, tt), (tt, tt))
  where
    b : String
    b = "b"

    r : String
    r = "r"

    different : b ≢ r
    different h = let same : false ≡ true = (eq_iff b r).1 h in cc

goes_through :
    (scale_cluster keeping resource cluster "b" (replicas_of "b" addresses) fresh).0 ≡ ok tt
unfolding undermoon_operator_old.BrokerController.replicas_of
    undermoon_operator_old.BrokerClient.bad_content undermoon_operator_old.BrokerClient.has_error
    undermoon_operator_old.BrokerClient.new_server_proxy_meta
    undermoon_operator_old.BrokerClient.addresses_of undermoon_operator_old.BrokerClient.names_have
    undermoon_operator_old.BrokerClient.exists_in undermoon_operator_old.BrokerClient.info_of
    undermoon_operator_old.BrokerClient.no_info
    undermoon_operator_old.BrokerClient.get_replica_addresses
    undermoon_operator_old.BrokerClient.store_replica_addresses
    undermoon_operator_old.BrokerClient.get_server_proxies
    undermoon_operator_old.BrokerClient.set_broker_replicas
    undermoon_operator_old.BrokerClient.register_server_proxy
    undermoon_operator_old.BrokerClient.deregister_server_proxy
    undermoon_operator_old.BrokerClient.create_cluster
    undermoon_operator_old.BrokerClient.cluster_exists
    undermoon_operator_old.BrokerClient.scale_nodes
    undermoon_operator_old.BrokerClient.remove_free_nodes
    undermoon_operator_old.BrokerClient.get_cluster_info
    undermoon_operator_old.Reconciler.broker_and_coordinator_ready
    undermoon_operator_old.Reconciler.settle_cluster
    undermoon_operator_old.Reconciler.change_cluster undermoon_operator_old.Reconciler.scale_cluster
    undermoon_operator_old.MetaController.retry_if_migrating
    undermoon_operator_old.MetaController.delete_list undermoon_operator_old.MetaController.keep_set
    undermoon_operator_old.MetaController.clear_replicas
    undermoon_operator_old.MetaController.set_broker_replicas
    undermoon_operator_old.MetaController.register_server_proxies
    undermoon_operator_old.MetaController.deregister_all
    undermoon_operator_old.MetaController.deregister_server_proxies
    undermoon_operator_old.MetaController.reconcile_server_proxy_registry
    undermoon_operator_old.MetaController.create_cluster
    undermoon_operator_old.MetaController.get_cluster_info
    undermoon_operator_old.MetaController.reconcile_meta
    undermoon_operator_old.MetaController.remove_nodes
    undermoon_operator_old.MetaController.after_scale
    undermoon_operator_old.MetaController.change_node_number
    undermoon_operator_old.MetaController.change_meta
    undermoon_operator_old.StorageController.replica_num
    undermoon_operator_old.StorageController.server_proxy_of
    undermoon_operator_old.StorageController.max_ℤ undermoon_operator_old.StorageController.updated
    undermoon_operator_old.StorageController.is_stable
    undermoon_operator_old.StorageController.update_storage_stateful_set
    undermoon_operator_old.StorageController.scale_down_storage_stateful_set
    undermoon_operator_old.StorageController.get_service_endpoints_num
    undermoon_operator_old.StorageController.storage_ready
    undermoon_operator_old.StorageController.storage_all_ready
    undermoon_operator_old.StorageController.get_server_proxies
    undermoon_operator_old.Utils.addresses_of_subsets undermoon_operator_old.Utils.endpoints_or_none
    undermoon_operator_old.Utils.get_endpoints undermoon_operator_old.Exec.pure
    undermoon_operator_old.Exec.throw undermoon_operator_old.Exec.attempt
    undermoon_operator_old.Exec.from_result undermoon_operator_old.Exec.map_error
    undermoon_operator_old.Exec.of_remote undermoon_operator_old.Exec.perform
    undermoon_operator_old.Exec.◌>>=◌ undermoon_operator_old.Go.ParseInt.scan
    undermoon_operator_old.Go.ParseInt.magnitude undermoon_operator_old.Go.ParseInt.parse_int
    undermoon_operator_old.Go.ParseInt.behind_dash
    undermoon_operator_old.Go.ParseInt.after_last_dash undermoon_operator_old.Go.Int32.int32
    undermoon_operator_old.Go.Int32.mul2_int32 undermoon_operator_old.Go.Int32.pred_int32
    undermoon_operator_old.Go.Format.digit undermoon_operator_old.Go.Format.digits
    undermoon_operator_old.Go.Format.format_nat
    undermoon_operator_old.Names.Storage.storage_service_name
    undermoon_operator_old.Names.Storage.storage_public_service_name
    undermoon_operator_old.Names.Storage.storage_stateful_set_name
    undermoon_operator_old.Names.Storage.storage_names_from
    undermoon_operator_old.Names.Storage.gen_storage_names
    undermoon_operator_old.Names.Storage.gen_storage_fqdn
    undermoon_operator_old.Names.Storage.gen_storage_fqdn_from_name
    undermoon_operator_old.Names.Storage.gen_storage_address_from_name
    undermoon_operator_old.Names.Storage.gen_storage_stateful_set_addrs
    undermoon_operator_old.Names.Storage.storage_pod_name
    undermoon_operator_old.StorageController.storage_all_ready_and_stable
goes_through = refl

scale_cluster-get_current_master_example :
    (get_current_master keeping addresses
      (scale_cluster keeping resource cluster "b" (replicas_of "b" addresses) fresh).1).0
    ≡ ok "b"
unfolding replicas_of
scale_cluster-get_current_master_example =
    scale_cluster-get_current_master keeping resource cluster "b" addresses fresh
      keeping-KeepsConfig distinct refl refl goes_through
