-- ===== src/Examples.antt =====
-- Concrete data for the examples: a library, a pattern, an Application and a cluster.
mod Operator
mod Pieces
mod Sources
mod Merging
mod Parts
mod Passes
mod Deletions
use patterns_operator.Prelude.{
  ℕ, suc, String, Bool, true, false, Option, none, some, List, [], ◌∷◌, ◌++◌, ◌≡◌, refl,
}
use patterns_operator.Errors.{Err, Class, Result, ok, err, errorf}
use patterns_operator.Api.{
  Pattern, PatternDeletionPhase, initialize_deletion, delete_spoke, pattern_finalizer,
  prune_annotation,
}
use patterns_operator.Library.{Library}
use patterns_operator.Defaults.{Env, ActiveArgo}
use patterns_operator.Files.{Files, Stat, end}
use patterns_operator.Services.{Services}
use patterns_operator.Kube.Owner.{OwnerReference, GroupVersion, owned_by_same}
use patterns_operator.Argo.{Application, ApplicationSpec}
use patterns_operator.Subscription.{Subscription}
use patterns_operator.Cluster.{
  no_response, Request, Reply, Secret, ConsoleLink, SearchResponse, ClusterVersion, pure,
}

abbrev pub an_env : Env
an_env = record {
  operator_namespace = "patterns-operator";
  namespace_file = none;
  search_api_url = "";
  search_api_token = "token";
  temp_dir = "/tmp";
}

abbrev pub vp_gitops : ActiveArgo
vp_gitops = record { namespace = "vp-gitops"; name = "vp-gitops" }

abbrev pub an_owner : OwnerReference
an_owner = record { api_version = "gitops/v1"; kind = "Pattern"; name = "hub"; uid = "1" }

-- What SetOwnerReference adds for a pattern.
abbrev pub owner_of : Pattern → OwnerReference
owner_of p = record { api_version = "gitops/v1"; kind = "Pattern"; name = p.name; uid = p.uid }

abbrev group_version : String → Option GroupVersion
group_version s = some (record { group = s; version = "v1" })

abbrev pub a_library : Library
a_library = record {
  parse_group_version = group_version;
  set_owner_reference = λ p a. a.owner_references ++ owner_of p ∷ [];
  remove_pattern_reference = λ p s. none;
  remove_config_map_reference = λ s. none;
  coalesce_tables = λ a b. a;
  to_render_values = λ t. ok t;
  render = λ s t. ok [];
  new_version = λ s. ok (record { major = "4"; minor = "18" });
  normalize_git_url = λ s. s;
  parse_request_uri = λ s. err (errorf "no URI");
  parse_url = λ s.
      ok (record {
        scheme = "https";
        host = "search:4010";
        hostname = "search";
        path = "/searchapi";
      });
}

abbrev pub some_files : Files
some_files = record { stat = λ s. Stat.missing; read_values_file = λ s. ok end }

abbrev pub a_pattern : Pattern
a_pattern = record {
  name = "hub";
  namespace = "patterns-operator";
  annotations = (prune_annotation, "true") ∷ [];
  finalizers = pattern_finalizer ∷ [];
  uid = "1";
  deletion_timestamp = some 5;
  spec = record {
    cluster_group_name = "hub";
    variant = "";
    git_config = record {
      in_cluster_git_server = none;
      target_repo = "https://example.com/hub";
      target_revision = "main";
      origin_repo = "";
      origin_revision = "";
      hostname = "";
      token_secret = "";
      token_secret_namespace = "";
    };
    multi_source_config = record {
      enabled = some false;
      helm_repo_url = "";
      cluster_group_chart_version = "";
      cluster_group_git_repo_url = "";
      cluster_group_chart_git_revision = "";
    };
    git_ops_config = some (record { manual_sync = false });
    extra_parameters =
        record { name = "global.pattern"; value = "other" }
        ∷ record { name = "mine"; value = "1" }
        ∷ [];
    extra_value_files = [];
    analytics_uuid = "";
    experimental_capabilities = "";
  };
  status = record {
    last_step = "";
    last_error = "";
    version = 0;
    cluster_name = "";
    app_cluster_domain = "";
    cluster_domain = "";
    cluster_id = "";
    cluster_platform = "AWS";
    cluster_version = "4.18";
    conditions = [];
    applications = [];
    analytics_sent = 0;
    analytics_uuid = "";
    local_checkout_path = "/tmp/vp/hub";
    deletion_phase = delete_spoke;
  };
}

abbrev pub a_spec : ApplicationSpec
a_spec = record {
  destination = record { name = "in-cluster"; namespace = "patterns-operator" };
  project = "default";
  source = none;
  sources = none;
  sync_policy = none;
}

abbrev pub an_application : Application
an_application = record {
  name = "hub-hub";
  namespace = "vp-gitops";
  labels = [];
  annotations = [];
  finalizers = [];
  owner_references = an_owner ∷ [];
  spec = a_spec;
  operation = none;
  health_status = "Healthy";
  sync_status = "Synced";
}

abbrev nothing : {A : Type 0} → Result A
nothing = err (record { class = Class.not_found; message = "not found" })

-- A cluster that knows itself and has the given Application, and answers little else. Its state counts
-- the requests.
abbrev pub cluster_with : Application → (r : Request) → ℕ → Reply r × ℕ
cluster_with app (Request.get_application n ns) w = (ok app, suc w)
cluster_with app Request.get_cluster_version w =
    (ok (record { cluster_id = "id"; history = []; desired = "4.18.1" }), suc w)
cluster_with app Request.get_infrastructure w = (ok "AWS", suc w)
cluster_with app Request.get_ingress w = (ok "apps.hub.example.com", suc w)
cluster_with app Request.read_files w = (some_files, suc w)
cluster_with app (Request.get_pattern n ns) w = (ok a_pattern, suc w)
cluster_with app (Request.update_pattern p) w = (ok p, suc w)
cluster_with app (Request.update_pattern_status p) w = (ok tt, suc w)
cluster_with app (Request.list_patterns s) w = (nothing, suc w)
cluster_with app (Request.get_config_map s t) w = (nothing, suc w)
cluster_with app (Request.get_secret s t) w = (nothing, suc w)
cluster_with app (Request.update_secret s) w = (ok s, suc w)
cluster_with app (Request.list_applications s) w = (ok [], suc w)
cluster_with app (Request.get_subscription s t) w = (nothing, suc w)
cluster_with app (Request.get_console_link s) w = (nothing, suc w)
cluster_with app Request.get_multi_cluster_hub w = (nothing, suc w)
cluster_with app Request.list_managed_clusters w = (ok [], suc w)
cluster_with app (Request.search_applications s) w =
    (ok (record { status_code = 200; results = ok [] }), suc w)
cluster_with app Request.server_groups w = (ok [], suc w)
cluster_with app (Request.get_route s t) w = (nothing, suc w)
cluster_with app Request.read_token w = (ok "token", suc w)
cluster_with app (Request.create_config_map s t m) w = (ok tt, suc w)
cluster_with app (Request.get_namespace s) w = (ok tt, suc w)
cluster_with app (Request.create_namespace s) w = (ok tt, suc w)
cluster_with app (Request.create_secret s) w = (ok tt, suc w)
cluster_with app (Request.delete_application s t) w = (ok tt, suc w)
cluster_with app (Request.create_application s t) w = (ok tt, suc w)
cluster_with app (Request.update_application s t) w = (ok tt, suc w)
cluster_with app (Request.create_subscription s) w = (ok tt, suc w)
cluster_with app (Request.update_subscription s) w = (ok tt, suc w)
cluster_with app (Request.get_operator_group s) w = (nothing, suc w)
cluster_with app (Request.create_operator_group s) w = (ok tt, suc w)
cluster_with app (Request.get_argo_cd s t) w = (nothing, suc w)
cluster_with app (Request.delete_console_link s) w = (ok tt, suc w)
cluster_with app (Request.create_console_link s) w = (ok tt, suc w)
cluster_with app (Request.update_console_link s) w = (ok tt, suc w)
cluster_with app (Request.delete_managed_cluster s) w = (ok tt, suc w)
cluster_with app Request.remove_local_git_paths w = (ok tt, suc w)
cluster_with app (Request.create_argo_cd s a) w = (ok tt, suc w)
cluster_with app (Request.update_argo_cd s a) w = (ok tt, suc w)
cluster_with app (Request.get_object k s t) w = (nothing, suc w)
cluster_with app (Request.create_object k s t o) w = (ok tt, suc w)
cluster_with app (Request.update_object k s t o) w = (ok tt, suc w)
cluster_with app (Request.open_file s a) w = (ok tt, suc w)
cluster_with app (Request.write_string s t) w = (ok tt, suc w)
cluster_with app (Request.new_gitea_client l) w = (ok tt, suc w)
cluster_with app (Request.get_gitea_repo l s t) w = (no_response, suc w)
cluster_with app (Request.migrate_gitea_repo l m) w = (nothing, suc w)
cluster_with app Request.watch_argo_cds w = (ok tt, suc w)

abbrev pub some_services : Services
some_services = record {
  create_or_update_catalog = λ c. pure tt;
  create_or_update_plugin = pure tt;
  enable_plugin = pure tt;
  send_pattern_installation_info = λ p. pure (p, false);
  send_pattern_start_event_info = λ p. pure (p, false);
  send_pattern_end_event_info = λ p. pure (p, false);
  create_or_update_argo_cd = λ a c. pure tt;
  start_argo_cd_watch = pure tt;
  generate_random_password = pure "password";
  migrate_gitea_repo = λ u p s t. pure tt;
  write_ca_files = pure tt;
  clone_repo = λ u d s. pure tt;
  checkout_revision = λ u d r s. pure tt;
  get_git_remote_url = λ d r. pure "https://example.com/hub";
  remove_all = λ d. pure tt;
}
