-- ===== src/Argo/Build.antt =====
-- The Application that the operator wants (internal/controller/argo.go, newArgoApplication).
pub mod Comparable
use patterns_operator.Prelude.{
  String, true, false, Option, none, some, List, [], ◌∷◌, ◌++◌, ◌==◌, ◌^◌, if◌then◌else◌,
}
use patterns_operator.Errors.{Result, ok, err}
use patterns_operator.Panics.{◌>>=◌}
use patterns_operator.Api.{Pattern, is_being_deleted}
use patterns_operator.Files.{Files}
use patterns_operator.Library.{Library}
use patterns_operator.Defaults.{Env, ActiveArgo}
use patterns_operator.Argo.{
  pos, ApplicationSourceHelm, ApplicationSource, SyncPolicy, ApplicationSpec, Application,
}
use patterns_operator.Argo.Parameters.{
  has_variants_folder_layout, new_application_parameters, get_cluster_group_chart_version,
}
use patterns_operator.Argo.ValueFiles.{
  new_application_value_files, new_application_values, get_shared_value_files,
}

unfoldable pub application_name : Pattern → String
application_name p = p.name ^ "-" ^ p.spec.cluster_group_name

abbrev deletion_policy : SyncPolicy
deletion_policy = record {
  automated =
      some (record { prune = true; self_heal = false; allow_empty = false; enabled = none });
  sync_options = "Prune=true" ∷ [];
  retry = none;
  managed_namespace_metadata = none;
}

abbrev automated_policy : SyncPolicy
automated_policy = record {
  automated =
      some (record { prune = false; self_heal = true; allow_empty = false; enabled = none });
  sync_options = [];
  retry = some (record { limit = pos 20; backoff = none; refresh = false });
  managed_namespace_metadata = none;
}

-- The outer `none` is the nil dereference of `GitOpsConfig`.
unfoldable pub common_sync_policy : Pattern → Option (Option SyncPolicy)
common_sync_policy p =
    if is_being_deleted p then some (some deletion_policy) else elim p.spec.git_ops_config [
      | none ↦ none
      | some c ↦ some (if c.manual_sync then none else some automated_policy)
    ]

-- One source goes to `Source`, any other number to `Sources`.
unfoldable pub common_application_spec : Pattern → List ApplicationSource → ApplicationSpec
common_application_spec p (s ∷ []) = record {
  destination = record { name = "in-cluster"; namespace = p.namespace };
  project = "default";
  source = some s;
  sources = none;
  sync_policy = none;
}
common_application_spec p sources = record {
  destination = record { name = "in-cluster"; namespace = p.namespace };
  project = "default";
  source = none;
  sources = some sources;
  sync_policy = none;
}

abbrev foreground_finalizer : String
foreground_finalizer = "resources-finalizer.argocd.argoproj.io/foreground"

unfoldable pub new_argo_operator_application : ActiveArgo → Pattern → ApplicationSpec → Application
new_argo_operator_application active p spec = record {
  name = application_name p;
  namespace = active.namespace;
  labels = ("validatedpatterns.io/pattern", p.name) ∷ [];
  annotations = [];
  finalizers = foreground_finalizer ∷ [];
  owner_references = [];
  spec = spec;
  operation = none;
  health_status = "";
  sync_status = "";
}

module _ (lib : Library) (e : Env) (active : ActiveArgo) (files : Files) where
  abbrev with_shared : List String → Result (List String) → List String
  with_shared value_files (err _) = value_files
  with_shared value_files (ok shared) = value_files ++ shared

  unfoldable pub common_application_source_helm : Pattern → String → Option ApplicationSourceHelm
  common_application_source_helm p prefix = do
    shared ← get_shared_value_files lib e active files p prefix
    parameters ← new_application_parameters e active files p
    let use_variants = has_variants_folder_layout files p.status.local_checkout_path
    some (record {
      value_files = some (with_shared (new_application_value_files p prefix use_variants) shared);
      parameters = some parameters;
      values = new_application_values p;
      ignore_missing_value_files = true;
    })

  unfoldable pub new_source_application : Pattern → Option Application
  new_source_application p = do
    helm ← common_application_source_helm p ""
    policy ← common_sync_policy p
    let source : ApplicationSource = record {
      repo_url = p.spec.git_config.target_repo;
      path = "common/clustergroup";
      target_revision = p.spec.git_config.target_revision;
      chart = "";
      ref = "";
      helm = some helm;
    }
    let spec = common_application_spec p (source ∷ [])
    some (new_argo_operator_application active p (record spec { sync_policy = policy }))

  abbrev values_source : Pattern → ApplicationSource
  values_source p = record {
    repo_url = p.spec.git_config.target_repo;
    path = "";
    target_revision = p.spec.git_config.target_revision;
    chart = "";
    ref = "patternref";
    helm = none;
  }

  abbrev base_source : Pattern → ApplicationSourceHelm → ApplicationSource
  base_source p helm =
      if p.spec.multi_source_config.cluster_group_git_repo_url == ""
      then record {
        repo_url = p.spec.multi_source_config.helm_repo_url;
        path = "";
        target_revision = get_cluster_group_chart_version files p;
        chart = "clustergroup";
        ref = "";
        helm = some helm;
      }
      else record {
        repo_url = p.spec.multi_source_config.cluster_group_git_repo_url;
        path = ".";
        target_revision = p.spec.multi_source_config.cluster_group_chart_git_revision;
        chart = "";
        ref = "";
        helm = some helm;
      }

  unfoldable pub new_multi_source_application : Pattern → Option Application
  new_multi_source_application p = do
    helm ← common_application_source_helm p "$patternref"
    policy ← common_sync_policy p
    let spec = common_application_spec p (values_source p ∷ base_source p helm ∷ [])
    some (new_argo_operator_application active p (record spec { sync_policy = policy }))

  -- `none` is a panic.
  unfoldable pub new_argo_application : Pattern → Option Application
  new_argo_application p = elim p.spec.multi_source_config.enabled [
    | none ↦ none
    | some multi_source ↦
        if multi_source then new_multi_source_application p else new_source_application p
  ]
