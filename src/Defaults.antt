-- ===== src/Defaults.antt =====
-- internal/controller/defaults.go: constants, and where the operator runs.
use patterns_operator.Prelude.{String, Bool, Option, none, some, ◌==◌, trim_space, if◌then◌else◌}

-- The environment of the process: its variables and the service account's namespace file.
pub record Env : Type 0 where
  pub operator_namespace : String
  pub namespace_file : Option String
  pub search_api_url : String
  pub search_api_token : String
  pub temp_dir : String

abbrev pub legacy_operator_namespace : String
legacy_operator_namespace = "openshift-operators"

abbrev pub operator_config_map : String
operator_config_map = "patterns-operator-config"

abbrev pub application_namespace : String
application_namespace = "vp-gitops"

abbrev pub cluster_wide_argo_name : String
cluster_wide_argo_name = "vp-gitops"

abbrev pub legacy_application_namespace : String
legacy_application_namespace = "openshift-gitops"

abbrev pub legacy_cluster_wide_argo_name : String
legacy_cluster_wide_argo_name = "openshift-gitops"

abbrev pub git_ops_default_subscription_namespace : String
git_ops_default_subscription_namespace = "openshift-gitops-operator"

abbrev pub git_ops_default_package_name : String
git_ops_default_package_name = "openshift-gitops-operator"

unfoldable pub detect_operator_namespace : Env → String
detect_operator_namespace e =
    if e.operator_namespace == ""
    then elim e.namespace_file [
      | none ↦ legacy_operator_namespace
      | some text ↦ if text == "" then legacy_operator_namespace else trim_space text
    ]
    else e.operator_namespace

-- The name and the namespace of the subscription.
unfoldable pub detect_git_ops_subscription : Env → String × String
detect_git_ops_subscription e =
    if detect_operator_namespace e == legacy_operator_namespace
    then (git_ops_default_package_name, legacy_operator_namespace)
    else (git_ops_default_package_name, git_ops_default_subscription_namespace)

-- The package variables `activeArgoNamespace` and `activeArgoName`.
pub record ActiveArgo : Type 0 where
  pub namespace : String
  pub name : String

unfoldable pub is_legacy_argo_namespace : ActiveArgo → Bool
is_legacy_argo_namespace a = a.namespace == legacy_application_namespace
