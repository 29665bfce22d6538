-- ===== src/Argo/Parameters.antt =====
-- The Helm parameters of the pattern's Application (internal/controller/argo.go).
pub mod Overrides
use patterns_operator.Prelude.{
  String, Bool, true, false, not, ◌&&◌, Option, none, some, List, [], ◌∷◌, ◌++◌, ◌==◌, join_path,
  if◌then◌else◌,
}
use patterns_operator.Api.{
  Pattern, PatternParameter, PatternDeletionPhase, delete_hub_child_apps, initialize_deletion,
  delete_spoke_child_apps, delete_spoke, delete_hub, other, phase_text, is_being_deleted,
}
use patterns_operator.Files.{Files, is_present, is_directory}
use patterns_operator.Defaults.{Env, ActiveArgo, detect_git_ops_subscription}
use patterns_operator.Argo.{HelmParameter}

-- internal/controller/utils.go
unfoldable pub is_common_slimmed : Files → String → Bool
is_common_slimmed files path =
    if is_present (files.stat (join_path (path ∷ "common" ∷ "operator-install" ∷ [])))
    then false
    else true

-- internal/controller/utils.go
unfoldable pub has_variants_folder_layout : Files → String → Bool
has_variants_folder_layout files path =
    is_directory (files.stat (join_path (path ∷ "variants" ∷ [])))

unfoldable pub get_cluster_group_chart_version : Files → Pattern → String
get_cluster_group_chart_version files p =
    if not (p.spec.multi_source_config.cluster_group_chart_version == "")
    then p.spec.multi_source_config.cluster_group_chart_version
    else if is_common_slimmed files p.status.local_checkout_path
    then "0.9.*"
    else "0.8.*"

abbrev pub format_bool : Bool → String
format_bool true = "true"
format_bool false = "false"

abbrev pub parameter : String → String → HelmParameter
parameter n v = record { name = n; value = v; force_string = false }

-- The loop ranges over copies of the parameters: its assignment to `param.Value` is lost, and the
-- caller's slice stays as it was.
unfoldable pub update_helm_parameter : PatternParameter → List HelmParameter → Bool
update_helm_parameter goal [] = false
update_helm_parameter goal (param ∷ rest) =
    let later = update_helm_parameter goal rest in if goal.name == param.name then true else later

-- The loop over `p.Spec.ExtraParameters`.
unfoldable pub add_extra_parameters :
    List PatternParameter → List HelmParameter → List HelmParameter
unfolding update_helm_parameter
add_extra_parameters [] parameters = parameters
add_extra_parameters (extra ∷ extras) parameters = add_extra_parameters extras (
    if update_helm_parameter extra parameters
    then parameters
    else (parameters ++ parameter extra.name extra.value ∷ []))

unfoldable pub delete_pattern_value : PatternDeletionPhase → String
delete_pattern_value delete_hub_child_apps = "DeleteChildApps"
delete_pattern_value initialize_deletion = phase_text initialize_deletion
delete_pattern_value delete_spoke_child_apps = phase_text delete_spoke_child_apps
delete_pattern_value delete_spoke = phase_text delete_spoke
delete_pattern_value delete_hub = phase_text delete_hub
delete_pattern_value (other s) = phase_text (other s)

-- What the code builds before it looks at the extra parameters.
unfoldable pub base_parameters : Env → ActiveArgo → Files → Pattern → Bool → List HelmParameter
base_parameters e active files p multi_source =
    (parameter "global.pattern" p.name
      ∷ parameter "global.namespace" p.namespace
      ∷ parameter "global.repoURL" p.spec.git_config.target_repo
      ∷ parameter "global.originURL" p.spec.git_config.origin_repo
      ∷ parameter "global.targetRevision" p.spec.git_config.target_revision
      ∷ parameter "global.hubClusterDomain" p.status.app_cluster_domain
      ∷ parameter "global.localClusterDomain" p.status.app_cluster_domain
      ∷ parameter "global.clusterDomain" p.status.cluster_domain
      ∷ parameter "global.clusterVersion" p.status.cluster_version
      ∷ parameter "global.clusterPlatform" p.status.cluster_platform
      ∷ parameter "global.localClusterName" p.status.cluster_name
      ∷ parameter "global.privateRepo" (format_bool (not (p.spec.git_config.token_secret == "")))
      ∷ parameter "global.multiSourceSupport" (format_bool multi_source)
      ∷ parameter "global.multiSourceRepoUrl" p.spec.multi_source_config.helm_repo_url
      ∷ parameter "global.experimentalCapabilities" p.spec.experimental_capabilities
      ∷ parameter "global.gitOpsSubNamespace" (detect_git_ops_subscription e).1
      ∷ parameter "global.vpArgoNamespace" active.namespace
      ∷ parameter "global.multiSourceTargetRevision" (get_cluster_group_chart_version files p)
      ∷ [])
    ++ (if has_variants_folder_layout files p.status.local_checkout_path
        then parameter "global.vpNewFolderDir" "true" ∷ []
        else [])

abbrev pub delete_parameter : PatternDeletionPhase → HelmParameter
delete_parameter phase = record {
  name = "global.deletePattern";
  value = delete_pattern_value phase;
  force_string = true;
}

-- The end of `newApplicationParameters`: a pattern that is being deleted hands its phase on.
unfoldable pub add_delete_parameter : Pattern → List HelmParameter → List HelmParameter
add_delete_parameter p parameters =
    if is_being_deleted p
    then parameters ++ delete_parameter p.status.deletion_phase ∷ []
    else parameters

-- `none` is the nil dereference of `MultiSourceConfig.Enabled`.
unfoldable pub new_application_parameters :
    Env → ActiveArgo → Files → Pattern → Option (List HelmParameter)
new_application_parameters e active files p = elim p.spec.multi_source_config.enabled [
  | none ↦ none
  | some multi_source ↦ some (
      add_delete_parameter p (
        add_extra_parameters p.spec.extra_parameters
          (base_parameters e active files p multi_source)))
]
