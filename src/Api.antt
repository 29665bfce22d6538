-- ===== src/Api.antt =====
-- The Pattern resource (api/v1alpha1/pattern_types.go): its data, and the admission webhook below.
-- A nil pointer or an absent optional field is `none`. Times are seconds.
pub mod Webhook
use patterns_operator.Prelude.{
  ℕ, String, Bool, true, false, Option, none, some, List, [], ◌∷◌, ◌==◌,
}

pub record PatternParameter : Type 0 where
  pub name : String
  pub value : String

pub record GitConfig : Type 0 where
  pub in_cluster_git_server : Option Bool
  pub target_repo : String
  pub target_revision : String
  pub origin_repo : String
  pub origin_revision : String
  pub hostname : String
  pub token_secret : String
  pub token_secret_namespace : String

pub record MultiSourceConfig : Type 0 where
  pub enabled : Option Bool
  pub helm_repo_url : String
  pub cluster_group_chart_version : String
  pub cluster_group_git_repo_url : String
  pub cluster_group_chart_git_revision : String

pub record GitOpsConfig : Type 0 where
  pub manual_sync : Bool

pub record PatternSpec : Type 0 where
  pub cluster_group_name : String
  pub variant : String
  pub git_config : GitConfig
  pub multi_source_config : MultiSourceConfig
  pub git_ops_config : Option GitOpsConfig
  pub extra_parameters : List PatternParameter
  pub extra_value_files : List String
  pub analytics_uuid : String
  pub experimental_capabilities : String

pub record PatternCondition : Type 0 where
  pub type : String
  pub status : String
  pub last_update_time : ℕ
  pub last_transition_time : ℕ
  pub message : String

pub record PatternApplicationInfo : Type 0 where
  pub name : String
  pub namespace : String
  pub app_sync_status : String
  pub app_health_status : String

-- The string type of the source; `other` holds the strings that are none of its constants.
pub data PatternDeletionPhase : Type 0 where
  initialize_deletion delete_spoke_child_apps delete_spoke : PatternDeletionPhase
  delete_hub_child_apps delete_hub : PatternDeletionPhase
  other : String → PatternDeletionPhase

unfoldable pub phase_text : PatternDeletionPhase → String
phase_text initialize_deletion = ""
phase_text delete_spoke_child_apps = "DeleteSpokeChildApps"
phase_text delete_spoke = "DeleteSpoke"
phase_text delete_hub_child_apps = "DeleteHubChildApps"
phase_text delete_hub = "DeleteHub"
phase_text (other s) = s

pub record PatternStatus : Type 0 where
  pub last_step : String
  pub last_error : String
  pub version : ℕ
  pub cluster_name : String
  pub app_cluster_domain : String
  pub cluster_domain : String
  pub cluster_id : String
  pub cluster_platform : String
  pub cluster_version : String
  pub conditions : List PatternCondition
  pub applications : List PatternApplicationInfo
  pub analytics_sent : ℕ
  pub analytics_uuid : String
  pub local_checkout_path : String
  pub deletion_phase : PatternDeletionPhase

pub record Pattern : Type 0 where
  pub name : String
  pub namespace : String
  pub annotations : List (String × String)
  pub finalizers : List String
  pub deletion_timestamp : Option ℕ
  pub uid : String
  pub spec : PatternSpec
  pub status : PatternStatus

abbrev pub pattern_finalizer : String
pattern_finalizer = "foregroundDeletePattern"

abbrev pub prune_annotation : String
prune_annotation = "patterns.gitops.hybrid-cloud-patterns.io/prune"

-- `p.Annotations[key]`, the empty text if the key is missing.
abbrev pub annotation : String → List (String × String) → String
annotation k [] = ""
annotation k ((j, v) ∷ m) = elim (j == k) [ true ↦ v | false ↦ annotation k m ]

-- `!p.DeletionTimestamp.IsZero()`
abbrev pub is_being_deleted : Pattern → Bool
is_being_deleted p = elim p.deletion_timestamp [ none ↦ false | some _ ↦ true ]
