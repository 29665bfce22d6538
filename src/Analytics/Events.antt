-- ===== src/Analytics/Events.antt =====
-- What the events say (internal/controller/analytics.go), and how many applications a pattern has
-- (internal/controller/argo.go, countVPApplications).
use patterns_operator.Prelude.{ℕ, String, Option, none, some, List, [], ◌∷◌, ◌^◌, if◌then◌else◌}
use patterns_operator.Errors.{Err, Result, ok, err, errorf}
use patterns_operator.Api.{Pattern}
use patterns_operator.Files.{Value, Table, Files, is_present}
use patterns_operator.Library.{Library}
use patterns_operator.GitUrl.{extract_repository_name}
use patterns_operator.Values.{
  merge_helm_values, get_cluster_group_value, count_applications_and_sets,
}
use patterns_operator.Argo.Parameters.{has_variants_folder_layout}
use patterns_operator.Argo.ValueFiles.{new_application_value_files}
use patterns_operator.Analytics.{get_simple_domain, get_new_uuid}

-- The two counts, and the error: the path is not there, or a value file cannot be read. Go returns the
-- counts -1 and -2 with the two errors.
pub data Counts : Type 0 where
  counted : ℕ → ℕ → Counts
  no_path no_values : Err → Counts

abbrev counts_of : Option Value → Counts
counts_of none = counted 0 0
counts_of (some v) = let (apps, app_sets) = count_applications_and_sets v in counted apps app_sets

abbrev counts_in : Result Table → Option Counts
counts_in (err x) = some (no_values (errorf ("error reading value file: " ^ x.message)))
counts_in (ok values) = elim (get_cluster_group_value "applications" values) [
  | none ↦ none
  | some v ↦ some (counts_of v)
]

module _ (lib : Library) (files : Files) where
  -- `none` is the panic of a type assertion.
  unfoldable pub count_vp_applications : Pattern → Option Counts
  count_vp_applications p =
      let git_dir = p.status.local_checkout_path in
      let value_files =
        new_application_value_files p git_dir (has_variants_folder_layout files git_dir) in
      if is_present (files.stat git_dir)
      then counts_in (merge_helm_values lib files value_files)
      else some (no_path (errorf (git_dir ^ " path does not exist")))

  -- strconv.Itoa of the two counts, for the printer of natural numbers `decimal`.
  abbrev app_count : (ℕ → String) → Counts → String
  app_count decimal (counted apps app_sets) = decimal apps
  app_count decimal (no_path x) = "-1"
  app_count decimal (no_values x) = "-2"

  abbrev app_set_count : (ℕ → String) → Counts → String
  app_set_count decimal (counted apps app_sets) = decimal app_sets
  app_set_count decimal (no_path x) = "-1"
  app_set_count decimal (no_values x) = "-2"

-- Parameters: the version of the operator, the hexadecimal SHA-256 of a text, and a decimal printer.
pub record Printing : Type 0 where
  pub version : String
  pub sha256 : String → String
  pub decimal : ℕ → String

pub record EventContext : Type 0 where
  pub extra : List (String × String)
  pub app_version : String
  pub os_name : String
  pub os_version : String
  pub device_id : String
  pub device_type : String

pub record Track : Type 0 where
  pub user_id : String
  pub event : String
  pub context : EventContext
  pub properties : List (String × String)

-- The traits are the properties of an event and the name.
pub record Identify : Type 0 where
  pub user_id : String
  pub context : EventContext
  pub traits : List (String × String)

abbrev name_or_empty : Result String → String
name_or_empty (ok name) = name
name_or_empty (err x) = ""

module _ (lib : Library) (files : Files) (printing : Printing) where
  unfoldable pub get_device_hash : Pattern → String
  get_device_hash p = printing.sha256 p.status.cluster_domain

  unfoldable pub get_base_git_repo : Pattern → String
  get_base_git_repo p = name_or_empty (extract_repository_name lib p.spec.git_config.target_repo)

  abbrev context_of : Pattern → Counts → EventContext
  context_of p counts = record {
    extra =
        ("Pattern", p.name)
        ∷ ("Domain", get_simple_domain p)
        ∷ ("OperatorVersion", printing.version)
        ∷ ("RepoBaseName", get_base_git_repo p)
        ∷ ("OCPVersion", p.status.cluster_version)
        ∷ ("Platform", p.status.cluster_platform)
        ∷ ("DeviceHash", get_device_hash p)
        ∷ ("AppCount", app_count lib files printing.decimal counts)
        ∷ ("AppSetCount", app_set_count lib files printing.decimal counts)
        ∷ [];
    app_version = printing.version;
    os_name = "OpenShift";
    os_version = p.status.cluster_version;
    device_id = get_device_hash p;
    device_type = p.status.cluster_platform;
  }

  -- The error of the counts is dropped.
  unfoldable pub get_analytics_context : Pattern → Option EventContext
  unfolding count_vp_applications
  get_analytics_context p = elim (count_vp_applications lib files p) [
    | none ↦ none
    | some counts ↦ some (context_of p counts)
  ]

  unfoldable pub get_analytics_properties : Pattern → List (String × String)
  get_analytics_properties p =
      ("platform", p.status.cluster_platform)
      ∷ ("ocpversion", p.status.cluster_version)
      ∷ ("domain", get_simple_domain p)
      ∷ ("operatorversion", printing.version)
      ∷ ("repobasename", get_base_git_repo p)
      ∷ ("pattern", p.name)
      ∷ []

  -- The event, and the pattern in which a generated identifier is kept.
  unfoldable pub get_analytics_track : String → Pattern → String → Option (Track × Pattern)
  get_analytics_track generated p event =
      let (id, q) = get_new_uuid generated p in
      elim (get_analytics_context q) [
        | none ↦ none
        | some context ↦ some (
          record {
            user_id = id;
            event = event;
            context = context;
            properties = get_analytics_properties q;
          },
          q,
        )
      ]

  -- The message with which SendPatternInstallationInfo tells who has installed a pattern.
  unfoldable pub identify_message : String → Pattern → Option (Identify × Pattern)
  identify_message generated p =
      let (id, q) = get_new_uuid generated p in
      elim (get_analytics_context q) [
        | none ↦ none
        | some context ↦ some (
          record {
            user_id = id;
            context = context;
            traits = ("name", "VP User") ∷ get_analytics_properties q;
          },
          q,
        )
      ]
