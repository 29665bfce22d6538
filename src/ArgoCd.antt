-- ===== src/ArgoCd.antt =====
-- The Argo CD instance that the operator keeps (internal/controller/argo.go): the fields of an ArgoCD
-- that the operator sets, and the object as the dynamic client sees it.
pub mod Rbac
pub mod HealthChecks
pub mod Instance
pub mod Overlay
pub mod Update
pub mod Keeps
pub mod Policies
use patterns_operator.Prelude.{String, Bool, Option, List}
use patterns_operator.Errors.{Err, Result}
use patterns_operator.Files.{Table, Value}

-- Quantities are kept as the text that resource.MustParse reads.
pub record Quantities : Type 0 where
  pub cpu : String
  pub memory : String

pub record ResourceRequirements : Type 0 where
  pub limits : Quantities
  pub requests : Quantities

pub record RbacSpec : Type 0 where
  pub default_policy : Option String
  pub policy : Option String
  pub scopes : Option String
  pub policy_matcher_mode : Option String

pub record ResourceHealthCheck : Type 0 where
  pub group : String
  pub kind : String
  pub check : String

pub record ApplicationSetSpec : Type 0 where
  pub resources : ResourceRequirements
  pub webhook_ingress_enabled : Bool
  pub webhook_route_enabled : Bool

-- Grafana and Prometheus; the second has no resources of its own.
pub record DashboardSpec : Type 0 where
  pub enabled : Bool
  pub ingress_enabled : Bool
  pub route_enabled : Bool
  pub resources : Option ResourceRequirements

pub record HaSpec : Type 0 where
  pub enabled : Bool
  pub resources : ResourceRequirements

pub data VolumeSource : Type 0 where
  config_map_source : String → Option Bool → VolumeSource
  empty_dir : VolumeSource

pub record Volume : Type 0 where
  pub name : String
  pub source : VolumeSource

pub record VolumeMount : Type 0 where
  pub name : String
  pub mount_path : String

pub record Container : Type 0 where
  pub name : String
  pub image : String
  pub volume_mounts : List VolumeMount
  pub command : List String

pub record RepoSpec : Type 0 where
  pub resources : ResourceRequirements
  pub init_containers : List Container
  pub volume_mounts : List VolumeMount
  pub volumes : List Volume

pub record RouteTls : Type 0 where
  pub termination : String
  pub insecure_edge_termination_policy : String

pub record ServerSpec : Type 0 where
  pub autoscale_enabled : Bool
  pub grpc_ingress_enabled : Bool
  pub ingress_enabled : Bool
  pub resources : ResourceRequirements
  pub route_enabled : Bool
  pub route_tls : RouteTls
  pub service_type : String

pub record SsoSpec : Type 0 where
  pub open_shift_oauth : Bool
  pub dex_resources : ResourceRequirements
  pub provider : String

-- `others` are the fields that the operator never sets itself.
pub record ArgoCdSpec : Type 0 where
  pub application_set : ApplicationSetSpec
  pub controller_resources : ResourceRequirements
  pub grafana : DashboardSpec
  pub ha : HaSpec
  pub monitoring_enabled : Bool
  pub notifications_enabled : Bool
  pub prometheus : DashboardSpec
  pub rbac : RbacSpec
  pub redis_resources : ResourceRequirements
  pub repo : RepoSpec
  pub resource_exclusions : String
  pub resource_health_checks : List ResourceHealthCheck
  pub resource_tracking_method : String
  pub server : ServerSpec
  pub sso : SsoSpec
  pub others : Table

pub record ArgoCd : Type 0 where
  pub kind : String
  pub api_version : String
  pub name : String
  pub namespace : String
  pub annotations : List (String × String)
  pub finalizers : List String
  pub spec : ArgoCdSpec

-- unstructured.Unstructured, as far as the operator looks into it: `spec` is what stands under that key.
pub record ArgoObject : Type 0 where
  pub resource_version : String
  pub spec : Option Value
  pub others : Table

-- Third-party functions. mergo.Merge changes its first argument also where it fails.
pub record ArgoLibrary : Type 0 where
  -- yaml.Unmarshal into the three types and into a map
  pub parse_rbac : String → Result RbacSpec
  pub parse_health_checks : String → Result (List ResourceHealthCheck)
  pub parse_spec : String → Result ArgoCdSpec
  pub parse_table : String → Result Table
  -- mergo.Merge(&dst, src, mergo.WithOverride)
  pub merge_specs : ArgoCdSpec → ArgoCdSpec → ArgoCdSpec × Option Err
  pub merge_tables : Table → Table → Result Table
  -- runtime.DefaultUnstructuredConverter
  pub to_unstructured : ArgoCd → Result ArgoObject
  pub from_unstructured : ArgoObject → Result ArgoCd
  -- apiequality.Semantic.DeepEqual
  pub semantic_equal : ArgoCdSpec → ArgoCdSpec → Bool
