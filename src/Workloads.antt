-- ===== src/Workloads.antt =====
-- The objects of the console plugin and of the catalog, as far as the operator writes or reads them
-- (internal/controller/console/plugin.go and catalog.go).
use patterns_operator.Prelude.{ℕ, String, Bool, Option, List}
use patterns_operator.Files.{Table}

abbrev pub Labels : Type 0
Labels = List (String × String)

pub record ConfigMapObject : Type 0 where
  pub labels : Labels
  pub annotations : Labels
  pub entries : List (String × String)

pub record ServicePort : Type 0 where
  pub name : String
  pub port : ℕ
  pub protocol : String
  pub target_port : String

pub record ServiceObject : Type 0 where
  pub labels : Labels
  pub annotations : Labels
  pub ports : List ServicePort
  pub selector : Labels
  pub session_affinity : String
  pub kind : String
  -- what the API server fills in
  pub cluster_ip : String

pub record ContainerPort : Type 0 where
  pub name : String
  pub container_port : ℕ
  pub protocol : String

pub record VolumeMount : Type 0 where
  pub name : String
  pub mount_path : String
  pub sub_path : String
  pub read_only : Bool

pub record Container : Type 0 where
  pub name : String
  pub image : String
  pub image_pull_policy : String
  pub ports : List ContainerPort
  pub cpu_request : String
  pub memory_request : String
  pub allow_privilege_escalation : Option Bool
  pub dropped_capabilities : List String
  pub volume_mounts : List VolumeMount

pub data VolumeSource : Type 0 where
  secret_volume config_map_volume : String → Option ℕ → VolumeSource

pub record Volume : Type 0 where
  pub name : String
  pub source : VolumeSource

pub record PodTemplate : Type 0 where
  pub labels : Labels
  pub containers : List Container
  pub restart_policy : String
  pub dns_policy : String
  pub run_as_non_root : Option Bool
  pub service_account_name : String
  pub volumes : List Volume

pub record DeploymentSpec : Type 0 where
  pub replicas : Option ℕ
  pub match_labels : Labels
  pub strategy : String
  pub max_unavailable : Option String
  pub max_surge : Option String
  pub template : PodTemplate

pub record DeploymentObject : Type 0 where
  pub labels : Labels
  pub annotations : Labels
  pub spec : DeploymentSpec

pub record ServiceReference : Type 0 where
  pub name : String
  pub namespace : String
  pub port : ℕ

pub record PluginProxy : Type 0 where
  pub alias : String
  pub authorization : String
  pub endpoint_kind : String
  pub service : ServiceReference

pub record ConsolePluginSpec : Type 0 where
  pub display_name : String
  pub backend_kind : String
  pub backend_service : ServiceReference
  pub base_path : String
  pub proxy : List PluginProxy

pub record ConsolePluginObject : Type 0 where
  pub owner_uids : List String
  pub labels : Labels
  pub spec : ConsolePluginSpec

-- The operator configuration of the console; `others` is all of it but the plugins.
pub record ConsoleObject : Type 0 where
  pub plugins : List String
  pub others : Table

pub data Kind : Type 0 where
  config_map_kind service_kind deployment_kind console_plugin_kind console_kind : Kind

abbrev pub Object : Kind → Type 0
Object config_map_kind = ConfigMapObject
Object service_kind = ServiceObject
Object deployment_kind = DeploymentObject
Object console_plugin_kind = ConsolePluginObject
Object console_kind = ConsoleObject
