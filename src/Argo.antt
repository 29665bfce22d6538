-- ===== src/Argo.antt =====
-- The Argo CD Application as the operator uses it (internal/controller/argo.go).
-- A slice that the code compares with nil is a `Slice`: `none` is the nil slice.
pub mod Compare
pub mod Parameters
pub mod ValueFiles
pub mod Build
use patterns_operator.Prelude.{ℕ, String, Bool, Option, none, some, List, [], ◌∷◌}
use patterns_operator.Kube.Owner.{OwnerReference}

abbrev pub Slice : Type 0 → Type 0
Slice A = Option (List A)

-- `range s` and `len s` read the nil slice as the empty one.
abbrev pub items : {A : Type 0} → Slice A → List A
items none = []
items (some xs) = xs

pub record HelmParameter : Type 0 where
  pub name : String
  pub value : String
  pub force_string : Bool

pub record ApplicationSourceHelm : Type 0 where
  pub value_files : Slice String
  pub parameters : Slice HelmParameter
  pub values : String
  pub ignore_missing_value_files : Bool

pub record ApplicationSource : Type 0 where
  pub repo_url : String
  pub path : String
  pub target_revision : String
  pub chart : String
  pub ref : String
  pub helm : Option ApplicationSourceHelm

pub record SyncPolicyAutomated : Type 0 where
  pub prune : Bool
  pub self_heal : Bool
  pub allow_empty : Bool
  pub enabled : Option Bool

-- An `int64` that the operator only sets and compares: `negsuc n` is -(n + 1).
pub data ℤ : Type 0 where
  pos : ℕ → ℤ
  negsuc : ℕ → ℤ

pub record Backoff : Type 0 where
  pub duration : String
  pub factor : Option ℤ
  pub max_duration : String

pub record RetryStrategy : Type 0 where
  pub limit : ℤ
  pub backoff : Option Backoff
  pub refresh : Bool

pub record ManagedNamespaceMetadata : Type 0 where
  pub labels : List (String × String)
  pub annotations : List (String × String)

pub record SyncPolicy : Type 0 where
  pub automated : Option SyncPolicyAutomated
  pub sync_options : List String
  pub retry : Option RetryStrategy
  pub managed_namespace_metadata : Option ManagedNamespaceMetadata

pub record ApplicationDestination : Type 0 where
  pub name : String
  pub namespace : String

pub record ApplicationSpec : Type 0 where
  pub destination : ApplicationDestination
  pub project : String
  pub source : Option ApplicationSource
  pub sources : Slice ApplicationSource
  pub sync_policy : Option SyncPolicy

pub record SyncOperation : Type 0 where
  pub prune : Bool
  pub sync_options : List String

pub record Operation : Type 0 where
  pub sync : Option SyncOperation

pub record Application : Type 0 where
  pub name : String
  pub namespace : String
  pub labels : List (String × String)
  pub annotations : List (String × String)
  pub finalizers : List String
  pub owner_references : List OwnerReference
  pub spec : ApplicationSpec
  pub operation : Option Operation
  pub health_status : String
  pub sync_status : String
