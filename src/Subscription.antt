-- ===== src/Subscription.antt =====
-- The OLM subscription of the GitOps operator (internal/controller/subscription.go). A field that the
-- operator neither sets nor reads stands as its YAML text; `none` is nil.
use patterns_operator.Prelude.{String, Option, List}

pub record EnvVar : Type 0 where
  pub name : String
  pub value : String
  pub value_from : Option String

pub record SubscriptionConfig : Type 0 where
  pub selector : Option String
  pub node_selector : Option String
  pub tolerations : Option String
  pub resources : Option String
  pub env_from : Option String
  pub env : Option (List EnvVar)
  pub volumes : Option String
  pub volume_mounts : Option String
  pub affinity : Option String
  pub annotations : Option String

pub record SubscriptionSpec : Type 0 where
  pub catalog_source : String
  pub catalog_source_namespace : String
  pub package_name : String
  pub channel : String
  pub starting_csv : String
  pub install_plan_approval : String
  pub config : Option SubscriptionConfig

pub record Subscription : Type 0 where
  pub name : String
  pub namespace : String
  pub owner_uids : List String
  pub spec : Option SubscriptionSpec
