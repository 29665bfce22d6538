-- ===== src/Config.antt =====
-- The operator's ConfigMap (internal/controller/patterns_operator_config.go).
use patterns_operator.Prelude.{
  String, Bool, true, false, Option, none, some, List, [], ◌∷◌, lookup, equal_fold,
}
use patterns_operator.Errors.{Result, ok, err, is_not_found}
use patterns_operator.Defaults.{Env, detect_operator_namespace, operator_config_map}
use patterns_operator.Cluster.{Prog, pure, fail, ask, ◌>>=◌, get_config_map, create_config_map}

abbrev pub Config : Type 0
Config = List (String × String)

abbrev pub default_patterns_operator_config : Config
default_patterns_operator_config =
    ("gitops.catalogSource", "redhat-operators")
    ∷ ("gitops.channel", "gitops-1.21")
    ∷ ("gitops.sourceNamespace", "openshift-marketplace")
    ∷ ("gitops.installApprovalPlan", "Automatic")
    ∷ ("gitops.csv", "")
    ∷ ("gitops.additionalArgoAdmins", "")
    ∷ ("gitops.applicationHealthCheckEnabled", "false")
    ∷ ("gitops.customHealthChecks", "")
    ∷ ("gitops.argoRBAC", "")
    ∷ ("gitops.customArgoYaml", "")
    ∷ ("gitea.chartName", "gitea")
    ∷ ("gitea.helmRepoUrl", "https://charts.validatedpatterns.io/")
    ∷ ("gitea.chartVersion", "0.0.*")
    ∷ ("catalog.image", "")
    ∷ []

-- `m[k]`, the empty text if the key is missing.
abbrev value_or_empty : Option String → String
value_or_empty none = ""
value_or_empty (some v) = v

unfoldable pub get_string_value : Config → String → String
get_string_value g k = elim (lookup k g) [
  | some v ↦ v
  | none ↦ value_or_empty (lookup k default_patterns_operator_config)
]

unfoldable pub get_bool_value : Config → String → Bool
get_bool_value g k = elim (lookup k g) [
  | some v ↦ equal_fold v "true"
  | none ↦ equal_fold (value_or_empty (lookup k default_patterns_operator_config)) "true"
]

-- A ConfigMap that is missing is `none`.
abbrev found_config : Result Config → Prog (Option Config)
found_config (ok m) = pure (some m)
found_config (err x) = elim (is_not_found x) [ true ↦ pure none | false ↦ fail x ]

unfoldable pub get_patterns_operator_config_map : Env → Prog (Option Config)
unfolding ask ◌>>=◌
get_patterns_operator_config_map e = do
  reply ← ask (get_config_map (detect_operator_namespace e) operator_config_map)
  found_config reply

abbrev created_config : Result (Unit {0}) → Prog (Option Config)
created_config (ok _) = pure (some [])
created_config (err x) = fail x

unfoldable pub create_patterns_operator_config_map : Env → Prog (Option Config)
unfolding ask ◌>>=◌
create_patterns_operator_config_map e = do
  reply ← ask (create_config_map (detect_operator_namespace e) operator_config_map [])
  created_config reply
