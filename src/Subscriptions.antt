-- ===== src/Subscriptions.antt =====
-- The subscription of the GitOps operator (internal/controller/subscription.go) and its OperatorGroup
-- (internal/controller/operatorgroup.go).
pub mod Update
use patterns_operator.Prelude.{
  String, Bool, true, false, not, ◌&&◌, Option, none, some, List, [], ◌∷◌, ◌==◌, if◌then◌else◌,
}
use patterns_operator.Errors.{Err, Result, ok, err, errorf, is_not_found}
use patterns_operator.Subscription.{EnvVar, SubscriptionConfig, SubscriptionSpec, Subscription}
use patterns_operator.Defaults.{Env, detect_git_ops_subscription, git_ops_default_package_name}
use patterns_operator.Config.{Config, get_string_value}
use patterns_operator.Cluster.{
  Prog, pure, fail, ask, from_result, ◌>>=◌, get_subscription as fetch_subscription,
  create_subscription as post_subscription, update_subscription as put_subscription,
  get_operator_group as fetch_operator_group, create_operator_group as post_operator_group,
}

unfoldable pub new_subscription_env_vars : Bool → List EnvVar
new_subscription_env_vars disable_default_instance =
    record { name = "ARGOCD_CLUSTER_CONFIG_NAMESPACES"; value = "*"; value_from = none }
    ∷ (if disable_default_instance
        then record { name = "DISABLE_DEFAULT_ARGOCD_INSTANCE"; value = "true"; value_from = none }
          ∷ []
        else [])

-- `&SubscriptionConfig{Env: …}`
abbrev pub only_env : List EnvVar → SubscriptionConfig
only_env vars = record {
  selector = none;
  node_selector = none;
  tolerations = none;
  resources = none;
  env_from = none;
  env = some vars;
  volumes = none;
  volume_mounts = none;
  affinity = none;
  annotations = none;
}

unfoldable pub new_subscription : Env → Config → Bool → Subscription
new_subscription e g disable_default_instance =
    let (name, namespace) = detect_git_ops_subscription e in
    record {
      name = name;
      namespace = namespace;
      owner_uids = [];
      spec = some (record {
        catalog_source = get_string_value g "gitops.catalogSource";
        catalog_source_namespace = get_string_value g "gitops.sourceNamespace";
        package_name = git_ops_default_package_name;
        channel = get_string_value g "gitops.channel";
        starting_csv = get_string_value g "gitops.csv";
        install_plan_approval =
            if get_string_value g "gitops.installApprovalPlan" == "Manual"
            then "Manual"
            else "Automatic";
        config = some (only_env (new_subscription_env_vars disable_default_instance));
      });
    }

-- An object that is missing is `none`.
abbrev pub missing_is_none : {A : Type 0} → Result A → Prog (Option A)
missing_is_none (ok a) = pure (some a)
missing_is_none (err x) = elim (is_not_found x) [ true ↦ pure none | false ↦ fail x ]

unfoldable pub get_subscription : String → String → Prog (Option Subscription)
unfolding ask ◌>>=◌
get_subscription name namespace = do
  reply ← ask (fetch_subscription name namespace)
  missing_is_none reply

unfoldable pub create_subscription : Subscription → Prog (Unit {0})
unfolding ask ◌>>=◌
create_subscription sub = do reply ← ask (post_subscription sub); from_result reply

unfoldable pub get_operator_group : String → Prog (Option (Unit {0}))
unfolding ask ◌>>=◌
get_operator_group name = do reply ← ask (fetch_operator_group name); missing_is_none reply

unfoldable pub create_operator_group : String → Prog (Unit {0})
unfolding ask ◌>>=◌
create_operator_group name = do reply ← ask (post_operator_group name); from_result reply

abbrev pub same_source : Option String → Option String → Bool
same_source none none = true
same_source (some a) (some b) = a == b
same_source _ _ = false

-- `reflect.DeepEqual` on two lists of variables.
unfoldable pub same_env : List EnvVar → List EnvVar → Bool
same_env [] [] = true
same_env [] (b ∷ bs) = false
same_env (a ∷ as') [] = false
same_env (a ∷ as') (b ∷ bs) =
    a.name == b.name
    && (a.value == b.value && (same_source a.value_from b.value_from && same_env as' bs))

-- The nil slice is not deeply equal to an empty one.
abbrev pub same_env_slice : Option (List EnvVar) → Option (List EnvVar) → Bool
same_env_slice none none = true
same_env_slice (some a) (some b) = same_env a b
same_env_slice _ _ = false

-- Of two configurations only the variables are compared.
unfoldable pub config_changed : Option SubscriptionConfig → Option SubscriptionConfig → Bool
config_changed (some target) (some current) = not (same_env_slice target.env current.env)
config_changed none (some current) = true
config_changed (some target) none = true
config_changed none none = false

-- The chain of tests of `updateSubscription`, in its order.
unfoldable pub spec_changed : SubscriptionSpec → SubscriptionSpec → Bool
spec_changed target current =
    if not (target.catalog_source_namespace == current.catalog_source_namespace)
    then true
    else if not (target.catalog_source == current.catalog_source)
    then true
    else if not (target.channel == current.channel)
    then true
    else if not (target.package_name == current.package_name)
    then true
    else if not (target.install_plan_approval == current.install_plan_approval)
    then true
    else if not (target.starting_csv == current.starting_csv)
    then true
    else config_changed target.config current.config

abbrev pub error_of : {A : Type 0} → Result A → Option Err
error_of (ok _) = none
error_of (err x) = some x

abbrev pub update_specs :
    Subscription → SubscriptionSpec → SubscriptionSpec → Prog (Bool × Option Err)
update_specs current goal actual =
    let send : Prog (Bool × Option Err) =
      (ask (put_subscription (record current { spec = some goal })) >>= λ reply.
      pure (true, error_of reply)) in
    if spec_changed goal actual then send else pure (false, none)

-- Whether an update was sent, and its error. `none` is the nil pointer.
unfoldable pub update_subscription :
    Option Subscription → Option Subscription → Prog (Bool × Option Err)
unfolding ask ◌>>=◌
update_subscription target none = pure (false, some (errorf "current subscription was nil"))
update_subscription none (some current) = elim current.spec [
  | none ↦ pure (false, some (errorf "current subscription was nil"))
  | some actual ↦ pure (false, some (errorf "target subscription was nil"))
]
update_subscription (some target) (some current) = elim current.spec [
  | none ↦ pure (false, some (errorf "current subscription was nil"))
  | some actual ↦ elim target.spec [
    | none ↦ pure (false, some (errorf "target subscription was nil"))
    | some goal ↦ update_specs current goal actual
  ]
]
