-- ===== src/Stages/Subscribe.antt =====
-- The subscription of a reconciliation (internal/controller/pattern_controller.go,
-- reconcileGitOpsSubscription).
use patterns_operator.Prelude.{
  String, Bool, true, false, not, Option, none, some, ◌==◌, if◌then◌else◌,
}
use patterns_operator.Errors.{Err, Result, ok}
use patterns_operator.Api.{Pattern}
use patterns_operator.Library.{Library}
use patterns_operator.Defaults.{
  Env, ActiveArgo, is_legacy_argo_namespace, detect_operator_namespace, detect_git_ops_subscription,
  legacy_operator_namespace,
}
use patterns_operator.Config.{Config, get_patterns_operator_config_map}
use patterns_operator.Subscription.{Subscription}
use patterns_operator.Subscriptions.{
  new_subscription, get_subscription, create_subscription, update_subscription, get_operator_group,
  create_operator_group,
}
use patterns_operator.Bootstrap.{create_namespace}
use patterns_operator.Cluster.{
  ask, from_result, attempt, ◌>>=◌, update_subscription as put_subscription,
}
use patterns_operator.Stages.{Stage, done, go_on, and_then, checked}

module _ (lib : Library) (e : Env) (q : Pattern) where
  abbrev make_operator_group : String → Option (Unit {0}) → Stage
  make_operator_group namespace (some _) = go_on
  make_operator_group namespace none =
      checked q "error creating operatorgroup for gitops subscription"
        (create_operator_group namespace) (λ _. go_on)

  -- The namespace and the OperatorGroup, unless the operator runs in the legacy namespace.
  unfoldable pub prepare_subscription : String → Stage
  prepare_subscription namespace =
      let prepare : Stage =
        checked q "error creating namespace for gitops subscription" (create_namespace namespace)
          (λ _.
            checked q "error getting operatorgroup for gitops subscription"
              (get_operator_group namespace) (make_operator_group namespace)) in
      if detect_operator_namespace e == legacy_operator_namespace then go_on else prepare

  -- The subscription without the owner references that are stale, and whether one was taken away.
  abbrev without_reference : Option Subscription → Subscription × Bool → Subscription × Bool
  without_reference none (s, changed) = (s, changed)
  without_reference (some t) (s, changed) = (t, true)

  abbrev without_config_map : Result (Option Config) → Subscription × Bool → Subscription × Bool
  without_config_map (ok (some m)) (s, changed) =
      without_reference (lib.remove_config_map_reference s) (s, changed)
  without_config_map _ (s, changed) = (s, changed)

  abbrev report_update : Bool × Option Err → Stage
  report_update (true, failure) = done q "update gitops subscription" failure
  report_update (false, failure) = go_on

  abbrev report_references : Subscription → Subscription × Bool → Stage
  report_references target (current, true) =
      checked q "error removing stale owner references from gitops subscription"
        (ask (put_subscription current) >>= from_result)
        (λ _. done q "removed stale owner references from gitops subscription" none)
  report_references target (current, false) =
      update_subscription (some target) (some current) >>= report_update

  unfoldable pub align_subscription : Subscription → Option Subscription → Stage
  align_subscription target none =
      checked q "error creating gitops subscription" (create_subscription target) (λ _. go_on)
  align_subscription target (some current) = do
    config ← attempt (get_patterns_operator_config_map e)
    report_references target (
        without_config_map config
          (without_reference (lib.remove_pattern_reference q current) (current, false)))

  unfoldable pub reconcile_git_ops_subscription : ActiveArgo → Config → Stage
  reconcile_git_ops_subscription active config =
      let target = new_subscription e config (not (is_legacy_argo_namespace active)) in
      let (name, namespace) = detect_git_ops_subscription e in
      prepare_subscription namespace
      >>= and_then (
          checked q "error getting gitops subscription" (get_subscription name namespace)
            (align_subscription target))
