-- ===== src/Stages.antt =====
-- How a stage of a reconciliation ends (internal/controller/pattern_controller.go, actionPerformed and
-- onReconcileErrorWithRequeue).
pub mod Subscribe
pub mod Infra
pub mod Target
pub mod Ownership
pub mod Reports
use patterns_operator.Prelude.{
  ℕ, String, Bool, true, false, not, ◌&&◌, Option, none, some, List, [], ◌∷◌, ◌+◌, ◌==◌, ◌^◌,
  if◌then◌else◌,
}
use patterns_operator.Errors.{Err, Result, ok, err, errorf}
use patterns_operator.Api.{Pattern, is_being_deleted}
use patterns_operator.Library.{Library}
use patterns_operator.Defaults.{
  Env, ActiveArgo, is_legacy_argo_namespace, detect_operator_namespace, detect_git_ops_subscription,
  legacy_operator_namespace,
}
use patterns_operator.Config.{Config, get_patterns_operator_config_map}
use patterns_operator.Services.{Services}
use patterns_operator.Subscription.{Subscription}
use patterns_operator.Subscriptions.{
  new_subscription, get_subscription, create_subscription, update_subscription, get_operator_group,
  create_operator_group,
}
use patterns_operator.Bootstrap.{
  have_namespace, create_namespace, create_trusted_bundle_cm, is_trusted_bundle_cm_populated,
  create_or_update_console_link,
}
use patterns_operator.Kube.Owner.{owned_by_same}
use patterns_operator.Argo.{Application}
use patterns_operator.Argo.Build.{application_name, new_argo_application}
use patterns_operator.Applications.{get_application_or_err, create, update_application}
use patterns_operator.Cluster.{
  Prog, pure, fail, panic, ask, from_result, attempt, ◌>>=◌, ◌>>◌, update_pattern_status,
  read_files, remove_local_git_paths, update_subscription as put_subscription,
}

-- `ctrl.Result`: after how many seconds to come back.
abbrev pub Requeue : Type 0
Requeue = Option ℕ

abbrev pub error_text : Option Err → String
error_text none = ""
error_text (some x) = x.message

abbrev pub with_step : Pattern → String → Option Err → Pattern
with_step p reason failure = record p {
  status = record p.status { last_step = reason; last_error = error_text failure };
}

-- With a delay the error is not handed on, so that no exponential backoff is added.
abbrev pub requeue_of : Option Err → Option ℕ → Prog Requeue
requeue_of failure (some duration) = pure (some duration)
requeue_of none none = pure none
requeue_of (some x) none = fail x

abbrev pub after_status : Option Err → Option ℕ → Result (Unit {0}) → Prog Requeue
after_status failure duration (err x) = fail x
after_status failure duration (ok _) = requeue_of failure duration

unfoldable pub on_reconcile_error_with_requeue :
    Pattern → String → Option Err → Option ℕ → Prog Requeue
unfolding ask ◌>>=◌
on_reconcile_error_with_requeue p reason failure duration = do
  updated ← ask (update_pattern_status (with_step p reason failure))
  after_status failure duration updated

-- The delays are a minute after an error, and two while the pattern is being deleted.
unfoldable pub action_performed : Pattern → String → Option Err → Prog Requeue
action_performed p reason (some x) = on_reconcile_error_with_requeue p reason (some x) (some 60)
action_performed p reason none =
    if is_being_deleted p
    then on_reconcile_error_with_requeue p reason none (some 120)
    else on_reconcile_error_with_requeue p reason none none

-- A stage ends the reconciliation with a result, or lets it go on. An error of `actionPerformed` ends
-- it too.
abbrev pub Stage : Type 0
Stage = Prog (Option Requeue)

unfoldable pub done : Pattern → String → Option Err → Stage
unfolding ◌>>=◌
done p reason failure = do result ← action_performed p reason failure; pure (some result)

abbrev pub go_on : Stage
go_on = pure none

-- A stage after a stage.
abbrev pub and_then : Stage → Option Requeue → Stage
and_then next (some result) = pure (some result)
and_then next none = next

-- `if err := m(); err != nil { return actionPerformed(p, reason, err) }`
abbrev pub checked_result : {A : Type 0} → Pattern → String → (A → Stage) → Result A → Stage
checked_result p reason k (ok a) = k a
checked_result p reason k (err x) = done p reason (some x)

unfoldable pub checked : {A : Type 0} → Pattern → String → Prog A → (A → Stage) → Stage
checked p reason m k = attempt m >>= checked_result p reason k

-- The pattern after a failed update: its version is counted up.
abbrev pub with_next_version : Pattern → Option Err → Pattern
with_next_version p none = p
with_next_version p (some x) = record p {
  status = record p.status { version = 1 + p.status.version };
}
