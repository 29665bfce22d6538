-- ===== src/Watch.antt =====
-- The watch on the Argo CD instances (internal/controller/pattern_controller.go, startArgoCDWatch).
use patterns_operator.Prelude.{Bool, true, false, not, ◌||◌, List, [], ◌==◌, if◌then◌else◌}
use patterns_operator.Errors.{Result, ok, err}
use patterns_operator.Defaults.{ActiveArgo}
use patterns_operator.Bootstrap.{check_api_version}
use patterns_operator.Enqueue.{ObjectKey, listed_keys}
use patterns_operator.Cluster.{Prog, pure, ask, attempt, ◌>>=◌, list_patterns, watch_argo_cds}

-- Whether the watch has been started, afterwards.
abbrev watched : Result (Unit {0}) → Prog Bool
watched (ok _) = pure true
watched (err x) = pure false

abbrev with_api : Result (Unit {0}) → Prog Bool
with_api (err x) = pure false
with_api (ok _) = ask watch_argo_cds >>= watched

-- The field `argoCDWatchStarted` before and after.
unfoldable pub start_argo_cd_watch : Bool → Prog Bool
start_argo_cd_watch true = pure true
start_argo_cd_watch false = attempt (check_api_version "argoproj.io" "v1beta1") >>= with_api

-- What the watch enqueues: the patterns of all namespaces, if the instance is the operator's.
unfoldable pub enqueue_patterns_for_argo_cd : ActiveArgo → ObjectKey → Prog (List ObjectKey)
unfolding ask ◌>>=◌
enqueue_patterns_for_argo_cd active obj =
    let list : Prog (List ObjectKey) = (do
      listed ← ask (list_patterns "")
      pure (listed_keys listed)) in
    if not (obj.name == active.name) || not (obj.namespace == active.namespace)
    then pure []
    else list
