-- ===== src/Enqueue.antt =====
-- Which patterns are reconciled after a change of the operator's ConfigMap
-- (internal/controller/pattern_controller.go, enqueuePatternForOperatorConfigMap).
pub mod Exact
use patterns_operator.Prelude.{String, Bool, true, false, ◌&&◌, List, [], ◌∷◌, ◌==◌, if◌then◌else◌}
use patterns_operator.Errors.{Result, ok, err}
use patterns_operator.Api.{Pattern}
use patterns_operator.Defaults.{Env, detect_operator_namespace, operator_config_map}
use patterns_operator.Cluster.{Prog, pure, ask, ◌>>=◌, list_patterns}

-- What is read of the object that changed; the watch never passes nil.
pub record ObjectKey : Type 0 where
  pub name : String
  pub namespace : String

unfoldable pub is_patterns_operator_config_map : Env → ObjectKey → Bool
is_patterns_operator_config_map e obj =
    obj.name == operator_config_map && obj.namespace == detect_operator_namespace e

abbrev pub keys : List Pattern → List ObjectKey
keys [] = []
keys (p ∷ ps) = record { name = p.name; namespace = p.namespace } ∷ keys ps

-- An error of the listing is logged, and nothing is enqueued.
abbrev pub listed_keys : Result (List Pattern) → List ObjectKey
listed_keys (err x) = []
listed_keys (ok patterns) = keys patterns

unfoldable pub enqueue_pattern_for_operator_config_map : Env → ObjectKey → Prog (List ObjectKey)
unfolding ask ◌>>=◌
enqueue_pattern_for_operator_config_map e obj =
    let list : Prog (List ObjectKey) = (do
      listed ← ask (list_patterns (detect_operator_namespace e))
      pure (listed_keys listed)) in
    if is_patterns_operator_config_map e obj then list else pure []
