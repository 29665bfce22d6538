-- ===== src/Enqueue/Exact.antt =====
-- Which changes enqueue a pattern (internal/controller/pattern_controller.go).
use patterns_operator.Prelude.{
  true, false, List, [], ◌∷◌, map, ap, ◌≡◌, ◌↔◌, ◌⊎◌, inl, inr, refl, eq_iff, arith, Bool-cases,
}
use patterns_operator.Errors.{ok}
use patterns_operator.Api.{Pattern}
use patterns_operator.Defaults.{Env, detect_operator_namespace, operator_config_map}
use patterns_operator.Cluster.{Request, ask, ◌>>=◌}
use patterns_operator.Cluster.Runs.{Environment, returned, run}
use patterns_operator.Enqueue.{
  ObjectKey, is_patterns_operator_config_map, keys, enqueue_pattern_for_operator_config_map,
}

-- The object is the operator's ConfigMap.
abbrev pub IsConfigMap : Env → ObjectKey → Type 0
IsConfigMap e obj = (obj.name ≡ operator_config_map) × (obj.namespace ≡ detect_operator_namespace e)

is_patterns_operator_config_map_iff :
    (e : Env) (obj : ObjectKey) → (is_patterns_operator_config_map e obj ≡ true) ↔ IsConfigMap e obj
unfolding is_patterns_operator_config_map
is_patterns_operator_config_map_iff e obj =
    ground (
      arith,
      eq_iff obj.name operator_config_map,
      eq_iff obj.namespace (detect_operator_namespace e),
    )

-- The requests for all listed patterns, in their order.
keys-all :
    (patterns : List Pattern)
    → keys patterns ≡ map (λ p. record { name = p.name; namespace = p.namespace }) patterns
keys-all [] = refl
keys-all (p ∷ ps) = ap (λ ks. record { name = p.name; namespace = p.namespace } ∷ ks) (keys-all ps)

-- The enqueued keys are those of the listed patterns after a change of the ConfigMap, and none after a
-- change of another object, of which nothing is read.
abbrev pub EnqueuesListed :
    {W : Type 0} → Environment W → Env → ObjectKey → List Pattern → W → Type 0
EnqueuesListed answer e obj patterns w =
    let m = enqueue_pattern_for_operator_config_map e obj in
    (IsConfigMap e obj
      × ((run answer m w).1
          ≡ returned (map (λ p. record { name = p.name; namespace = p.namespace }) patterns)))
    ⊎ (¬ IsConfigMap e obj × ((run answer m w).0 ≡ []) × ((run answer m w).1 ≡ returned []))

-- If the listing of the patterns in the operator's namespace gives these patterns: a change of the
-- operator's ConfigMap enqueues exactly their names with their namespaces, in the order of the listing, and a change of any other object enqueues nothing
-- and sends no request.
pub enqueue-EnqueuesListed :
    {W : Type 0} (answer : Environment W) (e : Env) (obj : ObjectKey) (patterns : List Pattern)
    (w : W)
    → (answer (Request.list_patterns (detect_operator_namespace e)) w).0 ≡ ok patterns
    → EnqueuesListed answer e obj patterns w
unfolding enqueue_pattern_for_operator_config_map run ask ◌>>=◌
enqueue-EnqueuesListed answer e obj patterns w h =
    elim (Bool-cases (is_patterns_operator_config_map e obj)) [
      | inl b ↦ inl (
        (is_patterns_operator_config_map_iff e obj).0 b,
        rw (b, h) (ap (λ ks. returned ks) (keys-all patterns)),
      )
      | inr b ↦ inr (
        (λ i. contrary ((is_patterns_operator_config_map_iff e obj).1 i) b),
        rw b refl,
        rw b refl,
      )
    ]
  where
    contrary :
        is_patterns_operator_config_map e obj ≡ true
        → is_patterns_operator_config_map e obj ≡ false
        → ⊥
    contrary p q = absurd (cc)
