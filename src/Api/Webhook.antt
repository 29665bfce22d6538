-- ===== src/Api/Webhook.antt =====
-- The admission webhook (api/v1alpha1/pattern_webhook.go).
pub mod Singleton
use patterns_operator.Prelude.{
  String, Bool, true, false, not, ◌&&◌, List, [], ◌∷◌, ◌==◌, ◌^◌, equal_fold, if◌then◌else◌,
}
use patterns_operator.Errors.{Err, Result, ok, err, errorf}
use patterns_operator.Api.{Pattern, annotation, prune_annotation}
use patterns_operator.Cluster.{Prog, pure, fail, ask, ◌>>=◌, ◌>>◌, list_patterns, from_result}

-- A `runtime.Object`: a Pattern, or an object of another type, of which only the type's name is read.
pub data Object : Type 0 where
  pattern_object : Pattern → Object
  foreign_object : String → Object

unfoldable pub convert_to_pattern : Object → Result Pattern
convert_to_pattern (pattern_object p) = ok p
convert_to_pattern (foreign_object kind) =
    err (errorf ("expected a Pattern object but got " ^ kind))

unfoldable pub validate_variant_alias : Pattern → Result (Unit {0})
validate_variant_alias p =
    if p.spec.cluster_group_name == "" && p.spec.variant == ""
    then err (errorf "one of spec.variant or spec.clusterGroupName must be set")
    else ok tt

-- The answer to the listing.
unfoldable pub admit_listed : Result (List Pattern) → Prog (Unit {0})
admit_listed (err x) = fail (errorf ("failed to list Pattern resources: " ^ x.message))
admit_listed (ok []) = pure tt
admit_listed (ok (p ∷ ps)) = fail (errorf "only one Pattern resource is allowed")

unfoldable pub validate_create : Object → Prog (Unit {0})
unfolding ask ◌>>=◌
validate_create obj = do
  p ← from_result (convert_to_pattern obj)
  from_result (validate_variant_alias p)
  listed ← ask (list_patterns "")
  admit_listed listed

unfoldable pub validate_update : Object → Result (Unit {0})
validate_update obj = elim (convert_to_pattern obj) [
  | err x ↦ err x
  | ok p ↦ validate_variant_alias p
]

unfoldable pub validate_pruning : Pattern → Result (Unit {0})
validate_pruning p =
    if not (equal_fold (annotation prune_annotation p.annotations) "true")
    then err (
        errorf (
          "deletion denied: set the annotation " ^ prune_annotation ^ "=\"true\" on the pattern \""
          ^ p.name ^ "\" CR in the \"" ^ p.namespace ^ "\" namespace before deleting"))
    else ok tt

unfoldable pub validate_delete : Object → Result (Unit {0})
validate_delete obj = elim (convert_to_pattern obj) [ err x ↦ err x | ok p ↦ validate_pruning p ]
