-- ===== src/Acm.antt =====
-- Advanced Cluster Management (internal/controller/acm.go): the hub and its managed clusters.
pub mod Deletes
use patterns_operator.Prelude.{
  ℕ, ◌+◌, String, Bool, false, List, [], ◌∷◌, ◌==◌, ◌^◌, equal_fold, if◌then◌else◌,
}
use patterns_operator.Errors.{Result, ok, err, wrap, is_not_found}
use patterns_operator.Api.{annotation}
use patterns_operator.Cluster.{
  Prog, pure, fail, ask, ◌>>=◌, get_multi_cluster_hub, list_managed_clusters as list_request,
  delete_managed_cluster,
}

abbrev pub local_cluster : String
local_cluster = "local-cluster"

abbrev pub is_managed_hub : Result (List (String × String)) → Bool
is_managed_hub (err _) = false
is_managed_hub (ok annotations) =
    equal_fold (annotation "patterns.gitops.validatedpatterns.io/managed" annotations) "true"

unfoldable pub have_acm_hub : Prog Bool
unfolding ask ◌>>=◌
have_acm_hub = do reply ← ask get_multi_cluster_hub; pure (is_managed_hub reply)

-- The loop of `listManagedClusters`.
unfoldable pub without_local : List String → List String
without_local [] = []
without_local (name ∷ names) =
    let rest = without_local names in if name == local_cluster then rest else name ∷ rest

unfoldable pub list_managed_clusters : Prog (List String)
unfolding ask ◌>>=◌
list_managed_clusters = do
  reply ← ask list_request
  elim reply [
    | ok names ↦ pure (without_local names)
    | err x ↦ fail (wrap ("failed to list ManagedClusters: " ^ x.message) x)
  ]

-- The loop of `deleteManagedClusters`; `count` is `deletedCount`.
unfoldable pub delete_each : ℕ → List String → Prog ℕ
unfolding ask ◌>>=◌
delete_each count [] = pure count
delete_each count (name ∷ names) =
    let skip = delete_each count names in
    let next = delete_each (count + 1) names in
    let send : Prog ℕ = (do
      reply ← ask (delete_managed_cluster name)
      elim reply [
        | ok _ ↦ next
        | err x ↦
            if is_not_found x
            then skip
            else fail (wrap ("failed to delete ManagedCluster " ^ name ^ ": " ^ x.message) x)
      ]) in
    if name == local_cluster then skip else send

unfoldable pub delete_managed_clusters : Prog ℕ
unfolding ask ◌>>=◌
delete_managed_clusters = do
  reply ← ask list_request
  elim reply [
    | ok names ↦ delete_each 0 names
    | err x ↦ fail (wrap ("failed to list ManagedClusters: " ^ x.message) x)
  ]
