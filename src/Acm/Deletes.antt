-- ===== src/Acm/Deletes.antt =====
-- Which managed clusters are deleted (internal/controller/acm.go, deleteManagedClusters).
use patterns_operator.Prelude.{
  ℕ, ◌+◌, String, List, [], ◌∷◌, ◌≡◌, refl, ap, ◌∙◌, length, ◌==◌, Bool-cases, inl, inr, arith,
}
use patterns_operator.Errors.{ok}
use patterns_operator.Cluster.{Request, ask, ◌>>=◌}
use patterns_operator.Cluster.Runs.{Environment, returned, run}
use patterns_operator.Acm.{delete_managed_clusters, delete_each, without_local, local_cluster}

abbrev pub deletions : List String → List Request
deletions [] = []
deletions (name ∷ names) = Request.delete_managed_cluster name ∷ deletions names

module _ {W : Type 0} (answer : Environment W) where
  -- Every deletion succeeds.
  abbrev pub Deletes : Type 0
  Deletes = (name : String) (w : W) → (answer (Request.delete_managed_cluster name) w).0 ≡ ok tt

  delete_each-deletions :
      Deletes
      → (count : ℕ) (names : List String) (w : W)
      → ((run answer (delete_each count names) w).0 ≡ deletions (without_local names))
        × ((run answer (delete_each count names) w).1
            ≡ returned (count + length (without_local names)))
  unfolding run delete_each without_local ask ◌>>=◌
  delete_each-deletions d count [] w = (refl, ap (λ n. returned n) (omega arith))
  delete_each-deletions d count (name ∷ names) w = elim (Bool-cases (name == local_cluster)) [
    | inl e ↦ rw e (delete_each-deletions d count names w)
    | inr e ↦
        let w' = (answer (Request.delete_managed_cluster name) w).1 in
        let (sent, counted) = delete_each-deletions d (count + 1) names w' in
        rw (e, d name w)
          (
            ap (λ rs. Request.delete_managed_cluster name ∷ rs) sent,
            counted ∙ ap (λ n. returned n) (omega arith),
          )
  ]

  -- If the listing gives these names and every deletion succeeds, deleteManagedClusters lists the
  -- clusters, then deletes each but the local one, in the order of the list, and returns how many it
  -- has deleted.
  pub delete_managed_clusters-deletions :
      (names : List String) (w : W)
      → (answer Request.list_managed_clusters w).0 ≡ ok names
      → Deletes
      → ((run answer delete_managed_clusters w).0
          ≡ Request.list_managed_clusters ∷ deletions (without_local names))
        × ((run answer delete_managed_clusters w).1 ≡ returned (length (without_local names)))
  unfolding delete_managed_clusters run ask ◌>>=◌
  delete_managed_clusters-deletions names w listed d =
      let (sent, counted) =
        delete_each-deletions d 0 names (answer Request.list_managed_clusters w).1 in
      rw listed (
        ap (λ rs. Request.list_managed_clusters ∷ rs) sent,
        counted ∙ ap (λ n. returned n) (omega arith),
      )
