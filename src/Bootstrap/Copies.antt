-- ===== src/Bootstrap/Copies.antt =====
-- What the copy of the repository secret writes (internal/controller/pattern_controller.go,
-- copyAuthGitSecret).
use patterns_operator.Prelude.{
  String, Bool, true, false, [], ◌∷◌, ◌≡◌, refl, All, Bool-cases, inl, inr,
}
use patterns_operator.Errors.{Err, Result, ok, err, is_not_found}
use patterns_operator.Cluster.{Request, Secret, ask, from_result, ◌>>=◌}
use patterns_operator.Cluster.Runs.{Outcome, Environment, Rely, KeepsTo, Always, Always-run, run}
use patterns_operator.Bootstrap.{
  copy_auth_git_secret, auth_git_from_secret, create_or_update_copy, create_if_missing, stored,
  compare_maps, new_secret,
}

-- The source secret, whenever it is read, is the given one.
abbrev pub Holds : String → String → Secret → Rely
Holds ns name source (Request.get_secret n s) x = n ≡ ns → s ≡ name → x ≡ ok source
Holds ns name source r x = Unit

-- What the copy holds.
pub record IsCopy (source : Secret) (ns name : String) (c : Secret) : Type 0 where
  pub named : c.name ≡ name
  pub placed : c.namespace ≡ ns
  pub labelled : c.labels ≡ ("argocd.argoproj.io/secret-type", "repository") ∷ []
  pub filled : c.data_map ≡ source.data_map

-- Reads of secrets, and writes of the copy: the source's data under the destination's name and
-- namespace, with the label that makes it a repository of Argo CD.
abbrev pub WritesCopy : Secret → String → String → Request → Type 0
WritesCopy source ns name (Request.get_secret n s) = Unit
WritesCopy source ns name (Request.create_secret c) = IsCopy source ns name c
WritesCopy source ns name (Request.update_secret c) = IsCopy source ns name c
WritesCopy source ns name _ = ⊥

abbrev AnyOutcome : {A : Type 0} → Outcome A → Type 0
AnyOutcome o = Unit

module _ (secret_namespace secret_name dest_namespace dest_name : String) (source : Secret) where
  abbrev G : Rely
  G = Holds secret_namespace secret_name source

  abbrev I : Request → Type 0
  I = WritesCopy source dest_namespace dest_name

  stored-writes : (c : Secret) (r : Result Secret) → Always G I AnyOutcome (stored c r)
  stored-writes c (err x) = tt
  stored-writes c (ok updated) = elim (Bool-cases (compare_maps c.data_map updated.data_map)) [
    | inl e ↦ rw e tt
    | inr e ↦ rw e tt
  ]

  abbrev copy : Secret
  copy =
      new_secret dest_name dest_namespace source.data_map
        (("argocd.argoproj.io/secret-type", "repository") ∷ [])

  is_copy : IsCopy source dest_namespace dest_name copy
  is_copy = record { named = refl; placed = refl; labelled = refl; filled = refl }

  created : (r : Result (Unit {0})) → Always G I AnyOutcome (from_result r)
  created (ok u) = tt
  created (err x) = tt

  create_if_missing-writes :
      (x : Err) (b : Bool) → Always G I AnyOutcome (create_if_missing copy x b)
  unfolding ask ◌>>=◌
  create_if_missing-writes x true = (is_copy, λ y g. created y)
  create_if_missing-writes x false = tt

  create_or_update_copy-writes :
      (r : Result Secret) → Always G I AnyOutcome (create_or_update_copy copy r)
  unfolding ask ◌>>=◌
  create_or_update_copy-writes (ok s) = (is_copy, λ x g. stored-writes copy x)
  create_or_update_copy-writes (err x) = create_if_missing-writes x (is_not_found x)

  -- If the source secret is the given one whenever it is read: copying it sends reads of secrets and
  -- writes of the copy alone, which has the source's data, the destination's name and namespace, and
  -- the label for Argo CD; no other secret is written.
  pub copy_auth_git_secret-WritesCopy :
      {W : Type 0} (answer : Environment W) (w : W)
      → KeepsTo (Holds secret_namespace secret_name source) answer
      → All
          (WritesCopy source dest_namespace dest_name)
          (run answer
            (copy_auth_git_secret secret_namespace secret_name dest_namespace dest_name)
            w).0
  unfolding copy_auth_git_secret auth_git_from_secret ask ◌>>=◌
  copy_auth_git_secret-WritesCopy answer w keeps =
      (Always-run answer G keeps I AnyOutcome _
        (
          tt,
          λ r holds. rw (holds refl refl) (tt, λ existing g. create_or_update_copy-writes existing),
        )
        w).0
