-- ===== src/Clusters/Keeps.antt =====
-- What `applyDefaults` leaves alone, and what it fills in
-- (internal/controller/pattern_controller.go).
use patterns_operator.Prelude.{
  String, Option, List, [], ◌∷◌, ◌≡◌, refl, ◌==◌, Bool-cases, inl, inr, split,
}
use patterns_operator.Errors.{Err, Result, ok, err}
use patterns_operator.Api.{Pattern}
use patterns_operator.Library.{Library, Version}
use patterns_operator.Defaults.{Env}
use patterns_operator.Cluster.{
  Request, ClusterVersion, get_cluster_version, get_infrastructure, get_ingress,
  remove_local_git_paths,
}
use patterns_operator.Cluster.Runs.{Outcome, returned, failed, panicked, Always, Rely}
use patterns_operator.Clusters.{
  set_checkout_path, with_domain, with_ingress, with_version, with_infrastructure, with_cluster_id,
  apply_defaults, get_current_cluster_version, moved_checkout, with_names, default_spec,
  with_parsed_version,
}

-- The parts of a pattern that the cluster does not determine.
abbrev pub SameIdentity : Pattern → Pattern → Type 0
SameIdentity p q =
    (q.name ≡ p.name)
    × (q.namespace ≡ p.namespace)
    × (q.annotations ≡ p.annotations)
    × (q.finalizers ≡ p.finalizers)
    × (q.deletion_timestamp ≡ p.deletion_timestamp)
    × (q.status.deletion_phase ≡ p.status.deletion_phase)
    × (q.spec.variant ≡ p.spec.variant)
    × (q.uid ≡ p.uid)

abbrev pub Kept : Pattern → Outcome (Pattern × Option Err) → Type 0
Kept p (returned (q, _)) = SameIdentity p q
Kept p (failed _) = ⊥
Kept p panicked = Unit

module _ (G : Rely) (I : Request → Type 0) (version : I get_cluster_version)
    (infrastructure : I get_infrastructure) (ingress : I get_ingress)
    (drop : I remove_local_git_paths) (lib : Library) (e : Env) (p : Pattern) where
  set_checkout_path-keeps :
      (q : Pattern) → SameIdentity p q → Always G I (Kept p) (set_checkout_path lib e q)
  unfolding set_checkout_path
  set_checkout_path-keeps q h =
      elim (Bool-cases
        ((moved_checkout lib e q).status.local_checkout_path == q.status.local_checkout_path)) [
          | inl b ↦ rw b h
          | inr b ↦ rw b (drop, λ x g. h)
        ]

  with_ingress-keeps :
      (q : Pattern) (r : Result String)
      → SameIdentity p q
      → Always G I (Kept p) (with_ingress lib e q r)
  unfolding with_ingress default_spec
  with_ingress-keeps q (err x) h = h
  with_ingress-keeps q (ok domain) h = parts (split domain b'.')
    where
      parts : (ss : List String) → Always G I (Kept p) (with_domain lib e q domain ss)
      parts [] = tt
      parts (a ∷ []) = tt
      parts (a ∷ n ∷ rest) = set_checkout_path-keeps (with_names lib q domain n rest) h

  with_version-keeps :
      (q : Pattern) (r : Result ClusterVersion)
      → SameIdentity p q
      → Always G I (Kept p) (with_version lib e q r)
  unfolding with_version
  with_version-keeps q (err x) h = h
  with_version-keeps q (ok cv) h = parsed (get_current_cluster_version lib cv)
    where
      parsed : (v : Result Version) → Always G I (Kept p) (with_parsed_version lib e q v)
      parsed (err x) = h
      parsed (ok v) = (ingress, λ x g. with_ingress-keeps _ x h)

  with_infrastructure-keeps :
      (q : Pattern) (r : Result String)
      → SameIdentity p q
      → Always G I (Kept p) (with_infrastructure lib e q r)
  unfolding with_infrastructure
  with_infrastructure-keeps q (err x) h = h
  with_infrastructure-keeps q (ok platform) h = (version, λ x g. with_version-keeps _ x h)

  with_cluster_id-keeps :
      (q : Pattern) (r : Result ClusterVersion)
      → SameIdentity p q
      → Always G I (Kept p) (with_cluster_id lib e q r)
  unfolding with_cluster_id
  with_cluster_id-keeps q (err x) h = h
  with_cluster_id-keeps q (ok cv) h = (infrastructure, λ x g. with_infrastructure-keeps _ x h)

  -- Only the four requests are sent, and the copy keeps the identity, also where an error cuts it short.
  pub apply_defaults-keeps : Always G I (Kept p) (apply_defaults lib e p)
  unfolding apply_defaults
  apply_defaults-keeps =
      (version, λ x g. with_cluster_id-keeps p x (refl, refl, refl, refl, refl, refl, refl, refl))
