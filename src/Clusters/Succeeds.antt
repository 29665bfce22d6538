-- ===== src/Clusters/Succeeds.antt =====
-- When `applyDefaults` gives no error (internal/controller/pattern_controller.go).
use patterns_operator.Prelude.{
  String, Option, none, List, [], ◌∷◌, ◌≡◌, refl, ◌==◌, Bool-cases, inl, inr, split,
}
use patterns_operator.Errors.{Err, Result, ok, err}
use patterns_operator.Api.{Pattern}
use patterns_operator.Library.{Library, Version}
use patterns_operator.Defaults.{Env}
use patterns_operator.Cluster.{Request, Reply, ClusterVersion}
use patterns_operator.Cluster.Runs.{Outcome, returned, failed, panicked, Always, Rely, AnyRequest}
use patterns_operator.Clusters.{
  set_checkout_path, with_domain, with_ingress, with_version, with_infrastructure, with_cluster_id,
  apply_defaults, get_current_cluster_version, with_parsed_version, moved_checkout, with_names,
}

abbrev pub Succeeded : {A : Type 0} → Result A → Type 0
Succeeded (ok _) = Unit
Succeeded (err _) = ⊥

abbrev pub HasVersion : Library → Result ClusterVersion → Type 0
HasVersion lib (ok cv) = Succeeded (get_current_cluster_version lib cv)
HasVersion lib (err _) = ⊥

-- The cluster answers the questions about itself, and its version can be parsed.
abbrev pub Healthy : Library → (r : Request) → Reply r → Type 0
Healthy lib Request.get_cluster_version x = HasVersion lib x
Healthy lib Request.get_infrastructure x = Succeeded x
Healthy lib Request.get_ingress x = Succeeded x
Healthy lib _ x = Unit

-- There is no error; a domain without a dot panics.
abbrev pub Defaulted : Outcome (Pattern × Option Err) → Type 0
Defaulted (returned (q, failure)) = failure ≡ none
Defaulted (failed _) = ⊥
Defaulted panicked = Unit

module _ (G : Rely) (lib : Library)
    (healthy : (r : Request) (x : Reply r) → G r x → Healthy lib r x) (e : Env) where
  set_checkout_path-succeeds :
      (q : Pattern) → Always G AnyRequest Defaulted (set_checkout_path lib e q)
  unfolding set_checkout_path
  set_checkout_path-succeeds q =
      elim (Bool-cases
        ((moved_checkout lib e q).status.local_checkout_path == q.status.local_checkout_path)) [
          | inl b ↦ rw b refl
          | inr b ↦ rw b (tt, λ x g. refl)
        ]

  with_ingress-succeeds :
      (q : Pattern) (r : Result String)
      → Succeeded r
      → Always G AnyRequest Defaulted (with_ingress lib e q r)
  unfolding with_ingress
  with_ingress-succeeds q (err x) h = absurd h
  with_ingress-succeeds q (ok domain) h = parts (split domain b'.')
    where
      parts : (ss : List String) → Always G AnyRequest Defaulted (with_domain lib e q domain ss)
      parts [] = tt
      parts (a ∷ []) = tt
      parts (a ∷ n ∷ rest) = set_checkout_path-succeeds (with_names lib q domain n rest)

  with_version-succeeds :
      (q : Pattern) (r : Result ClusterVersion)
      → HasVersion lib r
      → Always G AnyRequest Defaulted (with_version lib e q r)
  unfolding with_version
  with_version-succeeds q (err x) h = absurd h
  with_version-succeeds q (ok cv) h = parsed (get_current_cluster_version lib cv) h
    where
      parsed :
          (v : Result Version)
          → Succeeded v
          → Always G AnyRequest Defaulted (with_parsed_version lib e q v)
      parsed (err x) k = absurd k
      parsed (ok v) k = (tt, λ x g. with_ingress-succeeds _ x (healthy Request.get_ingress x g))

  with_infrastructure-succeeds :
      (q : Pattern) (r : Result String)
      → Succeeded r
      → Always G AnyRequest Defaulted (with_infrastructure lib e q r)
  unfolding with_infrastructure
  with_infrastructure-succeeds q (err x) h = absurd h
  with_infrastructure-succeeds q (ok platform) h =
      (tt, λ x g. with_version-succeeds _ x (healthy Request.get_cluster_version x g))

  with_cluster_id-succeeds :
      (q : Pattern) (r : Result ClusterVersion)
      → HasVersion lib r
      → Always G AnyRequest Defaulted (with_cluster_id lib e q r)
  unfolding with_cluster_id
  with_cluster_id-succeeds q (err x) h = absurd h
  with_cluster_id-succeeds q (ok cv) h =
      (tt, λ x g. with_infrastructure-succeeds _ x (healthy Request.get_infrastructure x g))

  pub apply_defaults-succeeds :
      (p : Pattern) → Always G AnyRequest Defaulted (apply_defaults lib e p)
  unfolding apply_defaults
  apply_defaults-succeeds p =
      (tt, λ x g. with_cluster_id-succeeds p x (healthy Request.get_cluster_version x g))
