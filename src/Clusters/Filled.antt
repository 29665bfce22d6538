-- ===== src/Clusters/Filled.antt =====
-- What `applyDefaults` has filled in (internal/controller/pattern_controller.go), so that the
-- construction of the Application can read it.
use patterns_operator.Prelude.{
  String, Bool, true, false, Option, none, some, List, [], ◌∷◌, ◌≡◌, ◌≢◌, refl, subst, ◌==◌,
  Bool-cases, inl, inr, eq_iff, split, or_else, if◌then◌else◌,
}
use patterns_operator.Errors.{Err, Result, ok, err}
use patterns_operator.Api.{Pattern, PatternSpec, GitOpsConfig, PatternStatus}
use patterns_operator.Library.{Library, Version}
use patterns_operator.Defaults.{Env}
use patterns_operator.GitUrl.{get_local_git_path}
use patterns_operator.Cluster.{ClusterVersion}
use patterns_operator.Cluster.Runs.{
  Outcome, returned, failed, panicked, Environment, Always, AnyReply, AnyRequest, Always-run, run,
}
use patterns_operator.Clusters.{
  set_checkout_path, with_domain, with_ingress, with_version, with_infrastructure, with_cluster_id,
  apply_defaults, get_current_cluster_version, moved_checkout, with_names, default_spec,
  default_git_config, default_multi_source, with_parsed_version, default_text,
}

module _ (lib : Library) (e : Env) where
  -- The fields that the spec lacked are there: the variant stands in for the cluster group, the flag
  -- for several sources and the GitOps configuration are not nil, the revisions are not empty; and the
  -- local checkout is that of the target repository.
  pub record IsFilled (s : PatternSpec) (q : Pattern) : Type 0 where
    pub multi_source : Bool
    pub git_ops : GitOpsConfig
    pub enabled : q.spec.multi_source_config.enabled ≡ some multi_source
    pub configured : q.spec.git_ops_config ≡ some git_ops
    pub group :
        q.spec.cluster_group_name ≡ (if s.variant == "" then s.cluster_group_name else s.variant)
    pub target : q.spec.git_config.target_revision ≢ ""
    pub origin : q.spec.git_config.origin_revision ≢ ""
    pub checkout :
        q.status.local_checkout_path ≡ get_local_git_path lib e q.spec.git_config.target_repo

  abbrev pub FilledUnlessFailed : PatternSpec → Outcome (Pattern × Option Err) → Type 0
  FilledUnlessFailed s (returned (q, none)) = IsFilled s q
  FilledUnlessFailed s (returned (q, some x)) = Unit
  FilledUnlessFailed s (failed x) = ⊥
  FilledUnlessFailed s panicked = Unit

  present : {A : Type 0} (o : Option A) (d : A) → (a : A) × (or_else o (some d) ≡ some a)
  present none d = (d, refl)
  present (some a) d = (a, refl)

  head_named : (h : String) → h ≡ "HEAD" → h ≢ ""
  head_named h p q = absurd (false-true (subst (λ x. x == "" ≡ true) p ((eq_iff h "").1 q)))
    where
      false-true : false ≢ true
      false-true r = absurd (cc)

  default_text-named : (s : String) → default_text s "HEAD" ≢ ""
  default_text-named s h = elim (Bool-cases (s == "")) [
    | inl b ↦ head_named (default_text s "HEAD") (rw b refl) h
    | inr b ↦ unequal ((eq_iff s "").1 (rw b at h)) b
  ]
    where
      unequal : s == "" ≡ true → s == "" ≢ false
      unequal p q = absurd (cc)

module _ (lib : Library) (e : Env) (p : Pattern) where
  moved-IsFilled :
      (st : PatternStatus)
      → IsFilled lib e p.spec
          (moved_checkout lib e (record p { status = st; spec = default_spec lib p.spec }))
  unfolding default_spec default_git_config default_multi_source
  moved-IsFilled st = record {
    multi_source = (present lib e p.spec.multi_source_config.enabled true).0;
    git_ops = (present lib e p.spec.git_ops_config (record { manual_sync = false })).0;
    enabled = (present lib e p.spec.multi_source_config.enabled true).1;
    configured = (present lib e p.spec.git_ops_config (record { manual_sync = false })).1;
    group = refl;
    target = default_text-named lib e p.spec.git_config.target_revision;
    origin = default_text-named lib e p.spec.git_config.origin_revision;
    checkout = refl;
  }

  set_checkout_path-filled :
      (st : PatternStatus)
      → Always AnyReply AnyRequest
          (FilledUnlessFailed lib e p.spec)
          (set_checkout_path lib e (record p { status = st; spec = default_spec lib p.spec }))
  unfolding set_checkout_path
  set_checkout_path-filled st =
      elim (Bool-cases (
        (moved_checkout lib e
          (record p { status = st; spec = default_spec lib p.spec })).status.local_checkout_path
        == st.local_checkout_path)) [
          | inl b ↦ rw b (moved-IsFilled st)
          | inr b ↦ rw b (tt, λ x g. moved-IsFilled st)
        ]

  with_ingress-filled :
      (st : PatternStatus) (r : Result String)
      → Always AnyReply AnyRequest
          (FilledUnlessFailed lib e p.spec)
          (with_ingress lib e (record p { status = st }) r)
  unfolding with_ingress
  with_ingress-filled st (err x) = tt
  with_ingress-filled st (ok domain) = parts (split domain b'.')
    where
      parts :
          (ss : List String)
          → Always AnyReply AnyRequest
              (FilledUnlessFailed lib e p.spec)
              (with_domain lib e (record p { status = st }) domain ss)
      parts [] = tt
      parts (a ∷ []) = tt
      parts (a ∷ n ∷ rest) =
          set_checkout_path-filled (with_names lib (record p { status = st }) domain n rest).status

  with_version-filled :
      (st : PatternStatus) (r : Result ClusterVersion)
      → Always AnyReply AnyRequest
          (FilledUnlessFailed lib e p.spec)
          (with_version lib e (record p { status = st }) r)
  unfolding with_version
  with_version-filled st (err x) = tt
  with_version-filled st (ok cv) = parsed (get_current_cluster_version lib cv)
    where
      parsed :
          (v : Result Version)
          → Always AnyReply AnyRequest
              (FilledUnlessFailed lib e p.spec)
              (with_parsed_version lib e (record p { status = st }) v)
      parsed (err x) = tt
      parsed (ok v) = (tt, λ x g. with_ingress-filled _ x)

  with_infrastructure-filled :
      (st : PatternStatus) (r : Result String)
      → Always AnyReply AnyRequest
          (FilledUnlessFailed lib e p.spec)
          (with_infrastructure lib e (record p { status = st }) r)
  unfolding with_infrastructure
  with_infrastructure-filled st (err x) = tt
  with_infrastructure-filled st (ok platform) = (tt, λ x g. with_version-filled _ x)

  with_cluster_id-filled :
      (r : Result ClusterVersion)
      → Always AnyReply AnyRequest (FilledUnlessFailed lib e p.spec) (with_cluster_id lib e p r)
  unfolding with_cluster_id
  with_cluster_id-filled (err x) = tt
  with_cluster_id-filled (ok cv) = (tt, λ x g. with_infrastructure-filled _ x)

  -- Whatever answers: where `applyDefaults` returns a pattern without an error, its spec is filled in as
  -- `IsFilled` says, the variant taking precedence over the cluster group name, so that none of the
  -- fields that the construction of the Application dereferences is nil.
  pub apply_defaults-FilledUnlessFailed :
      {W : Type 0} (answer : Environment W) (w : W)
      → FilledUnlessFailed lib e p.spec (run answer (apply_defaults lib e p) w).1
  unfolding apply_defaults
  apply_defaults-FilledUnlessFailed answer w =
      (Always-run answer AnyReply (λ r w. tt) AnyRequest (FilledUnlessFailed lib e p.spec) _
        (tt, λ x g. with_cluster_id-filled x) w).1
