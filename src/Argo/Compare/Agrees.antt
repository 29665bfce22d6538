-- ===== src/Argo/Compare/Agrees.antt =====
-- The comparison of internal/controller/argo.go against an independent description.
use patterns_operator.Prelude.{
  true, Option, none, some, List, [], ◌∷◌, ◌≡◌, ◌↔◌, refl, sym, ap, suc, arith, eq_iff, length,
}
use patterns_operator.Argo.{
  Slice, ApplicationSourceHelm, ApplicationSource, Application, ApplicationSpec,
}
use patterns_operator.Argo.Compare.{
  compare_helm_source, compare_helm, compare_source, compare_source_list, compare_sources,
  compare_application,
}
use patterns_operator.Argo.Compare.Fields.{
  OptionAgrees, SyncPolicyAgrees, sync_policy_iff, value_files_iff, helm_parameters_iff,
}

-- What of two Helm sources has to agree: the value files and the parameters, in order. The inline
-- values are not compared.
pub record HelmAgrees (a b : ApplicationSourceHelm) : Type 0 where
  pub value_files : a.value_files ≡ b.value_files
  pub parameters : a.parameters ≡ b.parameters

-- What of two sources has to agree; the chart and the reference name are not compared.
pub record SourceAgrees (a b : ApplicationSource) : Type 0 where
  pub repo_url : a.repo_url ≡ b.repo_url
  pub target_revision : a.target_revision ≡ b.target_revision
  pub path : a.path ≡ b.path
  pub helm : OptionAgrees HelmAgrees a.helm b.helm

abbrev pub ListAgrees : {A : Type 0} → (A → A → Type 0) → List A → List A → Type 0
ListAgrees R [] [] = Unit
ListAgrees R [] (y ∷ ys) = ⊥
ListAgrees R (x ∷ xs) [] = ⊥
ListAgrees R (x ∷ xs) (y ∷ ys) = R x y × ListAgrees R xs ys

-- Two slices of sources: both nil, or neither empty and equal position by position.
abbrev pub SourcesAgree : Slice ApplicationSource → Slice ApplicationSource → Type 0
SourcesAgree none none = Unit
SourcesAgree none (some b) = ⊥
SourcesAgree (some a) none = ⊥
SourcesAgree (some a) (some []) = ⊥
SourcesAgree (some a) (some (y ∷ ys)) = ListAgrees SourceAgrees a (y ∷ ys)

pub record SpecAgrees (a b : ApplicationSpec) : Type 0 where
  pub source : OptionAgrees SourceAgrees a.source b.source
  pub sources : SourcesAgree a.sources b.sources
  pub sync_policy : OptionAgrees SyncPolicyAgrees a.sync_policy b.sync_policy

helm_sound :
    (a b : Option ApplicationSourceHelm) → compare_helm a b ≡ true → OptionAgrees HelmAgrees a b
unfolding compare_helm compare_helm_source
helm_sound none none h = tt
helm_sound none (some b) h = absurd (cc)
helm_sound (some a) none h = absurd (cc)
helm_sound (some a) (some b) h = ground (
  arith,
  value_files_iff a.value_files b.value_files,
  helm_parameters_iff a.parameters b.parameters,
)

helm_complete :
    (a b : Option ApplicationSourceHelm) → OptionAgrees HelmAgrees a b → compare_helm a b ≡ true
unfolding compare_helm compare_helm_source
helm_complete none none h = refl
helm_complete none (some b) h = elim h [ ]
helm_complete (some a) none h = elim h [ ]
helm_complete (some a) (some b) h = ground (
  arith,
  value_files_iff a.value_files b.value_files,
  helm_parameters_iff a.parameters b.parameters,
)

source_sound :
    (a b : ApplicationSource) → compare_source (some a) (some b) ≡ true → SourceAgrees a b
unfolding compare_source
source_sound a b h = record {
  repo_url = ground (arith, eq_iff a.repo_url b.repo_url);
  target_revision = ground (arith, eq_iff a.target_revision b.target_revision);
  path = ground (arith, eq_iff a.path b.path);
  helm = helm_sound a.helm b.helm (ground arith);
}

source_complete :
    (a b : ApplicationSource) → SourceAgrees a b → compare_source (some a) (some b) ≡ true
unfolding compare_source
source_complete a b h = ground (
  arith,
  eq_iff a.repo_url b.repo_url,
  eq_iff a.target_revision b.target_revision,
  eq_iff a.path b.path,
  helm_complete a.helm b.helm h.helm,
)

SourceAgrees-symm : (a b : ApplicationSource) → SourceAgrees a b → SourceAgrees b a
SourceAgrees-symm a b h = record {
  repo_url = sym h.repo_url;
  target_revision = sym h.target_revision;
  path = sym h.path;
  helm = helm_symm a.helm b.helm h.helm;
}
  where
    helm_symm :
        (x y : Option ApplicationSourceHelm)
        → OptionAgrees HelmAgrees x y
        → OptionAgrees HelmAgrees y x
    helm_symm none none k = k
    helm_symm none (some y) k = k
    helm_symm (some x) none k = k
    helm_symm (some x) (some y) k = record {
      value_files = sym k.value_files;
      parameters = sym k.parameters;
    }

source_option_iff :
    (a b : Option ApplicationSource) → (compare_source a b ≡ true) ↔ OptionAgrees SourceAgrees a b
unfolding compare_source
source_option_iff none none = (λ _. tt, λ _. refl)
source_option_iff none (some b) = (λ h. absurd (cc), λ h. absurd h)
source_option_iff (some a) none = (λ h. absurd (cc), λ h. absurd h)
source_option_iff (some a) (some b) = (source_sound a b, source_complete a b)

source_list_sound :
    (a b : List ApplicationSource)
    → length b ≡ length a
    → compare_source_list a b ≡ true
    → ListAgrees SourceAgrees a b
unfolding compare_source_list
source_list_sound [] [] l h = tt
source_list_sound [] (y ∷ ys) l h = absurd (omega arith)
source_list_sound (x ∷ xs) [] l h = absurd (omega arith)
source_list_sound (x ∷ xs) (y ∷ ys) l h = (
  SourceAgrees-symm y x (source_sound y x (ground arith)),
  source_list_sound xs ys (omega arith) (ground arith),
)

source_list_complete :
    (a b : List ApplicationSource)
    → ListAgrees SourceAgrees a b
    → (length b ≡ length a) × (compare_source_list a b ≡ true)
unfolding compare_source_list
source_list_complete [] [] h = (refl, refl)
source_list_complete [] (y ∷ ys) h = elim h [ ]
source_list_complete (x ∷ xs) [] h = elim h [ ]
source_list_complete (x ∷ xs) (y ∷ ys) h =
    let (l, e) = source_list_complete xs ys h.1 in
    (ap suc l, rw (source_complete y x (SourceAgrees-symm x y h.0)) e)

sources_sound : (a b : Slice ApplicationSource) → compare_sources a b ≡ true → SourcesAgree a b
unfolding compare_sources
sources_sound none none h = tt
sources_sound none (some b) h = absurd (cc)
sources_sound (some a) none h = absurd (cc)
sources_sound (some a) (some []) h = absurd (cc)
sources_sound (some a) (some (y ∷ ys)) h =
    source_list_sound a (y ∷ ys) (ground arith) (ground arith)

sources_complete : (a b : Slice ApplicationSource) → SourcesAgree a b → compare_sources a b ≡ true
unfolding compare_sources
sources_complete none none h = refl
sources_complete none (some b) h = elim h [ ]
sources_complete (some a) none h = elim h [ ]
sources_complete (some a) (some []) h = elim h [ ]
sources_complete (some a) (some (y ∷ ys)) h = ground (arith, source_list_complete a (y ∷ ys) h)

-- `compareApplication` holds exactly when the two specs agree on the source, on the sources (both nil,
-- or both not empty and equal position by position) and on the sync policy; of a source it compares
-- repository, revision, path and the Helm value files and parameters, of a sync policy the three
-- settings of the automated policy (not whether it is enabled), the options and the limit of the
-- retries (not their back-off), and nothing else.
pub compare_application_iff :
    (goal actual : Application)
    → (compare_application goal actual ≡ true) ↔ SpecAgrees goal.spec actual.spec
unfolding compare_application
compare_application_iff goal actual = (
  λ h. record {
    source = (source_option_iff g.source a.source).0 (ground arith);
    sources = sources_sound g.sources a.sources (ground arith);
    sync_policy = (sync_policy_iff g.sync_policy a.sync_policy).0 (ground arith);
  },
  λ h. ground (
    arith,
    (source_option_iff g.source a.source).1 h.source,
    sources_complete g.sources a.sources h.sources,
    (sync_policy_iff g.sync_policy a.sync_policy).1 h.sync_policy,
  ),
)
  where
    open goal use {spec as g}
    open actual use {spec as a}
