-- ===== src/Argo/Build/Comparable.antt =====
-- An Application that the operator builds agrees with itself (internal/controller/argo.go,
-- newArgoApplication and compareApplication).
use patterns_operator.Prelude.{
  String, Bool, true, false, Option, none, some, List, [], ◌∷◌, ◌≡◌, refl, sym, subst,
  if◌then◌else◌,
}
use patterns_operator.Panics.{◌>>=◌}
use patterns_operator.Api.{Pattern}
use patterns_operator.Library.{Library}
use patterns_operator.Files.{Files}
use patterns_operator.Defaults.{Env, ActiveArgo}
use patterns_operator.Argo.{SyncPolicy, Application, ApplicationSpec, ApplicationSource, Slice}
use patterns_operator.Argo.Compare.{compare_application}
use patterns_operator.Argo.Compare.Agrees.{
  SpecAgrees, SourceAgrees, HelmAgrees, ListAgrees, SourcesAgree, compare_application_iff,
}
use patterns_operator.Argo.Compare.Fields.{
  OptionAgrees, SyncPolicyAgrees, AutomatedAgrees, RetryAgrees,
}
use patterns_operator.Argo.Build.{
  application_name, new_argo_application, new_source_application, new_multi_source_application,
  common_application_source_helm, common_sync_policy, common_application_spec,
  new_argo_operator_application,
}

OptionAgrees-refl :
    {A : Type 0} (R : A → A → Type 0) → ((a : A) → R a a) → (o : Option A) → OptionAgrees R o o
OptionAgrees-refl R h none = tt
OptionAgrees-refl R h (some a) = h a

SourceAgrees-refl : (a : ApplicationSource) → SourceAgrees a a
SourceAgrees-refl a = record {
  repo_url = refl;
  target_revision = refl;
  path = refl;
  helm =
      OptionAgrees-refl HelmAgrees (λ h. record { value_files = refl; parameters = refl }) a.helm;
}

ListAgrees-refl : (xs : List ApplicationSource) → ListAgrees SourceAgrees xs xs
ListAgrees-refl [] = tt
ListAgrees-refl (x ∷ xs) = (SourceAgrees-refl x, ListAgrees-refl xs)

-- Slices that are nil or not empty.
abbrev IsComparable : Slice ApplicationSource → Type 0
IsComparable none = Unit
IsComparable (some []) = ⊥
IsComparable (some (x ∷ xs)) = Unit

SourcesAgree-refl : (s : Slice ApplicationSource) → IsComparable s → SourcesAgree s s
SourcesAgree-refl none h = tt
SourcesAgree-refl (some []) h = absurd h
SourcesAgree-refl (some (x ∷ xs)) h = ListAgrees-refl (x ∷ xs)

SyncPolicyAgrees-refl : (p : SyncPolicy) → SyncPolicyAgrees p p
SyncPolicyAgrees-refl p = record {
  automated =
      OptionAgrees-refl AutomatedAgrees
        (λ a. record { prune = refl; self_heal = refl; allow_empty = refl }) p.automated;
  sync_options = refl;
  retry = OptionAgrees-refl RetryAgrees (λ r. record { limit = refl }) p.retry;
}

SpecAgrees-refl : (s : ApplicationSpec) → IsComparable s.sources → SpecAgrees s s
SpecAgrees-refl s h = record {
  source = OptionAgrees-refl SourceAgrees SourceAgrees-refl s.source;
  sources = SourcesAgree-refl s.sources h;
  sync_policy = OptionAgrees-refl SyncPolicyAgrees SyncPolicyAgrees-refl s.sync_policy;
}

abbrev pub IsBuilt : String → Option Application → Type 0
IsBuilt name none = Unit
IsBuilt name (some built) =
    IsComparable built.spec.sources × (built.owner_references ≡ []) × (built.name ≡ name)

record Builds (name : String) (o : Option Application) : Type 0 where
  builds : IsBuilt name o

Builds-bind :
    {A : Type 0} (name : String) (o : Option A) (f : A → Option Application)
    → ((a : A) → Builds name (f a))
    → Builds name (o >>= f)
Builds-bind name none f h = record { builds = tt }
Builds-bind name (some a) f h = h a

Builds-if :
    (name : String) (b : Bool) (x y : Option Application)
    → Builds name x
    → Builds name y
    → Builds name (if b then x else y)
Builds-if name true x y h k = h
Builds-if name false x y h k = k

module _ (lib : Library) (e : Env) (active : ActiveArgo) (files : Files) (p : Pattern) where
  abbrev n : String
  n = application_name p

  new_source_application-Builds : Builds n (new_source_application lib e active files p)
  unfolding new_source_application common_application_spec new_argo_operator_application
  new_source_application-Builds =
      Builds-bind n (common_application_source_helm lib e active files p "") _ (λ helm.
        Builds-bind n (common_sync_policy p) _ (λ policy. record { builds = (tt, refl, refl) }))

  new_multi_source_application-Builds : Builds n (new_multi_source_application lib e active files p)
  unfolding new_multi_source_application common_application_spec new_argo_operator_application
  new_multi_source_application-Builds =
      Builds-bind n (common_application_source_helm lib e active files p "$patternref") _ (λ helm.
        Builds-bind n (common_sync_policy p) _ (λ policy. record { builds = (tt, refl, refl) }))

  new_argo_application-Builds : Builds n (new_argo_application lib e active files p)
  unfolding new_argo_application
  new_argo_application-Builds = by_sources p.spec.multi_source_config.enabled
    where
      by_sources :
          (enabled : Option Bool)
          → Builds n (elim enabled as (λ o. Option Application) [
            | none ↦ none
            | some multi ↦
                if multi
                then new_multi_source_application lib e active files p
                else new_source_application lib e active files p
          ])
      by_sources none = record { builds = tt }
      by_sources (some multi) =
          Builds-if n multi _ _ new_multi_source_application-Builds new_source_application-Builds

  -- An Application with the spec of one that was built agrees with it.
  pub new_argo_application-Agrees :
      (built current target : Application)
      → new_argo_application lib e active files p ≡ some built
      → current.spec ≡ built.spec
      → target.spec ≡ built.spec
      → compare_application current target ≡ true
  new_argo_application-Agrees built current target h c t =
      (compare_application_iff current target).1 (
        subst (λ s. SpecAgrees s target.spec) (sym c)
          (subst (λ s. SpecAgrees built.spec s) (sym t)
            (SpecAgrees-refl built.spec
              ((subst (λ o. IsBuilt n o) h new_argo_application-Builds.builds).0))))

  -- The operator builds it without owner references.
  pub new_argo_application-unowned :
      (built : Application)
      → new_argo_application lib e active files p ≡ some built
      → built.owner_references ≡ []
  new_argo_application-unowned built h =
      (subst (λ o. IsBuilt n o) h new_argo_application-Builds.builds).1

  pub new_argo_application-named :
      (built : Application)
      → new_argo_application lib e active files p ≡ some built
      → built.name ≡ n
  new_argo_application-named built h =
      (subst (λ o. IsBuilt n o) h new_argo_application-Builds.builds).2
