-- ===== src/Finalize/Kept.antt =====
-- When the finalizer stays (internal/controller/pattern_controller.go, finalizeObject): the pass does
-- not return, so that `Reconcile` does not go on to remove it.
use patterns_operator.Prelude.{true, Option, none, some, [], ◌≡◌, refl, sym, subst}
use patterns_operator.Errors.{Err, Result, ok, err}
use patterns_operator.Api.{
  Pattern, PatternDeletionPhase, initialize_deletion, delete_spoke_child_apps, delete_spoke,
  delete_hub_child_apps,
}
use patterns_operator.Library.{Library}
use patterns_operator.Defaults.{Env, ActiveArgo}
use patterns_operator.Kube.Owner.{owned_by_same}
use patterns_operator.Argo.{Application}
use patterns_operator.Argo.Build.{new_argo_application}
use patterns_operator.Argo.Build.Comparable.{new_argo_application-unowned}
use patterns_operator.Cluster.{Request, Reply, Prog, pure, fail, panic, call, ◌>>=◌}
use patterns_operator.Cluster.Runs.{
  Outcome, returned, failed, panicked, Environment, Rely, KeepsTo, Always, AnyRequest, Always-bind,
  Always-run, Always-both, run,
}
use patterns_operator.Clusters.{detect_argo_namespace}
use patterns_operator.Applications.{get_application_or_err}
use patterns_operator.Clusters.Keeps.{SameIdentity, Kept, apply_defaults-keeps}
use patterns_operator.Clusters.Succeeds.{Healthy, apply_defaults-succeeds, Defaulted}
use patterns_operator.Finalize.{
  run_phase, finalize_found, finalize_built, finalize_application, finalize_defaulted,
  finalize_object, wants_pruning,
}
use patterns_operator.Finalize.Safety.{AnyOutcome}

abbrev pub NotReturned : {A : Type 0} → Outcome A → Type 0
NotReturned (returned a) = ⊥
NotReturned (failed x) = Unit
NotReturned panicked = Unit

module _ (G : Rely) where
  anything : {A : Type 0} (m : Prog A) → Always G AnyRequest AnyOutcome m
  anything (pure a) = tt
  anything (fail x) = tt
  anything panic = tt
  anything (call r k) = (tt, λ x g. anything (k x))

-- On no path does the program return.
record Ends {A : Type 0} (G : Rely) (m : Prog A) : Type 0 where
  paths : Always G AnyRequest NotReturned m

module _ (G : Rely) where
  Ends-fail : {A : Type 0} (x : Err) → Ends {A = A} G (fail x)
  Ends-fail x = record { paths = tt }

  Ends-bind :
      {A B : Type 0} (m : Prog A) (f : A → Prog B) → ((a : A) → Ends G (f a)) → Ends G (m >>= f)
  Ends-bind m f h = record {
    paths =
        Always-bind G AnyRequest AnyOutcome NotReturned m f (anything G m) ((λ x _. tt), λ _. tt)
          (λ a _. (h a).paths);
  }

-- The four phases before the Application itself is deleted.
abbrev pub IsEarly : PatternDeletionPhase → Type 0
IsEarly initialize_deletion = Unit
IsEarly delete_spoke_child_apps = Unit
IsEarly delete_spoke = Unit
IsEarly delete_hub_child_apps = Unit
IsEarly _ = ⊥

module _ (G : Rely) (lib : Library) (e : Env) where
  run_phase-Ends :
      (active : ActiveArgo) (target app : Application) (q : Pattern) (phase : PatternDeletionPhase)
      → IsEarly phase
      → Ends G (run_phase lib e active target app q phase)
  unfolding run_phase
  run_phase-Ends active target app q initialize_deletion h =
      Ends-bind G _ _ (λ hub. Ends-bind G _ _ (λ _. Ends-fail G _))
  run_phase-Ends active target app q delete_spoke_child_apps h =
      Ends-bind G _ _ (λ _. Ends-bind G _ _ (λ _. Ends-fail G _))
  run_phase-Ends active target app q delete_spoke h = Ends-bind G _ _ (λ _. Ends-bind G _ _ (λ _.
      Ends-bind G _ _
        (λ _. Ends-bind G _ _ (λ _. Ends-bind G _ _ (λ _. Ends-bind G _ _ (λ _. Ends-fail G _))))))
  run_phase-Ends active target app q delete_hub_child_apps h =
      Ends-bind G _ _ (λ _. Ends-bind G _ _ (λ _. Ends-fail G _))
  run_phase-Ends active target app q _ h = absurd h

-- Two copies of one resource, for `controllerutil.SetOwnerReference`.
abbrev pub SameOwner : Pattern → Pattern → Type 0
SameOwner p q = (q.name ≡ p.name) × (q.namespace ≡ p.namespace) × (q.uid ≡ p.uid)

-- The answer gives an Application with the owner references that an Application without any gets from
-- the pattern.
abbrev pub IsOwned : Library → Pattern → Result Application → Type 0
IsOwned lib p (err _) = ⊥
IsOwned lib p (ok app) =
    (q : Pattern) (built : Application)
    → SameOwner p q
    → built.owner_references ≡ []
    → owned_by_same lib.parse_group_version (lib.set_owner_reference q built) app.owner_references
      ≡ true

-- The cluster answers about itself, and the Application is there and owned.
abbrev pub Found : Library → Pattern → Rely
Found lib p (Request.get_application n ns) x = IsOwned lib p x
Found lib p r x = Healthy lib r x

Found-Healthy :
    (lib : Library) (p : Pattern) (r : Request) (x : Reply r) → Found lib p r x → Healthy lib r x
Found-Healthy lib p (Request.get_application n ns) x h = tt
Found-Healthy lib p _ x h = h

module _ (lib : Library) (e : Env) (instance : Pattern) where
  finalize_found-Ends :
      (active : ActiveArgo) (built : Application) (p : Pattern) (r : Result Application)
      → IsEarly p.status.deletion_phase
      → SameOwner instance p
      → built.owner_references ≡ []
      → IsOwned lib instance r
      → Always (Found lib instance) AnyRequest NotReturned (
          finalize_found lib e active
            (record built { owner_references = lib.set_owner_reference p built })
            p
            r)
  finalize_found-Ends active built p (err x) early same bare owned = absurd owned
  finalize_found-Ends active built p (ok app) early same bare owned =
      rw (owned p built same bare)
        ((run_phase-Ends (Found lib instance) lib e active _ app p _ early).paths)

  finalize_built-Ends :
      (active : ActiveArgo) (p : Pattern) (o : Option Application)
      → IsEarly p.status.deletion_phase
      → SameOwner instance p
      → ((built : Application) → o ≡ some built → built.owner_references ≡ [])
      → Always (Found lib instance) AnyRequest NotReturned (finalize_built lib e active p o)
  unfolding get_application_or_err ◌>>=◌
  finalize_built-Ends active p none early same bare = tt
  finalize_built-Ends active p (some b) early same bare =
      (tt, λ r owned. finalize_found-Ends active b p r early same (bare b refl) owned)

  finalize_application-Ends :
      (p : Pattern)
      → IsEarly p.status.deletion_phase
      → SameOwner instance p
      → Always (Found lib instance) AnyRequest NotReturned (finalize_application lib e p)
  unfolding finalize_application detect_argo_namespace
  finalize_application-Ends p early same = (
    tt,
    λ x _. (
      tt,
      λ files _.
          finalize_built-Ends _ p (new_argo_application lib e _ files p) early same
            (new_argo_application-unowned lib e _ files p),
    ),
  )

  finalize_defaulted-Ends :
      (q : Pattern) (failure : Option Err)
      → IsEarly instance.status.deletion_phase
      → SameIdentity instance q
      → failure ≡ none
      → Always (Found lib instance) AnyRequest NotReturned (finalize_defaulted lib e (q, failure))
  finalize_defaulted-Ends q none early kept h =
      finalize_application-Ends q (subst IsEarly (sym kept.5) early) (kept.0, kept.1, kept.7)
  finalize_defaulted-Ends q (some x) early kept h = absurd (cc)

  pub finalize_object-Ends :
      wants_pruning instance ≡ true
      → IsEarly instance.status.deletion_phase
      → Always (Found lib instance) AnyRequest NotReturned (finalize_object lib e instance)
  unfolding finalize_object
  finalize_object-Ends prune early = rw prune (
      Always-bind G AnyRequest (λ o. Kept instance o × Defaulted o) NotReturned _ _
        (Always-both G AnyRequest (Kept instance) Defaulted _
          (apply_defaults-keeps G AnyRequest tt tt tt tt lib e instance)
          (apply_defaults-succeeds G lib (Found-Healthy lib instance) e instance))
        ((λ x h. tt), λ h. tt) (λ (q, failure) h. finalize_defaulted-Ends q failure early h.0 h.1))
    where
      G : Rely
      G = Found lib instance

-- In an environment where the cluster answers about itself, and every read of an Application gives one
-- that carries the owner references which SetOwnerReference gives, for this pattern, to an Application
-- without any: as long as a pattern that asks for pruning is in one of the phases before DeleteHub, a
-- pass of `finalizeObject` never returns without an error, so the finalizer is not removed.
pub finalize_object-keeps_finalizer :
    {W : Type 0} (lib : Library) (e : Env) (answer : Environment W) (p : Pattern) (w : W)
    → KeepsTo (Found lib p) answer
    → wants_pruning p ≡ true
    → IsEarly p.status.deletion_phase
    → NotReturned (run answer (finalize_object lib e p) w).1
finalize_object-keeps_finalizer lib e answer p w keeps prune early =
    (Always-run answer (Found lib p) keeps AnyRequest NotReturned _
      (finalize_object-Ends lib e p prune early) w).1
