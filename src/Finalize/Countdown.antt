-- ===== src/Finalize/Countdown.antt =====
-- Passes of a deletion in a row, and a whole pass in a settled cluster
-- (internal/controller/pattern_controller.go, finalizeObject).
use patterns_operator.Prelude.{
  ℕ, zero, suc, String, true, Option, none, some, ◌≡◌, sym, ap, subst, ◌∙◌, ◌⊎◌, inl, inr, refl,
  eq_iff,
}
use patterns_operator.Errors.{Err, Result, ok}
use patterns_operator.Api.{Pattern}
use patterns_operator.Library.{Library}
use patterns_operator.Defaults.{Env, ActiveArgo}
use patterns_operator.Argo.{Application}
use patterns_operator.Argo.Build.{new_argo_application, application_name}
use patterns_operator.Argo.Build.Comparable.{new_argo_application-unowned}
use patterns_operator.Applications.{get_application_or_err}
use patterns_operator.Clusters.{argo_of}
use patterns_operator.Cluster.{Request, ask}
use patterns_operator.Cluster.Runs.{Environment, returned, failed, run}
use patterns_operator.Cluster.Triples.{
  Goes, Breaks, Goes-call, Goes-pure, Leads, Leads-refl, Leads-bind, Leads-trans,
}
use patterns_operator.Finalize.{run_phase, wants_pruning, finalize_application, finalize_object}
use patterns_operator.Finalize.Kept.{IsOwned}
use patterns_operator.Finalize.Settled.{Stored, Facts, Settles, found_application, defaulted}
use patterns_operator.Finalize.Steps.{apply_defaults-Goes, detect_argo_namespace-Goes}

module _ (lib : Library) (e : Env) (f : Facts) {W : Type 0} (answer : Environment W)
    (view : W → Stored) where
  -- One of so many passes in a row, each over the pattern as it is stored then, returns without an
  -- error, with the Application deleted; the passes before it have failed.
  abbrev pub Completes : ℕ → W → Type 0
  Completes zero w = ⊥
  Completes (suc n) w =
      let ended = run answer (finalize_object lib e (view w).pattern) w in
      ((ended.1 ≡ returned tt) × ((view ended.2).application ≡ none))
      ⊎ (((x : Err) × (ended.1 ≡ failed x)) × Completes n ended.2)

  -- So many passes from every state with this view.
  pub record Within (n : ℕ) (s : Stored) : Type 0 where
    pub passes : (w : W) → view w ≡ s → Completes n w

  Completes-more : (n : ℕ) (w : W) → Completes n w → Completes (suc n) w
  Completes-more zero w h = absurd h
  Completes-more (suc n) w (inl h) = inl h
  Completes-more (suc n) w (inr (h, k)) = inr (h, Completes-more n _ k)

  pub Within-more : (n : ℕ) (s : Stored) → Within n s → Within (suc n) s
  Within-more n s h = record { passes = λ w v. Completes-more n w (h.passes w v) }

  pub Within-Goes :
      (n : ℕ) (s t : Stored)
      → t.application ≡ none
      → Goes answer view s (finalize_object lib e s.pattern) tt t
      → Within (suc n) s
  Within-Goes n s t h g = record {
    passes = λ w v.
        let (ended, left) =
          subst
            (λ (o : Stored).
              (((run answer (finalize_object lib e o.pattern) w).1 ≡ returned tt)
                × (view (run answer (finalize_object lib e o.pattern) w).2 ≡ t)))
            (sym v) (g.runs w v) in
        inl (ended, ap (λ (o : Stored). o.application) left ∙ h);
  }

  pub Within-Breaks :
      (n : ℕ) (s t : Stored)
      → Breaks answer view s (finalize_object lib e s.pattern) t
      → Within n t
      → Within (suc n) s
  Within-Breaks n s t g h = record {
    passes = λ w v.
        let (ended, left) =
          subst
            (λ (o : Stored).
              (((x : Err) × ((run answer (finalize_object lib e o.pattern) w).1 ≡ failed x))
                × (view (run answer (finalize_object lib e o.pattern) w).2 ≡ t)))
            (sym v) (g.runs w v) in
        inr (ended, h.passes _ left);
  }

  module _ (settles : Settles lib e f answer view) where
    abbrev pub active : ActiveArgo
    active = argo_of f.legacy_argo

    abbrev pub owned_target : Pattern → Application → Application
    owned_target q built = record built { owner_references = lib.set_owner_reference q built }

    read_files-Goes : (s : Stored) → Goes answer view s (ask Request.read_files) f.files s
    unfolding ask
    read_files-Goes s =
        Goes-call answer view s s s _ _ _ _ (settles.files s) (Goes-pure answer view s _)

    found-named :
        (app : Application) (name namespace : String)
        → app.name ≡ name
        → app.namespace ≡ namespace
        → found_application name namespace (some app) ≡ ok app
    found-named app name namespace h k =
        rw ((eq_iff app.name name).1 h, (eq_iff app.namespace namespace).1 k) refl

    get_application-Goes :
        (s : Stored) (app : Application) (name namespace : String)
        → s.application ≡ some app
        → app.name ≡ name
        → app.namespace ≡ namespace
        → Goes answer view s (get_application_or_err name namespace) (ok app) s
    unfolding get_application_or_err ask
    get_application-Goes s app name namespace h named placed =
        subst
          (λ (r : Result Application).
            Goes answer view s (get_application_or_err name namespace) r s)
          (ap (λ (o : Option Application). found_application name namespace o) h
            ∙ found-named app name namespace named placed)
          (Goes-call answer view s s s _ _ _ _ (settles.application s _ _)
            (Goes-pure answer view s _))

    -- The whole pass comes down to its phase.
    pub finalize_object-Leads :
        (s : Stored) (built app : Application)
        → wants_pruning s.pattern ≡ true
        → s.application ≡ some app
        → IsOwned lib s.pattern (ok app)
        → app.name ≡ application_name (defaulted lib e f s.pattern)
        → app.namespace ≡ active.namespace
        → (let q = defaulted lib e f s.pattern in
            new_argo_application lib e active f.files q ≡ some built
            → Leads answer view s
                (finalize_object lib e s.pattern)
                (run_phase lib e active (owned_target q built) app q q.status.deletion_phase))
    unfolding finalize_object finalize_application
    finalize_object-Leads s built app prune here owned named placed builds =
        let q = defaulted lib e f s.pattern in
        let target = owned_target q built in
        rw prune (
          Leads-trans answer view s _ _ _
            (Leads-bind answer view s _ _ _
              (apply_defaults-Goes lib e f answer view settles s s.pattern))
            (Leads-trans answer view s _ _ _
              (Leads-bind answer view s _ _ _
                (detect_argo_namespace-Goes lib e f answer view settles s))
              (Leads-trans answer view s _ _ _ (Leads-bind answer view s _ _ _ (read_files-Goes s))
                (rw builds (
                  Leads-trans answer view s _ _ _
                    (Leads-bind answer view s _ _ _
                      (get_application-Goes s app _ _ here named placed))
                    (rw
                      (owned q built (refl, refl, refl)
                        (new_argo_application-unowned lib e active f.files q built builds))
                      (Leads-refl answer view s _)))))))
