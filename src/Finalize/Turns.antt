-- ===== src/Finalize/Turns.antt =====
-- One pass of a deletion in a settled cluster, phase by phase
-- (internal/controller/pattern_controller.go, finalizeObject).
use patterns_operator.Prelude.{
  String, Bool, true, false, none, some, [], ◌≡◌, Bool-cases, inl, inr, if◌then◌else◌, subst, ap,
  ◌∙◌, refl, eq_iff, Option,
}
use patterns_operator.Errors.{ok}
use patterns_operator.Api.{
  Pattern, PatternDeletionPhase, initialize_deletion, delete_spoke_child_apps, delete_spoke,
  delete_hub_child_apps, delete_hub,
}
use patterns_operator.Library.{Library}
use patterns_operator.Defaults.{Env, ActiveArgo, is_legacy_argo_namespace}
use patterns_operator.Argo.{Application}
use patterns_operator.Argo.Compare.{compare_application}
use patterns_operator.Applications.{with_spec, remove_application}
use patterns_operator.Acm.{have_acm_hub, is_managed_hub}
use patterns_operator.Argo.Build.{new_argo_application}
use patterns_operator.Clusters.{argo_of}
use patterns_operator.Cluster.{Request, Prog, pure, ask, ◌>>=◌}
use patterns_operator.Cluster.Runs.{Environment}
use patterns_operator.Cluster.Triples.{
  Goes, Breaks, Goes-pure, Goes-call, Goes-bind, Goes-attempt, Breaks-bind, Breaks-after,
  Breaks-fail,
}
use patterns_operator.Finalize.{
  run_phase, delete_spoke_apps, delete_hub_apps, wrapping, reworded, sync_all,
  update_deletion_phase,
}
use patterns_operator.Finalize.Settled.{
  left_application, Stored, Facts, Settles, with_status, with_application,
}
use patterns_operator.Finalize.Steps.{
  update_deletion_phase-Goes, sync_application-Goes, synced, get_child_applications-Goes,
  require_unchanged-Goes, require_unchanged-Breaks, check_spoke_applications_gone-Goes,
}

-- The pattern with another phase.
abbrev pub at_phase : Pattern → PatternDeletionPhase → Pattern
at_phase q phase = record q { status = record q.status { deletion_phase = phase } }

-- The Application can be built in every phase, for a pattern with its defaults.
abbrev pub BuildsInEveryPhase : Library → Env → Facts → Pattern → Type 0
BuildsInEveryPhase lib e f q =
    (phase : PatternDeletionPhase)
    → (built : Application) × (new_argo_application lib e (argo_of f.legacy_argo) f.files
          (at_phase q phase)
        ≡ some built)

module _ (lib : Library) (e : Env) (f : Facts) {W : Type 0} (answer : Environment W)
    (view : W → Stored) (settles : Settles lib e f answer view) (active : ActiveArgo)
    (target app : Application) (q : Pattern) where
  wrapping-Goes :
      {A : Type 0} (s t : Stored) (text : String) (m : Prog A) (a : A)
      → Goes answer view s m a t
      → Goes answer view s (wrapping text m) a t
  unfolding wrapping
  wrapping-Goes s t text m a g =
      Goes-bind answer view s t t _ (reworded text) (ok a) a (Goes-attempt answer view s t m a g)
        (Goes-pure answer view t a)

  -- A step that moves to the next phase and ends with the error that asks for another pass.
  moved-Breaks :
      (s : Stored) (phase : PatternDeletionPhase) (g : Pattern → Prog (Unit {0}))
      → (let t = with_status s (at_phase q phase).status in
          Breaks answer view t (g t.pattern) t
          → Breaks answer view s (update_deletion_phase q phase >>= g) t)
  moved-Breaks s phase g h =
      Breaks-after answer view s _ _ _ g _
        (update_deletion_phase-Goes lib e f answer view settles s q phase) h

  have_acm_hub-Goes : (s : Stored) → Goes answer view s have_acm_hub (is_managed_hub f.hub) s
  unfolding have_acm_hub ask ◌>>=◌
  have_acm_hub-Goes s =
      Goes-call answer view s s s _ _ _ _ (settles.hub s) (Goes-pure answer view s _)

  sync_all-Goes : (s : Stored) (b : Bool) → Goes answer view s (sync_all [] b) tt s
  unfolding sync_all
  sync_all-Goes s b = Goes-pure answer view s tt

  pub initialize-Breaks :
      (s : Stored)
      → Breaks answer view s (run_phase lib e active target app q initialize_deletion) (
          with_status s
            (at_phase q (
              if is_managed_hub f.hub
              then delete_spoke_child_apps
              else delete_hub_child_apps)).status)
  unfolding run_phase
  initialize-Breaks s =
      Breaks-after answer view s s _ _ _ _ (have_acm_hub-Goes s)
        (moved-Breaks s _ _ (Breaks-fail answer view _ _))

  delete_spoke_apps-Goes :
      (s : Stored)
      → s.application ≡ some app
      → compare_application app target ≡ true
      → Goes answer view s
          (delete_spoke_apps lib e active target app)
          tt
          (with_application s (some (synced lib e f answer view settles app false)))
  unfolding delete_spoke_apps
  delete_spoke_apps-Goes s here h =
      let t = with_application s (some (synced lib e f answer view settles app false)) in
      (Goes-bind answer view s s t _ _ _ _
        (require_unchanged-Goes lib e f answer view settles s target app _ _ h)
        (Goes-bind answer view s t t _ _ _ _
          (sync_application-Goes lib e f answer view settles s app false here)
          (Goes-bind answer view t t t _ _ _ _
            (get_child_applications-Goes lib e f answer view settles t app)
            (Goes-bind answer view t t t _ _ _ _ (sync_all-Goes t _) (
              Goes-bind answer view t t t _ _ _ _
                (wrapping-Goes t t _ _ _
                  (check_spoke_applications_gone-Goes lib e f answer view settles t active false))
                (Goes-pure answer view t tt))))))

  -- An Application that is not as wanted is updated first.
  delete_spoke_apps-Breaks :
      (s : Stored)
      → compare_application app target ≡ false
      → Breaks answer view s
          (delete_spoke_apps lib e active target app)
          (with_application s (some (with_spec target app)))
  unfolding delete_spoke_apps
  delete_spoke_apps-Breaks s h =
      Breaks-bind answer view s _ _ _
        (require_unchanged-Breaks lib e f answer view settles s target app _ _ h)

  pub spoke_child_differs-Breaks :
      (s : Stored)
      → compare_application app target ≡ false
      → Breaks answer view s
          (run_phase lib e active target app q delete_spoke_child_apps)
          (with_application s (some (with_spec target app)))
  unfolding run_phase
  spoke_child_differs-Breaks s h = Breaks-bind answer view s _ _ _ (delete_spoke_apps-Breaks s h)

  pub spoke_differs-Breaks :
      (s : Stored)
      → compare_application app target ≡ false
      → Breaks answer view s
          (run_phase lib e active target app q delete_spoke)
          (with_application s (some (with_spec target app)))
  unfolding run_phase
  spoke_differs-Breaks s h =
      Breaks-bind answer view s _ _ _
        (require_unchanged-Breaks lib e f answer view settles s target app _ _ h)

  -- An Application that is as wanted is synced, and the phase moves on.
  pub spoke_child-Breaks :
      (s : Stored)
      → s.application ≡ some app
      → compare_application app target ≡ true
      → Breaks answer view s (run_phase lib e active target app q delete_spoke_child_apps) (
          with_status
            (with_application s (some (synced lib e f answer view settles app false)))
            (at_phase q delete_spoke).status)
  unfolding run_phase
  spoke_child-Breaks s here h =
      Breaks-after answer view s _ _ _ _ _ (delete_spoke_apps-Goes s here h)
        (moved-Breaks _ _ _ (Breaks-fail answer view _ _))

  pub spoke-Breaks :
      (s : Stored)
      → s.application ≡ some app
      → compare_application app target ≡ true
      → Breaks answer view s (run_phase lib e active target app q delete_spoke) (
          with_status
            (with_application s (some (synced lib e f answer view settles app false)))
            (at_phase q delete_hub_child_apps).status)
  unfolding run_phase
  spoke-Breaks s here h =
      let t = with_application s (some (synced lib e f answer view settles app false)) in
      Breaks-after answer view s s _ _ _ _
        (require_unchanged-Goes lib e f answer view settles s target app _ _ h)
        (Breaks-after answer view s t _ _ _ _
          (sync_application-Goes lib e f answer view settles s app false here)
          (Breaks-after answer view t t _ _ _ _
            (get_child_applications-Goes lib e f answer view settles t app)
            (Breaks-after answer view t t _ _ _ _ (sync_all-Goes t _) (
              Breaks-after answer view t t _ _ _ _
                (wrapping-Goes t t _ _ _
                  (check_spoke_applications_gone-Goes lib e f answer view settles t active true))
                (moved-Breaks t _ _ (Breaks-fail answer view _ _))))))

  delete_hub_apps-Goes :
      (s : Stored) → Goes answer view s (delete_hub_apps lib e active target app) tt s
  unfolding delete_hub_apps
  delete_hub_apps-Goes s =
      Goes-bind answer view s s s _ _ _ _
        (wrapping-Goes s s _ _ _ (get_child_applications-Goes lib e f answer view settles s app))
        (Goes-pure answer view s tt)

  pub hub_child-Breaks :
      (s : Stored)
      → Breaks answer view s
          (run_phase lib e active target app q delete_hub_child_apps)
          (with_status s (at_phase q delete_hub).status)
  unfolding run_phase
  hub_child-Breaks s =
      Breaks-after answer view s s _ _ _ _ (delete_hub_apps-Goes s)
        (moved-Breaks s _ _ (Breaks-fail answer view _ _))

  left-none :
      (a : Application) (namespace : String)
      → a.namespace ≡ namespace
      → left_application a.name namespace (some a) ≡ none
  left-none a namespace h =
      rw ((eq_iff a.name a.name).1 refl, (eq_iff a.namespace namespace).1 h) refl

  remove_application-Goes :
      (s : Stored)
      → s.application ≡ some app
      → app.namespace ≡ active.namespace
      → Goes answer view s
          (remove_application app.name active.namespace)
          tt
          (with_application s none)
  unfolding remove_application ask ◌>>=◌
  remove_application-Goes s here placed =
      subst
        (λ (o : Option Application).
          Goes answer view s (remove_application app.name active.namespace) tt
            (with_application s o))
        (ap (λ (o : Option Application). left_application app.name active.namespace o) here
          ∙ left-none app active.namespace placed)
        (Goes-call answer view s _ _ _ _ _ _ (settles.application_deleted s _ _)
          (Goes-pure answer view _ tt))

  remove_link-Goes :
      (s : Stored) (name : String)
      → Goes answer view s (ask (Request.delete_console_link name) >>= λ x. pure tt) tt s
  unfolding ask ◌>>=◌
  remove_link-Goes s name =
      let (r, answered) = settles.link s name in
      Goes-call answer view s s s _ r _ _ answered (Goes-pure answer view s tt)

  -- In the last phase the Application is deleted, by its name and namespace, and the pass returns.
  pub hub-Goes :
      (s : Stored)
      → s.application ≡ some app
      → app.namespace ≡ active.namespace
      → Goes answer view s
          (run_phase lib e active target app q delete_hub)
          tt
          (with_application s none)
  unfolding run_phase
  hub-Goes s here placed =
      let t = with_application s none in
      Goes-bind answer view s t t _ _ _ _ (remove_application-Goes s here placed)
        (elim (Bool-cases (is_legacy_argo_namespace active)) [
          | inl b ↦ rw b (Goes-pure answer view t tt)
          | inr b ↦ rw b (remove_link-Goes t _)
        ])
