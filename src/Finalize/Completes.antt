-- ===== src/Finalize/Completes.antt =====
-- That a deletion in a settled cluster comes to its end
-- (internal/controller/pattern_controller.go, finalizeObject).
use patterns_operator.Prelude.{
  ℕ, suc, String, Bool, true, false, none, some, ◌≡◌, ◌≢◌, refl, sym, ap, subst, ◌∙◌, inl, inr,
  Bool-cases, if◌then◌else◌,
}
use patterns_operator.Errors.{ok}
use patterns_operator.Api.{
  Pattern, PatternDeletionPhase, initialize_deletion, delete_spoke_child_apps, delete_spoke,
  delete_hub_child_apps, delete_hub, other,
}
use patterns_operator.Library.{Library}
use patterns_operator.Defaults.{Env, ActiveArgo}
use patterns_operator.Kube.Owner.{owned_by_same}
use patterns_operator.Argo.{Application}
use patterns_operator.Argo.Build.{new_argo_application, application_name}
use patterns_operator.Argo.Build.Comparable.{new_argo_application-Agrees}
use patterns_operator.Argo.Compare.{compare_application}
use patterns_operator.Applications.{with_spec, is_syncing}
use patterns_operator.Acm.{is_managed_hub}
use patterns_operator.Clusters.{argo_of}
use patterns_operator.Cluster.Runs.{Environment}
use patterns_operator.Cluster.Triples.{Breaks, Leads, Goes-led, Breaks-led}
use patterns_operator.Finalize.{run_phase, wants_pruning, finalize_object}
use patterns_operator.Finalize.Kept.{IsOwned}
use patterns_operator.Finalize.Settled.{
  Stored, Facts, Settles, with_status, with_application, defaulted,
}
use patterns_operator.Finalize.Steps.{synced}
use patterns_operator.Finalize.Turns.{
  at_phase, BuildsInEveryPhase, initialize-Breaks, spoke_child_differs-Breaks, spoke_differs-Breaks,
  spoke_child-Breaks, spoke-Breaks, hub_child-Breaks, hub-Goes,
}
use patterns_operator.Finalize.Countdown.{
  Completes, Within, Within-more, Within-Goes, Within-Breaks, finalize_object-Leads,
}

module _ (lib : Library) (e : Env) (f : Facts) {W : Type 0} (answer : Environment W)
    (view : W → Stored) (settles : Settles lib e f answer view) where
  abbrev active : ActiveArgo
  active = argo_of f.legacy_argo

  abbrev owned_target : Pattern → Application → Application
  owned_target q built = record built { owner_references = lib.set_owner_reference q built }

  module _ (q : Pattern) (all_built : BuildsInEveryPhase lib e f q) where
    -- The pattern asks for pruning, is in the phase, and its Application is there and owned.
    record Ready (phase : PatternDeletionPhase) (s : Stored) (app : Application) : Type 0 where
      prune : wants_pruning s.pattern ≡ true
      in_phase : defaulted lib e f s.pattern ≡ at_phase q phase
      here : s.application ≡ some app
      owned : IsOwned lib s.pattern (ok app)
      named : app.name ≡ application_name (defaulted lib e f s.pattern)
      placed : app.namespace ≡ active.namespace

    -- What is wanted of the Application in a phase.
    abbrev target : PatternDeletionPhase → Application
    target phase = owned_target (at_phase q phase) (all_built phase).0

    Ready-Leads :
        (phase : PatternDeletionPhase) (s : Stored) (app : Application)
        → Ready phase s app
        → Leads answer view s
            (finalize_object lib e s.pattern)
            (run_phase lib e active (target phase) app (at_phase q phase) phase)
    Ready-Leads phase s app r =
        let (built, h) = all_built phase in
        subst
          (λ (p : Pattern).
            Leads answer view s (finalize_object lib e s.pattern)
              (run_phase lib e active (owned_target p built) app p p.status.deletion_phase))
          r.in_phase
          (finalize_object-Leads lib e f answer view settles s built app r.prune r.here r.owned
            r.named r.placed
            (subst (λ (p : Pattern). new_argo_application lib e active f.files p ≡ some built)
              (sym r.in_phase) h))

    Ready-moves :
        (phase next : PatternDeletionPhase) (s : Stored) (app : Application)
        → Ready phase s app
        → Ready next (with_status s (at_phase (at_phase q phase) next).status) app
    unfolding wants_pruning application_name
    Ready-moves phase next s app r = record {
      prune = r.prune;
      in_phase =
          subst
            (λ (d : Pattern).
              defaulted lib e f (record s.pattern { status = (at_phase d next).status })
              ≡ at_phase d next)
            r.in_phase refl;
      here = r.here;
      owned = r.owned;
      named = r.named;
      placed = r.placed;
    }

    Ready-changes :
        (phase : PatternDeletionPhase) (s : Stored) (app changed : Application)
        → changed.owner_references ≡ app.owner_references
        → changed.name ≡ app.name
        → changed.namespace ≡ app.namespace
        → Ready phase s app
        → Ready phase (with_application s (some changed)) changed
    Ready-changes phase s app changed same name namespace r = record {
      prune = r.prune;
      in_phase = r.in_phase;
      here = refl;
      owned = λ p built owner bare.
          ap (λ refs. owned_by_same lib.parse_group_version (lib.set_owner_reference p built) refs)
            same
          ∙ r.owned p built owner bare;
      named = name ∙ r.named;
      placed = namespace ∙ r.placed;
    }

    abbrev is_wanted : PatternDeletionPhase → Application → Bool
    is_wanted phase app = compare_application app (target phase)

    pass-Breaks :
        (n : ℕ) (phase : PatternDeletionPhase) (s t : Stored) (app : Application)
        → Breaks answer view s
            (run_phase lib e active (target phase) app (at_phase q phase) phase)
            t
        → Ready phase s app
        → Within lib e f answer view n t
        → Within lib e f answer view (suc n) s
    pass-Breaks n phase s t app h r k =
        Within-Breaks lib e f answer view n s t
          (Breaks-led answer view s t _ _ (Ready-Leads phase s app r) h) k

    hub-Within :
        (s : Stored) (app : Application) → Ready delete_hub s app → Within lib e f answer view 1 s
    hub-Within s app r = Within-Goes lib e f answer view 0 s (with_application s none) refl (
        Goes-led answer view s _ _ _ tt (Ready-Leads delete_hub s app r) (
          hub-Goes lib e f answer view settles active (target delete_hub) app
            (at_phase q delete_hub) s r.here r.placed))

    hub_child-Within :
        (s : Stored) (app : Application)
        → Ready delete_hub_child_apps s app
        → Within lib e f answer view 2 s
    hub_child-Within s app r =
        pass-Breaks 1 delete_hub_child_apps s _ app
          (hub_child-Breaks lib e f answer view settles active (target delete_hub_child_apps) app
            (at_phase q delete_hub_child_apps) s)
          r (hub-Within _ app (Ready-moves delete_hub_child_apps delete_hub s app r))

    abbrev after_sync : Application → Application
    after_sync app = synced lib e f answer view settles app false

    after_sync-keeps :
        (app : Application)
        → ((after_sync app).owner_references ≡ app.owner_references)
          × ((after_sync app).name ≡ app.name)
          × ((after_sync app).namespace ≡ app.namespace)
    after_sync-keeps app = elim (Bool-cases (is_syncing app.operation false)) [
      | inl b ↦ rw b (refl, refl, refl)
      | inr b ↦ rw b (refl, refl, refl)
    ]

    Ready-synced :
        (phase next : PatternDeletionPhase) (s : Stored) (app : Application)
        → Ready phase s app
        → Ready next
            (with_status
              (with_application s (some (after_sync app)))
              (at_phase (at_phase q phase) next).status)
            (after_sync app)
    Ready-synced phase next s app r =
        Ready-moves phase next (with_application s (some (after_sync app))) (after_sync app) (
          Ready-changes phase s app (after_sync app) (after_sync-keeps app).0
            (after_sync-keeps app).1 (after_sync-keeps app).2 r)

    abbrev updated : PatternDeletionPhase → Application → Application
    updated phase app = with_spec (target phase) app

    updated-is_wanted :
        (phase : PatternDeletionPhase) (app : Application)
        → is_wanted phase (updated phase app) ≡ true
    updated-is_wanted phase app =
        new_argo_application-Agrees lib e active f.files (at_phase q phase) (all_built phase).0
          (updated phase app) (target phase) (all_built phase).1 refl refl

    spoke_wanted-Within :
        (s : Stored) (app : Application)
        → Ready delete_spoke s app
        → is_wanted delete_spoke app ≡ true
        → Within lib e f answer view 3 s
    spoke_wanted-Within s app r h =
        pass-Breaks 2 delete_spoke s _ app
          (spoke-Breaks lib e f answer view settles active (target delete_spoke) app
            (at_phase q delete_spoke) s r.here h)
          r
          (hub_child-Within _ (after_sync app)
            (Ready-synced delete_spoke delete_hub_child_apps s app r))

    spoke-Within :
        (s : Stored) (app : Application) → Ready delete_spoke s app → Within lib e f answer view 4 s
    spoke-Within s app r = elim (Bool-cases (is_wanted delete_spoke app)) [
      | inl b ↦ Within-more lib e f answer view 3 s (spoke_wanted-Within s app r b)
      | inr b ↦
          pass-Breaks 3 delete_spoke s _ app
            (spoke_differs-Breaks lib e f answer view settles active (target delete_spoke) app
              (at_phase q delete_spoke) s b)
            r
            (spoke_wanted-Within _ (updated delete_spoke app)
              (Ready-changes delete_spoke s app (updated delete_spoke app) refl refl refl r)
              (updated-is_wanted delete_spoke app))
    ]

    spoke_child_wanted-Within :
        (s : Stored) (app : Application)
        → Ready delete_spoke_child_apps s app
        → is_wanted delete_spoke_child_apps app ≡ true
        → Within lib e f answer view 5 s
    spoke_child_wanted-Within s app r h =
        pass-Breaks 4 delete_spoke_child_apps s _ app
          (spoke_child-Breaks lib e f answer view settles active (target delete_spoke_child_apps)
            app (at_phase q delete_spoke_child_apps) s r.here h)
          r
          (spoke-Within _ (after_sync app)
            (Ready-synced delete_spoke_child_apps delete_spoke s app r))

    spoke_child-Within :
        (s : Stored) (app : Application)
        → Ready delete_spoke_child_apps s app
        → Within lib e f answer view 6 s
    spoke_child-Within s app r = elim (Bool-cases (is_wanted delete_spoke_child_apps app)) [
      | inl b ↦ Within-more lib e f answer view 5 s (spoke_child_wanted-Within s app r b)
      | inr b ↦
          pass-Breaks 5 delete_spoke_child_apps s _ app
            (spoke_child_differs-Breaks lib e f answer view settles active
              (target delete_spoke_child_apps) app (at_phase q delete_spoke_child_apps) s b)
            r
            (spoke_child_wanted-Within _ (updated delete_spoke_child_apps app)
              (Ready-changes delete_spoke_child_apps s app (updated delete_spoke_child_apps app)
                refl refl refl r)
              (updated-is_wanted delete_spoke_child_apps app))
    ]

    first-Within :
        (hub : Bool) (s : Stored) (app : Application)
        → Ready (if hub then delete_spoke_child_apps else delete_hub_child_apps) s app
        → Within lib e f answer view 6 s
    first-Within true s app r = spoke_child-Within s app r
    first-Within false s app r = Within-more lib e f answer view 5 s (
        Within-more lib e f answer view 4 s (
          Within-more lib e f answer view 3 s
            (Within-more lib e f answer view 2 s (hub_child-Within s app r))))

    initialize-Within :
        (s : Stored) (app : Application)
        → Ready initialize_deletion s app
        → Within lib e f answer view 7 s
    initialize-Within s app r =
        pass-Breaks 6 initialize_deletion s _ app
          (initialize-Breaks lib e f answer view settles active (target initialize_deletion) app
            (at_phase q initialize_deletion) s)
          r (first-Within (is_managed_hub f.hub) _ app (Ready-moves initialize_deletion _ s app r))

    from_phase-Within :
        (phase : PatternDeletionPhase) (s : Stored) (app : Application)
        → ((text : String) → phase ≢ other text)
        → Ready phase s app
        → Within lib e f answer view 7 s
    from_phase-Within initialize_deletion s app known r = initialize-Within s app r
    from_phase-Within delete_spoke_child_apps s app known r =
        Within-more lib e f answer view 6 s (spoke_child-Within s app r)
    from_phase-Within delete_spoke s app known r = Within-more lib e f answer view 6 s (
        Within-more lib e f answer view 5 s
          (Within-more lib e f answer view 4 s (spoke-Within s app r)))
    from_phase-Within delete_hub_child_apps s app known r =
        Within-more lib e f answer view 6 s (first-Within false s app r)
    from_phase-Within delete_hub s app known r = Within-more lib e f answer view 6 s (
        Within-more lib e f answer view 5 s (
          Within-more lib e f answer view 4 s (
            Within-more lib e f answer view 3 s (
              Within-more lib e f answer view 2 s
                (Within-more lib e f answer view 1 s (hub-Within s app r))))))
    from_phase-Within (other text) s app known r = absurd (known text refl)

  -- In a settled cluster: if a pattern that asks for pruning is stored in one of the five phases, an
  -- Application is stored under the name that the operator looks for, in the namespace of Argo CD, with
  -- the owner references that SetOwnerReference gives, for this pattern, to an Application without any,
  -- and the Application can be built in every phase, then of at most seven passes of
  -- finalizeObject in a row, each over the pattern as it is stored then, all but the last one fail, so
  -- that the finalizer stays, and the last one returns without an error and has deleted the
  -- Application.
  pub finalize_object-Completes :
      (p : Pattern) (app : Application)
      → wants_pruning p ≡ true
      → ((text : String) → p.status.deletion_phase ≢ other text)
      → IsOwned lib p (ok app)
      → app.name ≡ application_name (defaulted lib e f p)
      → app.namespace ≡ active.namespace
      → BuildsInEveryPhase lib e f (defaulted lib e f p)
      → (w : W) → view w ≡ record { pattern = p; application = some app }
      → Completes lib e f answer view 7 w
  finalize_object-Completes p app prune known owned named placed all_built w h =
      let s : Stored = record { pattern = p; application = some app } in
      (from_phase-Within (defaulted lib e f p) all_built p.status.deletion_phase s app known
          (record {
            prune = prune;
            in_phase = refl;
            here = refl;
            owned = owned;
            named = named;
            placed = placed;
          })).passes
        w h
