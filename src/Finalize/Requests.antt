-- ===== src/Finalize/Requests.antt =====
-- What a whole deletion pass may send (internal/controller/pattern_controller.go, finalizeObject).
use patterns_operator.Prelude.{
  ℕ, ◌+◌, String, true, false, Option, none, some, List, [], ◌∷◌, refl, subst, arith, eq_iff, ◌==◌,
  Bool-cases, inl, inr, All,
}
use patterns_operator.Errors.{Err, Result, ok, err}
use patterns_operator.Api.{
  Pattern, PatternDeletionPhase, initialize_deletion, delete_spoke_child_apps, delete_spoke,
  delete_hub_child_apps, delete_hub, other,
}
use patterns_operator.Library.{Library}
use patterns_operator.Defaults.{Env, ActiveArgo}
use patterns_operator.Argo.{Application}
use patterns_operator.Argo.Build.{new_argo_application}
use patterns_operator.Applications.{remove_application}
use patterns_operator.Acm.{
  list_managed_clusters, delete_managed_clusters, delete_each, local_cluster,
}
use patterns_operator.Clusters.Keeps.{SameIdentity, Kept, apply_defaults-keeps}
use patterns_operator.Cluster.{Request, ask}
use patterns_operator.Cluster.Runs.{Environment, AnyReply, Always-bind, Always-run, run}
use patterns_operator.Finalize.{
  delete_spoke_apps, remove_managed_clusters, clear_managed_clusters, delete_hub_apps, run_phase,
  update_deletion_phase, finalize_found, finalize_built, finalize_application, finalize_defaulted,
  finalize_object,
}
use patterns_operator.Finalize.Safety.{
  Edge, spokes_first, hub_only, spoke_children_gone, spoke_gone, hub_children_gone, Allowed,
  AnyOutcome, Safe, Safe-pure, Safe-fail, Safe-call, Safe-if, Safe-bind, Safe-attempt, Safe-result,
  have_acm_hub-Safe, sync_application-Safe, get_child_applications-Safe, sync_all-Safe,
  get_application_or_err-Safe, require_unchanged-Safe, wrapping-Safe,
  check_spoke_applications_gone-Safe, detect_argo_namespace-Safe,
}

update_deletion_phase-Safe :
    (phase next : PatternDeletionPhase) (p : Pattern)
    → Edge phase next
    → Safe phase (update_deletion_phase p next)
unfolding update_deletion_phase
update_deletion_phase-Safe phase next p h = Safe-call phase _ _ h (
    Safe-result phase _
      (λ _. Safe-call phase _ _ tt (Safe-result phase _ (Safe-pure phase) (λ x. Safe-fail phase _)))
      (λ x. Safe-fail phase _))

delete_each-Safe :
    (count : ℕ) (names : List String) → Safe delete_hub_child_apps (delete_each count names)
unfolding delete_each
delete_each-Safe count [] = Safe-pure delete_hub_child_apps count
delete_each-Safe count (name ∷ names) = elim (Bool-cases (name == local_cluster)) [
  | inl e ↦ rw e (delete_each-Safe count names)
  | inr e ↦ rw e (
      Safe-call delete_hub_child_apps (Request.delete_managed_cluster name) _
        (refl, ground (arith, eq_iff name local_cluster))
        (Safe-result delete_hub_child_apps _ (λ _. delete_each-Safe (count + 1) names)
          (λ x.
            Safe-if delete_hub_child_apps _ _ _ (delete_each-Safe count names)
              (Safe-fail delete_hub_child_apps _))))
]

delete_managed_clusters-Safe : Safe delete_hub_child_apps delete_managed_clusters
unfolding delete_managed_clusters
delete_managed_clusters-Safe = Safe-call delete_hub_child_apps _ _ tt (
    Safe-result delete_hub_child_apps _ (delete_each-Safe 0)
      (λ x. Safe-fail delete_hub_child_apps _))

list_managed_clusters-Safe : Safe delete_hub_child_apps list_managed_clusters
unfolding list_managed_clusters
list_managed_clusters-Safe = Safe-call delete_hub_child_apps _ _ tt (
    Safe-result delete_hub_child_apps _ (λ a. Safe-pure delete_hub_child_apps _)
      (λ x. Safe-fail delete_hub_child_apps _))

remove_application-Safe : (n ns : String) → Safe delete_hub (remove_application n ns)
unfolding remove_application
remove_application-Safe n ns =
    Safe-call delete_hub (Request.delete_application n ns) _ refl
      (Safe-result delete_hub _ (Safe-pure _) (Safe-fail _))

delete_link-Safe : (name : String) → Safe delete_hub (ask (Request.delete_console_link name))
unfolding ask
delete_link-Safe name = Safe-call delete_hub (Request.delete_console_link name) _ refl (Safe-pure _)

module _ (lib : Library) (e : Env) (active : ActiveArgo) (target app : Application) where
  clear_managed_clusters-Safe :
      Safe delete_hub_child_apps (clear_managed_clusters lib e active target app)
  unfolding clear_managed_clusters remove_managed_clusters
  clear_managed_clusters-Safe = Safe-bind delete_hub_child_apps _ _ (have_acm_hub-Safe _) (λ hub.
      Safe-if delete_hub_child_apps _ _ _
        (Safe-bind delete_hub_child_apps _ _ (Safe-attempt _ _ list_managed_clusters-Safe) (
          Safe-result delete_hub_child_apps _
            (λ names.
              Safe-if delete_hub_child_apps _ _ _
                (Safe-bind delete_hub_child_apps _ _
                  (wrapping-Safe _ _ _ delete_managed_clusters-Safe)
                  (λ count. Safe-if delete_hub_child_apps _ _ _ (Safe-fail _ _) (Safe-pure _ _)))
                (Safe-pure _ _))
            (λ x. Safe-pure _ _)))
        (Safe-pure _ _))

  delete_spoke_apps-Safe : Safe delete_spoke_child_apps (delete_spoke_apps lib e active target app)
  unfolding delete_spoke_apps
  delete_spoke_apps-Safe =
      Safe-bind delete_spoke_child_apps _ _ (require_unchanged-Safe _ target app _ _) (λ _.
        Safe-bind delete_spoke_child_apps _ _ (sync_application-Safe _ app false) (λ _.
          Safe-bind delete_spoke_child_apps _ _ (get_child_applications-Safe _ app) (λ apps.
            Safe-bind delete_spoke_child_apps _ _ (sync_all-Safe _ apps false) (λ _.
              Safe-bind delete_spoke_child_apps _ _
                (wrapping-Safe _ _ _ (check_spoke_applications_gone-Safe _ lib e active false))
                (λ gone. Safe-if delete_spoke_child_apps _ _ _ (Safe-pure _ _) (Safe-fail _ _))))))

  delete_hub_apps-Safe : Safe delete_hub_child_apps (delete_hub_apps lib e active target app)
  unfolding delete_hub_apps
  delete_hub_apps-Safe =
      Safe-bind delete_hub_child_apps _ _ (wrapping-Safe _ _ _ (get_child_applications-Safe _ app))
        (λ apps.
          Safe-if delete_hub_child_apps _ _ _
            (Safe-bind delete_hub_child_apps _ _ clear_managed_clusters-Safe (λ _.
              Safe-bind delete_hub_child_apps _ _ (require_unchanged-Safe _ target app _ _) (λ _.
                Safe-bind delete_hub_child_apps _ _ (sync_application-Safe _ app true)
                  (λ _. Safe-fail _ _))))
            (Safe-pure _ _))

  run_phase-Safe :
      (q : Pattern) (phase : PatternDeletionPhase)
      → Safe phase (run_phase lib e active target app q phase)
  unfolding run_phase
  run_phase-Safe q initialize_deletion =
      Safe-bind initialize_deletion _ _ (have_acm_hub-Safe _) (elim [
        | true ↦
            Safe-bind initialize_deletion _ _ (update_deletion_phase-Safe _ _ q spokes_first)
              (λ _. Safe-fail _ _)
        | false ↦
            Safe-bind initialize_deletion _ _ (update_deletion_phase-Safe _ _ q hub_only)
              (λ _. Safe-fail _ _)
      ])
  run_phase-Safe q delete_spoke_child_apps =
      Safe-bind delete_spoke_child_apps _ _ delete_spoke_apps-Safe (λ _.
        Safe-bind delete_spoke_child_apps _ _ (update_deletion_phase-Safe _ _ q spoke_children_gone)
          (λ _. Safe-fail _ _))
  run_phase-Safe q delete_spoke =
      Safe-bind delete_spoke _ _ (require_unchanged-Safe _ target app _ _) (λ _.
        Safe-bind delete_spoke _ _ (sync_application-Safe _ app false) (λ _.
          Safe-bind delete_spoke _ _ (get_child_applications-Safe _ app) (λ apps.
            Safe-bind delete_spoke _ _ (sync_all-Safe _ apps true) (λ _.
              Safe-bind delete_spoke _ _
                (wrapping-Safe _ _ _ (check_spoke_applications_gone-Safe _ lib e active true))
                (λ _.
                  Safe-bind delete_spoke _ _ (update_deletion_phase-Safe _ _ q spoke_gone)
                    (λ _. Safe-fail _ _))))))
  run_phase-Safe q delete_hub_child_apps =
      Safe-bind delete_hub_child_apps _ _ delete_hub_apps-Safe (λ _.
        Safe-bind delete_hub_child_apps _ _ (update_deletion_phase-Safe _ _ q hub_children_gone)
          (λ _. Safe-fail _ _))
  run_phase-Safe q delete_hub =
      Safe-bind delete_hub _ _ (remove_application-Safe app.name active.namespace) (λ _.
        Safe-if delete_hub _ _ _ (Safe-pure _ _)
          (Safe-bind delete_hub _ _ (delete_link-Safe _) (λ x. Safe-pure _ _)))
  run_phase-Safe q (other s) = Safe-pure _ _

module _ (lib : Library) (e : Env) where
  finalize_found-Safe :
      (active : ActiveArgo) (target : Application) (q : Pattern) (r : Result Application)
      → Safe q.status.deletion_phase (finalize_found lib e active target q r)
  finalize_found-Safe active target q (err x) = Safe-pure _ _
  finalize_found-Safe active target q (ok app) =
      Safe-if q.status.deletion_phase _ _ _
        (run_phase-Safe lib e active target app q q.status.deletion_phase) (Safe-pure _ _)

  finalize_built-Safe :
      (active : ActiveArgo) (q : Pattern) (o : Option Application)
      → Safe q.status.deletion_phase (finalize_built lib e active q o)
  finalize_built-Safe active q none = record { paths = tt }
  finalize_built-Safe active q (some built) =
      Safe-bind q.status.deletion_phase _ _ (get_application_or_err-Safe _ _ _)
        (finalize_found-Safe active _ q)

  finalize_application-Safe :
      (q : Pattern) → Safe q.status.deletion_phase (finalize_application lib e q)
  unfolding finalize_application
  finalize_application-Safe q =
      Safe-bind q.status.deletion_phase _ _ (detect_argo_namespace-Safe _) (λ active.
        Safe-call q.status.deletion_phase Request.read_files _ tt
          (λ files. finalize_built-Safe active q (new_argo_application lib e active files q)))

  finalize_defaulted-Safe :
      (p q : Pattern) (failure : Option Err)
      → SameIdentity p q
      → Safe p.status.deletion_phase (finalize_defaulted lib e (q, failure))
  finalize_defaulted-Safe p q (some x) h = Safe-pure _ _
  finalize_defaulted-Safe p q none h =
      subst (λ phase. Safe phase (finalize_application lib e q)) h.5 (finalize_application-Safe q)

  pub finalize_object-Safe : (p : Pattern) → Safe p.status.deletion_phase (finalize_object lib e p)
  unfolding finalize_object
  finalize_object-Safe p =
      Safe-if p.status.deletion_phase _ _ _
        (record {
          paths =
              Always-bind AnyReply (Allowed p.status.deletion_phase) (Kept p) AnyOutcome _ _
                (apply_defaults-keeps AnyReply (Allowed p.status.deletion_phase) tt tt tt tt lib e
                  p)
                ((λ _ _. tt), λ _. tt)
                (λ (q, failure) h. (finalize_defaulted-Safe p q failure h).paths);
        })
        (Safe-pure _ _)

-- Whatever answers the requests of one pass of `finalizeObject`: the Application and the console link
-- are deleted only in phase DeleteHub; managed clusters only in phase DeleteHubChildApps, and never
-- the local cluster; a status that is written takes the phase along an edge of the phase diagram; and
-- nothing is created, nor the pattern's metadata or spec written.
pub finalize_object-requests :
    {W : Type 0} (lib : Library) (e : Env) (answer : Environment W) (p : Pattern) (w : W)
    → All (Allowed p.status.deletion_phase) (run answer (finalize_object lib e p) w).0
finalize_object-requests lib e answer p w =
    (Always-run answer AnyReply (λ r w. tt) (Allowed p.status.deletion_phase) AnyOutcome _
      (finalize_object-Safe lib e p).paths w).0
