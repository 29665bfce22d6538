-- ===== src/Finalize.antt =====
-- Deletion of a pattern (internal/controller/pattern_controller.go, finalizeObject): the phases.
pub mod Safety
pub mod Requests
pub mod Kept
pub mod Phases
pub mod Drained
pub mod Gives
pub mod Progress
pub mod Settled
pub mod Steps
pub mod Turns
pub mod Countdown
pub mod Completes
use patterns_operator.Prelude.{
  ℕ, zero, suc, String, Bool, true, false, not, ◌&&◌, ◌||◌, Option, none, some, List, [], ◌∷◌, ◌==◌,
  ◌^◌, contains, equal_fold, length, ltb, if◌then◌else◌,
}
use patterns_operator.Errors.{Err, Result, ok, err, errorf, wrap}
use patterns_operator.Api.{
  Pattern, PatternDeletionPhase, initialize_deletion, delete_spoke_child_apps, delete_spoke,
  delete_hub_child_apps, delete_hub, other, annotation, prune_annotation, pattern_finalizer,
}
use patterns_operator.Library.{Library}
use patterns_operator.Defaults.{Env, ActiveArgo, is_legacy_argo_namespace}
use patterns_operator.Kube.Owner.{OwnerReference, owned_by_same}
use patterns_operator.Argo.{Application}
use patterns_operator.Argo.Build.{application_name, new_argo_application}
use patterns_operator.Applications.{
  get_application_or_err, update_application, remove_application, sync_application,
  get_child_applications,
}
use patterns_operator.Acm.{have_acm_hub, list_managed_clusters, delete_managed_clusters}
use patterns_operator.Clusters.{apply_defaults, detect_argo_namespace}
use patterns_operator.Spokes.{check_spoke_applications_gone}
use patterns_operator.Cluster.{
  Prog, pure, fail, panic, ask, attempt, or_panic, ◌>>=◌, ◌>>◌, get_pattern, update_pattern_status,
  read_files, delete_console_link,
}

-- The error of a step, with a text in front.
abbrev pub reworded : {A : Type 0} → String → Result A → Prog A
reworded text (ok a) = pure a
reworded text (err x) = fail (wrap (text ^ x.message) x)

unfoldable pub wrapping : {A : Type 0} → String → Prog A → Prog A
unfolding ◌>>=◌ attempt
wrapping text m = do outcome ← attempt m; reworded text outcome

-- The pattern is written with the new phase and read again; only its status is kept by the server.
unfoldable pub update_deletion_phase : Pattern → PatternDeletionPhase → Prog Pattern
unfolding ask ◌>>=◌
update_deletion_phase instance phase = do
  written ← ask (
      update_pattern_status
        (record instance { status = record instance.status { deletion_phase = phase } }))
  reworded "failed to update deletion phase: " written
  read ← ask (get_pattern instance.name instance.namespace)
  reworded "failed to re-fetch pattern after phase update: " read

-- The two tests after `updateApplication`.
abbrev pub unchanged : String → Bool × Option Err → Prog (Unit {0})
unchanged purpose (changed, some x) =
    fail (errorf ("failed to update application " ^ purpose ^ ": " ^ x.message))
unchanged purpose (true, none) = fail (errorf ("updated application " ^ purpose))
unchanged purpose (false, none) = pure tt

-- `updateApplication`, and an error whether it failed or sent an update.
unfoldable pub require_unchanged : Application → Application → String → String → Prog (Unit {0})
unfolding ◌>>=◌
require_unchanged target app namespace purpose = do
  updated ← update_application (some target) (some app) namespace
  unchanged ("\"" ^ app.name ^ "\" for " ^ purpose) updated

-- `syncApplication` on each child in turn.
unfoldable pub sync_all : List Application → Bool → Prog (Unit {0})
unfolding ◌>>=◌
sync_all [] with_prune = pure tt
sync_all (a ∷ as') with_prune = do sync_application a with_prune; sync_all as' with_prune

module _ (lib : Library) (e : Env) (active : ActiveArgo) (target app : Application) where
  -- deleteSpokeApps
  unfoldable pub delete_spoke_apps : Prog (Unit {0})
  unfolding ◌>>=◌
  delete_spoke_apps = do
    require_unchanged target app active.namespace "spoke child deletion"
    sync_application app false
    child_apps ← get_child_applications app
    sync_all child_apps false
    all_gone ←
        wrapping "error checking child applications: "
          (check_spoke_applications_gone lib e active false)
    if all_gone
        then pure tt
        else fail (errorf "waiting for child applications to be deleted from spoke clusters")

  unfoldable pub remove_managed_clusters : Prog (Unit {0})
  unfolding ◌>>=◌
  remove_managed_clusters = do
    count ← wrapping "failed to delete managed clusters: " delete_managed_clusters
    if ltb 0 count
        then fail (errorf "deleted managed cluster(s), waiting for removal to complete")
        else pure tt

  -- An error of the listing is ignored: the list is then empty.
  abbrev pub remove_listed : Result (List String) → Prog (Unit {0})
  remove_listed (err _) = pure tt
  remove_listed (ok names) = if ltb 0 (length names) then remove_managed_clusters else pure tt

  -- The managed clusters are deleted where the pattern is in charge of the hub.
  unfoldable pub clear_managed_clusters : Prog (Unit {0})
  unfolding ◌>>=◌ attempt
  clear_managed_clusters = do
    hub ← have_acm_hub
    let clear : Prog (Unit {0}) = (do listed ← attempt list_managed_clusters; remove_listed listed)
    if hub then clear else pure tt

  -- deleteHubApps
  unfoldable pub delete_hub_apps : Prog (Unit {0})
  unfolding ◌>>=◌
  delete_hub_apps = do
    child_apps ← wrapping "failed to get child applications: " (get_child_applications app)
    let drain : Prog (Unit {0}) = (do
      clear_managed_clusters
      require_unchanged target app active.namespace "hub deletion"
      sync_application app true
      fail (errorf "waiting for hub child applications to be removed"))
    if ltb 0 (length child_apps) then drain else pure tt

  -- One pass of `finalizeObject` over an owned application, by the phase of the pattern.
  unfoldable pub run_phase : Pattern → PatternDeletionPhase → Prog (Unit {0})
  run_phase q initialize_deletion = do
    hub ← have_acm_hub
    update_deletion_phase q (if hub then delete_spoke_child_apps else delete_hub_child_apps)
    fail (errorf "initialized deletion phase, requeueing now")
  run_phase q delete_spoke_child_apps = do
    delete_spoke_apps
    update_deletion_phase q delete_spoke
    fail (errorf "all child applications are gone, transitioning to DeleteSpoke phase")
  run_phase q delete_spoke = do
    require_unchanged target app active.namespace "spoke app of apps deletion"
    sync_application app false
    child_apps ← get_child_applications app
    sync_all child_apps true
    wrapping "error checking applications: " (check_spoke_applications_gone lib e active true)
    update_deletion_phase q delete_hub_child_apps
    fail (errorf "app of apps are gone from spokes, transitioning to DeleteHubChildApps phase")
  run_phase q delete_hub_child_apps = do
    delete_hub_apps
    update_deletion_phase q delete_hub
    fail (errorf "apps are gone from hub, transitioning to DeleteHub phase")
  run_phase q delete_hub = do
    remove_application app.name active.namespace
    let remove_link : Prog (Unit {0}) = (do
      ask (delete_console_link (active.name ^ "-gitops-link"))
      pure tt)
    if is_legacy_argo_namespace active then pure tt else remove_link
  run_phase q (other s) = pure tt

abbrev orphan_finalizer : String
orphan_finalizer = "orphan"

-- Whether the pattern asks for the removal of what it deployed.
unfoldable pub wants_pruning : Pattern → Bool
wants_pruning p =
    equal_fold (annotation prune_annotation p.annotations) "true"
    && (contains p.finalizers pattern_finalizer || contains p.finalizers orphan_finalizer)

abbrev pub finalize_found :
    Library → Env → ActiveArgo → Application → Pattern → Result Application → Prog (Unit {0})
finalize_found lib e active target q (err _) = pure tt
finalize_found lib e active target q (ok app) =
    if owned_by_same lib.parse_group_version target.owner_references app.owner_references
    then run_phase lib e active target app q q.status.deletion_phase
    else pure tt

abbrev pub finalize_built :
    Library → Env → ActiveArgo → Pattern → Option Application → Prog (Unit {0})
finalize_built lib e active q none = panic
finalize_built lib e active q (some built) = do
  found ← get_application_or_err (application_name q) active.namespace
  finalize_found lib e active (record built { owner_references = lib.set_owner_reference q built })
      q found

-- The part of `finalizeObject` from the detection of the Argo CD namespace on.
unfoldable pub finalize_application : Library → Env → Pattern → Prog (Unit {0})
unfolding ◌>>=◌ ask
finalize_application lib e q = do
  active ← detect_argo_namespace
  files ← ask read_files
  finalize_built lib e active q (new_argo_application lib e active files q)

-- An error of the defaults is logged and ends the finalization with success.
abbrev pub finalize_defaulted : Library → Env → Pattern × Option Err → Prog (Unit {0})
finalize_defaulted lib e (q, some _) = pure tt
finalize_defaulted lib e (q, none) = finalize_application lib e q

unfoldable pub finalize_object : Library → Env → Pattern → Prog (Unit {0})
unfolding ◌>>=◌
finalize_object lib e instance =
    let prune : Prog (Unit {0}) = (do
      defaulted ← apply_defaults lib e instance
      finalize_defaulted lib e defaulted) in
    if wants_pruning instance then prune else pure tt
