-- ===== src/Reconcile.antt =====
-- One pass of the controller over a Pattern (internal/controller/pattern_controller.go, Reconcile).
pub mod Deletion
pub mod Finalizer
use patterns_operator.Prelude.{
  ℕ, String, Bool, true, false, not, ◌&&◌, ◌||◌, Option, none, some, List, [], ◌∷◌, ◌++◌, ◌==◌,
  contains, has_substring, if◌then◌else◌,
}
use patterns_operator.Errors.{Err, Result, ok, err, is_not_found}
use patterns_operator.Api.{Pattern, PatternApplicationInfo, is_being_deleted, pattern_finalizer}
use patterns_operator.Library.{Library}
use patterns_operator.Defaults.{Env, ActiveArgo}
use patterns_operator.Config.{
  Config, get_patterns_operator_config_map, create_patterns_operator_config_map,
}
use patterns_operator.Services.{Services}
use patterns_operator.Conditions.{set_pattern_condition, remove_pattern_condition}
use patterns_operator.Bootstrap.{copy_auth_git_secret}
use patterns_operator.Argo.Build.{application_name}
use patterns_operator.Clusters.{apply_defaults, detect_argo_namespace}
use patterns_operator.Finalize.{finalize_object}
use patterns_operator.Stages.{Requeue, Stage, go_on, done, checked, and_then, with_step}
use patterns_operator.Stages.Subscribe.{reconcile_git_ops_subscription}
use patterns_operator.Stages.Infra.{reconcile_argo_infra}
use patterns_operator.Stages.Target.{reconcile_application}
use patterns_operator.Gitea.{create_gitea_instance}
use patterns_operator.Checkout.{get_local_git}
use patterns_operator.Details.{update_pattern_cr_details}
use patterns_operator.Cluster.{
  Request, Prog, pure, fail, panic, ask, from_result, attempt, ◌>>=◌, ◌>>◌, get_pattern,
  update_pattern, update_pattern_status,
}

-- controllerutil.AddFinalizer and RemoveFinalizer
abbrev pub with_finalizer : Pattern → Pattern
with_finalizer p = record p { finalizers = p.finalizers ++ pattern_finalizer ∷ [] }

abbrev without : String → List String → List String
without s [] = []
without s (x ∷ xs) = let rest = without s xs in if x == s then rest else x ∷ rest

abbrev pub without_finalizer : Pattern → Pattern
without_finalizer p = record p { finalizers = without pattern_finalizer p.finalizers }

abbrev secret_name : String
secret_name = "vp-private-repo-credentials"

-- Missing is the type of the condition that the controller sets when a values file is not there.
abbrev missing_condition : String
missing_condition = "Missing"

module _ (svc : Services) (lib : Library) (e : Env) (icon : String) (now : ℕ) where
  abbrev completed : Pattern → Stage
  completed q =
      let update : Stage =
        attempt
          (ask (update_pattern_status (with_step q "reconcile complete" none)) >>= from_result)
        >> pure (some (some 180)) in
      if not (q.status.last_step == "reconcile complete") || not (q.status.last_error == "")
      then update
      else pure (some (some 180))

  -- The Applications are read and the end reported; errors of both are ignored.
  abbrev report : Pattern → Stage
  report q = do
    (details, updated) ← update_pattern_cr_details q
    (ended, sent) ← svc.send_pattern_end_event_info details
    completed ended

  abbrev copy_secret : Pattern → String → Stage → Stage
  copy_secret q namespace next =
      if q.spec.git_config.token_secret == ""
      then next
      else checked q "copying clusterwide git auth secret to namespaced argo"
          (copy_auth_git_secret q.spec.git_config.token_secret_namespace
            q.spec.git_config.token_secret namespace secret_name)
          (λ _. next)

  abbrev application_stage : ActiveArgo → Pattern → Stage
  application_stage active q =
      reconcile_application lib e q active
      >>= and_then (copy_secret q (application_name q) (report q))

  -- The condition Missing tells whether the values file of the cluster group is there.
  abbrev checked_out : ActiveArgo → Pattern → String × Option Err → Stage
  checked_out active q (text, none) =
      application_stage active (remove_pattern_condition q missing_condition)
  checked_out active q (text, some x) =
      if text == "prerequisite validation"
        && has_substring x.message "required values file not found"
      then done (set_pattern_condition now q missing_condition "True" x.message) text (some x)
      else done (remove_pattern_condition q missing_condition) text (some x)

  abbrev git_stage : ActiveArgo → Pattern × Option Err → Stage
  git_stage active (q, some x) = done q "error created gitea instance" (some x)
  git_stage active (q, none) = get_local_git svc q >>= checked_out active q

  abbrev gitea_stage : ActiveArgo → Config → Pattern → Stage
  gitea_stage active config q =
      if q.spec.git_config.origin_repo == ""
      then git_stage active (q, none)
      else create_gitea_instance svc lib active config q >>= git_stage active

  abbrev argo_stage : ActiveArgo → Config → Pattern → Stage
  argo_stage active config q =
      attempt svc.start_argo_cd_watch
      >> (reconcile_argo_infra svc icon q active config
          >>= and_then (copy_secret q active.namespace (gitea_stage active config q)))

  abbrev subscription_stage : ActiveArgo → Config → Pattern → Stage
  subscription_stage active config q =
      reconcile_git_ops_subscription lib e q active config >>= and_then (argo_stage active config q)

  abbrev start_event : ActiveArgo → Config → Pattern × Bool → Stage
  start_event active config (q, true) = done q "Updated status with start event sent" none
  start_event active config (q, false) = subscription_stage active config q

  abbrev installation_event : ActiveArgo → Config → Pattern × Bool → Stage
  installation_event active config (q, true) = done q "Updated status with identity sent" none
  installation_event active config (q, false) =
      svc.send_pattern_start_event_info q >>= start_event active config

  abbrev with_defaults : Config → Pattern × Option Err → Stage
  with_defaults config (q, some x) = done q "applying defaults" (some x)
  with_defaults config (q, none) = do
    active ← detect_argo_namespace
    sent ← svc.send_pattern_installation_info q
    installation_event active config sent

  -- The stages for a pattern that has its finalizer and is not being deleted.
  unfoldable pub reconcile_live : Config → Pattern → Stage
  reconcile_live config p =
      attempt svc.create_or_update_plugin
      >> (attempt svc.enable_plugin >> (apply_defaults lib e p >>= with_defaults config))

  abbrev added : Pattern → Result Pattern → Stage
  added p (ok q) = done q "updated finalizer" none
  added p (err x) = done (with_finalizer p) "updated finalizer" (some x)

  unfoldable pub add_finalizer : Pattern → Stage
  add_finalizer p = ask (update_pattern (with_finalizer p)) >>= added p

  abbrev removed : Result Pattern → Stage
  removed (ok q) = pure (some none)
  removed (err x) = fail x

  -- The finalizer goes once `finalizeObject` has returned without an error.
  abbrev pub finalized : Pattern → Result (Unit {0}) → Stage
  finalized p (err x) = done p "finalize" (some x)
  finalized p (ok _) = ask (update_pattern (without_finalizer p)) >>= removed

  unfoldable pub reconcile_deleted : Pattern → Stage
  reconcile_deleted p = attempt (finalize_object lib e p) >>= finalized p

  unfoldable pub by_deletion : Pattern → Config → Stage
  by_deletion p config =
      if is_being_deleted p
      then reconcile_deleted p
      else if contains p.finalizers pattern_finalizer
      then reconcile_live config p
      else add_finalizer p

  abbrev catalog_stage : Pattern → Option Config → Config → Stage
  catalog_stage p config_map config =
      checked p "unable to create/update catalog deployment"
        (svc.create_or_update_catalog config_map) (λ _. by_deletion p config)

  -- A ConfigMap that is created leaves the configuration empty.
  abbrev with_config_map : Pattern → Option Config → Stage
  with_config_map p (some m) = catalog_stage p (some m) m
  with_config_map p none =
      checked p "failed to create the configuration ConfigMap"
        (create_patterns_operator_config_map e) (λ made. catalog_stage p made [])

  unfoldable pub reconcile_found : Result Pattern → Stage
  reconcile_found (err x) = if is_not_found x then pure (some none) else fail x
  reconcile_found (ok p) =
      checked p "failed to get the configuration ConfigMap" (get_patterns_operator_config_map e)
        (with_config_map p)

  unfoldable pub reconcile : String → String → Stage
  reconcile name namespace = ask (get_pattern name namespace) >>= reconcile_found
