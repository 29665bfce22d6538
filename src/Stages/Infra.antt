-- ===== src/Stages/Infra.antt =====
-- Argo CD in a reconciliation (internal/controller/pattern_controller.go, reconcileArgoInfra).
use patterns_operator.Prelude.{
  String, Bool, true, false, not, ◌&&◌, none, some, ◌==◌, ◌^◌, if◌then◌else◌,
}
use patterns_operator.Errors.{errorf}
use patterns_operator.Api.{Pattern}
use patterns_operator.Defaults.{ActiveArgo, is_legacy_argo_namespace}
use patterns_operator.Config.{Config}
use patterns_operator.Services.{Services}
use patterns_operator.Bootstrap.{
  have_namespace, create_namespace, create_trusted_bundle_cm, is_trusted_bundle_cm_populated,
  create_or_update_console_link,
}
use patterns_operator.Cluster.{◌>>=◌}
use patterns_operator.Stages.{Stage, done, go_on, checked}

module _ (svc : Services) (icon : String) (q : Pattern) (active : ActiveArgo)
    (config : Config) where
  abbrev missing_namespace : Stage
  missing_namespace =
      let make : Stage =
        checked q "error creating ArgoCD namespace" (create_namespace active.namespace)
          (λ _. done q "created ArgoCD namespace" none) in
      if is_legacy_argo_namespace active
      then done q "check application namespace" (some (errorf "waiting for creation"))
      else make

  abbrev console_link : Stage
  console_link =
      let link : Stage =
        checked q "error creating ConsoleLink for ArgoCD"
          (create_or_update_console_link icon active.name active.namespace
            q.status.app_cluster_domain)
          (λ _. go_on) in
      if not (is_legacy_argo_namespace active) && not (q.status.app_cluster_domain == "")
      then link
      else go_on

  abbrev populated_bundle : Bool → Stage
  populated_bundle false = done q "waiting for trusted-ca-bundle to be populated" (
      some (
        errorf (
          "trusted-ca-bundle configmap in " ^ active.namespace
          ^ " not yet populated by cluster network operator")))
  populated_bundle true =
      checked q "created or updated clusterwide argo instance"
        (svc.create_or_update_argo_cd active config) (λ _. console_link)

  abbrev found_namespace : Stage
  found_namespace =
      checked q "error while creating trustedbundle cm" (create_trusted_bundle_cm active.namespace)
        (λ _.
          checked q "error checking trusted-ca-bundle population"
            (is_trusted_bundle_cm_populated active.namespace) populated_bundle)

  unfoldable pub reconcile_argo_infra : Stage
  reconcile_argo_infra = do
    present ← have_namespace active.namespace
    if present then found_namespace else missing_namespace
