-- ===== src/Stages/Target.antt =====
-- The Application of a reconciliation (internal/controller/pattern_controller.go,
-- reconcileApplication).
use patterns_operator.Prelude.{String, Bool, true, false, Option, none, some, ◌^◌, if◌then◌else◌}
use patterns_operator.Errors.{Err, Result, ok, err, errorf}
use patterns_operator.Api.{Pattern}
use patterns_operator.Library.{Library}
use patterns_operator.Defaults.{Env, ActiveArgo}
use patterns_operator.Kube.Owner.{owned_by_same}
use patterns_operator.Argo.{Application}
use patterns_operator.Argo.Build.{application_name, new_argo_application}
use patterns_operator.Applications.{get_application_or_err, create, update_application}
use patterns_operator.Cluster.{panic, ask, attempt, ◌>>=◌, ◌>>◌, read_files, remove_local_git_paths}
use patterns_operator.Stages.{Stage, done, go_on, with_next_version}

module _ (lib : Library) (e : Env) (q : Pattern) (active : ActiveArgo) where
  abbrev report_application : Bool × Option Err → Stage
  report_application (false, failure) = go_on
  report_application (true, failure) = do
    ask remove_local_git_paths
    done (with_next_version q failure) "updated application" failure

  abbrev create_target : Application → Stage
  create_target target = do
    made ← attempt (create target active.namespace)
    elim made [
      | ok _ ↦ done q "create application" none
      | err x ↦ done q "create application" (some x)
    ]

  abbrev pub align_application : Application → Result Application → Stage
  align_application target (err _) = create_target target
  align_application target (ok app) =
      let lost : String = "we no longer own Application \"" ^ target.name ^ "\"" in
      if owned_by_same lib.parse_group_version target.owner_references app.owner_references
      then update_application (some target) (some app) active.namespace >>= report_application
      else done q "create application" (some (errorf lost))

  abbrev pub target_application : Option Application → Stage
  target_application none = panic
  target_application (some built) = do
    found ← get_application_or_err (application_name q) active.namespace
    align_application (record built { owner_references = lib.set_owner_reference q built }) found

  unfoldable pub reconcile_application : Stage
  reconcile_application = do
    files ← ask read_files
    target_application (new_argo_application lib e active files q)
