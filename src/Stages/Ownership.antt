-- ===== src/Stages/Ownership.antt =====
-- The Application that the operator does not own (internal/controller/pattern_controller.go,
-- reconcileApplication).
use patterns_operator.Prelude.{String, ℕ, false, Option, some, [], ◌≡◌, ◌^◌}
use patterns_operator.Errors.{Err, Result, ok, err, errorf}
use patterns_operator.Api.{Pattern}
use patterns_operator.Library.{Library}
use patterns_operator.Defaults.{Env, ActiveArgo}
use patterns_operator.Kube.Owner.{owned_by_same}
use patterns_operator.Argo.{Application}
use patterns_operator.Argo.Build.{application_name}
use patterns_operator.Cluster.{Request}
use patterns_operator.Cluster.Runs.{Outcome, returned, failed, panicked, Rely}

-- The Application is there, and lacks an owner reference that an Application without any gets from the
-- pattern.
abbrev IsForeign : Library → Pattern → Result Application → Type 0
IsForeign lib q (err _) = ⊥
IsForeign lib q (ok app) =
    (built : Application)
    → built.owner_references ≡ []
    → owned_by_same lib.parse_group_version (lib.set_owner_reference q built) app.owner_references
      ≡ false

abbrev pub Foreign : Library → Pattern → Rely
Foreign lib q (Request.get_application n ns) x = IsForeign lib q x
Foreign lib q r x = Unit

-- Reads, and a status that differs from the pattern's in the failed step and its error alone.
abbrev pub OnlyReports : Pattern → Request → Type 0
OnlyReports q (Request.get_application n ns) = Unit
OnlyReports q Request.read_files = Unit
OnlyReports q (Request.update_pattern_status p) = p ≡ record q {
  status = record q.status {
    last_step = "create application";
    last_error = "we no longer own Application \"" ^ application_name q ^ "\"";
  };
}
OnlyReports q _ = ⊥

-- The reconciliation ends: after a minute again, or with the error of the status update or a panic.
abbrev pub IsStopped : Outcome (Option (Option ℕ)) → Type 0
IsStopped (returned r) = r ≡ some (some 60)
IsStopped (failed x) = Unit
IsStopped panicked = Unit

module _ (lib : Library) (e : Env) (q : Pattern) (active : ActiveArgo) where
  -- The text of the error, for the Application of that name.
  abbrev lost : String → Err
  lost name = errorf ("we no longer own Application \"" ^ name ^ "\"")
