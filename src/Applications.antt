-- ===== src/Applications.antt =====
-- The requests about Argo CD Applications (internal/controller/argo.go).
use patterns_operator.Prelude.{
  String, Bool, true, false, ◌&&◌, Option, none, some, List, [], ◌∷◌, ◌^◌, bool_eq, contains,
  lookup, starts_with, if◌then◌else◌,
}
use patterns_operator.Errors.{Err, Result, ok, err, errorf, wrap}
use patterns_operator.Argo.{Application, Operation, SyncOperation}
use patterns_operator.Argo.Compare.{compare_application}
use patterns_operator.Cluster.{
  Prog, pure, fail, ask, from_result, ◌>>=◌, get_application, create_application,
  update_application as put_application, delete_application, list_applications,
}

unfoldable pub get_application_or_err : String → String → Prog (Result Application)
unfolding ask
get_application_or_err name namespace = ask (get_application name namespace)

unfoldable pub create : Application → String → Prog (Unit {0})
unfolding ask ◌>>=◌
create app namespace = do reply ← ask (create_application namespace app); from_result reply

abbrev error_of : {A : Type 0} → Result A → Option Err
error_of (ok _) = none
error_of (err x) = some x

-- The application after `current.Spec = target.Spec`.
abbrev pub with_spec : Application → Application → Application
with_spec target current = record current { spec = target.spec }

-- Whether an update was sent, and its error. `none` is the nil pointer.
unfoldable pub update_application :
    Option Application → Option Application → String → Prog (Bool × Option Err)
unfolding ask ◌>>=◌
update_application target none namespace = pure (false, some (errorf "current application was nil"))
update_application none (some current) namespace =
    pure (false, some (errorf "target application was nil"))
update_application (some target) (some current) namespace =
    let send : Prog (Bool × Option Err) = (do
      reply ← ask (put_application namespace (with_spec target current))
      pure (true, error_of reply)) in
    if compare_application current target then pure (false, none) else send

unfoldable pub remove_application : String → String → Prog (Unit {0})
unfolding ask ◌>>=◌
remove_application name namespace = do
  reply ← ask (delete_application name namespace)
  from_result reply

abbrev pub sync_option_force : String
sync_option_force = "Force=true"

abbrev is_syncing_operation : Option SyncOperation → Bool → Bool
is_syncing_operation none with_prune = false
is_syncing_operation (some s) with_prune =
    bool_eq s.prune with_prune && contains s.sync_options sync_option_force

abbrev pub is_syncing : Option Operation → Bool → Bool
is_syncing none with_prune = false
is_syncing (some o) with_prune = is_syncing_operation o.sync with_prune

abbrev pub with_sync : Application → Bool → Application
with_sync app with_prune = record app {
  operation = some (record {
    sync = some (record { prune = with_prune; sync_options = sync_option_force ∷ [] });
  });
}

unfoldable pub sync_application : Application → Bool → Prog (Unit {0})
unfolding ask ◌>>=◌
sync_application app with_prune =
    let send : Prog (Unit {0}) = (do
      reply ← ask (put_application app.namespace (with_sync app with_prune))
      elim reply [
        | ok u ↦ pure u
        | err x ↦ fail (wrap ("failed to sync application: " ^ x.message) x)
      ]) in
    if is_syncing app.operation with_prune then pure tt else send

-- Whether Argo tracks the application as a child of the one of that name.
unfoldable pub is_child_of : String → Application → Bool
is_child_of parent app = elim (lookup "argocd.argoproj.io/tracking-id" app.annotations) [
  | none ↦ false
  | some id ↦ starts_with id (parent ^ ":argoproj.io/Application:")
]

abbrev pub children : String → List Application → List Application
children parent [] = []
children parent (a ∷ as') =
    let rest = children parent as' in if is_child_of parent a then a ∷ rest else rest

unfoldable pub get_child_applications : Application → Prog (List Application)
unfolding ask ◌>>=◌
get_child_applications parent = do
  reply ← ask (list_applications "")
  elim reply [
    | ok apps ↦ pure (children parent.name apps)
    | err x ↦ fail (wrap ("failed to list child applications: " ^ x.message) x)
  ]
