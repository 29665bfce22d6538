-- ===== src/Console.antt =====
-- The console plugin and the pattern catalog (internal/controller/console): how an object is created
-- or updated, and where.
pub mod Plugin
pub mod Catalog
pub mod Store
pub mod Wanted
pub mod Converges
pub mod Enables
use patterns_operator.Prelude.{
  String, Bool, true, false, ◌==◌, ◌^◌, none, some, trim_space, if◌then◌else◌,
}
use patterns_operator.Errors.{Err, Result, ok, err, is_not_found, wrap}
use patterns_operator.Defaults.{Env}
use patterns_operator.Workloads.{Kind, Object}
use patterns_operator.Cluster.{
  Prog, pure, fail, ask, ◌>>=◌, get_object, create_object, update_object,
}

-- The namespace of the operator: the variable, the service account's file, the default.
unfoldable pub get_deployment_namespace : Env → String
get_deployment_namespace e =
    if e.operator_namespace == ""
    then elim e.namespace_file [
      | none ↦ "openshift-operators"
      | some text ↦ if text == "" then "openshift-operators" else trim_space text
    ]
    else e.operator_namespace

-- `if err := …; err != nil { return fmt.Errorf("…: %w", err) }`
abbrev pub or_fail : String → Result (Unit {0}) → Prog (Unit {0})
or_fail what (ok _) = pure tt
or_fail what (err x) = fail (wrap (what ^ ": " ^ x.message) x)

-- The four functions that create or update an object have one shape: the object is created if it is
-- missing, else the fields that the operator owns are taken over into the one that is there.
module _ (k : Kind) (namespace name what : String) (desired : Object k)
    (take_over : Object k → Object k) where
  abbrev pub create_or_update_found : Result (Object k) → Prog (Unit {0})
  create_or_update_found (ok existing) =
      ask (update_object k namespace name (take_over existing))
      >>= or_fail ("could not update " ^ what)
  create_or_update_found (err x) =
      let make : Prog (Unit {0}) =
        ask (create_object k namespace name desired) >>= or_fail ("could not create " ^ what) in
      if is_not_found x
      then make
      else fail (wrap ("could not check for existing " ^ what ^ ": " ^ x.message) x)

  unfoldable pub create_or_update : Prog (Unit {0})
  unfolding ask ◌>>=◌
  create_or_update = ask (get_object k namespace name) >>= create_or_update_found
