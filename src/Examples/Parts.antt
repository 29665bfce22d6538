-- ===== src/Examples/Parts.antt =====
-- The theorems about the console, Argo CD and failing steps at concrete arguments.
use patterns_operator.Prelude.{ℕ, suc, Option, none, some, [], ◌∷◌, refl, ◌==◌}
use patterns_operator.Errors.{Err, Class, Result, ok, err, errorf}
use patterns_operator.Files.{text, table, Table, end, field, has_field}
use patterns_operator.Config.{Config, get_string_value}
use patterns_operator.Workloads.{ConsoleObject, console_kind}
use patterns_operator.Cluster.{Request, Reply}
use patterns_operator.Cluster.Runs.{run}
use patterns_operator.Stages.{go_on}
use patterns_operator.Stages.Reports.{Follows, checked-Follows}
use patterns_operator.ArgoCd.{ArgoCd, ArgoObject, ArgoLibrary}
use patterns_operator.ArgoCd.Instance.{new_argo_cd}
use patterns_operator.ArgoCd.Keeps.{UpdatesIfDifferent, create_or_update_argo_cd-UpdatesIfDifferent}
use patterns_operator.ArgoCd.Update.{create_or_update_argo_cd}
use patterns_operator.Console.Store.{Store, put, Found, Serves}
use patterns_operator.Console.Plugin.{enable_plugin}
use patterns_operator.Console.Converges.{Converges, create_or_update_catalog-Converges}
use patterns_operator.Console.Enables.{Enables, enable_plugin-Enables}
use patterns_operator.Examples.{an_env, a_pattern, an_application, vp_gitops, cluster_with}

abbrev found_or_missing : {A : Type 0} → Option A → Result A
found_or_missing (some a) = ok a
found_or_missing none = err (record { class = Class.not_found; message = "not found" })

-- An API server for the console's objects.
abbrev store_server : (r : Request) → Store → Reply r × Store
store_server (Request.get_object k ns n) s = (found_or_missing (s k ns n), s)
store_server (Request.create_object k ns n o) s = (ok tt, put k ns n o s)
store_server (Request.update_object k ns n o) s = (ok tt, put k ns n o s)
store_server r s = ((cluster_with an_application r 0).0, s)

found : {A : Type 0} (o : Option A) → Found o (found_or_missing o)
found none = (_, refl, refl)
found (some a) = refl

store_server-Serves : Serves store_server (λ s. s)
store_server-Serves = record {
  finds = λ k ns n s. found (s k ns n);
  reads = λ k ns n s. refl;
  creates = λ k ns n o s h. (refl, refl);
  updates = λ k ns n old o s h. (refl, refl);
}

abbrev no_objects : Store
no_objects k ns n = none

create_or_update_catalog-Converges_example :
    Converges store_server
      (λ s. s)
      store_server-Serves
      an_env
      (some (("catalog.image", "example.com/catalog:1") ∷ []))
      no_objects
create_or_update_catalog-Converges_example =
    create_or_update_catalog-Converges store_server (λ s. s) store_server-Serves an_env
      (some (("catalog.image", "example.com/catalog:1") ∷ [])) no_objects

abbrev a_console : ConsoleObject
a_console = record { plugins = "monitoring-plugin" ∷ []; others = end }

abbrev with_console : Store
with_console = put console_kind "" "cluster" a_console no_objects

enable_plugin-Enables_example :
    Enables store_server (λ s. s) store_server-Serves with_console a_console
enable_plugin-Enables_example =
    enable_plugin-Enables store_server (λ s. s) store_server-Serves with_console a_console refl

-- A console that cannot be found.
abbrev no_console : Err
no_console = record {
  class = Class.not_found;
  message = "could not find resource - APIVersion: , Kind: , Name: : not found";
}

checked-Follows_example :
    Follows
      (cluster_with an_application)
      a_pattern
      "enabling the plugin"
      enable_plugin
      (λ u. go_on)
      0
      (run (cluster_with an_application) enable_plugin 0).1
checked-Follows_example =
    checked-Follows (cluster_with an_application) a_pattern "enabling the plugin" enable_plugin
      (λ u. go_on) 0

abbrev pub no_value : {A : Type 0} → Result A
no_value = err (errorf "cannot be parsed")

abbrev an_argo_object : Table → ArgoObject
an_argo_object spec = record { resource_version = "7"; spec = some (table spec); others = end }

-- What the typed form of every object is, and a test of equality by one field of the spec.
abbrev pub argo_library : Result ArgoCd → ArgoLibrary
argo_library read = record {
  parse_rbac = λ s. no_value;
  parse_health_checks = λ s. no_value;
  parse_spec = λ s. no_value;
  parse_table = λ s. ok (field "extra" (text s) end);
  merge_specs = λ a b. (a, none);
  merge_tables = λ a b. ok b;
  to_unstructured = λ a. ok (an_argo_object (field "server" (text a.name) end));
  from_unstructured = λ o. read;
  semantic_equal = λ a b. a.resource_exclusions == b.resource_exclusions;
}

abbrev admin_config : Config
admin_config = ("gitops.additionalArgoAdmins", "alice, ,bob") ∷ []

abbrev new_argo : ArgoCd
new_argo = new_argo_cd (argo_library no_value) [] "vp-gitops" "vp-gitops"

-- An instance whose exclusions somebody has removed.
abbrev changed_argo : ArgoCd
changed_argo = record new_argo { spec = record new_argo.spec { resource_exclusions = "" } }

abbrev changed_fields : Table
changed_fields = field "server" (text "old") (field "local" (text "kept") end)

abbrev argo_server : (r : Request) → ℕ → Reply r × ℕ
argo_server Request.server_groups w =
    (ok (record { name = "argoproj.io"; versions = "v1beta1" ∷ [] } ∷ []), suc w)
argo_server (Request.get_argo_cd n ns) w = (ok (an_argo_object changed_fields), suc w)
argo_server r w = cluster_with an_application r w

create_or_update_argo_cd-UpdatesIfDifferent_example :
    UpdatesIfDifferent
      (argo_library (ok changed_argo))
      vp_gitops
      []
      (run argo_server (create_or_update_argo_cd (argo_library (ok changed_argo)) vp_gitops []) 0).0
      changed_argo
      (an_argo_object (field "server" (text "vp-gitops") end))
      (an_argo_object changed_fields)
      (field "server" (text "vp-gitops") end)
      changed_fields
unfolding get_string_value new_argo_cd has_field
create_or_update_argo_cd-UpdatesIfDifferent_example =
    create_or_update_argo_cd-UpdatesIfDifferent (argo_library (ok changed_argo)) vp_gitops []
      argo_server (record { name = "argoproj.io"; versions = "v1beta1" ∷ [] } ∷ [])
      (an_argo_object changed_fields) (an_argo_object (field "server" (text "vp-gitops") end))
      changed_argo (field "server" (text "vp-gitops") end) changed_fields (λ w. refl) refl
      (λ w. refl) refl refl refl refl (refl, (refl, tt)) 0
