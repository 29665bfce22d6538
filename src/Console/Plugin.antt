-- ===== src/Console/Plugin.antt =====
-- The console plugin (internal/controller/console/plugin.go).
use patterns_operator.Prelude.{String, [], ◌∷◌, ◌++◌, ◌^◌, contains, if◌then◌else◌}
use patterns_operator.Errors.{Result, ok, err, wrap}
use patterns_operator.Defaults.{Env}
use patterns_operator.Workloads.{
  ConsolePluginObject, ConsoleObject, console_plugin_kind, console_kind,
}
use patterns_operator.Cluster.{Prog, pure, fail, ask, ◌>>=◌, get_object, update_object}
use patterns_operator.Console.{get_deployment_namespace, create_or_update, or_fail}

abbrev pub plugin_name : String
plugin_name = "patterns-operator-console-plugin"

abbrev pub catalog_service_name : String
catalog_service_name = "patterns-operator-pattern-ui-catalog"

unfoldable pub new_console_plugin : String → ConsolePluginObject
new_console_plugin namespace = record {
  owner_uids = [];
  labels = [];
  spec = record {
    display_name = "Validated Patterns Console Plugin";
    backend_kind = "Service";
    backend_service = record { name = plugin_name; namespace = namespace; port = 9443 };
    base_path = "/";
    proxy =
        record {
          alias = "pattern-ui-catalog";
          authorization = "None";
          endpoint_kind = "Service";
          service = record { name = catalog_service_name; namespace = namespace; port = 9444 };
        }
        ∷ [];
  };
}

abbrev pub with_plugin : ConsolePluginObject → ConsolePluginObject → ConsolePluginObject
with_plugin desired existing = record existing {
  owner_uids = desired.owner_uids;
  spec = desired.spec;
}

-- The object is not namespaced.
unfoldable pub create_or_update_console_plugin : String → Prog (Unit {0})
unfolding create_or_update
create_or_update_console_plugin namespace =
    let desired = new_console_plugin namespace in
    create_or_update console_plugin_kind "" plugin_name "console plugin" desired
      (with_plugin desired)

unfoldable pub create_or_update_plugin : Env → Prog (Unit {0})
unfolding create_or_update_console_plugin
create_or_update_plugin e = create_or_update_console_plugin (get_deployment_namespace e)

-- API version and kind are empty in the object that was read, whether the read fails or not.
abbrev describe : String → String → String
describe verb name = "could not " ^ verb ^ " resource - APIVersion: , Kind: , Name: " ^ name

abbrev pub enabled : Result ConsoleObject → Prog (Unit {0})
enabled (err x) = fail (wrap (describe "find" "" ^ ": " ^ x.message) x)
enabled (ok console) =
    let added = record console { plugins = console.plugins ++ plugin_name ∷ [] } in
    let update : Prog (Unit {0}) =
      ask (update_object console_kind "" "cluster" added)
      >>= or_fail (describe "update" "cluster") in
    if contains console.plugins plugin_name then pure tt else update

unfoldable pub enable_plugin : Prog (Unit {0})
unfolding ask ◌>>=◌
enable_plugin = ask (get_object console_kind "" "cluster") >>= enabled
