-- ===== src/Startup.antt =====
-- The start of the operator (cmd/main.go, and internal/controller/pattern_controller.go,
-- SetupWithManager).
use patterns_operator.Prelude.{
  String, Bool, not, Option, none, some, ◌==◌, equal_fold, if◌then◌else◌,
}
use patterns_operator.Errors.{Err, Result, ok, err}
use patterns_operator.Defaults.{Env}
use patterns_operator.Config.{
  Config, get_patterns_operator_config_map, create_patterns_operator_config_map,
}
use patterns_operator.Analytics.{VpAnalytics, analytics_init}
use patterns_operator.Console.Catalog.{create_or_update_catalog}
use patterns_operator.Console.Plugin.{create_or_update_plugin, enable_plugin}
use patterns_operator.Cluster.{Prog, pure, attempt, ◌>>=◌}

-- The value beside an error, which is nil.
abbrev config_or_nil : Result (Option Config) → Option Config
config_or_nil (ok m) = m
config_or_nil (err x) = none

abbrev created_config : Result (Option Config) → Prog (Option Config)
created_config reply = pure (config_or_nil reply)

-- A missing ConfigMap is created; it counts as missing also where it could not be read.
abbrev config_or_create : Env → Option Config → Prog (Option Config)
config_or_create e (some m) = pure (some m)
config_or_create e none = attempt (create_patterns_operator_config_map e) >>= created_config

-- The function that the manager runs once it has started: errors are only logged.
unfoldable pub set_up_console : Env → Prog (Unit {0})
unfolding attempt ◌>>=◌
set_up_console e = do
  plugin ← attempt (create_or_update_plugin e)
  enabled ← attempt enable_plugin
  read ← attempt (get_patterns_operator_config_map e)
  cm ← config_or_create e (config_or_nil read)
  catalog ← attempt (create_or_update_catalog e cm)
  pure tt

-- Controller-runtime and the constructors of the clients, each with its error.
pub record ManagerLibrary : Type 0 where
  pub new_manager : String → Bool → Option Err
  pub add_argo_scheme : Option Err
  pub add_runnable : Option Err
  pub new_config_client : Option Err
  pub new_argo_client : Option Err
  pub new_olm_client : Option Err
  pub new_full_client : Option Err
  pub new_dynamic_client : Option Err
  pub new_operator_client : Option Err
  pub new_route_client : Option Err
  pub build_controller : Option Err
  pub set_up_webhook : Option Err
  pub add_healthz : Option Err
  pub add_readyz : Option Err
  pub start : Option Err

-- The first error of two steps.
abbrev then_step : Option Err → Option Err → Option Err
then_step none next = next
then_step (some x) next = some x

module _ (m : ManagerLibrary) where
  -- The error with which the controller could not be set up.
  unfoldable pub setup_with_manager : Option Err
  setup_with_manager = then_step m.new_config_client (
      then_step m.new_argo_client (
        then_step m.new_olm_client (
          then_step m.new_full_client (
            then_step m.new_dynamic_client (
              then_step m.new_operator_client (then_step m.new_route_client m.build_controller))))))

  -- The process ends with code 1 after the message, or without an error.
  pub data Exit : Type 0 where
    exit_1 : String → Err → Exit
    stopped : Exit

  abbrev or_exit : String → Option Err → Exit → Exit
  or_exit text none next = next
  or_exit text (some x) next = exit_1 text x

  -- The flags and the two environment variables.
  pub record MainOptions : Type 0 where
    pub probe_addr : String
    pub enable_leader_election : Bool
    pub analytics : String
    pub enable_webhooks : String

  -- strings.ToLower(v) != "false"
  abbrev pub analytics_enabled : MainOptions → Bool
  analytics_enabled o = not (equal_fold o.analytics "false")

  -- The client with which the controller is made.
  abbrev pub analytics_client : (String → Result String) → String → MainOptions → VpAnalytics
  analytics_client decode api_key o = analytics_init decode api_key (not (analytics_enabled o))

  abbrev webhook_error : MainOptions → Option Err
  webhook_error o = if o.enable_webhooks == "false" then none else m.set_up_webhook

  -- An error of the added function is only logged.
  unfoldable pub main : MainOptions → Exit
  unfolding setup_with_manager
  main o = or_exit "unable to start manager" (m.new_manager o.probe_addr o.enable_leader_election) (
      or_exit "" m.add_argo_scheme (
        or_exit "unable to create controller" setup_with_manager (
          or_exit "unable to create webhook" (webhook_error o) (
            or_exit "unable to set up health check" m.add_healthz (
              or_exit "unable to set up ready check" m.add_readyz
                (or_exit "problem running manager" m.start stopped))))))
