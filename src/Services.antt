-- ===== src/Services.antt =====
-- What the reconciliation (internal/controller/pattern_controller.go) calls of other parts of the
-- operator and does not look into: an interface that the parts fill.
use patterns_operator.Prelude.{String, Bool, Option, List}
use patterns_operator.Api.{Pattern}
use patterns_operator.Config.{Config}
use patterns_operator.Defaults.{ActiveArgo}
use patterns_operator.Cluster.{Prog}

pub record Services : Type 0 where
  -- console.CreateOrUpdateCatalog, console.CreateOrUpdatePlugin and console.EnablePlugin
  pub create_or_update_catalog : Option Config → Prog (Unit {0})
  pub create_or_update_plugin : Prog (Unit {0})
  pub enable_plugin : Prog (Unit {0})
  -- the methods of VpAnalytics: the pattern with its changed status, and what they return
  pub send_pattern_installation_info : Pattern → Prog (Pattern × Bool)
  pub send_pattern_start_event_info : Pattern → Prog (Pattern × Bool)
  pub send_pattern_end_event_info : Pattern → Prog (Pattern × Bool)
  pub create_or_update_argo_cd : ActiveArgo → Config → Prog (Unit {0})
  pub start_argo_cd_watch : Prog (Unit {0})
  pub generate_random_password : Prog String
  -- GiteaOperations: user, password, upstream and server
  pub migrate_gitea_repo : String → String → String → String → Prog (Unit {0})
  -- writeConfigMapKeyToFile for the two CA bundles
  pub write_ca_files : Prog (Unit {0})
  -- cloneRepo, checkoutRevision, getGitRemoteURL and the removal of a clone
  pub clone_repo : String → String → List (String × String) → Prog (Unit {0})
  pub checkout_revision : String → String → String → List (String × String) → Prog (Unit {0})
  pub get_git_remote_url : String → String → Prog String
  pub remove_all : String → Prog (Unit {0})
