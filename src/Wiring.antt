-- ===== src/Wiring.antt =====
-- The reconciliation with the parts that it calls (internal/controller/pattern_controller.go, Reconcile
-- and getLocalGit): the interface of the services, filled by the operator's own functions.
pub mod Catalog
pub mod InClusterGit
use patterns_operator.Prelude.{Bool, String}
use patterns_operator.Library.{Library}
use patterns_operator.Defaults.{Env}
use patterns_operator.Services.{Services}
use patterns_operator.Cluster.{Prog, pure, ◌>>=◌, ◌>>◌}
use patterns_operator.ArgoCd.{ArgoLibrary}
use patterns_operator.ArgoCd.Update.{create_or_update_argo_cd}
use patterns_operator.Console.Catalog.{create_or_update_catalog}
use patterns_operator.Console.Plugin.{create_or_update_plugin, enable_plugin}
use patterns_operator.Certificates.{write_ca_files}
use patterns_operator.Gitea.Migrate.{migrate_gitea_repo}
use patterns_operator.Watch.{start_argo_cd_watch}

module _ (lib : Library) (argo : ArgoLibrary) (e : Env) (watching : Bool) where
  -- What stays a parameter is the git client, the random password and the analytics client. The flag is
  -- whether the watch is running when the pass begins.
  unfoldable pub wired : Services → Services
  unfolding ◌>>=◌
  wired svc = record svc {
    create_or_update_catalog = create_or_update_catalog e;
    create_or_update_plugin = create_or_update_plugin e;
    enable_plugin = enable_plugin;
    create_or_update_argo_cd = create_or_update_argo_cd argo;
    start_argo_cd_watch = start_argo_cd_watch watching >> pure tt;
    migrate_gitea_repo = λ username password upstream server.
        migrate_gitea_repo lib username password upstream server >> pure tt;
    write_ca_files = write_ca_files;
  }
