-- ===== src/Gitea/Migrate/Again.antt =====
-- A repository that is migrated is there for the next pass (internal/controller/gitea-util.go,
-- MigrateGiteaRepo).
use patterns_operator.Prelude.{String, Option, none, some, List, [], ◌∷◌, ◌≡◌}
use patterns_operator.Errors.{ok}
use patterns_operator.Library.{Library}
use patterns_operator.GitUrl.{extract_repository_name}
use patterns_operator.Gitea.{gitea_admin_user}
use patterns_operator.Gitea.Migrate.{migration, name_or_empty, migrate_gitea_repo}
use patterns_operator.Cluster.{GiteaLogin, RepoResponse, response, Request}
use patterns_operator.Cluster.Runs.{Environment, returned, run}

-- The addresses of the repositories, by owner and name.
abbrev pub Repos : Type 0
Repos = String → String → Option String

-- What the server answers to a look-up.
abbrev pub lookup_response : Option String → RepoResponse
lookup_response none = response 404 ""
lookup_response (some url) = response 200 url

-- A Gitea server that answers: a look-up finds what is there, and a migration that succeeds puts the
-- repository where a look-up finds it.
pub record ServesRepos {W : Type 0} (answer : Environment W) (view : W → Repos) : Type 0 where
  pub connects :
      (login : GiteaLogin) (w : W)
      → ((answer (Request.new_gitea_client login) w).0 ≡ ok tt)
        × (view (answer (Request.new_gitea_client login) w).1 ≡ view w)
  pub finds :
      (login : GiteaLogin) (owner name : String) (w : W)
      → ((answer (Request.get_gitea_repo login owner name) w).0
          ≡ lookup_response (view w owner name))
        × (view (answer (Request.get_gitea_repo login owner name) w).1 ≡ view w)
  pub keeps :
      (login : GiteaLogin) (address name url : String) (w : W)
      → (answer (Request.migrate_gitea_repo login (migration login.username address name)) w).0
        ≡ ok url
      → view
          (answer (Request.migrate_gitea_repo login (migration login.username address name)) w).1
          login.username
          name
        ≡ some url

module _ {W : Type 0} (answer : Environment W) (view : W → Repos) (serves : ServesRepos answer view)
    (lib : Library) (password upstream_url server : String) where
  abbrev login : GiteaLogin
  login = record { server = server; username = gitea_admin_user; password = password }

  abbrev repo_name : String
  repo_name = name_or_empty (extract_repository_name lib upstream_url)

  abbrev lookups : List Request
  lookups =
      Request.new_gitea_client login ∷ Request.get_gitea_repo login gitea_admin_user repo_name ∷ []

  abbrev connected : W → W
  connected w = (answer (Request.new_gitea_client login) w).1

  abbrev looked_up : W → W
  looked_up w = (answer (Request.get_gitea_repo login gitea_admin_user repo_name) (connected w)).1

  -- What a run that has returned an address has left.
  pub record Migrated (w : W) (url : String) : Type 0 where
    pub is_there :
        view
          (run answer (migrate_gitea_repo lib gitea_admin_user password upstream_url server) w).2
          gitea_admin_user
          repo_name
        ≡ some url
    pub only_looks :
        (run answer
          (migrate_gitea_repo lib gitea_admin_user password upstream_url server)
          (run answer (migrate_gitea_repo lib gitea_admin_user password upstream_url server) w).2).0
        ≡ lookups
    pub returns_again :
        (run answer
          (migrate_gitea_repo lib gitea_admin_user password upstream_url server)
          (run answer (migrate_gitea_repo lib gitea_admin_user password upstream_url server) w).2).1
        ≡ returned url
