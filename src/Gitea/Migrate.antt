-- ===== src/Gitea/Migrate.antt =====
-- How a repository is migrated into Gitea (internal/controller/gitea-util.go, MigrateGiteaRepo).
pub mod Again
use patterns_operator.Prelude.{String, false, ◌^◌, nat_eq, if◌then◌else◌}
use patterns_operator.Errors.{Result, ok, err}
use patterns_operator.Library.{Library}
use patterns_operator.GitUrl.{extract_repository_name}
use patterns_operator.Gitea.{gitea_admin_user}
use patterns_operator.Cluster.{
  GiteaLogin, Migration, RepoResponse, no_response, response, Prog, pure, fail, panic, ask,
  from_result, ◌>>=◌, new_gitea_client, get_gitea_repo, migrate_gitea_repo as post_migration,
}

abbrev name_or_empty : Result String → String
name_or_empty (ok name) = name
name_or_empty (err x) = ""

abbrev pub migration : String → String → String → Migration
migration username upstream_url repo_name = record {
  clone_addr = upstream_url;
  repo_owner = username;
  repo_name = repo_name;
  mirror = false;
  description =
      "The [" ^ repo_name ^ "] repository was migrated by the Validated Patterns Operator.";
}

-- Without a response the status is read through nil.
abbrev pub with_response : GiteaLogin → String → String → RepoResponse → Prog String
with_response login upstream_url repo_name no_response = panic
with_response login upstream_url repo_name (response status url) =
    if nat_eq status 200
    then pure url
    else ask (post_migration login (migration login.username upstream_url repo_name))
      >>= from_result

abbrev with_client : GiteaLogin → String → String → Result (Unit {0}) → Prog String
with_client login upstream_url repo_name (err x) = fail x
with_client login upstream_url repo_name (ok _) =
    ask (get_gitea_repo login gitea_admin_user repo_name)
    >>= with_response login upstream_url repo_name

-- The URL of the repository.
unfoldable pub migrate_gitea_repo : Library → String → String → String → String → Prog String
unfolding ask ◌>>=◌
migrate_gitea_repo lib username password upstream_url gitea_server_route =
    let login : GiteaLogin = record {
      server = gitea_server_route;
      username = username;
      password = password;
    } in
    ask (new_gitea_client login)
    >>= with_client login upstream_url (name_or_empty (extract_repository_name lib upstream_url))
