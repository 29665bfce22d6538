-- ===== src/Gitea.antt =====
-- The in-cluster Gitea (internal/controller/pattern_controller.go, createGiteaInstance, and
-- internal/controller/argo.go, newArgoGiteaApplication).
pub mod Migrate
pub mod Safety
pub mod Writes
use patterns_operator.Prelude.{
  String, Bool, true, false, Option, none, some, [], ◌∷◌, ◌^◌, if◌then◌else◌, lookup,
}
use patterns_operator.Errors.{Err, Result, ok, err, errorf, is_already_exists}
use patterns_operator.Api.{Pattern}
use patterns_operator.Library.{Library}
use patterns_operator.Defaults.{ActiveArgo}
use patterns_operator.Config.{Config, get_string_value}
use patterns_operator.Services.{Services}
use patterns_operator.Stages.{with_next_version}
use patterns_operator.Bootstrap.{
  have_namespace, create_namespace, get_route, get_secret, new_secret,
}
use patterns_operator.GitUrl.{extract_repository_name}
use patterns_operator.Kube.Owner.{owned_by_same}
use patterns_operator.Argo.{Application}
use patterns_operator.Argo.Build.{common_sync_policy}
use patterns_operator.Applications.{get_application_or_err, create, update_application}
use patterns_operator.Cluster.{
  Secret, Prog, pure, ask, from_result, attempt, ◌>>=◌, create_secret, update_pattern,
  remove_local_git_paths,
}

abbrev pub gitea_namespace : String
gitea_namespace = "vp-gitea"

abbrev pub gitea_admin_user : String
gitea_admin_user = "gitea_admin"

abbrev pub gitea_admin_secret_name : String
gitea_admin_secret_name = "gitea-admin-secret"

abbrev pub gitea_route_name : String
gitea_route_name = "gitea-route"

abbrev pub gitea_application_name : String
gitea_application_name = "gitea-in-cluster"

-- The outer `none` is the nil dereference of `GitOpsConfig`.
unfoldable pub new_argo_gitea_application : ActiveArgo → Pattern → Config → Option Application
new_argo_gitea_application active p config =
    let href =
      "https://" ^ gitea_route_name ^ "-" ^ gitea_namespace ^ "." ^ p.status.app_cluster_domain in
    elim (common_sync_policy p) [
      | none ↦ none
      | some policy ↦ some (record {
        name = gitea_application_name;
        namespace = active.namespace;
        labels = ("validatedpatterns.io/pattern", p.name) ∷ [];
        annotations = [];
        finalizers = "resources-finalizer.argocd.argoproj.io/foreground" ∷ [];
        owner_references = [];
        spec = record {
          destination = record { name = "in-cluster"; namespace = gitea_namespace };
          project = "default";
          source = some (record {
            repo_url = get_string_value config "gitea.helmRepoUrl";
            path = "";
            target_revision = get_string_value config "gitea.chartVersion";
            chart = get_string_value config "gitea.chartName";
            ref = "";
            helm = some (record {
              value_files = none;
              parameters = some (
                  record {
                    name = "gitea.admin.existingSecret";
                    value = gitea_admin_secret_name;
                    force_string = false;
                  }
                  ∷ record { name = "gitea.console.href"; value = href; force_string = false }
                  ∷ record {
                    name = "gitea.config.server.ROOT_URL";
                    value = href;
                    force_string = false;
                  }
                  ∷ []);
              values = "";
              ignore_missing_value_files = false;
            });
          });
          sources = none;
          sync_policy = policy;
        };
        operation = none;
        health_status = "";
        sync_status = "";
      })
    ]

-- The pattern as it is left behind, and the error. The caller keeps the first.
abbrev pub Attempt : Type 0
Attempt = Prog (Pattern × Option Err)

abbrev error_text : Option Err → String
error_text none = "<nil>"
error_text (some x) = x.message

-- `if err := m(); err != nil { return fmt.Errorf("…: %v", err) }`
abbrev pub next_result : {A : Type 0} → Pattern → String → (A → Attempt) → Result A → Attempt
next_result p text k (ok a) = k a
next_result p text k (err x) = pure (p, some (errorf (text ^ x.message)))

abbrev pub next : {A : Type 0} → Pattern → String → Prog A → (A → Attempt) → Attempt
next p text m k = attempt m >>= next_result p text k

abbrev pub secret_value : String → Secret → String
secret_value k s = elim (lookup k s.data_map) [ none ↦ "" | some v ↦ v ]

abbrev pub with_target_repo : Pattern → String → Pattern
with_target_repo input url = record input {
  spec = record input.spec { git_config = record input.spec.git_config { target_repo = url } };
}

abbrev pub record_target : Pattern → Result Pattern → Attempt
record_target p (ok q) = pure (q, none)
record_target p (err x) = pure (p, some (errorf ("update CR Target Repo: " ^ x.message)))

module _ (svc : Services) (lib : Library) (active : ActiveArgo) (config : Config)
    (input : Pattern) where
  -- From the route to the new target repository of the pattern.
  abbrev pub migrate : Attempt
  migrate =
      next input "GiteaServer route not ready: " (get_route gitea_route_name gitea_namespace)
        (λ route.
          next input "error getting target Repo URL: "
            (from_result (extract_repository_name lib input.spec.git_config.origin_repo))
            (λ repo_name.
              next input "error getting gitea Admin Secret: "
                (get_secret gitea_admin_secret_name gitea_namespace)
                (λ secret.
                  next input "GiteaServer Migrate Repository Error: "
                    (svc.migrate_gitea_repo (secret_value "username" secret)
                      (secret_value "password" secret) input.spec.git_config.origin_repo route)
                    (λ _.
                      let p =
                        with_target_repo input (route ^ "/" ^ gitea_admin_user ^ "/" ^ repo_name) in
                      ask (update_pattern p) >>= record_target p))))

  abbrev pub await_namespace : Bool → Attempt
  await_namespace true = migrate
  await_namespace false = pure (input, some (errorf "waiting for giteanamespace creation"))

  abbrev pub after_update : Bool × Option Err → Attempt
  after_update (false, failure) = have_namespace gitea_namespace >>= await_namespace
  after_update (true, failure) = ask remove_local_git_paths >>= λ _. pure (
    with_next_version input failure,
    some (errorf ("updated gitea application: " ^ error_text failure)),
  )

  -- The creation of the Application ends with an error also where it succeeds.
  abbrev pub created : Result (Unit {0}) → Attempt
  created (ok _) = pure (input, some (errorf ("create gitea application: " ^ error_text none)))
  created (err x) = pure (input, some (errorf ("create gitea application: " ^ x.message)))

  abbrev pub found_application : Application → Result Application → Attempt
  found_application target (err _) = attempt (create target active.namespace) >>= created
  found_application target (ok app) =
      let lost : String = "we no longer own Application \"" ^ target.name ^ "\"" in
      if owned_by_same lib.parse_group_version target.owner_references app.owner_references
      then update_application (some target) (some app) active.namespace >>= after_update
      else pure (input, some (errorf lost))

  abbrev pub with_application : Option Application → Attempt
  with_application none = Prog.panic
  with_application (some built) =
      get_application_or_err gitea_application_name active.namespace
      >>= found_application
          (record built { owner_references = lib.set_owner_reference input built })

  abbrev pub stored_secret : Result (Unit {0}) → Attempt
  stored_secret (ok _) = with_application (new_argo_gitea_application active input config)
  stored_secret (err x) =
      if is_already_exists x
      then with_application (new_argo_gitea_application active input config)
      else pure (input, some (errorf ("could not create Gitea Admin Secret: " ^ x.message)))

  abbrev pub admin_secret : String → Secret
  admin_secret password =
      new_secret gitea_admin_secret_name gitea_namespace
        (("username", gitea_admin_user) ∷ ("password", password) ∷ []) []

  abbrev pub with_namespace : Attempt
  with_namespace =
      next input "error Generating gitea_admin password: " svc.generate_random_password
        (λ password. ask (create_secret (admin_secret password)) >>= stored_secret)

  abbrev pub make_namespace : Bool → Attempt
  make_namespace true = with_namespace
  make_namespace false =
      next input "error creating vp-gitea namespace: " (create_namespace gitea_namespace)
        (λ _. with_namespace)

  unfoldable pub create_gitea_instance : Attempt
  create_gitea_instance = have_namespace gitea_namespace >>= make_namespace
