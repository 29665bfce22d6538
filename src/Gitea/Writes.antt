-- ===== src/Gitea/Writes.antt =====
-- The steps of the set-up of the in-cluster Gitea (internal/controller/pattern_controller.go,
-- createGiteaInstance).
use patterns_operator.Prelude.{
  String, List, Bool, true, false, Option, none, some, ◌≡◌, refl, inl, inr, ◌^◌, ap, Bool-cases,
  Option-cases,
}
use patterns_operator.Errors.{Err, Result, ok, err, is_already_exists}
use patterns_operator.Api.{Pattern}
use patterns_operator.Library.{Library}
use patterns_operator.Defaults.{ActiveArgo}
use patterns_operator.Config.{Config}
use patterns_operator.Services.{Services}
use patterns_operator.Argo.{Application}
use patterns_operator.Argo.Compare.{compare_application}
use patterns_operator.Argo.Build.{common_sync_policy}
use patterns_operator.Kube.Owner.{owned_by_same}
use patterns_operator.Bootstrap.{have_namespace}
use patterns_operator.Applications.{create, update_application, get_application_or_err}
use patterns_operator.Cluster.{Request, ask, from_result, attempt, ◌>>=◌}
use patterns_operator.Gitea.{
  gitea_admin_user, gitea_application_name, with_target_repo, migrate, await_namespace,
  after_update, created, found_application, with_application, stored_secret, with_namespace,
  make_namespace, create_gitea_instance, new_argo_gitea_application,
}
use patterns_operator.Gitea.Safety.{
  stays, Sets-next, Sets-next_result, Sets-call, Sets-result, record_target-Sets,
  create_namespace-Harmless, Sets-next_route, get_secret-Harmless, Harmless, Sets, IsRetargeted,
}

some_name : (a b : Application) → some a ≡ some b → a.name ≡ b.name
some_name a b h = ap (λ (x : Application). x.name) {x = a} {y = b} (cc h)

module _ (lib : Library) (active : ActiveArgo) (input : Pattern) (hosts : Result (List String))
    (handed : Pattern → Type 0) (svc : Services) (config : Config)
    (migrates : (username password upstream server : String)
      → Harmless lib active input hosts handed
          (svc.migrate_gitea_repo username password upstream server)) where
  migrate-Sets : Sets lib active input hosts handed (migrate svc lib active config input)
  unfolding ask ◌>>=◌
  migrate-Sets = Sets-next_route lib active input hosts handed _ _ (λ route is_route.
      Sets-next_result lib active input hosts handed _ _ _ (λ repo named.
        Sets-next lib active input hosts handed _ _ _
          (get_secret-Harmless lib active input hosts handed _ _)
          (λ secret. Sets-next lib active input hosts handed _ _ _ (migrates _ _ _ _) (λ u.
            let p = with_target_repo input (route ^ "/" ^ gitea_admin_user ^ "/" ^ repo) in
            let t : IsRetargeted lib active input hosts handed p.spec =
              (route, (repo, named, is_route, refl)) in
            Sets-call lib active input hosts handed (Request.update_pattern p) _ t
              (record_target-Sets lib active input hosts handed p t)))))

  await_namespace-Sets :
      (b : Bool)
      → Sets lib active input hosts handed (await_namespace svc lib active config input b)
  await_namespace-Sets true = migrate-Sets
  await_namespace-Sets false = stays lib active input hosts handed _

  after_update-Sets :
      (b : Bool) (x : Option Err)
      → Sets lib active input hosts handed (after_update svc lib active config input (b, x))
  unfolding have_namespace ask ◌>>=◌
  after_update-Sets false x =
      Sets-call lib active input hosts handed _ _ tt (λ r _. await_namespace-Sets _)
  after_update-Sets true none =
      Sets-call lib active input hosts handed _ _ tt (λ r _. stays lib active input hosts handed _)
  after_update-Sets true (some x) =
      Sets-call lib active input hosts handed _ _ tt (λ r _. record { paths = inl refl })

  created-Sets :
      (r : Result (Unit {0}))
      → Sets lib active input hosts handed (created svc lib active config input r)
  created-Sets (ok u) = stays lib active input hosts handed _
  created-Sets (err x) = stays lib active input hosts handed _

  -- The update of an Application that is as wanted sends nothing.
  updated-Sets :
      (target app : Application)
      → Sets lib active input hosts handed (
          update_application (some target) (some app) active.namespace
          >>= after_update svc lib active config input)
  unfolding update_application ask ◌>>=◌
  updated-Sets target app = elim (Bool-cases (compare_application app target)) [
    | inl b ↦ rw b (after_update-Sets false none)
    | inr b ↦
        rw b (Sets-call lib active input hosts handed _ _ refl (λ r _. after_update-Sets true _))
  ]

  found_application-Sets :
      (target : Application)
      → target.name ≡ gitea_application_name
      → (r : Result Application)
      → Sets lib active input hosts handed (found_application svc lib active config input target r)
  unfolding create attempt ask ◌>>=◌
  found_application-Sets target h (err x) =
      Sets-call lib active input hosts handed _ _ (h, refl)
        (λ r _.
          Sets-result lib active input hosts handed
            (λ (s : Result (Unit {0})).
              attempt (from_result s) >>= created svc lib active config input)
            (λ u. stays lib active input hosts handed _)
            (λ y. stays lib active input hosts handed _) r)
  found_application-Sets target h (ok app) =
      elim (Bool-cases
        (owned_by_same lib.parse_group_version target.owner_references app.owner_references)) [
          | inl b ↦ rw b (updated-Sets target app)
          | inr b ↦ rw b (stays lib active input hosts handed _)
        ]

  named :
      (built : Application)
      → some built ≡ new_argo_gitea_application active input config
      → built.name ≡ gitea_application_name
  unfolding new_argo_gitea_application
  named built h = elim (Option-cases (common_sync_policy input)) [
    | inl k ↦ absurd (cc (rw (k, new_argo_gitea_application) at h))
    | inr (policy, k) ↦ some_name built _ (rw (k, new_argo_gitea_application) at h)
  ]

  with_application-Sets :
      (o : Option Application)
      → o ≡ new_argo_gitea_application active input config
      → Sets lib active input hosts handed (with_application svc lib active config input o)
  unfolding get_application_or_err ask ◌>>=◌
  with_application-Sets none h = record { paths = tt }
  with_application-Sets (some built) h =
      Sets-call lib active input hosts handed _ _ tt
        (λ r _. found_application-Sets _ (named built h) r)

  stored_secret-Sets :
      (r : Result (Unit {0}))
      → Sets lib active input hosts handed (stored_secret svc lib active config input r)
  stored_secret-Sets (ok u) = with_application-Sets _ refl
  stored_secret-Sets (err x) = elim (Bool-cases (is_already_exists x)) [
    | inl b ↦ rw b (with_application-Sets _ refl)
    | inr b ↦ rw b (stays lib active input hosts handed _)
  ]

  module _ (generates : Harmless lib active input hosts handed svc.generate_random_password) where
    with_namespace-Sets :
        Sets lib active input hosts handed (with_namespace svc lib active config input)
    unfolding ask ◌>>=◌
    with_namespace-Sets = Sets-next lib active input hosts handed _ _ _ generates (λ password.
        Sets-call lib active input hosts handed (Request.create_secret _) _ (refl, refl)
          (λ r _. stored_secret-Sets r))

    make_namespace-Sets :
        (b : Bool)
        → Sets lib active input hosts handed (make_namespace svc lib active config input b)
    make_namespace-Sets true = with_namespace-Sets
    make_namespace-Sets false =
        Sets-next lib active input hosts handed _ _ _
          (create_namespace-Harmless lib active input hosts handed) (λ u. with_namespace-Sets)

    pub create_gitea_instance-Sets :
        Sets lib active input hosts handed (create_gitea_instance svc lib active config input)
    unfolding create_gitea_instance have_namespace ask ◌>>=◌
    create_gitea_instance-Sets =
        Sets-call lib active input hosts handed _ _ tt (λ r _. make_namespace-Sets _)
