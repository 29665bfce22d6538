-- ===== src/Examples/Passes.antt =====
-- The theorems about the certificates, the wired parts, the analytics and Gitea at concrete arguments.
use patterns_operator.Prelude.{
  ℕ, suc, String, true, false, Option, none, some, [], ◌∷◌, ◌≡◌, refl, ◌==◌, ◌^◌, if◌then◌else◌,
  arith,
}
use patterns_operator.Api.{Pattern}
use patterns_operator.Errors.{Err, Class, Result, ok, err, wrap}
use patterns_operator.Defaults.{detect_operator_namespace, operator_config_map}
use patterns_operator.Cluster.{Request, Reply}
use patterns_operator.Cluster.Runs.{returned, run}
use patterns_operator.Console.Catalog.{create_or_update_catalog}
use patterns_operator.Certificates.{write_ca_files}
use patterns_operator.Certificates.Bundle.{KeepsFiles, bundle_after, write_ca_files-content}
use patterns_operator.Wiring.Catalog.{pass, sent, reconcile-catalog_first}
use patterns_operator.Analytics.{VpAnalytics}
use patterns_operator.Analytics.Bits.{SendersGrow, senders-Grow}
use patterns_operator.Examples.{
  an_env, a_library, a_pattern, an_application, cluster_with, some_services,
}
use patterns_operator.Examples.Parts.{no_value, argo_library}
use patterns_operator.Cluster.{response}
use patterns_operator.Details.Changes.{Ends}
use patterns_operator.Gitea.Migrate.{migrate_gitea_repo}
use patterns_operator.Gitea.Migrate.Again.{Repos, lookup_response}
use patterns_operator.Gitea.Safety.{Ends as GiteaEnds}

-- A file system with one file, and a cluster with a bundle but no certificate of its own.
abbrev file_server : (r : Request) → String → Reply r × String
file_server (Request.open_file path append_to_file) s =
    (ok tt, elim append_to_file [ true ↦ s | false ↦ "" ])
file_server (Request.write_string path t) s = (ok tt, s ^ t)
file_server (Request.get_config_map namespace name) s = (
  if name == "trusted-ca-bundle"
      then ok (("ca-bundle.crt", "BUNDLE") ∷ [])
      else err (record { class = Class.not_found; message = "not found" }),
  s,
)
file_server r s = ((cluster_with an_application r 0).0, s)

file_server-KeepsFiles : KeepsFiles file_server (λ s path. s)
file_server-KeepsFiles = record {
  opens = λ path append_to_file s. (refl, refl);
  writes = λ path t s. (refl, refl);
  reads = λ namespace name path s. refl;
}

write_ca_files-content_example :
    ((run file_server write_ca_files "OLD\n").1 ≡ returned tt)
    × ((run file_server write_ca_files "OLD\n").2 ≡ bundle_after "OLD\n" none (some "BUNDLE"))
write_ca_files-content_example =
    write_ca_files-content file_server (λ s path. s) file_server-KeepsFiles
      (err (record { class = Class.not_found; message = "not found" }))
      (ok (("ca-bundle.crt", "BUNDLE") ∷ [])) "OLD\n" (λ s. refl) (λ s. refl)

-- A cluster whose API server does not answer for the catalog.
abbrev silent : Err
silent = record { class = Class.general; message = "timeout" }

abbrev silent_server : (r : Request) → ℕ → Reply r × ℕ
silent_server (Request.get_config_map s t) w = (ok [], suc w)
silent_server (Request.get_object k s t) w = (err silent, suc w)
silent_server r w = cluster_with an_application r w

abbrev catalog_error : Err
catalog_error = wrap ("could not check for existing catalog configmap: " ^ "timeout") silent

reconcile-catalog_first_example :
    pass silent_server some_services a_library
      (argo_library no_value)
      an_env
      "icon"
      0
      false
      "hub"
      "patterns-operator"
      0
    ≡ (Request.get_pattern "hub" "patterns-operator"
        ∷ Request.get_config_map (detect_operator_namespace an_env) operator_config_map
        ∷ sent silent_server some_services a_library
            (argo_library no_value)
            an_env
            "icon"
            0
            false
            "hub"
            "patterns-operator"
            a_pattern
            []
            2
            (run silent_server (create_or_update_catalog an_env (some [])) 2).1)
reconcile-catalog_first_example =
    reconcile-catalog_first silent_server some_services a_library (argo_library no_value) an_env
      "icon" 0 false "hub" "patterns-operator" a_pattern [] (λ w. refl) (λ w. refl) 0

-- An analytics client that takes every event.
abbrev enqueued : ℕ → Option Err
enqueued i = none

abbrev a_client : VpAnalytics
a_client = record {
  api_key = "key";
  last_end_event = 0;
  sent_install_info = false;
  sent_start_event = false;
}

senders-Grow_example : SendersGrow "uuid" enqueued 500 a_client a_pattern
senders-Grow_example = senders-Grow "uuid" enqueued 500 a_client a_pattern (omega arith)

-- A cluster with one Application of the pattern, and a status that has none.
abbrev listing_server : (r : Request) → ℕ → Reply r × ℕ
listing_server (Request.list_applications s) w = (ok (an_application ∷ []), suc w)
listing_server r w = cluster_with an_application r w

-- A Gitea that has the same repository under every name once something has been migrated.
abbrev repos : Option String → Repos
repos held owner name = held

abbrev gitea_server : (r : Request) → Option String → Reply r × Option String
gitea_server (Request.new_gitea_client l) s = (ok tt, s)
gitea_server (Request.get_gitea_repo l owner name) s = (lookup_response s, s)
gitea_server (Request.migrate_gitea_repo l m) s =
    (ok "https://gitea/gitea_admin/hub", some "https://gitea/gitea_admin/hub")
gitea_server r s = ((cluster_with an_application r 0).0, s)

abbrev url_of : Result String → Option String
url_of (ok url) = some url
url_of (err x) = none

-- A pattern with an origin, and a cluster in which the copy of its repository is already there.
abbrev copied_pattern : Pattern
copied_pattern = record a_pattern {
  spec = record a_pattern.spec {
    git_config = record a_pattern.spec.git_config { origin_repo = "https://example.com/hub.git" };
  };
}

abbrev copied_server : (r : Request) → ℕ → Reply r × ℕ
copied_server (Request.get_gitea_repo l owner name) w = (response 200 "https://gitea/hub", suc w)
copied_server (Request.get_route s t) w = (ok ("gitea" ∷ []), suc w)
copied_server (Request.get_secret s t) w =
    (ok (record { name = t; namespace = s; labels = []; data_map = [] }), suc w)
copied_server (Request.update_pattern p) w = (ok (record p { uid = "hub-1" }), suc w)
copied_server r w = cluster_with an_application r w

-- Of the patterns that this server hands back.
abbrev IsHub : Pattern → Type 0
IsHub q = q.uid ≡ "hub-1"
