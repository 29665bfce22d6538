-- ===== src/Finalize/Settled.antt =====
-- A cluster in which a deletion can come to its end: what it answers, and what it stores
-- (internal/controller/pattern_controller.go, finalizeObject).
use patterns_operator.Prelude.{
  String, Option, none, some, List, [], ◌∷◌, ◌≡◌, ◌^◌, split, ◌==◌, ◌&&◌, if◌then◌else◌,
}
use patterns_operator.Errors.{Class, Result, ok, err}
use patterns_operator.Api.{Pattern, PatternStatus}
use patterns_operator.Library.{Library, Version, Url}
use patterns_operator.Files.{Files}
use patterns_operator.Defaults.{Env}
use patterns_operator.ArgoCd.{ArgoObject}
use patterns_operator.Argo.{Application}
use patterns_operator.Clusters.{get_current_cluster_version, with_names, moved_checkout}
use patterns_operator.Spokes.{search_url}
use patterns_operator.Cluster.{ClusterVersion, Search, Request}
use patterns_operator.Cluster.Runs.{Environment}
use patterns_operator.Cluster.Triples.{Answers}
use patterns_operator.Finalize.Drained.{NoneTracked}

-- What the API server keeps of the deletion.
pub record Stored : Type 0 where
  pub pattern : Pattern
  pub application : Option Application

-- What the cluster says about itself.
pub record Facts : Type 0 where
  pub version : ClusterVersion
  pub parsed : Version
  pub platform : String
  pub domain : String
  pub apps_label : String
  pub name : String
  pub rest : List String
  pub hub : Result (List (String × String))
  pub legacy_argo : Result ArgoObject
  pub files : Files

abbrev not_found_application : Result Application
not_found_application = err (record { class = Class.not_found; message = "not found" })

-- The read of an Application by name and namespace.
abbrev pub found_application : String → String → Option Application → Result Application
found_application name namespace none = not_found_application
found_application name namespace (some app) =
    if app.name == name && app.namespace == namespace then ok app else not_found_application

-- The deletion of an Application by name and namespace: another one stays.
abbrev pub left_application : String → String → Option Application → Option Application
left_application name namespace none = none
left_application name namespace (some app) =
    if app.name == name && app.namespace == namespace then none else some app

abbrev pub with_status : Stored → PatternStatus → Stored
with_status s status = record s { pattern = record s.pattern { status = status } }

abbrev pub with_application : Stored → Option Application → Stored
with_application s app = record s { application = app }

-- The facts can be read, and the address of the search is an https URL. The three writes of a deletion are granted and stored; every other request that a deletion sends
-- changes neither the pattern nor the Application. The Application is read and deleted by its name and
-- namespace. No Application that is listed is a child of another one, and the search finds nothing.
pub record Settles (lib : Library) (e : Env) (f : Facts) {W : Type 0} (answer : Environment W)
    (view : W → Stored) : Type 0 where
  pub parses : get_current_cluster_version lib f.version ≡ ok f.parsed
  pub labels : split f.domain b'.' ≡ f.apps_label ∷ f.name ∷ f.rest
  pub searchable : (u : Url) × (lib.parse_url (search_url e) ≡ ok u) × (u.scheme ≡ "https")
  pub version : (s : Stored) → Answers answer view s Request.get_cluster_version (ok f.version) s
  pub platform : (s : Stored) → Answers answer view s Request.get_infrastructure (ok f.platform) s
  pub ingress : (s : Stored) → Answers answer view s Request.get_ingress (ok f.domain) s
  pub hub : (s : Stored) → Answers answer view s Request.get_multi_cluster_hub f.hub s
  pub argo :
      (s : Stored) (name namespace : String)
      → Answers answer view s (Request.get_argo_cd name namespace) f.legacy_argo s
  pub files : (s : Stored) → Answers answer view s Request.read_files f.files s
  pub drop :
      (s : Stored)
      → (r : Result (Unit {0})) × Answers answer view s Request.remove_local_git_paths r s
  pub token : (s : Stored) → (t : String) × Answers answer view s Request.read_token (ok t) s
  pub children :
      (s : Stored) (selector : String)
      → (apps : List Application) × NoneTracked apps
        × Answers answer view s (Request.list_applications selector) (ok apps) s
  pub search :
      (s : Stored) (query : Search)
      → Answers answer view s
          (Request.search_applications query)
          (ok (record { status_code = 200; results = ok [] }))
          s
  pub link :
      (s : Stored) (name : String)
      → (r : Result (Unit {0})) × Answers answer view s (Request.delete_console_link name) r s
  pub application :
      (s : Stored) (name namespace : String)
      → Answers answer view s
          (Request.get_application name namespace)
          (found_application name namespace s.application)
          s
  pub pattern :
      (s : Stored) (name namespace : String)
      → Answers answer view s (Request.get_pattern name namespace) (ok s.pattern) s
  pub status_written :
      (s : Stored) (p : Pattern)
      → Answers answer view s (Request.update_pattern_status p) (ok tt) (with_status s p.status)
  pub application_written :
      (s : Stored) (namespace : String) (app : Application)
      → Answers answer view s
          (Request.update_application namespace app)
          (ok tt)
          (with_application s (some app))
  pub application_deleted :
      (s : Stored) (name namespace : String)
      → Answers answer view s
          (Request.delete_application name namespace)
          (ok tt)
          (with_application s (left_application name namespace s.application))

-- The pattern with the defaults that `applyDefaults` draws from these facts.
abbrev pub defaulted : Library → Env → Facts → Pattern → Pattern
defaulted lib e f p = moved_checkout lib e (
    with_names lib
      (record p {
        status = record p.status {
          cluster_id = f.version.cluster_id;
          cluster_platform = f.platform;
          cluster_version = f.parsed.major ^ "." ^ f.parsed.minor;
        };
      })
      f.domain f.name f.rest)
