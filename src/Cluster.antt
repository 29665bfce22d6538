-- ===== src/Cluster.antt =====
-- The world outside the operator's memory: the requests that it sends to the API server, to git, to
-- the file system and to other services, and programs that send them. What answers a request is not
-- modelled: a theorem about a program speaks of every answer.
pub mod Runs
pub mod Triples
use patterns_operator.Prelude.{ℕ, String, Bool, Option, none, some, List}
use patterns_operator.Errors.{Err, Result, ok, err}
use patterns_operator.Api.{Pattern}
use patterns_operator.Argo.{Application}
use patterns_operator.ArgoCd.{ArgoObject}
use patterns_operator.Workloads.{Kind, Object}
use patterns_operator.Subscription.{Subscription}
use patterns_operator.Files.{Files}

pub record Secret : Type 0 where
  pub name : String
  pub namespace : String
  pub labels : List (String × String)
  pub data_map : List (String × String)

-- One entry of `status.history` of the ClusterVersion, and what the code reads beside it.
pub record UpdateHistory : Type 0 where
  pub state : String
  pub version : String

pub record ClusterVersion : Type 0 where
  pub cluster_id : String
  pub history : List UpdateHistory
  pub desired : String

pub record ApiGroup : Type 0 where
  pub name : String
  pub versions : List String

pub record SearchItem : Type 0 where
  pub name : String
  pub namespace : String
  pub cluster : String

-- The filters of the GraphQL query that vary.
pub record Search : Type 0 where
  pub url : String
  pub token : String
  pub namespaces : List String

-- `results` is the parsed body, an error if it is no JSON of the expected shape.
pub record SearchResponse : Type 0 where
  pub status_code : ℕ
  pub results : Result (List (List SearchItem))

pub record ConsoleLinkSpec : Type 0 where
  pub section : String
  pub image_url : String
  pub href : String
  pub location : String
  pub text : String

pub record ConsoleLink : Type 0 where
  pub name : String
  pub spec : ConsoleLinkSpec

pub record GiteaLogin : Type 0 where
  pub server : String
  pub username : String
  pub password : String

-- gitea.MigrateRepoOption
pub record Migration : Type 0 where
  pub clone_addr : String
  pub repo_owner : String
  pub repo_name : String
  pub mirror : Bool
  pub description : String

-- The response of GetRepo is nil if no HTTP response came back; else its status, and the URL of the
-- repository, empty if there is none.
pub data RepoResponse : Type 0 where
  no_response : RepoResponse
  response : ℕ → String → RepoResponse

pub data Request : Type 0 where
  get_pattern : String → String → Request
  list_patterns : String → Request
  update_pattern update_pattern_status : Pattern → Request
  get_config_map : String → String → Request
  create_config_map : String → String → List (String × String) → Request
  get_namespace create_namespace : String → Request
  get_secret : String → String → Request
  create_secret update_secret : Secret → Request
  get_application delete_application : String → String → Request
  create_application update_application : String → Application → Request
  list_applications : String → Request
  get_subscription : String → String → Request
  create_subscription update_subscription : Subscription → Request
  get_operator_group create_operator_group : String → Request
  get_argo_cd : String → String → Request
  create_argo_cd update_argo_cd : String → ArgoObject → Request
  -- the object of a kind with a namespace and a name
  get_object : Kind → String → String → Request
  create_object update_object : (k : Kind) → String → String → Object k → Request
  get_console_link delete_console_link : String → Request
  create_console_link update_console_link : ConsoleLink → Request
  get_multi_cluster_hub : Request
  list_managed_clusters : Request
  delete_managed_cluster : String → Request
  search_applications : Search → Request
  server_groups : Request
  get_route : String → String → Request
  get_cluster_version get_infrastructure get_ingress : Request
  read_token : Request
  read_files : Request
  remove_local_git_paths : Request
  -- os.OpenFile for appending or truncating, and WriteString to the file that was opened
  open_file : String → Bool → Request
  write_string : String → String → Request
  -- the Gitea SDK: gitea.NewClient, GetRepo and MigrateRepo
  new_gitea_client : GiteaLogin → Request
  get_gitea_repo : GiteaLogin → String → String → Request
  migrate_gitea_repo : GiteaLogin → Migration → Request
  -- Watch on the ArgoCD instances
  watch_argo_cds : Request

-- What comes back.
abbrev pub Reply : Request → Type 0
Reply (get_pattern _ _) = Result Pattern
Reply (list_patterns _) = Result (List Pattern)
Reply (get_config_map _ _) = Result (List (String × String))
Reply (get_secret _ _) = Result Secret
Reply (update_secret _) = Result Secret
Reply (update_pattern _) = Result Pattern
Reply (get_application _ _) = Result Application
Reply (list_applications _) = Result (List Application)
Reply (get_subscription _ _) = Result Subscription
Reply (get_argo_cd _ _) = Result ArgoObject
Reply (get_object k _ _) = Result (Object k)
Reply (get_console_link _) = Result ConsoleLink
Reply get_multi_cluster_hub = Result (List (String × String))
Reply list_managed_clusters = Result (List String)
Reply (search_applications _) = Result SearchResponse
Reply server_groups = Result (List ApiGroup)
Reply (get_route _ _) = Result (List String)
Reply get_cluster_version = Result ClusterVersion
Reply get_infrastructure = Result String
Reply get_ingress = Result String
Reply read_token = Result String
Reply read_files = Files
Reply (get_gitea_repo _ _ _) = RepoResponse
Reply (migrate_gitea_repo _ _) = Result String
Reply _ = Result (Unit {0})

-- A program: it returns, fails with an error, panics, or sends a request and goes on with the reply.
pub data Prog (A : Type 0) : Type 0 where
  pure : A → Prog A
  fail : Err → Prog A
  panic : Prog A
  call : (r : Request) → (Reply r → Prog A) → Prog A

infixl 5 ◌>>=◌ ◌>>◌
unfoldable pub ◌>>=◌ : {A B : Type 0} → Prog A → (A → Prog B) → Prog B
pure a >>= f = f a
fail e >>= f = fail e
panic >>= f = panic
call r k >>= f = call r (λ x. k x >>= f)

abbrev pub ◌>>◌ : {A B : Type 0} → Prog A → Prog B → Prog B
m >> n = m >>= λ _. n

-- `x, err := m(); …`: the error is handed to what follows. A panic is not.
unfoldable pub attempt : {A : Type 0} → Prog A → Prog (Result A)
attempt (pure a) = pure (ok a)
attempt (fail e) = pure (err e)
attempt panic = panic
attempt (call r k) = call r (λ x. attempt (k x))

abbrev pub from_result : {A : Type 0} → Result A → Prog A
from_result (ok a) = pure a
from_result (err e) = fail e

-- `none` is a panic of the code that computed it.
abbrev pub or_panic : {A : Type 0} → Option A → Prog A
or_panic none = panic
or_panic (some a) = pure a

unfoldable pub ask : (r : Request) → Prog (Reply r)
ask r = call r pure
