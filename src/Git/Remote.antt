-- ===== src/Git/Remote.antt =====
-- What is read of a clone, and how go-git is asked to make one (internal/controller/checkout.go).
use patterns_operator.Prelude.{String, List, [], ◌∷◌, ◌^◌}
use patterns_operator.Errors.{Result, ok, err, errorf}
use patterns_operator.Git.Auth.{CloneOptions}

-- go-git and the file system, for a type of repositories: git.PlainOpen, git.PlainClone, the hash of
-- Head, the URLs of a remote, and os.MkdirAll.
pub record PlainGit (R : Type 0) : Type 0 where
  pub plain_open : String → Result R
  pub plain_clone : String → CloneOptions → Result R
  pub head : R → Result String
  pub remote : R → String → Result (List String)
  pub make_directory : String → Result (Unit {0})

abbrev first_url : String → List String → Result String
first_url remote_name [] = err (errorf ("remote " ^ remote_name ^ " has no URLs"))
first_url remote_name (url ∷ urls) = ok url

module _ {R : Type 0} (git : PlainGit R) where
  abbrev url_of : String → Result (List String) → Result String
  url_of remote_name (err x) = err x
  url_of remote_name (ok urls) = first_url remote_name urls

  abbrev remote_of : String → Result R → Result String
  remote_of remote_name (err x) = err x
  remote_of remote_name (ok r) = url_of remote_name (git.remote r remote_name)

  unfoldable pub get_git_remote_url : String → String → Result String
  get_git_remote_url repo_path remote_name = remote_of remote_name (git.plain_open repo_path)

  abbrev head_of : Result R → Result String
  head_of (err x) = err x
  head_of (ok r) = git.head r

  unfoldable pub repo_hash : String → Result String
  repo_hash directory = head_of (git.plain_open directory)

  abbrev made : String → CloneOptions → Result (Unit {0}) → Result R
  made directory options (err x) = err x
  made directory options (ok _) = git.plain_clone directory options

  -- GitOperationsImpl.
  unfoldable pub clone_repository : String → CloneOptions → Result R
  clone_repository directory options = made directory options (git.make_directory directory)

  unfoldable pub open_repository : String → Result R
  open_repository directory = git.plain_open directory
