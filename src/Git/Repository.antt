-- ===== src/Git/Repository.antt =====
-- Revisions, checkout and clone (internal/controller/checkout.go). The go-git repository and what
-- the operator asks of it are parameters.
use patterns_operator.Prelude.{String, Bool, not, Option, none, some, ◌==◌, ◌^◌, if◌then◌else◌}
use patterns_operator.Errors.{Err, Result, ok, err, errorf}
use patterns_operator.Git.Auth.{
  SecretMap, AuthLibrary, FetchOptions, CloneOptions, get_fetch_options, get_clone_options,
}

-- What an object of the repository is.
pub data GitObject : Type 0 where
  tag_of_commit tag_of_other commit : String → GitObject
  other_object : GitObject

-- A resolved reference.
pub record Reference : Type 0 where
  pub is_tag : Bool
  pub hash : String

pub data GitError : Type 0 where
  already_up_to_date : GitError
  git_error : Err → GitError

-- What the operator asks of go-git, for a type of repositories.
pub record GitOps (R : Type 0) : Type 0 where
  pub open_repository : String → Result R
  pub clone_repository : String → CloneOptions → Result R
  pub reference : R → String → Result Reference
  pub object : R → String → Result GitObject
  pub new_hash : String → String
  pub head : R → Result String
  pub worktree : R → Result (Unit {0})
  pub fetch : R → FetchOptions → Option GitError × R
  pub check_out : R → String → Option GitError × R

module _ {R : Type 0} (git : GitOps R) where
  abbrev hash_of_object : GitObject → Result String
  hash_of_object (tag_of_commit target) = ok target
  hash_of_object (tag_of_other kind) =
      err (errorf ("unsupported tag object target \"" ^ kind ^ "\""))
  hash_of_object (commit hash) = ok hash
  hash_of_object other_object = err (errorf "unsupported tag target")

  abbrev pub hash_of_result : Result GitObject → Result String
  hash_of_result (err x) = err x
  hash_of_result (ok o) = hash_of_object o

  abbrev pub hash_of_reference : R → Result Reference → Result String
  hash_of_reference repo (err x) = err x
  hash_of_reference repo (ok b) =
      if not b.is_tag then ok b.hash else hash_of_result (git.object repo b.hash)

  unfoldable pub get_hash_from_reference : R → String → Result String
  get_hash_from_reference repo name = hash_of_reference repo (git.reference repo name)

  abbrev pub head_hash : Result String → Result String
  head_hash (ok h) = ok h
  head_hash (err x) = err (record x { message = "failed to get HEAD reference: " ^ x.message })

  -- The first success, as `if h, err := …; err == nil { return h, nil }` in a row.
  abbrev pub or_next : Result String → Result String → Result String
  or_next (ok h) next = ok h
  or_next (err x) next = next

  abbrev from_references : R → String → Result String
  from_references repo name =
      or_next (get_hash_from_reference repo ("refs/remotes/origin/" ^ name)) (
        or_next (get_hash_from_reference repo ("refs/heads/" ^ name)) (
          or_next (get_hash_from_reference repo ("refs/tags/" ^ name)) (
            or_next (get_hash_from_reference repo ("refs/remotes/" ^ name ^ "/HEAD"))
              (err (errorf ("unknown target \"" ^ name ^ "\""))))))

  abbrev pub from_hash : R → String → Result GitObject → Result String
  from_hash repo name (ok o) = ok (git.new_hash name)
  from_hash repo name (err x) =
      if name == "HEAD" then head_hash (git.head repo) else from_references repo name

  unfoldable pub get_commit_from_target : R → String → Result String
  get_commit_from_target repo name =
      if name == ""
      then get_hash_from_reference repo "refs/heads/main"
      else from_hash repo name (git.object repo (git.new_hash name))

  abbrev pub reads_head : R → Result String → Result R
  reads_head repo (err x) = err x
  reads_head repo (ok h) = ok repo

  abbrev pub after_checkout : Option GitError × R → Result R
  after_checkout (some (git_error x), repo) = err x
  after_checkout (_, repo) = reads_head repo (git.head repo)

  abbrev pub checkout_commit : R → Result String → Result R
  checkout_commit repo (err x) = err x
  checkout_commit repo (ok h) = after_checkout (git.check_out repo h)

  abbrev pub in_worktree : R → String → Result (Unit {0}) → Result R
  in_worktree repo target (err x) = err x
  in_worktree repo target (ok _) = checkout_commit repo (get_commit_from_target repo target)

  abbrev pub after_fetch : String → Option GitError × R → Result R
  after_fetch target (some (git_error x), repo) = err x
  after_fetch target (_, repo) = in_worktree repo target (git.worktree repo)

  abbrev pub fetch_with : R → String → Result FetchOptions → Result R
  fetch_with repo target (err x) = err x
  fetch_with repo target (ok options) = after_fetch target (git.fetch repo options)

  abbrev pub opened : AuthLibrary → String → SecretMap → String → Result R → Result R
  opened lib url secret target (err x) = err x
  opened lib url secret target (ok repo) = fetch_with repo target (get_fetch_options lib url secret)

  -- The repository afterwards.
  unfoldable pub checkout_revision : AuthLibrary → String → String → String → SecretMap → Result R
  checkout_revision lib url directory target secret =
      opened lib url secret target (git.open_repository directory)

  abbrev pub cloned : R → Result String → Result (Option R)
  cloned repo (err x) = err x
  cloned repo (ok h) = ok (some repo)

  abbrev pub after_clone : Result R → Result (Option R)
  after_clone (err x) = err x
  after_clone (ok repo) = cloned repo (git.head repo)

  abbrev pub clone_with : String → Result CloneOptions → Result (Option R)
  clone_with directory (err x) = err x
  clone_with directory (ok options) = after_clone (git.clone_repository directory options)

  -- `there` is whether os.Stat finds the `.git` folder; the repository is `none` where it is there already.
  unfoldable pub clone_repo : AuthLibrary → Bool → String → String → SecretMap → Result (Option R)
  clone_repo lib there url directory secret =
      if there then ok none else clone_with directory (get_clone_options lib url secret)

  abbrev pub checked_out : Result R → Result (Option R)
  checked_out (ok after) = ok (some after)
  checked_out (err x) = err x

  abbrev pub then_checkout :
      AuthLibrary → String → String → String → SecretMap → Result (Option R) → Result (Option R)
  then_checkout lib url directory target secret (err x) = err x
  then_checkout lib url directory target secret (ok repo) =
      if target == ""
      then ok repo
      else checked_out (checkout_revision lib url directory target secret)

  unfoldable pub checkout :
      AuthLibrary → Bool → String → String → String → SecretMap → Result (Option R)
  checkout lib there url directory target secret =
      then_checkout lib url directory target secret (clone_repo lib there url directory secret)
