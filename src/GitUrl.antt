-- ===== src/GitUrl.antt =====
-- Texts of git repository URLs (internal/controller/utils.go and checkout.go).
use patterns_operator.Prelude.{
  String, ◌||◌, Option, none, some, List, [], ◌∷◌, ◌==◌, ◌^◌, starts_with, split, join_path,
  base_path, trim_suffix, replace_any, if◌then◌else◌,
}
use patterns_operator.Errors.{Err, Result, ok, err, errorf, wrap}
use patterns_operator.Defaults.{Env}
use patterns_operator.Library.{Library}

abbrev ssh_name : List String → Result String
ssh_name (host ∷ path ∷ []) = ok (base_path (trim_suffix (trim_suffix path "/") ".git"))
ssh_name _ = err (errorf "invalid ssh git URL")

-- The last part of a repository URL, without ".git".
unfoldable pub extract_repository_name : Library → String → Result String
extract_repository_name lib git_url =
    let parsed : Result String = elim (lib.parse_request_uri git_url) [
      | err x ↦ err x
      | ok u ↦
          let name = base_path u.path in
          ok (if name == ".git" then name else trim_suffix name ".git")
    ] in
    if starts_with git_url "git@" then ssh_name (split git_url b':') else parsed

abbrev head_or_empty : List String → String
head_or_empty [] = ""
head_or_empty (s ∷ _) = s

abbrev ssh_host : List String → Result String
ssh_host (user ∷ rest ∷ []) = ok (head_or_empty (split rest b':'))
ssh_host _ = err (errorf "invalid SSH git URL")

unfoldable pub extract_git_fqdn_hostname : Library → String → Result String
extract_git_fqdn_hostname lib git_url =
    let parsed : Result String = elim (lib.parse_request_uri git_url) [
      | err x ↦ err (wrap ("error parsing URL: " ^ x.message) x)
      | ok u ↦
          if u.hostname == ""
          then err (errorf ("error parsing URL (empty hostname): " ^ git_url))
          else ok u.hostname
    ] in
    if starts_with git_url "git@" then ssh_host (split git_url b'@') else parsed

-- `none` is the nil error.
unfoldable pub valid_git_repo_url : String → Option Err
valid_git_repo_url repo_url =
    if starts_with repo_url "git@"
    then none
    else if starts_with repo_url "https://" || starts_with repo_url "http://"
    then none
    else some (errorf ("repository URL must be either http/https or start with git@: " ^ repo_url))

abbrev first_of_many : List String → String
first_of_many (user ∷ host ∷ rest) = user
first_of_many _ = ""

unfoldable pub get_user_from_url : String → String
get_user_from_url url = first_of_many (split url b'@')

unfoldable pub get_local_git_path : Library → Env → String → String
get_local_git_path lib e repo_url =
    let normalized = lib.normalize_git_url repo_url in
    let name = if normalized == "" then repo_url else normalized in
    let root = join_path (e.temp_dir ∷ "vp" ∷ replace_any name ∷ []) in
    if root == e.temp_dir then join_path (e.temp_dir ∷ "vp" ∷ "vp-git-repo-fallback" ∷ []) else root
