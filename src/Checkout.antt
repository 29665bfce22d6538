-- ===== src/Checkout.antt =====
-- The local clone of the pattern's repository and its validation
-- (internal/controller/pattern_controller.go, getLocalGit and preValidation).
pub mod Validates
use patterns_operator.Prelude.{
  String, Bool, true, false, not, ◌&&◌, Option, none, some, or_else, List, [], ◌∷◌, ◌==◌, ◌^◌,
  join_path, if◌then◌else◌,
}
use patterns_operator.Errors.{Err, Result, ok, err, errorf}
use patterns_operator.Api.{Pattern, GitConfig}
use patterns_operator.Files.{Files, is_missing}
use patterns_operator.Services.{Services}
use patterns_operator.GitUrl.{valid_git_repo_url}
use patterns_operator.Bootstrap.{auth_git_from_secret}
use patterns_operator.Argo.Parameters.{has_variants_folder_layout}
use patterns_operator.Cluster.{Prog, pure, ask, attempt, ◌>>=◌, ◌>>◌, read_files}

-- The name of the values file inside the clone.
abbrev pub values_file_name : Bool → String → String
values_file_name true name = "variants/" ^ name ^ "/values-" ^ name ^ ".yaml"
values_file_name false name = "values-" ^ name ^ ".yaml"

abbrev pub values_file_path : Bool → String → String → String
values_file_path true checkout name =
    join_path (checkout ∷ "variants" ∷ name ∷ ("values-" ^ name ^ ".yaml") ∷ [])
values_file_path false checkout name = join_path (checkout ∷ ("values-" ^ name ^ ".yaml") ∷ [])

abbrev pub check_values_file : Files → Pattern → Option Err
check_values_file files p =
    let name = p.spec.cluster_group_name in
    let checkout = p.status.local_checkout_path in
    let variants = has_variants_folder_layout files checkout in
    if not (name == "") && not (checkout == "")
    then (if is_missing (files.stat (values_file_path variants checkout name))
        then some (errorf ("required values file not found: " ^ values_file_name variants name))
        else none)
    else none

abbrev pub check_origin : GitConfig → Option Err
check_origin gc = if gc.origin_repo == "" then none else valid_git_repo_url gc.origin_repo

abbrev pub check_target : GitConfig → Option Err
check_target gc =
    if gc.target_repo == ""
    then some (errorf "TargetRepo cannot be empty")
    else valid_git_repo_url gc.target_repo

-- The error, if there is one.
unfoldable pub pre_validation : Files → Pattern → Option Err
pre_validation files p =
    or_else (check_origin p.spec.git_config)
      (or_else (check_target p.spec.git_config) (check_values_file files p))

-- The step that failed, and its error.
abbrev pub Checkout : Type 0
Checkout = Prog (String × Option Err)

abbrev step_result : {A : Type 0} → String → (A → Checkout) → Result A → Checkout
step_result text k (ok a) = k a
step_result text k (err x) = pure (text, some x)

abbrev step : {A : Type 0} → String → Prog A → (A → Checkout) → Checkout
step text m k = attempt m >>= step_result text k

module _ (svc : Services) (p : Pattern) where
  abbrev validate : Files → Checkout
  validate files = elim (pre_validation files p) [
    | none ↦ pure ("", none)
    | some x ↦ pure ("prerequisite validation", some x)
  ]

  abbrev check_out : List (String × String) → Checkout
  check_out secret =
      step "checkout target revision"
        (svc.checkout_revision p.spec.git_config.target_repo p.status.local_checkout_path
          p.spec.git_config.target_revision secret)
        (λ _. ask read_files >>= validate)

  abbrev clone : List (String × String) → Prog (Unit {0})
  clone secret = svc.clone_repo p.spec.git_config.target_repo p.status.local_checkout_path secret

  abbrev git_dir : String
  git_dir = join_path (p.status.local_checkout_path ∷ ".git" ∷ [])

  abbrev compare_url : List (String × String) → String → Checkout
  compare_url secret url =
      if url == p.spec.git_config.target_repo
      then check_out secret
      else step "failed to remove locally cloned folder" (svc.remove_all git_dir)
          (λ _. step "cloning pattern repo after removal" (clone secret) (λ _. check_out secret))

  -- The repository is cloned where there is no clone, or one of another repository.
  abbrev renew : List (String × String) → Files → Checkout
  renew secret files =
      if is_missing (files.stat git_dir)
      then step "cloning pattern repo" (clone secret) (λ _. check_out secret)
      else step "getting remote URL pattern repo" (svc.get_git_remote_url git_dir "origin")
          (compare_url secret)

  abbrev with_secret : List (String × String) → Checkout
  with_secret secret = attempt svc.write_ca_files >> (ask read_files >>= renew secret)

  unfoldable pub get_local_git : Checkout
  get_local_git =
      if p.spec.git_config.token_secret == ""
      then with_secret []
      else step "obtaining git auth info from secret"
          (auth_git_from_secret p.spec.git_config.token_secret_namespace
            p.spec.git_config.token_secret)
          with_secret
