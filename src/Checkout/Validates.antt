-- ===== src/Checkout/Validates.antt =====
-- What the validation before the deployment decides (internal/controller/pattern_controller.go,
-- preValidation, and internal/controller/utils.go, validGitRepoURL).
use patterns_operator.Prelude.{
  String, true, false, Option, none, some, ◌≡◌, ◌≢◌, ◌↔◌, ◌⊎◌, refl, or_else, eq_iff, arith,
  starts_with,
}
use patterns_operator.Errors.{Err}
use patterns_operator.Api.{Pattern, GitConfig}
use patterns_operator.Files.{Files, is_missing}
use patterns_operator.GitUrl.{valid_git_repo_url}
use patterns_operator.Argo.Parameters.{has_variants_folder_layout}
use patterns_operator.Checkout.{
  pre_validation, check_origin, check_target, check_values_file, values_file_path,
}

-- The URL is one of the three kinds that the operator accepts.
abbrev pub IsGitUrl : String → Type 0
IsGitUrl url =
    (starts_with url "git@" ≡ true)
    ⊎ (starts_with url "https://" ≡ true)
    ⊎ (starts_with url "http://" ≡ true)

-- The group or the clone is not known, or the values file of the group is not missing in the clone.
abbrev pub HasValuesFile : Files → Pattern → Type 0
HasValuesFile files p =
    (p.spec.cluster_group_name ≡ "")
    ⊎ (p.status.local_checkout_path ≡ "")
    ⊎ (is_missing (
          files.stat (
            values_file_path (has_variants_folder_layout files p.status.local_checkout_path)
              p.status.local_checkout_path p.spec.cluster_group_name))
        ≡ false)

valid_git_repo_url_iff : (url : String) → (valid_git_repo_url url ≡ none) ↔ IsGitUrl url
unfolding valid_git_repo_url
valid_git_repo_url_iff url = ground arith

check_origin_iff :
    (gc : GitConfig) → (check_origin gc ≡ none) ↔ ((gc.origin_repo ≡ "") ⊎ IsGitUrl gc.origin_repo)
check_origin_iff gc =
    ground (arith, eq_iff gc.origin_repo "", valid_git_repo_url_iff gc.origin_repo)

check_target_iff :
    (gc : GitConfig) → (check_target gc ≡ none) ↔ ((gc.target_repo ≢ "") × IsGitUrl gc.target_repo)
check_target_iff gc =
    ground (arith, eq_iff gc.target_repo "", valid_git_repo_url_iff gc.target_repo)

check_values_file_iff :
    (files : Files) (p : Pattern) → (check_values_file files p ≡ none) ↔ HasValuesFile files p
check_values_file_iff files p =
    ground (arith, eq_iff p.spec.cluster_group_name "", eq_iff p.status.local_checkout_path "")

-- The validation passes exactly when the origin repository is empty or a git URL, the target
-- repository is not empty and a git URL, and the values file of the cluster group is not missing from
-- the clone, where both the group and the clone are known.
pub pre_validation_iff :
    (files : Files) (p : Pattern)
    → (pre_validation files p ≡ none) ↔ (
        ((p.spec.git_config.origin_repo ≡ "") ⊎ IsGitUrl p.spec.git_config.origin_repo)
        × ((p.spec.git_config.target_repo ≢ "") × IsGitUrl p.spec.git_config.target_repo)
        × HasValuesFile files p)
unfolding pre_validation
pre_validation_iff files p = (to, from)
  where
    gc : GitConfig
    gc = p.spec.git_config

    split_none : (a b : Option Err) → or_else a b ≡ none → (a ≡ none) × (b ≡ none)
    split_none none b h = (refl, h)
    split_none (some x) b h = absurd (cc)

    to :
        or_else (check_origin gc) (or_else (check_target gc) (check_values_file files p)) ≡ none
        → ((gc.origin_repo ≡ "") ⊎ IsGitUrl gc.origin_repo)
          × ((gc.target_repo ≢ "") × IsGitUrl gc.target_repo)
          × HasValuesFile files p
    to h =
        let (origin, rest) = split_none _ _ h in
        let (target, values) = split_none _ _ rest in
        (
          (check_origin_iff gc).0 origin,
          (check_target_iff gc).0 target,
          (check_values_file_iff files p).0 values,
        )

    from :
        ((gc.origin_repo ≡ "") ⊎ IsGitUrl gc.origin_repo)
          × ((gc.target_repo ≢ "") × IsGitUrl gc.target_repo)
          × HasValuesFile files p
        → or_else (check_origin gc) (or_else (check_target gc) (check_values_file files p)) ≡ none
    from (origin, target, values) =
        rw ((check_origin_iff gc).1 origin, (check_target_iff gc).1 target)
          ((check_values_file_iff files p).1 values)
