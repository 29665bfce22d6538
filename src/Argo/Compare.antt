-- ===== src/Argo/Compare.antt =====
-- When two Applications count as equal (internal/controller/argo.go, compareApplication and below).
pub mod Fields
pub mod Agrees
use patterns_operator.Prelude.{
  ℕ, String, Bool, true, false, ◌&&◌, Option, none, some, List, [], ◌∷◌, ◌==◌, nat_eq, bool_eq,
  length, if◌then◌else◌,
}
use patterns_operator.Argo.{
  Slice, HelmParameter, ApplicationSourceHelm, ApplicationSource, SyncPolicyAutomated, ℤ, pos,
  negsuc, RetryStrategy, SyncPolicy, Application,
}

abbrev pub int_eq : ℤ → ℤ → Bool
int_eq (pos a) (pos b) = nat_eq a b
int_eq (negsuc a) (negsuc b) = nat_eq a b
int_eq _ _ = false

unfoldable pub compare_retry_strategy : Option RetryStrategy → Option RetryStrategy → Bool
compare_retry_strategy none none = true
compare_retry_strategy none (some _) = false
compare_retry_strategy (some _) none = false
compare_retry_strategy (some goal) (some actual) = int_eq goal.limit actual.limit

unfoldable pub compare_automated_sync_policy :
    Option SyncPolicyAutomated → Option SyncPolicyAutomated → Bool
compare_automated_sync_policy none none = true
compare_automated_sync_policy none (some _) = false
compare_automated_sync_policy (some _) none = false
compare_automated_sync_policy (some goal) (some actual) =
    if bool_eq goal.prune actual.prune
    then (if bool_eq goal.allow_empty actual.allow_empty
        then bool_eq goal.self_heal actual.self_heal
        else false)
    else false

-- The loop over positions, entered with lists of one length: the last clause is not reached.
unfoldable pub compare_texts : List String → List String → Bool
compare_texts [] actual = true
compare_texts (g ∷ gs) (a ∷ as') = if g == a then compare_texts gs as' else false
compare_texts (g ∷ gs) [] = false

unfoldable pub compare_sync_options : List String → List String → Bool
unfolding compare_texts
compare_sync_options goal actual =
    if nat_eq (length goal) 0 && nat_eq (length actual) 0
    then true
    else if nat_eq (length goal) (length actual)
    then compare_texts goal actual
    else false

unfoldable pub compare_sync_policy : Option SyncPolicy → Option SyncPolicy → Bool
compare_sync_policy none none = true
compare_sync_policy none (some _) = false
compare_sync_policy (some _) none = false
compare_sync_policy (some goal) (some actual) =
    if compare_automated_sync_policy goal.automated actual.automated
    then (if compare_sync_options goal.sync_options actual.sync_options
        then compare_retry_strategy goal.retry actual.retry
        else false)
    else false

unfoldable pub compare_helm_value_files : Slice String → Slice String → Bool
unfolding compare_texts
compare_helm_value_files none none = true
compare_helm_value_files none (some _) = false
compare_helm_value_files (some _) none = false
compare_helm_value_files (some goal) (some actual) =
    if nat_eq (length goal) (length actual) then compare_texts goal actual else false

-- The loop of `compareHelmParameters`, entered with lists of one length.
unfoldable pub compare_parameters : List HelmParameter → List HelmParameter → Bool
compare_parameters [] actual = true
compare_parameters (g ∷ gs) (a ∷ as') =
    if g.name == a.name && g.value == a.value && bool_eq g.force_string a.force_string
    then compare_parameters gs as'
    else false
compare_parameters (g ∷ gs) [] = false

unfoldable pub compare_helm_parameters : Slice HelmParameter → Slice HelmParameter → Bool
unfolding compare_parameters
compare_helm_parameters none none = true
compare_helm_parameters none (some _) = false
compare_helm_parameters (some _) none = false
compare_helm_parameters (some goal) (some actual) =
    if nat_eq (length goal) (length actual) then compare_parameters goal actual else false

unfoldable pub compare_helm_source : ApplicationSourceHelm → ApplicationSourceHelm → Bool
compare_helm_source goal actual =
    if compare_helm_value_files goal.value_files actual.value_files
    then compare_helm_parameters goal.parameters actual.parameters
    else false

-- The tests on `.Helm` at the end of `compareSource`.
unfoldable pub compare_helm : Option ApplicationSourceHelm → Option ApplicationSourceHelm → Bool
compare_helm none none = true
compare_helm none (some _) = false
compare_helm (some _) none = false
compare_helm (some goal) (some actual) = compare_helm_source goal actual

unfoldable pub compare_source : Option ApplicationSource → Option ApplicationSource → Bool
compare_source none none = true
compare_source none (some _) = false
compare_source (some _) none = false
compare_source (some goal) (some actual) =
    if goal.repo_url == actual.repo_url
    then (if goal.target_revision == actual.target_revision
        then (if goal.path == actual.path then compare_helm goal.helm actual.helm else false)
        else false)
    else false

-- The loop of `compareSources`; it hands its two arguments to `compareSource` the other way round.
unfoldable pub compare_source_list : List ApplicationSource → List ApplicationSource → Bool
compare_source_list goal [] = true
compare_source_list [] (a ∷ as') = false
compare_source_list (g ∷ gs) (a ∷ as') =
    if compare_source (some a) (some g) then compare_source_list gs as' else false

unfoldable pub compare_sources : Slice ApplicationSource → Slice ApplicationSource → Bool
unfolding compare_source_list
compare_sources none none = true
compare_sources none (some _) = false
compare_sources (some _) none = false
compare_sources (some goal) (some []) = false
compare_sources (some goal) (some (a ∷ as')) =
    if nat_eq (length (a ∷ as')) (length goal) then compare_source_list goal (a ∷ as') else false

unfoldable pub compare_application : Application → Application → Bool
compare_application goal actual =
    if compare_source goal.spec.source actual.spec.source
    then (if compare_sources goal.spec.sources actual.spec.sources
        then compare_sync_policy goal.spec.sync_policy actual.spec.sync_policy
        else false)
    else false
