-- ===== src/Examples/Pieces.antt =====
-- The theorems about single functions at concrete arguments.
use patterns_operator.Prelude.{
  ℕ, String, true, false, none, some, List, [], ◌∷◌, ◌≡◌, ◌≢◌, ◌↔◌, refl, All, Any, or_else, eq_iff,
  arith,
}
use patterns_operator.Errors.{ok}
use patterns_operator.Api.{Pattern, PatternCondition}
use patterns_operator.Api.Webhook.{
  validate_create, pattern_object, convert_to_pattern, validate_variant_alias, admit_listed,
}
use patterns_operator.Api.Webhook.Singleton.{
  Reachable-IsSingleton, IsSingleton, Lists, initially, afterwards, create,
}
use patterns_operator.Argo.{HelmParameter}
use patterns_operator.Argo.Compare.{compare_application}
use patterns_operator.Argo.Compare.Agrees.{compare_application_iff, SpecAgrees}
use patterns_operator.Argo.Parameters.{new_application_parameters, base_parameters}
use patterns_operator.Argo.Parameters.Overrides.{
  new_application_parameters-value_of, value_of, extra_value_of, deletion_value,
}
use patterns_operator.Kube.Owner.{owned_by_same}
use patterns_operator.Kube.Owner.Exact.{owned_by_same_iff, SameObject}
use patterns_operator.Cluster.{Request, Reply, Secret, ask, ◌>>=◌}
use patterns_operator.Cluster.Runs.{run, returned, KeepsTo}
use patterns_operator.Bootstrap.{compare_maps, new_secret, copy_auth_git_secret}
use patterns_operator.Bootstrap.Maps.{compare_maps_iff, SameMap}
use patterns_operator.Bootstrap.Copies.{copy_auth_git_secret-WritesCopy, Holds, WritesCopy}
use patterns_operator.Conditions.{set_condition, remove_condition}
use patterns_operator.Conditions.Distinct.{
  set_condition-condition_of, remove_condition-condition_of, conditions-Distinct, condition_of,
  Distinct,
}
use patterns_operator.Subscription.{Subscription, SubscriptionSpec}
use patterns_operator.Subscriptions.{new_subscription}
use patterns_operator.Subscriptions.Update.{
  update_subscription-UpdatesIfDifferent, UpdatesIfDifferent,
}
use patterns_operator.Examples.{
  an_env, a_library, a_pattern, an_application, an_owner, cluster_with, vp_gitops, some_files,
}

owned_by_same_iff_example :
    (owned_by_same a_library.parse_group_version (an_owner ∷ []) (an_owner ∷ []) ≡ true)
    ↔ All
        (λ r. Any (λ o. SameObject a_library.parse_group_version o r) (an_owner ∷ []))
        (an_owner ∷ [])
owned_by_same_iff_example =
    owned_by_same_iff a_library.parse_group_version (an_owner ∷ []) (an_owner ∷ [])

compare_application_iff_example :
    (compare_application an_application an_application ≡ true)
    ↔ SpecAgrees an_application.spec an_application.spec
compare_application_iff_example = compare_application_iff an_application an_application

new_application_parameters-value_of_example :
    (ps : List HelmParameter) × (new_application_parameters an_env vp_gitops some_files a_pattern
      ≡ some ps)
    × (value_of "global.pattern" ps
        ≡ or_else (deletion_value "global.pattern" a_pattern) (
            or_else
              (value_of "global.pattern"
                (base_parameters an_env vp_gitops some_files a_pattern false))
              (extra_value_of "global.pattern" a_pattern.spec.extra_parameters)))
new_application_parameters-value_of_example =
    new_application_parameters-value_of an_env vp_gitops some_files a_pattern false "global.pattern"
      refl

abbrev missing_values : PatternCondition
missing_values = record {
  type = "Missing";
  status = "True";
  last_update_time = 3;
  last_transition_time = 2;
  message = "no file";
}

abbrev ready : String
ready = "Ready"

ready_missing : ready ≢ "Missing"
ready_missing h = ground (arith, eq_iff ready "Missing")

set_condition-condition_of_example :
    (condition_of "Missing" (set_condition 7 "Missing" "True" "gone" (missing_values ∷ []))
      ≡ some (record {
        type = "Missing";
        status = "True";
        last_update_time = 7;
        last_transition_time = 2;
        message = "gone";
      }))
    × (condition_of ready (set_condition 7 "Missing" "True" "gone" (missing_values ∷ []))
        ≡ condition_of ready (missing_values ∷ []))
set_condition-condition_of_example =
    set_condition-condition_of 7 "Missing" "True" "gone" ready (missing_values ∷ []) ready_missing

remove_condition-condition_of_example :
    (condition_of "Missing" (remove_condition "Missing" (missing_values ∷ [])) ≡ none)
    × (condition_of ready (remove_condition "Missing" (missing_values ∷ []))
        ≡ condition_of ready (missing_values ∷ []))
remove_condition-condition_of_example =
    remove_condition-condition_of "Missing" ready (missing_values ∷ []) (tt, tt) ready_missing

conditions-Distinct_example :
    Distinct (set_condition 7 "Ready" "True" "up" (missing_values ∷ []))
    × Distinct (remove_condition "Ready" (missing_values ∷ []))
conditions-Distinct_example =
    conditions-Distinct 7 "Ready" "True" "up" (missing_values ∷ []) (tt, tt)

abbrev wanted : Subscription
wanted = new_subscription an_env [] true

abbrev old_spec : SubscriptionSpec
old_spec = record {
  catalog_source = "redhat-operators";
  catalog_source_namespace = "openshift-marketplace";
  package_name = "openshift-gitops-operator";
  channel = "gitops-1.20";
  starting_csv = "";
  install_plan_approval = "Automatic";
  config = none;
}

abbrev old_subscription : Subscription
old_subscription = record {
  name = "gitops";
  namespace = "operators";
  owner_uids = [];
  spec = some old_spec;
}

abbrev newer_spec : SubscriptionSpec
newer_spec = record old_spec { channel = "gitops-1.21" }

update_subscription-UpdatesIfDifferent_example :
    UpdatesIfDifferent
      (cluster_with an_application)
      (record old_subscription { spec = some newer_spec })
      old_subscription
      newer_spec
      old_spec
      0
update_subscription-UpdatesIfDifferent_example =
    update_subscription-UpdatesIfDifferent (cluster_with an_application)
      (record old_subscription { spec = some newer_spec }) old_subscription newer_spec old_spec 0
      refl refl

-- A store in which nothing else is kept.
abbrev store_answer : (r : Request) → List Pattern → Reply r × List Pattern
store_answer (Request.list_patterns s) store = (ok store, store)
store_answer r store = ((cluster_with an_application r 0).0, store)

store_answer-Lists : Lists store_answer
store_answer-Lists store = refl

created_pattern : (run store_answer (validate_create (pattern_object a_pattern)) []).1 ≡ returned tt
unfolding run validate_create ask ◌>>=◌ convert_to_pattern validate_variant_alias admit_listed
created_pattern = refl

Reachable-IsSingleton_example : IsSingleton (a_pattern ∷ [])
Reachable-IsSingleton_example =
    Reachable-IsSingleton store_answer store_answer-Lists (a_pattern ∷ [])
      (afterwards [] (a_pattern ∷ []) initially (create [] a_pattern created_pattern))

abbrev a_map : List (String × String)
a_map = ("username", "me") ∷ ("password", "secret") ∷ []

abbrev swapped_map : List (String × String)
swapped_map = ("password", "secret") ∷ ("username", "me") ∷ []

compare_maps_iff_example : (compare_maps a_map swapped_map ≡ true) ↔ SameMap a_map swapped_map
compare_maps_iff_example = compare_maps_iff a_map swapped_map (refl, (refl, tt)) (refl, (refl, tt))

abbrev source_secret : Secret
source_secret = new_secret "repo" "default" a_map []

-- A cluster that answers each read of a secret with the source.
abbrev with_secret : (r : Request) → ℕ → Reply r × ℕ
with_secret (Request.get_secret ns n) w = (ok source_secret, w)
with_secret r w = cluster_with an_application r w

with_secret-Holds : KeepsTo (Holds "default" "repo" source_secret) with_secret
with_secret-Holds (Request.get_secret ns n) w = λ p q. refl
with_secret-Holds _ w = tt

copy_auth_git_secret-WritesCopy_example :
    All
      (WritesCopy source_secret "vp-gitops" "copy")
      (run with_secret (copy_auth_git_secret "default" "repo" "vp-gitops" "copy") 0).0
copy_auth_git_secret-WritesCopy_example =
    copy_auth_git_secret-WritesCopy "default" "repo" "vp-gitops" "copy" source_secret with_secret 0
      with_secret-Holds
