-- ===== src/Examples/Operator.antt =====
-- The theorems about requests at a concrete pattern and cluster.
use patterns_operator.Prelude.{
  length, ℕ, String, Bool, true, Option, none, some, List, [], ◌∷◌, ◌≡◌, refl, All, Any, inl, inr,
  ◌+◌, ◌≤◌, ◌≢◌, equal_fold, subst,
}
use patterns_operator.Errors.{ok}
use patterns_operator.Api.{Pattern, initialize_deletion, delete_spoke, delete_hub_child_apps, other}
use patterns_operator.Argo.{Application}
use patterns_operator.Cluster.{Request, Reply, ◌>>=◌, ask, attempt}
use patterns_operator.Clusters.{apply_defaults}
use patterns_operator.Cluster.Runs.{returned, run, Environment, KeepsTo}
use patterns_operator.Kube.Owner.{owned_by_same, owned_by, refer_same_object}
use patterns_operator.Finalize.{finalize_object, wants_pruning, run_phase}
use patterns_operator.Clusters.Filled.{FilledUnlessFailed, apply_defaults-FilledUnlessFailed}
use patterns_operator.Enqueue.{ObjectKey}
use patterns_operator.Enqueue.Exact.{EnqueuesListed, enqueue-EnqueuesListed}
use patterns_operator.Acm.{delete_managed_clusters, without_local}
use patterns_operator.Acm.Deletes.{Deletes, deletions, delete_managed_clusters-deletions}
use patterns_operator.Finalize.Safety.{Allowed}
use patterns_operator.Finalize.Phases.{rank, Writes, stop, pass, Passes-rank}
use patterns_operator.Finalize.Drained.{Drained, IsProgress}
use patterns_operator.Finalize.Progress.{run_phase-progress}
use patterns_operator.Finalize.Requests.{finalize_object-requests}
use patterns_operator.Finalize.Kept.{finalize_object-keeps_finalizer, NotReturned, Found, SameOwner}
use patterns_operator.Clusters.{get_current_cluster_version, first_completed}
use patterns_operator.Reconcile.{by_deletion}
use patterns_operator.Reconcile.Deletion.{by_deletion-IsRetried, KeepsPattern, IsRetried}
use patterns_operator.Reconcile.Finalizer.{by_deletion-AddsFirst, AddsFirst}
use patterns_operator.Examples.{
  an_env, a_library, a_pattern, an_application, an_owner, cluster_with, some_services, vp_gitops,
}

abbrev hub : Environment ℕ
hub = cluster_with an_application

owner_passes : owned_by_same a_library.parse_group_version (an_owner ∷ []) (an_owner ∷ []) ≡ true
unfolding owned_by_same owned_by refer_same_object
owner_passes = refl

-- The references of the Application that is wanted, for a copy of the pattern.
wanted_owners :
    (q : Pattern) (built : Application)
    → SameOwner a_pattern q
    → built.owner_references ≡ []
    → an_owner ∷ [] ≡ a_library.set_owner_reference q built
wanted_owners q built same bare = rw (bare, same.0, same.2) refl

hub-Found : KeepsTo (Found a_library a_pattern) hub
unfolding get_current_cluster_version first_completed
hub-Found (Request.get_application n ns) w = λ q built same bare.
    subst (λ owners. owned_by_same a_library.parse_group_version owners (an_owner ∷ []) ≡ true)
      (wanted_owners q built same bare) owner_passes
hub-Found Request.get_cluster_version w = tt
hub-Found Request.get_infrastructure w = tt
hub-Found Request.get_ingress w = tt
hub-Found _ w = tt

wants : wants_pruning a_pattern ≡ true
unfolding wants_pruning equal_fold
wants = refl

finalize_object-requests_example :
    All
      (Allowed a_pattern.status.deletion_phase)
      (run hub (finalize_object a_library an_env a_pattern) 0).0
finalize_object-requests_example = finalize_object-requests a_library an_env hub a_pattern 0

finalize_object-keeps_finalizer_example :
    NotReturned (run hub (finalize_object a_library an_env a_pattern) 0).1
finalize_object-keeps_finalizer_example =
    finalize_object-keeps_finalizer a_library an_env hub a_pattern 0 hub-Found wants tt

by_deletion-IsRetried_example :
    All KeepsPattern (run hub (by_deletion some_services a_library an_env "" 0 a_pattern []) 0).0
    × IsRetried (run hub (by_deletion some_services a_library an_env "" 0 a_pattern []) 0).1
by_deletion-IsRetried_example =
    by_deletion-IsRetried a_library an_env some_services "" 0 hub a_pattern [] 0 hub-Found refl
      wants tt

-- The pattern as it is applied.
abbrev new_pattern : Pattern
new_pattern = record a_pattern { finalizers = []; deletion_timestamp = none }

by_deletion-AddsFirst_example :
    AddsFirst new_pattern
      (run hub (by_deletion some_services a_library an_env "" 0 new_pattern []) 0).0
by_deletion-AddsFirst_example =
    by_deletion-AddsFirst some_services a_library an_env "" 0 hub new_pattern [] 0 refl refl

-- A cluster whose Application has lost its owner.
abbrev foreign_hub : Environment ℕ
foreign_hub = cluster_with (record an_application { owner_references = [] })

-- The first pass on a hub without Advanced Cluster Management, in the legacy namespace.
abbrev first_pass : Pattern
first_pass = record a_pattern {
  status = record a_pattern.status { deletion_phase = initialize_deletion };
}

-- What it writes.
abbrev after_first : Pattern
after_first = record first_pass {
  spec = record first_pass.spec {
    git_config = record first_pass.spec.git_config { origin_revision = "HEAD" };
    multi_source_config = record first_pass.spec.multi_source_config {
      helm_repo_url = "https://charts.validatedpatterns.io/";
    };
  };
  status = record first_pass.status {
    cluster_name = "hub";
    app_cluster_domain = "apps.hub.example.com";
    cluster_domain = "hub.example.com";
    cluster_id = "id";
    local_checkout_path = "/tmp/vp/https___example.com_hub";
    deletion_phase = delete_hub_child_apps;
  };
}

first_pass-Writes : Writes after_first (run hub (finalize_object a_library an_env first_pass) 0).0
unfolding run finalize_object wants_pruning equal_fold ◌>>=◌ ask attempt apply_defaults
    patterns_operator.Clusters.with_cluster_id patterns_operator.Clusters.with_infrastructure
    patterns_operator.Clusters.with_version get_current_cluster_version
    patterns_operator.Clusters.with_ingress patterns_operator.Prelude.split
    patterns_operator.Clusters.set_checkout_path patterns_operator.GitUrl.get_local_git_path
    patterns_operator.Prelude.join_path patterns_operator.Prelude.replace_any
    patterns_operator.Clusters.default_spec patterns_operator.Finalize.finalize_application
    patterns_operator.Clusters.detect_argo_namespace
    patterns_operator.Argo.Build.new_argo_application
    patterns_operator.Argo.Build.new_source_application
    patterns_operator.Argo.Build.common_application_source_helm
    patterns_operator.Argo.ValueFiles.get_shared_value_files
    patterns_operator.Argo.Parameters.new_application_parameters
    patterns_operator.Argo.Build.common_sync_policy
    patterns_operator.Argo.Build.new_argo_operator_application
    patterns_operator.Applications.get_application_or_err owned_by_same owned_by refer_same_object
    run_phase patterns_operator.Acm.have_acm_hub patterns_operator.Finalize.update_deletion_phase
    patterns_operator.GitUrl.extract_git_fqdn_hostname patterns_operator.Prelude.join
    patterns_operator.Prelude.clean patterns_operator.Clusters.default_git_config
    patterns_operator.Clusters.default_multi_source first_completed
first_pass-Writes = inr (inr (inr (inr (inr (inr (inr (inr (inr (inl refl)))))))))

-- What the next pass reads: the server keeps the status of that write alone.
abbrev second_pass : Pattern
second_pass = record first_pass { status = after_first.status }

Passes-rank_example : 1 ≤ rank first_pass.status.deletion_phase
Passes-rank_example =
    Passes-rank ℕ a_library an_env first_pass 1
      (pass first_pass after_first second_pass 0 hub 0 first_pass-Writes refl (stop second_pass))

hub-Drained : KeepsTo Drained hub
hub-Drained (Request.update_application ns app) w = tt
hub-Drained (Request.list_applications s) w = tt
hub-Drained Request.read_token w = tt
hub-Drained (Request.search_applications s) w = (refl, refl)
hub-Drained _ w = tt

known : (s : String) → delete_spoke ≢ other s
known s h = absurd (cc)

run_phase-progress_example :
    Any
      (IsProgress an_application delete_spoke)
      (run hub
        (run_phase a_library an_env vp_gitops an_application an_application a_pattern delete_spoke)
        0).0
run_phase-progress_example =
    run_phase-progress a_library an_env vp_gitops an_application an_application
      (record { scheme = "https"; host = "search:4010"; hostname = "search"; path = "/searchapi" })
      refl refl hub a_pattern delete_spoke 0 hub-Drained known

-- A hub with two spokes.
abbrev two_spokes : (r : Request) → ℕ → Reply r × ℕ
two_spokes Request.list_managed_clusters w = (ok ("east" ∷ "local-cluster" ∷ "west" ∷ []), w)
two_spokes r w = hub r w

two_spokes-Deletes : Deletes two_spokes
two_spokes-Deletes name w = refl

delete_managed_clusters-deletions_example :
    ((run two_spokes delete_managed_clusters 0).0
      ≡ Request.list_managed_clusters
        ∷ deletions (without_local ("east" ∷ "local-cluster" ∷ "west" ∷ [])))
    × ((run two_spokes delete_managed_clusters 0).1
        ≡ returned (length (without_local ("east" ∷ "local-cluster" ∷ "west" ∷ []))))
delete_managed_clusters-deletions_example =
    delete_managed_clusters-deletions two_spokes ("east" ∷ "local-cluster" ∷ "west" ∷ []) 0 refl
      two_spokes-Deletes

apply_defaults-FilledUnlessFailed_example :
    FilledUnlessFailed a_library an_env a_pattern.spec
      (run hub (apply_defaults a_library an_env a_pattern) 0).1
apply_defaults-FilledUnlessFailed_example =
    apply_defaults-FilledUnlessFailed a_library an_env a_pattern hub 0

-- A cluster with one pattern.
abbrev one_pattern : (r : Request) → ℕ → Reply r × ℕ
one_pattern (Request.list_patterns ns) w = (ok (a_pattern ∷ []), w)
one_pattern r w = hub r w

abbrev config_map_key : ObjectKey
config_map_key = record { name = "patterns-operator-config"; namespace = "patterns-operator" }

enqueue-EnqueuesListed_example : EnqueuesListed one_pattern an_env config_map_key (a_pattern ∷ []) 0
enqueue-EnqueuesListed_example =
    enqueue-EnqueuesListed one_pattern an_env config_map_key (a_pattern ∷ []) 0 refl
