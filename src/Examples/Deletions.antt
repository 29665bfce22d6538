-- ===== src/Examples/Deletions.antt =====
-- The theorem about the end of a deletion at a concrete cluster.
use patterns_operator.Prelude.{
  true, equal_fold, none, some, Option, List, subst, [], ◌∷◌, ◌≡◌, refl, ap, split,
}
use patterns_operator.Errors.{ok, err, errorf}
use patterns_operator.Api.{Pattern, initialize_deletion}
use patterns_operator.Library.{Url}
use patterns_operator.Kube.Owner.{owned_by_same, owned_by, refer_same_object}
use patterns_operator.Clusters.{default_spec, get_current_cluster_version, first_completed}
use patterns_operator.Cluster.{Request, Reply}
use patterns_operator.Finalize.{wants_pruning}
use patterns_operator.Finalize.Settled.{
  Stored, Facts, Settles, left_application, found_application, with_status, with_application,
  defaulted,
}
use patterns_operator.Finalize.Drained.{NoneTracked}
use patterns_operator.Finalize.Kept.{SameOwner}
use patterns_operator.Argo.{Application}
use patterns_operator.Applications.{is_child_of}
use patterns_operator.Finalize.Turns.{BuildsInEveryPhase}
use patterns_operator.Finalize.Countdown.{Completes}
use patterns_operator.Finalize.Completes.{finalize_object-Completes}
use patterns_operator.Argo.Build.{
  application_name, new_argo_application, new_source_application, common_application_source_helm,
  common_sync_policy,
}
use patterns_operator.Argo.ValueFiles.{get_shared_value_files}
use patterns_operator.Argo.Parameters.{new_application_parameters}
use patterns_operator.Examples.{
  an_env, a_library, a_pattern, an_application, an_owner, cluster_with, some_files,
}

abbrev facts : Facts
facts = record {
  version = record { cluster_id = "id"; history = []; desired = "4.18.1" };
  parsed = record { major = "4"; minor = "18" };
  platform = "AWS";
  domain = "apps.hub.example.com";
  apps_label = "apps";
  name = "hub";
  rest = "example" ∷ "com" ∷ [];
  hub = err (errorf "no hub");
  legacy_argo = err (errorf "no legacy instance");
  files = some_files;
}

-- The Applications of the cluster: the pattern's own, of which Argo tracks no parent.
abbrev listed : Option Application → List Application
listed none = []
listed (some app) = record app { annotations = [] } ∷ []

listed-NoneTracked : (o : Option Application) → NoneTracked (listed o)
unfolding is_child_of
listed-NoneTracked none = tt
listed-NoneTracked (some app) = ((λ parent. refl), tt)

-- A cluster without spokes that stores the pattern and its Application.
abbrev settled : (r : Request) → Stored → Reply r × Stored
settled Request.get_multi_cluster_hub s = (facts.hub, s)
settled (Request.get_argo_cd name namespace) s = (facts.legacy_argo, s)
settled (Request.get_application name namespace) s =
    (found_application name namespace s.application, s)
settled (Request.list_applications selector) s = (ok (listed s.application), s)
settled (Request.get_pattern name namespace) s = (ok s.pattern, s)
settled (Request.update_pattern_status p) s = (ok tt, with_status s p.status)
settled (Request.update_application namespace app) s = (ok tt, with_application s (some app))
settled (Request.delete_application name namespace) s =
    (ok tt, with_application s (left_application name namespace s.application))
settled (Request.search_applications query) s =
    (ok (record { status_code = 200; results = ok [] }), s)
settled r s = ((cluster_with an_application r 0).0, s)

abbrev search : Url
search = record { scheme = "https"; host = "search:4010"; hostname = "search"; path = "/searchapi" }

parses : get_current_cluster_version a_library facts.version ≡ ok facts.parsed
unfolding get_current_cluster_version first_completed
parses = refl

labels : split facts.domain b'.' ≡ facts.apps_label ∷ facts.name ∷ facts.rest
unfolding split
labels = refl

settled-Settles : Settles a_library an_env facts settled (λ s. s)
settled-Settles = record {
  parses = parses;
  labels = labels;
  searchable = (search, refl, refl);
  version = λ s w v. (refl, v);
  platform = λ s w v. (refl, v);
  ingress = λ s w v. (refl, v);
  hub = λ s w v. (refl, v);
  argo = λ s name namespace w v. (refl, v);
  files = λ s w v. (refl, v);
  drop = λ s. (ok tt, λ w v. (refl, v));
  token = λ s. ("token", λ w v. (refl, v));
  children = λ s selector. (
    listed s.application,
    listed-NoneTracked s.application,
    λ w v. (ap (λ (o : Stored). ok (listed o.application)) v, v),
  );
  search = λ s query w v. (refl, v);
  link = λ s name. (ok tt, λ w v. (refl, v));
  application = λ s name namespace w v.
      (ap (λ (o : Stored). found_application name namespace o.application) v, v);
  pattern = λ s name namespace w v. (ap (λ (o : Stored). ok o.pattern) v, v);
  status_written = λ s p w v. (refl, ap (λ (o : Stored). with_status o p.status) v);
  application_written =
      λ s namespace app w v. (refl, ap (λ (o : Stored). with_application o (some app)) v);
  application_deleted = λ s name namespace w v. (
    refl,
    ap (λ (o : Stored). with_application o (left_application name namespace o.application)) v,
  );
}

abbrev deleted_pattern : Pattern
deleted_pattern = record a_pattern {
  status = record a_pattern.status { deletion_phase = initialize_deletion };
}

builds :
    BuildsInEveryPhase a_library an_env facts (defaulted a_library an_env facts deleted_pattern)
unfolding new_argo_application new_source_application default_spec common_application_source_helm
    get_shared_value_files new_application_parameters common_sync_policy
builds phase = (_, refl)

owner_passes : owned_by_same a_library.parse_group_version (an_owner ∷ []) (an_owner ∷ []) ≡ true
unfolding owned_by_same owned_by refer_same_object
owner_passes = refl

wanted_owners :
    (q : Pattern) (built : Application)
    → SameOwner deleted_pattern q
    → built.owner_references ≡ []
    → an_owner ∷ [] ≡ a_library.set_owner_reference q built
wanted_owners q built same bare = rw (bare, same.0, same.2) refl

named : an_application.name ≡ application_name (defaulted a_library an_env facts deleted_pattern)
unfolding application_name default_spec
named = refl

prunes : wants_pruning deleted_pattern ≡ true
unfolding wants_pruning equal_fold
prunes = refl

finalize_object-Completes_example :
    Completes a_library an_env facts settled
      (λ s. s)
      7
      (record { pattern = deleted_pattern; application = some an_application })
finalize_object-Completes_example =
    finalize_object-Completes a_library an_env facts settled (λ s. s) settled-Settles
      deleted_pattern an_application prunes (λ text h. absurd (cc))
      (λ q built same bare.
        subst (λ owners. owned_by_same a_library.parse_group_version owners (an_owner ∷ []) ≡ true)
          (wanted_owners q built same bare) owner_passes)
      named refl builds (record { pattern = deleted_pattern; application = some an_application })
      refl
