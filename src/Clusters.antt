-- ===== src/Clusters.antt =====
-- Defaults drawn from the cluster (internal/controller: applyDefaults, getCurrentClusterVersion and
-- detectArgoNamespace).
pub mod Keeps
pub mod Succeeds
pub mod Filled
use patterns_operator.Prelude.{
  ℕ, String, Bool, true, false, not, ◌&&◌, Option, none, some, List, [], ◌∷◌, ◌==◌, ◌^◌, split,
  join, or_else, if◌then◌else◌,
}
use patterns_operator.Errors.{Err, Result, ok, err, wrap}
use patterns_operator.Api.{Pattern, PatternSpec, GitConfig, MultiSourceConfig, GitOpsConfig}
use patterns_operator.Library.{Library, Version}
use patterns_operator.Defaults.{
  Env, ActiveArgo, application_namespace, cluster_wide_argo_name, legacy_application_namespace,
  legacy_cluster_wide_argo_name,
}
use patterns_operator.GitUrl.{extract_git_fqdn_hostname, get_local_git_path}
use patterns_operator.Cluster.{
  ClusterVersion, UpdateHistory, Prog, pure, fail, panic, ask, ◌>>=◌, ◌>>◌, get_argo_cd,
  get_cluster_version, get_infrastructure, get_ingress, remove_local_git_paths,
}

abbrev pub argo_of : {A : Type 0} → Result A → ActiveArgo
argo_of (ok _) = record {
  namespace = legacy_application_namespace;
  name = legacy_cluster_wide_argo_name;
}
argo_of (err _) = record { namespace = application_namespace; name = cluster_wide_argo_name }

-- The package variables after `detectArgoNamespace`.
unfoldable pub detect_argo_namespace : Prog ActiveArgo
unfolding ask ◌>>=◌
detect_argo_namespace = do
  reply ← ask (get_argo_cd legacy_cluster_wide_argo_name legacy_application_namespace)
  pure (argo_of reply)

abbrev parse_and_return_version : Library → String → Result Version
parse_and_return_version lib s = elim (lib.new_version s) [
  | ok v ↦ ok v
  | err x ↦ err (wrap ("failed to parse version " ^ s ^ ": " ^ x.message) x)
]

-- The loop of `getCurrentClusterVersion`: the first completed version of the history.
unfoldable pub first_completed : List UpdateHistory → Option String
first_completed [] = none
first_completed (h ∷ hs) =
    let rest = first_completed hs in if h.state == "Completed" then some h.version else rest

unfoldable pub get_current_cluster_version : Library → ClusterVersion → Result Version
unfolding first_completed
get_current_cluster_version lib cv = elim (first_completed cv.history) [
  | some v ↦ parse_and_return_version lib v
  | none ↦ parse_and_return_version lib cv.desired
]

abbrev pub default_text : String → String → String
default_text s d = if s == "" then d else s

abbrev found_host : Result String → String
found_host (ok h) = h
found_host (err _) = ""

unfoldable pub default_git_config : Library → GitConfig → GitConfig
default_git_config lib g = record g {
  target_revision = default_text g.target_revision "HEAD";
  origin_revision = default_text g.origin_revision "HEAD";
  hostname = default_text g.hostname (found_host (extract_git_fqdn_hostname lib g.target_repo));
}

unfoldable pub default_multi_source : MultiSourceConfig → MultiSourceConfig
default_multi_source m = record m {
  enabled = or_else m.enabled (some true);
  helm_repo_url = default_text m.helm_repo_url "https://charts.validatedpatterns.io/";
}

-- The part of `applyDefaults` that fills in the spec.
unfoldable pub default_spec : Library → PatternSpec → PatternSpec
unfolding default_git_config default_multi_source
default_spec lib s = record s {
  git_ops_config = or_else s.git_ops_config (some (record { manual_sync = false }));
  git_config = default_git_config lib s.git_config;
  multi_source_config = default_multi_source s.multi_source_config;
  cluster_group_name = default_text s.variant s.cluster_group_name;
}

abbrev pub moved_checkout : Library → Env → Pattern → Pattern
moved_checkout lib e p = record p {
  status = record p.status {
    local_checkout_path = get_local_git_path lib e p.spec.git_config.target_repo;
  };
}

-- The end of `applyDefaults`: a new checkout path drops the local checkouts, errors ignored.
unfoldable pub set_checkout_path : Library → Env → Pattern → Prog (Pattern × Option Err)
unfolding ask ◌>>=◌
set_checkout_path lib e p =
    let q = moved_checkout lib e p in
    let drop : Prog (Pattern × Option Err) = (do ask remove_local_git_paths; pure (q, none)) in
    if q.status.local_checkout_path == p.status.local_checkout_path then pure (q, none) else drop

abbrev pub with_names : Library → Pattern → String → String → List String → Pattern
with_names lib p domain name rest = record p {
  status = record p.status {
    cluster_name = name;
    app_cluster_domain = domain;
    cluster_domain = join (name ∷ rest) ".";
  };
  spec = default_spec lib p.spec;
}

-- `ss[1]` panics on a domain without a dot.
abbrev pub with_domain :
    Library → Env → Pattern → String → List String → Prog (Pattern × Option Err)
with_domain lib e p domain (apps ∷ name ∷ rest) =
    set_checkout_path lib e (with_names lib p domain name rest)
with_domain lib e p domain _ = panic

unfoldable pub with_ingress : Library → Env → Pattern → Result String → Prog (Pattern × Option Err)
with_ingress lib e p (err x) = pure (p, some x)
with_ingress lib e p (ok domain) = with_domain lib e p domain (split domain b'.')

unfoldable pub with_parsed_version :
    Library → Env → Pattern → Result Version → Prog (Pattern × Option Err)
unfolding ask ◌>>=◌
with_parsed_version lib e p (err x) = pure (p, some x)
with_parsed_version lib e p (ok v) = do
  ingress ← ask get_ingress
  with_ingress lib e
      (record p { status = record p.status { cluster_version = v.major ^ "." ^ v.minor } }) ingress

unfoldable pub with_version :
    Library → Env → Pattern → Result ClusterVersion → Prog (Pattern × Option Err)
unfolding with_parsed_version
with_version lib e p (err x) = pure (p, some x)
with_version lib e p (ok cv) = with_parsed_version lib e p (get_current_cluster_version lib cv)

unfoldable pub with_infrastructure :
    Library → Env → Pattern → Result String → Prog (Pattern × Option Err)
unfolding ask ◌>>=◌
with_infrastructure lib e p (err x) = pure (p, some x)
with_infrastructure lib e p (ok platform) = do
  cv ← ask get_cluster_version
  with_version lib e (record p { status = record p.status { cluster_platform = platform } }) cv

unfoldable pub with_cluster_id :
    Library → Env → Pattern → Result ClusterVersion → Prog (Pattern × Option Err)
unfolding ask ◌>>=◌
with_cluster_id lib e p (err x) = pure (p, some x)
with_cluster_id lib e p (ok cv) = do
  infra ← ask get_infrastructure
  with_infrastructure lib e (record p { status = record p.status { cluster_id = cv.cluster_id } })
      infra

-- The copy with defaults, as far as it got, and the error.
unfoldable pub apply_defaults : Library → Env → Pattern → Prog (Pattern × Option Err)
unfolding ask ◌>>=◌
apply_defaults lib e p = do cv ← ask get_cluster_version; with_cluster_id lib e p cv
