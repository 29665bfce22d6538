-- ===== src/Bootstrap.antt =====
-- What the operator sets up around Argo CD (internal/controller: kube.go, utils.go, argo.go and
-- pattern_controller.go): namespaces, the trusted bundle, the console link, the repository secret.
pub mod Maps
pub mod Copies
use patterns_operator.Prelude.{
  String, Bool, true, false, not, ◌&&◌, Option, none, some, List, [], ◌∷◌, ◌==◌, ◌^◌, nat_eq,
  length, lookup, any, all, contains, split, trim_space, if◌then◌else◌,
}
use patterns_operator.Errors.{Err, Result, ok, err, errorf, wrap, is_not_found}
use patterns_operator.Cluster.{
  Secret, ApiGroup, ConsoleLink, ConsoleLinkSpec, Prog, pure, fail, ask, from_result, ◌>>=◌,
  get_namespace, create_namespace as post_namespace, get_config_map, create_config_map,
  get_secret as fetch_secret, create_secret, update_secret, get_console_link, create_console_link,
  update_console_link, server_groups, get_route as fetch_route,
}

abbrev is_ok : {A : Type 0} → Result A → Bool
is_ok (ok _) = true
is_ok (err _) = false

unfoldable pub have_namespace : String → Prog Bool
unfolding ask ◌>>=◌
have_namespace name = do reply ← ask (get_namespace name); pure (is_ok reply)

-- What follows a read: nothing if the object is there, the given program if it is missing.
abbrev pub if_missing : {A : Type 0} → Prog (Unit {0}) → Result A → Prog (Unit {0})
if_missing make (ok _) = pure tt
if_missing make (err x) = elim (is_not_found x) [ true ↦ make | false ↦ fail x ]

unfoldable pub create_namespace : String → Prog (Unit {0})
unfolding ask ◌>>=◌
create_namespace namespace = do
  read ← ask (get_namespace namespace)
  if_missing (ask (post_namespace namespace) >>= from_result) read

abbrev pub trusted_bundle_cm : String
trusted_bundle_cm = "trusted-ca-bundle"

-- The labels of the ConfigMap are not modelled.
unfoldable pub create_trusted_bundle_cm : String → Prog (Unit {0})
unfolding ask ◌>>=◌
create_trusted_bundle_cm namespace = do
  read ← ask (get_config_map namespace trusted_bundle_cm)
  if_missing (ask (create_config_map namespace trusted_bundle_cm []) >>= from_result) read

abbrev is_populated : Option String → Bool
is_populated none = false
is_populated (some bundle) = not (bundle == "")

unfoldable pub is_trusted_bundle_cm_populated : String → Prog Bool
unfolding ask ◌>>=◌
is_trusted_bundle_cm_populated namespace = do
  reply ← ask (get_config_map namespace trusted_bundle_cm)
  found ← from_result reply
  pure (is_populated (lookup "ca-bundle.crt" found))

unfoldable pub get_config_map_key : String → String → String → Prog String
unfolding ask ◌>>=◌
get_config_map_key namespace config_map_name key = do
  reply ← ask (get_config_map namespace config_map_name)
  elim reply [
    | err x ↦ fail (
        wrap
          ("error getting ConfigMap " ^ config_map_name ^ " in namespace " ^ namespace ^ ": "
            ^ x.message)
          x)
    | ok found ↦ elim (lookup key found) [
      | none ↦ fail (errorf ("key " ^ key ^ " not found in ConfigMap " ^ config_map_name))
      | some v ↦ pure v
    ]
  ]

-- The loop over the comma-separated names.
unfoldable pub has_experimental_capability : String → String → Bool
has_experimental_capability capabilities name =
    any (λ element. trim_space element == name) (split capabilities 44)

abbrev pub is_value : String → Option String → Bool
is_value v none = false
is_value v (some w) = v == w

-- The value of the key in the other map is there and the same.
abbrev pub bound_alike : List (String × String) → String × String → Bool
bound_alike m2 (k, v) = is_value v (lookup k m2)

-- Two Go maps: as many keys, and each of the first bound alike in the second.
unfoldable pub compare_maps : List (String × String) → List (String × String) → Bool
compare_maps m1 m2 = if nat_eq (length m1) (length m2) then all (bound_alike m2) m1 else false

abbrev pub new_secret : String → String → List (String × String) → List (String × String) → Secret
new_secret name namespace values labels = record {
  name = name;
  namespace = namespace;
  labels = labels;
  data_map = values;
}

unfoldable pub auth_git_from_secret : String → String → Prog (List (String × String))
unfolding ask ◌>>=◌
auth_git_from_secret namespace secret = do
  reply ← ask (fetch_secret namespace secret)
  token_secret ← from_result reply
  pure token_secret.data_map

abbrev pub stored : Secret → Result Secret → Prog (Unit {0})
stored copy (err x) = fail x
stored copy (ok updated) =
    if compare_maps copy.data_map updated.data_map
    then pure tt
    else fail (errorf ("the secret at " ^ copy.namespace ^ "/" ^ copy.name ^ " has been updated"))

abbrev pub create_if_missing : Secret → Err → Bool → Prog (Unit {0})
create_if_missing copy x true = ask (create_secret copy) >>= from_result
create_if_missing copy x false = fail x

abbrev pub create_or_update_copy : Secret → Result Secret → Prog (Unit {0})
create_or_update_copy copy (ok _) = ask (update_secret copy) >>= stored copy
create_or_update_copy copy (err x) = create_if_missing copy x (is_not_found x)

unfoldable pub copy_auth_git_secret : String → String → String → String → Prog (Unit {0})
unfolding ask ◌>>=◌
copy_auth_git_secret secret_namespace secret_name dest_namespace dest_secret_name = do
  source ← auth_git_from_secret secret_namespace secret_name
  existing ← ask (fetch_secret dest_namespace dest_secret_name)
  create_or_update_copy
      (new_secret dest_secret_name dest_namespace source
        (("argocd.argoproj.io/secret-type", "repository") ∷ []))
      existing

unfoldable pub same_link_spec : ConsoleLinkSpec → ConsoleLinkSpec → Bool
same_link_spec a b =
    a.section == b.section
    && (a.image_url == b.image_url
        && (a.href == b.href && (a.location == b.location && a.text == b.text)))

-- `icon` is the constant argocdIconBase64.
abbrev pub wanted_link : String → String → String → String → ConsoleLink
wanted_link icon argo_name argo_namespace app_cluster_domain = record {
  name = argo_name ^ "-gitops-link";
  spec = record {
    section = "OpenShift GitOps";
    image_url = icon;
    href = "https://" ^ argo_name ^ "-server-" ^ argo_namespace ^ "." ^ app_cluster_domain;
    location = "ApplicationMenu";
    text = "Argo CD VP";
  };
}

abbrev put_link : ConsoleLink → Result ConsoleLink → Prog (Unit {0})
put_link link (err x) = ask (create_console_link link) >>= from_result
put_link link (ok existing) =
    let send : Prog (Unit {0}) = (ask (update_console_link link) >>= from_result) in
    if same_link_spec existing.spec link.spec then pure tt else send

unfoldable pub create_or_update_console_link : String → String → String → String → Prog (Unit {0})
unfolding ask ◌>>=◌
create_or_update_console_link icon argo_name argo_namespace app_cluster_domain = do
  existing ← ask (get_console_link (argo_name ^ "-gitops-link"))
  put_link (wanted_link icon argo_name argo_namespace app_cluster_domain) existing

-- One of the groups has the name and the version.
abbrev pub offers : String → String → List ApiGroup → Bool
offers group version groups = any (λ g. g.name == group && contains g.versions version) groups

unfoldable pub check_api_version : String → String → Prog (Unit {0})
unfolding ask ◌>>=◌
check_api_version group version = do
  reply ← ask server_groups
  elim reply [
    | err x ↦ fail (errorf ("failed to get API groups: " ^ x.message))
    | ok groups ↦
        if offers group version groups
        then pure tt
        else fail (errorf ("API version " ^ group ^ "/" ^ version ^ " not available"))
  ]

unfoldable pub get_route : String → String → Prog String
unfolding ask ◌>>=◌
get_route route_name namespace = do
  reply ← ask (fetch_route route_name namespace)
  hosts ← from_result reply
  elim hosts [
    | [] ↦ fail (errorf ("no ingress found for route " ^ route_name))
    | host ∷ _ ↦ pure ("https://" ^ host)
  ]

unfoldable pub get_secret : String → String → Prog Secret
unfolding ask ◌>>=◌
get_secret name ns = do reply ← ask (fetch_secret ns name); from_result reply
