-- ===== src/ArgoCd/Rbac.antt =====
-- Who administers the Argo CD instance (internal/controller/argo.go, newArgoCD).
use patterns_operator.Prelude.{
  String, Bool, true, false, ◌&&◌, Option, none, some, List, [], ◌∷◌, ◌++◌, ◌==◌, ◌^◌, split, join,
  trim_space, if◌then◌else◌,
}
use patterns_operator.Errors.{Result, ok, err}
use patterns_operator.Config.{Config, get_string_value}
use patterns_operator.ArgoCd.{RbacSpec, ArgoLibrary}

abbrev pub empty_rbac : RbacSpec
empty_rbac = record {
  default_policy = none;
  policy = none;
  scopes = none;
  policy_matcher_mode = none;
}

abbrev is_none : Option String → Bool
is_none none = true
is_none (some s) = false

-- `argoRBAC == (argooperator.ArgoCDRBACSpec{})`
abbrev pub is_empty_rbac : RbacSpec → Bool
is_empty_rbac r =
    is_none r.default_policy
    && (is_none r.policy && (is_none r.scopes && is_none r.policy_matcher_mode))

abbrev pub fixed_policies : List String
fixed_policies =
    "g, system:cluster-admins, role:admin" ∷ "g, cluster-admins, role:admin"
    ∷ "g, admin, role:admin" ∷ []

abbrev pub grant : String → String
grant admin = "g, " ^ admin ^ ", role:admin"

-- The loop over the additional admins.
unfoldable pub append_admins : List String → List String → List String
append_admins policies [] = policies
append_admins policies (argo_admin ∷ rest) =
    let admin = trim_space argo_admin in
    append_admins (if admin == "" then policies else policies ++ grant admin ∷ []) rest

unfoldable pub default_rbac : Config → RbacSpec
default_rbac config =
    let admins = split (get_string_value config "gitops.additionalArgoAdmins") b',' in
    record {
      default_policy = some "role:readonly";
      policy = some (join (append_admins fixed_policies admins) "\n");
      scopes = some "[groups,email]";
      policy_matcher_mode = none;
    }

abbrev parsed_rbac : Result RbacSpec → RbacSpec
parsed_rbac (ok r) = r
parsed_rbac (err x) = empty_rbac

-- The administrator's own RBAC; one that cannot be parsed is as if none were given.
abbrev pub given_rbac : ArgoLibrary → Config → RbacSpec
given_rbac lib config =
    let yaml = get_string_value config "gitops.argoRBAC" in
    if yaml == "" then empty_rbac else parsed_rbac (lib.parse_rbac yaml)

unfoldable pub argo_rbac : ArgoLibrary → Config → RbacSpec
argo_rbac lib config =
    let given = given_rbac lib config in if is_empty_rbac given then default_rbac config else given
