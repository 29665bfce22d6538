-- ===== src/ArgoCd/Policies.antt =====
-- Whom the policy of the Argo CD instance makes an administrator (internal/controller/argo.go,
-- newArgoCD).
use patterns_operator.Prelude.{
  String, true, false, some, List, [], ◌∷◌, ◌++◌, map, ◌≡◌, ◌⊎◌, ◌==◌, split, trim_space,
  if◌then◌else◌,
}
use patterns_operator.Config.{Config, get_string_value}
use patterns_operator.ArgoCd.{ArgoLibrary}
use patterns_operator.ArgoCd.Rbac.{argo_rbac, given_rbac, is_empty_rbac, fixed_policies, grant}

-- The names between the commas that are not blank, without the spaces around them.
abbrev pub named : List String → List String
named [] = []
named (s ∷ rest) =
    let others = named rest in if trim_space s == "" then others else trim_space s ∷ others

module _ (lib : ArgoLibrary) (config : Config) where
  -- The additional administrators of the configuration.
  abbrev pub admins : List String
  admins = named (split (get_string_value config "gitops.additionalArgoAdmins") b',')

  -- The administrator's own RBAC is taken as it is; without one, the lines of the policy are the three
  -- fixed ones and one for each additional administrator.
  abbrev pub Administers : Type 0
  Administers =
      ((is_empty_rbac (given_rbac lib config) ≡ false)
        × (argo_rbac lib config ≡ given_rbac lib config))
      ⊎ ((is_empty_rbac (given_rbac lib config) ≡ true)
          × ((policy : String) × ((argo_rbac lib config).policy ≡ some policy)
              × (split policy b'\n' ≡ fixed_policies ++ map grant admins)))
