-- ===== src/ArgoCd/Update.antt =====
-- How the Argo CD instance is created and kept up to date (internal/controller/argo.go,
-- createOrUpdateArgoCD and what it calls).
use patterns_operator.Prelude.{String, Bool, true, false, ◌==◌, ◌^◌, if◌then◌else◌}
use patterns_operator.Errors.{Result, ok, err, errorf}
use patterns_operator.Config.{Config, get_string_value}
use patterns_operator.Defaults.{ActiveArgo}
use patterns_operator.Bootstrap.{check_api_version}
use patterns_operator.Cluster.{
  Prog, pure, fail, ask, from_result, attempt, ◌>>=◌, get_argo_cd as fetch_argo_cd, create_argo_cd,
  update_argo_cd,
}
use patterns_operator.ArgoCd.{ArgoCd, ArgoObject, ArgoLibrary}
use patterns_operator.ArgoCd.Instance.{new_argo_cd}
use patterns_operator.ArgoCd.Overlay.{
  nested_map, map_or_nil, apply_custom_argo_overlay, apply_custom_argo_overlay_to_spec,
  keep_unknown,
}

abbrev is_ok : {A : Type 0} → Result A → Bool
is_ok (ok _) = true
is_ok (err _) = false

-- Every error counts as the instance not being there.
unfoldable pub have_argo : String → String → Prog Bool
unfolding ask ◌>>=◌
have_argo name namespace = do reply ← ask (fetch_argo_cd name namespace); pure (is_ok reply)

module _ (lib : ArgoLibrary) where
  -- Both arguments are there wherever it is called.
  unfoldable pub compare_argo_cd : ArgoCd → ArgoCd → Bool
  compare_argo_cd goal actual = lib.semantic_equal goal.spec actual.spec

  abbrev typed : ArgoObject → Result ArgoCd → Prog (ArgoCd × ArgoObject)
  typed o (ok argo) = pure (argo, o)
  typed o (err x) = fail x

  unfoldable pub get_argo_cd : String → String → Prog (ArgoCd × ArgoObject)
  unfolding ask ◌>>=◌
  get_argo_cd name namespace = do
    reply ← ask (fetch_argo_cd name namespace)
    o ← from_result reply
    typed o (lib.from_unstructured o)

  -- The goal, with the overlay if there is one; an error of the overlay is only logged.
  abbrev pub goal_argo_cd : String → String → Config → ArgoCd
  goal_argo_cd name namespace config =
      let argo = new_argo_cd lib config name namespace in
      let custom_yaml = get_string_value config "gitops.customArgoYaml" in
      if custom_yaml == "" then argo else (apply_custom_argo_overlay_to_spec lib argo custom_yaml).0

  abbrev pub ok_or : ArgoObject → Result ArgoObject → ArgoObject
  ok_or o (ok changed) = changed
  ok_or o (err x) = o

  -- The object for the goal; the overlay once more, for the fields that the Go types do not have.
  abbrev pub overlaid_object : Config → ArgoObject → ArgoObject
  overlaid_object config o =
      let custom_yaml = get_string_value config "gitops.customArgoYaml" in
      if custom_yaml == "" then o else ok_or o (apply_custom_argo_overlay lib o custom_yaml)

  -- The new object with the fields of the old spec that it lacks and the version of the old object.
  abbrev pub kept_object : ArgoObject → ArgoObject → ArgoObject
  kept_object new old = record new {
    spec =
        keep_unknown (map_or_nil (nested_map old.spec)) (map_or_nil (nested_map new.spec)) new.spec;
    resource_version = old.resource_version;
  }

  abbrev update_if_changed :
      String → String → ArgoCd → ArgoObject → Result (ArgoCd × ArgoObject) → Prog (Unit {0})
  update_if_changed name namespace argo new (err x) =
      fail (errorf ("failed to get existing ArgoCD " ^ namespace ^ "/" ^ name ^ ": " ^ x.message))
  update_if_changed name namespace argo new (ok (old_argo, old)) =
      if compare_argo_cd argo old_argo
      then pure tt
      else ask (update_argo_cd namespace (kept_object new old)) >>= from_result

  abbrev put_argo_cd : String → String → ArgoCd → ArgoObject → Bool → Prog (Unit {0})
  put_argo_cd name namespace argo new true =
      attempt (get_argo_cd name namespace) >>= update_if_changed name namespace argo new
  put_argo_cd name namespace argo new false = ask (create_argo_cd namespace new) >>= from_result

  abbrev with_object : String → String → Config → ArgoCd → Result ArgoObject → Prog (Unit {0})
  with_object name namespace config argo (err x) =
      fail (errorf ("failed to convert ArgoCD to unstructured: " ^ x.message))
  with_object name namespace config argo (ok o) =
      have_argo name namespace >>= put_argo_cd name namespace argo (overlaid_object config o)

  abbrev with_api : String → String → Config → ArgoCd → Result (Unit {0}) → Prog (Unit {0})
  with_api name namespace config argo (err x) =
      fail (errorf ("cannot find a sufficiently recent argocd crd version: " ^ x.message))
  with_api name namespace config argo (ok _) =
      with_object name namespace config argo (lib.to_unstructured argo)

  unfoldable pub create_or_update_argo_cd : ActiveArgo → Config → Prog (Unit {0})
  create_or_update_argo_cd active config =
      attempt (check_api_version "argoproj.io" "v1beta1")
      >>= with_api active.name active.namespace config
          (goal_argo_cd active.name active.namespace config)
