-- ===== src/ArgoCd/Overlay.antt =====
-- The administrator's own fields of the Argo CD instance (internal/controller/argo.go,
-- applyCustomArgoOverlay and applyCustomArgoOverlayToSpec), and the fields that are kept.
use patterns_operator.Prelude.{String, Option, none, some, ◌^◌, if◌then◌else◌}
use patterns_operator.Errors.{Err, Result, ok, err, errorf, wrap}
use patterns_operator.Files.{
  Value, text, scalar, sequence, table, Table, end, field, has_field, set_field,
}
use patterns_operator.ArgoCd.{ArgoCd, ArgoCdSpec, ArgoObject, ArgoLibrary}

-- unstructured.NestedMap: an error if the value is no map.
abbrev pub nested_map : Option Value → Result (Option Table)
nested_map none = ok none
nested_map (some (table t)) = ok (some t)
nested_map (some (text s)) = err (errorf "accessor error: not a map")
nested_map (some (scalar s)) = err (errorf "accessor error: not a map")
nested_map (some (sequence xs)) = err (errorf "accessor error: not a map")

-- The map, with its two other results ignored: nil is the empty map for what reads it.
abbrev pub map_or_nil : Result (Option Table) → Table
map_or_nil (ok (some t)) = t
map_or_nil (ok none) = end
map_or_nil (err x) = end

module _ (lib : ArgoLibrary) where
  abbrev merged_spec : ArgoObject → Result Table → Result ArgoObject
  merged_spec o (err x) = err (wrap ("failed to merge custom ArgoCD overlay: " ^ x.message) x)
  merged_spec o (ok spec) = ok (record o { spec = some (table spec) })

  abbrev overlay_spec : ArgoObject → Table → Result (Option Table) → Result ArgoObject
  overlay_spec o overlay (err x) = err (wrap ("failed to get spec from ArgoCD: " ^ x.message) x)
  overlay_spec o overlay (ok none) = merged_spec o (lib.merge_tables end overlay)
  overlay_spec o overlay (ok (some spec)) = merged_spec o (lib.merge_tables spec overlay)

  abbrev with_overlay : ArgoObject → Result Table → Result ArgoObject
  with_overlay o (err x) = err (wrap ("failed to parse custom ArgoCD YAML: " ^ x.message) x)
  with_overlay o (ok overlay) = overlay_spec o overlay (nested_map o.spec)

  unfoldable pub apply_custom_argo_overlay : ArgoObject → String → Result ArgoObject
  apply_custom_argo_overlay o custom_yaml = with_overlay o (lib.parse_table custom_yaml)

  abbrev overlaid_spec : ArgoCd → ArgoCdSpec × Option Err → ArgoCd × Option Err
  overlaid_spec argo (spec, none) = (record argo { spec = spec }, none)
  overlaid_spec argo (spec, some x) = (
    record argo { spec = spec },
    some (wrap ("failed to merge custom ArgoCD overlay: " ^ x.message) x),
  )

  abbrev with_parsed_overlay : ArgoCd → Result ArgoCdSpec → ArgoCd × Option Err
  with_parsed_overlay argo (err x) =
      (argo, some (wrap ("failed to parse custom ArgoCD YAML into spec: " ^ x.message) x))
  with_parsed_overlay argo (ok overlay) = overlaid_spec argo (lib.merge_specs argo.spec overlay)

  -- The instance afterwards, and the error.
  unfoldable pub apply_custom_argo_overlay_to_spec : ArgoCd → String → ArgoCd × Option Err
  apply_custom_argo_overlay_to_spec argo custom_yaml =
      with_parsed_overlay argo (lib.parse_spec custom_yaml)

-- unstructured.SetNestedField for one key of the spec; its error is ignored, and it makes the spec if
-- there is none.
abbrev pub set_spec_field : String → Value → Option Value → Option Value
set_spec_field k v none = some (table (field k v end))
set_spec_field k v (some (table t)) = some (table (set_field k v t))
set_spec_field k v (some (text s)) = some (text s)
set_spec_field k v (some (scalar s)) = some (scalar s)
set_spec_field k v (some (sequence xs)) = some (sequence xs)

-- The loop over the fields of the old spec: those that the new spec lacks are set in it.
unfoldable pub keep_unknown : Table → Table → Option Value → Option Value
keep_unknown end new_spec spec = spec
keep_unknown (field k v old) new_spec spec =
    keep_unknown old new_spec (if has_field k new_spec then spec else set_spec_field k v spec)
