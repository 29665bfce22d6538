-- ===== src/Argo/ValueFiles.antt =====
-- The Helm value files of the pattern's Application (internal/controller/argo.go).
use mathlib.Core.Option
use patterns_operator.Prelude.{
  String, Bool, Option, none, some, List, [], ◌∷◌, ◌++◌, ◌^◌, map, split, trim_prefix, starts_with,
  if◌then◌else◌,
}
use patterns_operator.Errors.{Result, ok, err, errorf}
use patterns_operator.Panics.{◌>>=◌}
use patterns_operator.Api.{Pattern, PatternParameter}
use patterns_operator.Files.{
  Value, text, sequence, table, Items, nil, cons, Table, end, Files, is_present, find_field,
  set_field,
}
use patterns_operator.Library.{Library}
use patterns_operator.Defaults.{Env, ActiveArgo}
use patterns_operator.Values.{merge_helm_values, get_cluster_group_value, helm_tpl}
use patterns_operator.Argo.{HelmParameter}
use patterns_operator.Argo.Parameters.{has_variants_folder_layout, new_application_parameters}

unfoldable pub new_application_value_files : Pattern → String → Bool → List String
new_application_value_files p prefix use_variants_dir =
    let variant = p.spec.cluster_group_name in
    let platform = p.status.cluster_platform in
    let version = p.status.cluster_version in
    let folder = prefix ^ "/variants/" ^ variant ^ "/values-" in
    let files =
      if use_variants_dir
      then (prefix ^ "/values-global.yaml")
        ∷ (folder ^ variant ^ ".yaml")
        ∷ (folder ^ platform ^ ".yaml")
        ∷ (folder ^ platform ^ "-" ^ version ^ ".yaml")
        ∷ (folder ^ platform ^ "-" ^ variant ^ ".yaml")
        ∷ (folder ^ version ^ "-" ^ variant ^ ".yaml")
        ∷ (folder ^ p.status.cluster_name ^ ".yaml")
        ∷ []
      else (prefix ^ "/values-global.yaml")
        ∷ (prefix ^ "/values-" ^ variant ^ ".yaml")
        ∷ (prefix ^ "/values-" ^ platform ^ ".yaml")
        ∷ (prefix ^ "/values-" ^ platform ^ "-" ^ version ^ ".yaml")
        ∷ (prefix ^ "/values-" ^ platform ^ "-" ^ variant ^ ".yaml")
        ∷ (prefix ^ "/values-" ^ version ^ "-" ^ variant ^ ".yaml")
        ∷ (prefix ^ "/values-" ^ p.status.cluster_name ^ ".yaml")
        ∷ [] in
    files ++ map (λ extra. prefix ^ "/" ^ trim_prefix extra b'/') p.spec.extra_value_files

-- The loop of `newApplicationValues`.
unfoldable pub value_lines : List PatternParameter → String
value_lines [] = ""
value_lines (x ∷ xs) = "  " ^ x.name ^ ": " ^ x.value ^ "\n" ^ value_lines xs

unfoldable pub new_application_values : Pattern → String
unfolding value_lines
new_application_values p = "extraParametersNested:\n" ^ value_lines p.spec.extra_parameters

-- One parameter of `convertArgoHelmParametersToMap`, at its dotted name; `none` is the panic of the
-- assertion that the value of a shorter name is a map.
unfoldable pub set_path : List String → String → Table → Option Table
set_path [] v m = some m
set_path (key ∷ []) v m = some (set_field key (text v) m)
set_path (key ∷ next ∷ keys) v m =
    let inside =
      λ (t : Table). Option.map (λ s. set_field key (table s) m) (set_path (next ∷ keys) v t) in
    elim (find_field key m) [
      | none ↦ inside end
      | some w ↦ elim w [ table t ↦ inside t | _ ↦ none ]
    ]

unfoldable pub convert_argo_helm_parameters_to_map : List HelmParameter → Table → Option Table
unfolding set_path
convert_argo_helm_parameters_to_map [] result = some result
convert_argo_helm_parameters_to_map (q ∷ qs) result = do
  next ← set_path (split q.name b'.') q.value result
  convert_argo_helm_parameters_to_map qs next

module _ (lib : Library) (e : Env) (active : ActiveArgo) (files : Files) where
  abbrev placed : String → Result String → String
  placed prefix (err _) = ""
  placed prefix (ok s) = if starts_with s "/" then prefix ^ s else prefix ^ "/" ^ s

  -- The loop over the listed files. A template that fails leaves the empty text in its place.
  unfoldable pub render_items :
      Pattern → String → List String → Items → Option (Result (List String))
  render_items p prefix value_files nil = some (ok [])
  render_items p prefix value_files (cons v vs) =
      let later = render_items p prefix value_files vs in
      let here = λ (s : String). (do
        parameters ← new_application_parameters e active files p
        values ← convert_argo_helm_parameters_to_map parameters end
        rest ← later
        some (elim rest [
          | err x ↦ err x
          | ok fs ↦ ok (placed prefix (helm_tpl lib files s value_files values) ∷ fs)
        ])) in
      elim v [ text s ↦ here s | _ ↦ some (err (errorf "type assertion failed: Not a string")) ]

  abbrev shared_items :
      Pattern → String → List String → Option Value → Option (Result (List String))
  shared_items p prefix value_files none = some (ok [])
  shared_items p prefix value_files (some (sequence xs)) = render_items p prefix value_files xs
  shared_items p prefix value_files (some _) =
      some (err (errorf "could not make a list out of sharedValueFiles"))

  -- The outer `none` is a panic.
  unfoldable pub get_shared_value_files : Pattern → String → Option (Result (List String))
  unfolding render_items
  get_shared_value_files p prefix =
      let git_dir = p.status.local_checkout_path in
      let value_files =
        new_application_value_files p git_dir (has_variants_folder_layout files git_dir) in
      let found : Option (Result (List String)) = elim (merge_helm_values lib files value_files) [
        | err x ↦ some (err (errorf ("could not fetch value files: " ^ x.message)))
        | ok values ↦ (do
          shared ← get_cluster_group_value "sharedValueFiles" values
          shared_items p prefix value_files shared)
      ] in
      if is_present (files.stat git_dir)
      then found
      else some (err (errorf (git_dir ^ " path does not exist")))
