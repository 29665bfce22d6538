-- ===== src/Values.antt =====
-- internal/controller/values.go: merged Helm values and templates.
pub mod Precedence
use patterns_operator.Prelude.{
  ℕ, suc, String, Bool, Option, none, some, List, [], ◌∷◌, lookup, ◌^◌, clean, any, if◌then◌else◌,
}
use patterns_operator.Errors.{Result, ok, err, is_not_found, errorf, wrap}
use patterns_operator.Files.{
  Value, text, scalar, sequence, table, Table, end, field, Files, is_missing, find_field, has_field,
}
use patterns_operator.Library.{Library}

module _ (lib : Library) (files : Files) where
  -- The loop of `mergeHelmValues`. What is read later takes precedence.
  unfoldable pub merge_from : Table → List String → Result Table
  merge_from merged [] = ok merged
  merge_from merged (name ∷ names) = elim (files.read_values_file name) [
    | ok values ↦ merge_from (lib.coalesce_tables values merged) names
    | err e ↦ let skip = merge_from merged names in if is_not_found e then skip else err e
  ]

  unfoldable pub merge_helm_values : List String → Result Table
  unfolding merge_from
  merge_helm_values names = merge_from end names

  -- The loop of `helmTpl` over the value files.
  unfoldable pub template_values : Table → List String → Result Table
  template_values merged [] = ok merged
  template_values merged (name ∷ names) =
      let fname = clean name in
      let skip = template_values merged names in
      let read : Result Table = elim (files.read_values_file fname) [
        | ok values ↦ template_values (lib.coalesce_tables values merged) names
        | err e ↦ err (wrap ("error reading values file " ^ name ^ ": " ^ e.message) e)
      ] in
      if is_missing (files.stat fname) then skip else read

  abbrev rendered_text : Result (List (String × String)) → Result String
  rendered_text (err e) = err (wrap ("error rendering template: " ^ e.message) e)
  rendered_text (ok charts) = elim (lookup "fake/templates/template.tpl" charts) [
    | none ↦ err (errorf "rendered template not found")
    | some s ↦ ok s
  ]

  unfoldable pub helm_tpl : String → List String → Table → Result String
  unfolding template_values
  helm_tpl template value_files values =
      elim (template_values (lib.coalesce_tables values end) value_files) [
        | err e ↦ err e
        | ok merged ↦ elim (lib.to_render_values (lib.coalesce_tables merged values)) [
          | err e ↦ err (wrap ("error preparing render values: " ^ e.message) e)
          | ok prepared ↦ rendered_text (lib.render template prepared)
        ]
      ]

-- The outer `none` is the panic of the type assertion on `clusterGroup`.
unfoldable pub get_cluster_group_value : String → Table → Option (Option Value)
get_cluster_group_value key values = elim (find_field "clusterGroup" values) [
  | none ↦ some none
  | some v ↦ elim v [ table group ↦ some (find_field key group) | _ ↦ none ]
]

abbrev pub application_set_keys : List String
application_set_keys =
    "generators" ∷ "generatorFile" ∷ "useGeneratorValues" ∷ "destinationServer"
    ∷ "destinationNamespace" ∷ []

unfoldable pub is_application_set : Table → Bool
is_application_set sub = any (λ key. has_field key sub) application_set_keys

abbrev count_entry : Value → ℕ × ℕ → ℕ × ℕ
count_entry (table sub) (apps, sets) =
    if is_application_set sub then (apps, suc sets) else (suc apps, sets)
count_entry (text s) n = n
count_entry (scalar s) n = n
count_entry (sequence xs) n = n

-- The loop of `countApplicationsAndSets`; the order of a map does not matter to the two counts.
unfoldable pub count_entries : Table → ℕ × ℕ
count_entries end = (0, 0)
count_entries (field k v rest) = count_entry v (count_entries rest)

unfoldable pub count_applications_and_sets : Value → ℕ × ℕ
unfolding count_entries
count_applications_and_sets (table m) = count_entries m
count_applications_and_sets (text s) = (0, 0)
count_applications_and_sets (scalar s) = (0, 0)
count_applications_and_sets (sequence xs) = (0, 0)
