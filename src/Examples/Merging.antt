-- ===== src/Examples/Merging.antt =====
-- The theorem about the merge of value files at concrete files.
use patterns_operator.Prelude.{
  String, some, none, [], ◌∷◌, ◌≡◌, refl, ◌==◌, Bool-cases, inl, inr, if◌then◌else◌,
}
use patterns_operator.Errors.{Err, Class, ok, err}
use patterns_operator.Files.{Value, text, Table, end, field, Files, find_field}
use patterns_operator.Library.{Library}
use patterns_operator.Values.{merge_helm_values}
use patterns_operator.Values.Precedence.{Coalesces, merge_helm_values-last_wins}
use patterns_operator.Examples.{a_library, some_files}

-- The fields of the destination come first, so that they hide those of the source.
overlaid : Table → Table → Table
overlaid end src = src
overlaid (field k v rest) src = field k v (overlaid rest src)

abbrev an_overlaying_library : Library
an_overlaying_library = record a_library { coalesce_tables = overlaid }

overlaid-keeps :
    (k s : String) (dst src : Table)
    → find_field k dst ≡ some (text s)
    → find_field k (overlaid dst src) ≡ some (text s)
unfolding find_field overlaid
overlaid-keeps k s end src h = absurd (cc)
overlaid-keeps k s (field j v rest) src h = elim (Bool-cases (j == k)) [
  | inl b ↦ rw b (rw b at h)
  | inr b ↦ rw b (overlaid-keeps k s rest src (rw b at h))
]

overlaid-adds :
    (k s : String) (dst src : Table)
    → find_field k dst ≡ none
    → find_field k src ≡ some (text s)
    → find_field k (overlaid dst src) ≡ some (text s)
unfolding find_field overlaid
overlaid-adds k s end src h g = g
overlaid-adds k s (field j v rest) src h g = elim (Bool-cases (j == k)) [
  | inl b ↦ absurd (some-none v (rw b at h))
  | inr b ↦ rw b (overlaid-adds k s rest src (rw b at h) g)
]
  where
    some-none : (v : Value) → some v ≡ none → ⊥
    some-none v p = absurd (cc)

overlaid-Coalesces : Coalesces an_overlaying_library
overlaid-Coalesces = record { keeps = overlaid-keeps; adds = overlaid-adds }

abbrev missing_error : Err
missing_error = record { class = Class.not_found; message = "not found" }

-- One file binds `replicas` to 1 and another to 3; there is no other file.
abbrev replica_files : Files
replica_files = record some_files {
  read_values_file = λ name.
      if name == "values-global.yaml"
      then ok (field "replicas" (text "1") end)
      else if name == "values-hub.yaml"
      then ok (field "replicas" (text "3") end)
      else err missing_error;
}

three_found : find_field "replicas" (field "replicas" (text "3") end) ≡ some (text "3")
unfolding find_field
three_found = refl

merge_helm_values-last_wins_example :
    (m : Table) × (merge_helm_values an_overlaying_library replica_files
        ("values-global.yaml" ∷ "values-hub.yaml" ∷ "values-4.18.yaml" ∷ [])
      ≡ ok m)
    × (find_field "replicas" m ≡ some (text "3"))
merge_helm_values-last_wins_example =
    merge_helm_values-last_wins an_overlaying_library replica_files overlaid-Coalesces "replicas"
      "3" "values-hub.yaml" (field "replicas" (text "3") end) ("values-4.18.yaml" ∷ [])
      ("values-global.yaml" ∷ []) (inl (field "replicas" (text "1") end, refl), tt) refl three_found
      (inr (missing_error, refl, refl), tt)
