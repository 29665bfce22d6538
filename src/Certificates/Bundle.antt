-- ===== src/Certificates/Bundle.antt =====
-- What the file of certificates holds (internal/controller/pattern_controller.go, getLocalGit, and
-- utils.go, writeConfigMapKeyToFile).
use patterns_operator.Prelude.{
  String, Bool, true, false, Option, none, some, List, ◌≡◌, refl, ap, ◌∙◌, inl, inr, ◌^◌, lookup,
  Option-cases,
}
use patterns_operator.Errors.{Result, ok, err, errorf, wrap}
use patterns_operator.Cluster.{Request, pure, ask, attempt, ◌>>=◌}
use patterns_operator.Cluster.Runs.{Environment, returned, run, run->>=}
use patterns_operator.Certificates.{
  write_config_map_key_to_file, write_ca_files, git_custom_ca_file, managed_namespace,
  kube_root_ca_cm, trusted_bundle_cm,
}

-- A file system in which opening and writing succeed: a file is emptied unless it is opened for
-- appending, and a text is written at its end; reads of the API server leave it alone.
pub record KeepsFiles {W : Type 0} (answer : Environment W) (content : W → String → String)
    : Type 0 where
  pub opens :
      (path : String) (append_to_file : Bool) (w : W)
      → ((answer (Request.open_file path append_to_file) w).0 ≡ ok tt)
        × (content (answer (Request.open_file path append_to_file) w).1 path
            ≡ elim append_to_file [ true ↦ content w path | false ↦ "" ])
  pub writes :
      (path text : String) (w : W)
      → ((answer (Request.write_string path text) w).0 ≡ ok tt)
        × (content (answer (Request.write_string path text) w).1 path ≡ content w path ^ text)
  pub reads :
      (namespace name path : String) (w : W)
      → content (answer (Request.get_config_map namespace name) w).1 path ≡ content w path

-- The value of a key of a ConfigMap, if both are there.
abbrev pub value_of : String → Result (List (String × String)) → Option String
value_of key (ok found) = lookup key found
value_of key (err x) = none

-- A value that is there replaces the file or is added to it, with a line end; else the file stays.
abbrev pub file_after : Bool → String → Option String → String
file_after append_to_file before none = before
file_after true before (some value) = before ^ (value ^ "\n")
file_after false before (some value) = "" ^ (value ^ "\n")

-- What the two writes leave in the file, by what can be read.
abbrev pub bundle_after : String → Option String → Option String → String
bundle_after before kube_root bundle = file_after true (file_after false before kube_root) bundle

module _ {W : Type 0} (answer : Environment W) (content : W → String → String)
    (keeps : KeepsFiles answer content) where
  module _ (namespace name key path : String) (append_to_file : Bool) where
    -- The write returns or fails; its error is handed on, and the file is as said.
    abbrev FileAfter : Result (List (String × String)) → W → Type 0
    FileAfter found w =
        ((r : Result (Unit {0})) × ((run answer
              (attempt (write_config_map_key_to_file namespace name key path append_to_file)) w).1
            ≡ returned r))
        × (content
              (run answer
                (attempt (write_config_map_key_to_file namespace name key path append_to_file)) w).2
              path
            ≡ file_after append_to_file (content w path) (value_of key found))

    present-FileAfter :
        (m : List (String × String)) (value : String) (w : W)
        → (answer (Request.get_config_map namespace name) w).0 ≡ ok m
        → lookup key m ≡ some value
        → FileAfter (ok m) w
    unfolding write_config_map_key_to_file run attempt ask ◌>>=◌
    present-FileAfter m value w h v =
        let w1 = (answer (Request.get_config_map namespace name) w).1 in
        let w2 = (answer (Request.open_file path append_to_file) w1).1 in
        let kept = keeps.reads namespace name path w in
        let (open_ok, opened) = keeps.opens path append_to_file w1 in
        let (write_ok, written) = keeps.writes path (value ^ "\n") w2 in
        (
          (ok tt, rw (h, run, v, open_ok, write_ok) refl),
          rw (h, run, v, open_ok, write_ok)
              (written
                ∙ ap (λ (t : String). t ^ (value ^ "\n")) opened
                ∙ start append_to_file kept),
        )
      where
        start :
            (b : Bool)
            → content (answer (Request.get_config_map namespace name) w).1 path ≡ content w path
            → (let before : String = elim b [
              | true ↦ content (answer (Request.get_config_map namespace name) w).1 path
              | false ↦ ""
            ] in
                before ^ (value ^ "\n"))
              ≡ file_after b (content w path) (some value)
        start true e = ap (λ (t : String). t ^ (value ^ "\n")) e
        start false e = refl

    write-FileAfter :
        (found : Result (List (String × String))) (w : W)
        → (answer (Request.get_config_map namespace name) w).0 ≡ found
        → FileAfter found w
    unfolding write_config_map_key_to_file run attempt ask ◌>>=◌
    write-FileAfter (err x) w h = (
      (
        err (
            wrap
              ("error getting ConfigMap " ^ name ^ " in namespace " ^ namespace ^ ": " ^ x.message)
              x),
        rw (h, run) refl,
      ),
      rw (h, run) (keeps.reads namespace name path w),
    )
    write-FileAfter (ok m) w h = elim (Option-cases (lookup key m)) [
      | inl v ↦ (
        (err (errorf ("key " ^ key ^ " not found in ConfigMap " ^ name)), rw (h, run, v) refl),
        rw (h, run, v) (keeps.reads namespace name path w),
      )
      | inr (value, v) ↦ present-FileAfter m value w h v
    ]

  -- On a file system in which opening and writing succeed, the two writes return without an
  -- error, and the file holds the cluster's certificates and after them the trusted bundle, each
  -- with a line end and left out if it cannot be read; what was in the file before stays at its
  -- front exactly when the cluster's certificates cannot be read.
  pub write_ca_files-content :
      (kube_root bundle : Result (List (String × String))) (w : W)
      → ((v : W)
          → (answer (Request.get_config_map managed_namespace kube_root_ca_cm) v).0 ≡ kube_root)
      → ((v : W)
          → (answer (Request.get_config_map managed_namespace trusted_bundle_cm) v).0 ≡ bundle)
      → ((run answer write_ca_files w).1 ≡ returned tt)
        × (content (run answer write_ca_files w).2 git_custom_ca_file
            ≡ bundle_after
                (content w git_custom_ca_file)
                (value_of "ca.crt" kube_root)
                (value_of "ca-bundle.crt" bundle))
  unfolding write_ca_files
  write_ca_files-content kube_root bundle w hk hb =
      let first = attempt (
        write_config_map_key_to_file managed_namespace kube_root_ca_cm "ca.crt" git_custom_ca_file
          false) in
      let second = attempt (
        write_config_map_key_to_file managed_namespace trusted_bundle_cm "ca-bundle.crt"
          git_custom_ca_file true) in
      let w1 = (run answer first w).2 in
      let ((r, first_ends), first_leaves) =
        write-FileAfter managed_namespace kube_root_ca_cm "ca.crt" git_custom_ca_file false
          kube_root w (hk w) in
      let ((q, second_ends), second_leaves) =
        write-FileAfter managed_namespace trusted_bundle_cm "ca-bundle.crt" git_custom_ca_file true
          bundle w1 (hb w1) in
      let rest2 = λ (u : Result (Unit {0})). pure tt in
      let rest1 = λ (u : Result (Unit {0})). second >>= rest2 in
      let (sent1, ends1, state1) = run->>= answer first rest1 r w first_ends in
      let (sent2, ends2, state2) = run->>= answer second rest2 q w1 second_ends in
      (
        unfold run in ends1 ∙ ends2,
        unfold run in
            (ap (λ (v : W). content v git_custom_ca_file) (state1 ∙ state2)
              ∙ second_leaves
              ∙ ap (λ (t : String). file_after true t (value_of "ca-bundle.crt" bundle))
                  first_leaves),
      )
