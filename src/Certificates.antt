-- ===== src/Certificates.antt =====
-- The certificates that git and the HTTP clients trust (internal/controller/utils.go,
-- writeConfigMapKeyToFile and getHTTPSTransport), and two helpers of the same file.
pub mod Bundle
use patterns_operator.Prelude.{
  ℕ, String, Bool, true, false, ◌&&◌, Option, none, some, List, [], ◌∷◌, ◌==◌, ◌^◌, contains,
  lookup, if◌then◌else◌,
}
use patterns_operator.Errors.{Err, Result, ok, err, errorf, wrap}
use patterns_operator.Bootstrap.{get_config_map_key}
use patterns_operator.Cluster.{
  Prog, pure, fail, ask, attempt, ◌>>=◌, ◌>>◌, get_config_map, open_file, write_string,
}

abbrev pub kube_root_ca_cm : String
kube_root_ca_cm = "kube-root-ca.crt"

abbrev pub trusted_bundle_cm : String
trusted_bundle_cm = "trusted-ca-bundle"

abbrev pub managed_namespace : String
managed_namespace = "openshift-config-managed"

abbrev written : String → Result (Unit {0}) → Prog (Unit {0})
written file_path (ok _) = pure tt
written file_path (err x) = fail (wrap ("error writing to file " ^ file_path ^ ": " ^ x.message) x)

abbrev opened : String → String → Result (Unit {0}) → Prog (Unit {0})
opened file_path value (err x) =
    fail (wrap ("error opening file " ^ file_path ^ ": " ^ x.message) x)
opened file_path value (ok _) = ask (write_string file_path (value ^ "\n")) >>= written file_path

-- `append_to_file` is whether what is in the file stays.
abbrev value_found : String → String → String → Bool → Option String → Prog (Unit {0})
value_found config_map_name key file_path append_to_file none =
    fail (errorf ("key " ^ key ^ " not found in ConfigMap " ^ config_map_name))
value_found config_map_name key file_path append_to_file (some value) =
    ask (open_file file_path append_to_file) >>= opened file_path value

abbrev config_map_found :
    String → String → String → String → Bool → Result (List (String × String)) → Prog (Unit {0})
config_map_found namespace config_map_name key file_path append_to_file (err x) = fail (
    wrap
      ("error getting ConfigMap " ^ config_map_name ^ " in namespace " ^ namespace ^ ": "
        ^ x.message)
      x)
config_map_found namespace config_map_name key file_path append_to_file (ok found) =
    value_found config_map_name key file_path append_to_file (lookup key found)

unfoldable pub write_config_map_key_to_file :
    String → String → String → String → Bool → Prog (Unit {0})
unfolding ask ◌>>=◌
write_config_map_key_to_file namespace config_map_name key file_path append_to_file =
    ask (get_config_map namespace config_map_name)
    >>= config_map_found namespace config_map_name key file_path append_to_file

abbrev pub git_custom_ca_file : String
git_custom_ca_file = "/tmp/vp-git-cas.pem"

-- The two calls of `getLocalGit`; their errors are only printed.
unfoldable pub write_ca_files : Prog (Unit {0})
unfolding attempt ◌>>=◌
write_ca_files =
    attempt (
      write_config_map_key_to_file managed_namespace kube_root_ca_cm "ca.crt" git_custom_ca_file
        false)
    >> (attempt (
          write_config_map_key_to_file managed_namespace trusted_bundle_cm "ca-bundle.crt"
            git_custom_ca_file true)
        >> pure tt)

-- The certificate authorities of a transport: those that Go takes by itself, the pool of the system,
-- or a pool of these PEM texts.
pub data RootCas : Type 0 where
  no_pool system_pool : RootCas
  pool_of : String → RootCas

-- The values that were read; empty where one could not be.
abbrev value_or_empty : Result String → String
value_or_empty (ok s) = s
value_or_empty (err x) = ""

abbrev after_bundle : String → String
after_bundle bundle = if bundle == "" then "" else "\n" ^ bundle ^ "\n"

-- `system` is the error of x509.SystemCertPool.
abbrev pub root_cas : Option Err → String → String → RootCas
root_cas system kube_root bundle =
    let fallback : RootCas = elim system [ none ↦ system_pool | some x ↦ no_pool ] in
    if kube_root == "" && bundle == "" then fallback else pool_of (kube_root ^ after_bundle bundle)

-- The authorities of the transport; without a client nothing is read.
unfoldable pub get_https_transport : Option Err → Bool → Prog RootCas
unfolding attempt ◌>>=◌
get_https_transport system false = pure (root_cas system "" "")
get_https_transport system true = do
  kube_root ← attempt (get_config_map_key managed_namespace kube_root_ca_cm "ca.crt")
  bundle ← attempt (get_config_map_key managed_namespace trusted_bundle_cm "ca-bundle.crt")
  pure (root_cas system (value_or_empty kube_root) (value_or_empty bundle))

-- `rand_read` fills a buffer of the given length; `encode` is base64.URLEncoding.
unfoldable pub generate_random_password :
    (List ℕ → String) → ℕ → (ℕ → Result (List ℕ)) → Result String
generate_random_password encode length rand_read = elim (rand_read length) [
  | ok bytes ↦ ok (encode bytes)
  | err x ↦ err x
]

-- The keys that have been logged, and the line that is printed.
unfoldable pub log_once : List String → String → List String × Option String
log_once log_keys message =
    if contains log_keys message then (log_keys, none) else (message ∷ log_keys, some message)
