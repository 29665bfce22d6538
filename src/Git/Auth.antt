-- ===== src/Git/Auth.antt =====
-- Git authentication and the options of a fetch and a clone (internal/controller/checkout.go).
use patterns_operator.Prelude.{
  ℕ, String, Bool, true, false, ◌&&◌, Option, none, some, List, ◌^◌, has_key, lookup, trim_suffix,
  if◌then◌else◌,
}
use patterns_operator.Errors.{Result, ok, err, errorf}
use patterns_operator.GitUrl.{get_user_from_url}

abbrev pub SecretMap : Type 0
SecretMap = List (String × String)

pub data GitAuthenticationBackend : Type 0 where
  git_auth_none git_auth_password git_auth_ssh git_auth_github_app : GitAuthenticationBackend

unfoldable pub detect_git_auth_type : SecretMap → GitAuthenticationBackend
detect_git_auth_type secret =
    if has_key "sshPrivateKey" secret
    then git_auth_ssh
    else if has_key "username" secret && has_key "password" secret
    then git_auth_password
    else if has_key "githubAppID" secret
        && (has_key "githubAppInstallationID" secret && has_key "githubAppPrivateKey" secret)
    then git_auth_github_app
    else git_auth_none

-- `none` is the nil slice.
abbrev pub get_field : SecretMap → String → Option String
get_field secret field = lookup field secret

abbrev field_text : Option String → String
field_text none = ""
field_text (some v) = v

pub data Auth : Type 0 where
  no_auth : Auth
  basic_auth : String → String → Auth
  public_keys : String → String → Auth

-- Which tags are fetched.
pub data TagMode : Type 0 where
  tag_following all_tags no_tags : TagMode

pub record FetchOptions : Type 0 where
  pub remote_name : String
  pub force : Bool
  pub insecure_skip_tls : Bool
  pub tags : TagMode
  pub auth : Auth

pub record CloneOptions : Type 0 where
  pub url : String
  pub remote_name : String
  pub depth : ℕ
  pub single_branch : Bool
  pub tags : TagMode
  pub auth : Auth

abbrev pub get_http_auth : SecretMap → Auth
get_http_auth secret =
    basic_auth (field_text (get_field secret "username")) (field_text (get_field secret "password"))

-- `parse_int` is strconv.ParseInt with base 10 and 64 bits; its number is kept as its text.
module _ (parse_int : String → Result String) where
  unfoldable pub int_or_zero : SecretMap → String → Result String
  int_or_zero secret key = elim (lookup key secret) [ none ↦ ok "0" | some v ↦ parse_int v ]

-- Libraries: ssh.NewPublicKeys on the user and the key, strconv.ParseInt, ghinstallation.New, and the
-- token of an installation from its identifiers, its key and the base URL.
pub record AuthLibrary : Type 0 where
  pub new_public_keys : String → String → Result Auth
  pub parse_int : String → Result String
  pub new_installation : String → String → Option String → Result (Unit {0})
  pub installation_token : String → String → Option String → String → Result String

abbrev pub with_fetch_auth : FetchOptions → Result Auth → Result FetchOptions
with_fetch_auth options (err x) = err x
with_fetch_auth options (ok a) = ok (record options { auth = a })

abbrev pub with_clone_auth : CloneOptions → Result Auth → Result CloneOptions
with_clone_auth options (err x) = err x
with_clone_auth options (ok a) = ok (record options { auth = a })

module _ (lib : AuthLibrary) where
  unfoldable pub get_ssh_public_key : String → SecretMap → Result Auth
  get_ssh_public_key url secret = elim (get_field secret "sshPrivateKey") [
    | none ↦ err (errorf "could not get sshPrivateKey")
    | some key ↦ elim (lib.new_public_keys (get_user_from_url url) key) [
      | ok keys ↦ ok keys
      | err x ↦ err (errorf ("could not get publicKey: " ^ x.message))
    ]
  ]

  abbrev base_url : SecretMap → String
  base_url secret = elim (get_field secret "githubAppEnterpriseBaseUrl") [
    | none ↦ "https://api.github.com"
    | some url ↦ trim_suffix url "/"
  ]

  abbrev token_for : SecretMap → String → String → Result Auth
  token_for secret app_id installation_id =
      let key = get_field secret "githubAppPrivateKey" in
      elim (lib.new_installation app_id installation_id key) [
        | err x ↦ err (record x {
          message = "failed to initialize GitHub installation transport: " ^ x.message;
        })
        | ok _ ↦ elim (lib.installation_token app_id installation_id key (base_url secret)) [
          | err x ↦
              err
                (record x { message = "could not get GitHub App installation token: " ^ x.message })
          | ok token ↦ ok (basic_auth "x-access-token" token)
        ]
      ]

  unfoldable pub get_github_app_auth : SecretMap → Result Auth
  get_github_app_auth secret = elim (int_or_zero lib.parse_int secret "githubAppID") [
    | err x ↦ err x
    | ok app_id ↦ elim (int_or_zero lib.parse_int secret "githubAppInstallationID") [
      | err x ↦ err x
      | ok installation_id ↦ token_for secret app_id installation_id
    ]
  ]

  -- The switch on the kind of authentication.
  abbrev pub fetch_by :
      String → SecretMap → FetchOptions → GitAuthenticationBackend → Result FetchOptions
  fetch_by url secret options git_auth_password =
      ok (record options { auth = get_http_auth secret })
  fetch_by url secret options git_auth_ssh = with_fetch_auth options (get_ssh_public_key url secret)
  fetch_by url secret options git_auth_github_app =
      with_fetch_auth options (get_github_app_auth secret)
  fetch_by url secret options git_auth_none = ok options

  unfoldable pub get_fetch_options : String → SecretMap → Result FetchOptions
  get_fetch_options url secret =
      fetch_by url secret
        (record {
          remote_name = "origin";
          force = true;
          insecure_skip_tls = true;
          tags = all_tags;
          auth = no_auth;
        })
        (detect_git_auth_type secret)

  abbrev pub clone_by :
      String → SecretMap → CloneOptions → GitAuthenticationBackend → Result CloneOptions
  clone_by url secret options git_auth_password =
      ok (record options { auth = get_http_auth secret })
  clone_by url secret options git_auth_ssh = with_clone_auth options (get_ssh_public_key url secret)
  clone_by url secret options git_auth_github_app =
      with_clone_auth options (get_github_app_auth secret)
  clone_by url secret options git_auth_none = ok options

  unfoldable pub get_clone_options : String → SecretMap → Result CloneOptions
  get_clone_options url secret =
      clone_by url secret
        (record {
          url = url;
          remote_name = "origin";
          depth = 0;
          tags = all_tags;
          single_branch = false;
          auth = no_auth;
        })
        (detect_git_auth_type secret)
