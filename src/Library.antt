-- ===== src/Library.antt =====
-- The functions of third-party packages that the operator calls and whose text is not its own. Each
-- is a parameter of the definitions that use it.
use patterns_operator.Prelude.{String, Option, List}
use patterns_operator.Errors.{Result}
use patterns_operator.Files.{Table}
use patterns_operator.Kube.Owner.{GroupVersion, OwnerReference}
use patterns_operator.Api.{Pattern}
use patterns_operator.Argo.{Application}
use patterns_operator.Subscription.{Subscription}

pub record Url : Type 0 where
  pub scheme : String
  pub host : String
  pub hostname : String
  pub path : String

pub record Version : Type 0 where
  pub major : String
  pub minor : String

pub record Library : Type 0 where
  -- schema.ParseGroupVersion
  pub parse_group_version : String → Option GroupVersion
  -- the owner references of the object after controllerutil.SetOwnerReference, whose error is ignored
  pub set_owner_reference : Pattern → Application → List OwnerReference
  -- the subscription after controllerutil.RemoveOwnerReference for the pattern, and for the operator's
  -- ConfigMap; `none` is an error, the owner not being there among them
  pub remove_pattern_reference : Pattern → Subscription → Option Subscription
  pub remove_config_map_reference : Subscription → Option Subscription
  -- chartutil.CoalesceTables: the first table takes precedence
  pub coalesce_tables : Table → Table → Table
  -- chartutil.ToRenderValues for the fake chart
  pub to_render_values : Table → Result Table
  -- engine.Render of a chart with the one given template
  pub render : String → Table → Result (List (String × String))
  -- semver.NewVersion, its parts printed in decimal
  pub new_version : String → Result Version
  -- argogit.NormalizeGitURL
  pub normalize_git_url : String → String
  -- url.ParseRequestURI and url.Parse of net/url
  pub parse_request_uri : String → Result Url
  pub parse_url : String → Result Url
