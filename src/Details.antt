-- ===== src/Details.antt =====
-- The Applications in the status of the pattern (internal/controller/pattern_controller.go,
-- updatePatternCRDetails).
pub mod Changes
use patterns_operator.Prelude.{
  String, Bool, true, false, not, ◌&&◌, ◌||◌, List, ◌==◌, ◌^◌, map, any, length, nat_eq,
  if◌then◌else◌,
}
use patterns_operator.Errors.{Result, ok, err}
use patterns_operator.Api.{Pattern, PatternApplicationInfo}
use patterns_operator.Argo.{Application}
use patterns_operator.Cluster.{Prog, pure, ask, ◌>>=◌, list_applications, update_pattern_status}

abbrev pub info_of : Application → PatternApplicationInfo
info_of app = record {
  name = app.name;
  namespace = app.namespace;
  app_sync_status = app.sync_status;
  app_health_status = app.health_status;
}

-- The inner loop: an existing entry of that name differs.
unfoldable pub differs_from : PatternApplicationInfo → List PatternApplicationInfo → Bool
differs_from value existing =
    any
      (λ x.
        value.name == x.name
        && (not (value.app_sync_status == x.app_sync_status)
            || not (value.app_health_status == x.app_health_status)))
      existing

unfoldable pub details_changed : List PatternApplicationInfo → List PatternApplicationInfo → Bool
details_changed existing current =
    if not (nat_eq (length existing) (length current))
    then true
    else any (λ value. differs_from value existing) current

abbrev pub with_applications : Pattern → List PatternApplicationInfo → Pattern
with_applications p infos = record p { status = record p.status { applications = infos } }

abbrev pub with_last_step : Pattern → String → Pattern
with_last_step p text = record p { status = record p.status { last_step = text } }

abbrev written : Pattern → Result (Unit {0}) → Prog (Pattern × Result Bool)
written p (ok _) = pure (p, ok true)
written p (err x) = pure (p, err x)

abbrev compare_details : Pattern → Result (List Application) → Prog (Pattern × Result Bool)
compare_details p (err x) = pure (p, err x)
compare_details p (ok apps) =
    let infos = map info_of apps in
    let q = with_applications p infos in
    let changed = with_last_step q "update pattern application status" in
    let send : Prog (Pattern × Result Bool) =
      (ask (update_pattern_status changed) >>= written changed) in
    if details_changed p.status.applications infos then send else pure (q, ok false)

-- The pattern as it is left, and whether the resource was updated.
unfoldable pub update_pattern_cr_details : Pattern → Prog (Pattern × Result Bool)
unfolding ask ◌>>=◌
update_pattern_cr_details p =
    ask (list_applications ("validatedpatterns.io/pattern=" ^ p.name)) >>= compare_details p
