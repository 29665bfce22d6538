-- ===== src/Details/Changes.antt =====
-- When the Applications in the status are written (internal/controller/pattern_controller.go,
-- updatePatternCRDetails).
use patterns_operator.Prelude.{
  Bool, true, false, List, [], ◌∷◌, ◌≡◌, ◌≢◌, ◌⊎◌, ◌^◌, map, Any, length,
}
use patterns_operator.Errors.{Result, ok, err}
use patterns_operator.Api.{Pattern, PatternApplicationInfo}
use patterns_operator.Argo.{Application}
use patterns_operator.Cluster.{Request}
use patterns_operator.Cluster.Runs.{Environment, Outcome, returned}
use patterns_operator.Details.{info_of, with_applications, with_last_step}

-- One name with two states.
abbrev pub IsOutdated : PatternApplicationInfo → PatternApplicationInfo → Type 0
IsOutdated value old =
    (value.name ≡ old.name)
    × ((value.app_sync_status ≢ old.app_sync_status)
        ⊎ (value.app_health_status ≢ old.app_health_status))

-- The lists differ in length, or a new entry and an old one of its name differ in a state.
abbrev pub HasNews : List PatternApplicationInfo → List PatternApplicationInfo → Type 0
HasNews existing current =
    (length existing ≢ length current) ⊎ Any (λ value. Any (IsOutdated value) existing) current

module _ {W : Type 0} (answer : Environment W) (p : Pattern) (apps : List Application) (w : W) where
  abbrev pub listing : Request
  listing = Request.list_applications ("validatedpatterns.io/pattern=" ^ p.name)

  abbrev pub current : List PatternApplicationInfo
  current = map info_of apps

  -- The status with the Applications that were listed and the step.
  abbrev pub report : Pattern
  report = with_last_step (with_applications p current) "update pattern application status"

  -- Whether the write has succeeded.
  abbrev pub told : Result (Unit {0}) → Result Bool
  told (ok _) = ok true
  told (err x) = err x

  abbrev pub state : W
  state = (answer listing w).1

  -- What the requests and the outcome are.
  abbrev pub Ends : List Request → Outcome (Pattern × Result Bool) → Type 0
  Ends sent o =
      (HasNews p.status.applications current
        × (sent ≡ listing ∷ Request.update_pattern_status report ∷ [])
        × (o ≡ returned (report, told (answer (Request.update_pattern_status report) state).0)))
      ⊎ (¬ (HasNews p.status.applications current)
          × (sent ≡ listing ∷ [])
          × (o ≡ returned (with_applications p current, ok false)))
