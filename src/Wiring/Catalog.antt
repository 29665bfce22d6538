-- ===== src/Wiring/Catalog.antt =====
-- The catalog in a reconciliation (internal/controller/pattern_controller.go, Reconcile).
use patterns_operator.Prelude.{ℕ, String, Bool, some, List, [], ◌∷◌, ◌++◌, ◌≡◌, ap}
use patterns_operator.Errors.{ok}
use patterns_operator.Api.{Pattern}
use patterns_operator.Library.{Library}
use patterns_operator.Defaults.{Env, detect_operator_namespace, operator_config_map}
use patterns_operator.Config.{Config, get_patterns_operator_config_map}
use patterns_operator.Services.{Services}
use patterns_operator.Cluster.{Request, Prog, ask, attempt, ◌>>=◌}
use patterns_operator.Cluster.Runs.{Environment, Outcome, returned, failed, panicked, run}
use patterns_operator.Stages.{Stage, checked}
use patterns_operator.Stages.Reports.{Follows, checked-Follows}
use patterns_operator.ArgoCd.{ArgoLibrary}
use patterns_operator.Console.Catalog.{create_or_update_catalog}
use patterns_operator.Reconcile.{reconcile, reconcile_found, by_deletion}
use patterns_operator.Wiring.{wired}

module _ {W : Type 0} (answer : Environment W) (svc : Services) (lib : Library) (argo : ArgoLibrary)
    (e : Env) (icon : String) (now : ℕ) (watching : Bool) (name namespace : String) where
  abbrev pub pass : W → List Request
  pass w =
      (run answer (reconcile (wired lib argo e watching svc) lib e icon now name namespace) w).0

  -- The state after the two reads with which a pass begins.
  abbrev pub after_reads : W → W
  after_reads w =
      let w1 = (answer (Request.get_pattern name namespace) w).1 in
      (answer (Request.get_config_map (detect_operator_namespace e) operator_config_map) w1).1

  module _ (p : Pattern) (config : Config) where
    -- The catalog's part of the pass, and what comes after it.
    abbrev pub catalog : Prog (Unit {0})
    catalog = create_or_update_catalog e (some config)

    abbrev pub rest : Unit {0} → Stage
    rest u = by_deletion (wired lib argo e watching svc) lib e icon now p config

    -- What is sent from the catalog on, by its outcome.
    abbrev pub sent : W → Outcome (Unit {0}) → List Request
    sent w (returned u) =
        (run answer catalog w).0 ++ (run answer (rest u) (run answer catalog w).2).0
    sent w (failed x) =
        (run answer catalog w).0
        ++ Request.update_pattern_status (record p {
          status = record p.status {
            last_step = "unable to create/update catalog deployment";
            last_error = x.message;
          };
        })
          ∷ []
    sent w panicked = (run answer catalog w).0

    checked-sent :
        (w : W) (o : Outcome (Unit {0}))
        → Follows answer p "unable to create/update catalog deployment" catalog rest w o
        → (run answer (checked p "unable to create/update catalog deployment" catalog rest) w).0
          ≡ sent w o
    checked-sent w (returned u) h = h.0
    checked-sent w (failed x) h = h.sends
    checked-sent w panicked h = h.0

    -- If the pattern and the operator's ConfigMap can be read: a whole pass sends those two reads, then
    -- the requests of the catalog, and after them, if the catalog was created or updated, those of the
    -- rest of the pass in the state that the catalog leaves; if it has failed only the pattern's status
    -- with the failed step and the text of the error, and all else as it was; and nothing if it has
    -- panicked.
    pub reconcile-catalog_first :
        ((w : W) → (answer (Request.get_pattern name namespace) w).0 ≡ ok p)
        → ((w : W)
            → (answer
                (Request.get_config_map (detect_operator_namespace e) operator_config_map)
                w).0
              ≡ ok config)
        → (w : W)
        → pass w ≡ (
            Request.get_pattern name namespace
            ∷ Request.get_config_map (detect_operator_namespace e) operator_config_map
            ∷ sent (after_reads w) (run answer catalog (after_reads w)).1)
    unfolding reconcile reconcile_found get_patterns_operator_config_map wired checked run ask
        attempt ◌>>=◌
    reconcile-catalog_first found configured w =
        let stage = checked-sent (after_reads w) (run answer catalog (after_reads w)).1 (
          checked-Follows answer p "unable to create/update catalog deployment" catalog rest
            (after_reads w)) in
        rw (found, run, configured)
          (ap
            (λ (rs : List Request).
              Request.get_pattern name namespace
              ∷ Request.get_config_map (detect_operator_namespace e) operator_config_map
              ∷ rs)
            stage)
