-- ===== src/Gitea/Safety.antt =====
-- What the set-up of the in-cluster Gitea may write (internal/controller/pattern_controller.go,
-- createGiteaInstance).
use patterns_operator.Prelude.{
  String, true, false, Option, none, some, List, [], ◌∷◌, ◌≡◌, refl, subst, ◌⊎◌, inl, inr, ◌^◌, sym,
}
use patterns_operator.Errors.{Err, Result, ok, err, errorf, is_not_found}
use patterns_operator.Api.{Pattern, PatternSpec}
use patterns_operator.Library.{Library}
use patterns_operator.Defaults.{ActiveArgo}
use patterns_operator.Argo.{Application}
use patterns_operator.Bootstrap.{create_namespace, get_route, get_secret}
use patterns_operator.GitUrl.{extract_repository_name}
use patterns_operator.Applications.{create}
use patterns_operator.Cluster.{
  Request, Reply, Prog, pure, fail, call, ask, from_result, attempt, ◌>>=◌,
}
use patterns_operator.Cluster.Runs.{
  Rely, Outcome, returned, failed, panicked, Always, Always-bind, Always-attempt,
}
use patterns_operator.Finalize.Safety.{AnyOutcome}
use patterns_operator.Gitea.{
  gitea_namespace, gitea_admin_secret_name, gitea_application_name, next, next_result,
  record_target, Attempt,
}

-- The API server hands back the spec that was written, in a pattern of the given kind, and a read of the
-- route of Gitea gives this answer.
abbrev pub EchoesSpec : Result (List String) → (Pattern → Type 0) → Rely
EchoesSpec hosts handed (Request.update_pattern p) (ok q) = (q.spec ≡ p.spec) × handed q
EchoesSpec hosts handed (Request.get_route name namespace) x =
    name ≡ "gitea-route" → namespace ≡ "vp-gitea" → x ≡ hosts
EchoesSpec hosts handed r x = Unit

module _ (lib : Library) (active : ActiveArgo) (input : Pattern) (hosts : Result (List String))
    (handed : Pattern → Type 0) where
  -- The URL at the first host of the route.
  abbrev pub IsRoute : String → Type 0
  IsRoute route =
      (host : String) × ((rest : List String) × (hosts ≡ ok (host ∷ rest))
        × (route ≡ "https://" ^ host))

  -- The spec of the pattern with the copy of the origin's repository in Gitea as its target, and
  -- nothing else changed.
  abbrev pub IsRetargeted : PatternSpec → Type 0
  IsRetargeted spec =
      (route : String) × ((repo : String) × (extract_repository_name lib
            input.spec.git_config.origin_repo
          ≡ ok repo)
        × IsRoute route
        × (spec ≡ record input.spec {
          git_config = record input.spec.git_config {
            target_repo = route ^ "/" ^ "gitea_admin" ^ "/" ^ repo;
          };
        }))

  -- Reads are not restricted, nor are requests to Gitea itself.
  abbrev pub IsGiteaRequest : Request → Type 0
  IsGiteaRequest (Request.create_namespace s) = s ≡ gitea_namespace
  IsGiteaRequest (Request.create_secret s) =
      (s.name ≡ gitea_admin_secret_name) × (s.namespace ≡ gitea_namespace)
  IsGiteaRequest (Request.create_application ns a) =
      (a.name ≡ gitea_application_name) × (ns ≡ active.namespace)
  IsGiteaRequest (Request.update_application ns a) = ns ≡ active.namespace
  IsGiteaRequest (Request.update_pattern q) = IsRetargeted q.spec
  IsGiteaRequest (Request.update_pattern_status _) = ⊥
  IsGiteaRequest (Request.delete_application _ _) = ⊥
  IsGiteaRequest (Request.delete_console_link _) = ⊥
  IsGiteaRequest (Request.delete_managed_cluster _) = ⊥
  IsGiteaRequest (Request.create_config_map _ _ _) = ⊥
  IsGiteaRequest (Request.update_secret _) = ⊥
  IsGiteaRequest (Request.create_subscription _) = ⊥
  IsGiteaRequest (Request.update_subscription _) = ⊥
  IsGiteaRequest (Request.create_operator_group _) = ⊥
  IsGiteaRequest (Request.create_console_link _) = ⊥
  IsGiteaRequest (Request.update_console_link _) = ⊥
  IsGiteaRequest (Request.create_argo_cd _ _) = ⊥
  IsGiteaRequest (Request.update_argo_cd _ _) = ⊥
  IsGiteaRequest (Request.create_object _ _ _ _) = ⊥
  IsGiteaRequest (Request.update_object _ _ _ _) = ⊥
  IsGiteaRequest _ = Unit

  -- Without an error the pattern is one that the server has handed back with the new target; with one
  -- its spec has that target or is what it was.
  abbrev pub Ends : Outcome (Pattern × Option Err) → Type 0
  Ends (returned (q, none)) = IsRetargeted q.spec × handed q
  Ends (returned (q, some x)) = (q.spec ≡ input.spec) ⊎ IsRetargeted q.spec
  Ends (failed x) = ⊥
  Ends panicked = Unit

  pub record Harmless {A : Type 0} (m : Prog A) : Type 0 where
    pub paths : Always (EchoesSpec hosts handed) IsGiteaRequest AnyOutcome m

  pub record Sets (m : Attempt) : Type 0 where
    pub paths : Always (EchoesSpec hosts handed) IsGiteaRequest Ends m

  pub stays : (x : Err) → Sets (pure (input, some x))
  stays x = record { paths = inl refl }

  pub Sets-next :
      {A : Type 0} (text : String) (m : Prog A) (k : A → Attempt)
      → Harmless m
      → ((a : A) → Sets (k a))
      → Sets (next input text m k)
  Sets-next {A} text m k h s = record {
    paths =
        Always-bind (EchoesSpec hosts handed) IsGiteaRequest ReturnsIt Ends (attempt m)
          (next_result input text k)
          (Always-attempt (EchoesSpec hosts handed) IsGiteaRequest AnyOutcome ReturnsIt m h.paths
            (λ a _. tt) (λ x _. tt) (λ _. tt))
          ((λ e x. absurd x), λ x. tt) go;
  }
    where
      ReturnsIt : Outcome (Result A) → Type 0
      ReturnsIt (returned r) = Unit
      ReturnsIt (failed x) = ⊥
      ReturnsIt panicked = Unit

      go :
          (r : Result A)
          → Unit {0}
          → Always (EchoesSpec hosts handed) IsGiteaRequest Ends (next_result input text k r)
      go (ok a) _ = (s a).paths
      go (err x) _ = inl refl

  pub Harmless-from_result : {A : Type 0} (r : Result A) → Harmless (from_result r)
  Harmless-from_result (ok a) = record { paths = tt }
  Harmless-from_result (err x) = record { paths = tt }

  pub Harmless-call :
      {A : Type 0} (r : Request) (k : Reply r → Prog A)
      → IsGiteaRequest r
      → ((x : Reply r) → Harmless (k x))
      → Harmless (call r k)
  Harmless-call r k i h = record { paths = (i, λ x _. (h x).paths) }

  pub Sets-call :
      (r : Request) (k : Reply r → Attempt)
      → IsGiteaRequest r
      → ((x : Reply r) → (EchoesSpec hosts handed) r x → Sets (k x))
      → Sets (call r k)
  Sets-call r k i h = record { paths = (i, λ x e. (h x e).paths) }

  pub Harmless-result :
      {A B : Type 0} (f : Result A → Prog B)
      → ((a : A) → Harmless (f (ok a)))
      → ((x : Err) → Harmless (f (err x)))
      → (r : Result A) → Harmless (f r)
  Harmless-result f h k (ok a) = h a
  Harmless-result f h k (err x) = k x

  pub Harmless-fail : {A : Type 0} (x : Err) → Harmless {A = A} (fail x)
  Harmless-fail x = record { paths = tt }

  pub Harmless-pure : {A : Type 0} (a : A) → Harmless (pure a)
  Harmless-pure a = record { paths = tt }

  pub create_namespace-Harmless : Harmless (create_namespace gitea_namespace)
  unfolding create_namespace ask ◌>>=◌
  create_namespace-Harmless = Harmless-call _ _ tt (Harmless-result _ Harmless-pure missing)
    where
      make : Prog (Unit {0})
      make = call (Request.create_namespace gitea_namespace) (λ r. from_result r)

      missing : (x : Err) → Harmless (elim (is_not_found x) [ true ↦ make | false ↦ fail x ])
      missing x =
          elim (is_not_found x) as (λ b. Harmless (elim b [ true ↦ make | false ↦ fail x ])) [
            | true ↦ Harmless-call _ _ refl Harmless-from_result
            | false ↦ Harmless-fail x
          ]

  -- The route of Gitea, or no value.
  abbrev pub RouteOrNone : Outcome String → Type 0
  RouteOrNone (returned route) = IsRoute route
  RouteOrNone (failed x) = Unit
  RouteOrNone panicked = Unit

  pub get_route-IsRoute :
      Always
        (EchoesSpec hosts handed)
        IsGiteaRequest
        RouteOrNone
        (get_route "gitea-route" "vp-gitea")
  unfolding get_route ask ◌>>=◌
  get_route-IsRoute = (tt, λ x read. answered x (read refl refl))
    where
      answered :
          (x : Result (List String))
          → x ≡ hosts
          → Always (EchoesSpec hosts handed) IsGiteaRequest RouteOrNone (
              from_result x >>= λ found. elim found as (λ z. Prog String) [
                | [] ↦ fail (errorf ("no ingress found for route " ^ "gitea-route"))
                | host ∷ _ ↦ pure ("https://" ^ host)
              ])
      answered (err y) h = tt
      answered (ok []) h = tt
      answered (ok (host ∷ rest)) h = (host, (rest, sym h, refl))

  pub Sets-next_route :
      (text : String) (k : String → Attempt)
      → ((route : String) → IsRoute route → Sets (k route))
      → Sets (next input text (get_route "gitea-route" "vp-gitea") k)
  Sets-next_route text k s = record {
    paths =
        Always-bind (EchoesSpec hosts handed) IsGiteaRequest ReturnsIt Ends
          (attempt (get_route "gitea-route" "vp-gitea")) (next_result input text k)
          (Always-attempt (EchoesSpec hosts handed) IsGiteaRequest RouteOrNone ReturnsIt _
            get_route-IsRoute (λ a h. h) (λ x _. tt) (λ _. tt))
          ((λ e x. absurd x), λ x. tt) go;
  }
    where
      ReturnsIt : Outcome (Result String) → Type 0
      ReturnsIt (returned (ok route)) = IsRoute route
      ReturnsIt (returned (err x)) = Unit
      ReturnsIt (failed x) = ⊥
      ReturnsIt panicked = Unit

      go :
          (r : Result String)
          → ReturnsIt (returned r)
          → Always (EchoesSpec hosts handed) IsGiteaRequest Ends (next_result input text k r)
      go (ok a) h = (s a h).paths
      go (err x) h = inl refl

  pub get_secret-Harmless : (name namespace : String) → Harmless (get_secret name namespace)
  unfolding get_secret ask ◌>>=◌
  get_secret-Harmless name namespace = Harmless-call _ _ tt Harmless-from_result

  create-Harmless :
      (a : Application) → a.name ≡ gitea_application_name → Harmless (create a active.namespace)
  unfolding create ask ◌>>=◌
  create-Harmless a h = Harmless-call _ _ (h, refl) Harmless-from_result

  -- A result is known to be what the continuation gets.
  pub Sets-next_result :
      {A : Type 0} (text : String) (r : Result A) (k : A → Attempt)
      → ((a : A) → r ≡ ok a → Sets (k a))
      → Sets (next input text (from_result r) k)
  unfolding attempt ◌>>=◌
  Sets-next_result text (ok a) k s = s a refl
  Sets-next_result text (err x) k s = stays _

  pub Sets-result :
      {A : Type 0} (f : Result A → Attempt)
      → ((a : A) → Sets (f (ok a)))
      → ((x : Err) → Sets (f (err x)))
      → (r : Result A) → Sets (f r)
  Sets-result f h k (ok a) = h a
  Sets-result f h k (err x) = k x

  pub record_target-Sets :
      (p : Pattern)
      → IsRetargeted p.spec
      → (r : Result Pattern) → (EchoesSpec hosts handed) (Request.update_pattern p) r
      → Sets (record_target p r)
  record_target-Sets p t (ok q) e = record { paths = (subst IsRetargeted (sym e.0) t, e.1) }
  record_target-Sets p t (err x) e = record { paths = inr t }
