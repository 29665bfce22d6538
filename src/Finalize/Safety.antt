-- ===== src/Finalize/Safety.antt =====
-- Which requests a pass over a pattern that is being deleted may send, phase by phase
-- (internal/controller/pattern_controller.go, finalizeObject).
use patterns_operator.Prelude.{
  String, Bool, true, false, Option, none, some, List, [], ◌∷◌, ◌≡◌, ◌≢◌, if◌then◌else◌,
}
use patterns_operator.Errors.{Err, Result, ok, err}
use patterns_operator.Api.{
  PatternDeletionPhase, initialize_deletion, delete_spoke_child_apps, delete_spoke,
  delete_hub_child_apps, delete_hub,
}
use patterns_operator.Library.{Library, Url}
use patterns_operator.Defaults.{Env, ActiveArgo}
use patterns_operator.Argo.{Application}
use patterns_operator.Applications.{
  get_application_or_err, update_application, sync_application, get_child_applications,
}
use patterns_operator.Acm.{have_acm_hub, local_cluster}
use patterns_operator.Spokes.{
  check_spoke_applications_gone, get_token, read_response, read_results, search_at, search_url,
}
use patterns_operator.Clusters.{detect_argo_namespace}
use patterns_operator.Cluster.{
  SearchItem, SearchResponse, Request, Prog, pure, fail, call, attempt, Reply, ◌>>=◌,
}
use patterns_operator.Cluster.Runs.{Outcome, Always, AnyReply, Always-bind, Always-attempt}
use patterns_operator.Finalize.{sync_all, require_unchanged, wrapping, unchanged}

-- The steps that the phase of a pattern may take.
pub data Edge : PatternDeletionPhase → PatternDeletionPhase → Type 0 where
  spokes_first : Edge initialize_deletion delete_spoke_child_apps
  hub_only : Edge initialize_deletion delete_hub_child_apps
  spoke_children_gone : Edge delete_spoke_child_apps delete_spoke
  spoke_gone : Edge delete_spoke delete_hub_child_apps
  hub_children_gone : Edge delete_hub_child_apps delete_hub

-- Whether a request may be sent in a phase. Reads are not restricted; updates of Applications only
-- sync them or hand the phase on.
abbrev pub Allowed : PatternDeletionPhase → Request → Type 0
Allowed phase (Request.delete_application _ _) = phase ≡ delete_hub
Allowed phase (Request.delete_console_link _) = phase ≡ delete_hub
Allowed phase (Request.delete_managed_cluster name) =
    (phase ≡ delete_hub_child_apps) × (name ≢ local_cluster)
Allowed phase (Request.update_pattern_status p) = Edge phase p.status.deletion_phase
Allowed phase (Request.update_pattern _) = ⊥
Allowed phase (Request.create_config_map _ _ _) = ⊥
Allowed phase (Request.create_namespace _) = ⊥
Allowed phase (Request.create_secret _) = ⊥
Allowed phase (Request.update_secret _) = ⊥
Allowed phase (Request.create_application _ _) = ⊥
Allowed phase (Request.create_subscription _) = ⊥
Allowed phase (Request.update_subscription _) = ⊥
Allowed phase (Request.create_operator_group _) = ⊥
Allowed phase (Request.create_console_link _) = ⊥
Allowed phase (Request.update_console_link _) = ⊥
Allowed phase (Request.create_argo_cd _ _) = ⊥
Allowed phase (Request.update_argo_cd _ _) = ⊥
Allowed phase (Request.create_object _ _ _ _) = ⊥
Allowed phase (Request.update_object _ _ _ _) = ⊥
Allowed phase _ = Unit

abbrev pub AnyOutcome : {A : Type 0} → Outcome A → Type 0
AnyOutcome o = Unit

-- Every path of the program sends only what the phase allows.
pub record Safe {A : Type 0} (phase : PatternDeletionPhase) (m : Prog A) : Type 0 where
  pub paths : Always AnyReply (Allowed phase) AnyOutcome m

module _ {A : Type 0} (phase : PatternDeletionPhase) where
  pub Safe-pure : (a : A) → Safe phase (pure a)
  Safe-pure a = record { paths = tt }

  pub Safe-fail : (x : Err) → Safe {A = A} phase (fail x)
  Safe-fail x = record { paths = tt }

  pub Safe-call :
      (r : Request) (k : Reply r → Prog A)
      → Allowed phase r
      → ((x : Reply r) → Safe phase (k x))
      → Safe phase (call r k)
  Safe-call r k h f = record { paths = (h, λ x _. (f x).paths) }

  pub Safe-if :
      (b : Bool) (m n : Prog A) → Safe phase m → Safe phase n → Safe phase (if b then m else n)
  Safe-if true m n h k = h
  Safe-if false m n h k = k

  pub Safe-attempt : (m : Prog A) → Safe phase m → Safe phase (attempt m)
  Safe-attempt m h = record {
    paths =
        Always-attempt AnyReply (Allowed phase) AnyOutcome AnyOutcome m h.paths (λ a _. tt)
          (λ x _. tt) (λ _. tt);
  }

module _ {A B : Type 0} (phase : PatternDeletionPhase) where
  pub Safe-bind :
      (m : Prog A) (f : A → Prog B)
      → Safe phase m
      → ((a : A) → Safe phase (f a))
      → Safe phase (m >>= f)
  Safe-bind m f h k = record {
    paths =
        Always-bind AnyReply (Allowed phase) AnyOutcome AnyOutcome m f h.paths
          ((λ e _. tt), λ _. tt) (λ a _. (k a).paths);
  }

-- The two ways to go on from a reply.
pub Safe-result :
    {A B : Type 0} (phase : PatternDeletionPhase) (f : Result A → Prog B)
    → ((a : A) → Safe phase (f (ok a)))
    → ((x : Err) → Safe phase (f (err x)))
    → (r : Result A) → Safe phase (f r)
Safe-result phase f h k (ok a) = h a
Safe-result phase f h k (err x) = k x

module _ (phase : PatternDeletionPhase) where
  pub have_acm_hub-Safe : Safe phase have_acm_hub
  unfolding have_acm_hub
  have_acm_hub-Safe = Safe-call phase _ _ tt (λ x. Safe-pure phase _)

  pub sync_application-Safe : (app : Application) (b : Bool) → Safe phase (sync_application app b)
  unfolding sync_application
  sync_application-Safe app b =
      Safe-if phase _ _ _ (Safe-pure phase tt)
        (Safe-call phase _ _ tt (Safe-result phase _ (Safe-pure phase) (λ x. Safe-fail phase _)))

  pub get_child_applications-Safe : (app : Application) → Safe phase (get_child_applications app)
  unfolding get_child_applications
  get_child_applications-Safe app =
      Safe-call phase _ _ tt (Safe-result phase _ (λ a. Safe-pure phase _) (λ x. Safe-fail phase _))

  pub sync_all-Safe : (apps : List Application) (b : Bool) → Safe phase (sync_all apps b)
  unfolding sync_all
  sync_all-Safe [] b = Safe-pure phase tt
  sync_all-Safe (a ∷ as') b =
      Safe-bind phase _ _ (sync_application-Safe a b) (λ _. sync_all-Safe as' b)

  pub get_application_or_err-Safe : (n ns : String) → Safe phase (get_application_or_err n ns)
  unfolding get_application_or_err
  get_application_or_err-Safe n ns =
      Safe-call phase (Request.get_application n ns) _ tt (Safe-pure phase)

  pub update_application-Safe :
      (target app : Application) (ns : String)
      → Safe phase (update_application (some target) (some app) ns)
  unfolding update_application
  update_application-Safe target app ns =
      Safe-if phase _ _ _ (Safe-pure phase _) (Safe-call phase _ _ tt (λ x. Safe-pure phase _))

  pub unchanged-Safe : (purpose : String) (u : Bool × Option Err) → Safe phase (unchanged purpose u)
  unchanged-Safe purpose (changed, some x) = Safe-fail phase _
  unchanged-Safe purpose (true, none) = Safe-fail phase _
  unchanged-Safe purpose (false, none) = Safe-pure phase tt

  pub require_unchanged-Safe :
      (target app : Application) (ns purpose : String)
      → Safe phase (require_unchanged target app ns purpose)
  unfolding require_unchanged
  require_unchanged-Safe target app ns purpose =
      Safe-bind phase _ _ (update_application-Safe target app ns) (unchanged-Safe _)

  pub wrapping-Safe :
      {A : Type 0} (text : String) (m : Prog A) → Safe phase m → Safe phase (wrapping text m)
  unfolding wrapping
  wrapping-Safe text m h =
      Safe-bind phase _ _ (Safe-attempt phase m h)
        (Safe-result phase _ (Safe-pure phase) (λ x. Safe-fail phase _))

  pub get_token-Safe : (e : Env) → Safe phase (get_token e)
  unfolding get_token
  get_token-Safe e =
      Safe-if phase _ _ _
        (Safe-call phase _ _ tt (Safe-result phase _ (Safe-pure phase) (λ x. Safe-fail phase _)))
        (Safe-pure phase _)

  pub read_response-Safe : (r : Result SearchResponse) → Safe phase (read_response r)
  read_response-Safe (err x) = Safe-fail phase _
  read_response-Safe (ok r) = Safe-if phase _ _ _ (parsed r.results) (Safe-fail phase _)
    where
      parsed : (x : Result (List (List SearchItem))) → Safe phase (read_results x)
      parsed (err x) = Safe-fail phase _
      parsed (ok []) = Safe-pure phase true
      parsed (ok ([] ∷ rest)) = Safe-pure phase true
      parsed (ok ((i ∷ is) ∷ rest)) = Safe-fail phase _

  pub check_spoke_applications_gone-Safe :
      (lib : Library) (e : Env) (active : ActiveArgo) (b : Bool)
      → Safe phase (check_spoke_applications_gone lib e active b)
  unfolding check_spoke_applications_gone
  check_spoke_applications_gone-Safe lib e active b = parsed (lib.parse_url (search_url e))
    where
      parsed : (u : Result Url) → Safe phase (search_at e active b u)
      parsed (err x) = Safe-fail phase _
      parsed (ok u) =
          Safe-if phase _ _ _
            (Safe-bind phase _ _ (get_token-Safe e)
              (λ token. Safe-call phase _ _ tt read_response-Safe))
            (Safe-fail phase _)

  pub detect_argo_namespace-Safe : Safe phase detect_argo_namespace
  unfolding detect_argo_namespace
  detect_argo_namespace-Safe = Safe-call phase _ _ tt (λ x. Safe-pure phase _)
