-- ===== src/Finalize/Steps.antt =====
-- The steps of a deletion in a settled cluster (internal/controller/pattern_controller.go,
-- finalizeObject and what it calls).
use patterns_operator.Prelude.{
  String, Bool, true, false, none, some, [], ◌≡◌, subst, inl, inr, Bool-cases, ◌==◌, if◌then◌else◌,
}
use patterns_operator.Api.{Pattern, PatternStatus, PatternDeletionPhase}
use patterns_operator.Library.{Library}
use patterns_operator.Defaults.{Env, ActiveArgo}
use patterns_operator.Argo.{Application}
use patterns_operator.Argo.Compare.{compare_application}
use patterns_operator.Applications.{
  with_spec, with_sync, is_syncing, sync_application, get_child_applications, update_application,
}
use patterns_operator.Spokes.{check_spoke_applications_gone, search_at, get_token}
use patterns_operator.Finalize.{update_deletion_phase, require_unchanged}
use patterns_operator.Clusters.{
  apply_defaults, detect_argo_namespace, argo_of, moved_checkout, with_cluster_id,
  with_infrastructure, with_version, with_parsed_version, with_ingress, set_checkout_path,
}
use patterns_operator.Cluster.{Request, Reply, Prog, pure, call, ask, ◌>>=◌}
use patterns_operator.Cluster.Runs.{Environment}
use patterns_operator.Cluster.Triples.{
  Goes, Breaks, Answers, Goes-pure, Goes-call, Goes-bind, Breaks-call, Breaks-fail,
}
use patterns_operator.Finalize.Drained.{children-NoneTracked}
use patterns_operator.Finalize.Settled.{
  Stored, Facts, Settles, with_status, with_application, defaulted,
}

module _ (lib : Library) (e : Env) (f : Facts) {W : Type 0} (answer : Environment W)
    (view : W → Stored) (settles : Settles lib e f answer view) where
  set_checkout_path-Goes :
      (s : Stored) (q : Pattern)
      → Goes answer view s (set_checkout_path lib e q) (moved_checkout lib e q, none) s
  unfolding set_checkout_path ask ◌>>=◌
  set_checkout_path-Goes s q =
      elim (Bool-cases
        ((moved_checkout lib e q).status.local_checkout_path == q.status.local_checkout_path)) [
          | inl b ↦ rw b (Goes-pure answer view s _)
          | inr b ↦
              let (r, dropped) = settles.drop s in
              rw b (Goes-call answer view s s s _ r _ _ dropped (Goes-pure answer view s _))
        ]

  -- A read leaves the view alone.
  read-Goes :
      {A : Type 0} (s t : Stored) (r : Request) (x : Reply r) (k : Reply r → Prog A) (a : A)
      → Answers answer view s r x s
      → Goes answer view s (k x) a t
      → Goes answer view s (call r k) a t
  read-Goes s t r x k a = Goes-call answer view s s t r x k a

  pub apply_defaults-Goes :
      (s : Stored) (p : Pattern)
      → Goes answer view s (apply_defaults lib e p) (defaulted lib e f p, none) s
  unfolding apply_defaults with_cluster_id with_infrastructure with_version with_parsed_version
      with_ingress ask ◌>>=◌
  apply_defaults-Goes s p = read-Goes s s _ _ _ _ (settles.version s) (
      read-Goes s s _ _ _ _ (settles.platform s) (
        read-Goes s s _ _ _ _ (settles.version s) (
          rw settles.parses (
            read-Goes s s _ _ _ _ (settles.ingress s)
              (rw settles.labels (set_checkout_path-Goes s _))))))

  pub detect_argo_namespace-Goes :
      (s : Stored) → Goes answer view s detect_argo_namespace (argo_of f.legacy_argo) s
  unfolding detect_argo_namespace ask ◌>>=◌
  detect_argo_namespace-Goes s =
      read-Goes s s _ _ _ _ (settles.argo s _ _) (Goes-pure answer view s _)

  -- The status is stored with the new phase, and the stored pattern is read back.
  pub update_deletion_phase-Goes :
      (s : Stored) (p : Pattern) (phase : PatternDeletionPhase)
      → (let status : PatternStatus = record p.status { deletion_phase = phase } in
          Goes answer view s
            (update_deletion_phase p phase)
            (with_status s status).pattern
            (with_status s status))
  unfolding update_deletion_phase ask ◌>>=◌
  update_deletion_phase-Goes s p phase =
      let t = with_status s (record p.status { deletion_phase = phase }) in
      Goes-call answer view s t t _ _ _ _ (settles.status_written s _)
        (read-Goes t t _ _ _ _ (settles.pattern t _ _) (Goes-pure answer view t _))

  abbrev pub synced : Application → Bool → Application
  synced app b = if is_syncing app.operation b then app else with_sync app b

  pub sync_application-Goes :
      (s : Stored) (app : Application) (b : Bool)
      → s.application ≡ some app
      → Goes answer view s (sync_application app b) tt (with_application s (some (synced app b)))
  unfolding sync_application ask ◌>>=◌
  sync_application-Goes s app b h = elim (Bool-cases (is_syncing app.operation b)) [
    | inl c ↦ rw c (
        subst (λ o. Goes answer view s (pure tt) tt (with_application s o)) h
          (Goes-pure answer view s tt))
    | inr c ↦ rw c (
        Goes-call answer view s _ _ _ _ _ _ (settles.application_written s _ _)
          (Goes-pure answer view _ tt))
  ]

  pub get_child_applications-Goes :
      (s : Stored) (app : Application) → Goes answer view s (get_child_applications app) [] s
  unfolding get_child_applications ask ◌>>=◌
  get_child_applications-Goes s app =
      let (apps, untracked, listed) = settles.children s "" in
      subst (λ l. Goes answer view s (get_child_applications app) l s)
        (children-NoneTracked app.name apps untracked)
        (read-Goes s s _ _ _ _ listed (Goes-pure answer view s _))

  pub require_unchanged-Goes :
      (s : Stored) (target app : Application) (namespace purpose : String)
      → compare_application app target ≡ true
      → Goes answer view s (require_unchanged target app namespace purpose) tt s
  unfolding require_unchanged update_application ask ◌>>=◌
  require_unchanged-Goes s target app namespace purpose h = rw h (Goes-pure answer view s tt)

  pub require_unchanged-Breaks :
      (s : Stored) (target app : Application) (namespace purpose : String)
      → compare_application app target ≡ false
      → Breaks answer view s
          (require_unchanged target app namespace purpose)
          (with_application s (some (with_spec target app)))
  unfolding require_unchanged update_application ask ◌>>=◌
  require_unchanged-Breaks s target app namespace purpose h = rw h (
      Breaks-call answer view s _ _ _ _ _ (settles.application_written s _ _)
        (Breaks-fail answer view _ _))

  get_token-Goes :
      (s : Stored)
      → Goes answer view s
          (get_token e)
          (if e.search_api_token == "" then (settles.token s).0 else e.search_api_token)
          s
  unfolding get_token ask ◌>>=◌
  get_token-Goes s = elim (Bool-cases (e.search_api_token == "")) [
    | inl b ↦ rw b (read-Goes s s _ _ _ _ (settles.token s).1 (Goes-pure answer view s _))
    | inr b ↦ rw b (Goes-pure answer view s _)
  ]

  pub check_spoke_applications_gone-Goes :
      (s : Stored) (active : ActiveArgo) (b : Bool)
      → Goes answer view s (check_spoke_applications_gone lib e active b) true s
  unfolding check_spoke_applications_gone search_at ask
  check_spoke_applications_gone-Goes s active b =
      let (u, parsed, https) = settles.searchable in
      rw (parsed, https)
        (Goes-bind answer view s s s _ _ _ _ (get_token-Goes s)
          (read-Goes s s _ _ _ _ (settles.search s _) (Goes-pure answer view s true)))
