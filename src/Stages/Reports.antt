-- ===== src/Stages/Reports.antt =====
-- How a stage ends on an error (internal/controller/pattern_controller.go, actionPerformed and
-- onReconcileErrorWithRequeue).
use patterns_operator.Prelude.{
  String, Option, some, List, [], ◌∷◌, ◌++◌, ◌≡◌, refl, sym, subst, ap, ◌∙◌, inl, inr,
}
use patterns_operator.Errors.{Err, Result, ok, err, Result-cases}
use patterns_operator.Api.{Pattern}
use patterns_operator.Cluster.{Request, Prog, pure, fail, panic, call, ask, attempt, ◌>>=◌}
use patterns_operator.Cluster.Runs.{
  Environment, Outcome, returned, failed, panicked, run, run->>=, run-attempt-failed,
}
use patterns_operator.Stages.{
  Requeue, Stage, done, checked, checked_result, action_performed, on_reconcile_error_with_requeue,
}

module _ {W : Type 0} (answer : Environment W) (p : Pattern) (reason : String) (x : Err) where
  -- The failed step and its error in the status.
  abbrev pub report : Request
  report =
      Request.update_pattern_status
        (record p { status = record p.status { last_step = reason; last_error = x.message } })

  -- The stage ends the reconciliation, to be repeated after a minute, or fails as the report has failed.
  abbrev pub Retries : Result (Unit {0}) → Outcome (Option Requeue) → Type 0
  Retries (ok _) o = o ≡ returned (some (some 60))
  Retries (err y) o = o ≡ failed y

  done-Retries :
      (w : W)
      → ((run answer (done p reason (some x)) w).0 ≡ report ∷ [])
        × Retries (answer report w).0 (run answer (done p reason (some x)) w).1
  unfolding done action_performed on_reconcile_error_with_requeue run ask ◌>>=◌
  done-Retries w = elim (Result-cases (answer report w).0) [
    | inl (u, h) ↦ rw (h, run) (refl, refl)
    | inr (y, h) ↦ rw (h, run) (refl, refl)
  ]

  module _ {A : Type 0} (m : Prog A) (k : A → Stage) where
    -- The requests and the outcome of a stage whose step has failed in a run from this state.
    pub record Reports (w : W) : Type 0 where
      pub sends : (run answer (checked p reason m k) w).0 ≡ (run answer m w).0 ++ report ∷ []
      pub ends :
          Retries (answer report (run answer m w).2).0 (run answer (checked p reason m k) w).1

    -- If the step of a stage fails in a run, the stage sends the requests of the step and one
    -- more, the status with the failed step and its error, and ends the reconciliation, to be
    -- repeated after a minute; if the status cannot be written it fails with that error.
    pub checked-Reports : (w : W) → (run answer m w).1 ≡ failed x → Reports w
    unfolding checked
    checked-Reports w h =
        let (sent, outcome, last) = run-attempt-failed answer m x w h in
        let (all_sent, ended, left) =
          run->>= answer (attempt m) (checked_result p reason k) (err x) w outcome in
        let w' = (run answer m w).2 in
        let (reported, retried) = done-Retries w' in
        record {
          sends =
              all_sent
              ∙ ap
                  (λ (rs : List Request).
                    rs ++ (run answer (done p reason (some x)) (run answer (attempt m) w).2).0)
                  sent
              ∙ ap (λ (v : W). (run answer m w).0 ++ (run answer (done p reason (some x)) v).0) last
              ∙ ap (λ (rs : List Request). (run answer m w).0 ++ rs) reported;
          ends =
              subst (λ (o : Outcome (Option Requeue)). Retries (answer report w').0 o)
                (sym (ended ∙ ap (λ (v : W). (run answer (done p reason (some x)) v).1) last))
                retried;
        }

module _ {W A : Type 0} (answer : Environment W) where
  attempt-returned :
      (m : Prog A) (a : A) (w : W)
      → (run answer m w).1 ≡ returned a
      → ((run answer (attempt m) w).0 ≡ (run answer m w).0)
        × ((run answer (attempt m) w).1 ≡ returned (ok a))
        × ((run answer (attempt m) w).2 ≡ (run answer m w).2)
  unfolding run attempt
  attempt-returned (pure b) a w h =
      let e : b ≡ a = cc in (refl, ap (λ (c : A). returned (ok c)) e, refl)
  attempt-returned (fail y) a w h = absurd (cc)
  attempt-returned panic a w h = absurd (cc)
  attempt-returned (call r k) a w h =
      let (y, w') = answer r w in
      let (sent, outcome, last) = attempt-returned (k y) a w' h in
      (ap (λ (rs : List Request). r ∷ rs) sent, outcome, last)

  attempt-panicked :
      {B : Type 0} (m : Prog A) (f : Result A → Prog B) (w : W)
      → (run answer m w).1 ≡ panicked
      → ((run answer (attempt m >>= f) w).0 ≡ (run answer m w).0)
        × ((run answer (attempt m >>= f) w).1 ≡ panicked)
  unfolding run attempt ◌>>=◌
  attempt-panicked (pure b) f w h = absurd (cc)
  attempt-panicked (fail y) f w h = absurd (cc)
  attempt-panicked panic f w h = (refl, refl)
  attempt-panicked (call r k) f w h =
      let (y, w') = answer r w in
      let (sent, outcome) = attempt-panicked (k y) f w' h in
      (ap (λ (rs : List Request). r ∷ rs) sent, outcome)

module _ {W A : Type 0} (answer : Environment W) (p : Pattern) (reason : String) (m : Prog A)
    (k : A → Stage) where
  -- What a stage does after its step, by the outcome of the step.
  abbrev pub Follows : W → Outcome A → Type 0
  Follows w (returned a) =
      ((run answer (checked p reason m k) w).0
        ≡ (run answer m w).0 ++ (run answer (k a) (run answer m w).2).0)
      × ((run answer (checked p reason m k) w).1 ≡ (run answer (k a) (run answer m w).2).1)
  Follows w (failed x) = Reports answer p reason x m k w
  Follows w panicked =
      ((run answer (checked p reason m k) w).0 ≡ (run answer m w).0)
      × ((run answer (checked p reason m k) w).1 ≡ panicked)

  by_outcome : (w : W) (o : Outcome A) → (run answer m w).1 ≡ o → Follows w o
  unfolding checked
  by_outcome w (returned a) h =
      let (sent, outcome, last) = attempt-returned answer m a w h in
      let (all_sent, ended, left) =
        run->>= answer (attempt m) (checked_result p reason k) (ok a) w outcome in
      (
        all_sent
            ∙ ap (λ (rs : List Request). rs ++ (run answer (k a) (run answer (attempt m) w).2).0)
                sent
            ∙ ap (λ (v : W). (run answer m w).0 ++ (run answer (k a) v).0) last,
        ended ∙ ap (λ (v : W). (run answer (k a) v).1) last,
      )
  by_outcome w (failed x) h = checked-Reports answer p reason x m k w h
  by_outcome w panicked h = attempt-panicked answer m (checked_result p reason k) w h

  -- Whatever answers: if the step of a stage returns, the stage goes on with its value, from the state
  -- that the step leaves, and sends the requests of both; if the step fails, the stage sends the
  -- requests of the step and one more, the pattern's status with the failed step and the text of its
  -- error and all else as it was, and ends the reconciliation, to be repeated after a minute, or with
  -- the error of that status update; if the step panics, so does the stage.
  pub checked-Follows : (w : W) → Follows w (run answer m w).1
  checked-Follows w = by_outcome w (run answer m w).1 refl
