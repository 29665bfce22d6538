-- ===== src/Reconcile/Finalizer.antt =====
-- The finalizer comes first (internal/controller/pattern_controller.go, Reconcile).
use patterns_operator.Prelude.{
  ℕ, String, false, Option, none, some, List, [], ◌∷◌, ◌++◌, ◌≡◌, refl, contains, All, Bool-cases,
  inl, inr,
}
use patterns_operator.Errors.{Err, Result, ok, err}
use patterns_operator.Api.{Pattern, is_being_deleted, pattern_finalizer}
use patterns_operator.Library.{Library}
use patterns_operator.Defaults.{Env}
use patterns_operator.Config.{Config}
use patterns_operator.Services.{Services}
use patterns_operator.Cluster.{Request, pure, ask, ◌>>=◌}
use patterns_operator.Cluster.Runs.{Environment, Always, AnyReply, Always-run, run}
use patterns_operator.Finalize.Safety.{AnyOutcome}
use patterns_operator.Stages.{
  done, action_performed, on_reconcile_error_with_requeue, after_status, requeue_of, with_step,
}
use patterns_operator.Reconcile.{by_deletion, add_finalizer, added, with_finalizer}

-- The write of a status that names the step.
abbrev pub NamesStep : Request → Type 0
NamesStep (Request.update_pattern_status q) = q.status.last_step ≡ "updated finalizer"
NamesStep _ = ⊥

-- The requests begin with the write of the pattern with the finalizer at the end of the list, and only
-- statuses follow.
abbrev pub AddsFirst : Pattern → List Request → Type 0
AddsFirst p [] = ⊥
AddsFirst p (r ∷ rs) =
    (r
      ≡ Request.update_pattern
          (record p { finalizers = p.finalizers ++ "foregroundDeletePattern" ∷ [] }))
    × All NamesStep rs

requeue_of-NamesStep :
    (failure : Option Err) (duration : Option ℕ)
    → Always AnyReply NamesStep AnyOutcome
        (requeue_of failure duration >>= λ result. pure (some result))
unfolding ◌>>=◌
requeue_of-NamesStep failure (some d) = tt
requeue_of-NamesStep none none = tt
requeue_of-NamesStep (some x) none = tt

on_reconcile-NamesStep :
    (q : Pattern) (failure : Option Err) (duration : Option ℕ)
    → Always AnyReply NamesStep AnyOutcome (
        on_reconcile_error_with_requeue q "updated finalizer" failure duration >>= λ result.
        pure (some result))
unfolding on_reconcile_error_with_requeue ask ◌>>=◌
on_reconcile-NamesStep q failure duration = (refl, after)
  where
    after :
        (u : Result (Unit {0}))
        → AnyReply (Request.update_pattern_status (with_step q "updated finalizer" failure)) u
        → Always AnyReply NamesStep AnyOutcome
            (after_status failure duration u >>= λ result. pure (some result))
    after (ok a) g = requeue_of-NamesStep failure duration
    after (err y) g = tt

done-NamesStep :
    (q : Pattern) (failure : Option Err)
    → Always AnyReply NamesStep AnyOutcome (done q "updated finalizer" failure)
unfolding done action_performed
done-NamesStep q (some x) = on_reconcile-NamesStep q (some x) (some 60)
done-NamesStep q none = elim (Bool-cases (is_being_deleted q)) [
  | inl d ↦ rw d (on_reconcile-NamesStep q none (some 120))
  | inr d ↦ rw d (on_reconcile-NamesStep q none none)
]

module _ (svc : Services) (lib : Library) (e : Env) (icon : String) (now : ℕ) where
  added-NamesStep :
      (p : Pattern) (r : Result Pattern)
      → Always AnyReply NamesStep AnyOutcome (added svc lib e icon now p r)
  added-NamesStep p (ok q) = done-NamesStep q none
  added-NamesStep p (err x) = done-NamesStep (with_finalizer p) (some x)

  -- Whatever answers: over a pattern that is not being deleted and lacks the finalizer, the part of a
  -- pass after the catalog first writes the pattern with the finalizer at the end of its list and
  -- nothing else changed, and after that sends at most statuses that name the step "updated finalizer".
  -- Nothing is deployed.
  pub by_deletion-AddsFirst :
      {W : Type 0} (answer : Environment W) (p : Pattern) (config : Config) (w : W)
      → is_being_deleted p ≡ false
      → contains p.finalizers pattern_finalizer ≡ false
      → AddsFirst p (run answer (by_deletion svc lib e icon now p config) w).0
  unfolding by_deletion add_finalizer run ask ◌>>=◌
  by_deletion-AddsFirst answer p config w alive lacking =
      let (r, w') = answer (Request.update_pattern (with_finalizer p)) w in
      rw (alive, lacking)
        (
          refl,
          (Always-run answer AnyReply (λ r w. tt) NamesStep AnyOutcome _ (added-NamesStep p r)
              w').0,
        )
