-- ===== src/Reconcile/Deletion.antt =====
-- What a pass over a pattern that is being deleted leaves of the finalizer
-- (internal/controller/pattern_controller.go, Reconcile).
use patterns_operator.Prelude.{ℕ, String, true, Option, some, ◌≡◌, refl}
use patterns_operator.Errors.{Result, ok, err}
use patterns_operator.Api.{Pattern, is_being_deleted, PatternDeletionPhase}
use patterns_operator.Library.{Library}
use patterns_operator.Defaults.{Env}
use patterns_operator.Config.{Config}
use patterns_operator.Services.{Services}
use patterns_operator.Cluster.{Request, pure, ask, ◌>>=◌}
use patterns_operator.Cluster.Runs.{
  Outcome, returned, failed, panicked, Environment, KeepsTo, Always, AnyReply, AnyRequest,
  Always-bind, Always-attempt, Always-map, Always-join, Always-rely, Always-run, Rely, run,
}
use patterns_operator.Finalize.{wants_pruning}
use patterns_operator.Finalize.Safety.{Allowed, AnyOutcome}
use patterns_operator.Finalize.Requests.{finalize_object-Safe}
use patterns_operator.Finalize.Kept.{NotReturned, IsEarly, Found, finalize_object-Ends}
use patterns_operator.Stages.{
  Requeue, done, action_performed, on_reconcile_error_with_requeue, after_status, with_step,
}
use patterns_operator.Reconcile.{reconcile_deleted, by_deletion, finalized}
use patterns_operator.Prelude.{All}

-- The pattern's metadata and spec are not written; its status may be.
abbrev pub KeepsPattern : Request → Type 0
KeepsPattern (Request.update_pattern p) = ⊥
KeepsPattern _ = Unit

Allowed-KeepsPattern :
    (phase : PatternDeletionPhase) (r : Request) → Allowed phase r → KeepsPattern r
Allowed-KeepsPattern phase (Request.update_pattern p) h = h
Allowed-KeepsPattern phase _ h = tt

-- The pass has not ended the deletion: it fails, panics, or asks to be repeated after a minute.
abbrev pub IsRetried : Outcome (Option Requeue) → Type 0
IsRetried (returned r) = r ≡ some (some 60)
IsRetried (failed x) = Unit
IsRetried panicked = Unit

abbrev IsRefused : Outcome (Result (Unit {0})) → Type 0
IsRefused (returned (ok a)) = ⊥
IsRefused (returned (err x)) = Unit
IsRefused (failed x) = Unit
IsRefused panicked = Unit

module _ (G : Rely) where
  finalized-IsRetried :
      (svc : Services) (lib : Library) (e : Env) (icon : String) (now : ℕ) (p : Pattern)
      (r : Result (Unit {0}))
      → IsRefused (returned r)
      → Always G KeepsPattern IsRetried (finalized svc lib e icon now p r)
  unfolding done action_performed on_reconcile_error_with_requeue ask ◌>>=◌
  finalized-IsRetried svc lib e icon now p (ok a) h = absurd h
  finalized-IsRetried svc lib e icon now p (err x) h = (tt, after)
    where
      after :
          (u : Result (Unit {0}))
          → G (Request.update_pattern_status (with_step p "finalize" (some x))) u
          → Always G KeepsPattern IsRetried
              (after_status (some x) (some 60) u >>= λ result. pure (some result))
      after (ok a) g = refl
      after (err y) g = tt

module _ (lib : Library) (e : Env) where
  reconcile_deleted-IsRetried :
      (svc : Services) (icon : String) (now : ℕ) (p : Pattern)
      → wants_pruning p ≡ true
      → IsEarly p.status.deletion_phase
      → Always (Found lib p) KeepsPattern IsRetried (reconcile_deleted svc lib e icon now p)
  unfolding reconcile_deleted
  reconcile_deleted-IsRetried svc icon now p prune early =
      Always-bind (Found lib p) KeepsPattern IsRefused IsRetried _ _
        (Always-attempt (Found lib p) KeepsPattern NotReturned IsRefused _
          (Always-join (Found lib p) KeepsPattern AnyRequest AnyOutcome NotReturned _
            (Always-map (Found lib p) (Allowed p.status.deletion_phase) KeepsPattern AnyOutcome
              AnyOutcome _ (Allowed-KeepsPattern p.status.deletion_phase) (λ o h. tt)
              (Always-rely (Found lib p) AnyReply (Allowed p.status.deletion_phase) AnyOutcome _
                (λ r x g. tt) (finalize_object-Safe lib e p).paths))
            (finalize_object-Ends lib e p prune early))
          (λ a h. h) (λ x h. tt) (λ h. tt))
        ((λ x h. tt), λ h. tt) (finalized-IsRetried (Found lib p) svc lib e icon now p)

  -- In an environment where the cluster answers about itself, and every read of an Application gives
  -- one that carries the owner references which SetOwnerReference gives, for this pattern, to an
  -- Application without any: the part of a pass after the catalog, over a pattern that is being deleted,
  -- asks for pruning and is in one of the phases before DeleteHub, never writes the pattern, so that its
  -- finalizer stays, and ends with a failure, a panic or a request to be repeated after a minute.
  pub by_deletion-IsRetried :
      {W : Type 0} (svc : Services) (icon : String) (now : ℕ) (answer : Environment W) (p : Pattern)
      (config : Config) (w : W)
      → KeepsTo (Found lib p) answer
      → is_being_deleted p ≡ true
      → wants_pruning p ≡ true
      → IsEarly p.status.deletion_phase
      → All KeepsPattern (run answer (by_deletion svc lib e icon now p config) w).0
        × IsRetried (run answer (by_deletion svc lib e icon now p config) w).1
  unfolding by_deletion
  by_deletion-IsRetried svc icon now answer p config w keeps deleted prune early = rw deleted (
      Always-run answer (Found lib p) keeps KeepsPattern IsRetried _
        (reconcile_deleted-IsRetried svc icon now p prune early) w)
