-- ===== src/Finalize/Phases.antt =====
-- Why a deletion comes to an end (internal/controller/pattern_controller.go, finalizeObject).
use patterns_operator.Prelude.{
  ℕ, ◌+◌, ◌≤◌, List, [], ◌∷◌, ◌≡◌, inl, inr, Any, All, ap, subst, arith,
}
use patterns_operator.Api.{
  Pattern, PatternStatus, PatternDeletionPhase, initialize_deletion, delete_spoke_child_apps,
  delete_spoke, delete_hub_child_apps, delete_hub, other,
}
use patterns_operator.Library.{Library}
use patterns_operator.Defaults.{Env}
use patterns_operator.Cluster.{Request}
use patterns_operator.Cluster.Runs.{Environment, run}
use patterns_operator.Finalize.{finalize_object}
use patterns_operator.Finalize.Safety.{
  Edge, spokes_first, hub_only, spoke_children_gone, spoke_gone, hub_children_gone, Allowed,
}
use patterns_operator.Finalize.Requests.{finalize_object-requests}

-- How many phases may still follow.
abbrev pub rank : PatternDeletionPhase → ℕ
rank initialize_deletion = 4
rank delete_spoke_child_apps = 3
rank delete_spoke = 2
rank delete_hub_child_apps = 1
rank delete_hub = 0
rank (other s) = 0

rank-Edge : (p q : PatternDeletionPhase) → Edge p q → 1 + rank q ≤ rank p
rank-Edge _ _ spokes_first = omega arith
rank-Edge _ _ hub_only = omega arith
rank-Edge _ _ spoke_children_gone = omega arith
rank-Edge _ _ spoke_gone = omega arith
rank-Edge _ _ hub_children_gone = omega arith

-- One of the requests is the write of that status.
abbrev pub Writes : Pattern → List Request → Type 0
Writes q sent = Any (λ r. r ≡ Request.update_pattern_status q) sent

Writes-Edge :
    (p q : Pattern) (sent : List Request)
    → All (Allowed p.status.deletion_phase) sent
    → Writes q sent
    → Edge p.status.deletion_phase q.status.deletion_phase
Writes-Edge p q (r ∷ rs) allowed (inl e) = subst (Allowed p.status.deletion_phase) e allowed.0
Writes-Edge p q (r ∷ rs) allowed (inr w) = Writes-Edge p q rs allowed.1 w
Writes-Edge p q [] allowed w = absurd w

module _ (W : Type 0) (lib : Library) (e : Env) where
  -- Passes in a row, each in an environment of its own, and each over a pattern with the status that
  -- the pass before has written; of the pattern's other fields the next pass may read anything.
  pub data Passes : Pattern → ℕ → Type 1 where
    stop : (p : Pattern) → Passes p 0
    pass :
        (p q next : Pattern) (n : ℕ) (answer : Environment W) (w : W)
        → Writes q (run answer (finalize_object lib e p) w).0
        → next.status ≡ q.status
        → Passes next n
        → Passes p (1 + n)

  -- A deletion cannot go on for ever, whatever answers the requests: of passes of `finalizeObject` in a
  -- row that each write the status that the pattern of the next one has, there are at most as many as phases
  -- follow the first one, four after InitializeDeletion.
  pub Passes-rank : (p : Pattern) (n : ℕ) → Passes p n → n ≤ rank p.status.deletion_phase
  Passes-rank _ _ (stop p) = omega arith
  Passes-rank _ _ (pass p q next n answer w h stored rest) = omega (
    arith,
    Passes-rank next n rest,
    ap (λ (s : PatternStatus). rank s.deletion_phase) stored,
    rank-Edge p.status.deletion_phase q.status.deletion_phase
        (Writes-Edge p q _ (finalize_object-requests lib e answer p w) h),
  )
