-- ===== src/Finalize/Gives.antt =====
-- The steps of a deletion pass that return or send their update
-- (internal/controller/pattern_controller.go, finalizeObject).
use patterns_operator.Prelude.{
  String, Bool, true, false, List, [], ◌≡◌, refl, inl, inr, Bool-cases, ◌^◌,
}
use patterns_operator.Errors.{Result, ok, err, wrap}
use patterns_operator.Api.{Pattern, PatternDeletionPhase}
use patterns_operator.Library.{Library, Url}
use patterns_operator.Defaults.{Env, ActiveArgo}
use patterns_operator.Argo.{Application}
use patterns_operator.Argo.Compare.{compare_application}
use patterns_operator.Applications.{
  update_application, sync_application, get_child_applications, children,
}
use patterns_operator.Spokes.{
  check_spoke_applications_gone, get_token, search_at, read_response, search_url,
}
use patterns_operator.Cluster.{SearchResponse, Prog, pure, fail, ◌>>=◌, ask}
use patterns_operator.Finalize.{require_unchanged, sync_all, update_deletion_phase}
use patterns_operator.Finalize.Safety.{Edge}
use patterns_operator.Finalize.Drained.{
  NoneFound, Answered, NoChildren, IsRead, children-NoneTracked, IsProgress, Gives, Sends, Anything,
  Sends-bind, Sends-after, Gives-bind, Gives-call, Gives-pure, Gives-if,
}

abbrev synced : Result (Unit {0}) → Prog (Unit {0})
synced r = elim r [
  | ok u ↦ pure u
  | err x ↦ fail (wrap ("failed to sync application: " ^ x.message) x)
]

module _ (lib : Library) (e : Env) (active : ActiveArgo) (target app : Application) where
  -- The update comes first where the Application is not as wanted.
  pub require_unchanged-Sends :
      (phase : PatternDeletionPhase) (ns purpose : String)
      → compare_application app target ≡ false
      → Sends (IsProgress app phase) (require_unchanged target app ns purpose)
  unfolding require_unchanged update_application ◌>>=◌ ask compare_application
  require_unchanged-Sends phase ns purpose h = rw h (record { paths = inl h })

  pub require_unchanged-Gives :
      (ns purpose : String)
      → compare_application app target ≡ true
      → Gives Anything (require_unchanged target app ns purpose)
  unfolding require_unchanged update_application ◌>>=◌
  require_unchanged-Gives ns purpose h = rw h (record { paths = tt })

  pub sync_application-Gives : (a : Application) (b : Bool) → Gives Anything (sync_application a b)
  unfolding sync_application ◌>>=◌ ask
  sync_application-Gives a b =
      Gives-if Anything _ _ _ (Gives-pure Anything tt tt) (Gives-call Anything _ _ answered)
    where
      answered : (r : Result (Unit {0})) → Answered r → Gives Anything (synced r)
      answered (ok u) h = Gives-pure Anything u tt
      answered (err x) h = absurd h

  pub get_child_applications-Gives : Gives (λ l. l ≡ []) (get_child_applications app)
  unfolding get_child_applications ◌>>=◌ ask
  get_child_applications-Gives = Gives-call (λ l. l ≡ []) _ _ listed
    where
      listed :
          (r : Result (List Application))
          → NoChildren r
          → Gives
              (λ l. l ≡ [])
              (elim r as (λ x. Prog (List Application)) [
                | ok apps ↦ pure (children app.name apps)
                | err x ↦ fail (wrap ("failed to list child applications: " ^ x.message) x)
              ])
      listed (ok apps) h = Gives-pure (λ l. l ≡ []) _ (children-NoneTracked app.name apps h)
      listed (err x) h = absurd h

  pub get_token-Gives : Gives Anything (get_token e)
  unfolding get_token ◌>>=◌ ask
  get_token-Gives =
      Gives-if Anything _ _ _ (Gives-call Anything _ _ read)
        (Gives-pure Anything e.search_api_token tt)
    where
      read :
          (r : Result String)
          → IsRead r
          → Gives Anything (elim r as (λ x. Prog String) [
            | ok t ↦ pure t
            | err x ↦ fail (wrap ("failed to read serviceaccount token: " ^ x.message) x)
          ])
      read (ok t) h = Gives-pure Anything t tt
      read (err x) h = absurd h

  pub check_spoke_applications_gone-Gives :
      (b : Bool) (u : Url)
      → lib.parse_url (search_url e) ≡ ok u
      → u.scheme ≡ "https"
      → Gives (λ gone. gone ≡ true) (check_spoke_applications_gone lib e active b)
  unfolding check_spoke_applications_gone search_at
  check_spoke_applications_gone-Gives b u p https =
      rw (p, https)
        (Gives-bind Anything (λ gone. gone ≡ true) (get_token e) _ get_token-Gives
          (λ token _. Gives-call (λ gone. gone ≡ true) _ _ empty))
    where
      empty :
          (r : Result SearchResponse) → NoneFound r → Gives (λ gone. gone ≡ true) (read_response r)
      empty (err x) h = absurd h
      empty (ok r) h = rw (h.0, h.1) (Gives-pure (λ gone. gone ≡ true) true refl)

  pub sync_all-Gives : (b : Bool) → Gives Anything (sync_all [] b)
  unfolding sync_all
  sync_all-Gives b = Gives-pure Anything tt tt

  -- The write of the next phase is the progress.
  pub update_deletion_phase-Sends :
      (p : Pattern) (phase next : PatternDeletionPhase)
      → Edge phase next
      → Sends (IsProgress app phase) (update_deletion_phase p next)
  unfolding update_deletion_phase ◌>>=◌ ask
  update_deletion_phase-Sends p phase next edge = record { paths = inl edge }

  -- The update of the Application, or what comes after it.
  pub after_update :
      (phase : PatternDeletionPhase) (ns purpose : String) (f : Unit {0} → Prog (Unit {0}))
      → ((u : Unit {0}) → Sends (IsProgress app phase) (f u))
      → Sends (IsProgress app phase) (require_unchanged target app ns purpose >>= f)
  after_update phase ns purpose f h = elim (Bool-cases (compare_application app target)) [
    | inl same ↦ Sends-after _ Anything _ f (require_unchanged-Gives ns purpose same) (λ u _. h u)
    | inr differs ↦ Sends-bind _ _ f (require_unchanged-Sends phase ns purpose differs)
  ]
