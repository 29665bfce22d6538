-- ===== src/Finalize/Progress.antt =====
-- When a deletion pass gets on (internal/controller/pattern_controller.go, finalizeObject).
use patterns_operator.Prelude.{
  String, Bool, true, false, [], ◌≡◌, ◌≢◌, refl, inl, inr, Any, Bool-cases, if◌then◌else◌,
}
use patterns_operator.Errors.{ok}
use patterns_operator.Api.{
  Pattern, PatternDeletionPhase, initialize_deletion, delete_spoke_child_apps, delete_spoke,
  delete_hub_child_apps, delete_hub, other,
}
use patterns_operator.Library.{Library, Url}
use patterns_operator.Defaults.{Env, ActiveArgo}
use patterns_operator.Argo.{Application}
use patterns_operator.Argo.Compare.{compare_application}
use patterns_operator.Applications.{remove_application}
use patterns_operator.Acm.{have_acm_hub}
use patterns_operator.Spokes.{check_spoke_applications_gone, search_url}
use patterns_operator.Cluster.{◌>>=◌, ask}
use patterns_operator.Cluster.Runs.{Environment, KeepsTo, Eventually-run, run}
use patterns_operator.Finalize.{
  run_phase, delete_spoke_apps, delete_hub_apps, wrapping, update_deletion_phase,
}
use patterns_operator.Finalize.Safety.{
  spokes_first, hub_only, spoke_children_gone, spoke_gone, hub_children_gone,
}
use patterns_operator.Finalize.Drained.{
  Drained, IsProgress, Gives, Sends, Anything, Sends-bind, Sends-after, Gives-bind, Gives-call,
  Gives-pure, Gives-wrapping,
}
use patterns_operator.Finalize.Gives.{
  require_unchanged-Sends, require_unchanged-Gives, sync_application-Gives,
  get_child_applications-Gives, check_spoke_applications_gone-Gives, sync_all-Gives,
  update_deletion_phase-Sends, after_update,
}

have_acm_hub-Gives : Gives Anything have_acm_hub
unfolding have_acm_hub ◌>>=◌ ask
have_acm_hub-Gives = Gives-call Anything _ _ (λ x _. Gives-pure Anything _ tt)

module _ (lib : Library) (e : Env) (active : ActiveArgo) (target app : Application) (u : Url)
    (parsed : lib.parse_url (search_url e) ≡ ok u) (https : u.scheme ≡ "https") where
  gone-Gives :
      (text : String) (b : Bool)
      → Gives (λ gone. gone ≡ true) (wrapping text (check_spoke_applications_gone lib e active b))
  gone-Gives text b =
      Gives-wrapping (λ gone. gone ≡ true) text _
        (check_spoke_applications_gone-Gives lib e active target app b u parsed https)

  delete_spoke_apps-Sends :
      compare_application app target ≡ false
      → Sends (IsProgress app delete_spoke_child_apps) (delete_spoke_apps lib e active target app)
  unfolding delete_spoke_apps
  delete_spoke_apps-Sends differs =
      Sends-bind _ _ _ (require_unchanged-Sends lib e active target app _ _ _ differs)

  delete_spoke_apps-Gives :
      compare_application app target ≡ true
      → Gives Anything (delete_spoke_apps lib e active target app)
  unfolding delete_spoke_apps
  delete_spoke_apps-Gives same =
      Gives-bind Anything Anything _ _ (require_unchanged-Gives lib e active target app _ _ same)
        (λ _ _.
          Gives-bind Anything Anything _ _
            (sync_application-Gives lib e active target app app false)
            (λ _ _.
              Gives-bind (λ l. l ≡ []) Anything _ _
                (get_child_applications-Gives lib e active target app)
                (λ apps none_left. rw none_left (
                  Gives-bind Anything Anything _ _ (sync_all-Gives lib e active target app false)
                    (λ _ _.
                      Gives-bind (λ gone. gone ≡ true) Anything _ _ (gone-Gives _ false)
                        (λ gone yes. rw yes (Gives-pure Anything tt tt)))))))

  delete_hub_apps-Gives : Gives Anything (delete_hub_apps lib e active target app)
  unfolding delete_hub_apps
  delete_hub_apps-Gives =
      Gives-bind (λ l. l ≡ []) Anything _ _
        (Gives-wrapping (λ l. l ≡ []) _ _ (get_child_applications-Gives lib e active target app))
        (λ apps none_left. rw none_left (Gives-pure Anything tt tt))

  remove_application-Sends :
      (name ns : String) → Sends (IsProgress app delete_hub) (remove_application name ns)
  unfolding remove_application ◌>>=◌ ask
  remove_application-Sends name ns = record { paths = inl refl }

  run_phase-Sends :
      (q : Pattern) (phase : PatternDeletionPhase)
      → ((s : String) → phase ≢ other s)
      → Sends (IsProgress app phase) (run_phase lib e active target app q phase)
  unfolding run_phase
  run_phase-Sends q initialize_deletion known =
      Sends-after _ Anything _ _ have_acm_hub-Gives (λ hub _. Sends-bind _ _ _ (first_phase hub))
    where
      first_phase :
          (hub : Bool)
          → Sends (IsProgress app initialize_deletion) (
              update_deletion_phase q
                (if hub then delete_spoke_child_apps else delete_hub_child_apps))
      first_phase true = update_deletion_phase-Sends lib e active target app q _ _ spokes_first
      first_phase false = update_deletion_phase-Sends lib e active target app q _ _ hub_only
  run_phase-Sends q delete_spoke_child_apps known =
      elim (Bool-cases (compare_application app target)) [
        | inl same ↦ Sends-after _ Anything _ _ (delete_spoke_apps-Gives same) (λ _ _.
            Sends-bind _ _ _
              (update_deletion_phase-Sends lib e active target app q _ _ spoke_children_gone))
        | inr differs ↦ Sends-bind _ _ _ (delete_spoke_apps-Sends differs)
      ]
  run_phase-Sends q delete_spoke known = after_update lib e active target app _ _ _ _ (λ _.
      Sends-after _ Anything _ _ (sync_application-Gives lib e active target app app false) (λ _ _.
        Sends-after _ (λ l. l ≡ []) _ _ (get_child_applications-Gives lib e active target app)
          (λ apps none_left. rw none_left (
            Sends-after _ Anything _ _ (sync_all-Gives lib e active target app true) (λ _ _.
              Sends-after _ (λ gone. gone ≡ true) _ _ (gone-Gives _ true)
                (λ _ _.
                  Sends-bind _ _ _
                    (update_deletion_phase-Sends lib e active target app q _ _ spoke_gone)))))))
  run_phase-Sends q delete_hub_child_apps known =
      Sends-after _ Anything _ _ delete_hub_apps-Gives (λ _ _.
        Sends-bind _ _ _
          (update_deletion_phase-Sends lib e active target app q _ _ hub_children_gone))
  run_phase-Sends q delete_hub known = Sends-bind _ _ _ (remove_application-Sends _ _)
  run_phase-Sends q (other s) known = absurd (known s refl)

  -- If the search API URL is an https URL and the environment keeps to `Drained`: a pass over an owned
  -- Application in one of the five phases changes the Application's spec where it is not as wanted,
  -- takes the phase along an edge of the phase diagram, or in DeleteHub deletes the Application.
  pub run_phase-progress :
      {W : Type 0} (answer : Environment W) (q : Pattern) (phase : PatternDeletionPhase) (w : W)
      → KeepsTo Drained answer
      → ((s : String) → phase ≢ other s)
      → Any (IsProgress app phase) (run answer (run_phase lib e active target app q phase) w).0
  run_phase-progress answer q phase w keeps known =
      Eventually-run answer Drained keeps (IsProgress app phase) _
        (run_phase-Sends q phase known).paths w
