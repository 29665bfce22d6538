-- ===== src/Examples/Sources.antt =====
-- The theorems about git and about the reported events at concrete arguments.
use patterns_operator.Prelude.{
  ℕ, ◌+◌, String, true, false, Option, none, some, List, [], ◌∷◌, ◌≡◌, ◌≢◌, ◌↔◌, ◌⊎◌, refl, ◌==◌,
  arith,
}
use patterns_operator.Errors.{Err, ok, err, errorf}
use patterns_operator.Api.{Pattern}
use patterns_operator.Git.Auth.{
  AuthLibrary, basic_auth, get_fetch_options, get_clone_options, detect_git_auth_type,
}
use patterns_operator.Git.Repository.{
  GitOps, already_up_to_date, get_commit_from_target, get_hash_from_reference, checkout_revision,
  clone_repo, checkout,
}
use patterns_operator.Git.Resolves.{
  fetch_auth, clone_auth, fetch_auth-clone_auth, ResolvesTo, get_commit_from_target_iff,
}
use patterns_operator.Git.Checkouts.{checkout_revision-CheckedOut, CheckedOut}
use patterns_operator.Git.Clones.{IsCloned, IsAtTarget, checkout-IsAtTarget}
use patterns_operator.Analytics.{
  VpAnalytics, with_sent, has_bit, set_bit, retry_analytics, get_new_uuid, has_interval_passed,
  send_pattern_installation_info, send_pattern_end_event_info,
}
use patterns_operator.Analytics.Once.{
  IsQuiet, send_pattern_installation_info-once, send_pattern_end_event_info-spaced,
}
use patterns_operator.Checkout.{pre_validation}
use patterns_operator.Checkout.Validates.{pre_validation_iff, IsGitUrl, HasValuesFile}
use patterns_operator.Examples.{a_pattern, some_files}

abbrev an_auth_library : AuthLibrary
an_auth_library = record {
  new_public_keys = λ user key. ok (basic_auth user key);
  parse_int = λ s. ok s;
  new_installation = λ a i k. ok tt;
  installation_token = λ a i k u. ok "token";
}

abbrev a_secret : List (String × String)
a_secret = ("username", "me") ∷ ("password", "secret") ∷ []

fetch_auth-clone_auth_example :
    fetch_auth (get_fetch_options an_auth_library "https://example.com/hub" a_secret)
    ≡ clone_auth (get_clone_options an_auth_library "https://example.com/hub" a_secret)
fetch_auth-clone_auth_example =
    fetch_auth-clone_auth an_auth_library "https://example.com/hub" a_secret

-- A repository that counts its fetches and checkouts; the remote has the branch `main`.
abbrev counting : GitOps ℕ
counting = record {
  open_repository = λ d. ok 0;
  clone_repository = λ d o. ok 0;
  reference = λ r name. elim (name == "refs/remotes/origin/main") [
    | true ↦ ok (record { is_tag = false; hash = "abc" })
    | false ↦ err (errorf "no such reference")
  ];
  object = λ r h. err (errorf "no such object");
  new_hash = λ s. "000";
  head = λ r. ok "abc";
  worktree = λ r. ok tt;
  fetch = λ r o. (some already_up_to_date, 1 + r);
  check_out = λ r h. (none, 2 + r);
}

get_commit_from_target_iff_example :
    (get_commit_from_target counting 0 "main" ≡ ok "abc") ↔ ResolvesTo counting 0 "main" "abc"
get_commit_from_target_iff_example = get_commit_from_target_iff counting 0 "main" "abc"

main_checked_out :
    checkout_revision counting an_auth_library "https://example.com/hub" "/tmp" "main" a_secret
    ≡ ok 3
unfolding checkout_revision get_fetch_options detect_git_auth_type get_commit_from_target
    get_hash_from_reference
main_checked_out = refl

checkout_revision-CheckedOut_example :
    CheckedOut counting an_auth_library "https://example.com/hub" "/tmp" "main" a_secret 3
checkout_revision-CheckedOut_example =
    checkout_revision-CheckedOut counting an_auth_library "https://example.com/hub" "/tmp" "main"
      a_secret 3 main_checked_out

main_cloned :
    checkout counting an_auth_library false "https://example.com/hub" "/tmp" "main" a_secret
    ≡ ok (some 3)
unfolding checkout clone_repo checkout_revision get_fetch_options get_clone_options
    detect_git_auth_type get_commit_from_target get_hash_from_reference
main_cloned = refl

checkout-IsAtTarget_example :
    ((false ≡ true) ⊎ IsCloned counting an_auth_library "https://example.com/hub" "/tmp" a_secret)
    × IsAtTarget counting an_auth_library "https://example.com/hub" "/tmp" a_secret "main"
checkout-IsAtTarget_example =
    checkout-IsAtTarget counting an_auth_library "https://example.com/hub" "/tmp" a_secret "main"
      false (some 3) main_cloned

abbrev enqueued : ℕ → Option Err
enqueued i = none

abbrev a_client : VpAnalytics
a_client = record {
  api_key = "key";
  last_end_event = 0;
  sent_install_info = false;
  sent_start_event = false;
}

abbrev after_installation : VpAnalytics
after_installation = record a_client { sent_install_info = true }

installation_is_sent : send_pattern_installation_info "uuid" enqueued a_client a_pattern ≡ (
  after_installation,
  with_sent (get_new_uuid "uuid" a_pattern).1 (set_bit 0 0),
  some "identify",
)
unfolding send_pattern_installation_info retry_analytics get_new_uuid has_bit
installation_is_sent = refl

send_pattern_installation_info-once_example :
    IsQuiet after_installation a_pattern
      (send_pattern_installation_info "other" enqueued after_installation a_pattern)
    × IsQuiet a_client (with_sent (get_new_uuid "uuid" a_pattern).1 (set_bit 0 0)) (
        send_pattern_installation_info "other" enqueued a_client
          (with_sent (get_new_uuid "uuid" a_pattern).1 (set_bit 0 0)))
send_pattern_installation_info-once_example =
    send_pattern_installation_info-once "uuid" "other" enqueued enqueued a_client after_installation
      a_pattern (with_sent (get_new_uuid "uuid" a_pattern).1 (set_bit 0 0)) "identify"
      installation_is_sent a_pattern a_client

abbrev after_end : VpAnalytics
after_end = record a_client { last_end_event = 500 }

abbrev ended_pattern : Pattern
ended_pattern = with_sent (get_new_uuid "uuid" a_pattern).1 (set_bit 0 2)

end_is_sent :
    send_pattern_end_event_info "uuid" enqueued 500 a_client a_pattern
    ≡ (after_end, ended_pattern, some "Pattern completed")
unfolding send_pattern_end_event_info retry_analytics get_new_uuid has_bit has_interval_passed
end_is_sent = refl

abbrev after_refresh : VpAnalytics
after_refresh = record a_client { last_end_event = 900 }

refresh_is_sent : send_pattern_end_event_info "other" enqueued 900 a_client ended_pattern ≡ (
  after_refresh,
  with_sent
      (get_new_uuid "other" ended_pattern).1
      (set_bit (set_bit ended_pattern.status.analytics_sent 2) 3),
  some "Pattern refreshed",
)
unfolding send_pattern_end_event_info retry_analytics get_new_uuid has_bit set_bit
    has_interval_passed
refresh_is_sent = refl

abbrev refreshed_text : String
refreshed_text = "Pattern refreshed"

send_pattern_end_event_info-spaced_example :
    IsQuiet after_end a_pattern
      (send_pattern_end_event_info "other" enqueued 600 after_end a_pattern)
    × (refreshed_text ≡ "Pattern refreshed")
send_pattern_end_event_info-spaced_example =
    send_pattern_end_event_info-spaced "uuid" "other" enqueued enqueued 500 a_client after_end
      a_pattern ended_pattern "Pattern completed" end_is_sent 600 900 a_pattern
      (with_sent (get_new_uuid "other" ended_pattern).1
        (set_bit (set_bit ended_pattern.status.analytics_sent 2) 3))
      a_client after_refresh refreshed_text (omega arith) refresh_is_sent

pre_validation_iff_example : (pre_validation some_files a_pattern ≡ none) ↔ (
    ((a_pattern.spec.git_config.origin_repo ≡ "") ⊎ IsGitUrl a_pattern.spec.git_config.origin_repo)
    × ((a_pattern.spec.git_config.target_repo ≢ "")
        × IsGitUrl a_pattern.spec.git_config.target_repo)
    × HasValuesFile some_files a_pattern)
pre_validation_iff_example = pre_validation_iff some_files a_pattern
