-- ===== src/Git/Checkouts.antt =====
-- What a successful checkout has done (internal/controller/checkout.go, checkoutRevision).
use patterns_operator.Prelude.{String, Option, none, some, ◌≡◌, refl, sym, ◌≢◌}
use patterns_operator.Errors.{Err, Result, ok, err}
use patterns_operator.Git.Auth.{AuthLibrary, SecretMap, FetchOptions, get_fetch_options}
use patterns_operator.Git.Repository.{
  GitOps, GitError, already_up_to_date, git_error, get_commit_from_target, checkout_revision,
  opened, fetch_with, after_fetch, in_worktree, checkout_commit, after_checkout, reads_head,
}

-- No error, or the one that says there was nothing to do.
abbrev pub IsHarmless : Option GitError → Type 0
IsHarmless none = Unit
IsHarmless (some already_up_to_date) = Unit
IsHarmless (some (git_error x)) = ⊥

ok-injective : {A : Type 0} (a b : A) → ok a ≡ ok b → a ≡ b
ok-injective a b h = cc

pub err-ok : {A : Type 0} (x : Err) (a : A) → err x ≢ ok a
err-ok x a h = absurd (cc)

module _ {R : Type 0} (git : GitOps R) (lib : AuthLibrary) (url directory target : String)
    (secret : SecretMap) where
  -- The repository was opened and fetched, the revision resolved in what was fetched, and the commit
  -- checked out.
  pub record CheckedOut (after : R) : Type 0 where
    pub before : R
    pub options : FetchOptions
    pub hash : String
    pub was_opened : git.open_repository directory ≡ ok before
    pub had_options : get_fetch_options lib url secret ≡ ok options
    pub was_fetched : IsHarmless (git.fetch before options).0
    pub was_resolved : get_commit_from_target git (git.fetch before options).1 target ≡ ok hash
    pub was_checked_out : IsHarmless (git.check_out (git.fetch before options).1 hash).0
    pub is_after : after ≡ (git.check_out (git.fetch before options).1 hash).1

  reads_head-after :
      (repo after : R) (r : Result String) → reads_head git repo r ≡ ok after → after ≡ repo
  reads_head-after repo after (ok h) e = ok-injective after repo (sym e)
  reads_head-after repo after (err x) e = absurd (err-ok x after e)

  after_checkout-after :
      (after r : R) (c : Option GitError)
      → after_checkout git (c, r) ≡ ok after
      → IsHarmless c × (after ≡ r)
  after_checkout-after after r none e = (tt, reads_head-after r after (git.head r) e)
  after_checkout-after after r (some already_up_to_date) e =
      (tt, reads_head-after r after (git.head r) e)
  after_checkout-after after r (some (git_error x)) e = absurd (err-ok x after e)

  checkout_commit-after :
      (after r : R) (x : Result String)
      → checkout_commit git r x ≡ ok after
      → (h : String) × (x ≡ ok h)
        × IsHarmless (git.check_out r h).0
        × (after ≡ (git.check_out r h).1)
  checkout_commit-after after r (ok h) e =
      let (harmless, same) =
        after_checkout-after after (git.check_out r h).1 (git.check_out r h).0 e in
      (h, refl, harmless, same)
  checkout_commit-after after r (err x) e = absurd (err-ok x after e)

  in_worktree-after :
      (after r : R) (w : Result (Unit {0}))
      → in_worktree git r target w ≡ ok after
      → checkout_commit git r (get_commit_from_target git r target) ≡ ok after
  in_worktree-after after r (ok u) e = e
  in_worktree-after after r (err x) e = absurd (err-ok x after e)

  after_fetch-after :
      (after r : R) (c : Option GitError)
      → after_fetch git target (c, r) ≡ ok after
      → IsHarmless c × (checkout_commit git r (get_commit_from_target git r target) ≡ ok after)
  after_fetch-after after r none e = (tt, in_worktree-after after r (git.worktree r) e)
  after_fetch-after after r (some already_up_to_date) e =
      (tt, in_worktree-after after r (git.worktree r) e)
  after_fetch-after after r (some (git_error x)) e = absurd (err-ok x after e)

  fetch_with-after :
      (after before : R) (o : Result FetchOptions)
      → git.open_repository directory ≡ ok before
      → get_fetch_options lib url secret ≡ o
      → fetch_with git before target o ≡ ok after
      → CheckedOut after
  fetch_with-after after before (err x) opened had e = absurd (err-ok x after e)
  fetch_with-after after before (ok options) opened had e =
      let (fetched, k) =
        after_fetch-after after (git.fetch before options).1 (git.fetch before options).0 e in
      let (h, resolved, harmless, same) =
        checkout_commit-after after (git.fetch before options).1 _ k in
      record {
        before = before;
        options = options;
        hash = h;
        was_opened = opened;
        had_options = had;
        was_fetched = fetched;
        was_resolved = resolved;
        was_checked_out = harmless;
        is_after = same;
      }

  opened-after :
      (after : R) (o : Result R)
      → git.open_repository directory ≡ o
      → opened git lib url secret target o ≡ ok after
      → CheckedOut after
  opened-after after (ok before) p e =
      fetch_with-after after before (get_fetch_options lib url secret) p refl e
  opened-after after (err x) p e = absurd (err-ok x after e)

  -- If `checkoutRevision` succeeds, then the repository of the directory was opened and fetched with the
  -- options for the secret, the target was resolved in the repository as fetched, and the commit that
  -- it stands for was checked out; neither the fetch nor the checkout failed, except for saying that
  -- there was nothing to do.
  pub checkout_revision-CheckedOut :
      (after : R)
      → checkout_revision git lib url directory target secret ≡ ok after
      → CheckedOut after
  unfolding checkout_revision
  checkout_revision-CheckedOut after e = opened-after after (git.open_repository directory) refl e
