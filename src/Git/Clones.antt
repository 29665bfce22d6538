-- ===== src/Git/Clones.antt =====
-- What a successful checkout has cloned and checked out (internal/controller/checkout.go, checkout).
use patterns_operator.Prelude.{
  String, Bool, true, false, Option, ◌≡◌, refl, ◌⊎◌, inl, inr, ◌==◌, Bool-cases, eq_iff,
}
use patterns_operator.Errors.{Result, ok, err}
use patterns_operator.Git.Auth.{AuthLibrary, SecretMap, CloneOptions, get_clone_options}
use patterns_operator.Git.Repository.{
  GitOps, checkout_revision, clone_repo, checkout, clone_with, after_clone, cloned, checked_out,
  then_checkout,
}
use patterns_operator.Git.Checkouts.{CheckedOut, checkout_revision-CheckedOut, err-ok}

module _ {R : Type 0} (git : GitOps R) (lib : AuthLibrary) (url directory : String)
    (secret : SecretMap) where
  -- The repository was cloned with the options for the secret, and what was cloned has a head.
  pub record IsCloned : Type 0 where
    pub options : CloneOptions
    pub repo : R
    pub head : String
    pub had_options : get_clone_options lib url secret ≡ ok options
    pub was_cloned : git.clone_repository directory options ≡ ok repo
    pub has_head : git.head repo ≡ ok head

  cloned-IsCloned :
      (options : CloneOptions) (repo : R) (h : Result String) (o : Option R)
      → get_clone_options lib url secret ≡ ok options
      → git.clone_repository directory options ≡ ok repo
      → git.head repo ≡ h
      → cloned git repo h ≡ ok o
      → IsCloned
  cloned-IsCloned options repo (err x) o had was has e = absurd (err-ok x o e)
  cloned-IsCloned options repo (ok h) o had was has e = record {
    options = options;
    repo = repo;
    head = h;
    had_options = had;
    was_cloned = was;
    has_head = has;
  }

  after_clone-IsCloned :
      (options : CloneOptions) (r : Result R) (o : Option R)
      → get_clone_options lib url secret ≡ ok options
      → git.clone_repository directory options ≡ r
      → after_clone git r ≡ ok o
      → IsCloned
  after_clone-IsCloned options (err x) o had was e = absurd (err-ok x o e)
  after_clone-IsCloned options (ok repo) o had was e =
      cloned-IsCloned options repo (git.head repo) o had was refl e

  clone_with-IsCloned :
      (r : Result CloneOptions) (o : Option R)
      → get_clone_options lib url secret ≡ r
      → clone_with git directory r ≡ ok o
      → IsCloned
  clone_with-IsCloned (err x) o had e = absurd (err-ok x o e)
  clone_with-IsCloned (ok options) o had e =
      after_clone-IsCloned options (git.clone_repository directory options) o had refl e

  clone_repo-IsCloned :
      (there : Bool) (o : Option R)
      → clone_repo git lib there url directory secret ≡ ok o
      → (there ≡ true) ⊎ IsCloned
  unfolding clone_repo
  clone_repo-IsCloned true o e = inl refl
  clone_repo-IsCloned false o e =
      inr (clone_with-IsCloned (get_clone_options lib url secret) o refl e)

  module _ (target : String) where
    -- The target is empty, or its commit was checked out.
    abbrev pub IsAtTarget : Type 0
    IsAtTarget =
        (target ≡ "") ⊎ ((after : R) × CheckedOut git lib url directory target secret after)

    checked_out-CheckedOut :
        (r : Result R)
        → checkout_revision git lib url directory target secret ≡ r
        → (o : Option R) → checked_out git r ≡ ok o
        → (after : R) × CheckedOut git lib url directory target secret after
    checked_out-CheckedOut (ok after) p o e =
        (after, checkout_revision-CheckedOut git lib url directory target secret after p)
    checked_out-CheckedOut (err x) p o e = absurd (err-ok x o e)

    then_checkout-IsAtTarget :
        (r : Result (Option R)) (o : Option R)
        → then_checkout git lib url directory target secret r ≡ ok o
        → ((repo : Option R) × (r ≡ ok repo)) × IsAtTarget
    then_checkout-IsAtTarget (err x) o e = absurd (err-ok x o e)
    then_checkout-IsAtTarget (ok repo) o e = (
      (repo, refl),
      elim (Bool-cases (target == "")) [
        | inl b ↦ inl ((eq_iff target "").0 b)
        | inr b ↦ inr (checked_out-CheckedOut _ refl o (rw b at e))
      ],
    )

    -- If `checkout` succeeds, then the folder was there before or the repository was cloned with the
    -- options for the secret and has a head; and the target is empty or its commit was checked out as
    -- `CheckedOut` says.
    pub checkout-IsAtTarget :
        (there : Bool) (o : Option R)
        → checkout git lib there url directory target secret ≡ ok o
        → ((there ≡ true) ⊎ IsCloned) × IsAtTarget
    unfolding checkout
    checkout-IsAtTarget there o e =
        let ((repo, c), at_target) =
          then_checkout-IsAtTarget (clone_repo git lib there url directory secret) o e in
        (clone_repo-IsCloned there repo c, at_target)
