-- ===== src/Git/Resolves.antt =====
-- How a revision is resolved, and that fetch and clone authenticate alike
-- (internal/controller/checkout.go).
use patterns_operator.Prelude.{
  String, true, false, ◌⊎◌, ◌↔◌, List, [], ◌∷◌, ◌≡◌, ◌≢◌, refl, ap, sym, ◌∙◌, ◌==◌, ◌^◌, Bool-cases,
  inl, inr, eq_iff,
}
use patterns_operator.Errors.{Err, Result, ok, err, errorf, Result-cases}
use patterns_operator.Git.Auth.{
  AuthLibrary, SecretMap, Auth, FetchOptions, CloneOptions, detect_git_auth_type, get_fetch_options,
  get_clone_options, with_fetch_auth, with_clone_auth, fetch_by, clone_by, GitAuthenticationBackend,
  git_auth_none, git_auth_password, git_auth_ssh, git_auth_github_app, get_ssh_public_key,
  get_github_app_auth,
}
use patterns_operator.Git.Repository.{
  GitOps, GitObject, tag_of_commit, tag_of_other, commit, other_object, Reference, hash_of_result,
  hash_of_reference, get_hash_from_reference, get_commit_from_target, from_hash, or_next, head_hash,
}

abbrev pub fetch_auth : Result FetchOptions → Result Auth
fetch_auth (ok o) = ok o.auth
fetch_auth (err x) = err x

abbrev pub clone_auth : Result CloneOptions → Result Auth
clone_auth (ok o) = ok o.auth
clone_auth (err x) = err x

fetch_auth-with : (o : FetchOptions) (a : Result Auth) → fetch_auth (with_fetch_auth o a) ≡ a
fetch_auth-with o (ok a) = refl
fetch_auth-with o (err x) = refl

clone_auth-with : (o : CloneOptions) (a : Result Auth) → clone_auth (with_clone_auth o a) ≡ a
clone_auth-with o (ok a) = refl
clone_auth-with o (err x) = refl

module _ (lib : AuthLibrary) (url : String) (secret : SecretMap) where
  by_type :
      (o : FetchOptions) (c : CloneOptions)
      → o.auth ≡ c.auth
      → (t : GitAuthenticationBackend)
      → fetch_auth (fetch_by lib url secret o t) ≡ clone_auth (clone_by lib url secret c t)
  by_type o c e git_auth_none = ap (λ a. ok a) e
  by_type o c e git_auth_password = refl
  by_type o c e git_auth_ssh =
      fetch_auth-with o (get_ssh_public_key lib url secret)
      ∙ sym (clone_auth-with c (get_ssh_public_key lib url secret))
  by_type o c e git_auth_github_app =
      fetch_auth-with o (get_github_app_auth lib secret)
      ∙ sym (clone_auth-with c (get_github_app_auth lib secret))

  -- For one URL and secret, fetching and cloning authenticate in the same way, or fail with the same
  -- error.
  pub fetch_auth-clone_auth :
      fetch_auth (get_fetch_options lib url secret) ≡ clone_auth (get_clone_options lib url secret)
  unfolding get_fetch_options get_clone_options
  fetch_auth-clone_auth = by_type _ _ refl (detect_git_auth_type secret)

-- The commit that an object stands for.
abbrev pub Peels : Result GitObject → String → Type 0
Peels (ok (tag_of_commit target)) h = target ≡ h
Peels (ok (commit hash)) h = hash ≡ h
Peels _ h = ⊥

module _ {R : Type 0} (git : GitOps R) (repo : R) where
  -- A reference that is a tag stands for the commit of the tag, another one for its hash.
  abbrev pub Refers : Result Reference → String → Type 0
  Refers (err x) h = ⊥
  Refers (ok b) h =
      ((b.is_tag ≡ false) × (b.hash ≡ h)) ⊎ ((b.is_tag ≡ true) × Peels (git.object repo b.hash) h)

  abbrev pub RefersTo : String → String → Type 0
  RefersTo name h = Refers (git.reference repo name) h

  -- The first of the references that stands for a commit.
  abbrev pub FirstRefersTo : List String → String → Type 0
  FirstRefersTo [] h = ⊥
  FirstRefersTo (r ∷ rs) h = RefersTo r h ⊎ (((x : String) → ¬ RefersTo r x) × FirstRefersTo rs h)

  abbrev pub IsObject : Result GitObject → Type 0
  IsObject (ok o) = Unit
  IsObject (err x) = ⊥

  abbrev pub candidates : String → List String
  candidates name =
      ("refs/remotes/origin/" ^ name)
      ∷ ("refs/heads/" ^ name)
      ∷ ("refs/tags/" ^ name)
      ∷ ("refs/remotes/" ^ name ^ "/HEAD")
      ∷ []

  -- What a named revision resolves to, by the object of that hash: that object, of whatever type; or
  -- if there is none the head for HEAD, and for another name the branch of the remote, the local
  -- branch, the tag, and the head of the remote of that name, in this order.
  abbrev pub NameResolvesTo : String → String → Result GitObject → Type 0
  NameResolvesTo name h found =
      (IsObject found × (git.new_hash name ≡ h))
      ⊎ ((¬ IsObject found) × (name ≡ "HEAD") × (git.head repo ≡ ok h))
      ⊎ ((¬ IsObject found) × (name ≢ "HEAD") × FirstRefersTo (candidates name) h)

  -- Without a name it is the branch main.
  abbrev pub ResolvesTo : String → String → Type 0
  ResolvesTo name h =
      ((name ≡ "") × RefersTo "refs/heads/main" h)
      ⊎ ((name ≢ "") × NameResolvesTo name h (git.object repo (git.new_hash name)))

  ok_iff : (a b : String) → (ok a ≡ ok b) ↔ (a ≡ b)
  ok_iff a b = (λ h. cc, λ h. ap (λ (x : String). ok x) h)

  Peels-iff : (o : Result GitObject) (h : String) → (hash_of_result git o ≡ ok h) ↔ Peels o h
  Peels-iff (err x) h = (λ e. absurd (cc), λ e. absurd e)
  Peels-iff (ok (tag_of_commit target)) h = ok_iff target h
  Peels-iff (ok (tag_of_other kind)) h = (λ e. absurd (cc), λ e. absurd e)
  Peels-iff (ok (commit hash)) h = ok_iff hash h
  Peels-iff (ok other_object) h = (λ e. absurd (cc), λ e. absurd e)

  Refers-iff :
      (r : Result Reference) (h : String) → (hash_of_reference git repo r ≡ ok h) ↔ Refers r h
  Refers-iff (err x) h = (λ e. absurd (cc), λ e. absurd e)
  Refers-iff (ok b) h = elim (Bool-cases b.is_tag) [
    | inl t ↦ (
      λ e. inr (t, (Peels-iff (git.object repo b.hash) h).0 (rw t at e)),
      λ r. rw t (elim r [
        | inl (no_tag, same) ↦ absurd (cc)
        | inr (tag, peels) ↦ (Peels-iff (git.object repo b.hash) h).1 peels
      ]),
    )
    | inr t ↦ (
      λ e. inl (t, (ok_iff b.hash h).0 (rw t at e)),
      λ r. rw t (elim r [
        | inl (no_tag, same) ↦ (ok_iff b.hash h).1 same
        | inr (tag, peels) ↦ absurd (cc)
      ]),
    )
  ]

  RefersTo-iff :
      (name h : String) → (get_hash_from_reference git repo name ≡ ok h) ↔ RefersTo name h
  unfolding get_hash_from_reference
  RefersTo-iff name h = Refers-iff (git.reference repo name) h

  -- The source's attempts in a row.
  abbrev attempts : Err → List String → Result String
  attempts x [] = err x
  attempts x (r ∷ rs) = or_next git (get_hash_from_reference git repo r) (attempts x rs)

  attempts_iff :
      (x : Err) (refs : List String) (h : String) → (attempts x refs ≡ ok h) ↔ FirstRefersTo refs h
  attempts_iff x [] h = (λ e. absurd (cc), λ e. absurd e)
  attempts_iff x (r ∷ rs) h = elim (Result-cases (get_hash_from_reference git repo r)) [
    | inl (g, found) ↦ (
      λ e. inl ((RefersTo-iff r h).0 (found ∙ (rw found at e))),
      λ s. elim s [
        | inl here ↦ rw found (sym found ∙ (RefersTo-iff r h).1 here)
        | inr (none_here, there) ↦ absurd (none_here g ((RefersTo-iff r g).0 found))
      ],
    )
    | inr (y, missing) ↦ (
      λ e. inr (
        λ g here. absurd (cc (missing, (RefersTo-iff r g).1 here)),
        (attempts_iff x rs h).0 (rw missing at e),
      ),
      λ s. elim s [
        | inl here ↦ absurd (cc (missing, (RefersTo-iff r h).1 here))
        | inr (none_here, there) ↦ rw missing ((attempts_iff x rs h).1 there)
      ],
    )
  ]

  head_iff : (r : Result String) (h : String) → (head_hash git r ≡ ok h) ↔ (r ≡ ok h)
  head_iff (ok a) h = (λ e. e, λ e. e)
  head_iff (err x) h = (λ e. absurd (cc), λ e. absurd (cc))

  NameResolvesTo-iff :
      (name h : String) (found : Result GitObject)
      → (from_hash git repo name found ≡ ok h) ↔ NameResolvesTo name h found
  NameResolvesTo-iff name h (ok o) = (
    λ e. inl (tt, (ok_iff _ _).0 e),
    λ r. elim r [
      | inl (here, same) ↦ (ok_iff _ _).1 same
      | inr (inl (missing, is_head, at_head)) ↦ absurd (missing tt)
      | inr (inr (missing, no_head, first)) ↦ absurd (missing tt)
    ],
  )
  NameResolvesTo-iff name h (err x) = elim (Bool-cases (name == "HEAD")) [
    | inl e ↦ (
      λ k. inr (inl (λ z. z, (eq_iff name "HEAD").0 e, (head_iff (git.head repo) h).0 (rw e at k))),
      λ r. rw e (elim r [
        | inl (here, same) ↦ absurd here
        | inr (inl (missing, is_head, at_head)) ↦ (head_iff (git.head repo) h).1 at_head
        | inr (inr (missing, no_head, first)) ↦ absurd (no_head ((eq_iff name "HEAD").0 e))
      ]),
    )
    | inr e ↦ (
      λ k. inr (
          inr (
            λ z. z,
            differs e,
            (attempts_iff (errorf ("unknown target \"" ^ name ^ "\"")) (candidates name) h).0
                (rw e at k),
          )),
      λ r. rw e (elim r [
        | inl (here, same) ↦ absurd here
        | inr (inl (missing, is_head, at_head)) ↦ absurd (differs e is_head)
        | inr (inr (missing, no_head, first)) ↦
            (attempts_iff (errorf ("unknown target \"" ^ name ^ "\"")) (candidates name) h).1 first
      ]),
    )
  ]
    where
      differs : name == "HEAD" ≡ false → name ≢ "HEAD"
      differs e same = absurd (cc (e, (eq_iff name "HEAD").1 same))

  -- A revision resolves to a hash exactly in these cases: it is empty and the branch main has the hash;
  -- it is the hash of an object, of whatever type; there is no such object and it is HEAD, and the
  -- head has the hash; or there is no such object, it is not HEAD, and the hash is that of the first of
  -- the branch of the remote (so that a local branch that is behind never wins), the local branch, the
  -- tag and the head of the remote of that name that has one. The hash of a reference is its own, or
  -- for a tag the commit of the tag; a tag of anything else has none.
  pub get_commit_from_target_iff :
      (name h : String) → (get_commit_from_target git repo name ≡ ok h) ↔ ResolvesTo name h
  unfolding get_commit_from_target
  get_commit_from_target_iff name h = elim (Bool-cases (name == "")) [
    | inl e ↦ (
      λ k. inl ((eq_iff name "").0 e, (RefersTo-iff "refs/heads/main" h).0 (rw e at k)),
      λ r. rw e (elim r [
        | inl (empty, main) ↦ (RefersTo-iff "refs/heads/main" h).1 main
        | inr (named, resolved) ↦ absurd (named ((eq_iff name "").0 e))
      ]),
    )
    | inr e ↦ (
      λ k. inr (differs e, (NameResolvesTo-iff name h _).0 (rw e at k)),
      λ r. rw e (elim r [
        | inl (empty, main) ↦ absurd (differs e empty)
        | inr (named, resolved) ↦ (NameResolvesTo-iff name h _).1 resolved
      ]),
    )
  ]
    where
      differs : name == "" ≡ false → name ≢ ""
      differs e same = absurd (cc (e, (eq_iff name "").1 same))
