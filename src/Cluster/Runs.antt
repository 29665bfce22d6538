-- ===== src/Cluster/Runs.antt =====
-- Runs of a program against an arbitrary environment, and what holds of all of them.
use patterns_operator.Prelude.{List, [], ◌∷◌, ◌++◌, All, Any, ◌≡◌, refl, ap, ◌⊎◌, inl, inr}
use patterns_operator.Errors.{Err, Result, ok, err}
use patterns_operator.Cluster.{
  Request, Reply, Prog, pure, fail, panic, call, ◌>>=◌, attempt, from_result,
}

pub data Outcome (A : Type 0) : Type 0 where
  returned : A → Outcome A
  failed : Err → Outcome A
  panicked : Outcome A

-- The environment answers each request and changes its own state as it likes.
abbrev pub Environment : Type 0 → Type 0
Environment W = (r : Request) → W → Reply r × W

-- A run gives the requests in the order in which they were sent, the outcome and the last state.
module _ {W : Type 0} (answer : Environment W) where
  unfoldable pub run : {A : Type 0} → Prog A → W → List Request × Outcome A × W
  run (pure a) w = ([], returned a, w)
  run (fail e) w = ([], failed e, w)
  run panic w = ([], panicked, w)
  run (call r k) w =
      let (x, w') = answer r w in let (sent, o, w'') = run (k x) w' in (r ∷ sent, o, w'')

-- A block that returns hands its value and the state that it leaves to the next.
module _ {W A B : Type 0} (answer : Environment W) where
  pub run->>= :
      (m : Prog A) (f : A → Prog B) (a : A) (w : W)
      → (run answer m w).1 ≡ returned a
      → ((run answer (m >>= f) w).0 ≡ (run answer m w).0 ++ (run answer (f a) (run answer m w).2).0)
        × ((run answer (m >>= f) w).1 ≡ (run answer (f a) (run answer m w).2).1)
        × ((run answer (m >>= f) w).2 ≡ (run answer (f a) (run answer m w).2).2)
  unfolding run ◌>>=◌
  run->>= (pure b) f a w h =
      let e : b ≡ a = cc in
      (
        ap (λ x. (run answer (f x) w).0) e,
        ap (λ x. (run answer (f x) w).1) e,
        ap (λ x. (run answer (f x) w).2) e,
      )
  run->>= (fail x) f a w h = absurd (cc)
  run->>= panic f a w h = absurd (cc)
  run->>= (call r k) f a w h =
      let (x, w') = answer r w in
      let (sent, outcome, last) = run->>= (k x) f a w' h in
      (ap (λ (rs : List Request). r ∷ rs) sent, outcome, last)

-- A block whose error is handed on sends the same requests.
module _ {W A : Type 0} (answer : Environment W) where
  pub run-attempt-failed :
      (m : Prog A) (x : Err) (w : W)
      → (run answer m w).1 ≡ failed x
      → ((run answer (attempt m) w).0 ≡ (run answer m w).0)
        × ((run answer (attempt m) w).1 ≡ returned (err x))
        × ((run answer (attempt m) w).2 ≡ (run answer m w).2)
  unfolding run attempt
  run-attempt-failed (pure a) x w h = absurd (cc)
  run-attempt-failed (fail y) x w h =
      let e : y ≡ x = cc in (refl, ap (λ (z : Err). returned (err z)) e, refl)
  run-attempt-failed panic x w h = absurd (cc)
  run-attempt-failed (call r k) x w h =
      let (y, w') = answer r w in
      let (sent, outcome, last) = run-attempt-failed (k y) x w' h in
      (ap (λ (rs : List Request). r ∷ rs) sent, outcome, last)

-- A result that has come back is no request.
module _ {W A : Type 0} (answer : Environment W) where
  pub run-from_result : (r : Result A) (w : W) → (run answer (from_result r) w).0 ≡ []
  unfolding run
  run-from_result (ok a) w = refl
  run-from_result (err e) w = refl

-- What may be relied on of each answer; an environment is taken to keep to it.
abbrev pub Rely : Type 1
Rely = (r : Request) → Reply r → Type 0

-- Nothing is relied on.
abbrev pub AnyReply : Rely
AnyReply r x = Unit

abbrev pub KeepsTo : {W : Type 0} → Rely → Environment W → Type 0
KeepsTo {W} G answer = (r : Request) (w : W) → G r (answer r w).0

-- On every path along which the answers satisfy `G`: each request that is sent satisfies `I`, and the
-- outcome satisfies `Q`.
abbrev pub Always :
    {A : Type 0} → Rely → (Request → Type 0) → (Outcome A → Type 0) → Prog A → Type 0
Always G I Q (pure a) = Q (returned a)
Always G I Q (fail e) = Q (failed e)
Always G I Q panic = Q panicked
Always G I Q (call r k) = I r × ((x : Reply r) → G r x → Always G I Q (k x))

-- On every such path a request is sent that satisfies `P`.
abbrev pub Eventually : {A : Type 0} → Rely → (Request → Type 0) → Prog A → Type 0
Eventually G P (pure a) = ⊥
Eventually G P (fail e) = ⊥
Eventually G P panic = ⊥
Eventually G P (call r k) = P r ⊎ ((x : Reply r) → G r x → Eventually G P (k x))

module _ {W A : Type 0} (answer : Environment W) (G : Rely) (keeps : KeepsTo G answer) where
  -- `Always` speaks of every run in every environment that keeps to `G`.
  pub Always-run :
      (I : Request → Type 0) (Q : Outcome A → Type 0) (m : Prog A)
      → Always G I Q m
      → (w : W) → All I (run answer m w).0 × Q (run answer m w).1
  unfolding run
  Always-run I Q (pure a) h w = (tt, h)
  Always-run I Q (fail e) h w = (tt, h)
  Always-run I Q panic h w = (tt, h)
  Always-run I Q (call r k) h w =
      let (x, w') = answer r w in
      let (sent, o) = Always-run I Q (k x) (h.1 x (keeps r w)) w' in ((h.0, sent), o)

  pub Eventually-run :
      (P : Request → Type 0) (m : Prog A) → Eventually G P m → (w : W) → Any P (run answer m w).0
  unfolding run
  Eventually-run P (pure a) h w = h
  Eventually-run P (fail e) h w = h
  Eventually-run P panic h w = h
  Eventually-run P (call r k) (inl p) w = inl p
  Eventually-run P (call r k) (inr h) w =
      let (x, w') = answer r w in inr (Eventually-run P (k x) (h x (keeps r w)) w')

-- What an outcome that is no return means for the block that it ends.
abbrev pub Passes : {A B : Type 0} → (Outcome A → Type 0) → (Outcome B → Type 0) → Type 0
Passes Q R = ((e : Err) → Q (failed e) → R (failed e)) × (Q panicked → R panicked)

module _ {A B : Type 0} (G : Rely) where
  pub Always-bind :
      (I : Request → Type 0) (Q : Outcome A → Type 0) (R : Outcome B → Type 0) (m : Prog A)
      (f : A → Prog B)
      → Always G I Q m
      → Passes Q R
      → ((a : A) → Q (returned a) → Always G I R (f a))
      → Always G I R (m >>= f)
  unfolding ◌>>=◌
  Always-bind I Q R (pure a) f h p k = k a h
  Always-bind I Q R (fail e) f h p k = p.0 e h
  Always-bind I Q R panic f h p k = p.1 h
  Always-bind I Q R (call r c) f h p k = (h.0, λ x g. Always-bind I Q R (c x) f (h.1 x g) p k)

  pub Eventually-bind :
      (P : Request → Type 0) (m : Prog A) (f : A → Prog B)
      → Eventually G P m
      → Eventually G P (m >>= f)
  unfolding ◌>>=◌
  Eventually-bind P (pure a) f h = absurd h
  Eventually-bind P (fail e) f h = absurd h
  Eventually-bind P panic f h = absurd h
  Eventually-bind P (call r c) f (inl p) = inl p
  Eventually-bind P (call r c) f (inr h) = inr (λ x g. Eventually-bind P (c x) f (h x g))

-- The program returns, with a value that satisfies `Q`.
abbrev pub Returns : {A : Type 0} → (A → Type 0) → Outcome A → Type 0
Returns Q (returned a) = Q a
Returns Q (failed e) = ⊥
Returns Q panicked = ⊥

abbrev pub AnyRequest : Request → Type 0
AnyRequest r = Unit

module _ {A B : Type 0} (G : Rely) where
  pub Eventually-after :
      (P : Request → Type 0) (Q : A → Type 0) (m : Prog A) (f : A → Prog B)
      → Always G AnyRequest (Returns Q) m
      → ((a : A) → Q a → Eventually G P (f a))
      → Eventually G P (m >>= f)
  unfolding ◌>>=◌
  Eventually-after P Q (pure a) f h k = k a h
  Eventually-after P Q (fail e) f h k = absurd h
  Eventually-after P Q panic f h k = absurd h
  Eventually-after P Q (call r c) f h k = inr (λ x g. Eventually-after P Q (c x) f (h.1 x g) k)

module _ {A : Type 0} (G : Rely) where
  pub Always-attempt :
      (I : Request → Type 0) (Q : Outcome A → Type 0) (R : Outcome (Result A) → Type 0) (m : Prog A)
      → Always G I Q m
      → ((a : A) → Q (returned a) → R (returned (ok a)))
      → ((e : Err) → Q (failed e) → R (returned (err e)))
      → (Q panicked → R panicked)
      → Always G I R (attempt m)
  unfolding attempt
  Always-attempt I Q R (pure a) h f g p = f a h
  Always-attempt I Q R (fail e) h f g p = g e h
  Always-attempt I Q R panic h f g p = p h
  Always-attempt I Q R (call r c) h f g p = (h.0, λ x y. Always-attempt I Q R (c x) (h.1 x y) f g p)

  pub Always-map :
      (I J : Request → Type 0) (Q R : Outcome A → Type 0) (m : Prog A)
      → ((r : Request) → I r → J r)
      → ((o : Outcome A) → Q o → R o)
      → Always G I Q m
      → Always G J R m
  Always-map I J Q R (pure a) f g h = g _ h
  Always-map I J Q R (fail e) f g h = g _ h
  Always-map I J Q R panic f g h = g _ h
  Always-map I J Q R (call r c) f g h = (f r h.0, λ x y. Always-map I J Q R (c x) f g (h.1 x y))

  pub Always-both :
      (I : Request → Type 0) (Q R : Outcome A → Type 0) (m : Prog A)
      → Always G I Q m
      → Always G I R m
      → Always G I (λ o. Q o × R o) m
  Always-both I Q R (pure a) h k = (h, k)
  Always-both I Q R (fail e) h k = (h, k)
  Always-both I Q R panic h k = (h, k)
  Always-both I Q R (call r c) h k = (h.0, λ x y. Always-both I Q R (c x) (h.1 x y) (k.1 x y))

  -- What holds where less is relied on.
  pub Always-rely :
      (H : Rely) (I : Request → Type 0) (Q : Outcome A → Type 0) (m : Prog A)
      → ((r : Request) (x : Reply r) → G r x → H r x)
      → Always H I Q m
      → Always G I Q m
  Always-rely H I Q (pure a) f h = h
  Always-rely H I Q (fail e) f h = h
  Always-rely H I Q panic f h = h
  Always-rely H I Q (call r c) f h = (h.0, λ x g. Always-rely H I Q (c x) f (h.1 x (f r x g)))

  -- The requests of one and the outcome of the other.
  pub Always-join :
      (I J : Request → Type 0) (Q R : Outcome A → Type 0) (m : Prog A)
      → Always G I Q m
      → Always G J R m
      → Always G I R m
  Always-join I J Q R (pure a) h k = k
  Always-join I J Q R (fail e) h k = k
  Always-join I J Q R panic h k = k
  Always-join I J Q R (call r c) h k = (h.0, λ x y. Always-join I J Q R (c x) (h.1 x y) (k.1 x y))
