-- ===== src/Cluster/Triples.antt =====
-- Runs of a program by what they do to a view of the environment's state.
use patterns_operator.Prelude.{◌≡◌, refl, ap, ◌∙◌}
use patterns_operator.Errors.{Err, ok}
use patterns_operator.Cluster.{Request, Reply, Prog, pure, fail, panic, call, ◌>>=◌, attempt}
use patterns_operator.Cluster.Runs.{Environment, returned, failed, run, run->>=}

-- A block that fails ends what it is part of.
module _ {W A B : Type 0} (answer : Environment W) where
  run-bind_failed :
      (m : Prog A) (f : A → Prog B) (x : Err) (w : W)
      → (run answer m w).1 ≡ failed x
      → ((run answer (m >>= f) w).1 ≡ failed x) × ((run answer (m >>= f) w).2 ≡ (run answer m w).2)
  unfolding run ◌>>=◌
  run-bind_failed (pure a) f x w h = absurd (cc)
  run-bind_failed (fail y) f x w h = let e : y ≡ x = cc in (ap (λ (z : Err). failed z) e, refl)
  run-bind_failed panic f x w h = absurd (cc)
  run-bind_failed (call r k) f x w h = let (y, w') = answer r w in run-bind_failed (k y) f x w' h

module _ {W S : Type 0} (answer : Environment W) (view : W → S) where
  -- From every state with the first view the program returns the value and leaves the second view.
  pub record Goes {A : Type 0} (s : S) (m : Prog A) (a : A) (t : S) : Type 0 where
    pub runs :
        (w : W) → view w ≡ s → ((run answer m w).1 ≡ returned a) × (view (run answer m w).2 ≡ t)

  -- The program fails.
  pub record Breaks {A : Type 0} (s : S) (m : Prog A) (t : S) : Type 0 where
    pub runs :
        (w : W)
        → view w ≡ s
        → ((x : Err) × ((run answer m w).1 ≡ failed x)) × (view (run answer m w).2 ≡ t)

  -- What a request is answered, and the view after it.
  abbrev pub Answers : S → (r : Request) → Reply r → S → Type 0
  Answers s r x t = (w : W) → view w ≡ s → ((answer r w).0 ≡ x) × (view (answer r w).1 ≡ t)

  module _ {A : Type 0} where
    pub Goes-pure : (s : S) (a : A) → Goes s (pure a) a s
    unfolding run
    Goes-pure s a = record { runs = λ w h. (refl, h) }

    pub Breaks-fail : (s : S) (x : Err) → Breaks {A = A} s (fail x) s
    unfolding run
    Breaks-fail s x = record { runs = λ w h. ((x, refl), h) }

    pub Goes-call :
        (s t u : S) (r : Request) (x : Reply r) (k : Reply r → Prog A) (a : A)
        → Answers s r x t
        → Goes t (k x) a u
        → Goes s (call r k) a u
    unfolding run
    Goes-call s t u r x k a g h = record {
      runs = λ w v. let (e, v') = g w v in rw e (h.runs (answer r w).1 v');
    }

    pub Breaks-call :
        (s t u : S) (r : Request) (x : Reply r) (k : Reply r → Prog A)
        → Answers s r x t
        → Breaks t (k x) u
        → Breaks s (call r k) u
    unfolding run
    Breaks-call s t u r x k g h = record {
      runs = λ w v. let (e, v') = g w v in rw e (h.runs (answer r w).1 v');
    }

  module _ {A B : Type 0} where
    pub Goes-bind :
        (s t u : S) (m : Prog A) (f : A → Prog B) (a : A) (b : B)
        → Goes s m a t
        → Goes t (f a) b u
        → Goes s (m >>= f) b u
    Goes-bind s t u m f a b g h = record {
      runs = λ w v.
          let (e, v') = g.runs w v in
          let (sent, ended, left) = run->>= answer m f a w e in
          let (e', v'') = h.runs (run answer m w).2 v' in (ended ∙ e', ap view left ∙ v'');
    }

    pub Breaks-after :
        (s t u : S) (m : Prog A) (f : A → Prog B) (a : A)
        → Goes s m a t
        → Breaks t (f a) u
        → Breaks s (m >>= f) u
    Breaks-after s t u m f a g h = record {
      runs = λ w v.
          let (e, v') = g.runs w v in
          let (sent, ended, left) = run->>= answer m f a w e in
          let ((x, e'), v'') = h.runs (run answer m w).2 v' in
          ((x, ended ∙ e'), ap view left ∙ v'');
    }

    pub Breaks-bind : (s t : S) (m : Prog A) (f : A → Prog B) → Breaks s m t → Breaks s (m >>= f) t
    Breaks-bind s t m f g = record {
      runs = λ w v.
          let ((x, e), v') = g.runs w v in
          let (e', left) = run-bind_failed answer m f x w e in ((x, e'), ap view left ∙ v');
    }

module _ {W A : Type 0} (answer : Environment W) where
  run-attempt_returned :
      (m : Prog A) (a : A) (w : W)
      → (run answer m w).1 ≡ returned a
      → ((run answer (attempt m) w).1 ≡ returned (ok a))
        × ((run answer (attempt m) w).2 ≡ (run answer m w).2)
  unfolding run attempt
  run-attempt_returned (pure b) a w h =
      let e : b ≡ a = cc in (ap (λ (z : A). returned (ok z)) e, refl)
  run-attempt_returned (fail y) a w h = absurd (cc)
  run-attempt_returned panic a w h = absurd (cc)
  run-attempt_returned (call r k) a w h =
      let (y, w') = answer r w in run-attempt_returned (k y) a w' h

pub Goes-attempt :
    {W S A : Type 0} (answer : Environment W) (view : W → S) (s t : S) (m : Prog A) (a : A)
    → Goes answer view s m a t
    → Goes answer view s (attempt m) (ok a) t
Goes-attempt answer view s t m a g = record {
  runs = λ w v.
      let (e, v') = g.runs w v in
      let (ended, left) = run-attempt_returned answer m a w e in (ended, ap view left ∙ v');
}

module _ {W S : Type 0} (answer : Environment W) (view : W → S) where
  -- From every state with this view the first program comes down to a run of the second from a state
  -- with the same view.
  pub record Leads {A : Type 0} (s : S) (m n : Prog A) : Type 0 where
    pub runs :
        (w : W)
        → view w ≡ s
        → (w' : W) × (view w' ≡ s)
          × ((run answer m w).1 ≡ (run answer n w').1)
          × ((run answer m w).2 ≡ (run answer n w').2)

  pub Leads-bind :
      {A B : Type 0} (s : S) (m : Prog A) (f : A → Prog B) (a : A)
      → Goes answer view s m a s
      → Leads s (m >>= f) (f a)
  Leads-bind s m f a g = record {
    runs = λ w v.
        let (e, v') = g.runs w v in
        let (sent, ended, left) = run->>= answer m f a w e in ((run answer m w).2, v', ended, left);
  }

  module _ {A : Type 0} where
    pub Leads-refl : (s : S) (m : Prog A) → Leads s m m
    Leads-refl s m = record { runs = λ w v. (w, v, refl, refl) }

    pub Leads-trans : (s : S) (l m n : Prog A) → Leads s l m → Leads s m n → Leads s l n
    Leads-trans s l m n g h = record {
      runs = λ w v.
          let (w1, v1, e1, l1) = g.runs w v in
          let (w2, v2, e2, l2) = h.runs w1 v1 in (w2, v2, e1 ∙ e2, l1 ∙ l2);
    }

    pub Goes-led :
        (s t : S) (m n : Prog A) (a : A)
        → Leads s m n
        → Goes answer view s n a t
        → Goes answer view s m a t
    Goes-led s t m n a g h = record {
      runs = λ w v.
          let (w1, v1, e1, l1) = g.runs w v in
          let (e2, v2) = h.runs w1 v1 in (e1 ∙ e2, ap view l1 ∙ v2);
    }

    pub Breaks-led :
        (s t : S) (m n : Prog A) → Leads s m n → Breaks answer view s n t → Breaks answer view s m t
    Breaks-led s t m n g h = record {
      runs = λ w v.
          let (w1, v1, e1, l1) = g.runs w v in
          let ((x, e2), v2) = h.runs w1 v1 in ((x, e1 ∙ e2), ap view l1 ∙ v2);
    }
