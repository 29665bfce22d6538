-- ===== src/Finalize/Drained.antt =====
-- An environment in which a deletion can get on, and programs that run in it.
use patterns_operator.Prelude.{
  String, Bool, true, false, List, [], ◌∷◌, ◌≡◌, All, refl, if◌then◌else◌,
}
use patterns_operator.Errors.{Result, ok, err}
use patterns_operator.Api.{PatternDeletionPhase, delete_hub}
use patterns_operator.Argo.{Application}
use patterns_operator.Argo.Compare.{compare_application}
use patterns_operator.Applications.{is_child_of, children}
use patterns_operator.Cluster.{Request, Reply, SearchResponse, Prog, pure, call, attempt, ◌>>=◌}
use patterns_operator.Cluster.Runs.{
  Rely, Always, AnyRequest, Returns, Eventually, Eventually-bind, Eventually-after, Always-bind,
  Always-attempt,
}
use patterns_operator.Finalize.{wrapping, reworded}
use patterns_operator.Finalize.Safety.{Edge}

abbrev pub Answered : Result (Unit {0}) → Type 0
Answered (ok _) = Unit
Answered (err x) = ⊥

abbrev pub NoneFound : Result SearchResponse → Type 0
NoneFound (err x) = ⊥
NoneFound (ok r) = (r.status_code ≡ 200) × (r.results ≡ ok [])

-- Argo tracks none of the Applications as a child of any.
abbrev pub NoneTracked : List Application → Type 0
NoneTracked apps = All (λ app. (parent : String) → is_child_of parent app ≡ false) apps

pub children-NoneTracked :
    (parent : String) (apps : List Application) → NoneTracked apps → children parent apps ≡ []
children-NoneTracked parent [] h = refl
children-NoneTracked parent (a ∷ as') h = rw (h.0 parent) (children-NoneTracked parent as' h.1)

abbrev pub NoChildren : Result (List Application) → Type 0
NoChildren (err x) = ⊥
NoChildren (ok apps) = NoneTracked apps

abbrev pub IsRead : Result String → Type 0
IsRead (ok _) = Unit
IsRead (err x) = ⊥

-- The token can be read, the writes of Applications succeed, no Application is a child of another one,
-- and the search finds nothing on the spokes.
abbrev pub Drained : Rely
Drained (Request.update_application ns app) x = Answered x
Drained (Request.list_applications s) x = NoChildren x
Drained Request.read_token x = IsRead x
Drained (Request.search_applications s) x = NoneFound x
Drained r x = Unit

-- The request changes the spec of the Application where it is not as wanted, takes the phase along an
-- edge, or in the last phase deletes the Application.
abbrev pub IsProgress : Application → PatternDeletionPhase → Request → Type 0
IsProgress app phase (Request.update_application ns a) = compare_application app a ≡ false
IsProgress app phase (Request.update_pattern_status q) = Edge phase q.status.deletion_phase
IsProgress app phase (Request.delete_application n ns) = phase ≡ delete_hub
IsProgress app phase _ = ⊥

-- Every path returns, with a value that satisfies `Q`.
pub record Gives {A : Type 0} (Q : A → Type 0) (m : Prog A) : Type 0 where
  pub paths : Always Drained AnyRequest (Returns Q) m

-- Every path sends a request that satisfies `P`.
pub record Sends {A : Type 0} (P : Request → Type 0) (m : Prog A) : Type 0 where
  pub paths : Eventually Drained P m

abbrev pub Anything : {A : Type 0} → A → Type 0
Anything a = Unit

module _ {A B : Type 0} (P : Request → Type 0) where
  pub Sends-bind : (m : Prog A) (f : A → Prog B) → Sends P m → Sends P (m >>= f)
  Sends-bind m f h = record { paths = Eventually-bind Drained P m f h.paths }

  pub Sends-after :
      (Q : A → Type 0) (m : Prog A) (f : A → Prog B)
      → Gives Q m
      → ((a : A) → Q a → Sends P (f a))
      → Sends P (m >>= f)
  Sends-after Q m f h k = record {
    paths = Eventually-after Drained P Q m f h.paths (λ a q. (k a q).paths);
  }

module _ {A B : Type 0} where
  pub Gives-bind :
      (Q : A → Type 0) (R : B → Type 0) (m : Prog A) (f : A → Prog B)
      → Gives Q m
      → ((a : A) → Q a → Gives R (f a))
      → Gives R (m >>= f)
  Gives-bind Q R m f h k = record {
    paths =
        Always-bind Drained AnyRequest (Returns Q) (Returns R) m f h.paths
          ((λ e x. absurd x), λ x. absurd x) (λ a q. (k a q).paths);
  }

module _ {A : Type 0} (Q : A → Type 0) where
  pub Gives-call :
      (r : Request) (k : Reply r → Prog A)
      → ((x : Reply r) → Drained r x → Gives Q (k x))
      → Gives Q (call r k)
  Gives-call r k h = record { paths = (tt, λ x g. (h x g).paths) }

  pub Gives-pure : (a : A) → Q a → Gives Q (pure a)
  Gives-pure a h = record { paths = h }

  pub Gives-if : (b : Bool) (m n : Prog A) → Gives Q m → Gives Q n → Gives Q (if b then m else n)
  Gives-if true m n h k = h
  Gives-if false m n h k = k

pub Gives-wrapping :
    {A : Type 0} (Q : A → Type 0) (text : String) (m : Prog A)
    → Gives Q m
    → Gives Q (wrapping text m)
unfolding wrapping
Gives-wrapping {A} Q text m h =
    Gives-bind IsGiven Q (attempt m) (reworded text)
      (record {
        paths =
            Always-attempt Drained AnyRequest (Returns Q) (Returns IsGiven) m h.paths (λ a q. q)
              (λ e x. absurd x) (λ x. absurd x);
      })
      given
  where
    IsGiven : Result A → Type 0
    IsGiven (ok a) = Q a
    IsGiven (err x) = ⊥

    given : (r : Result A) → IsGiven r → Gives Q (reworded text r)
    given (ok a) q = record { paths = q }
    given (err x) q = absurd q
