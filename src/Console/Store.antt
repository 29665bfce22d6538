-- ===== src/Console/Store.antt =====
-- The console's objects as a store, and what an API server that admits every request does to it
-- (internal/controller/console).
use patterns_operator.Prelude.{
  String, true, Option, none, some, ◌&&◌, ◌==◌, ◌≡◌, refl, ◌∙◌, ap, inl, inr, Option-cases,
  if◌then◌else◌,
}
use patterns_operator.Errors.{Err, Result, ok, err, is_not_found}
use patterns_operator.Workloads.{
  Kind, Object, config_map_kind, service_kind, deployment_kind, console_plugin_kind, console_kind,
}
use patterns_operator.Cluster.{Request, ask, ◌>>=◌}
use patterns_operator.Cluster.Runs.{Environment, returned, run}
use patterns_operator.Console.{create_or_update}

-- The object of each kind, namespace and name.
abbrev pub Store : Type 0
Store = (k : Kind) → String → String → Option (Object k)

abbrev pub at :
    {A : Type 0}
    → String
    → String
    → Option A
    → (String → String → Option A)
    → String
    → String
    → Option A
at namespace name o s ns n = if namespace == ns && name == n then o else s ns n

abbrev pub put : (k : Kind) → String → String → Object k → Store → Store
put config_map_kind namespace name o s config_map_kind =
    at namespace name (some o) (s config_map_kind)
put service_kind namespace name o s service_kind = at namespace name (some o) (s service_kind)
put deployment_kind namespace name o s deployment_kind =
    at namespace name (some o) (s deployment_kind)
put console_plugin_kind namespace name o s console_plugin_kind =
    at namespace name (some o) (s console_plugin_kind)
put console_kind namespace name o s console_kind = at namespace name (some o) (s console_kind)
put k namespace name o s k' = s k'

-- What a read may answer.
abbrev pub Found : {A : Type 0} → Option A → Result A → Type 0
Found none r = (x : Err) × (r ≡ err x) × (is_not_found x ≡ true)
Found (some a) r = r ≡ ok a

-- An API server that admits every request of the operator: a read gives what is there, an object that
-- is missing can be created, and one that is there can be replaced.
pub record Serves {W : Type 0} (answer : Environment W) (view : W → Store) : Type 0 where
  pub finds :
      (k : Kind) (ns n : String) (w : W)
      → Found (view w k ns n) (answer (Request.get_object k ns n) w).0
  pub reads :
      (k : Kind) (ns n : String) (w : W) → view (answer (Request.get_object k ns n) w).1 ≡ view w
  pub creates :
      (k : Kind) (ns n : String) (o : Object k) (w : W)
      → view w k ns n ≡ none
      → ((answer (Request.create_object k ns n o) w).0 ≡ ok tt)
        × (view (answer (Request.create_object k ns n o) w).1 ≡ put k ns n o (view w))
  pub updates :
      (k : Kind) (ns n : String) (old o : Object k) (w : W)
      → view w k ns n ≡ some old
      → ((answer (Request.update_object k ns n o) w).0 ≡ ok tt)
        × (view (answer (Request.update_object k ns n o) w).1 ≡ put k ns n o (view w))

-- What is wanted, or what is there with the operator's fields taken over.
abbrev pub desired_or : {A : Type 0} → A → (A → A) → Option A → A
desired_or desired take_over none = desired
desired_or desired take_over (some existing) = take_over existing

abbrev pub applied : (k : Kind) → String → String → Object k → (Object k → Object k) → Store → Store
applied k namespace name desired take_over s =
    put k namespace name (desired_or desired take_over (s k namespace name)) s

module _ {W : Type 0} (answer : Environment W) (view : W → Store) (serves : Serves answer view)
    (k : Kind) (namespace name what : String) (desired : Object k)
    (take_over : Object k → Object k) where
  -- The program returns, and leaves the object as it is wanted.
  abbrev pub Applies : W → Type 0
  Applies w =
      ((run answer (create_or_update k namespace name what desired take_over) w).1 ≡ returned tt)
      × (view (run answer (create_or_update k namespace name what desired take_over) w).2
          ≡ applied k namespace name desired take_over (view w))

  missing-Applies :
      (w : W)
      → view w k namespace name ≡ none
      → Found none (answer (Request.get_object k namespace name) w).0
      → Applies w
  unfolding create_or_update run ask ◌>>=◌
  missing-Applies w h (x, e, missing) =
      let w' = (answer (Request.get_object k namespace name) w).1 in
      let kept = serves.reads k namespace name w in
      let (made, after) =
        serves.creates k namespace name desired w'
          (ap (λ (s : Store). s k namespace name) kept ∙ h) in
      (
        rw (e, run, missing, made) refl,
        rw (e, run, missing, made, h)
            (after ∙ ap (λ (s : Store). put k namespace name desired s) kept),
      )

  found-Applies :
      (w : W) (old : Object k)
      → view w k namespace name ≡ some old
      → Found (some old) (answer (Request.get_object k namespace name) w).0
      → Applies w
  unfolding create_or_update run ask ◌>>=◌
  found-Applies w old h e =
      let w' = (answer (Request.get_object k namespace name) w).1 in
      let kept = serves.reads k namespace name w in
      let (made, after) =
        serves.updates k namespace name old (take_over old) w'
          (ap (λ (s : Store). s k namespace name) kept ∙ h) in
      (
        rw (e, run, made) refl,
        rw (e, run, made, h)
            (after ∙ ap (λ (s : Store). put k namespace name (take_over old) s) kept),
      )

  pub create_or_update-Applies : (w : W) → Applies w
  create_or_update-Applies w = elim (Option-cases (view w k namespace name)) [
    | inl h ↦ missing-Applies w h (rw h at (serves.finds k namespace name w))
    | inr (old, h) ↦ found-Applies w old h (rw h at (serves.finds k namespace name w))
  ]
