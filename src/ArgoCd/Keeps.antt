-- ===== src/ArgoCd/Keeps.antt =====
-- What an update of the Argo CD instance writes (internal/controller/argo.go, createOrUpdateArgoCD).
use patterns_operator.Prelude.{
  String, Bool, true, false, Option, none, some, List, [], ◌∷◌, ◌++◌, ◌≡◌, refl, sym, ap, ◌∙◌, ◌⊎◌,
  inl, inr, ◌==◌, eq_iff, arith, Bool-cases, or_else, if◌then◌else◌,
}
use patterns_operator.Errors.{ok}
use patterns_operator.Files.{Value, table, Table, end, field, find_field, has_field, set_field}
use patterns_operator.Config.{Config}
use patterns_operator.Defaults.{ActiveArgo}
use patterns_operator.Cluster.{Request, ApiGroup, ask, attempt, ◌>>=◌}
use patterns_operator.Cluster.Runs.{Environment, run, run-from_result}
use patterns_operator.Bootstrap.{check_api_version, offers}
use patterns_operator.ArgoCd.{ArgoCd, ArgoObject, ArgoLibrary}
use patterns_operator.ArgoCd.Overlay.{keep_unknown}
use patterns_operator.ArgoCd.Update.{
  create_or_update_argo_cd, goal_argo_cd, overlaid_object, have_argo, get_argo_cd, compare_argo_cd,
}

find_field-set_field :
    (k j : String) (v : Value) (t : Table)
    → find_field k (set_field j v t) ≡ (if j == k then some v else find_field k t)
unfolding find_field set_field
find_field-set_field k j v end = refl
find_field-set_field k j v (field i w t) =
    ground (arith, eq_iff i j, eq_iff j k, eq_iff i k, find_field-set_field k j v t)

-- The keys of a Go map are distinct.
abbrev pub HasDistinctKeys : Table → Type 0
HasDistinctKeys end = Unit
HasDistinctKeys (field k v t) = (has_field k t ≡ false) × HasDistinctKeys t

has_field-find : (k : String) (t : Table) → has_field k t ≡ false → find_field k t ≡ none
unfolding has_field find_field
has_field-find k end h = refl
has_field-find k (field j v t) h = ground (arith, has_field-find k t)

has_field-or_else :
    (k : String) (t : Table) (o : Option Value)
    → (if has_field k t then find_field k t else or_else o (find_field k t))
      ≡ or_else (find_field k t) o
unfolding has_field find_field
has_field-or_else k end none = refl
has_field-or_else k end (some v) = refl
has_field-or_else k (field j w t) o = elim (Bool-cases (j == k)) [
  | inl b ↦ rw b refl
  | inr b ↦ rw b (has_field-or_else k t o)
]

-- A field that the new spec has stays; another is the old spec's, or what was there.
abbrev KeptField : String → Table → Table → Table → Table → Type 0
KeptField k old new t r =
    find_field k r
    ≡ (if has_field k new then find_field k t else or_else (find_field k old) (find_field k t))

kept_known :
    (k j : String) (v : Value) (old new t r : Table)
    → has_field j new ≡ true
    → KeptField k old new t r
    → KeptField k (field j v old) new t r
unfolding find_field
kept_known k j v old new t r h f =
    ground (arith, eq_iff j k, ap (λ x. has_field x new) {x = j} {y = k})

kept_added :
    (k j : String) (v : Value) (old new t r : Table)
    → has_field j new ≡ false
    → find_field j old ≡ none
    → KeptField k old new (set_field j v t) r
    → KeptField k (field j v old) new t r
unfolding find_field
kept_added k j v old new t r h lacks f = ground (
  arith,
  eq_iff j k,
  find_field-set_field k j v t,
  ap (λ x. has_field x new) {x = j} {y = k},
  ap (λ x. find_field x old) {x = j} {y = k},
)

if_same {ℓ} : {A : Type ℓ} (b : Bool) (a : A) → (if b then a else a) ≡ a
if_same true a = refl
if_same false a = refl

keep_unknown-Kept :
    (old new t : Table)
    → HasDistinctKeys old
    → (r : Table) × (keep_unknown old new (some (table t)) ≡ some (table r))
      × ((k : String) → KeptField k old new t r)
unfolding keep_unknown find_field
keep_unknown-Kept end new t d = (t, refl, λ k. sym (if_same (has_field k new) (find_field k t)))
keep_unknown-Kept (field j v old) new t d = elim (Bool-cases (has_field j new)) [
  | inl b ↦
      let (r, e, f) = keep_unknown-Kept old new t d.1 in
      (r, rw b e, λ k. kept_known k j v old new t r b (f k))
  | inr b ↦
      let (r, e, f) = keep_unknown-Kept old new (set_field j v t) d.1 in
      (r, rw b e, λ k. kept_added k j v old new t r b (has_field-find j old d.0) (f k))
]

-- A field of the new spec, else of the old one.
abbrev pub IsJoined : Table → Table → Table → Type 0
IsJoined new old r = (k : String) → find_field k r ≡ or_else (find_field k new) (find_field k old)

joined :
    (new old : Table)
    → HasDistinctKeys old
    → (r : Table) × (keep_unknown old new (some (table new)) ≡ some (table r)) × IsJoined new old r
joined new old d =
    let (r, e, f) = keep_unknown-Kept old new new d in
    (r, e, λ k. f k ∙ has_field-or_else k new (find_field k old))

module _ (lib : ArgoLibrary) (active : ActiveArgo) (config : Config) where
  abbrev pub goal : ArgoCd
  goal = goal_argo_cd lib active.name active.namespace config

  -- The reads of the API groups and, twice, of the instance.
  abbrev pub reads : List Request
  reads =
      Request.server_groups
      ∷ Request.get_argo_cd active.name active.namespace
      ∷ Request.get_argo_cd active.name active.namespace
      ∷ []

  abbrev pub update_of : ArgoObject → ArgoObject → Table → Request
  update_of new old r =
      Request.update_argo_cd active.namespace
        (record new { spec = some (table r); resource_version = old.resource_version })

  -- Nothing is written if the typed specs are equal; else one update of the new object.
  abbrev pub UpdatesIfDifferent :
      List Request → ArgoCd → ArgoObject → ArgoObject → Table → Table → Type 0
  UpdatesIfDifferent sent actual new old new_fields old_fields =
      ((lib.semantic_equal goal.spec actual.spec ≡ true) × (sent ≡ reads))
      ⊎ ((lib.semantic_equal goal.spec actual.spec ≡ false)
          × ((r : Table) × (sent ≡ reads ++ update_of new old r ∷ [])
              × IsJoined new_fields old_fields r))

  module _ {W : Type 0} (answer : Environment W) (groups : List ApiGroup) (old made : ArgoObject)
      (actual : ArgoCd) (new_fields old_fields : Table) where
    -- If the API group is offered, the instance is there and converts, the new object and the
    -- old one have a map as their spec, and the keys of the old one are distinct: no write is
    -- sent when the typed specs are equal, and else one update with the old object's version,
    -- whose spec has each field of the new spec and of the old one, the new one's value where
    -- both have it. The new fields may come from the overlay; they do not count for whether a
    -- write is sent.
    pub create_or_update_argo_cd-UpdatesIfDifferent :
        ((w : W) → (answer Request.server_groups w).0 ≡ ok groups)
        → offers "argoproj.io" "v1beta1" groups ≡ true
        → ((w : W) → (answer (Request.get_argo_cd active.name active.namespace) w).0 ≡ ok old)
        → lib.from_unstructured old ≡ ok actual
        → lib.to_unstructured goal ≡ ok made
        → (overlaid_object lib config made).spec ≡ some (table new_fields)
        → old.spec ≡ some (table old_fields)
        → HasDistinctKeys old_fields
        → (w : W)
        → UpdatesIfDifferent
            (run answer (create_or_update_argo_cd lib active config) w).0
            actual
            (overlaid_object lib config made)
            old
            new_fields
            old_fields
    unfolding create_or_update_argo_cd check_api_version run ask ◌>>=◌ attempt have_argo get_argo_cd
        compare_argo_cd
    create_or_update_argo_cd-UpdatesIfDifferent served offered found typed converted new_spec
          old_spec d w =
        elim (Bool-cases (lib.semantic_equal goal.spec actual.spec)) [
          | inl same ↦ inl (same, rw (served, offered, converted, found, found, typed, same) refl)
          | inr differs ↦
              let (r, e, f) = joined new_fields old_fields d in
              inr (
                differs,
                (
                  r,
                  rw
                      (
                        served, offered, converted, found, found, typed, differs, new_spec,
                        old_spec, e,
                      )
                      (ap
                        (λ (xs : List Request).
                          reads ++ (update_of (overlaid_object lib config made) old r ∷ xs))
                        (run-from_result answer _ _)),
                  f,
                ),
              )
        ]
