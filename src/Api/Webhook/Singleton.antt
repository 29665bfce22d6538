-- ===== src/Api/Webhook/Singleton.antt =====
-- What the webhook (api/v1alpha1/pattern_webhook.go) guarantees of the stored patterns.
use patterns_operator.Prelude.{
  ◌≤◌, List, [], ◌∷◌, ◌++◌, ◌≡◌, ◌≢◌, refl, ◌⊎◌, ◌↔◌, inl, inr, All, length, eq_iff, arith, subst,
  length-append, sym,
}
use patterns_operator.Errors.{Err, Result, ok, err}
use patterns_operator.Api.{Pattern}
use patterns_operator.Api.Webhook.{
  pattern_object, convert_to_pattern, validate_variant_alias, validate_create, validate_update,
  validate_delete, admit_listed,
}
use patterns_operator.Cluster.{list_patterns, ◌>>=◌, ask}
use patterns_operator.Cluster.Runs.{Environment, run, Outcome, returned, failed}

-- The pattern names its cluster group, in one of the two fields.
abbrev pub IsGrouped : Pattern → Type 0
IsGrouped p = (p.spec.cluster_group_name ≢ "") ⊎ (p.spec.variant ≢ "")

validate_variant_alias_iff : (p : Pattern) → (validate_variant_alias p ≡ ok tt) ↔ IsGrouped p
unfolding validate_variant_alias
validate_variant_alias_iff p =
    ground (arith, eq_iff p.spec.cluster_group_name "", eq_iff p.spec.variant "")

-- The store of the API server, which answers a listing with all that it holds.
abbrev pub Lists : Environment (List Pattern) → Type 0
Lists answer = (store : List Pattern) → (answer (list_patterns "") store).0 ≡ ok store

Result-cases : (r : Result (Unit {0})) → (r ≡ ok tt) ⊎ ((x : Err) × (r ≡ err x))
Result-cases (ok tt) = inl refl
Result-cases (err x) = inr (x, refl)

abbrev refused_by : Err → Outcome (Unit {0})
refused_by x = failed x

failed-returned : (x : Err) → refused_by x ≢ returned tt
failed-returned x h = absurd (cc)

module _ (answer : Environment (List Pattern)) (lists : Lists answer) where
  listed-empty :
      (store w : List Pattern)
      → (run answer (admit_listed (ok store)) w).1 ≡ returned tt
      → store ≡ []
  unfolding admit_listed run
  listed-empty [] w h = refl
  listed-empty (q ∷ qs) w h = absurd (failed-returned _ h)

  admitted-empty :
      (p : Pattern) (store : List Pattern)
      → (run answer (validate_create (pattern_object p)) store).1 ≡ returned tt
      → IsGrouped p × (store ≡ [])
  unfolding validate_create run convert_to_pattern ask ◌>>=◌
  admitted-empty p store h = elim (Result-cases (validate_variant_alias p)) [
    | inl grouped ↦ (
      (validate_variant_alias_iff p).0 grouped,
      listed-empty store (answer (list_patterns "") store).1 (
          subst
            (λ r. (run answer (admit_listed r) (answer (list_patterns "") store).1).1 ≡ returned tt)
            (lists store) (rw grouped at h)),
    )
    | inr (x, refused) ↦ absurd (failed-returned x (rw refused at h))
  ]

-- One step of the store: a pattern is created, replaced or removed once the webhook has admitted it;
-- the check and the change are one step. The controller's writes are `replace` steps too.
pub data Step (answer : Environment (List Pattern)) : List Pattern → List Pattern → Type 0 where
  create :
      (store : List Pattern) (p : Pattern)
      → (run answer (validate_create (pattern_object p)) store).1 ≡ returned tt
      → Step answer store (p ∷ store)
  replace :
      (before after : List Pattern) (old new : Pattern)
      → validate_update (pattern_object new) ≡ ok tt
      → Step answer (before ++ old ∷ after) (before ++ new ∷ after)
  remove :
      (before after : List Pattern) (old : Pattern)
      → validate_delete (pattern_object old) ≡ ok tt
      → Step answer (before ++ old ∷ after) (before ++ after)

pub data Reachable (answer : Environment (List Pattern)) : List Pattern → Type 0 where
  initially : Reachable answer []
  afterwards :
      (store store' : List Pattern)
      → Reachable answer store
      → Step answer store store'
      → Reachable answer store'

abbrev pub IsSingleton : List Pattern → Type 0
IsSingleton store = (length store ≤ 1) × All IsGrouped store

module _ (answer : Environment (List Pattern)) (lists : Lists answer) where
  All-replace :
      (before after : List Pattern) (old new : Pattern)
      → IsGrouped new
      → All IsGrouped (before ++ old ∷ after)
      → All IsGrouped (before ++ new ∷ after)
  All-replace [] after old new g h = (g, h.1)
  All-replace (b ∷ bs) after old new g h = (h.0, All-replace bs after old new g h.1)

  All-remove :
      (before after : List Pattern) (old : Pattern)
      → All IsGrouped (before ++ old ∷ after)
      → All IsGrouped (before ++ after)
  All-remove [] after old h = h.1
  All-remove (b ∷ bs) after old h = (h.0, All-remove bs after old h.1)

  Step-IsSingleton :
      (store store' : List Pattern)
      → Step answer store store'
      → IsSingleton store
      → IsSingleton store'
  unfolding validate_update convert_to_pattern
  Step-IsSingleton _ _ (create store p h) i =
      let (grouped, empty) = admitted-empty answer lists p store h in
      subst (λ s. IsSingleton (p ∷ s)) (sym empty) (omega arith, (grouped, tt))
  Step-IsSingleton _ _ (replace before after old new h) i = (
    omega (arith, length-append before (old ∷ after), length-append before (new ∷ after), i.0),
    All-replace before after old new ((validate_variant_alias_iff new).0 h) i.1,
  )
  Step-IsSingleton _ _ (remove before after old h) i = (
    omega (arith, length-append before (old ∷ after), length-append before after, i.0),
    All-remove before after old i.1,
  )

  -- From an empty store, with changes made one at a time, each admitted by the webhook in one step with
  -- the change itself, and if every listing of the webhook shows all that is stored (no cache is behind
  -- and no two creations race): there is never more than one Pattern, and each stored Pattern names its
  -- cluster group.
  pub Reachable-IsSingleton : (store : List Pattern) → Reachable answer store → IsSingleton store
  Reachable-IsSingleton _ initially = (omega arith, tt)
  Reachable-IsSingleton _ (afterwards store store' r s) =
      Step-IsSingleton store store' s (Reachable-IsSingleton store r)
