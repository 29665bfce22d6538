-- ===== src/Argo/Parameters/Overrides.antt =====
-- What becomes of extra parameters and of the deletion phase (newApplicationParameters).
use patterns_operator.Prelude.{
  String, Bool, true, false, Option, none, some, List, [], ◌∷◌, ◌++◌, ◌≡◌, ◌≢◌, refl, ap, ◌∙◌,
  arith, eq_iff, inl, inr, Bool-cases, ◌&&◌, ◌==◌, if◌then◌else◌, or_else,
}
use patterns_operator.Api.{Pattern, PatternParameter, is_being_deleted}
use patterns_operator.Files.{Files}
use patterns_operator.Defaults.{Env, ActiveArgo}
use patterns_operator.Argo.{HelmParameter}
use patterns_operator.Argo.Parameters.{
  parameter, update_helm_parameter, add_extra_parameters, base_parameters, add_delete_parameter,
  new_application_parameters, delete_parameter, delete_pattern_value,
}

-- The value that Helm gives a name: of two parameters with one name the later counts.
abbrev pub value_of : String → List HelmParameter → Option String
value_of n [] = none
value_of n (q ∷ qs) = or_else (value_of n qs) (if n == q.name then some q.value else none)

-- The value of the first extra parameter of that name.
abbrev pub extra_value_of : String → List PatternParameter → Option String
extra_value_of n [] = none
extra_value_of n (x ∷ xs) =
    or_else (if n == x.name then some x.value else none) (extra_value_of n xs)

value_of-append :
    (n : String) (xs ys : List HelmParameter)
    → value_of n (xs ++ ys) ≡ or_else (value_of n ys) (value_of n xs)
value_of-append n [] ys = ground arith
value_of-append n (x ∷ xs) ys = ground (arith, value_of-append n xs ys)

-- `updateHelmParameter` finds a name exactly when it has a value.
update_helm_parameter-value_of :
    (goal : PatternParameter) (xs : List HelmParameter)
    → (update_helm_parameter goal xs ≡ false → value_of goal.name xs ≡ none)
      × (update_helm_parameter goal xs ≡ true → value_of goal.name xs ≢ none)
unfolding update_helm_parameter
update_helm_parameter-value_of goal [] = ground arith
update_helm_parameter-value_of goal (x ∷ xs) =
    ground (arith, update_helm_parameter-value_of goal xs)

add_extra_parameters-value_of :
    (n : String) (extras : List PatternParameter) (ps : List HelmParameter)
    → value_of n (add_extra_parameters extras ps)
      ≡ or_else (value_of n ps) (extra_value_of n extras)
unfolding add_extra_parameters
add_extra_parameters-value_of n [] ps = ground arith
add_extra_parameters-value_of n (x ∷ xs) ps = elim (Bool-cases (update_helm_parameter x ps)) [
  | inl old ↦ rw old (
      ground (
        arith,
        add_extra_parameters-value_of n xs ps,
        update_helm_parameter-value_of x ps,
        eq_iff n x.name,
      ))
  | inr new ↦ rw new (
      ground (
        arith,
        add_extra_parameters-value_of n xs (ps ++ parameter x.name x.value ∷ []),
        update_helm_parameter-value_of x ps,
        eq_iff n x.name,
        value_of-append n ps (parameter x.name x.value ∷ []),
      ))
]

abbrev pub deletion_value : String → Pattern → Option String
deletion_value n p =
    if is_being_deleted p && n == "global.deletePattern"
    then some (delete_pattern_value p.status.deletion_phase)
    else none

add_delete_parameter-value_of :
    (n : String) (p : Pattern) (ps : List HelmParameter)
    → value_of n (add_delete_parameter p ps) ≡ or_else (deletion_value n p) (value_of n ps)
unfolding add_delete_parameter
add_delete_parameter-value_of n p ps = elim (Bool-cases (is_being_deleted p)) [
  | inl e ↦ rw e (value_of-append n ps (delete_parameter p.status.deletion_phase ∷ []))
  | inr e ↦ rw e refl
]

-- The value that a name has among the parameters of the Application, for a pattern whose multi-source
-- flag is set: the deletion phase for `global.deletePattern` of a pattern that is being deleted;
-- otherwise the operator's own value if it has one; only otherwise that of the first extra parameter
-- of that name. So an extra parameter never overrides a parameter of the operator.
pub new_application_parameters-value_of :
    (e : Env) (active : ActiveArgo) (files : Files) (p : Pattern) (b : Bool) (n : String)
    → p.spec.multi_source_config.enabled ≡ some b
    → (ps : List HelmParameter) × (new_application_parameters e active files p ≡ some ps)
      × (value_of n ps
          ≡ or_else (deletion_value n p) (
              or_else
                (value_of n (base_parameters e active files p b))
                (extra_value_of n p.spec.extra_parameters)))
unfolding new_application_parameters
new_application_parameters-value_of e active files p b n h =
    let base = base_parameters e active files p b in
    let extended = add_extra_parameters p.spec.extra_parameters base in
    (
      add_delete_parameter p extended,
      ground arith,
      add_delete_parameter-value_of n p extended
          ∙ ap (or_else (deletion_value n p))
              (add_extra_parameters-value_of n p.spec.extra_parameters base),
    )
