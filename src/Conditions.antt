-- ===== src/Conditions.antt =====
-- The conditions of a pattern's status (internal/controller/utils.go). The index -1 is `none`.
pub mod Distinct
use patterns_operator.Prelude.{
  ℕ, zero, suc, String, Bool, true, false, Option, none, some, List, [], ◌∷◌, ◌++◌, ◌==◌,
  if◌then◌else◌,
}
use patterns_operator.Api.{Pattern, PatternCondition}

abbrev shifted : Option (ℕ × PatternCondition) → Option (ℕ × PatternCondition)
shifted none = none
shifted (some (i, c)) = some (suc i, c)

-- The first condition that passes the test, with its index.
abbrev pub find : (PatternCondition → Bool) → List PatternCondition → Option (ℕ × PatternCondition)
find test [] = none
find test (c ∷ cs) = let rest = find test cs in if test c then some (0, c) else shifted rest

unfoldable pub get_pattern_condition_by_status :
    List PatternCondition → String → Option (ℕ × PatternCondition)
get_pattern_condition_by_status conditions status = find (λ c. c.status == status) conditions

unfoldable pub get_pattern_condition_by_type :
    List PatternCondition → String → Option (ℕ × PatternCondition)
get_pattern_condition_by_type conditions type = find (λ c. c.type == type) conditions

-- `conditions[i] = c`
abbrev pub assign : ℕ → PatternCondition → List PatternCondition → List PatternCondition
assign i c [] = []
assign zero c (d ∷ ds) = c ∷ ds
assign (suc i) c (d ∷ ds) = d ∷ assign i c ds

-- `append(conditions[:i], conditions[i+1:]...)`
abbrev pub drop_at : ℕ → List PatternCondition → List PatternCondition
drop_at i [] = []
drop_at zero (d ∷ ds) = ds
drop_at (suc i) (d ∷ ds) = d ∷ drop_at i ds

-- The time of the last transition: kept while the status stays.
unfoldable pub transition_time : ℕ → String → Option (ℕ × PatternCondition) → ℕ
transition_time now status none = now
transition_time now status (some (i, c)) =
    if c.status == status then c.last_transition_time else now

abbrev pub new_condition :
    ℕ → String → String → String → Option (ℕ × PatternCondition) → PatternCondition
new_condition now type status message existing = record {
  type = type;
  status = status;
  last_update_time = now;
  last_transition_time = transition_time now status existing;
  message = message;
}

abbrev pub put :
    PatternCondition → Option (ℕ × PatternCondition) → List PatternCondition → List PatternCondition
put c none cs = cs ++ c ∷ []
put c (some (i, _)) cs = assign i c cs

abbrev pub drop_found :
    Option (ℕ × PatternCondition) → List PatternCondition → List PatternCondition
drop_found none cs = cs
drop_found (some (i, _)) cs = drop_at i cs

-- The conditions after `setPatternCondition` at time `now`.
unfoldable pub set_condition :
    ℕ → String → String → String → List PatternCondition → List PatternCondition
set_condition now type status message cs =
    let existing = get_pattern_condition_by_type cs type in
    put (new_condition now type status message existing) existing cs

unfoldable pub remove_condition : String → List PatternCondition → List PatternCondition
remove_condition type cs = drop_found (get_pattern_condition_by_type cs type) cs

unfoldable pub set_pattern_condition : ℕ → Pattern → String → String → String → Pattern
set_pattern_condition now p type status message = record p {
  status = record p.status {
    conditions = set_condition now type status message p.status.conditions;
  };
}

unfoldable pub remove_pattern_condition : Pattern → String → Pattern
remove_pattern_condition p type = record p {
  status = record p.status { conditions = remove_condition type p.status.conditions };
}
