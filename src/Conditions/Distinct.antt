-- ===== src/Conditions/Distinct.antt =====
-- What the setters of internal/controller/utils.go keep of the conditions.
use patterns_operator.Prelude.{
  subst, ℕ, String, Option, none, some, List, [], ◌∷◌, ◌==◌, if◌then◌else◌, ◌≡◌, ◌≢◌, refl, All,
  eq_iff, arith, Bool-cases, Option-cases, inl, inr, sym, ◌∙◌, ap,
}
use patterns_operator.Api.{PatternCondition}
use patterns_operator.Conditions.{
  find, get_pattern_condition_by_type, put, new_condition, transition_time, set_condition,
  remove_condition,
}

-- No two conditions have one type.
abbrev pub Distinct : List PatternCondition → Type 0
Distinct [] = Unit
Distinct (c ∷ cs) = All (λ d. c.type ≢ d.type) cs × Distinct cs

-- The condition of a type, if there is one.
abbrev pub condition_of : String → List PatternCondition → Option PatternCondition
condition_of type [] = none
condition_of type (c ∷ cs) = if c.type == type then some c else condition_of type cs

-- The setter by structure: the first condition of the type is replaced, or the new one put last.
abbrev replaced : PatternCondition → List PatternCondition → List PatternCondition
replaced n [] = n ∷ []
replaced n (c ∷ cs) = let rest = replaced n cs in if c.type == n.type then n ∷ cs else c ∷ rest

abbrev dropped : String → List PatternCondition → List PatternCondition
dropped type [] = []
dropped type (c ∷ cs) = let rest = dropped type cs in if c.type == type then cs else c ∷ rest

put-replaced :
    (n : PatternCondition) (cs : List PatternCondition)
    → put n (find (λ c. c.type == n.type) cs) cs ≡ replaced n cs
put-replaced n [] = refl
put-replaced n (c ∷ cs) = elim (Bool-cases (c.type == n.type)) [
  | inl e ↦ rw e refl
  | inr e ↦ elim (Option-cases (find (λ d. d.type == n.type) cs)) [
    | inl f ↦ rw (e, f) (ap (λ l. c ∷ l) ((rw f at (put-replaced n cs))))
    | inr (x, f) ↦ rw (e, f) (ap (λ l. c ∷ l) ((rw f at (put-replaced n cs))))
  ]
]

set_condition-replaced :
    (now : ℕ) (type status message : String) (cs : List PatternCondition)
    → set_condition now type status message cs
      ≡ replaced (new_condition now type status message (find (λ c. c.type == type) cs)) cs
unfolding set_condition get_pattern_condition_by_type
set_condition-replaced now type status message cs =
    put-replaced (new_condition now type status message (find (λ c. c.type == type) cs)) cs

remove_condition-dropped :
    (type : String) (cs : List PatternCondition) → remove_condition type cs ≡ dropped type cs
unfolding remove_condition get_pattern_condition_by_type
remove_condition-dropped type [] = refl
remove_condition-dropped type (c ∷ cs) = elim (Bool-cases (c.type == type)) [
  | inl e ↦ rw e refl
  | inr e ↦ elim (Option-cases (find (λ d. d.type == type) cs)) [
    | inl f ↦ rw (e, f) (ap (λ l. c ∷ l) (rw f at (remove_condition-dropped type cs)))
    | inr (x, f) ↦ rw (e, f) (ap (λ l. c ∷ l) (rw f at (remove_condition-dropped type cs)))
  ]
]

abbrev found : Option (ℕ × PatternCondition) → Option PatternCondition
found none = none
found (some (i, c)) = some c

found-find :
    (type : String) (cs : List PatternCondition)
    → found (find (λ c. c.type == type) cs) ≡ condition_of type cs
found-find type [] = refl
found-find type (c ∷ cs) = elim (Bool-cases (c.type == type)) [
  | inl e ↦ rw e refl
  | inr e ↦ elim (Option-cases (find (λ d. d.type == type) cs)) [
    | inl f ↦ rw (e, f) (rw f at (found-find type cs))
    | inr (x, f) ↦ rw (e, f) (rw f at (found-find type cs))
  ]
]

-- When the condition last changed its status.
abbrev pub since : ℕ → String → Option PatternCondition → ℕ
since now status none = now
since now status (some c) = if c.status == status then c.last_transition_time else now

transition_time-since :
    (now : ℕ) (status : String) (x : Option (ℕ × PatternCondition))
    → transition_time now status x ≡ since now status (found x)
unfolding transition_time
transition_time-since now status none = refl
transition_time-since now status (some (i, c)) = refl

condition_of-replaced :
    (n : PatternCondition) (cs : List PatternCondition)
    → condition_of n.type (replaced n cs) ≡ some n
condition_of-replaced n [] = ground (arith, eq_iff n.type n.type)
condition_of-replaced n (c ∷ cs) = ground (arith, eq_iff n.type n.type, condition_of-replaced n cs)

condition_of-replaced_other :
    (n : PatternCondition) (type : String) (cs : List PatternCondition)
    → type ≢ n.type
    → condition_of type (replaced n cs) ≡ condition_of type cs
condition_of-replaced_other n type [] h = ground (arith, eq_iff n.type type)
condition_of-replaced_other n type (c ∷ cs) h = ground (
  arith,
  eq_iff n.type type,
  eq_iff c.type n.type,
  eq_iff c.type type,
  condition_of-replaced_other n type cs h,
)

All-replaced :
    (t : String) (n : PatternCondition) (cs : List PatternCondition)
    → t ≢ n.type
    → All (λ d. t ≢ d.type) cs
    → All (λ d. t ≢ d.type) (replaced n cs)
All-replaced t n [] h a = (h, tt)
All-replaced t n (c ∷ cs) h a = elim (Bool-cases (c.type == n.type)) [
  | inl e ↦ rw e (h, a.1)
  | inr e ↦ rw e (a.0, All-replaced t n cs h a.1)
]

replaced-Distinct :
    (n : PatternCondition) (cs : List PatternCondition) → Distinct cs → Distinct (replaced n cs)
replaced-Distinct n [] h = (tt, tt)
replaced-Distinct n (c ∷ cs) h = elim (Bool-cases (c.type == n.type)) [
  | inl e ↦ rw e (subst (λ t. All (λ d. t ≢ d.type) cs) ((eq_iff c.type n.type).0 e) h.0, h.1)
  | inr e ↦ rw e (
    All-replaced c.type n cs (λ p. ground (arith, eq_iff c.type n.type)) h.0,
    replaced-Distinct n cs h.1,
  )
]

condition_of-absent :
    (type : String) (cs : List PatternCondition)
    → All (λ d. type ≢ d.type) cs
    → condition_of type cs ≡ none
condition_of-absent type [] h = refl
condition_of-absent type (c ∷ cs) h = elim (Bool-cases (c.type == type)) [
  | inl e ↦ absurd (h.0 (sym ((eq_iff c.type type).0 e)))
  | inr e ↦ rw e (condition_of-absent type cs h.1)
]

condition_of-dropped :
    (type : String) (cs : List PatternCondition)
    → Distinct cs
    → condition_of type (dropped type cs) ≡ none
condition_of-dropped type [] h = refl
condition_of-dropped type (c ∷ cs) h = elim (Bool-cases (c.type == type)) [
  | inl e ↦ rw e (
      condition_of-absent type cs
        (subst (λ t. All (λ d. t ≢ d.type) cs) ((eq_iff c.type type).0 e) h.0))
  | inr e ↦ rw (e, e) (condition_of-dropped type cs h.1)
]

condition_of-dropped_other :
    (type another : String) (cs : List PatternCondition)
    → another ≢ type
    → condition_of another (dropped type cs) ≡ condition_of another cs
condition_of-dropped_other type another [] h = refl
condition_of-dropped_other type another (c ∷ cs) h =
    ground (
      arith,
      eq_iff c.type type,
      eq_iff c.type another,
      condition_of-dropped_other type another cs h,
    )

All-dropped :
    (t type : String) (cs : List PatternCondition)
    → All (λ d. t ≢ d.type) cs
    → All (λ d. t ≢ d.type) (dropped type cs)
All-dropped t type [] a = tt
All-dropped t type (c ∷ cs) a = elim (Bool-cases (c.type == type)) [
  | inl e ↦ rw e a.1
  | inr e ↦ rw e (a.0, All-dropped t type cs a.1)
]

dropped-Distinct :
    (type : String) (cs : List PatternCondition) → Distinct cs → Distinct (dropped type cs)
dropped-Distinct type [] h = tt
dropped-Distinct type (c ∷ cs) h = elim (Bool-cases (c.type == type)) [
  | inl e ↦ rw e h.1
  | inr e ↦ rw e (All-dropped c.type type cs h.0, dropped-Distinct type cs h.1)
]

-- After a condition is set at time `now`: the condition of that type has the status and the message
-- that were set, was updated at `now`, and last changed at `now`, or when the previous one did if the
-- status is the same; and the condition of any other type is what it was.
pub set_condition-condition_of :
    (now : ℕ) (type status message another : String) (cs : List PatternCondition)
    → another ≢ type
    → (condition_of type (set_condition now type status message cs)
        ≡ some (record {
          type = type;
          status = status;
          last_update_time = now;
          last_transition_time = since now status (condition_of type cs);
          message = message;
        }))
      × (condition_of another (set_condition now type status message cs) ≡ condition_of another cs)
set_condition-condition_of now type status message another cs d =
    let n : PatternCondition =
      new_condition now type status message (find (λ c. c.type == type) cs) in
    rw (set_condition-replaced now type status message cs) (
      condition_of-replaced n cs
          ∙ ap (λ t. some (record n { last_transition_time = t }))
              (transition_time-since now status _ ∙ ap (since now status) (found-find type cs)),
      condition_of-replaced_other n another cs d,
    )

-- If no two conditions have one type, then after a condition is removed there is none of that type,
-- and the condition of any other type is what it was.
pub remove_condition-condition_of :
    (type another : String) (cs : List PatternCondition)
    → Distinct cs
    → another ≢ type
    → (condition_of type (remove_condition type cs) ≡ none)
      × (condition_of another (remove_condition type cs) ≡ condition_of another cs)
remove_condition-condition_of type another cs h d =
    rw (remove_condition-dropped type cs)
      (condition_of-dropped type cs h, condition_of-dropped_other type another cs d)

-- If no two conditions have one type, none have after one is set or removed.
pub conditions-Distinct :
    (now : ℕ) (type status message : String) (cs : List PatternCondition)
    → Distinct cs
    → Distinct (set_condition now type status message cs) × Distinct (remove_condition type cs)
conditions-Distinct now type status message cs h =
    rw (set_condition-replaced now type status message cs, remove_condition-dropped type cs)
      (replaced-Distinct _ cs h, dropped-Distinct type cs h)
