-- ===== src/Errors.antt =====
-- Go's `error` values, as far as the operator looks at them: their text, and the class that
-- `kerrors.IsNotFound` and its siblings read. A text is kept up to numbers, response bodies and the
-- escapes of `%q`, which no code reads back.
use patterns_operator.Prelude.{String, Bool, true, false, ◌≡◌, refl, ◌⊎◌, inl, inr}

pub data Class : Type 0 where
  not_found already_exists conflict general : Class

pub record Err : Type 0 where
  pub class : Class
  pub message : String

-- A pair `(value, error)` of which the caller reads one half.
pub data Result {ℓ} (A : Type ℓ) : Type ℓ where
  ok : A → Result A
  err : Err → Result A

-- `fmt.Errorf` without `%w`: the class of a quoted error is lost.
abbrev pub errorf : String → Err
errorf s = record { class = general; message = s }

-- `fmt.Errorf("…: %w", e)`: the class stays.
abbrev pub wrap : String → Err → Err
wrap s e = record e { message = s }

abbrev pub is_not_found_class : Class → Bool
is_not_found_class not_found = true
is_not_found_class _ = false

abbrev pub is_not_found : Err → Bool
is_not_found e = is_not_found_class e.class

abbrev pub is_already_exists_class : Class → Bool
is_already_exists_class already_exists = true
is_already_exists_class _ = false

abbrev pub is_already_exists : Err → Bool
is_already_exists e = is_already_exists_class e.class

pub Result-cases : {A : Type 0} (r : Result A) → ((a : A) × (r ≡ ok a)) ⊎ ((x : Err) × (r ≡ err x))
Result-cases (ok a) = inl (a, refl)
Result-cases (err x) = inr (x, refl)
