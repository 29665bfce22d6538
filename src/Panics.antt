-- ===== src/Panics.antt =====
-- Pure code that may panic: `none` is the panic.
use patterns_operator.Prelude.{Option, none, some}

infixl 5 ◌>>=◌
abbrev pub ◌>>=◌ : {A B : Type 0} → Option A → (A → Option B) → Option B
none >>= f = none
some a >>= f = f a
