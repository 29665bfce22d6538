-- ===== src/Prelude/Strings/Splits.antt =====
-- A text that was joined is split into its parts again.
use Prim.Native.Nat.{ℕ}
use Prim.Native.String.{String}
use Prim.Native.Char.{Char, code}
use mathlib.Core.Path.{◌≡◌, refl, sym, ap, ◌∙◌}
use mathlib.Core.Bool.{Bool, true, false, not, ◌&&◌}
use native.Mathlib.Omega.{arith}
use mathlib.Core.List.{List, [], ◌∷◌}
use text.Mathlib.TextLemmas.{nil-append, cons-append, append-nil, append_assoc}
use patterns_operator.Prelude.Tests.{nat_eq}
use patterns_operator.Prelude.Lists.{All}
use patterns_operator.Prelude.Strings.{◌^◌, split_from, split, join}

-- The separator is not in the text.
abbrev pub Lacks : ℕ → String → Type 0
Lacks c String.[] = Unit
Lacks c (String.◌∷◌ d s) = (nat_eq (code d) c ≡ false) × Lacks c s

-- The same as a test, for texts that are given.
abbrev pub lacks : ℕ → String → Bool
lacks c String.[] = true
lacks c (String.◌∷◌ d s) = not (nat_eq (code d) c) && lacks c s

pub lacks-Lacks : (c : ℕ) (s : String) → lacks c s ≡ true → Lacks c s
lacks-Lacks c String.[] h = tt
lacks-Lacks c (String.◌∷◌ d s) h = ground (arith, lacks-Lacks c s)

pub Lacks-append : (c : ℕ) (s t : String) → Lacks c s → Lacks c t → Lacks c (s ^ t)
Lacks-append c String.[] t h k = rw (nil-append t) k
Lacks-append c (String.◌∷◌ d s) t h k = rw (cons-append d s t) (h.0, Lacks-append c s t h.1 k)

-- One character more of the part that is being read.
append-cons :
    (cur : String) (d : Char) (s : String) → (cur ^ String.◌∷◌ d "") ^ s ≡ cur ^ String.◌∷◌ d s
append-cons cur d s =
    append_assoc cur (String.◌∷◌ d "") s
    ∙ ap (λ (t : String). cur ^ t)
        (cons-append d "" s ∙ ap (λ (t : String). String.◌∷◌ d t) (nil-append s))

split_from-last : (c : ℕ) (cur s : String) → Lacks c s → split_from c cur s ≡ (cur ^ s) ∷ []
unfolding split_from
split_from-last c cur String.[] h = ap (λ (t : String). t ∷ []) (sym (append-nil cur))
split_from-last c cur (String.◌∷◌ d s) h = rw h.0 (
    split_from-last c (cur ^ String.◌∷◌ d "") s h.1
    ∙ ap (λ (t : String). t ∷ []) (append-cons cur d s))

split_from-part :
    (c : ℕ) (cur s : String) (sep : Char) (rest : String)
    → nat_eq (code sep) c ≡ true
    → Lacks c s
    → split_from c cur (s ^ String.◌∷◌ sep rest) ≡ (cur ^ s) ∷ split_from c "" rest
unfolding split_from
split_from-part c cur String.[] sep rest e h =
    rw (nil-append (String.◌∷◌ sep rest), e)
      (ap (λ (t : String). t ∷ split_from c "" rest) (sym (append-nil cur)))
split_from-part c cur (String.◌∷◌ d s) sep rest e h =
    rw (cons-append d s (String.◌∷◌ sep rest), h.0)
      (split_from-part c (cur ^ String.◌∷◌ d "") s sep rest e h.1
        ∙ ap (λ (t : String). t ∷ split_from c "" rest) (append-cons cur d s))

-- One line at least, none with a line end in it.
pub split-join_lines :
    (s : String) (rest : List String)
    → Lacks b'\n' s
    → All (Lacks b'\n') rest
    → split (join (s ∷ rest) "\n") b'\n' ≡ s ∷ rest
unfolding split join
split-join_lines s [] h hs =
    split_from-last b'\n' "" s h ∙ ap (λ (t : String). t ∷ []) (nil-append s)
split-join_lines s (t ∷ rest) h hs =
    ap (λ (u : String). split_from b'\n' "" (s ^ u))
      (cons-append "\n" "" (join (t ∷ rest) "\n")
        ∙ ap (λ (u : String). String.◌∷◌ "\n" u) (nil-append (join (t ∷ rest) "\n")))
    ∙ split_from-part b'\n' "" s "\n" (join (t ∷ rest) "\n") refl h
    ∙ ap (λ (u : String). u ∷ split_from b'\n' "" (join (t ∷ rest) "\n")) (nil-append s)
    ∙ ap (λ (ts : List String). s ∷ ts) (split-join_lines t rest hs.0 hs.1)
