-- ===== src/Bootstrap/Maps.antt =====
-- What the comparison of two secrets decides (internal/controller/utils.go, compareMaps).
use patterns_operator.Prelude.{
  subst, suc, String, Bool, true, false, ◌&&◌, Option, none, some, List, [], ◌∷◌, ◌≡◌, ◌≢◌, ◌↔◌,
  refl, sym, ap, ◌∙◌, ◌==◌, lookup, length, all, if◌then◌else◌, nat_eq_iff, Bool-cases, inl, inr,
  eq_iff, arith,
}
use patterns_operator.Bootstrap.{compare_maps, bound_alike, is_value}

abbrev Map : Type 0
Map = List (String × String)

-- Each key is bound once, as in every Go map.
abbrev pub HasUniqueKeys : List (String × String) → Type 0
HasUniqueKeys [] = Unit
HasUniqueKeys ((k, v) ∷ m) = (lookup k m ≡ none) × HasUniqueKeys m

some-none : (v : String) → some v ≢ none
some-none v h = absurd (cc)

-- The map without the first binding of a key.
abbrev remove : String → Map → Map
remove k [] = []
remove k ((j, v) ∷ m) = let rest = remove k m in if j == k then m else (j, v) ∷ rest

lookup-remove_other : (k j : String) (m : Map) → j ≢ k → lookup j (remove k m) ≡ lookup j m
lookup-remove_other k j [] h = refl
lookup-remove_other k j ((i, v) ∷ m) h =
    ground (arith, eq_iff i k, eq_iff i j, lookup-remove_other k j m h)

lookup-remove : (k : String) (m : Map) → HasUniqueKeys m → lookup k (remove k m) ≡ none
lookup-remove k [] u = refl
lookup-remove k ((i, v) ∷ m) u = elim (Bool-cases (i == k)) [
  | inl e ↦ rw e (subst (λ x. lookup x m ≡ none) ((eq_iff i k).0 e) u.0)
  | inr e ↦ rw (e, e) (lookup-remove k m u.1)
]

HasUniqueKeys-remove : (k : String) (m : Map) → HasUniqueKeys m → HasUniqueKeys (remove k m)
HasUniqueKeys-remove k [] u = tt
HasUniqueKeys-remove k ((i, v) ∷ m) u = elim (Bool-cases (i == k)) [
  | inl e ↦ rw e u.1
  | inr e ↦ rw e (
    lookup-remove_other k i m (λ p. ground (arith, eq_iff i k)) ∙ u.0,
    HasUniqueKeys-remove k m u.1,
  )
]

length-remove :
    (k v : String) (m : Map) → lookup k m ≡ some v → length m ≡ suc (length (remove k m))
length-remove k v [] h = absurd (cc)
length-remove k v ((i, w) ∷ m) h = elim (Bool-cases (i == k)) [
  | inl e ↦ rw e refl
  | inr e ↦ rw e (ap suc (length-remove k v m (rw e at h)))
]

is_value-some : (v : String) (o : Option String) → is_value v o ≡ true → o ≡ some v
is_value-some v none h = absurd (cc)
is_value-some v (some w) h = ap (λ x. some x) (sym ((eq_iff v w).0 h))

some-is_value : (v : String) (o : Option String) → o ≡ some v → is_value v o ≡ true
some-is_value v o h = rw h ((eq_iff v v).1 refl)

both : (a b : Bool) → a && b ≡ true → (a ≡ true) × (b ≡ true)
both a b h = ground arith

-- What is bound alike in a map is so without a key that it does not bind.
all-remove :
    (k : String) (r m : Map)
    → lookup k r ≡ none
    → all (bound_alike m) r ≡ true
    → all (bound_alike (remove k m)) r ≡ true
all-remove k [] m u h = refl
all-remove k ((j, w) ∷ r) m u h = elim (Bool-cases (j == k)) [
  | inl e ↦ absurd (some-none w (rw e at u))
  | inr e ↦
      let (here, there) = both (bound_alike m (j, w)) (all (bound_alike m) r) h in
      rw (lookup-remove_other k j m (λ p. ground (arith, eq_iff j k)), here)
        (all-remove k r m (rw e at u) there)
]

lookup-same :
    (m1 m2 : Map)
    → HasUniqueKeys m1
    → HasUniqueKeys m2
    → length m1 ≡ length m2
    → all (bound_alike m2) m1 ≡ true
    → (k : String) → lookup k m1 ≡ lookup k m2
lookup-same [] [] u w l h k = refl
lookup-same [] (b ∷ m2) u w l h k = ground arith
lookup-same ((j, v) ∷ r) m2 u w l h k =
    let (here, there) = both _ _ h in
    let at_j : lookup j m2 ≡ some v = is_value-some v _ here in
    let shorter : length r ≡ length (remove j m2) = omega (arith, l, length-remove j v m2 at_j) in
    let rest =
      lookup-same r (remove j m2) u.1 (HasUniqueKeys-remove j m2 w) shorter
        (all-remove j r m2 u.0 there) k in
    elim (Bool-cases (j == k)) [
      | inl e ↦ rw e (sym (subst (λ x. lookup x m2 ≡ some v) ((eq_iff j k).0 e) at_j))
      | inr e ↦ rw e (rest ∙ lookup-remove_other j k m2 (λ p. ground (arith, eq_iff j k)))
    ]

-- The two maps bind the same keys to the same values.
abbrev pub SameMap : List (String × String) → List (String × String) → Type 0
SameMap m1 m2 = (k : String) → lookup k m1 ≡ lookup k m2

same-length :
    (m1 m2 : Map) → HasUniqueKeys m1 → HasUniqueKeys m2 → SameMap m1 m2 → length m1 ≡ length m2
same-length [] [] u w s = refl
same-length [] ((j, v) ∷ m2) u w s = absurd (some-none v (first ∙ sym (s j)))
  where
    first : some v ≡ lookup j ((j, v) ∷ m2)
    first = rw ((eq_iff j j).1 refl) refl
same-length ((j, v) ∷ r) m2 u w s =
    let at_j : lookup j m2 ≡ some v = sym (s j) ∙ rw ((eq_iff j j).1 refl) refl in
    omega (
      arith,
      length-remove j v m2 at_j,
      same-length r (remove j m2) u.1 (HasUniqueKeys-remove j m2 w) (without j v r u.0 m2 w s),
    )
  where
    without :
        (j v : String) (r : Map)
        → lookup j r ≡ none
        → (m : Map) → HasUniqueKeys m
        → SameMap ((j, v) ∷ r) m
        → SameMap r (remove j m)
    without j v r u m w s k = elim (Bool-cases (j == k)) [
      | inl e ↦
          subst (λ x. lookup x r ≡ lookup x (remove j m)) ((eq_iff j k).0 e)
            (u ∙ sym (lookup-remove j m w))
      | inr e ↦ (rw e at (s k)) ∙ sym (lookup-remove_other j k m (λ p. ground (arith, eq_iff j k)))
    ]

same-all :
    (r m1 m2 : Map) → SameMap m1 m2 → all (bound_alike m1) r ≡ true → all (bound_alike m2) r ≡ true
same-all [] m1 m2 s h = refl
same-all ((j, v) ∷ r) m1 m2 s h =
    let (here, there) = both _ _ h in
    rw (some-is_value v _ (sym (s j) ∙ is_value-some v _ here)) (same-all r m1 m2 s there)

all-cons :
    (k v : String) (r m : Map)
    → lookup k r ≡ none
    → all (bound_alike m) r ≡ true
    → all (bound_alike ((k, v) ∷ m)) r ≡ true
all-cons k v [] m u h = refl
all-cons k v ((j, w) ∷ r) m u h = elim (Bool-cases (j == k)) [
  | inl e ↦ absurd (some-none w (rw e at u))
  | inr e ↦
      let (here, there) = both (bound_alike m (j, w)) (all (bound_alike m) r) h in
      let other : k == j ≡ false = ground (arith, eq_iff j k, eq_iff k j, e) in
      rw (other, here) (all-cons k v r m (rw e at u) there)
]

all_self : (m : Map) → HasUniqueKeys m → all (bound_alike m) m ≡ true
all_self [] u = refl
all_self ((k, v) ∷ m) u =
    rw ((eq_iff k k).1 refl, (eq_iff v v).1 refl) (all-cons k v m m u.0 (all_self m u.1))

-- If each key is bound once in each of two maps, `compareMaps` holds exactly when the maps bind the
-- same keys to the same values.
pub compare_maps_iff :
    (m1 m2 : List (String × String))
    → HasUniqueKeys m1
    → HasUniqueKeys m2
    → (compare_maps m1 m2 ≡ true) ↔ SameMap m1 m2
unfolding compare_maps
compare_maps_iff m1 m2 u w = (to, from)
  where
    to : compare_maps m1 m2 ≡ true → SameMap m1 m2
    to h =
        lookup-same m1 m2 u w ((nat_eq_iff (length m1) (length m2)).0 (ground arith)) (ground arith)

    from : SameMap m1 m2 → compare_maps m1 m2 ≡ true
    from s =
        rw ((nat_eq_iff (length m1) (length m2)).1 (same-length m1 m2 u w s))
          (same-all m1 m1 m2 s (all_self m1 u))
