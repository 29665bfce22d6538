-- ===== src/Kube/Owner/Exact.antt =====
-- What the ownership test of internal/controller/kube.go decides.
use patterns_operator.Prelude.{
  String, true, Option, none, some, List, [], ◌∷◌, ◌≡◌, ◌↔◌, inl, inr, refl, All, Any, arith,
  eq_iff, Bool-cases,
}
use patterns_operator.Kube.Owner.{
  OwnerReference, GroupVersion, refer_same_object, owned_by, owned_by_same,
}

module _ (parse_group_version : String → Option GroupVersion) where
  -- Both references name one object: their API versions parse to one group and version, and kind,
  -- name and UID agree.
  pub record SameObject (a b : OwnerReference) : Type 0 where
    pub group_version : GroupVersion
    pub parsed : parse_group_version a.api_version ≡ some group_version
    pub parsed' : parse_group_version b.api_version ≡ some group_version
    pub kind : a.kind ≡ b.kind
    pub name : a.name ≡ b.name
    pub uid : a.uid ≡ b.uid

  refer_same_object_sound :
      (a b : OwnerReference) (x y : Option GroupVersion)
      → parse_group_version a.api_version ≡ x
      → parse_group_version b.api_version ≡ y
      → refer_same_object parse_group_version a b ≡ true
      → SameObject a b
  unfolding refer_same_object
  refer_same_object_sound a b none y p q h = ground arith
  refer_same_object_sound a b (some x) none p q h = ground arith
  refer_same_object_sound a b (some x) (some y) p q h = record {
    group_version = x;
    parsed = p;
    parsed' = ground (arith, eq_iff x.version y.version, eq_iff x.group y.group);
    kind = (eq_iff a.kind b.kind).0 (ground arith);
    name = (eq_iff a.name b.name).0 (ground arith);
    uid = (eq_iff a.uid b.uid).0 (ground arith);
  }

  refer_same_object_complete :
      (a b : OwnerReference) → SameObject a b → refer_same_object parse_group_version a b ≡ true
  unfolding refer_same_object
  refer_same_object_complete a b s = ground (
    arith,
    s.parsed,
    s.parsed',
    eq_iff a.kind b.kind,
    eq_iff a.name b.name,
    eq_iff a.uid b.uid,
    eq_iff s.group_version.version s.group_version.version,
    eq_iff s.group_version.group s.group_version.group,
  )

  owned_by_sound :
      (os : List OwnerReference) (r : OwnerReference)
      → owned_by parse_group_version os r ≡ true
      → Any (λ o. SameObject o r) os
  unfolding owned_by
  owned_by_sound [] r h = absurd (cc)
  owned_by_sound (o ∷ os) r h = elim (Bool-cases (refer_same_object parse_group_version o r)) [
    | inl e ↦ inl (refer_same_object_sound o r _ _ refl refl e)
    | inr e ↦ inr (owned_by_sound os r (rw e at h))
  ]

  owned_by_complete :
      (os : List OwnerReference) (r : OwnerReference)
      → Any (λ o. SameObject o r) os
      → owned_by parse_group_version os r ≡ true
  unfolding owned_by
  owned_by_complete [] r h = elim h [ ]
  owned_by_complete (o ∷ os) r (inl s) = rw (refer_same_object_complete o r s)
  owned_by_complete (o ∷ os) r (inr s) = ground (arith, owned_by_complete os r s)

  owned_by_same_sound :
      (rs object : List OwnerReference)
      → owned_by_same parse_group_version rs object ≡ true
      → All (λ r. Any (λ o. SameObject o r) object) rs
  unfolding owned_by_same
  owned_by_same_sound [] object h = tt
  owned_by_same_sound (r ∷ rs) object h =
      (owned_by_sound object r (ground arith), owned_by_same_sound rs object (ground arith))

  owned_by_same_complete :
      (rs object : List OwnerReference)
      → All (λ r. Any (λ o. SameObject o r) object) rs
      → owned_by_same parse_group_version rs object ≡ true
  unfolding owned_by_same
  owned_by_same_complete [] object h = refl
  owned_by_same_complete (r ∷ rs) object h =
      rw (owned_by_complete object r h.0) (owned_by_same_complete rs object h.1)

  -- `ownedBySame` holds exactly when every expected reference names the same object as some reference
  -- of the object: equal kind, name and UID, and API versions that parse to one group and version.
  pub owned_by_same_iff :
      (expected object : List OwnerReference)
      → (owned_by_same parse_group_version expected object ≡ true)
        ↔ All (λ r. Any (λ o. SameObject o r) object) expected
  owned_by_same_iff expected object =
      (owned_by_same_sound expected object, owned_by_same_complete expected object)
