-- ===== src/Kube/Owner.antt =====
-- Owner references (internal/controller/kube.go: ownedBySame, ownedBy, referSameObject).
pub mod Exact
use patterns_operator.Prelude.{
  String, Bool, true, false, ◌&&◌, Option, none, some, List, [], ◌∷◌, ◌==◌, if◌then◌else◌,
}

pub record OwnerReference : Type 0 where
  pub api_version : String
  pub kind : String
  pub name : String
  pub uid : String

pub record GroupVersion : Type 0 where
  pub group : String
  pub version : String

-- The parameter is `schema.ParseGroupVersion`; `none` is its error.
module _ (parse_group_version : String → Option GroupVersion) where
  abbrev same_group_version : Option GroupVersion → Option GroupVersion → Bool
  same_group_version none b = false
  same_group_version (some a) none = false
  same_group_version (some a) (some b) = a.version == b.version && a.group == b.group

  unfoldable pub refer_same_object : OwnerReference → OwnerReference → Bool
  refer_same_object a b =
      same_group_version (parse_group_version a.api_version) (parse_group_version b.api_version)
      && a.kind == b.kind
      && a.name == b.name
      && a.uid == b.uid

  unfoldable pub owned_by : List OwnerReference → OwnerReference → Bool
  owned_by [] ref = false
  owned_by (o ∷ os) ref = if refer_same_object o ref then true else owned_by os ref

  unfoldable pub owned_by_same : List OwnerReference → List OwnerReference → Bool
  owned_by_same [] object = true
  owned_by_same (r ∷ rs) object = if owned_by object r then owned_by_same rs object else false
