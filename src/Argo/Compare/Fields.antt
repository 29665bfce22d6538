-- ===== src/Argo/Compare/Fields.antt =====
-- The parts of the comparison of internal/controller/argo.go that decide equality.
use patterns_operator.Prelude.{
  String, true, Option, none, some, List, [], ◌∷◌, ◌≡◌, ◌↔◌, refl, ap, arith, eq_iff, length,
}
use patterns_operator.Argo.{
  ℤ, pos, negsuc, Slice, HelmParameter, SyncPolicyAutomated, RetryStrategy, SyncPolicy,
}
use patterns_operator.Argo.Compare.{
  int_eq, compare_retry_strategy, compare_automated_sync_policy, compare_texts,
  compare_sync_options, compare_sync_policy, compare_helm_value_files, compare_parameters,
  compare_helm_parameters,
}

abbrev pub OptionAgrees : {A : Type 0} → (A → A → Type 0) → Option A → Option A → Type 0
OptionAgrees R none none = Unit
OptionAgrees R none (some b) = ⊥
OptionAgrees R (some a) none = ⊥
OptionAgrees R (some a) (some b) = R a b

-- What of two retry strategies has to agree: the limit. The back-off and the refresh are not compared.
pub record RetryAgrees (a b : RetryStrategy) : Type 0 where
  pub limit : a.limit ≡ b.limit

-- What of two automated policies has to agree; whether they are enabled is not compared.
pub record AutomatedAgrees (a b : SyncPolicyAutomated) : Type 0 where
  pub prune : a.prune ≡ b.prune
  pub self_heal : a.self_heal ≡ b.self_heal
  pub allow_empty : a.allow_empty ≡ b.allow_empty

-- What of two sync policies has to agree; the metadata of the managed namespace is not compared.
pub record SyncPolicyAgrees (a b : SyncPolicy) : Type 0 where
  pub automated : OptionAgrees AutomatedAgrees a.automated b.automated
  pub sync_options : a.sync_options ≡ b.sync_options
  pub retry : OptionAgrees RetryAgrees a.retry b.retry

int_eq_iff : (a b : ℤ) → (int_eq a b ≡ true) ↔ (a ≡ b)
int_eq_iff (pos a) (pos b) = ground arith
int_eq_iff (pos a) (negsuc b) = ground arith
int_eq_iff (negsuc a) (pos b) = ground arith
int_eq_iff (negsuc a) (negsuc b) = ground arith

retry_strategy_iff :
    (a b : Option RetryStrategy)
    → (compare_retry_strategy a b ≡ true) ↔ OptionAgrees RetryAgrees a b
unfolding compare_retry_strategy
retry_strategy_iff none none = (λ h. tt, λ h. refl)
retry_strategy_iff none (some b) = (λ h. absurd (cc), λ h. absurd h)
retry_strategy_iff (some a) none = (λ h. absurd (cc), λ h. absurd h)
retry_strategy_iff (some a) (some b) = (
  λ h. record { limit = (int_eq_iff a.limit b.limit).0 h },
  λ h. (int_eq_iff a.limit b.limit).1 h.limit,
)

automated_iff :
    (a b : Option SyncPolicyAutomated)
    → (compare_automated_sync_policy a b ≡ true) ↔ OptionAgrees AutomatedAgrees a b
unfolding compare_automated_sync_policy
automated_iff none none = (λ h. tt, λ h. refl)
automated_iff none (some b) = (λ h. absurd (cc), λ h. absurd h)
automated_iff (some a) none = (λ h. absurd (cc), λ h. absurd h)
automated_iff (some a) (some b) = (
  λ h. record { prune = ground arith; self_heal = ground arith; allow_empty = ground arith },
  λ h. ground (arith, h.prune, h.self_heal, h.allow_empty),
)

texts_sound : (a b : List String) → length a ≡ length b → compare_texts a b ≡ true → a ≡ b
unfolding compare_texts
texts_sound [] [] l h = refl
texts_sound [] (y ∷ ys) l h = absurd (omega arith)
texts_sound (x ∷ xs) [] l h = absurd (omega arith)
texts_sound (x ∷ xs) (y ∷ ys) l h = ground (arith, eq_iff x y, texts_sound xs ys)

texts_complete : (a : List String) → compare_texts a a ≡ true
unfolding compare_texts
texts_complete [] = refl
texts_complete (x ∷ xs) = ground (arith, eq_iff x x, texts_complete xs)

sync_options_iff : (a b : List String) → (compare_sync_options a b ≡ true) ↔ (a ≡ b)
unfolding compare_sync_options
sync_options_iff [] [] = ground arith
sync_options_iff [] (y ∷ ys) = ground arith
sync_options_iff (x ∷ xs) [] = ground arith
sync_options_iff (x ∷ xs) (y ∷ ys) =
    unfold compare_texts in
    ground (arith, eq_iff x y, texts_sound xs ys, texts_complete xs, texts_complete ys)

pub sync_policy_iff :
    (a b : Option SyncPolicy) → (compare_sync_policy a b ≡ true) ↔ OptionAgrees SyncPolicyAgrees a b
unfolding compare_sync_policy
sync_policy_iff none none = (λ h. tt, λ h. refl)
sync_policy_iff none (some b) = (λ h. absurd (cc), λ h. absurd h)
sync_policy_iff (some a) none = (λ h. absurd (cc), λ h. absurd h)
sync_policy_iff (some a) (some b) = (
  λ h. record {
    automated = (automated_iff a.automated b.automated).0 (ground arith);
    sync_options = (sync_options_iff a.sync_options b.sync_options).0 (ground arith);
    retry = (retry_strategy_iff a.retry b.retry).0 (ground arith);
  },
  λ h. ground (
    arith,
    (automated_iff a.automated b.automated).1 h.automated,
    (sync_options_iff a.sync_options b.sync_options).1 h.sync_options,
    (retry_strategy_iff a.retry b.retry).1 h.retry,
  ),
)

pub value_files_iff : (a b : Slice String) → (compare_helm_value_files a b ≡ true) ↔ (a ≡ b)
unfolding compare_helm_value_files
value_files_iff none none = ground arith
value_files_iff none (some b) = ground arith
value_files_iff (some a) none = ground arith
value_files_iff (some a) (some b) =
    ground (arith, texts_sound a b, texts_complete a, ap length {x = a} {y = b})

parameters_sound :
    (a b : List HelmParameter) → length a ≡ length b → compare_parameters a b ≡ true → a ≡ b
unfolding compare_parameters
parameters_sound [] [] l h = refl
parameters_sound [] (y ∷ ys) l h = absurd (omega arith)
parameters_sound (x ∷ xs) [] l h = absurd (omega arith)
parameters_sound (x ∷ xs) (y ∷ ys) l h =
    ground (arith, eq_iff x.name y.name, eq_iff x.value y.value, parameters_sound xs ys)

parameters_complete : (a : List HelmParameter) → compare_parameters a a ≡ true
unfolding compare_parameters
parameters_complete [] = refl
parameters_complete (x ∷ xs) =
    ground (arith, eq_iff x.name x.name, eq_iff x.value x.value, parameters_complete xs)

pub helm_parameters_iff :
    (a b : Slice HelmParameter) → (compare_helm_parameters a b ≡ true) ↔ (a ≡ b)
unfolding compare_helm_parameters
helm_parameters_iff none none = ground arith
helm_parameters_iff none (some b) = ground arith
helm_parameters_iff (some a) none = ground arith
helm_parameters_iff (some a) (some b) = ground (arith, parameters_sound a b, parameters_complete a)
