-- ===== src/Subscriptions/Update.antt =====
-- When an update of the subscription is sent (internal/controller/subscription.go).
use patterns_operator.Prelude.{
  String, true, false, Option, none, some, List, [], ◌∷◌, ◌≡◌, ◌↔◌, refl, ap, ◌∙◌, subst, ◌⊎◌, inl,
  inr, Bool-cases, arith, eq_iff, ◌==◌,
}
use patterns_operator.Subscription.{EnvVar, SubscriptionConfig, SubscriptionSpec, Subscription}
use patterns_operator.Subscriptions.{
  error_of, same_source, same_env, same_env_slice, config_changed, spec_changed,
  update_subscription,
}
use patterns_operator.Cluster.{ask, update_subscription as put_subscription}
use patterns_operator.Cluster.Runs.{Environment, run, returned}

same_source_iff : (a b : Option String) → (same_source a b ≡ true) ↔ (a ≡ b)
same_source_iff none none = ground arith
same_source_iff none (some b) = ground arith
same_source_iff (some a) none = ground arith
same_source_iff (some a) (some b) = ground (arith, eq_iff a b)

EnvVar-eta :
    (a b : EnvVar) → a.name ≡ b.name → a.value ≡ b.value → a.value_from ≡ b.value_from → a ≡ b
EnvVar-eta a b p q r =
    ap (λ n. record { name = n; value = a.value; value_from = a.value_from }) p
    ∙ ap (λ v. record { name = b.name; value = v; value_from = a.value_from }) q
    ∙ ap (λ s. record { name = b.name; value = b.value; value_from = s }) r

same_env_sound : (as' bs : List EnvVar) → same_env as' bs ≡ true → as' ≡ bs
unfolding same_env
same_env_sound [] [] h = refl
same_env_sound [] (b ∷ bs) h = absurd (cc)
same_env_sound (a ∷ as') [] h = absurd (cc)
same_env_sound (a ∷ as') (b ∷ bs) h =
    let n : a.name == b.name ≡ true = ground arith in
    let v : a.value == b.value ≡ true = ground arith in
    let s : same_source a.value_from b.value_from ≡ true = ground arith in
    let r : same_env as' bs ≡ true = ground arith in
    ap (λ x. x ∷ as')
      (EnvVar-eta a b ((eq_iff _ _).0 n) ((eq_iff _ _).0 v) ((same_source_iff _ _).0 s))
    ∙ ap (λ l. b ∷ l) (same_env_sound as' bs r)

same_env_refl : (as' : List EnvVar) → same_env as' as' ≡ true
unfolding same_env
same_env_refl [] = refl
same_env_refl (a ∷ as') =
    rw
      (
        (eq_iff a.name a.name).1 refl,
        (eq_iff a.value a.value).1 refl,
        (same_source_iff a.value_from a.value_from).1 refl,
        same_env_refl as',
      )
      refl

same_env_slice_iff : (a b : Option (List EnvVar)) → (same_env_slice a b ≡ true) ↔ (a ≡ b)
same_env_slice_iff none none = ground arith
same_env_slice_iff none (some b) = ground arith
same_env_slice_iff (some a) none = ground arith
same_env_slice_iff (some a) (some b) =
    (λ h. ap (λ l. some l) (same_env_sound a b h), λ h. some_env a b h)
  where
    some_env : (x y : List EnvVar) → some x ≡ some y → same_env x y ≡ true
    some_env x y h = let e : x ≡ y = cc in subst (λ l. same_env x l ≡ true) e (same_env_refl x)

-- What of two configurations has to agree: the variables. The rest of the configuration is not compared.
abbrev pub ConfigAgrees : Option SubscriptionConfig → Option SubscriptionConfig → Type 0
ConfigAgrees none none = Unit
ConfigAgrees (some c) (some d) = c.env ≡ d.env
ConfigAgrees _ _ = ⊥

config_unchanged_iff :
    (c d : Option SubscriptionConfig) → (config_changed c d ≡ false) ↔ ConfigAgrees c d
unfolding config_changed
config_unchanged_iff none none = (λ h. tt, λ h. refl)
config_unchanged_iff none (some d) = (λ h. absurd (cc), λ h. absurd h)
config_unchanged_iff (some c) none = (λ h. absurd (cc), λ h. absurd h)
config_unchanged_iff (some c) (some d) = ground (arith, same_env_slice_iff c.env d.env)

-- What of two specs has to agree.
pub record SpecAgrees (s t : SubscriptionSpec) : Type 0 where
  pub catalog_source_namespace : s.catalog_source_namespace ≡ t.catalog_source_namespace
  pub catalog_source : s.catalog_source ≡ t.catalog_source
  pub channel : s.channel ≡ t.channel
  pub package_name : s.package_name ≡ t.package_name
  pub install_plan_approval : s.install_plan_approval ≡ t.install_plan_approval
  pub starting_csv : s.starting_csv ≡ t.starting_csv
  pub config : ConfigAgrees s.config t.config

spec_unchanged_sound : (s t : SubscriptionSpec) → spec_changed s t ≡ false → SpecAgrees s t
unfolding spec_changed
spec_unchanged_sound s t h = record {
  catalog_source_namespace = (eq_iff _ _).0 (ground arith);
  catalog_source = (eq_iff _ _).0 (ground arith);
  channel = (eq_iff _ _).0 (ground arith);
  package_name = (eq_iff _ _).0 (ground arith);
  install_plan_approval = (eq_iff _ _).0 (ground arith);
  starting_csv = (eq_iff _ _).0 (ground arith);
  config = (config_unchanged_iff s.config t.config).0 (ground arith);
}

spec_unchanged_complete : (s t : SubscriptionSpec) → SpecAgrees s t → spec_changed s t ≡ false
unfolding spec_changed
spec_unchanged_complete s t h =
    rw
      (
        (eq_iff _ _).1 h.catalog_source_namespace,
        (eq_iff _ _).1 h.catalog_source,
        (eq_iff _ _).1 h.channel,
        (eq_iff _ _).1 h.package_name,
        (eq_iff _ _).1 h.install_plan_approval,
        (eq_iff _ _).1 h.starting_csv,
      )
      ((config_unchanged_iff s.config t.config).1 h.config)

-- What a call on a target and a current subscription does: nothing if their specs agree; otherwise it
-- sends one update, of the current subscription with the target's spec.
abbrev pub UpdatesIfDifferent :
    {W : Type 0}
    → Environment W
    → Subscription
    → Subscription
    → SubscriptionSpec
    → SubscriptionSpec
    → W
    → Type 0
UpdatesIfDifferent answer target current goal actual w =
    let m = update_subscription (some target) (some current) in
    let r = put_subscription (record current { spec = some goal }) in
    (SpecAgrees goal actual
      × ((run answer m w).0 ≡ [])
      × ((run answer m w).1 ≡ returned (false, none)))
    ⊎ (¬ SpecAgrees goal actual
        × ((run answer m w).0 ≡ r ∷ [])
        × ((run answer m w).1 ≡ returned (true, error_of (answer r w).0)))

-- Whatever answers: if the specs of the target and of the current subscription are there,
-- `updateSubscription` sends an update exactly when they differ in the catalog source or its namespace,
-- the channel, the package, the approval, the starting CSV, whether there is a configuration or the
-- variables of the configuration (and in nothing else of it); the update is the current subscription
-- with the whole spec of the target, and it reports whether it sent one and its error.
pub update_subscription-UpdatesIfDifferent :
    {W : Type 0} (answer : Environment W) (target current : Subscription)
    (goal actual : SubscriptionSpec) (w : W)
    → target.spec ≡ some goal
    → current.spec ≡ some actual
    → UpdatesIfDifferent answer target current goal actual w
unfolding update_subscription run ask
update_subscription-UpdatesIfDifferent answer target current goal actual w p q =
    rw (q, p)
      (elim (Bool-cases (spec_changed goal actual)) [
        | inl e ↦ inr ((λ same. changed_same e same), rw e refl, rw e refl)
        | inr e ↦ inl (spec_unchanged_sound goal actual e, rw e refl, rw e refl)
      ])
  where
    changed_same : spec_changed goal actual ≡ true → SpecAgrees goal actual → ⊥
    changed_same e same = absurd (cc (e, spec_unchanged_complete goal actual same))
