-- ===== src/Analytics/Once.antt =====
-- How often events are sent (internal/controller/analytics.go).
use patterns_operator.Prelude.{
  ℕ, ◌+◌, ◌<◌, String, Bool, true, false, ◌||◌, Option, none, some, ◌==◌, if◌then◌else◌, ◌≡◌, ◌≢◌,
  refl, sym, ◌∙◌, ap, Bool-cases, inl, inr, arith,
}
use patterns_operator.Errors.{Err}
use patterns_operator.Api.{Pattern}
use patterns_operator.Analytics.{
  VpAnalytics, Sending, has_bit, set_bit, sent_identify, sent_start, sent_end, sent_refresh,
  retry_analytics, has_interval_passed, send_pattern_installation_info, send_pattern_end_event_info,
  refresh_interval_minutes, installation_sent, end_sent,
}

has_bit-set_bit_identify : (n : ℕ) → has_bit (set_bit n sent_identify) sent_identify ≡ true
unfolding has_bit set_bit
has_bit-set_bit_identify n = ground arith

has_bit-set_bit_start : (n : ℕ) → has_bit (set_bit n sent_start) sent_start ≡ true
unfolding has_bit set_bit
has_bit-set_bit_start n = ground arith

has_bit-set_bit_end : (n : ℕ) → has_bit (set_bit n sent_end) sent_end ≡ true
unfolding has_bit set_bit
has_bit-set_bit_end n = ground arith

has_bit-set_bit_refresh : (n : ℕ) → has_bit (set_bit n sent_refresh) sent_end ≡ has_bit n sent_end
unfolding has_bit set_bit
has_bit-set_bit_refresh n = ground arith

none-some : {A : Type 0} (a : A) → none ≢ some a
none-some a h = absurd (cc)

some-injective : (a b : String) → some a ≡ some b → a ≡ b
some-injective a b h = cc

-- The call sends nothing and changes nothing.
abbrev pub IsQuiet : VpAnalytics → Pattern → Sending → Type 0
IsQuiet v p s = s ≡ (v, p, none)

skipped :
    (v : VpAnalytics) (q : Pattern) (s : Sending)
    → (if v.api_key == "" || true then (v, q, none) else s) ≡ (v, q, none)
skipped v q s = elim (Bool-cases (v.api_key == "")) [ inl e ↦ rw e refl | inr e ↦ rw e refl ]

-- What was sent was not sent by the guard.
unguarded :
    (b : Bool) (v v' : VpAnalytics) (p p' : Pattern) (s : Sending) (event : String)
    → (if b then (v, p, none) else s) ≡ (v', p', some event)
    → s ≡ (v', p', some event)
unguarded true v v' p p' s event h = absurd (none-some event (ap (λ t. t.2) h))
unguarded false v v' p p' s event h = h

module _ (generated generated' : String) (enqueue enqueue' : ℕ → Option Err) where
  installation-sent :
      (v v' : VpAnalytics) (p q p' : Pattern) (failure : Option Err) (event : String)
      → installation_sent generated enqueue v q failure ≡ (v', p', some event)
      → (v'.sent_install_info ≡ true) × (has_bit p'.status.analytics_sent sent_identify ≡ true)
  installation-sent v v' p q p' (some x) event h = absurd (none-some event (ap (λ s. s.2) h))
  installation-sent v v' p q p' none event h = (
    sym (ap (λ s. s.0.sent_install_info) h),
    sym (ap (λ s. has_bit s.1.status.analytics_sent sent_identify) h)
        ∙ has_bit-set_bit_identify q.status.analytics_sent,
  )

  client_sends_nothing :
      (v : VpAnalytics) (p : Pattern)
      → v.sent_install_info ≡ true
      → IsQuiet v p (send_pattern_installation_info generated' enqueue' v p)
  unfolding send_pattern_installation_info
  client_sends_nothing v p h =
      rw h (elim (Bool-cases (v.api_key == "")) [ inl e ↦ rw e refl | inr e ↦ rw e refl ])

  status_sends_nothing :
      (v : VpAnalytics) (p : Pattern)
      → has_bit p.status.analytics_sent sent_identify ≡ true
      → IsQuiet v p (send_pattern_installation_info generated' enqueue' v p)
  unfolding send_pattern_installation_info
  status_sends_nothing v p h = elim (Bool-cases (v.api_key == "")) [
    | inl e ↦ rw e refl
    | inr e ↦ elim (Bool-cases v.sent_install_info) [
      | inl i ↦ rw (e, i) refl
      | inr i ↦ rw (e, i, h) refl
    ]
  ]

  -- Once the installation has been reported, it is not reported again: not by the same client, whatever
  -- became of the pattern's status, and not for the pattern with its new status, whatever the client,
  -- a restarted one among them.
  pub send_pattern_installation_info-once :
      (v v' : VpAnalytics) (p p' : Pattern) (event : String)
      → send_pattern_installation_info generated enqueue v p ≡ (v', p', some event)
      → (q : Pattern) (u : VpAnalytics)
      → IsQuiet v' q (send_pattern_installation_info generated' enqueue' v' q)
        × IsQuiet u p' (send_pattern_installation_info generated' enqueue' u p')
  unfolding send_pattern_installation_info
  send_pattern_installation_info-once v v' p p' event h q u =
      let (client, status) =
        installation-sent v v' p _ p' (retry_analytics enqueue 2 0 none) event
          (unguarded _ v v' p p' _ event h) in
      (client_sends_nothing v' q client, status_sends_nothing u p' status)

  end-sent :
      (now : ℕ) (v v' : VpAnalytics) (q p' : Pattern) (again : Bool) (failure : Option Err)
      (event : String)
      → end_sent generated enqueue now v q again failure ≡ (v', p', some event)
      → (v'.last_end_event ≡ now) × (has_bit p'.status.analytics_sent sent_end ≡ true)
  end-sent now v v' q p' again (some x) event h = absurd (none-some event (ap (λ s. s.2) h))
  end-sent now v v' q p' true none event h = (
    sym (ap (λ s. s.0.last_end_event) h),
    sym (ap (λ s. has_bit s.1.status.analytics_sent sent_end) h)
        ∙ (has_bit-set_bit_refresh (set_bit q.status.analytics_sent sent_end)
            ∙ has_bit-set_bit_end q.status.analytics_sent),
  )
  end-sent now v v' q p' false none event h = (
    sym (ap (λ s. s.0.last_end_event) h),
    sym (ap (λ s. has_bit s.1.status.analytics_sent sent_end) h)
        ∙ has_bit-set_bit_end q.status.analytics_sent,
  )

  refreshed :
      (now : ℕ) (v v' : VpAnalytics) (q p' : Pattern) (again : Bool) (failure : Option Err)
      (event : String)
      → again ≡ true
      → end_sent generated' enqueue' now v q again failure ≡ (v', p', some event)
      → event ≡ "Pattern refreshed"
  refreshed now v v' q p' again (some x) event e h = absurd (none-some event (ap (λ s. s.2) h))
  refreshed now v v' q p' false none event e h = absurd (cc)
  refreshed now v v' q p' true none event e h = some-injective _ _ (sym (ap (λ s. s.2) h))

  early :
      (now last : ℕ) → now < last + refresh_interval_minutes → has_interval_passed now last ≡ false
  unfolding has_interval_passed
  early now last h = ground arith

  too_early :
      (now later : ℕ) (v : VpAnalytics) (q : Pattern)
      → v.last_end_event ≡ now
      → later < now + refresh_interval_minutes
      → IsQuiet v q (send_pattern_end_event_info generated' enqueue' later v q)
  unfolding send_pattern_end_event_info
  too_early now later v q last soon =
      rw (early later v.last_end_event (ground (arith, last, soon))) (skipped v q _)

  -- Once an end has been reported at `now`: the same client sends nothing in the next 240 minutes,
  -- whatever the pattern; and what any client ever sends for the pattern with its new status is a
  -- refresh, never a second completion.
  pub send_pattern_end_event_info-spaced :
      (now : ℕ) (v v' : VpAnalytics) (p p' : Pattern) (event : String)
      → send_pattern_end_event_info generated enqueue now v p ≡ (v', p', some event)
      → (soon later : ℕ) (q q' : Pattern) (u u' : VpAnalytics) (next : String)
      → soon < now + refresh_interval_minutes
      → send_pattern_end_event_info generated' enqueue' later u p' ≡ (u', q', some next)
      → IsQuiet v' q (send_pattern_end_event_info generated' enqueue' soon v' q)
        × (next ≡ "Pattern refreshed")
  unfolding send_pattern_end_event_info
  send_pattern_end_event_info-spaced now v v' p p' event h soon later q q' u u' next in_time g =
      let (time, status) =
        end-sent now v v' _ p' _ (retry_analytics enqueue 2 0 none) event
          (unguarded _ v v' p p' _ event h) in
      (
        too_early now soon v' q time in_time,
        refreshed later u u' _ q' _ (retry_analytics enqueue' 2 0 none) next status
            (unguarded _ u u' p' q' _ next g),
      )
