-- ===== src/Analytics/Bits.antt =====
-- The bits of the status in which the sent events are kept (internal/controller/analytics.go).
use patterns_operator.Prelude.{
  ℕ, zero, suc, ◌<◌, String, Bool, true, false, not, ◌&&◌, ◌||◌, Option, none, some, ◌≡◌, refl,
  ◌==◌, ltb, Bool-cases, inl, inr, arith, if◌then◌else◌,
}
use patterns_operator.Errors.{Err}
use patterns_operator.Api.{Pattern}
use patterns_operator.Analytics.{
  VpAnalytics, has_bit, set_bit, sent_identify, sent_start, sent_end, sent_refresh, get_new_uuid,
  retry_analytics, Sending, installation_sent, start_sent, end_sent, send_pattern_installation_info,
  send_pattern_start_event_info, send_pattern_end_event_info,
}

-- The bits of one number are among those of another.
abbrev pub bits_within : ℕ → ℕ → Bool
bits_within n m =
    (not (has_bit n sent_identify) || has_bit m sent_identify)
    && ((not (has_bit n sent_start) || has_bit m sent_start)
        && ((not (has_bit n sent_end) || has_bit m sent_end)
            && (not (has_bit n sent_refresh) || has_bit m sent_refresh)))

abbrev pub Grows : ℕ → ℕ → Type 0
Grows n m = (m < 16) × (bits_within n m ≡ true)

-- Every value below a bound passes the test.
all_below : ℕ → (ℕ → Bool) → Bool
all_below zero test = true
all_below (suc n) test = test n && all_below n test

all_below_sound :
    (n : ℕ) (test : ℕ → Bool) (x : ℕ) → all_below n test ≡ true → x < n → test x ≡ true
unfolding all_below
all_below_sound zero test x h lt = absurd (omega arith)
all_below_sound (suc n) test x h lt = ground (arith, all_below_sound n test x)

abbrev grows : (ℕ → ℕ) → ℕ → Bool
grows f n = ltb (f n) 16 && bits_within n (f n)

grows_sound : (f : ℕ → ℕ) → all_below 16 (grows f) ≡ true → (n : ℕ) → n < 16 → Grows n (f n)
grows_sound f h n lt =
    let t : ltb (f n) 16 && bits_within n (f n) ≡ true = all_below_sound 16 (grows f) n h lt in
    ground arith

identify-Grows : (n : ℕ) → n < 16 → Grows n (set_bit n sent_identify)
unfolding all_below has_bit set_bit
identify-Grows = grows_sound (λ n. set_bit n sent_identify) refl

start-Grows : (n : ℕ) → n < 16 → Grows n (set_bit n sent_start)
unfolding all_below has_bit set_bit
start-Grows = grows_sound (λ n. set_bit n sent_start) refl

end-Grows : (n : ℕ) → n < 16 → Grows n (set_bit n sent_end)
unfolding all_below has_bit set_bit
end-Grows = grows_sound (λ n. set_bit n sent_end) refl

refresh-Grows : (n : ℕ) → n < 16 → Grows n (set_bit (set_bit n sent_end) sent_refresh)
unfolding all_below has_bit set_bit
refresh-Grows = grows_sound (λ n. set_bit (set_bit n sent_end) sent_refresh) refl

same-Grows : (n : ℕ) → n < 16 → Grows n n
unfolding all_below has_bit
same-Grows = grows_sound (λ n. n) refl

abbrev bits : Sending → ℕ
bits s = s.1.status.analytics_sent

get_new_uuid-bits :
    (generated : String) (p : Pattern)
    → (get_new_uuid generated p).1.status.analytics_sent ≡ p.status.analytics_sent
unfolding get_new_uuid
get_new_uuid-bits generated p = elim (Bool-cases (p.spec.analytics_uuid == "")) [
  | inl b ↦ elim (Bool-cases (p.status.analytics_uuid == "")) [
    | inl c ↦ rw (b, c) refl
    | inr c ↦ rw (b, c) refl
  ]
  | inr b ↦ rw b refl
]

-- Under a guard that skips the call, or without one.
guarded :
    (b : Bool) (v : VpAnalytics) (p : Pattern) (s : Sending)
    → p.status.analytics_sent < 16
    → Grows p.status.analytics_sent (bits s)
    → Grows p.status.analytics_sent (bits (if b then (v, p, none) else s))
guarded true v p s h g = same-Grows p.status.analytics_sent h
guarded false v p s h g = g

module _ (generated : String) (enqueue : ℕ → Option Err) (now : ℕ) (v : VpAnalytics) where
  installation_sent-Grows :
      (p : Pattern) (failure : Option Err)
      → p.status.analytics_sent < 16
      → Grows p.status.analytics_sent (bits (installation_sent generated enqueue v p failure))
  installation_sent-Grows p (some x) h = same-Grows p.status.analytics_sent h
  installation_sent-Grows p none h = identify-Grows p.status.analytics_sent h

  start_sent-Grows :
      (p : Pattern) (failure : Option Err)
      → p.status.analytics_sent < 16
      → Grows p.status.analytics_sent (bits (start_sent generated enqueue v p failure))
  start_sent-Grows p (some x) h = same-Grows p.status.analytics_sent h
  start_sent-Grows p none h = start-Grows p.status.analytics_sent h

  end_sent-Grows :
      (p : Pattern) (again : Bool) (failure : Option Err)
      → p.status.analytics_sent < 16
      → Grows p.status.analytics_sent (bits (end_sent generated enqueue now v p again failure))
  end_sent-Grows p true (some x) h = same-Grows p.status.analytics_sent h
  end_sent-Grows p false (some x) h = same-Grows p.status.analytics_sent h
  end_sent-Grows p true none h = refresh-Grows p.status.analytics_sent h
  end_sent-Grows p false none h = end-Grows p.status.analytics_sent h

  -- What each of the three calls leaves in the status.
  pub record SendersGrow (p : Pattern) : Type 0 where
    pub installation :
        Grows p.status.analytics_sent (bits (send_pattern_installation_info generated enqueue v p))
    pub start :
        Grows p.status.analytics_sent (bits (send_pattern_start_event_info generated enqueue v p))
    pub end :
        Grows p.status.analytics_sent (bits (send_pattern_end_event_info generated enqueue now v p))

  -- If the status has none but the four bits of the analytics events, that holds after each of
  -- the three calls, and no bit is taken away by them.
  pub senders-Grow : (p : Pattern) → p.status.analytics_sent < 16 → SendersGrow p
  unfolding send_pattern_installation_info send_pattern_start_event_info send_pattern_end_event_info
  senders-Grow p h =
      let q = (get_new_uuid generated p).1 in
      let same = get_new_uuid-bits generated p in
      let lt : q.status.analytics_sent < 16 = omega (arith, same) in
      let failure = retry_analytics enqueue 2 0 none in
      record {
        installation = guarded _ v p _ h (rw same at (installation_sent-Grows q failure lt));
        start = guarded _ v p _ h (rw same at (start_sent-Grows q failure lt));
        end =
            guarded _ v p _ h
              (rw same at (end_sent-Grows q (has_bit p.status.analytics_sent sent_end) failure lt));
      }
