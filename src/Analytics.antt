-- ===== src/Analytics.antt =====
-- When the operator reports events (internal/controller/analytics.go).
pub mod Once
pub mod Events
pub mod Bits
use Prim.Native.Nat.{◌/◌, ◌%◌, ◌^◌ as ◌**◌}
use Prim.Native.Char.{code}
use patterns_operator.Prelude.{
  ℕ, zero, suc, ◌+◌, ◌-◌, ◌*◌, String, Bool, true, false, not, ◌&&◌, ◌||◌, ◌≡◌, refl, Option, none,
  some, List, [], ◌∷◌, ◌==◌, nat_eq, leb, if◌then◌else◌, split, join, length,
}
use patterns_operator.Errors.{Err, Result, ok, err}
use patterns_operator.Api.{Pattern}

-- The analytics client's state; times are minutes.
pub record VpAnalytics : Type 0 where
  pub api_key : String
  pub last_end_event : ℕ
  pub sent_install_info : Bool
  pub sent_start_event : Bool

-- `n |= 1 << pos`, and the test of that bit, on an `int` that is not negative.
unfoldable pub has_bit : ℕ → ℕ → Bool
has_bit n pos = nat_eq ((n / (2 ** pos)) % 2) 1

unfoldable pub set_bit : ℕ → ℕ → ℕ
set_bit n pos = if has_bit n pos then n else n + 2 ** pos

abbrev pub sent_identify : ℕ
sent_identify = 0

abbrev pub sent_start : ℕ
sent_start = 1

abbrev pub sent_end : ℕ
sent_end = 2

abbrev pub sent_refresh : ℕ
sent_refresh = 3

abbrev pub with_sent : Pattern → ℕ → Pattern
with_sent p bits = record p { status = record p.status { analytics_sent = bits } }

abbrev with_uuid : Pattern → String → Pattern
with_uuid p id = record p { status = record p.status { analytics_uuid = id } }

-- The identifier, and the pattern in which a generated one is kept. `generated` is uuid.New.
unfoldable pub get_new_uuid : String → Pattern → String × Pattern
get_new_uuid generated p =
    if not (p.spec.analytics_uuid == "")
    then (p.spec.analytics_uuid, p)
    else if not (p.status.analytics_uuid == "")
    then (p.status.analytics_uuid, p)
    else (generated, with_uuid p generated)

-- The last three parts of a domain that has more.
abbrev last_three : List String → List String
last_three [] = []
last_three (x ∷ xs) = let rest = last_three xs in if leb (length xs) 2 then x ∷ xs else rest

unfoldable pub get_simple_domain : Pattern → String
get_simple_domain p =
    let parts = split p.status.cluster_domain 46 in
    if leb (length parts) 3 then p.status.cluster_domain else join (last_three parts) "."

-- `enqueue i` is the error of the attempt number i. The result is the last error.
unfoldable pub retry_analytics : (ℕ → Option Err) → ℕ → ℕ → Option Err → Option Err
retry_analytics enqueue zero i failure = failure
retry_analytics enqueue (suc attempts) i failure = elim (enqueue i) [
  | none ↦ none
  | some x ↦ retry_analytics enqueue attempts (suc i) (some x)
]

abbrev pub refresh_interval_minutes : ℕ
refresh_interval_minutes = 240

unfoldable pub has_interval_passed : ℕ → ℕ → Bool
has_interval_passed now last_update = leb refresh_interval_minutes (now - last_update)

-- What a call leaves of the client and the pattern, and the event that it has sent. The source's
-- result is whether there is one.
abbrev pub Sending : Type 0
Sending = VpAnalytics × Pattern × Option String

module _ (generated : String) (enqueue : ℕ → Option Err) where
  abbrev installation_sent : VpAnalytics → Pattern → Option Err → Sending
  installation_sent v p (some x) = (v, p, none)
  installation_sent v p none = (
    record v { sent_install_info = true },
    with_sent p (set_bit p.status.analytics_sent sent_identify),
    some "identify",
  )

  unfoldable pub send_pattern_installation_info : VpAnalytics → Pattern → Sending
  send_pattern_installation_info v p =
      if v.api_key == "" || (v.sent_install_info || has_bit p.status.analytics_sent sent_identify)
      then (v, p, none)
      else installation_sent v (get_new_uuid generated p).1 (retry_analytics enqueue 2 0 none)

  abbrev start_sent : VpAnalytics → Pattern → Option Err → Sending
  start_sent v p (some x) = (v, p, none)
  start_sent v p none = (
    record v { sent_start_event = true },
    with_sent p (set_bit p.status.analytics_sent sent_start),
    some "Pattern started",
  )

  unfoldable pub send_pattern_start_event_info : VpAnalytics → Pattern → Sending
  send_pattern_start_event_info v p =
      if v.api_key == "" || (v.sent_start_event || has_bit p.status.analytics_sent sent_start)
      then (v, p, none)
      else start_sent v (get_new_uuid generated p).1 (retry_analytics enqueue 2 0 none)

  -- Whether the end has been reported already decides on the event.
  abbrev end_sent : ℕ → VpAnalytics → Pattern → Bool → Option Err → Sending
  end_sent now v p again (some x) = (v, p, none)
  end_sent now v p true none = (
    record v { last_end_event = now },
    with_sent p (set_bit (set_bit p.status.analytics_sent sent_end) sent_refresh),
    some "Pattern refreshed",
  )
  end_sent now v p false none = (
    record v { last_end_event = now },
    with_sent p (set_bit p.status.analytics_sent sent_end),
    some "Pattern completed",
  )

  unfoldable pub send_pattern_end_event_info : ℕ → VpAnalytics → Pattern → Sending
  send_pattern_end_event_info now v p =
      if v.api_key == "" || not (has_interval_passed now v.last_end_event)
      then (v, p, none)
      else end_sent now v (get_new_uuid generated p).1 (has_bit p.status.analytics_sent sent_end)
          (retry_analytics enqueue 2 0 none)

-- strings.TrimRight(s, "\r\n")
unfoldable trim_line_ends : String → String
trim_line_ends String.[] = ""
trim_line_ends (String.◌∷◌ c s) =
    let rest = trim_line_ends s in
    if rest == "" && (nat_eq (code c) b'\r' || nat_eq (code c) b'\n') then "" else String.◌∷◌ c rest

-- `decode` is base64's; a key that cannot be decoded is as if there were none.
unfoldable pub decode_api_key : (String → Result String) → String → String
unfolding trim_line_ends
decode_api_key decode k = elim (decode k) [ err x ↦ "" | ok raw_key ↦ trim_line_ends raw_key ]

-- The time 1980-01-01 is minute 0.
unfoldable pub analytics_init : (String → Result String) → String → Bool → VpAnalytics
analytics_init decode api_key disabled = record {
  api_key = if disabled then "" else decode_api_key decode api_key;
  last_end_event = 0;
  sent_install_info = false;
  sent_start_event = false;
}

decode_api_key_example : decode_api_key (λ s. ok s) "key\r\n" ≡ "key"
unfolding decode_api_key
decode_api_key_example = refl
