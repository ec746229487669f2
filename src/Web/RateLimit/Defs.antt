-- ===== src/Web/RateLimit/Defs.antt =====
-- internal/platform/web/ratelimit.go: RateLimiter, NewRateLimiter, Allow, sweep, Limit.
-- `earliest := tat.Add(-l.tolerance)` can lie before the zero time; there `-` stops at 0, and
-- `now.Before(earliest)` is false in both readings.
use yet_another_go_boilerpla.Base.{
  ℕ, ◌+◌, ◌-◌, ◌*◌, ◌/◌, max, Bool, true, false, not, ◌&&◌, Option, none, some, [], ltb, leb,
  if◌then◌else◌, length, Text, Dict, lookup, insert, keep_values,
}

abbrev pub max_limiter_keys : ℕ
max_limiter_keys = 100_000

abbrev pub second : ℕ
second = 1_000_000_000

abbrev pub sweep_interval : ℕ
sweep_interval = 60 * second

pub record RateLimiter : Type 0 where
  pub interval : ℕ
  pub tolerance : ℕ
  pub client_ip_header : Text
  pub tat : Dict ℕ
  pub last_sweep : ℕ

unfoldable pub new_rate_limiter : ℕ → ℕ → Text → RateLimiter
new_rate_limiter interval burst client_ip_header = record {
  interval = interval;
  tolerance = interval * (max burst 1 - 1);
  client_ip_header = client_ip_header;
  tat = [];
  last_sweep = 0;
}

-- `now.Sub(l.lastSweep)` is negative before the last sweep, and then below the interval too.
unfoldable pub sweep : RateLimiter → ℕ → RateLimiter
sweep l now =
    if ltb (now - l.last_sweep) sweep_interval
    then l
    else record l { last_sweep = now; tat = keep_values (λ tat. ltb now tat) l.tat }

-- The result of Allow: the wait, and `ok`.
pub record Verdict : Type 0 where
  pub wait : ℕ
  pub admitted : Bool

abbrev pub tat_or_zero : Option ℕ → ℕ
tat_or_zero none = 0
tat_or_zero (some t) = t

abbrev pub is_found : Option ℕ → Bool
is_found none = false
is_found (some t) = true

-- `if tat.Before(now) { tat = now }`
abbrev pub not_before : ℕ → ℕ → ℕ
not_before tat now = if ltb tat now then now else tat

-- Allow after its sweep
unfoldable pub decide : RateLimiter → Text → ℕ → RateLimiter × Verdict
decide l key now =
    let found = lookup key l.tat in
    if not (is_found found) && leb max_limiter_keys (length l.tat)
    then (l, record { wait = l.interval; admitted = false })
    else let tat = not_before (tat_or_zero found) now in
      let earliest = tat - l.tolerance in
      if ltb now earliest then (l, record { wait = earliest - now; admitted = false }) else (
        record l { tat = insert key (tat + l.interval) l.tat },
        record { wait = 0; admitted = true },
      )

unfoldable pub allow : RateLimiter → Text → ℕ → RateLimiter × Verdict
unfolding sweep decide
allow l key now = decide (sweep l now) key now

-- The value of Retry-After that Limit sends for a wait: whole seconds, rounded up.
unfoldable pub retry_after : ℕ → ℕ
retry_after wait = (wait + second - 1) / second

-- Limit, for the client `key` at the time `now`: the seconds of the Retry-After header of a 429, or
-- `none` where the handler runs.
unfoldable pub limit : RateLimiter → Text → ℕ → RateLimiter × Option ℕ
unfolding allow retry_after
limit l key now =
    let (l', v) = allow l key now in (l', if v.admitted then none else some (retry_after v.wait))
