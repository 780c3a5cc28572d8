-- ===== src/Throttle.antt =====
-- `LoginThrottle` of src/security/rate_limit.rs: failed logins counted for each key, and the lock
-- that follows. Times and durations are in nanoseconds.
pub mod Lockout
pub mod Invariant
pub mod Isolation
mod Tests
use kraken_ui.Common.{
  ℕ, ◌+◌, ◌-◌, ◌*◌, ◌%◌, ◌^◌, Bool, true, false, Option, none, some, ltb, leb, if◌then◌else◌, Text,
  Map, empty_map, insert, remove, retain, get_or,
}

abbrev pub u32_mod : ℕ
u32_mod = 2 ^ 32

abbrev pub from_secs : ℕ → ℕ
from_secs s = s * 1000000000

pub record Attempt : Type 0 where
  pub failures : ℕ
  pub window_started : ℕ
  pub locked_until : Option ℕ

-- `poisoned` is the state of the mutex around the map.
pub record LoginThrottle : Type 0 where
  pub entries : Map Attempt
  pub poisoned : Bool
  pub max_failures : ℕ
  pub window : ℕ
  pub lockout : ℕ

unfoldable pub new : ℕ → ℕ → ℕ → LoginThrottle
new max_failures window lockout = record {
  entries = empty_map;
  poisoned = false;
  max_failures = max_failures;
  window = window;
  lockout = lockout;
}

unfoldable pub with_defaults : LoginThrottle
unfolding new
with_defaults = new 5 (from_secs (5 * 60)) (from_secs (15 * 60))

-- `Instant::duration_since` is zero when the other instant is later, as `-` is here.
abbrev stays : ℕ → Attempt → Bool
stays now attempt = elim attempt.locked_until [
  | some until ↦ ltb now until
  | none ↦ leb (now - attempt.window_started) (from_secs 3600)
]

prune : ℕ → Map Attempt → Map Attempt
prune now entries = retain (stays now) entries

-- The tail of `locked_for_at`, once the key is found.
locked_entry : LoginThrottle → Text → ℕ → Option ℕ → LoginThrottle × Option ℕ
locked_entry t key now none = (t, none)
locked_entry t key now (some until) =
    if ltb now until
    then (t, some (until - now))
    else (record t { entries = remove key t.entries }, none)

locked_found : LoginThrottle → Text → ℕ → Option Attempt → LoginThrottle × Option ℕ
unfolding locked_entry
locked_found t key now none = (t, none)
locked_found t key now (some attempt) = locked_entry t key now attempt.locked_until

unfoldable pub locked_for_at : LoginThrottle → Text → ℕ → LoginThrottle × Option ℕ
unfolding locked_found
locked_for_at t key now = if t.poisoned then (t, none) else locked_found t key now (t.entries key)

abbrev fresh_attempt : ℕ → Attempt
fresh_attempt now = record { failures = 0; window_started = now; locked_until = none }

-- The window check and the count, for an attempt that is not locked.
count_failure : ℕ → ℕ → ℕ → ℕ → Attempt → Attempt × Option ℕ
count_failure max_failures window lockout now attempt =
    let opened : Attempt =
      if ltb window (now - attempt.window_started)
      then record attempt { failures = 0; window_started = now }
      else attempt in
    let failures = (opened.failures + 1) % u32_mod in
    if leb max_failures failures
    then (record opened { failures = failures; locked_until = some (now + lockout) }, some lockout)
    else (record opened { failures = failures }, none)

-- The lock check before it: a running lock is reported and left alone, one that has elapsed
-- restarts the window.
fail_entry : ℕ → ℕ → ℕ → ℕ → Attempt → Option ℕ → Attempt × Option ℕ
unfolding count_failure
fail_entry max_failures window lockout now attempt none =
    count_failure max_failures window lockout now attempt
fail_entry max_failures window lockout now attempt (some until) =
    if ltb now until
    then (attempt, some (until - now))
    else count_failure max_failures window lockout now (fresh_attempt now)

abbrev failed_entry : LoginThrottle → Text → ℕ → Attempt × Option ℕ
failed_entry t key now =
    let attempt = get_or (fresh_attempt now) (prune now t.entries key) in
    fail_entry t.max_failures t.window t.lockout now attempt attempt.locked_until

unfoldable pub record_failure_at : LoginThrottle → Text → ℕ → LoginThrottle × Option ℕ
unfolding prune fail_entry
record_failure_at t key now = if t.poisoned then (t, none) else (
  record t { entries = insert key (failed_entry t key now).0 (prune now t.entries) },
  (failed_entry t key now).1,
)

unfoldable pub record_success : LoginThrottle → Text → LoginThrottle
record_success t key = if t.poisoned then t else record t { entries = remove key t.entries }
