-- ===== src/Monitor.antt =====
-- `AccountFailureMonitor` of src/security/rate_limit.rs: failures of an account counted over all
-- addresses, for an alert that locks nothing. Times are in nanoseconds.
pub mod Alerts
mod Tests
use kraken_ui.Common.{
  ℕ, ◌+◌, ◌-◌, ◌*◌, ◌%◌, Bool, true, false, not, ◌&&◌, Option, none, some, ltb, leb, if◌then◌else◌,
  Text, Map, empty_map, insert, retain, get_or,
}
use kraken_ui.Throttle.{u32_mod, from_secs}

pub record AccountFailures : Type 0 where
  pub count : ℕ
  pub window_started : ℕ
  pub alerted : Bool

pub record AccountFailureMonitor : Type 0 where
  pub entries : Map AccountFailures
  pub poisoned : Bool
  pub window : ℕ
  pub alert_threshold : ℕ

unfoldable pub new : ℕ → ℕ → AccountFailureMonitor
new window alert_threshold = record {
  entries = empty_map;
  poisoned = false;
  window = window;
  alert_threshold = alert_threshold;
}

unfoldable pub with_defaults : AccountFailureMonitor
unfolding new
with_defaults = new (from_secs (15 * 60)) 50

abbrev pub fresh_failures : ℕ → AccountFailures
fresh_failures now = record { count = 0; window_started = now; alerted = false }

-- The part of `note_failure_at` after the entry is found: the window, the count and the alert.
unfoldable pub note_entry : ℕ → ℕ → ℕ → AccountFailures → AccountFailures × Bool
note_entry window alert_threshold now found =
    let failures : AccountFailures =
      if ltb window (now - found.window_started) then fresh_failures now else found in
    let count = (failures.count + 1) % u32_mod in
    if leb alert_threshold count && not failures.alerted
    then (record failures { count = count; alerted = true }, true)
    else (record failures { count = count }, false)

abbrev pub noted_entry : AccountFailureMonitor → Text → ℕ → AccountFailures × Bool
noted_entry m account now =
    let kept = retain (λ e. leb (now - e.window_started) m.window) m.entries in
    note_entry m.window m.alert_threshold now (get_or (fresh_failures now) (kept account))

unfoldable pub note_failure_at : AccountFailureMonitor → Text → ℕ → AccountFailureMonitor × Bool
unfolding note_entry
note_failure_at m account now = if m.poisoned then (m, false) else (
  record m {
    entries =
        insert account (noted_entry m account now).0
          (retain (λ e. leb (now - e.window_started) m.window) m.entries);
  },
  (noted_entry m account now).1,
)
