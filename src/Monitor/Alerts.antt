-- ===== src/Monitor/Alerts.antt =====
-- The alerts of the account monitor of src/security/rate_limit.rs: one to a window, at the
-- threshold.
use kraken_ui.Common.{
  ℕ, ◌+◌, ◌≤◌, ◌<◌, ◌≡◌, refl, ap₂, Bool, false, some, List, [], ◌∷◌, Text, arith, text_eq_refl,
  All, ◌==◌, leb, remove, none, ◌∙◌,
}
use kraken_ui.Throttle.{u32_mod}
use kraken_ui.Monitor.{
  AccountFailures, AccountFailureMonitor, fresh_failures, note_entry, note_failure_at,
}

-- The answers to failures of one account at the given times.
unfoldable pub note_run : AccountFailureMonitor → Text → List ℕ → List Bool
note_run m account [] = []
note_run m account (now ∷ times) =
    (note_failure_at m account now).1 ∷ note_run (note_failure_at m account now).0 account times

-- What they should be: `true` at the failure that makes the count the threshold, and there only.
unfoldable pub alert_pattern : ℕ → ℕ → List ℕ → List Bool
alert_pattern threshold count [] = []
alert_pattern threshold count (now ∷ times) =
    (count + 1 == threshold) ∷ alert_pattern threshold (count + 1) times

-- The entry of an account that has failed `n` times since `started`: the 32-bit count may have
-- wrapped only once the alert is out.
record Noted (threshold n started : ℕ) (e : AccountFailures) : Type 0 where
  since : e.window_started ≡ started
  told : e.alerted ≡ leb threshold n
  exact : (n < threshold) → e.count ≡ n

note_entry-Noted :
    (w threshold n started now : ℕ) (e : AccountFailures)
    → threshold < u32_mod
    → Noted threshold n started e
    → now ≤ started + w
    → Noted threshold (n + 1) started (note_entry w threshold now e).0
      × ((note_entry w threshold now e).1 ≡ (n + 1 == threshold))
unfolding note_entry
note_entry-Noted w threshold n started now e fits v le =
    let exact = v.exact in ground (arith, v.told, v.since)

-- The settings stay as they are.
record Has (w threshold : ℕ) (m : AccountFailureMonitor) : Type 0 where
  live : m.poisoned ≡ false
  window_is : m.window ≡ w
  threshold_is : m.alert_threshold ≡ threshold

note_failure_at-Has :
    {w threshold : ℕ} (m : AccountFailureMonitor) (account : Text) (now : ℕ)
    → Has w threshold m
    → Has w threshold (note_failure_at m account now).0
unfolding note_failure_at
note_failure_at-Has m account now h = ground arith

-- Inside the window an entry is not dropped, and the call is one step of it.
note_failure_at-step :
    (m : AccountFailureMonitor) (account : Text) (now started : ℕ) (e : AccountFailures)
    → m.poisoned ≡ false
    → m.entries account ≡ some e
    → e.window_started ≡ started
    → now ≤ started + m.window
    → ((note_failure_at m account now).0.entries account
        ≡ some (note_entry m.window m.alert_threshold now e).0)
      × ((note_failure_at m account now).1 ≡ (note_entry m.window m.alert_threshold now e).1)
unfolding note_failure_at
note_failure_at-step m account now started e live found since le =
    (ground (arith, text_eq_refl account), ground (arith, text_eq_refl account))

module _ (w threshold : ℕ) (fits : threshold < u32_mod) (account : Text) where
  note_run-pattern :
      (m : AccountFailureMonitor) (times : List ℕ) (n started : ℕ) (e : AccountFailures)
      → Has w threshold m
      → m.entries account ≡ some e
      → Noted threshold n started e
      → All (λ now. now ≤ started + w) times
      → note_run m account times ≡ alert_pattern threshold n times
  unfolding note_run alert_pattern
  note_run-pattern m [] n started e has found v ws = refl
  note_run-pattern m (now ∷ times) n started e has found v (w1, ws) =
      let (stored, told) =
        note_failure_at-step m account now started e has.live found v.since (rw has.window_is w1) in
      let (next, alarm) = note_entry-Noted w threshold n started now e fits v w1 in
      let same = λ (a : AccountFailures × Bool → Bool).
        ap₂ (λ x y. a (note_entry x y now e)) has.window_is has.threshold_is in
      ap₂ ◌∷◌ (told ∙ same (λ r. r.1) ∙ alarm) (
        note_run-pattern (note_failure_at m account now).0 times (n + 1) started
          (note_entry w threshold now e).0 (note_failure_at-Has m account now has)
          (stored ∙ ap₂ (λ x y. some (note_entry x y now e).0) has.window_is has.threshold_is) next
          ws)

fresh-Noted : (threshold now : ℕ) → 0 < threshold → Noted threshold 0 now (fresh_failures now)
fresh-Noted threshold now h = record { since = refl; told = ground arith; exact = λ _. refl }

fresh_step :
    (m : AccountFailureMonitor) (account : Text) (now : ℕ)
    → m.poisoned ≡ false
    → m.entries account ≡ none
    → ((note_failure_at m account now).0.entries account
        ≡ some (note_entry m.window m.alert_threshold now (fresh_failures now)).0)
      × ((note_failure_at m account now).1
          ≡ (note_entry m.window m.alert_threshold now (fresh_failures now)).1)
unfolding note_failure_at
fresh_step m account now live missing =
    (ground (arith, text_eq_refl account), ground (arith, text_eq_refl account))

-- Failures of an account in one window, however many, raise the alert exactly once: at the failure
-- that makes the count `alert_threshold`, and neither before nor after it. The account has no entry
-- at first, and the threshold is positive and fits in 32 bits.
pub alert_once :
    (m : AccountFailureMonitor) (account : Text) (first : ℕ) (times : List ℕ)
    → m.poisoned ≡ false
    → 0 < m.alert_threshold
    → m.alert_threshold < u32_mod
    → m.entries account ≡ none
    → All (λ now. now ≤ first + m.window) times
    → note_run m account (first ∷ times) ≡ alert_pattern m.alert_threshold 0 (first ∷ times)
unfolding note_run alert_pattern
alert_once m account first times live positive fits missing ws =
    let has : Has m.window m.alert_threshold m = record {
      live = live;
      window_is = refl;
      threshold_is = refl;
    } in
    let (stored, told) = fresh_step m account first live missing in
    let (next, alarm) =
      note_entry-Noted m.window m.alert_threshold 0 first first (fresh_failures first) fits
        (fresh-Noted m.alert_threshold first positive) (omega arith) in
    ap₂ ◌∷◌ (told ∙ alarm) (
      note_run-pattern m.window m.alert_threshold fits account (note_failure_at m account first).0
        times 1 first _ (note_failure_at-Has m account first has) stored next ws)

-- A failure later than the window starts a new count: it is answered, and stored, as the first
-- failure of an account without an entry is.
pub note_after_window :
    (m : AccountFailureMonitor) (account : Text) (now : ℕ) (e : AccountFailures)
    → m.poisoned ≡ false
    → m.entries account ≡ some e
    → e.window_started + m.window < now
    → let cleared : AccountFailureMonitor = record m { entries = remove account m.entries } in
      ((note_failure_at m account now).1 ≡ (note_failure_at cleared account now).1)
      × ((note_failure_at m account now).0.entries account
          ≡ (note_failure_at cleared account now).0.entries account)
unfolding note_failure_at
note_after_window m account now e live found late =
    (ground (arith, text_eq_refl account), ground (arith, text_eq_refl account))
