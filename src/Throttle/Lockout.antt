-- ===== src/Throttle/Lockout.antt =====
-- When the throttle of src/security/rate_limit.rs locks a key, and for how long.
use kraken_ui.Common.{
  ℕ, ◌+◌, ◌-◌, ◌≤◌, ◌<◌, ◌≡◌, refl, false, none, some, List, [], ◌∷◌, Text, arith, text_eq_refl,
  All, length, ◌⊎◌, inl, inr,
}
use kraken_ui.Throttle.{
  Attempt, LoginThrottle, from_secs, locked_for_at, u32_mod, record_failure_at, record_success,
}
use kraken_ui.Throttle.Invariant.{IsConfigured}

unfoldable pub fail_run : LoginThrottle → Text → List ℕ → LoginThrottle
fail_run t key [] = t
fail_run t key (now ∷ times) = fail_run (record_failure_at t key now).0 key times

abbrev counted : ℕ → ℕ → Attempt
counted failures started = record {
  failures = failures;
  window_started = started;
  locked_until = none;
}

-- A time in the window that a first failure opens, before the entry is pruned as stale.
abbrev pub Within : ℕ → ℕ → ℕ → Type 0
Within window started now =
    (started ≤ now) × (now ≤ started + window) × (now ≤ started + from_secs 3600)

-- All failures lie in the window that the first of them opens.
abbrev pub InWindow : ℕ → List ℕ → ℕ → Type 0
InWindow window [] last = Unit {0}
InWindow window (first ∷ times) last = All (Within window first) times × Within window first last

module _ (t : LoginThrottle) (key : Text) (now : ℕ) (live : t.poisoned ≡ false)
    (c : IsConfigured t) where
  first_failure :
      t.entries key ≡ none
      → 1 < t.max_failures
      → (record_failure_at t key now).0.entries key ≡ some (counted 1 now)
  unfolding record_failure_at
  first_failure e h = ground (arith, text_eq_refl key)

  next_failure :
      (f started : ℕ)
      → t.entries key ≡ some (counted f started)
      → Within t.window started now
      → f + 1 < t.max_failures
      → (record_failure_at t key now).0.entries key ≡ some (counted (f + 1) started)
  unfolding record_failure_at
  next_failure f started e w h = let q = c.fits in ground (arith, text_eq_refl key)

  -- The failure that meets the threshold locks the key from then on for `lockout`.
  threshold_failure :
      (f started later : ℕ)
      → (t.entries key ≡ some (counted f started)) ⊎ ((t.entries key ≡ none) × (f ≡ 0))
      → Within t.window started now
      → f + 1 ≡ t.max_failures
      → later < now + t.lockout
      → (locked_for_at (record_failure_at t key now).0 key later).1 ≡ some (now + t.lockout - later)
  unfolding record_failure_at locked_for_at
  threshold_failure f started later e w h lt = let q = c.fits in ground (arith, text_eq_refl key)

-- A throttle with these settings.
record Has (max_failures window lockout : ℕ) (t : LoginThrottle) : Type 0 where
  live : t.poisoned ≡ false
  threshold : t.max_failures ≡ max_failures
  window_is : t.window ≡ window
  lockout_is : t.lockout ≡ lockout

record_failure_at-Has :
    {m w l : ℕ} (t : LoginThrottle) (key : Text) (now : ℕ)
    → Has m w l t
    → Has m w l (record_failure_at t key now).0
unfolding record_failure_at
record_failure_at-Has t key now h = ground arith

configured : {m w l : ℕ} (t : LoginThrottle) → Has m w l t → 0 < m → m < u32_mod → IsConfigured t
configured t h p q = record {
  positive = omega (arith, h.threshold);
  fits = omega (arith, h.threshold);
}

module _ (m w l : ℕ) (positive : 0 < m) (fits : m < u32_mod) (key : Text) where
  counted_run :
      (t : LoginThrottle) (times : List ℕ) (f started last later : ℕ)
      → Has m w l t
      → t.entries key ≡ some (counted f started)
      → All (Within w started) times
      → Within w started last
      → f + length times + 1 ≡ m
      → later < last + l
      → (locked_for_at (record_failure_at (fail_run t key times) key last).0 key later).1
        ≡ some (last + l - later)
  unfolding fail_run
  counted_run t [] f started last later h e ws wl n lt = rw (← h.lockout_is) (
      threshold_failure t key last h.live (configured t h positive fits) f started later (inl e)
        (rw h.window_is wl) (omega (arith, h.threshold)) (omega (arith, h.lockout_is)))
  counted_run t (now ∷ times) f started last later h e (w1, ws) wl n lt =
      counted_run (record_failure_at t key now).0 times (f + 1) started last later
        (record_failure_at-Has t key now h)
        (next_failure t key now h.live (configured t h positive fits) f started e
          (rw h.window_is w1) (omega (arith, h.threshold)))
        ws wl (omega arith) lt

  open_run :
      (t : LoginThrottle) (times : List ℕ) (f started later : ℕ)
      → Has m w l t
      → t.entries key ≡ some (counted f started)
      → All (Within w started) times
      → f + length times < m
      → (locked_for_at (fail_run t key times) key later).1 ≡ none
  unfolding fail_run locked_for_at
  open_run t [] f started later h e ws n = let live = h.live in ground arith
  open_run t (now ∷ times) f started later h e (w1, ws) n =
      open_run (record_failure_at t key now).0 times (f + 1) started later
        (record_failure_at-Has t key now h)
        (next_failure t key now h.live (configured t h positive fits) f started e
          (rw h.window_is w1) (omega (arith, h.threshold)))
        ws (omega arith)

-- From a key with no failures, the failure that brings the count to `max_failures` inside the
-- window (and inside the hour after which open entries are pruned) locks the key: until `lockout`
-- has passed since that failure, `locked_for_at` answers with exactly the time that is left.
pub lock_at_threshold :
    (t : LoginThrottle) (key : Text) (times : List ℕ) (last later : ℕ)
    → t.poisoned ≡ false
    → IsConfigured t
    → t.entries key ≡ none
    → InWindow t.window times last
    → length times + 1 ≡ t.max_failures
    → later < last + t.lockout
    → (locked_for_at (record_failure_at (fail_run t key times) key last).0 key later).1
      ≡ some (last + t.lockout - later)
unfolding fail_run
lock_at_threshold t key [] last later live c e w n lt =
    threshold_failure t key last live c 0 last later (inr (e, refl))
      (omega arith, omega arith, omega arith) (omega arith) lt
lock_at_threshold t key (first ∷ times) last later live c e (ws, wl) n lt =
    let has : Has t.max_failures t.window t.lockout t = record {
      live = live;
      threshold = refl;
      window_is = refl;
      lockout_is = refl;
    } in
    counted_run t.max_failures t.window t.lockout c.positive c.fits key
      (record_failure_at t key first).0 times 1 first last later
      (record_failure_at-Has t key first has) (first_failure t key first live c e (omega arith)) ws
      wl (omega arith) lt

abbrev pub Together : ℕ → List ℕ → Type 0
Together window [] = Unit {0}
Together window (first ∷ times) = All (Within window first) times

-- From a key with no failures, fewer failures than `max_failures` in one window never lock it.
pub open_below_threshold :
    (t : LoginThrottle) (key : Text) (times : List ℕ) (later : ℕ)
    → t.poisoned ≡ false
    → IsConfigured t
    → t.entries key ≡ none
    → Together t.window times
    → length times < t.max_failures
    → (locked_for_at (fail_run t key times) key later).1 ≡ none
unfolding fail_run
open_below_threshold t key [] later live c e w n = unfold locked_for_at in ground arith
open_below_threshold t key (first ∷ times) later live c e ws n =
    let has : Has t.max_failures t.window t.lockout t = record {
      live = live;
      threshold = refl;
      window_is = refl;
      lockout_is = refl;
    } in
    open_run t.max_failures t.window t.lockout c.positive c.fits key
      (record_failure_at t key first).0 times 1 first later (record_failure_at-Has t key first has)
      (first_failure t key first live c e (omega arith)) ws (omega arith)

-- A failure recorded while the key is locked reports the time left and does not extend the lock;
-- once the lock has run out, a failure counts as the first of a new window, as if the key had been
-- cleared by a success.
pub failure_after_lock :
    (t : LoginThrottle) (key : Text) (now until : ℕ) (a : Attempt)
    → t.poisoned ≡ false
    → t.entries key ≡ some a
    → a.locked_until ≡ some until
    → (now < until
        → ((record_failure_at t key now).1 ≡ some (until - now))
          × ((record_failure_at t key now).0.entries key ≡ some a))
      × (until ≤ now
          → ((record_failure_at t key now).1 ≡ (record_failure_at (record_success t key) key now).1)
            × ((record_failure_at t key now).0.entries key
                ≡ (record_failure_at (record_success t key) key now).0.entries key))
unfolding record_failure_at record_success
failure_after_lock t key now until a live e l = (
  λ lt. (ground (arith, text_eq_refl key), ground (arith, text_eq_refl key)),
  λ le. (ground (arith, text_eq_refl key), ground (arith, text_eq_refl key)),
)
