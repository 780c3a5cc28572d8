-- ===== src/Throttle/Tests.antt =====
-- Runs of the throttle that the tests of src/security/rate_limit.rs make, and the theorems at
-- concrete inputs.
use kraken_ui.Common.{◌≡◌, ◌≢◌, refl, none, some, codes, text_eq, [], ◌∷◌, false, arith}
use kraken_ui.Throttle.{
  Attempt, LoginThrottle, from_secs, locked_for_at, record_failure_at, record_success,
}
use kraken_ui.Throttle.Lockout.{
  fail_run, lock_at_threshold, open_below_threshold, failure_after_lock,
}
use kraken_ui.Throttle.Invariant.{IsConfigured, IsValid, fails, call, call-IsValid}
use kraken_ui.Throttle.Isolation.{call-other}

abbrev three : LoginThrottle
three = record {
  entries = λ k. none;
  poisoned = false;
  max_failures = 3;
  window = from_secs 60;
  lockout = from_secs 120;
}

abbrev after_two : LoginThrottle
after_two = fail_run three (codes "ip") (7 ∷ 9 ∷ [])

locks_after_threshold :
    ((record_failure_at after_two (codes "ip") 7).1 ≡ some (from_secs 120))
    × ((locked_for_at after_two (codes "ip") 7).1 ≡ none)
    × ((locked_for_at (record_failure_at after_two (codes "ip") 7).0 (codes "ip") 8).1
        ≡ some 119999999999)
    × ((locked_for_at (record_failure_at after_two (codes "ip") 7).0 (codes "ip") 120000000007).1
        ≡ none)
unfolding fail_run record_failure_at locked_for_at text_eq
locks_after_threshold = (refl, refl, refl, refl)

success_clears_failures :
    (locked_for_at (record_success after_two (codes "ip")) (codes "ip") 10).1 ≡ none
unfolding fail_run record_failure_at locked_for_at record_success text_eq
success_clears_failures = refl

three-IsConfigured : IsConfigured three
three-IsConfigured = record { positive = omega arith; fits = omega arith }

lock_at_threshold_example :
    (locked_for_at (record_failure_at after_two (codes "ip") 11).0 (codes "ip") 12).1
    ≡ some 119999999999
lock_at_threshold_example =
    lock_at_threshold three (codes "ip") (7 ∷ 9 ∷ []) 11 12 refl three-IsConfigured refl
      (omega arith) refl (omega arith)

open_below_threshold_example : (locked_for_at after_two (codes "ip") 12).1 ≡ none
open_below_threshold_example =
    open_below_threshold three (codes "ip") (7 ∷ 9 ∷ []) 12 refl three-IsConfigured refl
      (omega arith) (omega arith)

abbrev locked_attempt : Attempt
locked_attempt = record { failures = 3; window_started = 7; locked_until = some 50 }

abbrev locked_three : LoginThrottle
locked_three = record three { entries = λ k. some locked_attempt }

failure_after_lock_example : (record_failure_at locked_three (codes "ip") 20).1 ≡ some 30
failure_after_lock_example =
    ((failure_after_lock locked_three (codes "ip") 20 50 locked_attempt refl refl refl).0
      (omega arith)).0

three-IsValid : IsValid three 0
three-IsValid = record { configured = three-IsConfigured; entry_ok = λ k. tt }

call-IsValid_example : IsValid (call three 5 (fails (codes "ip"))) 5
call-IsValid_example = call-IsValid three 0 5 (fails (codes "ip")) (omega arith) three-IsValid

other-ne-ip : codes "other" ≢ codes "ip"
other-ne-ip = λ e. cc

call-other_example :
    (locked_for_at (call three 5 (fails (codes "ip"))) (codes "other") 6).1
    ≡ (locked_for_at three (codes "other") 6).1
call-other_example =
    call-other three 5 6 (fails (codes "ip")) (codes "other") other-ne-ip (omega arith)
