-- ===== src/Gcra/Tests.antt =====
-- Runs of the rate limiter, and the theorems at concrete inputs.
use kraken_ui.Common.{
  ◌+◌, ◌-◌, ◌*◌, ◌/◌, ◌≤◌, ◌<◌, ◌≡◌, ◌≢◌, ◌↔◌, refl, none, some, codes, [], ◌∷◌, false, true, arith,
  text_eq, Text, ok, replicate, min, ◌%◌, ◌^◌, ◌⊎◌, transaction, statement,
}
use kraken_ui.Gcra.{
  GcraRate, SqliteBackend, PersistentRateLimiter, new_rate, sqlite_check, limiter_check, rejected,
}
use kraken_ui.Gcra.Rate.{new_rate-ok_iff}
use kraken_ui.Gcra.Bounds.{RowsOk, lets_in}
use kraken_ui.Gcra.Window.{admitted_count, admitted_in_window}
use kraken_ui.Gcra.Retry.{retry_after_exact, burst_exact}
use kraken_ui.Gcra.Isolation.{check-other, limiter_fault}

abbrev five_per_second : GcraRate
five_per_second = record { interval_us = 200000; tolerance_us = 59800000 }

rate_test : new_rate 5 300 ≡ ok five_per_second
unfolding new_rate
rate_test = refl

new_rate-ok_iff_example : (new_rate 5 300 ≡ ok five_per_second) ↔ (
    (0 < 5)
    × (5 ≤ 1000000)
    × (0 < 300)
    × (five_per_second.interval_us ≡ 1000000 / 5)
    × (five_per_second.tolerance_us ≡ five_per_second.interval_us * (300 - 1)))
new_rate-ok_iff_example = new_rate-ok_iff 5 300 five_per_second (omega arith)

-- Two requests at once, one more each second; the table is swept at every second request.
abbrev small : SqliteBackend
small = record {
  rows = λ key. none;
  rate = record { interval_us = 1000000; tolerance_us = 1000000 };
  cleanup_interval_requests = 2;
  requests = 0;
}

abbrev a_key : Text
a_key = codes "login:ip:10.0.0.1"

small-RowsOk : RowsOk small
small-RowsOk = λ key. tt

abbrev after_two : SqliteBackend
after_two = (sqlite_check (sqlite_check small [] a_key 5).0 [] a_key 5).0

third_refused : (sqlite_check after_two [] a_key 6).1 ≡ ok (rejected 999999)
unfolding sqlite_check text_eq transaction statement
third_refused = refl

burst_exact_example : admitted_count small a_key (replicate 5 (a_key, 5)) ≡ min 5 2
burst_exact_example =
    burst_exact small a_key 5 5 2 small-RowsOk (omega arith) (omega arith) refl (omega arith)
      (omega arith)

admitted_in_window_example :
    admitted_count small a_key ((a_key, 5) ∷ (codes "x", 6) ∷ (a_key, 7) ∷ []) * 1000000
    ≤ (9 - 4) + 1000000 + 1000000
admitted_in_window_example =
    admitted_in_window small a_key 4 ((a_key, 5) ∷ (codes "x", 6) ∷ (a_key, 7) ∷ []) 9 small-RowsOk
      (omega arith) (omega arith)

-- A row whose arrival time lies ahead.
abbrev busy : SqliteBackend
busy = record small { rows = λ key. some (record { tat_us = 3000000; expires_at_us = 4000000 }) }

busy-RowsOk : RowsOk busy
busy-RowsOk = λ key. omega arith

retry_after_exact_example :
    lets_in (sqlite_check (sqlite_check busy [] a_key 5).0 [] a_key 2000000).1 ≡ true
unfolding sqlite_check transaction statement
retry_after_exact_example =
    (retry_after_exact busy a_key 5 2000000 1999995 busy-RowsOk (omega arith) refl (omega arith)).1
      (omega arith)

x-ne-a_key : codes "x" ≢ a_key
x-ne-a_key = λ e. cc

check-other_example :
    (sqlite_check (sqlite_check small [] a_key 5).0 [] (codes "x") 6).1
    ≡ (sqlite_check small [] (codes "x") 6).1
check-other_example = check-other small a_key (codes "x") 5 6 small-RowsOk x-ne-a_key (omega arith)

-- The database refuses the SELECT.
abbrev guarded_login : PersistentRateLimiter
guarded_login = record { backend = small; fail_open = false }

limiter_fault_example :
    (limiter_check guarded_login (false ∷ true ∷ []) a_key 5
      ≡ limiter_check guarded_login [] a_key 5)
    ⊎ (((limiter_check guarded_login (false ∷ true ∷ []) a_key 5).1.allowed ≡ false)
        × (false ≡ false
            → (limiter_check guarded_login (false ∷ true ∷ []) a_key 5).1.retry_after ≡ 1000000)
        × ((limiter_check guarded_login (false ∷ true ∷ []) a_key 5).0
            ≡ record guarded_login { backend = record small { requests = (0 + 1) % 2 ^ 64 } }))
limiter_fault_example = limiter_fault guarded_login (false ∷ true ∷ []) a_key 5
