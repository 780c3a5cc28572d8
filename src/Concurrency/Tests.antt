-- ===== src/Concurrency/Tests.antt =====
-- Runs of the limiter of src/middleware/rate_limit.rs with a counting semaphore.
use kraken_ui.Common.{
  ℕ, zero, suc, ◌≤◌, ◌<◌, ◌≡◌, ◌↔◌, refl, true, false, Option, none, some, List, [], ◌∷◌, Text,
  codes, text_eq, select_one, count_where, update_where, delete_where,
}
use kraken_ui.Concurrency.{
  SemaphoreApi, InFlight, is_request, new, swept, joined, semaphore, acquired, acquire_by,
  try_acquire, finish, Event, arrives, acquires, step, run,
}
use kraken_ui.Concurrency.Bound.{count_running}
use kraken_ui.Concurrency.Limits.{running_bound, permit_exact, finish-frees}

unfoldable take_one : ℕ → Option ℕ
take_one zero = none
take_one (suc n) = some n

take_one-some : (s s' : ℕ) → take_one s ≡ some s' → s ≡ suc s'
unfolding take_one
take_one-some zero s' e = cc
take_one-some (suc n) s' e = cc

take_one-none : (s : ℕ) → take_one s ≡ none → s ≡ 0
unfolding take_one
take_one-none zero e = refl
take_one-none (suc n) e = cc

abbrev counting : SemaphoreApi ℕ
counting = record {
  new = λ n. n;
  try_acquire = take_one;
  release = λ n. suc n;
  available = λ n. n;
  available-new = λ n. refl;
  available-acquired = take_one-some;
  available-refused = take_one-none;
  available-release = λ s. refl;
}

abbrev alice : Text
alice = codes "192.0.2.1"

-- The first of two requests of one address runs and the second waits.
abbrev two_requests : List Event
two_requests = arrives alice ∷ acquires 0 ∷ arrives alice ∷ []

abbrev first : InFlight
first = record { request = 0; client_ip = alice; semaphore = 0; permit = true }

abbrev second : InFlight
second = record { request = 1; client_ip = alice; semaphore = 0; permit = false }

found_first :
    select_one (is_request 0) (run counting (new counting 1) two_requests).in_flight ≡ some first
unfolding new swept joined semaphore acquired acquire_by try_acquire step run text_eq select_one
    count_where update_where take_one
found_first = refl

found_second :
    select_one (is_request 1) (run counting (new counting 1) two_requests).in_flight ≡ some second
unfolding new swept joined semaphore acquired acquire_by try_acquire step run text_eq select_one
    count_where update_where take_one
found_second = refl

-- The second is refused, and its Arc is dropped.
refused : (try_acquire counting (run counting (new counting 1) two_requests) 1).1 ≡ false
unfolding new swept joined semaphore acquired acquire_by try_acquire step run text_eq select_one
    count_where update_where delete_where take_one
refused = refl

running_bound_example : count_running (run counting (new counting 1) two_requests) alice ≤ 1
running_bound_example = running_bound counting 1 two_requests alice

permit_exact_example :
    ((try_acquire counting (run counting (new counting 1) two_requests) 1).1 ≡ true)
    ↔ (count_running (run counting (new counting 1) two_requests) alice < 1)
permit_exact_example = permit_exact counting 1 two_requests 1 second found_second refl

finish-frees_example :
    (try_acquire counting (finish counting (run counting (new counting 1) two_requests) 0) 1).1
    ≡ true
finish-frees_example =
    finish-frees counting 1 two_requests 1 0 second first found_second found_first refl refl refl
