-- ===== src/Concurrency/Limits.antt =====
-- The limits that the requests meet, from the start of the limiter of src/middleware/rate_limit.rs.
use kraken_ui.Common.{
  ℕ, suc, ◌≤◌, ◌<◌, ◌≡◌, ◌↔◌, refl, sym, ◌∙◌, ap, subst, true, false, Option, none, some, List, [],
  ◌∷◌, Text, arith, text_eq_refl, select_one, delete_where,
}
use kraken_ui.Concurrency.{
  SemaphoreApi, InFlight, IpConcurrencyLimiter, is_request, semaphore, swept, joined, upgraded,
  acquired, acquire_by, try_acquire, finish_by, finish, Event, arrives, acquires, finishes, step,
  run, new,
}
use kraken_ui.Concurrency.Rows.{one_gone, one_if, select_one-delete_other, own_number}
use kraken_ui.Concurrency.Invariant.{IsSound, new-IsSound}
use kraken_ui.Concurrency.Preserved.{run-IsSound, step-IsSound}
use kraken_ui.Concurrency.Bound.{running, count_running, at_most, permit_iff}

module _ {S : Type 0} (api : SemaphoreApi S) where
  joined_max :
      (ip : Text) (l : IpConcurrencyLimiter S) (o : Option ℕ)
      → (joined api ip l o).max_per_ip ≡ l.max_per_ip
  unfolding joined
  joined_max ip l none = refl
  joined_max ip l (some k) = refl

  acquire_max :
      (l : IpConcurrencyLimiter S) (o : Option InFlight)
      → (acquire_by api l o).0.max_per_ip ≡ l.max_per_ip
  unfolding acquire_by acquired
  acquire_max l none = refl
  acquire_max l (some r) = ground arith

  finish_max :
      (l : IpConcurrencyLimiter S) (o : Option InFlight)
      → (finish_by api l o).max_per_ip ≡ l.max_per_ip
  unfolding finish_by
  finish_max l none = refl
  finish_max l (some r) = ground arith

  finish_call_max :
      (l : IpConcurrencyLimiter S) (i : ℕ) → (finish api l i).max_per_ip ≡ l.max_per_ip
  unfolding finish
  finish_call_max l i = finish_max l (select_one (is_request i) l.in_flight)

  step_max : (l : IpConcurrencyLimiter S) (e : Event) → (step api l e).max_per_ip ≡ l.max_per_ip
  unfolding step semaphore swept try_acquire finish
  step_max l (arrives ip) = ground (
    arith,
    joined_max ip (swept api l) (upgraded (swept api l).in_flight ((swept api l).semaphores ip)),
  )
  step_max l (acquires i) = acquire_max l (select_one (is_request i) l.in_flight)
  step_max l (finishes i) = finish_call_max l i

  run_max :
      (l : IpConcurrencyLimiter S) (events : List Event)
      → (run api l events).max_per_ip ≡ l.max_per_ip
  unfolding run
  run_max l [] = refl
  run_max l (e ∷ events) = run_max (step api l e) events ∙ step_max l e

  -- Of any address, at most so many requests run at once as the limiter was made for, in whatever order its requests come, try and end.
  pub running_bound :
      (n : ℕ) (events : List Event) (ip : Text) → count_running (run api (new api n) events) ip ≤ n
  unfolding new
  running_bound n events ip = omega (
    arith,
    at_most api (run api (new api n) events)
        (run-IsSound api events (new api n) (new-IsSound api n)) ip,
    run_max (new api n) events,
  )

  -- A request that waits gets a permit if and only if fewer requests of its address run than the limiter was made for, whatever came before.
  pub permit_exact :
      (n : ℕ) (events : List Event) (i : ℕ) (r : InFlight)
      → select_one (is_request i) (run api (new api n) events).in_flight ≡ some r
      → r.permit ≡ false
      → ((try_acquire api (run api (new api n) events) i).1 ≡ true)
        ↔ (count_running (run api (new api n) events) r.client_ip < n)
  unfolding new
  permit_exact n events i r e p =
      subst
        (λ m.
          ((try_acquire api (run api (new api n) events) i).1 ≡ true)
          ↔ (count_running (run api (new api n) events) r.client_ip < m))
        (run_max (new api n) events)
        (permit_iff api (run api (new api n) events)
          (run-IsSound api events (new api n) (new-IsSound api n)) i r e p)

  still_there :
      (i j : ℕ) (xs : List InFlight) (r q : InFlight)
      → select_one (is_request i) xs ≡ some r
      → select_one (is_request j) xs ≡ some q
      → r.permit ≡ false
      → q.permit ≡ true
      → select_one (is_request i) (delete_where (is_request q.request) xs) ≡ some r
  still_there i j xs r q e f p t =
      select_one-delete_other i q.request xs (λ same.
        let own = own_number j xs q f in
        let both : some r ≡ some q = sym e ∙ ap (λ n. select_one (is_request n) xs) same ∙ own in
        cc)
      ∙ e

  finished_fewer :
      (l : IpConcurrencyLimiter S) (j : ℕ) (q : InFlight)
      → IsSound api l
      → select_one (is_request j) l.in_flight ≡ some q
      → q.permit ≡ true
      → suc (count_running (finish api l j) q.client_ip) ≡ count_running l q.client_ip
  unfolding finish finish_by
  finished_fewer l j q s f t =
      let gone =
        one_gone q.request (running q.client_ip) l.in_flight q (s.unique q.request)
          (own_number j l.in_flight q f) in
      let runs : one_if (running q.client_ip q) ≡ 1 = rw (t, text_eq_refl q.client_ip) refl in
      rw (f, t) (omega (arith, gone, runs))

  finish-IsSound :
      (l : IpConcurrencyLimiter S) (j : ℕ) → IsSound api l → IsSound api (finish api l j)
  unfolding step
  finish-IsSound l j s = step-IsSound api (finishes j) l s

  finish_left :
      (l : IpConcurrencyLimiter S) (j : ℕ) (q : InFlight)
      → select_one (is_request j) l.in_flight ≡ some q
      → q.permit ≡ true
      → (finish api l j).in_flight ≡ delete_where (is_request q.request) l.in_flight
  unfolding finish finish_by
  finish_left l j q f t = rw (f, t) refl

  -- When a running request of an address ends, whatever came before, a request of that address that waits gets a permit.
  pub finish-frees :
      (n : ℕ) (events : List Event) (i j : ℕ) (r q : InFlight)
      → select_one (is_request i) (run api (new api n) events).in_flight ≡ some r
      → select_one (is_request j) (run api (new api n) events).in_flight ≡ some q
      → r.permit ≡ false
      → q.permit ≡ true
      → r.client_ip ≡ q.client_ip
      → (try_acquire api (finish api (run api (new api n) events) j) i).1 ≡ true
  finish-frees n events i j r q e f p t same =
      let l = run api (new api n) events in
      let sound = run-IsSound api events (new api n) (new-IsSound api n) in
      let less = finished_fewer l j q sound f t in
      let most = at_most api l sound q.client_ip in
      let kept = finish_call_max l j in
      let there =
        ap (select_one (is_request i)) (finish_left l j q f t)
        ∙ still_there i j l.in_flight r q e f p t in
      (permit_iff api (finish api l j) (finish-IsSound l j sound) i r there p).1
        (rw same (omega (arith, less, most, kept)))
