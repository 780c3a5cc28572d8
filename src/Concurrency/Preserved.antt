-- ===== src/Concurrency/Preserved.antt =====
-- Every lookup, permit and end of a request keeps the limiter of src/middleware/rate_limit.rs sound.
use kraken_ui.Common.{
  ℕ, suc, ◌+◌, ◌<◌, ◌≡◌, refl, Bool, true, false, Option, none, some, List, [], ◌∷◌, arith, ◌==◌,
  if◌then◌else◌, select_one, count_where, update_where, delete_where, All-update_where,
  All-delete_where,
}
use kraken_ui.Concurrency.{
  SemaphoreApi, InFlight, IpConcurrencyLimiter, holds_permit, is_request, put_at, with_permit,
  acquired, acquire_by, try_acquire, finish_by, finish, Event, arrives, acquires, finishes, step,
  run,
}
use kraken_ui.Concurrency.Rows.{one_if, permit_taken, one_gone, fewer, same_numbers, own_number}
use kraken_ui.Concurrency.Invariant.{IsSound, semaphore-IsSound}

module _ {S : Type 0} (api : SemaphoreApi S) where
  -- The requests without one of them.
  dropped-IsSound :
      (l : IpConcurrencyLimiter S) (i : ℕ) (heap : ℕ → S)
      → IsSound api l
      → ((k : ℕ)
          → k < l.next_semaphore
          → api.available (heap k)
              + count_where (holds_permit k) (delete_where (is_request i) l.in_flight)
            ≡ l.max_per_ip)
      → IsSound api (record l { heap = heap; in_flight = delete_where (is_request i) l.in_flight })
  dropped-IsSound l i heap s counted = record {
    registered = All-delete_where _ (is_request i) l.in_flight s.registered;
    made = All-delete_where _ (is_request i) l.in_flight s.made;
    numbered = All-delete_where _ (is_request i) l.in_flight s.numbered;
    unique = λ j. omega (arith, s.unique j, fewer i (is_request j) l.in_flight);
    bounded = s.bounded;
    apart = s.apart;
    counted = counted;
  }

  module _ (l : IpConcurrencyLimiter S) (r : InFlight) (s : IsSound api l)
      (found : select_one (is_request r.request) l.in_flight ≡ some r) where
    at_own : (k : ℕ) → (k == r.semaphore) ≡ true → (r.semaphore == k) ≡ true
    at_own k e = ground arith

    at_other : (k : ℕ) → (k == r.semaphore) ≡ false → (r.semaphore == k) ≡ false
    at_other k e = ground arith

    -- Its semaphore and its permits, once it has taken one.
    taken_counted :
        (free : S) (k : ℕ)
        → r.permit ≡ false
        → api.try_acquire (l.heap r.semaphore) ≡ some free
        → k < l.next_semaphore
        → api.available (put_at l.heap r.semaphore free k)
            + count_where
                (holds_permit k)
                (update_where (is_request r.request) with_permit l.in_flight)
          ≡ l.max_per_ip
    taken_counted free k p t lt = go (k == r.semaphore) refl
      where
        go :
            (b : Bool)
            → (k == r.semaphore) ≡ b
            → api.available (if b then free else l.heap k)
                + count_where
                    (holds_permit k)
                    (update_where (is_request r.request) with_permit l.in_flight)
              ≡ l.max_per_ip
        go true e =
            let more = permit_taken r.request k l.in_flight r (s.unique r.request) found p in
            let is : k ≡ r.semaphore = ground arith in
            let fell : api.available (l.heap k) ≡ suc (api.available free) =
              rw is (api.available-acquired (l.heap r.semaphore) free t) in
            let one : one_if (r.semaphore == k) ≡ 1 = rw (at_own k e) refl in
            omega (arith, s.counted k lt, fell, more, one)
        go false e =
            let more = permit_taken r.request k l.in_flight r (s.unique r.request) found p in
            let none_more : one_if (r.semaphore == k) ≡ 0 = rw (at_other k e) refl in
            omega (arith, s.counted k lt, more, none_more)

    refused_counted :
        (k : ℕ)
        → r.permit ≡ false
        → k < l.next_semaphore
        → api.available (l.heap k)
            + count_where (holds_permit k) (delete_where (is_request r.request) l.in_flight)
          ≡ l.max_per_ip
    refused_counted k p lt =
        let gone = one_gone r.request (holds_permit k) l.in_flight r (s.unique r.request) found in
        let held : one_if (holds_permit k r) ≡ 0 = rw p refl in
        omega (arith, s.counted k lt, gone, held)

    -- Its semaphore and the permits of the others, once it has given its own back.
    released_counted :
        (k : ℕ)
        → r.permit ≡ true
        → k < l.next_semaphore
        → api.available (put_at l.heap r.semaphore (api.release (l.heap r.semaphore)) k)
            + count_where (holds_permit k) (delete_where (is_request r.request) l.in_flight)
          ≡ l.max_per_ip
    released_counted k p lt = go (k == r.semaphore) refl
      where
        go :
            (b : Bool)
            → (k == r.semaphore) ≡ b
            → api.available (if b then api.release (l.heap r.semaphore) else l.heap k)
                + count_where (holds_permit k) (delete_where (is_request r.request) l.in_flight)
              ≡ l.max_per_ip
        go true e =
            let gone =
              one_gone r.request (holds_permit k) l.in_flight r (s.unique r.request) found in
            let is : k ≡ r.semaphore = ground arith in
            let rose : api.available (api.release (l.heap r.semaphore))
                ≡ suc (api.available (l.heap k)) =
              rw is (api.available-release (l.heap r.semaphore)) in
            let held : one_if (holds_permit k r) ≡ 1 = rw (p, at_own k e) refl in
            omega (arith, s.counted k lt, rose, gone, held)
        go false e =
            let gone =
              one_gone r.request (holds_permit k) l.in_flight r (s.unique r.request) found in
            let held : one_if (holds_permit k r) ≡ 0 = rw (p, at_other k e) refl in
            omega (arith, s.counted k lt, gone, held)

    acquired-IsSound :
        (o : Option S)
        → r.permit ≡ false
        → api.try_acquire (l.heap r.semaphore) ≡ o
        → IsSound api (acquired api l r o).0
    unfolding acquired
    acquired-IsSound (some free) p t = record {
      registered =
          All-update_where _ (is_request r.request) with_permit (λ x h. h) l.in_flight s.registered;
      made = All-update_where _ (is_request r.request) with_permit (λ x h. h) l.in_flight s.made;
      numbered =
          All-update_where _ (is_request r.request) with_permit (λ x h. h) l.in_flight s.numbered;
      unique = λ j. omega (arith, s.unique j, same_numbers r.request j l.in_flight);
      bounded = s.bounded;
      apart = s.apart;
      counted = λ k lt. taken_counted free k p t lt;
    }
    acquired-IsSound none p t =
        dropped-IsSound l r.request l.heap s (λ k lt. refused_counted k p lt)

    acquire_found-IsSound : IsSound api (acquire_by api l (some r)).0
    unfolding acquire_by
    acquire_found-IsSound = go r.permit refl
      where
        go :
            (b : Bool)
            → r.permit ≡ b
            → IsSound api
                (if◌then◌else◌ {A = IpConcurrencyLimiter S × Bool} b
                  (l, true)
                  (acquired api l r (api.try_acquire (l.heap r.semaphore)))).0
        go true p = s
        go false p = acquired-IsSound (api.try_acquire (l.heap r.semaphore)) p refl

    finish_found-IsSound : IsSound api (finish_by api l (some r))
    unfolding finish_by
    finish_found-IsSound = go r.permit refl
      where
        go :
            (b : Bool)
            → r.permit ≡ b
            → IsSound api (
                if b
                then record l {
                  heap = put_at l.heap r.semaphore (api.release (l.heap r.semaphore));
                  in_flight = delete_where (is_request r.request) l.in_flight;
                }
                else record l { in_flight = delete_where (is_request r.request) l.in_flight })
        go true p =
            dropped-IsSound l r.request
              (put_at l.heap r.semaphore (api.release (l.heap r.semaphore))) s
              (λ k lt. released_counted k p lt)
        go false p = dropped-IsSound l r.request l.heap s (λ k lt. refused_counted k p lt)

  pub step-IsSound :
      (e : Event) (l : IpConcurrencyLimiter S) → IsSound api l → IsSound api (step api l e)
  unfolding step try_acquire finish acquire_by finish_by
  step-IsSound (arrives ip) l s = semaphore-IsSound api l ip s
  step-IsSound (acquires i) l s = go (select_one (is_request i) l.in_flight) refl
    where
      go :
          (o : Option InFlight)
          → select_one (is_request i) l.in_flight ≡ o
          → IsSound api (acquire_by api l o).0
      go none e = s
      go (some r) e = acquire_found-IsSound l r s (own_number i l.in_flight r e)
  step-IsSound (finishes i) l s = go (select_one (is_request i) l.in_flight) refl
    where
      go :
          (o : Option InFlight)
          → select_one (is_request i) l.in_flight ≡ o
          → IsSound api (finish_by api l o)
      go none e = s
      go (some r) e = finish_found-IsSound l r s (own_number i l.in_flight r e)

  pub run-IsSound :
      (events : List (Event)) (l : IpConcurrencyLimiter S)
      → IsSound api l
      → IsSound api (run api l events)
  unfolding run
  run-IsSound [] l s = s
  run-IsSound (e ∷ events) l s = run-IsSound events (step api l e) (step-IsSound e l s)
