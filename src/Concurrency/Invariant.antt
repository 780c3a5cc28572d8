-- ===== src/Concurrency/Invariant.antt =====
-- What the limiter of src/middleware/rate_limit.rs keeps through every lookup, permit and end.
use kraken_ui.Common.{
  ℕ, ◌+◌, ◌≤◌, ◌<◌, ◌≡◌, refl, sym, ◌∙◌, ap, Bool, true, false, Option, none, some, List, [], ◌∷◌,
  Text, arith, ◌==◌, ltb, leb, if◌then◌else◌, text_eq, text_eq_refl, eq_of_text_eq, Map, insert,
  keep, Bool-cases, inl, inr, ◌⊎◌, if_elim, count_where, All,
}
use kraken_ui.Concurrency.{
  SemaphoreApi, InFlight, IpConcurrencyLimiter, holds_permit, is_request, strong_count, upgraded,
  put_at, new, swept, joined, semaphore,
}
use kraken_ui.Concurrency.Rows.{All-map, All-both, All-referred, no_number, no_holder}

module _ {S : Type 0} (api : SemaphoreApi S) where
  -- The table names the semaphore of every request in flight, no two addresses share one, and the
  -- permits of each semaphore are the free ones and those held.
  pub record IsSound (l : IpConcurrencyLimiter S) : Type 0 where
    pub registered : All (λ r. l.semaphores r.client_ip ≡ some r.semaphore) l.in_flight
    pub made : All (λ r. r.semaphore < l.next_semaphore) l.in_flight
    pub numbered : All (λ r. r.request < l.next_request) l.in_flight
    pub unique : (i : ℕ) → count_where (is_request i) l.in_flight ≤ 1
    pub bounded : (ip : Text) (k : ℕ) → l.semaphores ip ≡ some k → k < l.next_semaphore
    pub apart :
        (ip ip' : Text) (k : ℕ) → l.semaphores ip ≡ some k → l.semaphores ip' ≡ some k → ip ≡ ip'
    pub counted :
        (k : ℕ)
        → k < l.next_semaphore
        → api.available (l.heap k) + count_where (holds_permit k) l.in_flight ≡ l.max_per_ip

  pub new-IsSound : (n : ℕ) → IsSound (new api n)
  unfolding new count_where
  new-IsSound n = record {
    registered = tt;
    made = tt;
    numbered = tt;
    unique = λ i. none_yet i;
    bounded = λ ip k e. cc;
    apart = λ ip ip' k e. cc;
    counted = λ k lt. absurd (omega arith);
  }
    where
      none_yet : (i : ℕ) → count_where (is_request i) [] ≤ 1
      none_yet i = omega arith

  kept_entry : (p : ℕ → Bool) (o : Option ℕ) (k : ℕ) → keep p o ≡ some k → o ≡ some k
  kept_entry p none k e = cc
  kept_entry p (some j) k e = ground arith

  keeps_entry : (p : ℕ → Bool) (o : Option ℕ) (k : ℕ) → o ≡ some k → p k ≡ true → keep p o ≡ some k
  keeps_entry p none k e h = cc
  keeps_entry p (some j) k e h = ground arith

  referred : (xs : List InFlight) (k : ℕ) → 0 < strong_count xs k → ltb 0 (strong_count xs k) ≡ true
  referred xs k h = ground arith

  swept-IsSound : (l : IpConcurrencyLimiter S) → IsSound l → IsSound (swept api l)
  unfolding swept
  swept-IsSound l s =
      if_elim IsSound (leb _ (l.calls_since_sweep + 1))
        (λ _. record {
          registered =
              All-both (λ r. l.semaphores r.client_ip ≡ some r.semaphore)
                (λ r. 0 < strong_count l.in_flight r.semaphore) _
                (λ r e h.
                  keeps_entry _ (l.semaphores r.client_ip) r.semaphore e
                    (referred l.in_flight r.semaphore h))
                l.in_flight s.registered (All-referred l.in_flight);
          made = s.made;
          numbered = s.numbered;
          unique = s.unique;
          bounded = λ ip k e. s.bounded ip k (kept_entry _ (l.semaphores ip) k e);
          apart = λ ip ip' k e e'.
              s.apart ip ip' k (kept_entry _ (l.semaphores ip) k e)
                (kept_entry _ (l.semaphores ip') k e');
          counted = s.counted;
        })
        (λ _. record {
          registered = s.registered;
          made = s.made;
          numbered = s.numbered;
          unique = s.unique;
          bounded = s.bounded;
          apart = s.apart;
          counted = s.counted;
        })

  upgraded_entry : (xs : List InFlight) (o : Option ℕ) (k : ℕ) → upgraded xs o ≡ some k → o ≡ some k
  upgraded_entry xs none k e = cc
  upgraded_entry xs (some j) k e = ground arith

  -- No request in flight comes from an address whose entry is dead.
  other_ip :
      (l : IpConcurrencyLimiter S) (ip : Text) (r : InFlight)
      → upgraded l.in_flight (l.semaphores ip) ≡ none
      → l.semaphores r.client_ip ≡ some r.semaphore
      → 0 < strong_count l.in_flight r.semaphore
      → text_eq r.client_ip ip ≡ false
  other_ip l ip r dead e alive = elim (Bool-cases (text_eq r.client_ip ip)) [
    | inl same ↦
        let found : l.semaphores ip ≡ some r.semaphore =
          ap l.semaphores (sym (eq_of_text_eq r.client_ip ip same)) ∙ e in
        absurd (clash (l.semaphores ip) found dead)
    | inr away ↦ away
  ]
    where
      clash : (o : Option ℕ) → o ≡ some r.semaphore → upgraded l.in_flight o ≡ none → ⊥
      clash none p q = cc
      clash (some k) p q = ground arith

  one_more :
      (i n : ℕ) (xs : List InFlight) (r : InFlight)
      → r.request ≡ n
      → All (λ r. r.request < n) xs
      → count_where (is_request i) xs ≤ 1
      → count_where (is_request i) (r ∷ xs) ≤ 1
  unfolding count_where
  one_more i n xs r e h u = ground (arith, no_number n xs h)

  no_permit_yet :
      (k : ℕ) (xs : List InFlight) (r : InFlight)
      → r.permit ≡ false
      → count_where (holds_permit k) (r ∷ xs) ≡ count_where (holds_permit k) xs
  unfolding count_where
  no_permit_yet k xs r e = ground arith

  older :
      (n : ℕ) (xs : List InFlight) → All (λ r. r.request < n) xs → All (λ r. r.request < n + 1) xs
  older n xs h = All-map (λ r. r.request < n) (λ r. r.request < n + 1) (λ r p. omega arith) xs h

  joined-some-IsSound :
      (ip : Text) (l : IpConcurrencyLimiter S) (k : ℕ)
      → IsSound l
      → l.semaphores ip ≡ some k
      → IsSound (joined api ip l (some k))
  unfolding joined
  joined-some-IsSound ip l k s e = record {
    registered = (e, s.registered);
    made = (s.bounded ip k e, s.made);
    numbered = (omega arith, older l.next_request l.in_flight s.numbered);
    unique = λ i. one_more i l.next_request l.in_flight _ refl s.numbered (s.unique i);
    bounded = s.bounded;
    apart = s.apart;
    counted = λ j lt. omega (
      arith,
      s.counted j lt,
      no_permit_yet j l.in_flight
          (record { request = l.next_request; client_ip = ip; semaphore = k; permit = false }) refl,
    );
  }

  insert_other : (ip j : Text) (n : ℕ) (m : Map ℕ) → text_eq j ip ≡ false → insert ip n m j ≡ m j
  insert_other ip j n m e = rw e refl

  inserted :
      (ip j : Text) (n k : ℕ) (m : Map ℕ)
      → insert ip n m j ≡ some k
      → ((j ≡ ip) × (k ≡ n)) ⊎ (m j ≡ some k)
  inserted ip j n k m e = go (text_eq j ip) refl e
    where
      go :
          (b : Bool)
          → text_eq j ip ≡ b
          → (if b then some n else m j) ≡ some k
          → ((j ≡ ip) × (k ≡ n)) ⊎ (m j ≡ some k)
      go true p e = inl (eq_of_text_eq j ip p, cc)
      go false p e = inr e

  too_old : (k n : ℕ) → k ≡ n → k < n → ⊥
  too_old k n e h = omega arith

  new_counted :
      (l : IpConcurrencyLimiter S) (k : ℕ) (r : InFlight)
      → IsSound l
      → r.permit ≡ false
      → k < l.next_semaphore + 1
      → api.available (put_at l.heap l.next_semaphore (api.new l.max_per_ip) k)
          + count_where (holds_permit k) (r ∷ l.in_flight)
        ≡ l.max_per_ip
  new_counted l k r s p lt = go (k == l.next_semaphore) refl
    where
      go :
          (b : Bool)
          → (k == l.next_semaphore) ≡ b
          → api.available (if b then api.new l.max_per_ip else l.heap k)
              + count_where (holds_permit k) (r ∷ l.in_flight)
            ≡ l.max_per_ip
      go true e =
          let is : k ≡ l.next_semaphore = ground arith in
          let free : count_where (holds_permit k) l.in_flight ≡ 0 =
            rw is (no_holder l.next_semaphore l.in_flight s.made) in
          omega (arith, api.available-new l.max_per_ip, no_permit_yet k l.in_flight r p)
      go false e =
          let old : k < l.next_semaphore = ground arith in
          omega (arith, s.counted k old, no_permit_yet k l.in_flight r p)

  joined-none-IsSound :
      (ip : Text) (l : IpConcurrencyLimiter S)
      → IsSound l
      → upgraded l.in_flight (l.semaphores ip) ≡ none
      → IsSound (joined api ip l none)
  unfolding joined
  joined-none-IsSound ip l s dead =
      let n = l.next_semaphore in
      let r : InFlight = record {
        request = l.next_request;
        client_ip = ip;
        semaphore = n;
        permit = false;
      } in
      record {
        registered = (
          rw (text_eq_refl ip) refl,
          All-both (λ r. l.semaphores r.client_ip ≡ some r.semaphore)
              (λ r. 0 < strong_count l.in_flight r.semaphore)
              (λ r. insert ip n l.semaphores r.client_ip ≡ some r.semaphore)
              (λ r e h. insert_other ip r.client_ip n l.semaphores (other_ip l ip r dead e h) ∙ e)
              l.in_flight s.registered (All-referred l.in_flight),
        );
        made = (
          omega arith,
          All-map (λ r. r.semaphore < n) (λ r. r.semaphore < n + 1) (λ r p. omega arith) l.in_flight
              s.made,
        );
        numbered = (omega arith, older l.next_request l.in_flight s.numbered);
        unique = λ i. one_more i l.next_request l.in_flight r refl s.numbered (s.unique i);
        bounded = λ j k e. elim (inserted ip j n k l.semaphores e) [
          | inl (_, is) ↦ omega (arith, is)
          | inr old ↦ omega (arith, s.bounded j k old)
        ];
        apart = λ i j k e e'. elim (inserted ip i n k l.semaphores e) [
          | inl (same, is) ↦ elim (inserted ip j n k l.semaphores e') [
            | inl (same', _) ↦ same ∙ sym same'
            | inr old ↦ absurd (too_old k n is (s.bounded j k old))
          ]
          | inr old ↦ elim (inserted ip j n k l.semaphores e') [
            | inl (same', is) ↦ absurd (too_old k n is (s.bounded i k old))
            | inr old' ↦ s.apart i j k old old'
          ]
        ];
        counted = λ k lt. new_counted l k r s refl lt;
      }

  pub semaphore-IsSound :
      (l : IpConcurrencyLimiter S) (ip : Text) → IsSound l → IsSound (semaphore api l ip).0
  unfolding semaphore
  semaphore-IsSound l ip s = go l.poisoned
    where
      joins :
          (o : Option ℕ)
          → upgraded (swept api l).in_flight ((swept api l).semaphores ip) ≡ o
          → IsSound (joined api ip (swept api l) o)
      joins none e = joined-none-IsSound ip (swept api l) (swept-IsSound l s) e
      joins (some k) e =
          joined-some-IsSound ip (swept api l) k (swept-IsSound l s)
            (upgraded_entry (swept api l).in_flight ((swept api l).semaphores ip) k e)

      go :
          (b : Bool)
          → IsSound
              (if◌then◌else◌ {A = IpConcurrencyLimiter S × Option ℕ} b
                (l, none)
                (
                  joined api ip
                      (swept api l)
                      (upgraded (swept api l).in_flight ((swept api l).semaphores ip)),
                  some l.next_request,
                )).0
      go true = s
      go false = joins (upgraded (swept api l).in_flight ((swept api l).semaphores ip)) refl
