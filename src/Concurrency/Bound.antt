-- ===== src/Concurrency/Bound.antt =====
-- How many requests of one address run, by the limiter of src/middleware/rate_limit.rs.
use kraken_ui.Common.{
  ℕ, ◌+◌, ◌≤◌, ◌<◌, ◌≡◌, ◌↔◌, refl, sym, ◌∙◌, ap, Bool, true, false, ◌&&◌, Option, none, some, List,
  [], ◌∷◌, Text, arith, ◌==◌, text_eq, text_eq_refl, eq_of_text_eq, select_one, count_where,
  Bool-cases, Option-cases, inl, inr, All, All-select_one,
}
use kraken_ui.Concurrency.{
  SemaphoreApi, InFlight, IpConcurrencyLimiter, holds_permit, is_request, acquired, acquire_by,
  try_acquire,
}
use kraken_ui.Concurrency.Invariant.{IsSound}

-- The requests of an address that run: those with a permit.
abbrev pub running : Text → InFlight → Bool
running ip r = r.permit && text_eq r.client_ip ip

abbrev pub count_running : {S : Type 0} → IpConcurrencyLimiter S → Text → ℕ
count_running l ip = count_where (running ip) l.in_flight

module _ {S : Type 0} (api : SemaphoreApi S) where
  own_semaphore :
      (m : Text → Option ℕ) (ip : Text) (k : ℕ) (x : InFlight)
      → m ip ≡ some k
      → ((ip' : Text) → m ip' ≡ some k → ip' ≡ ip)
      → m x.client_ip ≡ some x.semaphore
      → (x.semaphore == k) ≡ text_eq x.client_ip ip
  own_semaphore m ip k x e only h = go (text_eq x.client_ip ip) refl (x.semaphore == k) refl
    where
      is_k : x.client_ip ≡ ip → x.semaphore ≡ k
      is_k same = let both : some x.semaphore ≡ some k = sym h ∙ ap m same ∙ e in cc

      is_ip : x.semaphore ≡ k → text_eq x.client_ip ip ≡ true
      is_ip same = rw (only x.client_ip (h ∙ ap some same)) (text_eq_refl ip)

      apart : (a b : ℕ) → a ≡ b → (a == b) ≡ false → ⊥
      apart a b e n = ground arith

      go : (a : Bool) → text_eq x.client_ip ip ≡ a → (b : Bool) → (x.semaphore == k) ≡ b → b ≡ a
      go true p true q = refl
      go false p false q = refl
      go true p false q =
          let same = is_k (eq_of_text_eq x.client_ip ip p) in absurd (apart x.semaphore k same q)
      go false p true q = let there : x.semaphore ≡ k = ground arith in sym (is_ip there) ∙ p

  -- The requests that hold permits of a semaphore are those of its address that run.
  same_count :
      (m : Text → Option ℕ) (ip : Text) (k : ℕ) (xs : List InFlight)
      → m ip ≡ some k
      → ((ip' : Text) → m ip' ≡ some k → ip' ≡ ip)
      → All (λ r. m r.client_ip ≡ some r.semaphore) xs
      → count_where (holds_permit k) xs ≡ count_where (running ip) xs
  unfolding count_where
  same_count m ip k [] e only h = refl
  same_count m ip k (x ∷ xs) e only (h, hs) =
      rw (own_semaphore m ip k x e only h, same_count m ip k xs e only hs) refl

  none-running :
      (m : Text → Option ℕ) (ip : Text) (xs : List InFlight)
      → m ip ≡ none
      → All (λ r. m r.client_ip ≡ some r.semaphore) xs
      → count_where (running ip) xs ≡ 0
  unfolding count_where
  none-running m ip [] e h = refl
  none-running m ip (x ∷ xs) e (h, hs) = elim (Bool-cases (text_eq x.client_ip ip)) [
    | inl same ↦
        let clash : none ≡ some x.semaphore =
          sym e ∙ ap m (sym (eq_of_text_eq x.client_ip ip same)) ∙ h in
        cc
    | inr apart ↦ ground (arith, none-running m ip xs e hs)
  ]

  module _ (l : IpConcurrencyLimiter S) (s : IsSound api l) where
    free_permits :
        (ip : Text) (k : ℕ)
        → l.semaphores ip ≡ some k
        → api.available (l.heap k) + count_running l ip ≡ l.max_per_ip
    free_permits ip k e = omega (
      arith,
      s.counted k (s.bounded ip k e),
      same_count l.semaphores ip k l.in_flight e (λ ip' e'. s.apart ip' ip k e' e) s.registered,
    )

    pub at_most : (ip : Text) → count_running l ip ≤ l.max_per_ip
    at_most ip = elim (Option-cases (l.semaphores ip)) [
      | inl e ↦ omega (arith, none-running l.semaphores ip l.in_flight e s.registered)
      | inr (k, e) ↦ omega (arith, free_permits ip k e)
    ]

    -- A request that waits gets a permit exactly if fewer of its address run than may.
    pub permit_iff :
        (i : ℕ) (r : InFlight)
        → select_one (is_request i) l.in_flight ≡ some r
        → r.permit ≡ false
        → ((try_acquire api l i).1 ≡ true) ↔ (count_running l r.client_ip < l.max_per_ip)
    unfolding try_acquire acquire_by acquired
    permit_iff i r e p =
        rw (e, p)
          (go (api.try_acquire (l.heap r.semaphore)) refl (
            free_permits r.client_ip r.semaphore (
              All-select_one (λ r. l.semaphores r.client_ip ≡ some r.semaphore) (is_request i)
                l.in_flight {x = r} s.registered e)))
      where
        go :
            (o : Option S)
            → api.try_acquire (l.heap r.semaphore) ≡ o
            → api.available (l.heap r.semaphore) + count_running l r.client_ip ≡ l.max_per_ip
            → ((acquired api l r o).1 ≡ true) ↔ (count_running l r.client_ip < l.max_per_ip)
        go (some s') t free =
            let more = api.available-acquired (l.heap r.semaphore) s' t in
            (λ h. omega arith, λ h. refl)
        go none t free =
            let full = api.available-refused (l.heap r.semaphore) t in
            (λ h. cc, λ lt. absurd (omega arith))
