-- ===== src/Throttle/Isolation.antt =====
-- Keys of the throttle of src/security/rate_limit.rs do not disturb one another.
use kraken_ui.Common.{
  ℕ, ◌≤◌, ◌≡◌, ◌≢◌, refl, Option, none, some, Text, arith, text_eq_ne, keep, if_elim, remove, ltb,
}
use kraken_ui.Throttle.{
  Attempt, LoginThrottle, stays, prune, locked_entry, locked_found, locked_for_at,
  record_failure_at, record_success,
}
use kraken_ui.Throttle.Invariant.{Call, asks, fails, succeeds, key_of, call}

-- Pruning an entry at `now` changes no later answer: what it drops is no lock by then.
answer-pruned :
    (t u : LoginThrottle) (key : Text) (now later : ℕ) (e : Option Attempt)
    → now ≤ later
    → (locked_found u key later (keep (stays now) e)).1 ≡ (locked_found t key later e).1
unfolding locked_found
answer-pruned t u key now later none le = refl
answer-pruned t u key now later (some record_of) le = ground arith

answer-same :
    (t u : LoginThrottle) (key : Text) (later : ℕ) (e : Option Attempt)
    → (locked_found u key later e).1 ≡ (locked_found t key later e).1
unfolding locked_found
answer-same t u key later none = refl
answer-same t u key later (some a) = ground arith

record_failure_at-other :
    (t : LoginThrottle) (key other : Text) (now later : ℕ)
    → other ≢ key
    → now ≤ later
    → (locked_for_at (record_failure_at t key now).0 other later).1
      ≡ (locked_for_at t other later).1
unfolding record_failure_at locked_for_at prune
record_failure_at-other t key other now later ne le = ground (
  arith,
  text_eq_ne other key ne,
  answer-pruned t (record_failure_at t key now).0 other now later (t.entries other) le,
)

remove-other :
    (t : LoginThrottle) (key other : Text) (later : ℕ)
    → other ≢ key
    → (locked_for_at (record t { entries = remove key t.entries }) other later).1
      ≡ (locked_for_at t other later).1
unfolding locked_for_at
remove-other t key other later ne = ground (
  arith,
  text_eq_ne other key ne,
  answer-same t (record t { entries = remove key t.entries }) other later (t.entries other),
)

record_success-other :
    (t : LoginThrottle) (key other : Text) (later : ℕ)
    → other ≢ key
    → (locked_for_at (record_success t key) other later).1 ≡ (locked_for_at t other later).1
unfolding record_success
record_success-other t key other later ne =
    if_elim (λ u. (locked_for_at u other later).1 ≡ (locked_for_at t other later).1) t.poisoned
      (λ _. refl) (λ _. remove-other t key other later ne)

abbrev Agrees : LoginThrottle → Text → ℕ → LoginThrottle × Option ℕ → Type 0
Agrees t other later r = (locked_for_at r.0 other later).1 ≡ (locked_for_at t other later).1

locked_for_at-other :
    (t : LoginThrottle) (key other : Text) (now later : ℕ)
    → other ≢ key
    → Agrees t other later (locked_for_at t key now)
unfolding locked_for_at
locked_for_at-other t key other now later ne =
    if_elim (Agrees t other later) t.poisoned (λ _. refl) (λ _. found (t.entries key))
  where
    entry : (lock : Option ℕ) → Agrees t other later (locked_entry t key now lock)
    entry none = refl
    entry (some until) =
        if_elim (Agrees t other later) (ltb now until) (λ _. refl)
          (λ _. remove-other t key other later ne)

    found : (e : Option Attempt) → Agrees t other later (locked_found t key now e)
    found none = refl
    found (some a) = entry a.locked_until

-- A call for one key changes no answer that `locked_for_at` gives, then or later, for another key:
-- nobody locks or unlocks an account from a key of their own.
pub call-other :
    (t : LoginThrottle) (now later : ℕ) (c : Call) (other : Text)
    → other ≢ key_of c
    → now ≤ later
    → (locked_for_at (call t now c) other later).1 ≡ (locked_for_at t other later).1
unfolding call
call-other t now later (asks key) other ne le = locked_for_at-other t key other now later ne
call-other t now later (fails key) other ne le = record_failure_at-other t key other now later ne le
call-other t now later (succeeds key) other ne le = record_success-other t key other later ne
