-- ===== src/Throttle/Invariant.antt =====
-- The counters of the throttle of src/security/rate_limit.rs: they stay under the threshold, so
-- the 32-bit count never wraps, and no lock reaches further than `lockout`.
use kraken_ui.Common.{
  ℕ, ◌+◌, ◌≤◌, ◌<◌, ◌≡◌, refl, Bool, Option, none, some, Text, arith, text_eq, if_elim, ltb, remove,
  get_or, keep,
}
use kraken_ui.Throttle.{
  Attempt, LoginThrottle, u32_mod, stays, prune, locked_entry, locked_found, locked_for_at,
  fresh_attempt, count_failure, fail_entry, failed_entry, record_failure_at, record_success,
}

abbrev pub LockOk : LoginThrottle → ℕ → ℕ → Option ℕ → Type 0
LockOk t now failures none = failures < t.max_failures
LockOk t now failures (some until) = (failures ≤ t.max_failures) × (until ≤ now + t.lockout)

abbrev pub EntryOk : LoginThrottle → ℕ → Option Attempt → Type 0
EntryOk t now none = Unit {0}
EntryOk t now (some a) = LockOk t now a.failures a.locked_until

-- The configuration counts at least one failure, in 32 bits.
pub record IsConfigured (t : LoginThrottle) : Type 0 where
  pub positive : 0 < t.max_failures
  pub fits : t.max_failures < u32_mod

-- Every entry, seen at the time `now`: an open one is under the threshold, and a lock ends by
-- `now + lockout`.
pub record IsValid (t : LoginThrottle) (now : ℕ) : Type 0 where
  pub configured : IsConfigured t
  pub entry_ok : (k : Text) → EntryOk t now (t.entries k)

abbrev ValidAfter : ℕ → LoginThrottle × Option ℕ → Type 0
ValidAfter now r = IsValid r.0 now

EntryOk-later :
    (t : LoginThrottle) {now later : ℕ} (e : Option Attempt)
    → now ≤ later
    → EntryOk t now e
    → EntryOk t later e
EntryOk-later t none le h = tt
EntryOk-later t (some a) le h = ground arith

EntryOk-keep :
    (t : LoginThrottle) (now : ℕ) (p : Attempt → Bool) (e : Option Attempt)
    → EntryOk t now e
    → EntryOk t now (keep p e)
EntryOk-keep t now p none h = tt
EntryOk-keep t now p (some a) h = ground arith

module _ (t : LoginThrottle) (now : ℕ) (c : IsConfigured t) where
  count_failure-Ok :
      (a : Attempt)
      → a.failures < t.max_failures
      → a.locked_until ≡ none
      → EntryOk t now (some (count_failure t.max_failures t.window t.lockout now a).0)
  unfolding count_failure
  count_failure-Ok a h e = let p = c.positive in let q = c.fits in ground arith

  fail_entry-Ok :
      (a : Attempt) (lock : Option ℕ)
      → a.locked_until ≡ lock
      → EntryOk t now (some a)
      → EntryOk t now (some (fail_entry t.max_failures t.window t.lockout now a lock).0)
  unfolding fail_entry
  fail_entry-Ok a none e h = count_failure-Ok a (ground arith) e
  fail_entry-Ok a (some until) e h =
      ground (arith, count_failure-Ok (fresh_attempt now) c.positive refl)

get_or-Ok :
    (t : LoginThrottle) (now : ℕ) (e : Option Attempt)
    → IsConfigured t
    → EntryOk t now e
    → EntryOk t now (some (get_or (fresh_attempt now) e))
get_or-Ok t now none c h = c.positive
get_or-Ok t now (some a) c h = h

IsValid-later : (t : LoginThrottle) (now later : ℕ) → now ≤ later → IsValid t now → IsValid t later
IsValid-later t now later le v = record {
  configured = v.configured;
  entry_ok = λ k. EntryOk-later t (t.entries k) le (v.entry_ok k);
}

failed_entry-Ok :
    (t : LoginThrottle) (key : Text) (now : ℕ)
    → IsValid t now
    → EntryOk t now (some (failed_entry t key now).0)
unfolding prune
failed_entry-Ok t key now v = fail_entry-Ok t now v.configured _ _ refl (
    get_or-Ok t now _ v.configured
      (EntryOk-keep t now (stays now) (t.entries key) (v.entry_ok key)))

record_failure_at-keeps :
    (t : LoginThrottle) (key : Text) (now : ℕ)
    → IsValid t now
    → IsValid (record_failure_at t key now).0 now
unfolding record_failure_at prune
record_failure_at-keeps t key now v =
    if_elim (ValidAfter now) t.poisoned (λ _. v)
      λ _. record {
        configured = record { positive = v.configured.positive; fits = v.configured.fits };
        entry_ok = λ j.
            if_elim (EntryOk t now) (text_eq j key) (λ _. failed_entry-Ok t key now v)
              λ _. EntryOk-keep t now (stays now) (t.entries j) (v.entry_ok j);
      }

-- Removing a key keeps the throttle valid.
remove-keeps :
    (t : LoginThrottle) (key : Text) (now : ℕ)
    → IsValid t now
    → IsValid (record t { entries = remove key t.entries }) now
remove-keeps t key now v = record {
  configured = record { positive = v.configured.positive; fits = v.configured.fits };
  entry_ok = λ j. if_elim (EntryOk t now) (text_eq j key) (λ _. tt) (λ _. v.entry_ok j);
}

record_success-keeps :
    (t : LoginThrottle) (key : Text) (now : ℕ) → IsValid t now → IsValid (record_success t key) now
unfolding record_success
record_success-keeps t key now v =
    if_elim (λ r. IsValid r now) t.poisoned (λ _. v) (λ _. remove-keeps t key now v)

locked_entry-keeps :
    (t : LoginThrottle) (key : Text) (now : ℕ) (lock : Option ℕ)
    → IsValid t now
    → IsValid (locked_entry t key now lock).0 now
unfolding locked_entry
locked_entry-keeps t key now none v = v
locked_entry-keeps t key now (some until) v =
    if_elim (ValidAfter now) (ltb now until) (λ _. v) (λ _. remove-keeps t key now v)

find-keeps :
    (t : LoginThrottle) (key : Text) (now : ℕ) (e : Option Attempt)
    → IsValid t now
    → IsValid (locked_found t key now e).0 now
unfolding locked_found
find-keeps t key now none v = v
find-keeps t key now (some a) v = locked_entry-keeps t key now a.locked_until v

locked_for_at-keeps :
    (t : LoginThrottle) (key : Text) (now : ℕ)
    → IsValid t now
    → IsValid (locked_for_at t key now).0 now
unfolding locked_for_at
locked_for_at-keeps t key now v =
    if_elim (ValidAfter now) t.poisoned (λ _. v) (λ _. find-keeps t key now (t.entries key) v)

-- The three calls that the program makes, at their times.
pub data Call : Type 0 where
  asks fails succeeds : Text → Call

abbrev pub key_of : Call → Text
key_of (asks key) = key
key_of (fails key) = key
key_of (succeeds key) = key

unfoldable pub call : LoginThrottle → ℕ → Call → LoginThrottle
call t now (asks key) = (locked_for_at t key now).0
call t now (fails key) = (record_failure_at t key now).0
call t now (succeeds key) = record_success t key

-- Whatever call is made, at this time or later, a throttle whose counts are below the threshold
-- and whose locks end by `now + lockout` stays so.
pub call-IsValid :
    (t : LoginThrottle) (now later : ℕ) (c : Call)
    → now ≤ later
    → IsValid t now
    → IsValid (call t later c) later
unfolding call
call-IsValid t now later (asks key) le v =
    locked_for_at-keeps t key later (IsValid-later t now later le v)
call-IsValid t now later (fails key) le v =
    record_failure_at-keeps t key later (IsValid-later t now later le v)
call-IsValid t now later (succeeds key) le v =
    record_success-keeps t key later (IsValid-later t now later le v)
